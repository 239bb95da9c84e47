-- ===== src/Text.antt =====
-- The JavaScript strings and the string methods that the console's scripts call
-- (web/static/js/js.js, web/static/js/main.js). A string is the list of its UTF-16 code units.
pub mod Laws
pub mod Trim
use Prim.Native.Char.{code}
use Prim.Native.String.{String}
use yulong.Prelude.{
  ℕ, zero, suc, ◌+◌, ◌-◌, ◌/◌, ◌%◌, Bool, true, false, ◌&&◌, ◌||◌, List, [], ◌∷◌, ◌++◌, Option,
  none, some, length, drop, if◌then◌else◌, ◌==◌, ltb, leb, reverse,
}

abbrev pub JsString : Type 0
JsString = List ℕ

-- The literals of the source. Its characters lie in the basic plane, so a code point is a unit.
abbrev pub codes : String → JsString
codes String.[] = []
codes (String.◌∷◌ c s) = code c ∷ codes s

-- `===` of two strings
abbrev pub str_eq : JsString → JsString → Bool
str_eq [] [] = true
str_eq [] (d ∷ t) = false
str_eq (c ∷ s) [] = false
str_eq (c ∷ s) (d ∷ t) = c == d && str_eq s t

-- A string in a condition: only the empty one is false.
abbrev pub truthy : JsString → Bool
truthy [] = false
truthy (c ∷ s) = true

-- The rest of `s` behind the prefix `p`.
abbrev pub strip_prefix : JsString → JsString → Option JsString
strip_prefix [] s = some s
strip_prefix (c ∷ p) [] = none
strip_prefix (c ∷ p) (d ∷ s) = if c == d then strip_prefix p s else none

-- `s.indexOf(c) !== -1` for one character
abbrev pub includes : ℕ → JsString → Bool
includes c [] = false
includes c (d ∷ s) = d == c || includes c s

-- `s.indexOf(c)`; `none` is -1.
abbrev pub index_of : ℕ → JsString → Option ℕ
index_of c [] = none
index_of c (d ∷ s) =
    if d == c then some 0 else elim (index_of c s) [ none ↦ none | some i ↦ some (suc i) ]

-- `s.lastIndexOf(c)`; `none` is -1.
abbrev pub last_index_of : ℕ → JsString → Option ℕ
last_index_of c [] = none
last_index_of c (d ∷ s) = elim (last_index_of c s) [
  | some i ↦ some (suc i)
  | none ↦ if d == c then some 0 else none
]

-- `s.split(c)` for one character: never empty.
abbrev pub cons_first : ℕ → List JsString → List JsString
cons_first c [] = (c ∷ []) ∷ []
cons_first c (w ∷ ws) = (c ∷ w) ∷ ws

unfoldable pub split_char : ℕ → JsString → List JsString
split_char c [] = [] ∷ []
split_char c (d ∷ s) = let rest = split_char c s in if d == c then [] ∷ rest else cons_first d rest

-- `ws.join(sep)`
abbrev pub join : JsString → List JsString → JsString
join sep [] = []
join sep (w ∷ []) = w
join sep (w ∷ v ∷ ws) = w ++ sep ++ join sep (v ∷ ws)

-- `String(n)` of a natural number, its last digit produced first; `n` digits of fuel are enough.
digits_from : ℕ → ℕ → JsString → JsString
digits_from zero n acc = acc
digits_from (suc f) n acc =
    let rest = digits_from f (n / 10) ((b'0' + n % 10) ∷ acc) in
    if ltb n 10 then (b'0' + n) ∷ acc else rest

unfoldable pub to_string : ℕ → JsString
unfolding digits_from
to_string n = digits_from (suc n) n []

-- What `trim` takes away: white space and line terminators.
unfoldable pub is_space : ℕ → Bool
is_space c =
    leb 9 c && leb c 13
    || c == 32
    || c == 0xa0
    || c == 0x1680
    || leb 0x2000 c && leb c 0x200a
    || c == 0x2028
    || c == 0x2029
    || c == 0x202f
    || c == 0x205f
    || c == 0x3000
    || c == 0xfeff

unfoldable pub trim_start : JsString → JsString
trim_start [] = []
trim_start (c ∷ s) = let rest = trim_start s in if is_space c then rest else c ∷ s

-- `s.trim()`
unfoldable pub trim : JsString → JsString
unfolding trim_start
trim s = reverse (trim_start (reverse (trim_start s)))
