-- ===== src/Filters.antt =====
-- The template filters `cut` and `cutWords`, `json_value_to_string` and `Array.prototype.remove`
-- (web/static/js/js.js).
pub mod Laws
mod Tests
use yulong.Prelude.{
  ℕ, zero, suc, ◌-◌, Bool, true, false, not, ◌&&◌, ◌||◌, List, [], ◌∷◌, ◌++◌, Option, none, some,
  length, take, leb, ltb, ◌==◌, if◌then◌else◌, get_elem?,
}
use yulong.Text.{JsString, codes, truthy, str_eq, last_index_of, join}

-- `value.charAt(i) === c`; a place outside the text is the empty string.
abbrev pub char_is : Option ℕ → ℕ → Bool
char_is none c = false
char_is (some d) c = d == c

-- Where the cut text ends: at the last space, and before a dot or comma in front of it. At place 0
-- the source asks for place -1, which holds no character.
unfoldable pub word_end : JsString → ℕ → ℕ
word_end s zero = zero
word_end s (suc i) =
    if char_is (get_elem? s i) b'.' || char_is (get_elem? s i) b',' then i else suc i

unfoldable pub cut_words_back : JsString → JsString
unfolding word_end
cut_words_back s = elim (last_index_of b' ' s) [ none ↦ s | some i ↦ take (word_end s i) s ]

-- The filter `cut`; `max` is `parseInt`'s result, where 0 stands for NaN, too, and `tail` is empty
-- where it is not given.
unfoldable pub cut : JsString → Bool → ℕ → JsString → JsString
unfolding cut_words_back
cut value wordwise max tail =
    if not (truthy value)
    then []
    else if max == 0
    then value
    else if leb (length value) max
    then value
    else (if wordwise then cut_words_back (take max value) else take max value)
      ++ (if truthy tail then tail else codes " …")

-- The filter `cutWords`
unfoldable pub cut_words : JsString → ℕ → JsString
cut_words input n =
    if truthy input
    then if ltb n (length input) then take n input ++ codes " ......" else input
    else input

-- One value in `json_value_to_string`: from 11 characters on it is marked as cut, even where the
-- first thirty characters are all of it.
unfoldable pub shorten : JsString → JsString
shorten s = if ltb 10 (length s) then take 30 s ++ codes " ..." else s

-- The object as its keys and string values, in order.
unfoldable pub values_of : List (JsString × JsString) → List JsString
unfolding shorten
values_of [] = []
values_of ((k, v) ∷ fields) =
    if str_eq k (codes "object") then values_of fields else shorten v ∷ values_of fields

unfoldable pub json_value_to_string : List (JsString × JsString) → JsString → JsString
unfolding values_of
json_value_to_string fields separator = join separator (values_of fields)

-- `while ((ax = this.indexOf(what)) !== -1) this.splice(ax, 1)`: one round.
abbrev pub remove_first : JsString → List JsString → Option (List JsString)
remove_first a [] = none
remove_first a (x ∷ xs) =
    if str_eq x a
    then some xs
    else elim (remove_first a xs) [ none ↦ none | some ys ↦ some (x ∷ ys) ]

-- The inner loop, each round of which shortens the array; `none` means that the fuel ran out.
unfoldable pub remove_loop : ℕ → JsString → List JsString → Option (List JsString)
remove_loop zero a xs = none
remove_loop (suc fuel) a xs = elim (remove_first a xs) [
  | none ↦ some xs
  | some ys ↦ remove_loop fuel a ys
]

-- `while (L && this.length) { what = a[--L]; … }`: the arguments from the last to the first, in
-- that order here.
unfoldable pub remove_all : List JsString → List JsString → Option (List JsString)
unfolding remove_loop
remove_all [] xs = some xs
remove_all (a ∷ as_) [] = some []
remove_all (a ∷ as_) (x ∷ xs) = elim (remove_loop (suc (length (x ∷ xs))) a (x ∷ xs)) [
  | none ↦ none
  | some ys ↦ remove_all as_ ys
]
