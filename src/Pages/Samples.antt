-- ===== src/Pages/Samples.antt =====
-- The samples that the search box of the analysis page offers on the tab key
-- (web/static/js/main.js, the handler of `keydown`).
pub mod Laws
use yulong.Prelude.{
  ℕ, Bool, true, false, ◌&&◌, ◌||◌, not, List, [], ◌∷◌, ◌++◌, Option, none, some, if◌then◌else◌,
  ◌==◌, leb, map,
}
use mathlib.Core.Option
use yulong.Text.{JsString, codes, str_eq, truthy, split_char, strip_prefix, is_space, trim_start}
use yulong.Dict.{get_field}
use yulong.Language.{global_data_info, Table}
use yulong.Page.{Effect}
use yulong.Pages.{Wait, last_part, ask_samples}

-- `\w`
abbrev pub is_word : ℕ → Bool
is_word c =
    leb b'a' c && leb c b'z'
    || (leb b'A' c && leb c b'Z' || (leb b'0' c && leb c b'9' || c == b'_'))

-- `[\|\b]`, where `\b` is the backspace.
abbrev pub is_end : ℕ → Bool
is_end c = c == b'|' || c == 8

-- `(\w+)[\|\b]` at the start of a text, behind the word `w` that was read: the group.
unfoldable pub read_word : JsString → Option JsString
read_word [] = none
read_word (c ∷ []) = none
read_word (c ∷ d ∷ s) =
    let longer : Option JsString = Option.map (λ w. c ∷ w) (read_word (d ∷ s)) in
    if is_word c then if is_end d then some (c ∷ []) else longer else none

-- `type\s*\:\s*(\w+)[\|\b]` at the start of a text.
abbrev pub behind_colon : JsString → Option JsString
behind_colon [] = none
behind_colon (c ∷ s) = if c == b':' then read_word (trim_start s) else none

unfoldable pub match_type : JsString → Option JsString
match_type s = elim (strip_prefix (codes "type") s) [
  | none ↦ none
  | some t ↦ behind_colon (trim_start t)
]

-- `/type\s*\:\s*(\w+)[\|\b]/.exec(search)`: the group of the first match.
unfoldable pub find_type : JsString → Option JsString
find_type [] = none
find_type (c ∷ s) = elim (match_type (c ∷ s)) [ some kind ↦ some kind | none ↦ find_type s ]

-- `Object.keys`
abbrev pub keys : Table JsString → List JsString
keys [] = []
keys ((k, v) ∷ t) = k ∷ keys t

-- What the tab key does: a request, samples at once, an exception, or nothing.
pub data Tab : Type 0 where
  asked : Effect Wait → Tab
  samples : List JsString → Tab
  thrown : Tab
  nothing : Tab

-- The names that every object has from `Object.prototype`.
abbrev pub prototype_names : List JsString
prototype_names =
    codes "constructor"
    ∷ codes "toString"
    ∷ codes "toLocaleString"
    ∷ codes "valueOf"
    ∷ codes "hasOwnProperty"
    ∷ codes "isPrototypeOf"
    ∷ codes "propertyIsEnumerable"
    ∷ codes "__proto__"
    ∷ codes "__defineGetter__"
    ∷ codes "__defineSetter__"
    ∷ codes "__lookupGetter__"
    ∷ codes "__lookupSetter__"
    ∷ []

abbrev pub is_inherited : JsString → List JsString → Bool
is_inherited kind [] = false
is_inherited kind (n ∷ names) = str_eq n kind || is_inherited kind names

-- The samples of the type: `Object.keys(undefined)` throws, and what is inherited has no keys.
abbrev pub samples_of : JsString → Option (Table JsString) → Tab
samples_of kind none = if is_inherited kind prototype_names then samples [] else thrown
samples_of kind (some table) = samples (keys table)

unfoldable pub tab_key : JsString → JsString → Tab
tab_key analyze_url search = elim (ask_samples analyze_url search) [
  | some request ↦ asked request
  | none ↦
      if truthy (last_part (split_char b'|' search)) then nothing else elim (find_type search) [
        | none ↦ nothing
        | some kind ↦ samples_of kind (get_field kind global_data_info)
      ]
]
