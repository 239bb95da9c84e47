-- ===== src/History.antt =====
-- `add_history` (web/static/js/js.js): the search histories that the browser stores as one text,
-- with `:::` between the entries.
pub mod Laws
mod Tests
use yulong.Prelude.{
  ℕ, Bool, true, false, ◌&&◌, ◌||◌, List, [], ◌∷◌, ◌++◌, length, ◌==◌, leb, if◌then◌else◌,
}
use mathlib.Core.List.{tail}
use yulong.Text.{JsString, codes, str_eq, join, cons_first}

-- `localStorage[key].split(":::")`
unfoldable pub split_history : JsString → List JsString
split_history [] = [] ∷ []
split_history (c ∷ []) = (c ∷ []) ∷ []
split_history (c ∷ d ∷ []) = (c ∷ d ∷ []) ∷ []
split_history (c ∷ d ∷ e ∷ t) =
    let here = [] ∷ split_history t in
    let later = cons_first c (split_history (d ∷ e ∷ t)) in
    if c == b':' && (d == b':' && e == b':') then here else later

abbrev pub separator : JsString
separator = codes ":::"

-- The loop over the entries that looks for the query.
abbrev pub listed : JsString → List JsString → Bool
listed q [] = false
listed q (w ∷ ws) = str_eq w q || listed q ws

-- `if (history_list.length >= 6) history_list.shift()`
abbrev pub shifted : List JsString → List JsString
shifted ws = if leb 6 (length ws) then tail ws else ws

-- The entries behind the call.
unfoldable pub add_entry : JsString → List JsString → List JsString
add_entry q ws = if listed q ws then ws else shifted ws ++ q ∷ []

-- The stored text behind the call.
unfoldable pub add_history : JsString → JsString → JsString
unfolding split_history
add_history q stored =
    let ws = split_history stored in
    if listed q ws then stored else join separator (shifted ws ++ q ∷ [])
