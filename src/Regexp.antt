-- ===== src/Regexp.antt =====
-- `escape_regexp` and `string2regexp` (web/static/js/js.js), which turn a text of a notice into a
-- rule's regular expression, and the first number-like run that `/[\d\.]+/` finds (main.js).
pub mod Laws
mod Tests
use yulong.Prelude.{
  ℕ, Bool, true, false, ◌&&◌, ◌||◌, List, [], ◌∷◌, ◌++◌, Option, none, some, ◌==◌, leb,
  if◌then◌else◌,
}
use yulong.Text.{JsString, codes}

-- `[\-\[\]\/\{\}\(\)\*\+\?\.\\\^\$\|]`
unfoldable pub is_escaped : ℕ → Bool
is_escaped c =
    c == b'-'
    || c == b'['
    || c == b']'
    || c == b'/'
    || c == b'{'
    || c == b'}'
    || c == b'('
    || c == b')'
    || c == b'*'
    || c == b'+'
    || c == b'?'
    || c == b'.'
    || c == 92
    || c == b'^'
    || c == b'$'
    || c == b'|'

unfoldable pub escape_regexp : JsString → JsString
escape_regexp [] = []
escape_regexp (c ∷ s) =
    let rest = escape_regexp s in if is_escaped c then 92 ∷ c ∷ rest else c ∷ rest

unfoldable pub string2regexp : JsString → JsString
string2regexp s = codes "^" ++ escape_regexp s ++ codes "$"

-- `[\d\.]`
abbrev pub is_digit_or_dot : ℕ → Bool
is_digit_or_dot c = leb b'0' c && leb c b'9' || c == b'.'

unfoldable pub run_of : JsString → JsString
run_of [] = []
run_of (c ∷ s) = let rest = run_of s in if is_digit_or_dot c then c ∷ rest else []

-- `/[\d\.]+/.exec(s)`: the leftmost run, as long as possible.
unfoldable pub first_run : JsString → Option JsString
unfolding run_of
first_run [] = none
first_run (c ∷ s) =
    let rest = first_run s in if is_digit_or_dot c then some (c ∷ run_of s) else rest
