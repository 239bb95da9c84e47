-- ===== src/Url.antt =====
-- `String.prototype.url_update_query` and `url_add_Paginator` (web/static/js/js.js, and the copy of
-- the first in web/static/upload/main.js). The regular expression `([?&])key=.*?(&|$)` with the flag
-- `i` is a search for its leftmost match; the keys are the literals of the call sites, letters only.
pub mod Query
pub mod Expand
pub mod Search
pub mod Refine
pub mod Laws
pub mod Stamp
pub mod Course
pub mod Tests
use mathlib.Core.Option
use yulong.Prelude.{
  ℕ, ◌+◌, ◌-◌, Bool, ◌&&◌, ◌||◌, List, [], ◌∷◌, ◌++◌, Option, none, some, length, take, leb, ◌==◌,
  if◌then◌else◌,
}
use yulong.Text.{JsString, codes, truthy, includes}

-- The canonical form under the flag `i`: for an ASCII key only ASCII letters matter.
pub fold_case : ℕ → ℕ
fold_case c = if leb b'a' c && leb c b'z' then c - 32 else c

-- `[?&]`
abbrev pub is_delim : ℕ → Bool
is_delim c = c == b'?' || c == b'&'

-- What `.` does not match.
abbrev pub is_line_terminator : ℕ → Bool
is_line_terminator c = c == 10 || c == 13 || c == 0x2028 || c == 0x2029

-- The key and `=`, up to case: what was consumed, and the rest.
unfoldable pub match_key : JsString → JsString → Option (JsString × JsString)
unfolding fold_case
match_key [] s = some ([], s)
match_key (k ∷ ks) [] = none
match_key (k ∷ ks) (c ∷ s) =
    if fold_case k == fold_case c then Option.map (λ p. (c ∷ p.0, p.1)) (match_key ks s) else none

-- `.*?(&|$)`: the value, and the rest, which is empty or begins with `&`.
unfoldable pub match_value : JsString → Option (JsString × JsString)
match_value [] = some ([], [])
match_value (c ∷ s) =
    if c == b'&'
    then some ([], c ∷ s)
    else if is_line_terminator c
    then none
    else Option.map (λ p. (c ∷ p.0, p.1)) (match_value s)

-- The two groups of a match, and what stands before and behind it.
pub record Match : Type 0 where
  pub before : JsString
  pub matched : JsString
  pub group1 : JsString
  pub group2 : JsString
  pub after : JsString

abbrev pub make_match : ℕ → JsString → JsString → JsString → Match
make_match c consumed v [] = record {
  before = [];
  matched = c ∷ (consumed ++ v);
  group1 = c ∷ [];
  group2 = [];
  after = [];
}
make_match c consumed v (d ∷ r) = record {
  before = [];
  matched = c ∷ (consumed ++ (v ++ d ∷ []));
  group1 = c ∷ [];
  group2 = d ∷ [];
  after = r;
}

unfoldable pub match_here : JsString → ℕ → JsString → Option Match
match_here key c s =
    if is_delim c
    then elim (match_key (key ++ codes "=") s) [
      | none ↦ none
      | some (consumed, rest) ↦ elim (match_value rest) [
        | none ↦ none
        | some (v, r) ↦ some (make_match c consumed v r)
      ]
    ]
    else none

abbrev pub behind : ℕ → Match → Match
behind c m = record m { before = c ∷ m.before }

-- `re.exec(uri)`
unfoldable pub find_match : JsString → JsString → Option Match
find_match key [] = none
find_match key (c ∷ s) = elim (match_here key c s) [
  | some m ↦ some m
  | none ↦ Option.map (behind c) (find_match key s)
]

-- The one-character directives of a replacement text with two groups.
unfoldable pub directive : Match → ℕ → Option JsString
directive m d =
    if d == b'$'
    then some (codes "$")
    else if d == b'&'
    then some m.matched
    else if d == 96
    then some m.before
    else if d == 39
    then some m.after
    else if d == b'1'
    then some m.group1
    else if d == b'2'
    then some m.group2
    else none

-- `GetSubstitution`: `$$`, `$&`, `` $` ``, `$'`, `$1`, `$2`, `$01` and `$02`; any other `$` stands
-- for itself, since there are two groups and no named one.
unfoldable pub expand : Match → JsString → JsString
unfolding directive
expand m [] = []
expand m (c ∷ []) = c ∷ []
expand m (c ∷ d ∷ []) =
    if c == b'$'
    then elim (directive m d) [ some s ↦ s | none ↦ c ∷ d ∷ [] ]
    else c ∷ expand m (d ∷ [])
expand m (c ∷ d ∷ e ∷ t) =
    let plain : JsString = c ∷ expand m (d ∷ e ∷ t) in
    let short : JsString = elim (directive m d) [ some s ↦ s ++ expand m (e ∷ t) | none ↦ plain ] in
    let first : JsString = m.group1 ++ expand m t in
    let second : JsString = m.group2 ++ expand m t in
    if c == b'$'
    then if d == b'0' && e == b'1' then first else if d == b'0' && e == b'2' then second else short
    else plain

-- The URL without its fragment: `hash ? this.slice(0, 0-(hash.length)) : this`.
abbrev pub without_hash : JsString → JsString → JsString
without_hash hash url = if truthy hash then take (length url - length hash) url else url

-- `'$1' + key + "=" + value + '$2'`
abbrev pub template : JsString → JsString → JsString
template key value = codes "$1" ++ (key ++ b'=' ∷ (value ++ codes "$2"))

abbrev pub separator : JsString → JsString
separator uri = if includes b'?' uri then codes "&" else codes "?"

-- The branch of a nonempty key.
unfoldable pub update_uri : JsString → JsString → JsString → JsString
unfolding find_match match_here match_key match_value expand
update_uri key value uri = elim (find_match key uri) [
  | some m ↦ m.before ++ (expand m (template key value) ++ m.after)
  | none ↦ uri ++ (separator uri ++ (key ++ b'=' ∷ value))
]

-- `anchor_hash` is the `hash` of an anchor element whose `href` was set, which the browser computes.
module _ (anchor_hash : JsString → JsString) where
  unfoldable pub url_update_query : JsString → JsString → JsString → JsString
  unfolding update_uri
  url_update_query key value url =
      let hash = anchor_hash url in
      let uri = without_hash hash url in
      if truthy key then update_uri key value uri ++ hash else uri ++ hash

  -- `limit` only starts a call whose result is dropped.
  unfoldable pub url_add_Paginator : Option JsString → Option JsString → JsString → JsString
  url_add_Paginator none limit url = url
  url_add_Paginator (some page) limit url = url_update_query (codes "page") page url
