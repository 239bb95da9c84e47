-- ===== src/Url/Search.antt =====
-- Where the regular expression of `url_update_query` matches in a rendered URL.
use yulong.Prelude.{
  ℕ, ◌≡◌, ◌≢◌, refl, sym, ap, ◌∙◌, Bool, true, false, List, [], ◌∷◌, ◌++◌, Option, none, some,
  arith, append_assoc, append-nil, All, All-append, Bool-cases, inl, inr, ◌==◌, if◌then◌else◌,
}
use mathlib.Core.Option
use yulong.Text.{JsString, codes}
use yulong.Url.{
  Match, fold_case, is_delim, match_key, match_value, make_match, match_here, behind, find_match,
}
use yulong.Url.Query.{
  same_name, Pair, render_pairs, put_query, has_query, IsName, IsValue, IsPlainPath, IsQuery,
}

-- What follows a value in a rendered query: nothing, or the next pair behind `&`.
pub data IsRest : JsString → Type 0 where
  stop : IsRest []
  more : (s : JsString) → IsRest (b'&' ∷ s)

match_value-append :
    (v rest : JsString) → IsValue v → IsRest rest → match_value (v ++ rest) ≡ some (v, rest)
unfolding match_value
match_value-append [] [] h stop = refl
match_value-append [] _ h (more s) = refl
match_value-append (c ∷ v) rest (p, h) r = ground (arith, match_value-append v rest h r)

fold_case-eq_sign : (c : ℕ) → (fold_case c ≡ b'=') → c ≡ b'='
unfolding fold_case
fold_case-eq_sign c h = ground arith

abbrev key_result : Bool → JsString → JsString → Option (JsString × JsString)
key_result true n s = some (n ++ b'=' ∷ [], s)
key_result false n s = none

abbrev NoEq : JsString → Type 0
NoEq = All (λ c. c ≢ b'=')

map-key_result :
    (b : Bool) (d : ℕ) (n s : JsString)
    → Option.map {B = JsString × JsString} (λ p. (d ∷ p.0, p.1)) (key_result b n s)
      ≡ key_result b (d ∷ n) s
map-key_result true d n s = refl
map-key_result false d n s = refl

match_key-append :
    (key n s : JsString)
    → NoEq key
    → NoEq n
    → match_key (key ++ codes "=") (n ++ b'=' ∷ s) ≡ key_result (same_name key n) n s
unfolding match_key same_name fold_case
match_key-append [] [] s hk hn = refl
match_key-append [] (d ∷ n) s hk hn = ground arith
match_key-append (k ∷ key) [] s hk hn = ground arith
match_key-append (k ∷ key) (d ∷ n) s hk hn = elim (Bool-cases (fold_case k == fold_case d)) [
  | inl e ↦ rw (e, match_key-append key n s hk.1 hn.1) (map-key_result (same_name key n) d n s)
  | inr e ↦ rw e
]

-- At a delimiter: a pair of the key's name matches, and no other.
match_here-pair :
    (sep : ℕ) (key n v rest : JsString)
    → is_delim sep ≡ true
    → NoEq key
    → NoEq n
    → IsValue v
    → IsRest rest
    → match_here key sep (n ++ b'=' ∷ (v ++ rest))
      ≡ (if same_name key n then some (make_match sep (n ++ b'=' ∷ []) v rest) else none)
unfolding match_here
match_here-pair sep key n v rest hs hk hn hv hr = elim (Bool-cases (same_name key n)) [
  | inl e ↦ rw (hs, match_key-append key n (v ++ rest) hk hn, e, match_value-append v rest hv hr)
  | inr e ↦ rw (hs, match_key-append key n (v ++ rest) hk hn, e)
]

match_here-other : (c : ℕ) (key s : JsString) → is_delim c ≡ false → match_here key c s ≡ none
unfolding match_here
match_here-other c key s h = rw h

abbrev pub prepend : JsString → Option Match → Option Match
prepend [] o = o
prepend (c ∷ s) o = Option.map (behind c) (prepend s o)

pub find_match-skip :
    (key s t : JsString) → IsPlainPath s → find_match key (s ++ t) ≡ prepend s (find_match key t)
unfolding find_match
find_match-skip key [] t h = refl
find_match-skip key (c ∷ s) t (p, h) =
    rw (match_here-other c key (s ++ t) p, find_match)
      (ap (Option.map (behind c)) (find_match-skip key s t h))

abbrev pub put_before : JsString → Match → Match
put_before s m = record m { before = s ++ m.before }

pub prepend-some : (s : JsString) (m : Match) → prepend s (some m) ≡ some (put_before s m)
prepend-some [] m = refl
prepend-some (c ∷ s) m = rw (prepend-some s m)

pub prepend-none : (s : JsString) → prepend s none ≡ none
prepend-none [] = refl
prepend-none (c ∷ s) = rw (prepend-none s)

render_pairs-IsRest : (ps : List Pair) → IsRest (render_pairs b'&' ps)
render_pairs-IsRest [] = stop
render_pairs-IsRest (p ∷ ps) = more _

pub IsName→NoEq : (s : JsString) → IsName s → NoEq s
IsName→NoEq [] h = tt
IsName→NoEq (c ∷ s) (p, h) = (p.1, IsName→NoEq s h)

IsName→IsPlainPath : (s : JsString) → IsName s → IsPlainPath s
IsName→IsPlainPath [] h = tt
IsName→IsPlainPath (c ∷ s) (p, h) = (p.0, IsName→IsPlainPath s h)

IsValue→IsPlainPath : (s : JsString) → IsValue s → IsPlainPath s
IsValue→IsPlainPath [] h = tt
IsValue→IsPlainPath (c ∷ s) (p, h) = (p.0, IsValue→IsPlainPath s h)

-- The URL with the pair put in the place of the match.
abbrev pub spliced : JsString → JsString → Match → JsString
spliced key value m = m.before ++ ((m.group1 ++ (key ++ b'=' ∷ (value ++ m.group2))) ++ m.after)

-- A pair of another name is passed over.
find_match-pass :
    (sep : ℕ) (key n v rest : JsString)
    → is_delim sep ≡ true
    → NoEq key
    → IsName n
    → IsValue v
    → IsRest rest
    → same_name key n ≡ false
    → find_match key (sep ∷ (n ++ b'=' ∷ (v ++ rest)))
      ≡ prepend (sep ∷ (n ++ b'=' ∷ v)) (find_match key rest)
unfolding find_match
find_match-pass sep key n v rest hs hk hn hv hr e =
    let plain : IsPlainPath (n ++ b'=' ∷ v) =
      All-append (λ c. is_delim c ≡ false) n (b'=' ∷ v) (IsName→IsPlainPath n hn)
        (refl, IsValue→IsPlainPath v hv) in
    let missed : match_here key sep (n ++ b'=' ∷ (v ++ rest)) ≡ none =
      rw (match_here-pair sep key n v rest hs hk (IsName→NoEq n hn) hv hr, e) refl in
    rw (find_match, missed)
      (ap (Option.map (behind sep)) (
        ap (find_match key) (sym (append_assoc n (b'=' ∷ v) rest))
        ∙ find_match-skip key (n ++ b'=' ∷ v) rest plain))

-- A pair of the name is the match.
pub find_match-hit :
    (sep : ℕ) (key n v rest : JsString)
    → is_delim sep ≡ true
    → NoEq key
    → IsName n
    → IsValue v
    → IsRest rest
    → same_name key n ≡ true
    → find_match key (sep ∷ (n ++ b'=' ∷ (v ++ rest)))
      ≡ some (make_match sep (n ++ b'=' ∷ []) v rest)
unfolding find_match
find_match-hit sep key n v rest hs hk hn hv hr e =
    let found : match_here key sep (n ++ b'=' ∷ (v ++ rest))
        ≡ some (make_match sep (n ++ b'=' ∷ []) v rest) =
      rw (match_here-pair sep key n v rest hs hk (IsName→NoEq n hn) hv hr, e) refl in
    rw (find_match, found) refl

pub spliced-put_before :
    (key value s : JsString) (m : Match)
    → spliced key value (put_before s m) ≡ s ++ spliced key value m
spliced-put_before key value s m = append_assoc s m.before _

spliced-make_match :
    (sep : ℕ) (key value consumed v rest : JsString)
    → IsRest rest
    → spliced key value (make_match sep consumed v rest) ≡ sep ∷ (key ++ b'=' ∷ (value ++ rest))
spliced-make_match sep key value consumed v [] r = simp (append-nil)
spliced-make_match sep key value consumed v _ (more s) = simp append_assoc

-- If the query has the key, the match is its first pair.
pub find_match-has :
    (sep : ℕ) (key value : JsString) (ps : List Pair)
    → is_delim sep ≡ true
    → NoEq key
    → IsQuery ps
    → has_query key ps ≡ true
    → (m : Match) × (find_match key (render_pairs sep ps) ≡ some m)
      × (spliced key value m ≡ render_pairs sep (put_query key value ps))
find_match-has sep key value [] hs hk hq e = cc
find_match-has sep key value ((n, v) ∷ ps) hs hk ((hn, hv), hq) e =
    let rest = render_pairs b'&' ps in
    let hr = render_pairs-IsRest ps in
    elim (Bool-cases (same_name key n)) [
      | inl same ↦ (
        make_match sep (n ++ b'=' ∷ []) v rest,
        find_match-hit sep key n v rest hs hk hn hv hr same,
        rw same (spliced-make_match sep key value (n ++ b'=' ∷ []) v rest hr),
      )
      | inr other ↦
          let (m, found, spl) = find_match-has b'&' key value ps refl hk hq (rw other at e) in
          (
            put_before (sep ∷ (n ++ b'=' ∷ v)) m,
            find_match-pass sep key n v rest hs hk hn hv hr other
                ∙ ap (prepend (sep ∷ (n ++ b'=' ∷ v))) found
                ∙ prepend-some (sep ∷ (n ++ b'=' ∷ v)) m,
            rw other (
                spliced-put_before key value (sep ∷ (n ++ b'=' ∷ v)) m
                ∙ ap (λ t. (sep ∷ (n ++ b'=' ∷ v)) ++ t) spl
                ∙ ap (sep ∷◌)
                    (append_assoc n (b'=' ∷ v) (render_pairs b'&' (put_query key value ps)))),
          )
    ]

pub find_match-missing :
    (sep : ℕ) (key : JsString) (ps : List Pair)
    → is_delim sep ≡ true
    → NoEq key
    → IsQuery ps
    → has_query key ps ≡ false
    → find_match key (render_pairs sep ps) ≡ none
unfolding find_match
find_match-missing sep key [] hs hk hq e = refl
find_match-missing sep key ((n, v) ∷ ps) hs hk ((hn, hv), hq) e =
    let other : same_name key n ≡ false = ground arith in
    find_match-pass sep key n v (render_pairs b'&' ps) hs hk hn hv (render_pairs-IsRest ps) other
    ∙ ap (prepend (sep ∷ (n ++ b'=' ∷ v)))
        (find_match-missing b'&' key ps refl hk hq (ground arith))
    ∙ prepend-none (sep ∷ (n ++ b'=' ∷ v))
