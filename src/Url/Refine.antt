-- ===== src/Url/Refine.antt =====
-- `url_update_query` implements the dictionary of `Url/Query`.
use yulong.Prelude.{
  ℕ, ◌≡◌, refl, ap, ◌∙◌, Bool, true, false, List, [], ◌∷◌, ◌++◌, none, some, arith, append_assoc,
  append-nil, Bool-cases, inl, inr,
}
use yulong.Text.{JsString, codes, includes}
use yulong.Url.{Match, make_match, find_match, update_uri, separator}
use yulong.Url.Expand.{expand-template, expand-template_dollar}
use yulong.Url.Query.{
  same_name, Pair, render_pairs, render, put_query, has_query, IsName, IsValue, HasNoDollar,
  IsPlainPath, IsQuery,
}
use yulong.Url.Search.{
  find_match-skip, find_match-hit, find_match-has, find_match-missing, prepend, prepend-some,
  prepend-none, put_before, spliced-put_before, IsName→NoEq, stop,
}

-- The separator that a new pair gets behind `ps`.
abbrev next_sep : ℕ → List Pair → ℕ
next_sep sep [] = sep
next_sep sep (p ∷ ps) = b'&'

next_sep-amp : (ps : List Pair) → next_sep b'&' ps ≡ b'&'
next_sep-amp [] = refl
next_sep-amp (p ∷ ps) = refl

render_pairs-put_query :
    (sep : ℕ) (key value : JsString) (ps : List Pair)
    → has_query key ps ≡ false
    → render_pairs sep ps ++ next_sep sep ps ∷ (key ++ b'=' ∷ value)
      ≡ render_pairs sep (put_query key value ps)
render_pairs-put_query sep key value [] e = simp append-nil
render_pairs-put_query sep key value ((n, v) ∷ ps) e =
    let other : same_name key n ≡ false = ground arith in
    let ih : render_pairs b'&' ps ++ b'&' ∷ (key ++ b'=' ∷ value)
        ≡ render_pairs b'&' (put_query key value ps) =
      rw (next_sep-amp ps) at (render_pairs-put_query b'&' key value ps (ground arith)) in
    rw other (simp (append_assoc, ih))

abbrev not_empty : List Pair → Bool
not_empty [] = false
not_empty (p ∷ ps) = true

includes-render :
    (path : JsString) (ps : List Pair)
    → IsPlainPath path
    → includes b'?' (render path ps) ≡ not_empty ps
includes-render [] [] h = refl
includes-render [] (p ∷ ps) h = refl
includes-render (c ∷ path) ps (p, h) = ground (arith, includes-render path ps h)

separator-render :
    (path : JsString) (ps : List Pair)
    → IsPlainPath path
    → separator (render path ps) ≡ next_sep b'?' ps ∷ []
separator-render path [] h = rw (includes-render path [] h) refl
separator-render path (p ∷ ps) h = rw (includes-render path (p ∷ ps) h) refl

-- The code on the text is the dictionary on the pairs.
pub update_uri-render :
    (path key value : JsString) (ps : List Pair)
    → IsPlainPath path
    → IsName key
    → HasNoDollar key
    → HasNoDollar value
    → IsQuery ps
    → update_uri key value (render path ps) ≡ render path (put_query key value ps)
unfolding update_uri
update_uri-render path key value ps hp hk dk dv hq = elim (Bool-cases (has_query key ps)) [
  | inl has ↦
      let (m, found, spl) = find_match-has b'?' key value ps refl (IsName→NoEq key hk) hq has in
      let skipped : find_match key (render path ps) ≡ some (put_before path m) =
        find_match-skip key path (render_pairs b'?' ps) hp
        ∙ ap (prepend path) found
        ∙ prepend-some path m in
      rw (update_uri, skipped, expand-template (put_before path m) key value dk dv)
        (spliced-put_before key value path m ∙ ap (λ t. path ++ t) spl)
  | inr missing ↦
      let skipped : find_match key (render path ps) ≡ none =
        find_match-skip key path (render_pairs b'?' ps) hp
        ∙ ap (prepend path) (find_match-missing b'?' key ps refl (IsName→NoEq key hk) hq missing)
        ∙ prepend-none path in
      rw (update_uri, skipped, separator-render path ps hp)
        (append_assoc path (render_pairs b'?' ps) _
          ∙ ap (λ t. path ++ t) (render_pairs-put_query b'?' key value ps missing))
]

-- In a query of one pair of the name, a value that ends in `$` is stored with `$2` in its place.
pub update_uri-dollar :
    (path key n u v : JsString)
    → IsPlainPath path
    → IsName key
    → HasNoDollar key
    → HasNoDollar v
    → IsName n
    → IsValue u
    → same_name key n ≡ true
    → update_uri key (v ++ codes "$") (render path ((n, u) ∷ []))
      ≡ render path ((key, v ++ codes "$2") ∷ [])
unfolding update_uri
update_uri-dollar path key n u v hp hk dk dv hn hu same =
    let m : Match = put_before path (make_match b'?' (n ++ b'=' ∷ []) u []) in
    let found : find_match key (render path ((n, u) ∷ [])) ≡ some m =
      find_match-skip key path (render_pairs b'?' ((n, u) ∷ [])) hp
      ∙ ap (prepend path) (find_match-hit b'?' key n u [] refl (IsName→NoEq key hk) hn hu stop same)
      ∙ prepend-some path (make_match b'?' (n ++ b'=' ∷ []) u []) in
    rw (update_uri, found, expand-template_dollar m key v dk dv) (simp (append-nil))
