-- ===== src/Url/Query.antt =====
-- The abstract view of a URL: a path and a list of named values, and the dictionary that
-- `url_update_query` implements on it.
use yulong.Prelude.{
  ℕ, ◌≡◌, ◌≢◌, Bool, true, false, ◌&&◌, List, [], ◌∷◌, ◌++◌, All, ◌==◌, if◌then◌else◌, ◌||◌, refl,
  arith, ==_refl, Bool-cases, inl, inr,
}
use yulong.Text.{JsString}
use yulong.Url.{fold_case, is_delim, is_line_terminator}

-- Names are compared up to the case of ASCII letters.
unfoldable pub same_name : JsString → JsString → Bool
unfolding fold_case
same_name [] [] = true
same_name [] (d ∷ t) = false
same_name (c ∷ s) [] = false
same_name (c ∷ s) (d ∷ t) = fold_case c == fold_case d && same_name s t

abbrev pub Pair : Type 0
Pair = JsString × JsString

-- `?a=1&b=2`, the first pair behind `sep`.
abbrev pub render_pairs : ℕ → List Pair → JsString
render_pairs sep [] = []
render_pairs sep ((n, v) ∷ ps) = sep ∷ (n ++ b'=' ∷ (v ++ render_pairs b'&' ps))

abbrev pub render : JsString → List Pair → JsString
render path ps = path ++ render_pairs b'?' ps

-- The dictionary: the first pair of that name gets the value, or a new pair is added at the end.
abbrev pub put_query : JsString → JsString → List Pair → List Pair
put_query key value [] = (key, value) ∷ []
put_query key value ((n, v) ∷ ps) =
    if same_name key n then (key, value) ∷ ps else (n, v) ∷ put_query key value ps

abbrev pub has_query : JsString → List Pair → Bool
has_query key [] = false
has_query key ((n, v) ∷ ps) = same_name key n || has_query key ps

-- No delimiter, no `=`: a path or a name.
abbrev pub IsName : JsString → Type 0
IsName = All (λ c. (is_delim c ≡ false) × (c ≢ b'='))

-- No delimiter and no line break: a value.
abbrev pub IsValue : JsString → Type 0
IsValue = All (λ c. (is_delim c ≡ false) × (is_line_terminator c ≡ false))

-- No `$`, which a replacement text would read as a directive.
abbrev pub HasNoDollar : JsString → Type 0
HasNoDollar = All (λ c. c ≢ b'$')

abbrev pub IsPlainPath : JsString → Type 0
IsPlainPath = All (λ c. is_delim c ≡ false)

abbrev pub IsQuery : List Pair → Type 0
IsQuery = All (λ p. IsName p.0 × IsValue p.1)

pub same_name_refl : (n : JsString) → same_name n n ≡ true
unfolding same_name
same_name_refl [] = refl
same_name_refl (c ∷ n) = rw (==_refl (fold_case c)) (same_name_refl n)

-- Putting a value twice is putting the last one.
pub put_query-put_query :
    (key v w : JsString) (ps : List Pair)
    → put_query key w (put_query key v ps) ≡ put_query key w ps
put_query-put_query key v w [] = rw (same_name_refl key) refl
put_query-put_query key v w ((n, u) ∷ ps) =
    ground (arith, same_name_refl key, put_query-put_query key v w ps)

pub put_query-IsQuery :
    (key v : JsString) (ps : List Pair)
    → IsName key
    → IsValue v
    → IsQuery ps
    → IsQuery (put_query key v ps)
put_query-IsQuery key v [] hk hv hq = ((hk, hv), tt)
put_query-IsQuery key v ((n, u) ∷ ps) hk hv hq = elim (Bool-cases (same_name key n)) [
  | inl e ↦ rw e ((hk, hv), hq.1)
  | inr e ↦ rw e (hq.0, put_query-IsQuery key v ps hk hv hq.1)
]
