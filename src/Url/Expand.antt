-- ===== src/Url/Expand.antt =====
-- The replacement text of `url_update_query`.
use yulong.Prelude.{ℕ, ◌≡◌, ◌≢◌, refl, ap, [], ◌∷◌, ◌++◌, arith, append_assoc, append-nil}
use yulong.Text.{JsString, codes}
use yulong.Url.{Match, directive, expand, template}
use yulong.Url.Query.{HasNoDollar}

-- A character that is no `$` stands for itself.
pub expand-cons : (m : Match) (c : ℕ) (t : JsString) → c ≢ b'$' → expand m (c ∷ t) ≡ c ∷ expand m t
unfolding expand
expand-cons m c [] h = refl
expand-cons m c (d ∷ []) h = ground arith
expand-cons m c (d ∷ e ∷ t) h = ground arith

pub expand-append :
    (m : Match) (s t : JsString) → HasNoDollar s → expand m (s ++ t) ≡ s ++ expand m t
expand-append m [] t h = refl
expand-append m (c ∷ s) t (p, h) =
    rw (expand-cons m c (s ++ t) p) (ap (c ∷◌) (expand-append m s t h))

expand-group2 : (m : Match) → expand m (codes "$2") ≡ m.group2
unfolding expand directive
expand-group2 m = refl

expand-group1 : (m : Match) (t : JsString) → expand m (codes "$1" ++ t) ≡ m.group1 ++ expand m t
unfolding expand directive
expand-group1 m [] = rw append-nil
expand-group1 m (e ∷ t) = refl

-- Without `$` in key and value the replacement is the pair between the two groups.
pub expand-template :
    (m : Match) (key value : JsString)
    → HasNoDollar key
    → HasNoDollar value
    → expand m (template key value) ≡ m.group1 ++ (key ++ b'=' ∷ (value ++ m.group2))
expand-template m key value hk hv = simp (
  expand-group1 m (key ++ b'=' ∷ (value ++ codes "$2")),
  expand-append m key (b'=' ∷ (value ++ codes "$2")) hk,
  expand-cons m b'=' (value ++ codes "$2") (omega arith),
  expand-append m value (codes "$2") hv,
  expand-group2,
)

expand-dollars : (m : Match) → expand m (codes "$$2") ≡ codes "$2"
unfolding expand directive
expand-dollars m = refl

-- A `$` at the end of the value swallows the second group.
pub expand-template_dollar :
    (m : Match) (key v : JsString)
    → HasNoDollar key
    → HasNoDollar v
    → expand m (template key (v ++ codes "$")) ≡ m.group1 ++ (key ++ b'=' ∷ (v ++ codes "$2"))
expand-template_dollar m key v hk hv = simp (
  append_assoc v (codes "$") (codes "$2"),
  expand-group1 m (key ++ b'=' ∷ (v ++ codes "$$2")),
  expand-append m key (b'=' ∷ (v ++ codes "$$2")) hk,
  expand-cons m b'=' (v ++ codes "$$2") (omega arith),
  expand-append m v (codes "$$2") hv,
  expand-dollars,
)
