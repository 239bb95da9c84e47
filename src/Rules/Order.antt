-- ===== src/Rules/Order.antt =====
-- The order of the rules page's list.
use yulong.Prelude.{◌≡◌, refl, true, false, List, [], ◌∷◌, arith, Bool-cases, inl, inr}
use mathlib.Core.List.{Perm}
use mathlib.Core.List.Perm
use yulong.Text.{JsString}
use yulong.Rules.{Rule, str_lt, insert_rule, sort_rules}

str_lt_asymm : (s t : JsString) → str_lt s t ≡ true → str_lt t s ≡ false
unfolding str_lt
str_lt_asymm [] [] h = refl
str_lt_asymm [] (d ∷ t) h = refl
str_lt_asymm (c ∷ s) [] h = cc
str_lt_asymm (c ∷ s) (d ∷ t) h = ground (arith, str_lt_asymm s t)

-- No name is greater than the name in front of it.
abbrev pub IsDescending : List Rule → Type 0
IsDescending [] = Unit
IsDescending (r ∷ []) = Unit
IsDescending (r ∷ q ∷ qs) = (str_lt r.name q.name ≡ false) × IsDescending (q ∷ qs)

insert_rule-head :
    (p r : Rule) (qs : List Rule)
    → str_lt p.name r.name ≡ false
    → IsDescending (p ∷ qs)
    → IsDescending (insert_rule r qs)
    → IsDescending (p ∷ insert_rule r qs)
unfolding insert_rule
insert_rule-head p r [] h d i = (h, tt)
insert_rule-head p r (q ∷ qs) h d i = elim (Bool-cases (str_lt r.name q.name)) [
  | inl e ↦ rw e (d.0, rw e at i)
  | inr e ↦ rw e (h, (e, d.1))
]

IsDescending-tail : (q : Rule) (qs : List Rule) → IsDescending (q ∷ qs) → IsDescending qs
IsDescending-tail q [] d = tt
IsDescending-tail q (r ∷ qs) d = d.1

insert_rule-IsDescending :
    (r : Rule) (qs : List Rule) → IsDescending qs → IsDescending (insert_rule r qs)
unfolding insert_rule
insert_rule-IsDescending r [] d = tt
insert_rule-IsDescending r (q ∷ qs) d = elim (Bool-cases (str_lt r.name q.name)) [
  | inl e ↦ rw e (
      insert_rule-head q r qs (str_lt_asymm r.name q.name e) d
        (insert_rule-IsDescending r qs (IsDescending-tail q qs d)))
  | inr e ↦ rw e (e, d)
]

insert_rule-perm : (r : Rule) (qs : List Rule) → Perm (insert_rule r qs) (r ∷ qs)
unfolding insert_rule
insert_rule-perm r [] = Perm.refl _
insert_rule-perm r (q ∷ qs) = elim (Bool-cases (str_lt r.name q.name)) [
  | inl e ↦
      rw (insert_rule, e) (Perm.trans (Perm.cons q (insert_rule-perm r qs)) (Perm.swap r q qs))
  | inr e ↦ rw (insert_rule, e) (Perm.refl _)
]

sort_rules-IsDescending : (rs : List Rule) → IsDescending (sort_rules rs)
unfolding sort_rules
sort_rules-IsDescending [] = tt
sort_rules-IsDescending (r ∷ rs) =
    insert_rule-IsDescending r (sort_rules rs) (sort_rules-IsDescending rs)

sort_rules-perm : (rs : List Rule) → Perm (sort_rules rs) rs
unfolding sort_rules
sort_rules-perm [] = Perm.refl []
sort_rules-perm (r ∷ rs) =
    Perm.trans (insert_rule-perm r (sort_rules rs)) (Perm.cons r (sort_rules-perm rs))

-- The list that the page shows holds the rules of the server, each as often, with their names in
-- descending order.
pub sort_rules_lem : (rs : List Rule) → IsDescending (sort_rules rs) × Perm (sort_rules rs) rs
sort_rules_lem rs = (sort_rules-IsDescending rs, sort_rules-perm rs)
