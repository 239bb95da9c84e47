-- ===== src/Config/Lists.antt =====
-- Reading and writing the lists of values.
use yulong.Prelude.{
  ℕ, zero, suc, ◌≡◌, refl, ◌∙◌, ap, false, List, [], ◌∷◌, ◌++◌, some, arith, Bool-cases, inl, inr,
}
use yulong.Text.{JsString, str_eq}
use yulong.Text.Laws.{str_eq_refl}
use yulong.Filters.{remove_all}
use yulong.Filters.Laws.{without, remove_all-without_all}
use yulong.Config.{Config, lookup_dic, values_at, put_dic, put_values, contains}

module _ (k : JsString) where
  lookup_dic-put_dic :
      (vs ws : List JsString) (d : List (JsString × List JsString))
      → lookup_dic k d ≡ some vs
      → lookup_dic k (put_dic k ws d) ≡ some ws
  lookup_dic-put_dic vs ws [] h = cc
  lookup_dic-put_dic vs ws ((j, us) ∷ d) h = elim (Bool-cases (str_eq j k)) [
    | inl e ↦ rw (e, e) refl
    | inr e ↦ rw (e, e) (lookup_dic-put_dic vs ws d (rw e at h))
  ]

  put_dic-put_dic :
      (ws xs : List JsString) (d : List (JsString × List JsString))
      → put_dic k xs (put_dic k ws d) ≡ put_dic k xs d
  put_dic-put_dic ws xs [] = refl
  put_dic-put_dic ws xs ((j, us) ∷ d) = ground (arith, put_dic-put_dic ws xs d)

  put_dic-lookup_dic :
      (vs : List JsString) (d : List (JsString × List JsString))
      → lookup_dic k d ≡ some vs
      → put_dic k vs d ≡ d
  put_dic-lookup_dic vs [] h = refl
  put_dic-lookup_dic vs ((j, us) ∷ d) h = ground (arith, put_dic-lookup_dic vs d)

  pub values_at-put_values :
      (i : ℕ) (vs ws : List JsString) (cs : List Config)
      → values_at i k cs ≡ some vs
      → values_at i k (put_values i k ws cs) ≡ some ws
  values_at-put_values i vs ws [] h = cc
  values_at-put_values zero vs ws (c ∷ cs) h = lookup_dic-put_dic vs ws c.dic h
  values_at-put_values (suc i) vs ws (c ∷ cs) h = values_at-put_values i vs ws cs h

  -- Putting the old list back restores the settings.
  pub put_values-put_values :
      (i : ℕ) (vs ws : List JsString) (cs : List Config)
      → values_at i k cs ≡ some vs
      → put_values i k vs (put_values i k ws cs) ≡ cs
  put_values-put_values i vs ws [] h = cc
  put_values-put_values zero vs ws (c ∷ cs) h =
      let same : put_dic k vs (put_dic k ws c.dic) ≡ c.dic =
        put_dic-put_dic ws vs c.dic ∙ put_dic-lookup_dic vs c.dic h in
      ap (λ d. record c { dic = d } ∷ cs) same
  put_values-put_values (suc i) vs ws (c ∷ cs) h = ap (c ∷◌) (put_values-put_values i vs ws cs h)

without-absent : (v : JsString) (vs : List JsString) → contains v vs ≡ false → without v vs ≡ vs
without-absent v [] h = refl
without-absent v (w ∷ vs) h = ground (arith, without-absent v vs)

without-append :
    (v : JsString) (vs : List JsString) → contains v vs ≡ false → without v (vs ++ v ∷ []) ≡ vs
without-append v [] h = rw (str_eq_refl v) refl
without-append v (w ∷ vs) h = ground (arith, without-append v vs)

-- Removing a value that was pushed to a list without it gives the list back.
pub remove_all-append :
    (v : JsString) (vs : List JsString)
    → contains v vs ≡ false
    → remove_all (v ∷ []) (vs ++ v ∷ []) ≡ some vs
remove_all-append v vs h =
    remove_all-without_all (v ∷ []) (vs ++ v ∷ []) ∙ ap some (without-append v vs h)
