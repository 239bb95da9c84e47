-- ===== src/Dict.antt =====
-- Objects used as dictionaries: the members in the order in which they came.
use yulong.Prelude.{
  ◌≡◌, refl, ap, sym, ◌∙◌, inl, inr, true, List, [], ◌∷◌, Option, none, some, if◌then◌else◌,
  Bool-cases,
}
use yulong.Text.{JsString, str_eq}
use yulong.Text.Laws.{str_eq_iff, str_eq_refl}

module _ {ℓ} {A : Type ℓ} where
  -- `json[name] = value`
  abbrev pub put_field : JsString → A → List (JsString × A) → List (JsString × A)
  put_field name v [] = (name, v) ∷ []
  put_field name v ((n, w) ∷ rest) =
      if str_eq n name then (n, v) ∷ rest else (n, w) ∷ put_field name v rest

  -- The member of that name.
  abbrev pub get_field : JsString → List (JsString × A) → Option A
  get_field name [] = none
  get_field name ((n, v) ∷ rest) = if str_eq n name then some v else get_field name rest

same : (m n : JsString) → str_eq m n ≡ true → m ≡ n
same m n h = (str_eq_iff m n).0 h

pub get_field-put_field {ℓ} :
    {A : Type ℓ} (name n : JsString) (v : A) (json : List (JsString × A))
    → get_field name (put_field n v json) ≡ (if str_eq n name then some v else get_field name json)
get_field-put_field name n v [] = refl
get_field-put_field name n v ((m, w) ∷ rest) = elim (Bool-cases (str_eq m n)) [
  | inl e ↦
      let q : str_eq m name ≡ str_eq n name = ap (λ x. str_eq x name) (same m n e) in
      elim (Bool-cases (str_eq n name)) [ inl t ↦ rw (e, q, t) refl | inr t ↦ rw (e, q, t) refl ]
  | inr e ↦ elim (Bool-cases (str_eq m name)) [
    | inl t ↦ elim (Bool-cases (str_eq n name)) [
      | inl u ↦
          let p : m ≡ n = same m name t ∙ sym (same n name u) in
          let z : str_eq m n ≡ true = sym (ap (λ x. str_eq m x) p) ∙ str_eq_refl m in cc
      | inr u ↦ rw (e, t, u) refl
    ]
    | inr t ↦ rw (e, t) (get_field-put_field name n v rest)
  ]
]
