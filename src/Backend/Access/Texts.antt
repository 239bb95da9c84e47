-- ===== src/Backend/Access/Texts.antt =====
-- What the helpers of `Prepare` say of texts.
use mathlib.Core.List.{reverse-reverse, reverse-append}
use yulong.Prelude.{
  All, ℕ, zero, suc, ◌≡◌, refl, sym, ap, ◌∙◌, inl, inr, ◌↔◌, true, List, [], ◌∷◌, ◌++◌, Option,
  none, some, arith, get_elem?, Bool-cases, Option-cases, reverse,
}
use yulong.Text.{JsString, truthy, str_eq, strip_prefix}
use yulong.Text.Laws.{str_eq_iff, strip_prefix-append, strip_prefix-eq}
use yulong.Backend.Access.{string_in_slice, is_some, has_part, find_sub, has_suffix}

-- The text stands somewhere in the other, or at its end.
abbrev pub Occurs : JsString → JsString → Type 0
Occurs key s = (before : JsString) × ((after : JsString) × (s ≡ before ++ (key ++ after)))

abbrev pub Ends : JsString → JsString → Type 0
Ends suffix s = (before : JsString) × (s ≡ before ++ suffix)

is_some_iff {ℓ} : {A : Type ℓ} (o : Option A) → is_some o ≡ true → (a : A) × (o ≡ some a)
is_some_iff none h = ground arith
is_some_iff (some a) h = (a, refl)

has_part-Occurs : (key s : JsString) → has_part key s ≡ true → Occurs key s
has_part-Occurs key [] h =
    let (t, e) = is_some_iff (strip_prefix key []) h in ([], (t, strip_prefix-eq key [] t e))
has_part-Occurs key (c ∷ s) h = elim (Option-cases (strip_prefix key (c ∷ s))) [
  | inr (t, e) ↦ ([], (t, strip_prefix-eq key (c ∷ s) t e))
  | inl e ↦
      let rest : has_part key s ≡ true = rw e at h in
      let (b, (a, p)) = has_part-Occurs key s rest in (c ∷ b, (a, ap (λ t. c ∷ t) p))
]

has_part-prefix : (key s t : JsString) → strip_prefix key s ≡ some t → has_part key s ≡ true
has_part-prefix key [] t e = rw e refl
has_part-prefix key (c ∷ s) t e = rw e refl

has_part-append : (key b a : JsString) → has_part key (b ++ (key ++ a)) ≡ true
has_part-append key [] a = has_part-prefix key (key ++ a) a (strip_prefix-append key a)
has_part-append key (c ∷ b) a = elim (Option-cases (strip_prefix key (c ∷ (b ++ (key ++ a))))) [
  | inl e ↦ rw e (has_part-append key b a)
  | inr (t, e) ↦ rw e refl
]

has_part_iff : (key s : JsString) → (has_part key s ≡ true) ↔ Occurs key s
has_part_iff key s =
    (has_part-Occurs key s, λ o. ap (has_part key) o.1.1 ∙ has_part-append key o.0 o.1.0)

-- One of the texts stands in the other.
abbrev pub SomeOccurs : List JsString → JsString → Type 0
SomeOccurs keys s = (i : ℕ) × ((key : JsString) × (get_elem? keys i ≡ some key) × Occurs key s)

find_sub-SomeOccurs :
    (keys : List JsString) (s : JsString) → truthy (find_sub keys s) ≡ true → SomeOccurs keys s
unfolding find_sub
find_sub-SomeOccurs [] s h = ground arith
find_sub-SomeOccurs (key ∷ keys) s h = elim (Bool-cases (has_part key s)) [
  | inl e ↦ (0, (key, refl, has_part-Occurs key s e))
  | inr e ↦
      let rest : truthy (find_sub keys s) ≡ true = rw e at h in
      let (i, (k, f, o)) = find_sub-SomeOccurs keys s rest in (suc i, (k, f, o))
]

SomeOccurs-find_sub :
    (keys : List JsString) (s : JsString)
    → All (λ key. truthy key ≡ true) keys
    → SomeOccurs keys s
    → truthy (find_sub keys s) ≡ true
unfolding find_sub
SomeOccurs-find_sub [] s h (i, (k, e, o)) = cc
SomeOccurs-find_sub (key ∷ keys) s (h, hs) (zero, (k, e, o)) =
    let same : key ≡ k = cc in
    let found : has_part key s ≡ true = ap (λ t. has_part t s) same ∙ (has_part_iff k s).1 o in
    rw found h
SomeOccurs-find_sub (key ∷ keys) s (h, hs) (suc i, (k, e, o)) = elim (Bool-cases (has_part key s)) [
  | inl f ↦ rw f h
  | inr f ↦ rw f (SomeOccurs-find_sub keys s hs (i, (k, e, o)))
]

pub find_sub_iff :
    (keys : List JsString) (s : JsString)
    → All (λ key. truthy key ≡ true) keys
    → (truthy (find_sub keys s) ≡ true) ↔ SomeOccurs keys s
find_sub_iff keys s h = (find_sub-SomeOccurs keys s, SomeOccurs-find_sub keys s h)

pub has_suffix_iff : (s suffix : JsString) → (has_suffix s suffix ≡ true) ↔ Ends suffix s
has_suffix_iff s suffix = (
  λ h.
      let (t, e) = is_some_iff (strip_prefix (reverse suffix) (reverse s)) h in
      let turned : reverse s ≡ reverse suffix ++ t =
        strip_prefix-eq (reverse suffix) (reverse s) t e in
      (
        reverse t,
        sym (reverse-reverse s)
            ∙ ap reverse turned
            ∙ reverse-append (reverse suffix) t
            ∙ ap (λ u. reverse t ++ u) (reverse-reverse suffix),
      ),
  λ o.
      ap (λ u. is_some (strip_prefix (reverse suffix) (reverse u))) o.1
      ∙ ap (λ u. is_some (strip_prefix (reverse suffix) u)) (reverse-append o.0 suffix)
      ∙ ap is_some (strip_prefix-append (reverse suffix) (reverse o.0)),
)

abbrev pub Listed : JsString → List JsString → Type 0
Listed a list = (i : ℕ) × (get_elem? list i ≡ some a)

pub string_in_slice-Listed :
    (a : JsString) (list : List JsString) → string_in_slice a list ≡ true → Listed a list
unfolding string_in_slice
string_in_slice-Listed a [] h = ground arith
string_in_slice-Listed a (b ∷ list) h = elim (Bool-cases (str_eq b a)) [
  | inl e ↦ (0, ap some ((str_eq_iff b a).0 e))
  | inr e ↦
      let rest : string_in_slice a list ≡ true = rw e at h in
      let (i, f) = string_in_slice-Listed a list rest in (suc i, f)
]

pub Listed-string_in_slice :
    (a : JsString) (list : List JsString) → Listed a list → string_in_slice a list ≡ true
unfolding string_in_slice
Listed-string_in_slice a [] (i, e) = cc
Listed-string_in_slice a (b ∷ list) (zero, e) =
    let same : b ≡ a = cc in rw ((str_eq_iff b a).1 same) refl
Listed-string_in_slice a (b ∷ list) (suc i, e) =
    rw (Listed-string_in_slice a list (i, e)) (ground arith)
