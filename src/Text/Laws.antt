-- ===== src/Text/Laws.antt =====
-- Laws of the string methods.
use yulong.Prelude.{
  ℕ, ◌≡◌, refl, ap, ◌∙◌, ◌↔◌, true, false, List, [], ◌∷◌, ◌++◌, some, arith, All, append_assoc,
  ◌==◌, ltb, zero, suc, ◌+◌, ◌/◌, ◌%◌, Bool-cases, inl, inr,
}
use yulong.Text.{JsString, str_eq, strip_prefix, codes, digits_from, to_string, split_char, join}

pub str_eq_iff : (s t : JsString) → (str_eq s t ≡ true) ↔ (s ≡ t)
str_eq_iff [] [] = ground arith
str_eq_iff [] (d ∷ t) = ground arith
str_eq_iff (c ∷ s) [] = ground arith
str_eq_iff (c ∷ s) (d ∷ t) = ground (arith, str_eq_iff s t)

pub str_eq_refl : (s : JsString) → str_eq s s ≡ true
str_eq_refl s = (str_eq_iff s s).1 refl

pub strip_prefix-append : (p s : JsString) → strip_prefix p (p ++ s) ≡ some s
strip_prefix-append [] s = refl
strip_prefix-append (c ∷ p) s = ground (arith, strip_prefix-append p s)

-- What is left of a text behind a prefix is its end.
pub strip_prefix-eq : (p s t : JsString) → strip_prefix p s ≡ some t → s ≡ p ++ t
strip_prefix-eq [] s t h = ground arith
strip_prefix-eq (c ∷ p) [] t h = cc
strip_prefix-eq (c ∷ p) (d ∷ s) t h = ground (arith, strip_prefix-eq p s t)

-- A text without the separator.
abbrev pub IsPlain : ℕ → JsString → Type 0
IsPlain c = All (λ d. (d == c) ≡ false)

pub split_char-plain : (c : ℕ) (w : JsString) → IsPlain c w → split_char c w ≡ w ∷ []
unfolding split_char
split_char-plain c [] h = refl
split_char-plain c (d ∷ w) (p, h) = rw (p, split_char-plain c w h) refl

pub split_char-append :
    (c : ℕ) (w s : JsString) → IsPlain c w → split_char c (w ++ c ∷ s) ≡ w ∷ split_char c s
unfolding split_char
split_char-append c [] s h = let q : (c == c) ≡ true = ground arith in rw q refl
split_char-append c (d ∷ w) s (p, h) = rw (p, split_char-append c w s h) refl

pub split_char-join :
    (c : ℕ) (w : JsString) (ws : List JsString)
    → All (IsPlain c) (w ∷ ws)
    → split_char c (join (c ∷ []) (w ∷ ws)) ≡ w ∷ ws
split_char-join c w [] (h, k) = split_char-plain c w h
split_char-join c w (v ∷ ws) (h, k) =
    ap (split_char c) (append_assoc w (c ∷ []) (join (c ∷ []) (v ∷ ws)))
    ∙ split_char-append c w (join (c ∷ []) (v ∷ ws)) h
    ∙ ap (λ us. w ∷ us) (split_char-join c v ws k)

to_string_123 : to_string 1230 ≡ codes "1230"
unfolding to_string
to_string_123 = refl

digit-not : (c n : ℕ) → ltb c b'0' ≡ true → (b'0' + n == c) ≡ false
digit-not c n h = ground arith

-- The characters of a number are its digits, which stand behind the signs.
digits_from-IsPlain :
    (c f n : ℕ) (acc : JsString)
    → ltb c b'0' ≡ true
    → IsPlain c acc
    → IsPlain c (digits_from f n acc)
unfolding digits_from
digits_from-IsPlain c zero n acc h k = k
digits_from-IsPlain c (suc f) n acc h k = elim (Bool-cases (ltb n 10)) [
  | inl e ↦ rw e (digit-not c n h, k)
  | inr e ↦
      rw e (digits_from-IsPlain c f (n / 10) ((b'0' + n % 10) ∷ acc) h (digit-not c (n % 10) h, k))
]

pub to_string-IsPlain : (c n : ℕ) → ltb c b'0' ≡ true → IsPlain c (to_string n)
unfolding to_string
to_string-IsPlain c n h = digits_from-IsPlain c (suc n) n [] h tt
