-- ===== src/Text/Trim.antt =====
-- What `trim` leaves.
use yulong.Prelude.{
  ℕ, ◌≡◌, refl, ap, ◌∙◌, Bool, true, false, not, [], ◌∷◌, ◌++◌, reverse, Bool-cases, inl, inr,
  arith,
}
use mathlib.Core.List.{reverse-append, reverse-reverse}
use yulong.Text.{JsString, is_space, trim_start, trim}

-- The text does not begin with white space.
abbrev pub starts_plain : JsString → Bool
starts_plain [] = true
starts_plain (c ∷ s) = not (is_space c)

-- No white space stands at either end.
abbrev pub IsTrimmed : JsString → Type 0
IsTrimmed s = (starts_plain s ≡ true) × (starts_plain (reverse s) ≡ true)

pub trim_start-plain : (c : ℕ) (s : JsString) → is_space c ≡ false → trim_start (c ∷ s) ≡ c ∷ s
unfolding trim_start
trim_start-plain c s h = rw h refl

starts_plain-trim_start : (s : JsString) → starts_plain (trim_start s) ≡ true
unfolding trim_start
starts_plain-trim_start [] = refl
starts_plain-trim_start (c ∷ s) = elim (Bool-cases (is_space c)) [
  | inl e ↦ rw e (starts_plain-trim_start s)
  | inr e ↦ rw (e, e) refl
]

-- A last character that is no white space stays.
trim_start-append_plain :
    (s : JsString) (c : ℕ) → is_space c ≡ false → trim_start (s ++ c ∷ []) ≡ trim_start s ++ c ∷ []
unfolding trim_start
trim_start-append_plain [] c h = rw h refl
trim_start-append_plain (d ∷ s) c h = elim (Bool-cases (is_space d)) [
  | inl e ↦ rw e (trim_start-append_plain s c h)
  | inr e ↦ rw e refl
]

plain_of_not : (b : Bool) → not b ≡ true → b ≡ false
plain_of_not b h = ground arith

-- Taking white space from the end of a text that begins with none leaves such a text.
starts_plain-trim_end :
    (s : JsString) → starts_plain s ≡ true → starts_plain (reverse (trim_start (reverse s))) ≡ true
starts_plain-trim_end [] h = unfold trim_start in refl
starts_plain-trim_end (c ∷ s) h =
    let plain : is_space c ≡ false = plain_of_not (is_space c) h in
    let front : trim_start (reverse (c ∷ s)) ≡ trim_start (reverse s) ++ c ∷ [] =
      ap trim_start (reverse-append (c ∷ []) s) ∙ trim_start-append_plain (reverse s) c plain in
    let back : reverse (trim_start (reverse (c ∷ s))) ≡ c ∷ reverse (trim_start (reverse s)) =
      ap reverse front ∙ reverse-append (trim_start (reverse s)) (c ∷ []) in
    ap starts_plain back ∙ h

pub trim-IsTrimmed : (s : JsString) → IsTrimmed (trim s)
unfolding trim
trim-IsTrimmed s = (
  starts_plain-trim_end (trim_start s) (starts_plain-trim_start s),
  ap starts_plain (reverse-reverse (trim_start (reverse (trim_start s))))
      ∙ starts_plain-trim_start (reverse (trim_start s)),
)
