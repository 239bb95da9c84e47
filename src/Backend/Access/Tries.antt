-- ===== src/Backend/Access/Tries.antt =====
-- How often a password can be tried.
use yulong.Prelude.{
  ℕ, zero, suc, ◌+◌, ◌≤◌, ◌≡◌, ◌≢◌, refl, ap, ◌∙◌, ◌⊎◌, inl, inr, Bool, true, false, List, [], ◌∷◌,
  ◌++◌, arith, length, if◌then◌else◌, replicate, append-nil, append_assoc, ◌&&◌, length-append,
}
use yulong.Backend.Access.{
  AppConfig, Request, Outcome, passed, wrong_password, wrong_token, is_guarded, first_historys,
  pushed, popped, check_csrf, check_two_factor, prepare,
}

-- The outcomes behind a comparison with the password.
abbrev pub is_answer : Outcome → Bool
is_answer passed = true
is_answer wrong_password = true
is_answer wrong_token = true
is_answer o = false

module _ (app : AppConfig) where
  -- Whether `Prepare` compared a request's password with the present one. The handler for settling
  -- all notices compares it too, at an address that `Prepare` leaves to it.
  abbrev pub compared : Request → Outcome → Bool
  compared r o = is_guarded app r && is_answer o

  -- How many of the requests have their password compared by `Prepare`, the present one being the
  -- same.
  abbrev pub tries : ℕ → List Request → List ℕ → ℕ
  tries serverside [] historys = 0
  tries serverside (r ∷ rs) historys =
      let (o, next) = prepare serverside app r historys in
      (if compared r o then 1 else 0) + tries serverside rs next

  -- The passwords that are remembered behind requests at any times.
  abbrev pub historys_after : List (ℕ × Request) → List ℕ → List ℕ
  historys_after [] historys = historys
  historys_after ((serverside, r) ∷ es) historys =
      historys_after es (prepare serverside app r historys).1

  -- One request either leaves the passwords, and has none compared, or pushes the present one, and
  -- has it compared only where the oldest is another.
  step :
      (serverside : ℕ) (r : Request) (historys : List ℕ)
      → let (o, next) = prepare serverside app r historys in
        ((next ≡ historys) × (compared r o ≡ false))
        ⊎ ((next ≡ pushed serverside historys)
            × ((popped serverside historys ≢ serverside) ⊎ (compared r o ≡ false)))
  unfolding prepare check_two_factor check_csrf
  step serverside r historys = ground arith

  replicate-snoc : (n s : ℕ) → replicate n s ++ s ∷ [] ≡ s ∷ replicate n s
  replicate-snoc zero s = refl
  replicate-snoc (suc n) s = rw (replicate-snoc n s) refl

  pushed-replicate : (s n : ℕ) → pushed s (replicate n s) ≡ replicate n s
  pushed-replicate s zero = refl
  pushed-replicate s (suc n) = replicate-snoc n s

  popped-replicate : (s n : ℕ) → popped s (replicate n s) ≡ s
  popped-replicate s zero = refl
  popped-replicate s (suc n) = refl

  pushed-cons :
      (s x : ℕ) (xs : List ℕ) (n : ℕ)
      → pushed s ((x ∷ xs) ++ replicate n s) ≡ xs ++ replicate (suc n) s
  pushed-cons s x xs n =
      append_assoc xs (replicate n s) (s ∷ []) ∙ ap (λ t. xs ++ t) (replicate-snoc n s)

  -- What is remembered ends in the present password; only what stands before can be compared with.
  tries_suffix :
      (serverside : ℕ) (rs : List Request) (xs : List ℕ) (n : ℕ)
      → tries serverside rs (xs ++ replicate n serverside) ≤ length xs
  tries_suffix s [] xs n = omega arith
  tries_suffix s (r ∷ rs) [] n = elim (step s r (replicate n s)) [
    | inl (e, f) ↦ rw (f, e) (omega (arith, tries_suffix s rs [] n))
    | inr (e, inl f) ↦ absurd (f (popped-replicate s n))
    | inr (e, inr f) ↦ rw (f, e, pushed-replicate s n) (omega (arith, tries_suffix s rs [] n))
  ]
  tries_suffix s (r ∷ rs) (x ∷ xs) n = elim (step s r ((x ∷ xs) ++ replicate n s)) [
    | inl (e, f) ↦ rw (f, e) (omega (arith, tries_suffix s rs (x ∷ xs) n))
    | inr (e, inl f) ↦ rw (e, pushed-cons s x xs n) (ground (arith, tries_suffix s rs xs (suc n)))
    | inr (e, inr f) ↦ rw (f, e, pushed-cons s x xs n) (omega (arith, tries_suffix s rs xs (suc n)))
  ]

  length-pushed : (s : ℕ) (h : List ℕ) → length (pushed s h) ≡ length h
  length-pushed s [] = refl
  length-pushed s (x ∷ h) = omega (arith, length-append h (s ∷ []))

  length-historys_after :
      (es : List (ℕ × Request)) (h : List ℕ) → length (historys_after es h) ≡ length h
  length-historys_after [] h = refl
  length-historys_after ((s, r) ∷ es) h = elim (step s r h) [
    | inl (e, f) ↦ rw e (length-historys_after es h)
    | inr (e, f) ↦ rw e (length-historys_after es (pushed s h) ∙ length-pushed s h)
  ]

  -- Whatever requests came before, of those that come while the time-based password stays the same
  -- `Prepare` compares the passwords of at most six with it.
  pub tries_bounds :
      (es : List (ℕ × Request)) (serverside : ℕ) (rs : List Request)
      → tries serverside rs (historys_after es first_historys) ≤ 6
  tries_bounds es s rs =
      let h : List ℕ = historys_after es first_historys in
      let bound : tries s rs (h ++ []) ≤ length h = tries_suffix s rs h 0 in
      let whole : tries s rs h ≤ length h = rw (append-nil h) at bound in
      omega (arith, length-historys_after es first_historys)
