-- ===== src/Filters/Laws.antt =====
-- What the filters keep, and what `remove` removes.
use yulong.Prelude.{
  ℕ, zero, suc, ◌+◌, ◌≤◌, ◌<◌, ◌≡◌, refl, ap, sym, ◌∙◌, inl, inr, Bool, true, false, List, [], ◌∷◌,
  ◌++◌, none, some, length, take, leb, if◌then◌else◌, arith, leb→le, Bool-cases, Option-cases,
  length-append, length-take,
}
use yulong.Text.{JsString, codes, truthy, str_eq, last_index_of}
use yulong.Filters.{
  word_end, cut_words_back, cut, cut_words, shorten, remove_first, remove_loop, remove_all,
}

-- Behind the loop for `a` the array is the old one without `a`, in order.
abbrev pub without : JsString → List JsString → List JsString
without a [] = []
without a (x ∷ xs) = if str_eq x a then without a xs else x ∷ without a xs

remove_first-none :
    (a : JsString) (xs : List JsString) → remove_first a xs ≡ none → without a xs ≡ xs
remove_first-none a [] h = refl
remove_first-none a (x ∷ xs) h = ground (arith, remove_first-none a xs)

unwrap {ℓ} : {A : Type ℓ} {a b : A} → some a ≡ some b → a ≡ b
unwrap h = cc

not_some {ℓ} : {A : Type ℓ} {b : A} → none ≡ some b → ⊥
not_some h = cc

remove_first-some :
    (a : JsString) (xs ys : List JsString)
    → remove_first a xs ≡ some ys
    → (without a ys ≡ without a xs) × (suc (length ys) ≡ length xs)
remove_first-some a [] ys h = cc
remove_first-some a (x ∷ xs) ys h = elim (Bool-cases (str_eq x a)) [
  | inl e ↦ let same : xs ≡ ys = unwrap (rw e at h) in rw (e, ← same) (refl, refl)
  | inr e ↦ elim (Option-cases (remove_first a xs)) [
    | inl missing ↦ absurd (not_some (rw (e, missing) at h))
    | inr (zs, found) ↦
        let same : x ∷ zs ≡ ys = unwrap (rw (e, found) at h) in
        let (eq, n) = remove_first-some a xs zs found in rw (← same, e) (ap (x ∷◌) eq, omega arith)
  ]
]

-- Enough fuel: the loop ends after at most as many rounds as there are elements.
remove_loop-without :
    (fuel : ℕ) (a : JsString) (xs : List JsString)
    → length xs < fuel
    → remove_loop fuel a xs ≡ some (without a xs)
unfolding remove_loop
remove_loop-without zero a xs h = absurd (omega arith)
remove_loop-without (suc fuel) a xs h = elim (Option-cases (remove_first a xs)) [
  | inl e ↦ rw (remove_loop, e) (ap some (sym (remove_first-none a xs e)))
  | inr (ys, e) ↦
      let (same, shorter) = remove_first-some a xs ys e in
      rw (remove_loop, e) (remove_loop-without fuel a ys (omega arith) ∙ ap some same)
]

abbrev pub without_all : List JsString → List JsString → List JsString
without_all [] xs = xs
without_all (a ∷ more) xs = without_all more (without a xs)

without_all-nil : (more : List JsString) → without_all more [] ≡ []
without_all-nil [] = refl
without_all-nil (a ∷ more) = without_all-nil more

-- `remove` ends, and takes away every occurrence of every argument and nothing else.
pub remove_all-without_all :
    (args xs : List JsString) → remove_all args xs ≡ some (without_all args xs)
unfolding remove_all
remove_all-without_all [] xs = refl
remove_all-without_all (a ∷ args) [] = ap some (sym (without_all-nil args))
remove_all-without_all (a ∷ args) (x ∷ xs) =
    rw (remove_all, remove_loop-without (suc (length (x ∷ xs))) a (x ∷ xs) (omega arith))
      (remove_all-without_all args (without a (x ∷ xs)))

-- The last space, where there is one, stands in the text.
last_index_of-lt : (c : ℕ) (s : JsString) (i : ℕ) → last_index_of c s ≡ some i → i < length s
last_index_of-lt c [] i h = cc
last_index_of-lt c (d ∷ s) i h = elim (Option-cases (last_index_of c s)) [
  | inl e ↦ ground arith
  | inr (j, e) ↦
      let same : suc j ≡ i = unwrap (rw e at h) in omega (arith, last_index_of-lt c s j e)
]

take-length : (s : JsString) → take (length s) s ≡ s
take-length [] = refl
take-length (c ∷ s) = ap (c ∷◌) (take-length s)

take-take : (m n : ℕ) (s : JsString) → m ≤ n → take m (take n s) ≡ take m s
take-take zero n s h = refl
take-take (suc m) zero s h = absurd (omega arith)
take-take (suc m) (suc n) [] h = refl
take-take (suc m) (suc n) (c ∷ s) h = ap (c ∷◌) (take-take m n s (omega arith))

word_end-le : (s : JsString) (i : ℕ) → word_end s i ≤ i
unfolding word_end
word_end-le s zero = omega arith
word_end-le s (suc i) = ground arith

-- What is left of a text cut back to a word is a beginning of it.
cut_words_back-take : (s : JsString) → (n : ℕ) × (n ≤ length s) × (cut_words_back s ≡ take n s)
unfolding cut_words_back
cut_words_back-take s = elim (Option-cases (last_index_of b' ' s)) [
  | inl e ↦ (length s, omega arith, rw (cut_words_back, e) (sym (take-length s)))
  | inr (i, e) ↦ (
    word_end s i,
    omega (arith, word_end-le s i, last_index_of-lt b' ' s i e),
    rw (cut_words_back, e) refl,
  )
]

abbrev mark : JsString → JsString
mark tail = if truthy tail then tail else codes " …"

-- A text within the limit is kept.
cut-short :
    (value : JsString) (wordwise : Bool) (max : ℕ) (tail : JsString)
    → length value ≤ max
    → cut value wordwise max tail ≡ value
unfolding cut
cut-short [] wordwise max tail h = refl
cut-short (c ∷ value) wordwise max tail h = ground arith

-- A longer one is a beginning of at most `max` characters, and the mark.
cut-long :
    (value : JsString) (wordwise : Bool) (max : ℕ) (tail : JsString)
    → 0 < max
    → max < length value
    → (n : ℕ) × (n ≤ max) × (cut value wordwise max tail ≡ take n value ++ mark tail)
unfolding cut
cut-long [] wordwise max tail p h = absurd (omega arith)
cut-long (c ∷ value) false max tail p h = (max, omega arith, ground arith)
cut-long (c ∷ value) true max tail p h =
    let (n, le, same) = cut_words_back-take (take max (c ∷ value)) in
    let le' : n ≤ max = omega (arith, length-take max (c ∷ value)) in
    let whole : cut_words_back (take max (c ∷ value)) ≡ take n (c ∷ value) =
      same ∙ take-take n max (c ∷ value) le' in
    (n, le', ground arith)

-- The filter `cut` with a positive limit keeps a text of at most `max` characters, and of a longer
-- one a beginning of at most `max` characters, which it marks with `tail`, or ` …` where that is
-- empty.
cut_lem :
    (value : JsString) (wordwise : Bool) (max : ℕ) (tail : JsString)
    → 0 < max
    → (n : ℕ) × (n ≤ max)
      × (cut value wordwise max tail
          ≡ (if leb (length value) max then value else take n value ++ mark tail))
cut_lem value wordwise max tail p = elim (Bool-cases (leb (length value) max)) [
  | inl e ↦ (max, omega arith, rw e (cut-short value wordwise max tail (leb→le _ _ e)))
  | inr e ↦
      let (n, le, same) = cut-long value wordwise max tail p (ground arith) in (n, le, rw e same)
]

take-append : (n : ℕ) (s t : JsString) → n ≤ length s → take n (take n s ++ t) ≡ take n s
take-append zero s t h = refl
take-append (suc n) [] t h = absurd (omega arith)
take-append (suc n) (c ∷ s) t h = ap (c ∷◌) (take-append n s t (omega arith))

-- The filter `cutWords` shows the first `n` characters as they are, and at most seven more.
pub cut_words_lem :
    (input : JsString) (n : ℕ)
    → (take n (cut_words input n) ≡ take n input) × (length (cut_words input n) ≤ n + 7)
unfolding cut_words
cut_words_lem [] n = (refl, omega arith)
cut_words_lem (c ∷ s) n = (
  ground (arith, take-append n (c ∷ s) (codes " ......")),
  ground (arith, length-append (take n (c ∷ s)) (codes " ......"), length-take n (c ∷ s)),
)

take-all : (n : ℕ) (s : JsString) → length s ≤ n → take n s ≡ s
take-all zero [] h = refl
take-all zero (c ∷ s) h = absurd (omega arith)
take-all (suc n) [] h = refl
take-all (suc n) (c ∷ s) h = ap (c ∷◌) (take-all n s (omega arith))

-- A value of 11 to 30 characters is shown whole and still marked as cut.
pub shorten_whole : (s : JsString) → 10 < length s → length s ≤ 30 → shorten s ≡ s ++ codes " ..."
unfolding shorten
shorten_whole s h k = ground (arith, take-all 30 s k)
