-- ===== src/Install/Complete.antt =====
-- The upload of agents comes to its end.
use yulong.Prelude.{
  ℕ, zero, suc, ◌≡◌, ◌⊎◌, inl, inr, refl, ap, ◌∙◌, Bool, true, false, ◌||◌, List, [], ◌∷◌, ◌++◌,
  none, some, ◌==◌, arith, All, Bool-cases,
}
use yulong.Text.{JsString, codes}
use yulong.Page.{Effect, go_to, Reply}
use yulong.Install.{Slots, State, Wait, Result, put_slot, file_reply, answer, file_done}
use yulong.Install.Laws.{is_part, is_set, answer-is_part}

-- Whether the index is set.
abbrev pub set_at : ℕ → Slots → Bool
set_at i [] = false
set_at zero (x ∷ xs) = is_set x
set_at (suc i) (x ∷ xs) = set_at i xs

-- An uploaded file: the index of its agent, its content, and the server's answer.
pub record Event : Type 0 where
  pub index : ℕ
  pub file : JsString
  pub reply : Reply

-- The callbacks of the uploads, in the order in which the answers come.
abbrev pub run : List Event → State → Result
run [] s = (s, [])
run (e ∷ es) s =
    let first = answer (file_done e.index e.file) e.reply s in
    let later = run es first.0 in (later.0, first.1 ++ later.1)

abbrev pub occurs : ℕ → List Event → Bool
occurs i [] = false
occurs i (e ∷ es) = e.index == i || occurs i es

-- The list has the effect.
abbrev pub Has : Effect Wait → List (Effect Wait) → Type 0
Has x [] = ⊥
Has x (y ∷ ys) = (y ≡ x) ⊎ Has x ys

Has-append_left : (x : Effect Wait) (xs ys : List (Effect Wait)) → Has x xs → Has x (xs ++ ys)
Has-append_left x [] ys h = absurd h
Has-append_left x (y ∷ xs) ys (inl e) = inl e
Has-append_left x (y ∷ xs) ys (inr h) = inr (Has-append_left x xs ys h)

Has-append_right : (x : Effect Wait) (xs ys : List (Effect Wait)) → Has x ys → Has x (xs ++ ys)
Has-append_right x [] ys h = h
Has-append_right x (y ∷ xs) ys h = inr (Has-append_right x xs ys h)

set_at-put_slot :
    (i j : ℕ) (file : JsString) (xs : Slots)
    → set_at i (put_slot j file xs) ≡ (j == i || set_at i xs)
unfolding put_slot
set_at-put_slot zero zero file [] = refl
set_at-put_slot zero zero file (x ∷ xs) = refl
set_at-put_slot zero (suc j) file [] = ground arith
set_at-put_slot zero (suc j) file (x ∷ xs) = ground arith
set_at-put_slot (suc i) zero file [] = ground arith
set_at-put_slot (suc i) zero file (x ∷ xs) = ground arith
set_at-put_slot (suc i) (suc j) file [] = ground (arith, set_at-put_slot i j file [])
set_at-put_slot (suc i) (suc j) file (x ∷ xs) = ground (arith, set_at-put_slot i j file xs)

-- Setting an index that is set in the other array keeps a part a part.
is_part-put_slot :
    (i : ℕ) (file : JsString) (xs ys : Slots)
    → set_at i ys ≡ true
    → is_part xs ys ≡ true
    → is_part (put_slot i file xs) ys ≡ true
unfolding put_slot
is_part-put_slot i file xs [] h k = cc
is_part-put_slot zero file [] (none ∷ ys) h k = cc
is_part-put_slot zero file [] (some g ∷ ys) h k = refl
is_part-put_slot zero file (x ∷ xs) (none ∷ ys) h k = cc
is_part-put_slot zero file (none ∷ xs) (some g ∷ ys) h k = k
is_part-put_slot zero file (some f ∷ xs) (some g ∷ ys) h k = k
is_part-put_slot (suc i) file [] (y ∷ ys) h k = is_part-put_slot i file [] ys h refl
is_part-put_slot (suc i) file (none ∷ xs) (y ∷ ys) h k = is_part-put_slot i file xs ys h k
is_part-put_slot (suc i) file (some f ∷ xs) (none ∷ ys) h k = cc
is_part-put_slot (suc i) file (some f ∷ xs) (some g ∷ ys) h k = is_part-put_slot i file xs ys h k

-- A part is seen at its indices.
is_part_of_set_at :
    (xs ys : Slots) → ((i : ℕ) → set_at i xs ≡ true → set_at i ys ≡ true) → is_part xs ys ≡ true
is_part_of_set_at [] ys h = refl
is_part_of_set_at (none ∷ xs) [] h = is_part_of_set_at xs [] (λ i k. h (suc i) k)
is_part_of_set_at (some f ∷ xs) [] h = h 0 refl
is_part_of_set_at (none ∷ xs) (y ∷ ys) h = is_part_of_set_at xs ys (λ i k. h (suc i) k)
is_part_of_set_at (some f ∷ xs) (none ∷ ys) h = h 0 refl
is_part_of_set_at (some f ∷ xs) (some g ∷ ys) h = is_part_of_set_at xs ys (λ i k. h (suc i) k)

moved : (a b c : Bool) → (a || b || c) ≡ true → (b || (a || c)) ≡ true
moved a b c h = ground arith

or_first : (a b : Bool) → a ≡ true → (a || b) ≡ true
or_first a b h = ground arith

abbrev finish : Effect Wait
finish = go_to (codes "?step=4")

run_finishes :
    (es : List Event) (s : State)
    → All (λ e. set_at e.index s.filelist ≡ true) es
    → is_part s.has_upload_filelist s.filelist ≡ true
    → is_part s.filelist s.has_upload_filelist ≡ false
    → ((i : ℕ)
        → set_at i s.filelist ≡ true
        → (occurs i es || set_at i s.has_upload_filelist) ≡ true)
    → Has finish (run es s).1
unfolding answer file_reply
run_finishes [] s chosen part open_ all =
    let whole = is_part_of_set_at s.filelist s.has_upload_filelist all in cc
run_finishes (e ∷ es) s (set, chosen) part open_ all =
    let first = answer (file_done e.index e.file) e.reply s in
    let uploaded = put_slot e.index e.file s.has_upload_filelist in
    let part' = is_part-put_slot e.index e.file s.has_upload_filelist s.filelist set part in
    let shown = answer-is_part e.index e.file e.reply s part' in
    elim (Bool-cases (is_part s.filelist uploaded)) [
      | inl whole ↦ Has-append_left finish first.1 (run es first.0).1 (rw (shown, whole) (inl refl))
      | inr more ↦ Has-append_right finish first.1 (run es first.0).1 (
          run_finishes es first.0 chosen part' more (λ i h.
            rw (set_at-put_slot i e.index e.file s.has_upload_filelist)
              (moved (e.index == i) (occurs i es) (set_at i s.has_upload_filelist) (all i h))))
    ]

-- Where at least one file is chosen, none is uploaded yet, and exactly chosen files are answered,
-- each at least once, in any order, the wizard goes on to its last step.
pub run-finish :
    (es : List Event) (s : State)
    → s.has_upload_filelist ≡ []
    → is_part s.filelist [] ≡ false
    → All (λ e. set_at e.index s.filelist ≡ true) es
    → ((i : ℕ) → set_at i s.filelist ≡ true → occurs i es ≡ true)
    → Has (go_to (codes "?step=4")) (run es s).1
run-finish es s fresh some_chosen chosen all =
    run_finishes es s chosen (ap (λ t. is_part t s.filelist) fresh)
      (ap (λ t. is_part s.filelist t) fresh ∙ some_chosen)
      (λ i h. or_first (occurs i es) (set_at i s.has_upload_filelist) (all i h))
