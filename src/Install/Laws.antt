-- ===== src/Install/Laws.antt =====
-- When the upload of agents is complete.
use yulong.Prelude.{
  ℕ, ◌≤◌, ◌≡◌, refl, ap, Bool, true, false, [], ◌∷◌, Option, none, some, if◌then◌else◌, ◌==◌, arith,
}
use yulong.Text.{JsString, codes}
use yulong.Page.{go_to, Reply}
use yulong.Install.{Slots, State, put_slot, count_length, file_reply, answer, file_done}

-- Whether an index is set.
abbrev pub is_set : Option JsString → Bool
is_set none = false
is_set (some file) = true

-- Every index that is set in the first is set in the second.
abbrev pub is_part : Slots → Slots → Bool
is_part [] ys = true
is_part (none ∷ xs) [] = is_part xs []
is_part (some file ∷ xs) [] = false
is_part (none ∷ xs) (y ∷ ys) = is_part xs ys
is_part (some file ∷ xs) (none ∷ ys) = false
is_part (some file ∷ xs) (some other ∷ ys) = is_part xs ys

count_length-part : (xs ys : Slots) → is_part xs ys ≡ true → count_length xs ≤ count_length ys
unfolding count_length
count_length-part [] ys h = omega arith
count_length-part (none ∷ xs) [] h = count_length-part xs [] h
count_length-part (some file ∷ xs) [] h = cc
count_length-part (none ∷ xs) (none ∷ ys) h = count_length-part xs ys h
count_length-part (none ∷ xs) (some other ∷ ys) h = omega (arith, count_length-part xs ys h)
count_length-part (some file ∷ xs) (none ∷ ys) h = cc
count_length-part (some file ∷ xs) (some other ∷ ys) h = omega (arith, count_length-part xs ys h)

-- Of two arrays, the first a part of the second, the counts agree just where the second is a part
-- of the first.
count_length-eq :
    (xs ys : Slots) → is_part xs ys ≡ true → (count_length xs == count_length ys) ≡ is_part ys xs
unfolding count_length
count_length-eq [] [] h = refl
count_length-eq [] (none ∷ ys) h = count_length-eq [] ys h
count_length-eq [] (some other ∷ ys) h = ground arith
count_length-eq (none ∷ xs) [] h = count_length-eq xs [] h
count_length-eq (some file ∷ xs) [] h = cc
count_length-eq (none ∷ xs) (none ∷ ys) h = count_length-eq xs ys h
count_length-eq (none ∷ xs) (some other ∷ ys) h = ground (arith, count_length-part xs ys h)
count_length-eq (some file ∷ xs) (none ∷ ys) h = cc
count_length-eq (some file ∷ xs) (some other ∷ ys) h =
    let ih = count_length-eq xs ys h in ground (arith, ih)

-- While only chosen files are uploaded, the wizard goes on to its last step just when a file is
-- done behind which every chosen file is uploaded.
pub answer-is_part :
    (i : ℕ) (file : JsString) (r : Reply) (s : State)
    → is_part (put_slot i file s.has_upload_filelist) s.filelist ≡ true
    → (answer (file_done i file) r s).1 ≡ (
        if is_part s.filelist (put_slot i file s.has_upload_filelist)
        then go_to (codes "?step=4") ∷ []
        else [])
unfolding answer file_reply
answer-is_part i file r s h =
    ap (λ b. if b then go_to (codes "?step=4") ∷ [] else [])
      (count_length-eq (put_slot i file s.has_upload_filelist) s.filelist h)
