-- ===== src/Install/Tests.antt =====
-- Runs of the install wizard, and an instance of its theorem.
use yulong.Prelude.{ℕ, zero, suc, List, ◌≡◌, refl, true, [], ◌∷◌, none, some, if◌then◌else◌}
use yulong.Text.{codes}
use yulong.Page.{go_to, Reply}
use yulong.Install.{State, put_slot, answer, file_done}
use yulong.Install.Complete.{Event, set_at, occurs, Has, run, run-finish}
use yulong.Install.Laws.{is_part, answer-is_part}

-- Agents for 32-bit Windows and for Linux are chosen, and the first is uploaded.
abbrev page : State
page = record {
  step = 3;
  filelist = some (codes "a") ∷ none ∷ some (codes "b") ∷ [];
  has_upload_filelist = some (codes "a") ∷ [];
}

abbrev done : Reply
done = record { status = some true; msg = [] }

last_file : (answer (file_done 2 (codes "b")) done page).1 ≡ go_to (codes "?step=4") ∷ []
unfolding answer
last_file = refl

answer-is_part_example : (answer (file_done 2 (codes "b")) done page).1 ≡ (
    if is_part page.filelist (put_slot 2 (codes "b") page.has_upload_filelist)
    then go_to (codes "?step=4") ∷ []
    else [])
answer-is_part_example = answer-is_part 2 (codes "b") done page (unfold put_slot in refl)

abbrev fresh : State
fresh = record page { has_upload_filelist = [] }

-- The second file is done before the first.
abbrev events : List Event
events =
    record { index = 2; file = codes "b"; reply = done }
    ∷ record { index = 0; file = codes "a"; reply = done }
    ∷ []

every_file : (i : ℕ) → set_at i fresh.filelist ≡ true → occurs i events ≡ true
every_file zero h = refl
every_file (suc zero) h = cc
every_file (suc (suc zero)) h = refl
every_file (suc (suc (suc i))) h = cc

run-finish_example : Has (go_to (codes "?step=4")) (run events fresh).1
run-finish_example = run-finish events fresh refl refl (refl, (refl, tt)) every_file
