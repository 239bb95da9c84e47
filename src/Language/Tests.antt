-- ===== src/Language/Tests.antt =====
-- Runs of the tables, and an instance of their theorem.
use yulong.Prelude.{◌≡◌, refl, false, [], ◌∷◌}
use yulong.Text.{JsString, codes}
use yulong.Language.{Table, update}

abbrev tables : Table (Table JsString)
tables = (codes "style", (codes "level", codes "a") ∷ []) ∷ (codes "zh_cn", []) ∷ []

abbrev dict : Table JsString
dict = (codes "level", codes "b") ∷ (codes "status", codes "c") ∷ []

merged :
    (update false (codes "style") dict tables).0 ≡ (codes "style", dict) ∷ (codes "zh_cn", []) ∷ []
unfolding update
merged = refl
