-- ===== src/History/Tests.antt =====
-- Runs of the search history, and instances of its theorems.
use yulong.Prelude.{◌≡◌, refl, true, List, [], ◌∷◌, arith}
use yulong.Text.{JsString, codes, join}
use yulong.History.{split_history, separator, listed, add_entry, add_history}
use yulong.History.Laws.{IsHistory, add_history-IsHistory, split_history-add_history}

abbrev entries : List JsString
entries = codes "web" ∷ codes "db" ∷ []

first_entry : add_history (codes "ip:10") [] ≡ codes ":::ip:10"
unfolding add_history
first_entry = refl

entries-IsHistory : IsHistory entries
entries-IsHistory = record { distinct = (refl, (refl, tt)); bounded = omega arith }

add_history-IsHistory_example :
    IsHistory (split_history (add_history (codes "os") (join separator entries)))
    × (listed (codes "os") (split_history (add_history (codes "os") (join separator entries)))
        ≡ true)
add_history-IsHistory_example =
    add_history-IsHistory (codes "os") (codes "web") (codes "db" ∷ []) (ground arith) (ground arith)
      entries-IsHistory

split_history-add_history_example :
    split_history (add_history (codes "os") (join separator entries))
    ≡ add_entry (codes "os") entries
split_history-add_history_example =
    split_history-add_history (codes "os") (codes "web") (codes "db" ∷ []) (ground arith)
      (ground arith)
