-- ===== src/Statistics/Counts.antt =====
-- The counts of the hours in the controller `statistics` (web/static/js/main.js).
use yulong.Prelude.{ℕ, zero, suc, List, [], ◌∷◌, Option, none, some, replicate}

-- An item of the hours: the day (0 or 1), the hour, and the number of messages.
pub record Item : Type 0 where
  pub day : ℕ
  pub hour : ℕ
  pub count : ℕ

-- The cells of one day; `none` is a hole behind the hours that were there at the start.
abbrev pub Cells : Type 0
Cells = List (Option ℕ)

abbrev pub zeros : Cells
zeros = replicate 24 (some 0)

-- `row[i] = n`: behind the end the array grows, with holes.
unfoldable pub put_cell : ℕ → ℕ → Cells → Cells
put_cell zero n [] = some n ∷ []
put_cell zero n (x ∷ xs) = some n ∷ xs
put_cell (suc i) n [] = none ∷ put_cell i n []
put_cell (suc i) n (x ∷ xs) = x ∷ put_cell i n xs

-- `count_lst[day][hour] = n`; a day that is not there throws.
unfoldable pub put_item : ℕ → ℕ → ℕ → Cells × Cells → Option (Cells × Cells)
unfolding put_cell
put_item zero hour n (first, second) = some (put_cell hour n first, second)
put_item (suc zero) hour n (first, second) = some (first, put_cell hour n second)
put_item (suc (suc day)) hour n rows = none

-- The loop over the items.
unfoldable pub fill : List Item → Cells × Cells → Option (Cells × Cells)
unfolding put_item
fill [] rows = some rows
fill (i ∷ is) rows = elim (put_item i.day i.hour i.count rows) [
  | none ↦ none
  | some next ↦ fill is next
]

-- A missing list of items is `[[0, 0, 0]]`.
abbrev pub items_of : Option (List Item) → List Item
items_of none = record { day = 0; hour = 0; count = 0 } ∷ []
items_of (some is) = is

unfoldable pub count_lst : Option (List Item) → Option (Cells × Cells)
unfolding fill
count_lst listdata = fill (items_of listdata) (zeros, zeros)
