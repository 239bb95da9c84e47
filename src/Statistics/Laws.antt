-- ===== src/Statistics/Laws.antt =====
-- The chart of the hours shows the server's numbers.
use yulong.Prelude.{
  ◌+◌, map, ℕ, zero, suc, ◌<◌, ◌≡◌, refl, ap, ◌∙◌, ◌&&◌, List, [], ◌∷◌, Option, none, some, length,
  replicate, if◌then◌else◌, ◌==◌, arith, All,
}
use yulong.Statistics.{State, answer, time_loaded, time}
use yulong.Statistics.Counts.{Item, Cells, zeros, put_cell, put_item, fill, count_lst}
use yulong.Text.{JsString, codes, str_eq, to_string}
use yulong.Page.{Json, object, array, text, Fields, end, field, Items, nil, cons, items}
use yulong.Statistics.Charts.{time_option, cell, list, hours_from}

-- What an array holds at an index: a hole and an index behind the end are no number.
abbrev pub cell_at : ℕ → Cells → Option ℕ
cell_at i [] = none
cell_at zero (x ∷ xs) = x
cell_at (suc i) (x ∷ xs) = cell_at i xs

-- The count of the last item for that day and hour.
abbrev pub last_count : ℕ → ℕ → List Item → Option ℕ → Option ℕ
last_count d h [] found = found
last_count d h (i ∷ is) found =
    last_count d h is (if i.day == d && i.hour == h then some i.count else found)

abbrev pub row : ℕ → Cells × Cells → Cells
row zero (first, second) = first
row (suc d) (first, second) = second

cell_at-put_cell :
    (h i n : ℕ) (xs : Cells)
    → cell_at h (put_cell i n xs) ≡ (if i == h then some n else cell_at h xs)
unfolding put_cell
cell_at-put_cell zero zero n [] = refl
cell_at-put_cell zero zero n (x ∷ xs) = refl
cell_at-put_cell zero (suc i) n [] = ground arith
cell_at-put_cell zero (suc i) n (x ∷ xs) = ground arith
cell_at-put_cell (suc h) zero n [] = ground arith
cell_at-put_cell (suc h) zero n (x ∷ xs) = ground arith
cell_at-put_cell (suc h) (suc i) n [] = ground (arith, cell_at-put_cell h i n [])
cell_at-put_cell (suc h) (suc i) n (x ∷ xs) = ground (arith, cell_at-put_cell h i n xs)

length-put_cell : (i n : ℕ) (xs : Cells) → i < length xs → length (put_cell i n xs) ≡ length xs
unfolding put_cell
length-put_cell i n [] h = omega arith
length-put_cell zero n (x ∷ xs) h = refl
length-put_cell (suc i) n (x ∷ xs) h = omega (arith, length-put_cell i n xs (omega arith))

-- The item has a cell in the chart.
abbrev pub IsInside : Item → Type 0
IsInside i = (i.day < 2) × (i.hour < 24)

abbrev HasWidth : Cells × Cells → Type 0
HasWidth rows = (length rows.0 ≡ 24) × (length rows.1 ≡ 24)

-- One item: its cell gets the count, and every other cell stays.
record Stored (d h day hour n : ℕ) (rows : Cells × Cells) : Type 0 where
  next : Cells × Cells
  done : put_item day hour n rows ≡ some next
  width : HasWidth next
  shown :
      cell_at h (row d next) ≡ (if day == d && hour == h then some n else cell_at h (row d rows))

put_item-Stored :
    (d h day hour n : ℕ) (rows : Cells × Cells)
    → d < 2
    → day < 2
    → hour < 24
    → HasWidth rows
    → Stored d h day hour n rows
unfolding put_item
put_item-Stored zero h zero hour n (first, second) k l m (p, q) = record {
  next = (put_cell hour n first, second);
  done = refl;
  width = (length-put_cell hour n first (omega arith) ∙ p, q);
  shown = cell_at-put_cell h hour n first;
}
put_item-Stored (suc d) h zero hour n (first, second) k l m (p, q) = record {
  next = (put_cell hour n first, second);
  done = refl;
  width = (length-put_cell hour n first (omega arith) ∙ p, q);
  shown = ground arith;
}
put_item-Stored zero h (suc zero) hour n (first, second) k l m (p, q) = record {
  next = (first, put_cell hour n second);
  done = refl;
  width = (p, length-put_cell hour n second (omega arith) ∙ q);
  shown = ground arith;
}
put_item-Stored (suc zero) h (suc zero) hour n (first, second) k l m (p, q) = record {
  next = (first, put_cell hour n second);
  done = refl;
  width = (p, length-put_cell hour n second (omega arith) ∙ q);
  shown = cell_at-put_cell h hour n second;
}
put_item-Stored (suc (suc d)) h (suc zero) hour n rows k l m p = absurd (omega arith)
put_item-Stored d h (suc (suc day)) hour n rows k l m p = absurd (omega arith)

-- What the loop leaves in the two days.
abbrev pub Filled : ℕ → ℕ → List Item → Cells × Cells → Type 0
Filled d h is rows =
    (out : Cells × Cells) × (fill is rows ≡ some out)
    × HasWidth out
    × (cell_at h (row d out) ≡ last_count d h is (cell_at h (row d rows)))

fill_lem :
    (d h : ℕ) (is : List Item) (rows : Cells × Cells)
    → d < 2
    → All IsInside is
    → HasWidth rows
    → Filled d h is rows
unfolding fill
fill_lem d h [] rows k inside w = (rows, refl, w, refl)
fill_lem d h (i ∷ is) rows k (inside, rest) w =
    let p = put_item-Stored d h i.day i.hour i.count rows k inside.0 inside.1 w in
    let (out, done, width, shown) = fill_lem d h is p.next k rest p.width in
    (out, rw (fill, p.done) done, width, shown ∙ ap (last_count d h is) p.shown)

cell_at-replicate : (h n : ℕ) → h < n → cell_at h (replicate n (some 0)) ≡ some 0
cell_at-replicate h zero l = absurd (omega arith)
cell_at-replicate zero (suc n) l = refl
cell_at-replicate (suc h) (suc n) l = cell_at-replicate h n (omega arith)

start : (d h : ℕ) → d < 2 → h < 24 → cell_at h (row d (zeros, zeros)) ≡ some 0
start zero h k l = cell_at-replicate h 24 l
start (suc d) h k l = cell_at-replicate h 24 l

-- A member of an object, and an element of an array, of the options as the library reads them.
abbrev field_of : JsString → Fields → Option Json
field_of name end = none
field_of name (field key j rest) = if str_eq key name then some j else field_of name rest

abbrev pub member : JsString → Option Json → Option Json
member name (some (object fs)) = field_of name fs
member name j = none

abbrev item_of : ℕ → Items → Option Json
item_of i nil = none
item_of zero (cons j rest) = some j
item_of (suc i) (cons j rest) = item_of i rest

abbrev pub element : ℕ → Option Json → Option Json
element i (some (array js)) = item_of i js
element i j = none

-- The bars of a day, their height at an hour, and the hour's label on the axis.
abbrev pub series : ℕ → Json → Option Json
series d option = element d (member (codes "series") (some option))

abbrev pub height : ℕ → ℕ → Json → Option Json
height d h option = element h (member (codes "data") (series d option))

abbrev pub label : ℕ → Json → Option Json
label h option =
    element h (member (codes "data") (element 0 (member (codes "xAxis") (some option))))

abbrev pub day_name : ℕ → JsString
day_name zero = codes "昨天"
day_name (suc d) = codes "今天"

item_of-cells :
    (h : ℕ) (xs : Cells)
    → h < length xs
    → item_of h (list (map cell xs)) ≡ some (cell (cell_at h xs))
item_of-cells h [] l = absurd (omega arith)
item_of-cells zero (x ∷ xs) l = refl
item_of-cells (suc h) (x ∷ xs) l = item_of-cells h xs (omega arith)

item_of-hours_from :
    (h i n : ℕ) → h < n → item_of h (items (hours_from i n)) ≡ some (text (to_string (i + h)))
item_of-hours_from h i zero l = absurd (omega arith)
item_of-hours_from zero i (suc n) l =
    let first : i ≡ i + 0 = omega arith in ap (λ m. some (text (to_string m))) first
item_of-hours_from (suc h) i (suc n) l =
    let moved : i + 1 + h ≡ i + suc h = omega arith in
    item_of-hours_from h (i + 1) n (omega arith) ∙ ap (λ m. some (text (to_string m))) moved

hour_label : (h : ℕ) → h < 24 → item_of h (items (hours_from 0 24)) ≡ some (text (to_string h))
hour_label h l =
    let same : 0 + h ≡ h = omega arith in
    item_of-hours_from h 0 24 l ∙ ap (λ m. some (text (to_string m))) same

time_option-Shows :
    (d h : ℕ) (rows : Cells × Cells)
    → d < 2
    → h < 24
    → HasWidth rows
    → (member (codes "name") (series d (time_option rows)) ≡ some (text (day_name d)))
      × (height d h (time_option rows) ≡ some (cell (cell_at h (row d rows))))
      × (label h (time_option rows) ≡ some (text (to_string h)))
unfolding time_option
time_option-Shows zero h (first, second) k l (v, w) =
    (refl, item_of-cells h first (omega arith), hour_label h l)
time_option-Shows (suc zero) h (first, second) k l (v, w) =
    (refl, item_of-cells h second (omega arith), hour_label h l)
time_option-Shows (suc (suc d)) h rows k l w = absurd (omega arith)

-- Where every item is of one of the two days and of an hour of the day, the chart of the hours is
-- drawn: its bars of a day have that day's name, yesterday's first, and at the place of each hour,
-- which has the hour as its label, the count of the last item for that day and hour, or 0.
pub answer-last_count :
    (d h : ℕ) (is : List Item) (s : State)
    → d < 2
    → h < 24
    → All IsInside is
    → (option : Json) × (answer time_loaded (time (some is)) s
        ≡ (record s { chart_two = some option }, []))
      × (member (codes "name") (series d option) ≡ some (text (day_name d)))
      × (height d h option ≡ some (cell (last_count d h is (some 0))))
      × (label h option ≡ some (text (to_string h)))
unfolding answer count_lst
answer-last_count d h is s k l inside =
    let (out, done, width, shown) = fill_lem d h is (zeros, zeros) k inside (refl, refl) in
    let (name, bars, hour) = time_option-Shows d h out k l width in
    let count : cell_at h (row d out) ≡ last_count d h is (some 0) =
      shown ∙ ap (last_count d h is) (start d h k l) in
    (time_option out, rw (answer, done) refl, name, bars ∙ ap (λ n. some (cell n)) count, hour)
