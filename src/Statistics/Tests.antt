-- ===== src/Statistics/Tests.antt =====
-- Runs of the statistics page, and an instance of its theorem.
use yulong.Prelude.{◌≡◌, refl, List, [], ◌∷◌, none, some, arith}
use yulong.Text.{codes, to_string}
use yulong.Page.{throw, Json, text}
use yulong.Statistics.{State, answer, time_loaded, time}
use yulong.Statistics.Counts.{Item}
use yulong.Statistics.Charts.{cell}
use yulong.Statistics.Laws.{last_count, member, series, height, label, day_name, answer-last_count}

abbrev page : State
page = record {
  rows = none;
  totaldata = none;
  chart_one = none;
  chart_two = none;
  chart_line = none;
}

-- Five messages today at 13 o'clock, and a day that the chart has no bars for.
abbrev today : List Item
today = record { day = 1; hour = 13; count = 5 } ∷ []

abbrev third_day : List Item
third_day = record { day = 2; hour = 0; count = 1 } ∷ today

not_drawn :
    answer time_loaded (time (some third_day)) page
    ≡ (page, throw (codes "count_lst[item[0]] is undefined") ∷ [])
unfolding answer
not_drawn = refl

answer-last_count_example :
    (option : Json) × (answer time_loaded (time (some today)) page
      ≡ (record page { chart_two = some option }, []))
    × (member (codes "name") (series 1 option) ≡ some (text (day_name 1)))
    × (height 1 13 option ≡ some (cell (last_count 1 13 today (some 0))))
    × (label 13 option ≡ some (text (to_string 13)))
answer-last_count_example =
    answer-last_count 1 13 today page (omega arith) (omega arith) (omega arith)
