-- ===== src/Statistics.antt =====
-- The controller `statistics` (web/static/js/main.js): the tables and the options of its charts.
-- The charts are drawn by a third-party library, which is given the options.
pub mod Counts
pub mod Charts
pub mod Laws
mod Tests
use yulong.Prelude.{List, [], ◌∷◌, ◌++◌, Option, none, some}
use yulong.Text.{JsString, codes}
use yulong.Page.{Json, get, Effect, send, notify, info, throw}
use yulong.Statistics.Counts.{Item, Cells, count_lst}
use yulong.Statistics.Charts.{Pie, pie_option, time_option, line_option}

pub data Wait : Type 0 where
  topmsg_loaded : Wait
  total_loaded : Wait
  pie_loaded : Wait
  time_loaded : Wait
  line_loaded : Wait

-- What the page shows: the two tables, and the options of a chart once it has them.
pub record State : Type 0 where
  pub rows : Option Json
  pub totaldata : Option Json
  pub chart_one : Option Json
  pub chart_two : Option Json
  pub chart_line : Option Json

abbrev pub Result : Type 0
Result = State × List (Effect Wait)

-- The controller sends its requests at once; `kind` is the `type` in the URL.
abbrev ask : JsString → JsString → Wait → Effect Wait
ask statistics_url kind w =
    send (record { method = get; url = statistics_url ++ codes "?type=" ++ kind; body = none }) w

unfoldable pub open_page : JsString → List (Effect Wait)
open_page statistics_url =
    notify info (codes "正在加载数据，请耐心等待...")
    ∷ ask statistics_url (codes "topmsg") topmsg_loaded
    ∷ ask statistics_url (codes "total") total_loaded
    ∷ ask statistics_url (codes "pie") pie_loaded
    ∷ ask statistics_url (codes "time") time_loaded
    ∷ ask statistics_url (codes "line") line_loaded
    ∷ []

pub data Answer : Type 0 where
  table : Json → Answer
  pie : Pie → Answer
  time : Option (List Item) → Answer
  line : Json → Json → Answer

unfoldable pub answer : Wait → Answer → State → Result
unfolding pie_option time_option line_option count_lst
answer topmsg_loaded (table j) s = (record s { rows = some j }, [])
answer total_loaded (table j) s = (record s { totaldata = some j }, [])
answer pie_loaded (pie p) s = (record s { chart_one = some (pie_option p) }, [])
answer time_loaded (time listdata) s = elim (count_lst listdata) [
  | none ↦ (s, throw (codes "count_lst[item[0]] is undefined") ∷ [])
  | some rows ↦ (record s { chart_two = some (time_option rows) }, [])
]
answer line_loaded (line xdata listdata) s =
    (record s { chart_line = some (line_option xdata listdata) }, [])
answer _ _ s = (s, [])
