-- ===== src/Statistics/Charts.antt =====
-- The options of the charts in the controller `statistics` (web/static/js/main.js).
use yulong.Prelude.{ℕ, zero, suc, ◌+◌, true, false, List, [], ◌∷◌, Option, none, some, map}
use yulong.Text.{JsString, codes, to_string}
use yulong.Page.{Json, null, bool, number, text, object, array, Items, nil, cons, fields, items}
use yulong.Statistics.Counts.{Cells}

abbrev pub Field : Type 0
Field = JsString × Json

abbrev pub obj : List Field → Json
obj fs = object (fields fs)

abbrev pub list : List Json → Items
list [] = nil
list (j ∷ js) = cons j (list js)

abbrev pub texts : List JsString → Json
texts ws = array (items ws)

-- One answer of the server for the pie: names, and the data of the two rings.
pub record Pie : Type 0 where
  pub xdata : Json
  pub inner : Json
  pub outer : Json

unfoldable pub pie_option : Pie → Json
pie_option p = obj (
    (
      codes "tooltip",
      obj (
          (codes "trigger", text (codes "item"))
          ∷ (codes "formatter", text (codes "{a} <br/>{b}: {c} ({d}%)"))
          ∷ []),
    )
    ∷ (
      codes "legend",
      obj (
          (codes "orient", text (codes "vertical"))
          ∷ (codes "x", text (codes "left"))
          ∷ (codes "data", p.xdata)
          ∷ []),
    )
    ∷ (
      codes "series",
      array (
          list (
            obj (
              (codes "name", text (codes "风险类型"))
              ∷ (codes "type", text (codes "pie"))
              ∷ (codes "selectedMode", text (codes "single"))
              ∷ (codes "radius", array (list (number 0 ∷ text (codes "30%") ∷ [])))
              ∷ (
                codes "label",
                obj ((codes "normal", obj ((codes "position", text (codes "inner")) ∷ [])) ∷ []),
              )
              ∷ (
                codes "labelLine",
                obj ((codes "normal", obj ((codes "show", bool false) ∷ [])) ∷ []),
              )
              ∷ (codes "data", p.inner)
              ∷ [])
            ∷ obj (
                (codes "name", text (codes "策略名称"))
                ∷ (codes "type", text (codes "pie"))
                ∷ (codes "radius", texts (codes "40%" ∷ codes "55%" ∷ []))
                ∷ (codes "data", p.outer)
                ∷ [])
            ∷ [])),
    )
    ∷ [])

-- The grid of the two other charts.
abbrev grid : Field
grid = (
  codes "grid",
  obj (
      (codes "left", text (codes "3%"))
      ∷ (codes "right", text (codes "4%"))
      ∷ (codes "bottom", text (codes "3%"))
      ∷ (codes "containLabel", bool true)
      ∷ []),
)

abbrev pub cell : Option ℕ → Json
cell none = null
cell (some n) = number n

-- `'0'` to `'23'`
abbrev pub hours_from : ℕ → ℕ → List JsString
hours_from i zero = []
hours_from i (suc n) = to_string i ∷ hours_from (i + 1) n

abbrev bar : JsString → Cells → Json
bar name cells = obj (
    (codes "name", text name)
    ∷ (codes "type", text (codes "bar"))
    ∷ (codes "data", array (list (map cell cells)))
    ∷ [])

unfoldable pub time_option : Cells × Cells → Json
unfolding to_string
time_option (first, second) = obj (
    (
      codes "tooltip",
      obj (
          (codes "trigger", text (codes "axis"))
          ∷ (codes "axisPointer", obj ((codes "type", text (codes "shadow")) ∷ []))
          ∷ []),
    )
    ∷ (codes "legend", obj ((codes "data", texts (codes "昨天" ∷ codes "今天" ∷ [])) ∷ []))
    ∷ grid
    ∷ (
      codes "xAxis",
      array (
          list (
            obj (
              (codes "type", text (codes "category"))
              ∷ (codes "data", texts (hours_from 0 24))
              ∷ [])
            ∷ [])),
    )
    ∷ (codes "yAxis", array (list (obj ((codes "type", text (codes "value")) ∷ []) ∷ [])))
    ∷ (codes "series", array (list (bar (codes "昨天") first ∷ bar (codes "今天") second ∷ [])))
    ∷ [])

unfoldable pub line_option : Json → Json → Json
line_option xdata listdata = obj (
    (codes "title", obj ((codes "text", text []) ∷ []))
    ∷ (codes "tooltip", obj ((codes "trigger", text (codes "axis")) ∷ []))
    ∷ (codes "legend", obj ((codes "data", texts (codes "危险" ∷ codes "可疑" ∷ codes "风险" ∷ [])) ∷ []))
    ∷ grid
    ∷ (codes "toolbox", obj ((codes "feature", obj ((codes "saveAsImage", obj []) ∷ [])) ∷ []))
    ∷ (
      codes "xAxis",
      obj (
          (codes "type", text (codes "category"))
          ∷ (codes "boundaryGap", bool false)
          ∷ (codes "data", xdata)
          ∷ []),
    )
    ∷ (codes "yAxis", obj ((codes "type", text (codes "value")) ∷ []))
    ∷ (codes "series", listdata)
    ∷ [])
