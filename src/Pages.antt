-- ===== src/Pages.antt =====
-- The pages that show lists of results (web/static/js/main.js): `analyze`, `tasks`, `taskresult`
-- and `detailinfo`.
pub mod Laws
pub mod Samples
pub mod Opening
mod Tests
use yulong.Prelude.{
  ℕ, zero, suc, ◌+◌, ◌-◌, Bool, true, false, ◌&&◌, ◌||◌, not, List, [], ◌∷◌, ◌++◌, Option, none,
  some, length, get_elem?, if◌then◌else◌, ◌==◌, leb, ltb, map,
}
use yulong.Text.{
  JsString, codes, truthy, str_eq, to_string, split_char, strip_prefix, last_index_of,
}
use yulong.Url.{url_update_query, url_add_Paginator}
use yulong.Uri.{encode_uri_component}
use yulong.History.{add_history}
use yulong.Page.{
  Json, text, object, fields, get, post, Effect, send, notify, success, error, throw, loaded_text,
}

-- A result of the analysis: its keys, and the keys of its `data`, an object or a list of objects.
pub data RowData : Type 0 where
  single : List JsString → RowData
  many : List (List JsString) → RowData

pub record Row : Type 0 where
  pub keys : List JsString
  pub details : RowData

pub data Wait : Type 0 where
  rows_loaded : Wait
  samples_loaded : Wait
  tasks_loaded : Wait
  results_loaded : Wait
  monitor_loaded : Wait

-- `value` is the text of the search box; `minday` and `maxday` are the chosen days.
pub record Analysis : Type 0 where
  pub current_page : ℕ
  pub value : JsString
  pub search_history : JsString
  pub minday : Option JsString
  pub maxday : Option JsString
  pub thead_root_items : List JsString
  pub thead_data_items : List JsString
  pub data_is_array : Bool

abbrev pub Result : Type 0 → Type 0
Result S = S × List (Effect Wait)

-- `!k.startsWith('_') && k != "data"`
abbrev pub is_root_key : JsString → Bool
is_root_key [] = true
is_root_key (c ∷ k) = not (c == b'_') && not (str_eq (c ∷ k) (codes "data"))

unfoldable pub root_items : List JsString → List JsString
root_items [] = []
root_items (k ∷ ks) = if is_root_key k then k ∷ root_items ks else root_items ks

abbrev pub data_items : RowData → List JsString
data_items (single ks) = ks
data_items (many []) = []
data_items (many (ks ∷ rest)) = ks

abbrev pub is_array : RowData → Bool
is_array (single ks) = false
is_array (many rows) = true

-- The callback of `request_and_show`: without a first row the table's heads throw.
unfoldable pub show_rows : Option (List Row) → Analysis → Result Analysis
unfolding root_items
show_rows none s = (
  record s { thead_root_items = []; thead_data_items = []; data_is_array = false },
  notify error (codes "已经到达最末页。") ∷ throw (codes "analyze is null") ∷ [],
)
show_rows (some []) s = (
  record s { thead_root_items = []; thead_data_items = []; data_is_array = false },
  throw (codes "analyze[0] is undefined") ∷ [],
)
show_rows (some (r ∷ rows)) s = (
  record s {
    thead_root_items = root_items r.keys;
    thead_data_items = data_items r.details;
    data_is_array = is_array r.details;
  },
  [],
)

-- The days as `tq`, `Date.parse` being the browser's; the digits and the dash stay as they are
-- under `encodeURIComponent`.
abbrev pub time_query : (JsString → JsString) → JsString → Option JsString → JsString
time_query date_parse minday none = date_parse minday ++ codes "-now"
time_query date_parse minday (some maxday) = date_parse minday ++ codes "-" ++ date_parse maxday

-- What the user does on the analysis page; `search` is the text that the box then holds.
pub data AnalysisAction : Type 0 where
  previous : AnalysisAction
  next : AnalysisAction
  show_data : AnalysisAction
  type : JsString → AnalysisAction
  append2search : JsString → AnalysisAction
  choose_days : Option JsString → Option JsString → AnalysisAction

module _ (anchor_hash date_parse : JsString → JsString) (analyze_url : JsString) where
  unfoldable pub analysis_url : JsString → Analysis → JsString
  analysis_url query s =
      let url =
        url_add_Paginator anchor_hash (some (to_string s.current_page)) none
          (url_update_query anchor_hash (codes "q") query analyze_url) in
      elim s.minday [
        | none ↦ url
        | some minday ↦
            url_update_query anchor_hash (codes "tq") (time_query date_parse minday s.maxday) url
      ]

  unfoldable pub get_analysis : Analysis → Result Analysis
  unfolding analysis_url
  get_analysis s =
      if not (truthy s.value)
      then (s, [])
      else let t : Analysis = record s { search_history = add_history s.value s.search_history } in
        elim (encode_uri_component s.value) [
          | none ↦ (t, throw (codes "URIError") ∷ [])
          | some query ↦ (
            t,
            send (record { method = get; url = analysis_url query s; body = none }) rows_loaded
                ∷ [],
          )
        ]

  unfoldable pub analyze_act : AnalysisAction → Analysis → Result Analysis
  unfolding get_analysis
  analyze_act previous s =
      if ltb 1 s.current_page
      then get_analysis (record s { current_page = s.current_page - 1 })
      else (s, [])
  analyze_act next s = get_analysis (record s { current_page = s.current_page + 1 })
  analyze_act show_data s = get_analysis (record s { current_page = 1 })
  analyze_act (type search) s = (record s { value = search }, [])
  analyze_act (append2search end) s = (record s { value = s.value ++ end }, [])
  analyze_act (choose_days lo hi) s = (record s { minday = lo; maxday = hi }, [])

-- The last part of the search, `search.split("|").pop()`.
abbrev pub last_part : List JsString → JsString
last_part [] = []
last_part (w ∷ []) = w
last_part (w ∷ v ∷ ws) = last_part (v ∷ ws)

abbrev pub ends_with_colon : JsString → Bool
ends_with_colon [] = false
ends_with_colon (c ∷ []) = c == b':'
ends_with_colon (c ∷ d ∷ s) = ends_with_colon (d ∷ s)

-- The tab key asks for samples where the last part ends in a colon; the body is sent as form data.
unfoldable pub ask_samples : JsString → JsString → Option (Effect Wait)
unfolding split_char
ask_samples analyze_url search =
    let last = last_part (split_char b'|' search) in
    if ends_with_colon last
    then some (
        send
          (record {
            method = post;
            url = analyze_url;
            body = some (object (fields ((codes "keyword", text last) ∷ [])));
          })
          samples_loaded)
    else none

-- The task lists: `tid` is the task whose results are shown, `none` for the list of tasks.
pub record Tasks : Type 0 where
  pub current_page : ℕ
  pub tid : Option JsString
  pub rows : List JsString

module _ (anchor_hash : JsString → JsString) (task_url : JsString) where
  unfoldable pub get_tasks : Tasks → Result Tasks
  get_tasks s =
      let url = url_add_Paginator anchor_hash (some (to_string s.current_page)) none task_url in
      elim s.tid [
        | none ↦ (s, send (record { method = get; url = url; body = none }) tasks_loaded ∷ [])
        | some tid ↦ (
          s,
          send
                (record {
                  method = get;
                  url = url_update_query anchor_hash (codes "tid") tid url;
                  body = none;
                })
                results_loaded
              ∷ [],
        )
      ]

  unfoldable pub previous_tasks : Tasks → Result Tasks
  unfolding get_tasks
  previous_tasks s =
      if ltb 1 s.current_page
      then get_tasks (record s { current_page = s.current_page - 1 })
      else (s, [])

  unfoldable pub next_tasks : Tasks → Result Tasks
  unfolding get_tasks
  next_tasks s = get_tasks (record s { current_page = s.current_page + 1 })

unfoldable pub show_tasks : Option (List JsString) → Tasks → Result Tasks
show_tasks none s = (s, notify error (codes "没有其它数据了。") ∷ [])
show_tasks (some rows) s =
    (record s { rows = rows }, notify success (loaded_text (length rows)) ∷ [])

-- The events of one host, of which each request asks for those behind `start`.
pub record Detail : Type 0 where
  pub start : ℕ
  pub monitorlist : List JsString

unfoldable pub append_new_twenty : JsString → JsString → JsString → Detail → Result Detail
append_new_twenty monitor_url ip kind s = (
  s,
  send
        (record {
          method = get;
          url =
              monitor_url ++ codes "/" ++ ip ++ codes "/" ++ kind ++ codes "/" ++ to_string s.start;
          body = none;
        })
        monitor_loaded
      ∷ [],
)

unfoldable pub show_twenty : Option (List JsString) → Detail → Result Detail
show_twenty none s = (s, [])
show_twenty (some newlist) s =
    (record s { monitorlist = s.monitorlist ++ newlist; start = s.start + length newlist }, [])
