-- ===== src/Pages/Opening.antt =====
-- How the analysis page opens (web/static/js/main.js): with the search that the notice page has
-- left in `globalVariable.notice_search`, if there is one.
pub mod Laws
use yulong.Prelude.{
  ◌≡◌, refl, ap, ◌∙◌, true, false, List, [], ◌∷◌, ◌++◌, none, some, if◌then◌else◌, arith,
}
use yulong.Text.{JsString, codes, truthy, to_string}
use yulong.Url.{url_update_query, url_add_Paginator}
use yulong.Url.Query.{Pair, render, put_query, IsPlainPath, IsQuery, put_query-IsQuery}
use yulong.Url.Laws.{url_update_query-render, url_add_Paginator-render}
use yulong.Uri.{encode_uri_component}
use yulong.Uri.Laws.{encode_uri_component-IsSafe, IsSafe→HasNoDollar, IsSafe→IsValue}
use yulong.History.{add_history}
use yulong.Page.{get, send}
use yulong.Pages.{Analysis, Result, rows_loaded, get_analysis, analysis_url}
use yulong.Notice
use yulong.Notice.{Notice, search_text, search_analyze}

-- The page as it opens: the shared `notice_search`, and the page's own state.
unfoldable pub open_analyze :
    (JsString → JsString)
    → (JsString → JsString)
    → JsString
    → JsString
    → Analysis
    → JsString × Result Analysis
open_analyze anchor_hash date_parse analyze_url notice_search s =
    if truthy notice_search
    then ([], get_analysis anchor_hash date_parse analyze_url (record s { value = notice_search }))
    else (notice_search, (s, []))

-- The controller's state as it starts; `history` is what the browser has stored of searches.
abbrev pub fresh : JsString → Analysis
fresh history = record {
  current_page = 1;
  value = [];
  search_history = history;
  minday = none;
  maxday = none;
  thead_root_items = [];
  thead_data_items = [];
  data_is_array = false;
}
