-- ===== src/Pages/Tests.antt =====
-- Runs of the pages of results, and instances of their theorems.
use yulong.Prelude.{◌≡◌, refl, true, false, List, [], ◌∷◌, ◌++◌, none, some, arith}
use yulong.Text.{codes, to_string}
use yulong.Url.{url_update_query, url_add_Paginator}
use yulong.Url.Query.{Pair, render, put_query, IsQuery}
use yulong.Url.Tests.{plain_hash}
use yulong.Uri.{encode_uri_component}
use yulong.Page.{get, send}
use yulong.Pages.{Analysis, Tasks, many, get_tasks, show_rows, results_loaded}
use yulong.Text.{trim_start, is_space}
use yulong.Pages.{ask_samples}
use yulong.Pages.Samples.{tab_key, samples, thrown, find_type, match_type, read_word}
use yulong.Pages.Laws.{url_update_query-encode_uri_component}

encoded : encode_uri_component (codes "a b&é😀") ≡ some (codes "a%20b%26%C3%A9%F0%9F%98%80")
unfolding encode_uri_component
encoded = refl

lone : encode_uri_component (0xd83d ∷ b'x' ∷ []) ≡ none
unfolding encode_uri_component
lone = refl

abbrev searched : List Pair
searched = (codes "q", codes "old") ∷ []

url_update_query-encode_uri_component_example :
    (url_update_query plain_hash (codes "q") (codes "a%26b%24") (render (codes "/a") searched ++ [])
      ≡ render (codes "/a") (put_query (codes "q") (codes "a%26b%24") searched) ++ [])
    × IsQuery (put_query (codes "q") (codes "a%26b%24") searched)
url_update_query-encode_uri_component_example =
    url_update_query-encode_uri_component plain_hash (codes "/a") (codes "a&b$") (codes "a%26b%24")
      [] searched (unfold encode_uri_component in refl) refl (ground arith) (ground arith)

abbrev analysis : Analysis
analysis = record {
  current_page = 2;
  value = codes "ip:10.0.0.1";
  search_history = [];
  minday = none;
  maxday = none;
  thead_root_items = [];
  thead_data_items = [];
  data_is_array = false;
}

heads :
    (show_rows
      (some (
        record {
          keys = codes "_id" ∷ codes "type" ∷ codes "data" ∷ [];
          details = many ((codes "ip" ∷ []) ∷ []);
        }
        ∷ []))
      analysis).0
    ≡ record analysis {
      thead_root_items = codes "type" ∷ [];
      thead_data_items = codes "ip" ∷ [];
      data_is_array = true;
    }
unfolding show_rows
heads = refl

abbrev results : Tasks
results = record { current_page = 3; tid = some (codes "5f"); rows = [] }

results_page : get_tasks plain_hash (codes "/json/tasks") results ≡ (
  results,
  send
        (record { method = get; url = codes "/json/tasks?page=3&tid=5f"; body = none })
        results_loaded
      ∷ [],
)
unfolding get_tasks url_update_query url_add_Paginator to_string
results_page = refl

tab_key_loginlog :
    tab_key (codes "/json/analyze") (codes "ip:10.0.0.1|type : loginlog|")
    ≡ samples
        (codes "username" ∷ codes "hostname" ∷ codes "remote" ∷ codes "status" ∷ codes "time" ∷ [])
unfolding tab_key ask_samples find_type match_type read_word trim_start is_space
tab_key_loginlog = refl

tab_key_unknown : tab_key (codes "/json/analyze") (codes "type:web|") ≡ thrown
unfolding tab_key ask_samples find_type match_type read_word trim_start is_space
tab_key_unknown = refl

tab_key_inherited : tab_key (codes "/json/analyze") (codes "type:toString|") ≡ samples []
unfolding tab_key ask_samples find_type match_type read_word trim_start is_space
tab_key_inherited = refl
