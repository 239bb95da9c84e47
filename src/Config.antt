-- ===== src/Config.antt =====
-- The controller of the settings page (web/static/js/main.js, `config`) and `edit_config_item`:
-- changing single settings, the lists of values, the white list in learning mode. `json`, `input`
-- and `ele` are global variables of the scripts.
pub mod Lists
pub mod Items
pub mod Step
pub mod Laws
pub mod Guard
pub mod Answers
pub mod Passwords
pub mod Urls
mod Tests
use yulong.Prelude.{
  ℕ, zero, suc, Bool, true, false, ◌&&◌, ◌||◌, List, [], ◌∷◌, ◌++◌, Option, none, some, get_elem?,
  if◌then◌else◌, ◌==◌, leb, ◌-◌,
}
use yulong.Text.{JsString, codes, truthy, str_eq, split_char}
use yulong.Url.{url_update_query}
use yulong.Regexp.{string2regexp, first_run}
use yulong.Filters.{remove_all}
use yulong.Page.{
  Json, null, number, text, object, array, Fields, fields, items, Method, get, post, put, delete,
  Request, Effect, send, confirm, ask_input, alert, notify, throw, error, success, warning, Reply,
  succeeded, refused, ajaxcallback, request_password, password_entered, enable_pass,
}

-- A group of settings; `dic` holds its lists of values.
pub record Config : Type 0 where
  pub id : JsString
  pub kind : JsString
  pub dic : List (JsString × List JsString)

-- `index` and `key` are the arguments that a callback has kept.
pub data Wait : Type 0 where
  edit_typed : ℕ → JsString → Wait
  item_password : Json → Wait
  item_changed : Wait
  add_typed : ℕ → JsString → Wait
  add_password : ℕ → JsString → JsString → Wait
  value_added : ℕ → JsString → JsString → Wait
  del_confirmed : JsString → ℕ → JsString → JsString → Wait
  del_password : JsString → ℕ → JsString → Wait
  value_deleted : ℕ → JsString → Wait
  notice_ignored : JsString → JsString → JsString → Wait
  white_added : JsString → JsString → JsString → Wait
  notice_deleted : JsString → Wait
  learn_loaded : Wait
  learn_cleaned : Wait
  pull_password : JsString → Wait
  pull_added : JsString → Wait

-- `ele` is the text of the element that the pointer was on last.
pub record State : Type 0 where
  pub configs : List Config
  pub white_index : Option ℕ
  pub config_url : JsString
  pub json : Json
  pub input : JsString
  pub ele : Option JsString
  pub info_ : JsString

abbrev pub Result : Type 0
Result = State × List (Effect Wait)

-- The loop that looks for the white list, from index `i` on.
unfoldable pub white_index_from : ℕ → List Config → Option ℕ
white_index_from i [] = none
white_index_from i (c ∷ cs) =
    if str_eq c.kind (codes "whitelist") then some i else white_index_from (suc i) cs

unfoldable pub load_configs : List Config → State → Result
unfolding white_index_from
load_configs cs s = (record s { configs = cs; white_index = white_index_from 0 cs }, [])

-- `configs[index]['dic'][key]`
abbrev pub lookup_dic : JsString → List (JsString × List JsString) → Option (List JsString)
lookup_dic k [] = none
lookup_dic k ((j, vs) ∷ d) = if str_eq j k then some vs else lookup_dic k d

abbrev pub values_at : ℕ → JsString → List Config → Option (List JsString)
values_at i k cs = elim (get_elem? cs i) [ none ↦ none | some c ↦ lookup_dic k c.dic ]

-- The list under `key` is replaced, as `push` and `remove` do in place.
abbrev pub put_dic :
    JsString → List JsString → List (JsString × List JsString) → List (JsString × List JsString)
put_dic k ws [] = []
put_dic k ws ((j, vs) ∷ d) = if str_eq j k then (j, ws) ∷ d else (j, vs) ∷ put_dic k ws d

abbrev pub put_values : ℕ → JsString → List JsString → List Config → List Config
put_values i k ws [] = []
put_values zero k ws (c ∷ cs) = record c { dic = put_dic k ws c.dic } ∷ cs
put_values (suc i) k ws (c ∷ cs) = c ∷ put_values i k ws cs

-- `list.indexOf(value) != -1`
abbrev pub contains : JsString → List JsString → Bool
contains v [] = false
contains v (w ∷ ws) = str_eq w v || contains v ws

abbrev pub item_json : JsString → JsString → JsString → Json
item_json id key value =
    object
      (fields ((codes "id", text id) ∷ (codes "key", text key) ∷ (codes "input", text value) ∷ []))

-- `config_first_child`: the first word of a setting's description, or its key.
unfoldable pub first_word : JsString → JsString
unfolding split_char
first_word s = elim (split_char b' ' s) [ [] ↦ [] | w ∷ ws ↦ w ]

unfoldable pub config_first_child : Option JsString → JsString → JsString
unfolding first_word
config_first_child none key = key
config_first_child (some word) key = first_word word

-- `learn_data_fa`, which the window of the learning mode calls for each notice whenever the page is
-- drawn: the table of icons is assigned to the global `json`.
abbrev pub icons : Json
icons = object (
    fields (
      (codes "process", text (codes "fa-file"))
      ∷ (codes "loginlog", text (codes "fa-sign-in"))
      ∷ (codes "connection", text (codes "fa-plug"))
      ∷ []))

abbrev pub icon_of : JsString → Option JsString
icon_of kind =
    if str_eq kind (codes "process")
    then some (codes "fa-file")
    else if str_eq kind (codes "loginlog")
    then some (codes "fa-sign-in")
    else if str_eq kind (codes "connection")
    then some (codes "fa-plug")
    else none

unfoldable pub learn_data_fa : JsString → State → State × Option JsString
learn_data_fa kind s = (record s { json = icons }, icon_of kind)

-- `toUpperCase` of a key, whose letters are ASCII.
abbrev pub upper : JsString → JsString
upper [] = []
upper (c ∷ s) = (if leb b'a' c && leb c b'z' then c - 32 else c) ∷ upper s

-- `keydict[type]` in `add_white`; a missing key is left out of the JSON text.
abbrev pub white_key : JsString → List (JsString × Json)
white_key kind =
    if str_eq kind (codes "process")
    then (codes "key", text (codes "process")) ∷ []
    else if str_eq kind (codes "loginlog") || str_eq kind (codes "connection")
    then (codes "key", text (codes "ip")) ∷ []
    else []

-- `info_` in `add_white`
abbrev pub white_info : JsString → JsString → JsString
white_info kind info =
    if str_eq kind (codes "loginlog")
    then elim (first_run info) [ none ↦ info | some run ↦ run ]
    else if str_eq kind (codes "process")
    then string2regexp info
    else info

abbrev pub white_json : JsString → JsString → JsString → Json
white_json id kind input =
    object (fields ((codes "id", text id) ∷ (white_key kind ++ (codes "input", text input) ∷ [])))

abbrev pub ignore_json : JsString → JsString → Json
ignore_json kind info = object (
    fields (
      (codes "id", text (codes "learn"))
      ∷ (codes "type", text kind)
      ∷ (codes "info", text info)
      ∷ []))

abbrev pub clean_json : Json
clean_json =
    object (fields ((codes "id", text (codes "all_learn")) ∷ (codes "status", number 0) ∷ []))

abbrev pub update_json : JsString → Json
update_json system = object (
    fields (
      (codes "name", text (codes "更新所有 " ++ system ++ codes "下的agent"))
      ∷ (codes "command", text [])
      ∷ (codes "host_list", array (items (system ∷ [])))
      ∷ (codes "type", text (codes "update"))
      ∷ []))
