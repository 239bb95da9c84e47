-- ===== src/Notice.antt =====
-- The controller of the notice page (web/static/js/main.js, `notice`): its state, its handlers and
-- the callbacks that they leave with the browser. `json`, `notice` and `info_` are global variables
-- of the scripts, which a callback reads when it runs.
pub mod Step
pub mod Passwords
pub mod Urls
pub mod Guard
pub mod Status
pub mod Rule
pub mod Tests
use yulong.Prelude.{
  ℕ, zero, suc, ◌+◌, Bool, true, false, ◌&&◌, ◌||◌, List, [], ◌∷◌, ◌++◌, Option, none, some, length,
  set, get_elem?, map, if◌then◌else◌, ltb, leb,
}
use yulong.Text.{JsString, codes, truthy, str_eq, index_of, includes, split_char, join, to_string}
use yulong.Url.{url_update_query, url_add_Paginator}
use yulong.Regexp.{string2regexp, first_run}
use yulong.Page.{
  Json, null, number, text, object, array, Fields, fields, items, Method, get, post, put, Request,
  Effect, send, confirm, ask_input, alert, notify, reload, go_to, throw, Kind, success, error,
  warning, Reply, succeeded, refused, ajaxcallback, loaded_text, request_password, password_entered,
  enable_pass,
}

-- A notice as the server sends it; the status -1, which the page gives to a notice that it has
-- dealt with, is `none`.
pub record Notice : Type 0 where
  pub id : JsString
  pub kind : JsString
  pub info : JsString
  pub ip : JsString
  pub status : Option ℕ

-- The callbacks that wait for the browser.
pub data Wait : Type 0 where
  notices_loaded : Wait
  config_password : Wait
  config_added : Wait
  kill_confirmed : Wait
  kill_password : Wait
  task_added : Wait
  filter_typed : Wait
  status_changed : ℕ → Wait
  all_password : ℕ → Wait
  all_changed : Wait

-- The list holds references: places in `heap`, where the notices live.
pub record State : Type 0 where
  pub heap : List Notice
  pub noticelist : List ℕ
  pub currenttab : ℕ
  pub currenttype : JsString
  pub currentpage : ℕ
  pub filter : JsString
  pub is_close_messagebox : Bool
  pub notice_search : JsString
  pub notice_url : JsString
  pub config_url : JsString
  pub json : Json
  pub notice : Option ℕ
  pub info_ : Option JsString

abbrev pub Result : Type 0
Result = State × List (Effect Wait)

-- `indexOf('|') > 0`
abbrev pub bar_inside : JsString → Bool
bar_inside s = elim (index_of b'|' s) [ none ↦ false | some zero ↦ false | some (suc i) ↦ true ]

-- `parts.sort((a, b) => b.length - a.length)[0]`: the first of the longest parts.
unfoldable pub longest : JsString → List JsString → JsString
longest w [] = w
longest w (v ∷ ws) = longest (if ltb (length w) (length v) then v else w) ws

abbrev longest_part : List JsString → JsString
longest_part [] = []
longest_part (w ∷ ws) = longest w ws

unfoldable pub search_text : Notice → JsString
unfolding longest split_char
search_text n =
    let value = if bar_inside n.info then longest_part (split_char b'|' n.info) else n.info in
    join (codes " | ")
      ((codes "all:" ++ value) ∷ (codes "ip:" ++ n.ip) ∷ (codes "type:" ++ n.kind) ∷ [])

unfoldable pub search_analyze : Notice → State → Result
unfolding search_text
search_analyze n s = (record s { notice_search = search_text n }, go_to (codes "/#!/analyze") ∷ [])

-- `keydict[type]`, or `other`; no kind is the name of something that every object inherits.
abbrev pub key_of : JsString → JsString
key_of kind =
    if str_eq kind (codes "process")
    then codes "process"
    else if str_eq kind (codes "loginlog") || str_eq kind (codes "connection")
    then codes "ip"
    else codes "other"

-- `info_` behind the first test: a login without an address leaves the old value.
abbrev pub taken_info : JsString → JsString → Option JsString → Option JsString
taken_info kind info old =
    if str_eq kind (codes "loginlog")
    then elim (first_run info) [ none ↦ old | some run ↦ some run ]
    else some info

-- `if ((key == "process") || (key == "other")) info_ = string2regexp(info_)`
abbrev pub as_rule : JsString → JsString → JsString
as_rule key info =
    if str_eq key (codes "process") || str_eq key (codes "other") then string2regexp info else info

abbrev pub config_json : JsString → JsString → JsString → Json
config_json id key input =
    object
      (fields ((codes "id", text id) ∷ (codes "key", text key) ∷ (codes "input", text input) ∷ []))

abbrev pub kill_json : JsString → Json
kill_json process = object (
    fields (
      (codes "name", text (codes "阻断操作 - 对象：" ++ process))
      ∷ (codes "command", text process)
      ∷ (codes "host_list", array (items (codes "all" ∷ [])))
      ∷ (codes "type", text (codes "kill"))
      ∷ []))

abbrev pub status_json : JsString → ℕ → Json
status_json id status =
    object (fields ((codes "id", text id) ∷ (codes "status", number status) ∷ []))

module _ (anchor_hash : JsString → JsString) (two_factor : Bool) (task_url : JsString) where
  -- The callback of `request_password` in `add2config`.
  unfoldable pub put_config : JsString → State → Result
  put_config password s =
      let url = url_update_query anchor_hash (codes "pass") password s.config_url in
      (
        record s { config_url = url },
        send (record { method = put; url = url; body = some s.json }) config_added ∷ [],
      )

  unfoldable pub add2config : JsString → JsString → JsString → State → Result
  unfolding put_config request_password
  add2config kind info config_type s =
      if bar_inside info
      then (s, alert error (codes "0ops!!!!") (codes "该信息无法自动化添加到黑白名单，请手动添加~") ∷ [])
      else elim (taken_info kind info s.info_) [
        | none ↦ (s, throw (codes "info_ is not defined") ∷ [])
        | some taken ↦
            let input = as_rule (key_of kind) taken in
            request_password two_factor config_password put_config
              (record s { info_ = some input; json = config_json config_type (key_of kind) input })
      ]

  unfoldable pub config_reply : Reply → State → Result
  config_reply r s =
      if succeeded r
      then (s, alert success (codes "添加成功!") (codes "该信息已经添加到设置中，部分设置可能需要到config页面修改") ∷ [])
      else if refused r
      then (s, ajaxcallback r ∷ [])
      else (s, [])

  unfoldable pub kill_all : JsString → State → Result
  kill_all process s =
      if includes b'|' process
      then (s, alert error (codes "无法添加") (codes "该信息无法直接添加到阻断任务里，请手动添加kill任务。") ∷ [])
      else (
        record s { json = kill_json process },
        confirm (codes "确定阻断进程：" ++ process) (codes "是否要在所有服务器中删除进程：" ++ process) kill_confirmed
            ∷ [],
      )

  unfoldable pub post_kill : JsString → State → Result
  post_kill password s = (
    s,
    send
          (record {
            method = post;
            url = enable_pass anchor_hash task_url password;
            body = some s.json;
          })
          task_added
        ∷ [],
  )

  unfoldable pub kill_answer : Bool → State → Result
  unfolding post_kill request_password
  kill_answer isconfirm s =
      if isconfirm then request_password two_factor kill_password post_kill s else (s, [])

  -- The handler reads `response`, which is no variable of its own.
  unfoldable pub kill_reply : Reply → State → Result
  kill_reply r s = (
    s,
    (if succeeded r then alert success (codes "Killed!") (codes "添加阻断任务成功.") ∷ [] else [])
        ++ throw (codes "response is not defined") ∷ [],
  )

  unfoldable pub get_result : JsString → ℕ → State → Result
  get_result t p s =
      let url =
        url_add_Paginator anchor_hash (some (to_string p)) none
          (url_update_query anchor_hash (codes "status") t s.notice_url) in
      (
        s,
        send
              (record {
                method = get;
                url =
                    if truthy s.filter
                    then url_update_query anchor_hash (codes "q") s.filter url
                    else url;
                body = none;
              })
              notices_loaded
            ∷ [],
      )
