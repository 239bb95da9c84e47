-- ===== src/Hosts.antt =====
-- The controller of the host list (web/static/js/main.js, `hostlist`): the pages of hosts with
-- their filter, and the window that shows a host's events every three seconds.
pub mod Monitor
pub mod Pages
mod Tests
use yulong.Prelude.{
  ℕ, ◌+◌, Bool, true, false, not, List, [], ◌∷◌, ◌++◌, Option, none, some, length, if◌then◌else◌,
  ◌==◌, reverse,
}
use yulong.Text.{JsString, codes, truthy, str_eq, to_string}
use yulong.Url.{url_update_query, url_add_Paginator}
use yulong.History.{add_history, split_history}
use yulong.Page.{Effect, send, get, ask_input, notify, success, error, throw, loaded_text}

-- An event of a host; `id` is its `_id`, which is undefined where it is `none`.
pub record Event : Type 0 where
  pub id : Option JsString
  pub message : JsString

pub data Wait : Type 0 where
  hosts_loaded : Wait
  filter_typed : Wait
  first_events : Wait
  later_events : Wait

-- `intervals` are the browser's running timers, `shown` the entries of `#monitor_info_list`, the
-- newest first.
pub record State : Type 0 where
  pub current_page : ℕ
  pub hosts : List JsString
  pub search_filter : JsString
  pub command_show : Bool
  pub host_filter_history : JsString
  pub current_monitor_url : JsString
  pub timer : ℕ
  pub has_show_ids : List (Option JsString)
  pub shown : List Event
  pub intervals : List ℕ

abbrev pub Result : Type 0
Result = State × List (Effect Wait)

-- The entries of the search menu.
unfoldable pub history : State → List JsString
unfolding split_history
history s =
    codes "windows"
    ∷ codes "linux"
    ∷ codes "web"
    ∷ codes "db"
    ∷ codes "offline"
    ∷ codes "online"
    ∷ codes "can-not-push"
    ∷ split_history s.host_filter_history

-- `clearInterval`
abbrev pub clear_interval : ℕ → List ℕ → List ℕ
clear_interval t [] = []
clear_interval t (u ∷ us) = if u == t then clear_interval t us else u ∷ clear_interval t us

abbrev pub id_eq : Option JsString → Option JsString → Bool
id_eq none none = true
id_eq none (some b) = false
id_eq (some a) none = false
id_eq (some a) (some b) = str_eq a b

-- `has_show_ids.indexOf(id) >= 0`
abbrev pub has_id : Option JsString → List (Option JsString) → Bool
has_id i [] = false
has_id i (j ∷ js) = if id_eq j i then true else has_id i js

-- One round of `monitor_append`.
unfoldable pub append_event : Event → State → State
append_event e s =
    if has_id e.id s.has_show_ids
    then s
    else record s { shown = e ∷ s.shown; has_show_ids = s.has_show_ids ++ e.id ∷ [] }

-- `for (key in lst)` comes to the elements, and then to `remove`, which js.js puts on the prototype
-- of every array: a function, with no `_id` and no message.
abbrev pub inherited : Event
inherited = record { id = none; message = [] }

unfoldable pub append_events : List Event → State → State
unfolding append_event
append_events [] s = append_event inherited s
append_events (e ∷ es) s = append_events es (append_event e s)

unfoldable pub monitor_append : Option (List Event) → State → State
unfolding append_events
monitor_append none s = s
monitor_append (some es) s = append_events es s

-- What the user does; `show` carries the number that `setInterval` returns.
pub data Action : Type 0 where
  toggle_command : Action
  re_search : JsString → Action
  add_filter : Action
  more : Action
  show : JsString → ℕ → Action
  close_monitor : Action
  tick : Action

pub data Answer : Type 0 where
  loaded : Option (List JsString) → Answer
  typed : Option JsString → Answer
  events : Option (List Event) → Answer

module _ (anchor_hash : JsString → JsString) (client_url : JsString) where
  unfoldable pub get_result : State → Result
  get_result s = (
    s,
    send
          (record {
            method = get;
            url = url_update_query anchor_hash (codes "limit") (to_string 24) (
                url_update_query anchor_hash (codes "q") s.search_filter (
                  url_add_Paginator anchor_hash (some (to_string s.current_page)) none client_url));
            body = none;
          })
          hosts_loaded
        ∷ [],
  )

  unfoldable pub show_monitor : JsString → ℕ → State → Result
  show_monitor ip fresh s =
      let url = url_update_query anchor_hash (codes "ip") ip client_url in
      (
        record s {
          has_show_ids = [];
          current_monitor_url = url;
          shown = [];
          timer = fresh;
          intervals = fresh ∷ clear_interval s.timer s.intervals;
        },
        send (record { method = get; url = url; body = none }) first_events ∷ [],
      )

  unfoldable pub monitor_scroll : State → Result
  monitor_scroll s = (
    s,
    send
          (record {
            method = get;
            url = url_update_query anchor_hash (codes "t") (to_string 7) s.current_monitor_url;
            body = none;
          })
          later_events
        ∷ [],
  )

  unfoldable pub act : Action → State → Result
  unfolding get_result show_monitor monitor_scroll
  act toggle_command s = (record s { command_show = not s.command_show }, [])
  act (re_search h) s = get_result (record s { search_filter = h; hosts = [] })
  act add_filter s = (
    s,
    ask_input (codes "主机列表过滤器") (codes "请输入需要搜索的ip, 主机名等信息") (codes "filter") filter_typed ∷ [],
  )
  act more s = get_result (record s { current_page = s.current_page + 1 })
  act (show ip fresh) s = show_monitor ip fresh s
  act close_monitor s = (record s { intervals = clear_interval s.timer s.intervals }, [])
  act tick s = monitor_scroll s

  unfoldable pub filter_answer : Option JsString → State → Result
  unfolding get_result add_history
  filter_answer none s = (record s { search_filter = [] }, [])
  filter_answer (some input) s =
      if truthy input
      then get_result (record s {
        host_filter_history = add_history input s.host_filter_history;
        search_filter = input;
        hosts = [];
      })
      else (record s { search_filter = [] }, [])

  unfoldable pub answer : Wait → Answer → State → Result
  unfolding filter_answer monitor_append
  answer hosts_loaded (loaded none) s = (s, notify error (codes "没有其它数据了。") ∷ [])
  answer hosts_loaded (loaded (some hs)) s =
      (record s { hosts = s.hosts ++ hs }, notify success (loaded_text (length hs)) ∷ [])
  answer filter_typed (typed p) s = filter_answer p s
  answer first_events (events none) s = (s, throw (codes "data is null") ∷ [])
  answer first_events (events (some es)) s = (monitor_append (some (reverse es)) s, [])
  answer later_events (events es) s = (monitor_append es s, [])
  answer _ _ s = (s, [])
