-- ===== src/Notice/Step.antt =====
-- The rest of the notice page's handlers, and one step of the page: an action of the user, or the
-- browser's answer to a callback.
use yulong.Prelude.{
  ℕ, suc, ◌+◌, Bool, true, List, [], ◌∷◌, ◌++◌, Option, none, some, length, set, get_elem?,
  if◌then◌else◌,
}
use yulong.Text.{JsString, codes, truthy}
use yulong.Url.{url_update_query}
use yulong.Page.{
  post, send, ask_input, alert, notify, reload, throw, success, error, Reply, succeeded,
  loaded_text, request_password, password_entered,
}
use yulong.Notice.{
  Notice, Wait, notices_loaded, config_password, config_added, kill_confirmed, kill_password,
  task_added, filter_typed, status_changed, all_password, all_changed, State, Result,
  search_analyze, put_config, add2config, config_reply, kill_all, post_kill, kill_answer,
  kill_reply, get_result, status_json,
}

-- The places of `n` new notices behind `from`.
abbrev pub places : ℕ → List Notice → List ℕ
places from [] = []
places from (n ∷ ns) = from ∷ places (suc from) ns

-- The answer to `get_result`: a missing list is `none`.
unfoldable pub show_notices : Option (List Notice) → State → Result
show_notices none s = (s, notify error (codes "没有其它数据了。") ∷ [])
show_notices (some ns) s = (
  record s { heap = s.heap ++ ns; noticelist = s.noticelist ++ places (length s.heap) ns },
  notify success (loaded_text (length ns)) ∷ [],
)

-- `notice.status = -1`
abbrev pub mark_dealt : ℕ → List Notice → List Notice
mark_dealt place heap = elim (get_elem? heap place) [
  | none ↦ heap
  | some n ↦ set heap place (record n { status = none })
]

-- The answer to `change_status`: the global `notice` is the one that is marked.
unfoldable pub status_reply : ℕ → Reply → State → Result
status_reply id r s =
    if succeeded r
    then elim s.notice [
      | none ↦ (s, throw (codes "notice is undefined") ∷ [])
      | some place ↦ (record s { heap = mark_dealt place s.heap; currenttab = id + 1 }, [])
    ]
    else (s, [])

-- The notice that a reference stands for.
abbrev pub notice_at : List Notice → Option ℕ → Option Notice
notice_at heap none = none
notice_at heap (some place) = get_elem? heap place

unfoldable pub change_status : ℕ → ℕ → State → Result
change_status id status s =
    let target : Option ℕ = get_elem? s.noticelist id in
    elim (notice_at s.heap target) [
      | none ↦ (record s { notice = target }, throw (codes "notice is undefined") ∷ [])
      | some n ↦ (
        record s { notice = target },
        send (record { method = post; url = s.notice_url; body = some (status_json n.id status) })
              (status_changed id)
            ∷ [],
      )
    ]

-- The callback of `request_password` in `change_all`.
module _ (anchor_hash : JsString → JsString) where
  unfoldable pub post_all : ℕ → JsString → State → Result
  post_all status password s =
      let url = url_update_query anchor_hash (codes "pass") password s.notice_url in
      (
        record s { notice_url = url },
        send (record { method = post; url = url; body = some (status_json (codes "all") status) })
              all_changed
            ∷ [],
      )

-- Where it succeeds the page is loaded anew: the state given here is the one that then ends.
unfoldable pub all_reply : Reply → State → Result
all_reply r s =
    if succeeded r
    then (s, notify success (codes "操作成功。") ∷ reload ∷ [])
    else (s, alert error (codes "操作失败") r.msg ∷ [])

-- What the user does.
pub data Action : Type 0 where
  analyze : Notice → Action
  add : JsString → JsString → JsString → Action
  kill : JsString → Action
  open_filter : Action
  choose_type : JsString → Action
  more : Action
  click_tab : ℕ → Action
  mark : ℕ → ℕ → Action
  mark_all : ℕ → Action
  close_message : Action

-- What the browser answers to a callback.
pub data Answer : Type 0 where
  notices : Option (List Notice) → Answer
  password : Option JsString → Answer
  chosen : Bool → Answer
  typed : Option JsString → Answer
  reply : Reply → Answer

module _ (anchor_hash : JsString → JsString) (two_factor : Bool) (task_url : JsString) where
  -- Asks for a type's first page behind a cleared list.
  abbrev restart : State → Result
  restart s =
      get_result anchor_hash two_factor task_url s.currenttype 1 (record s { noticelist = [] })

  unfoldable pub filter_answer : Option JsString → State → Result
  filter_answer none s = (record s { filter = [] }, [])
  filter_answer (some input) s =
      if truthy input then restart (record s { filter = input }) else (record s { filter = [] }, [])

  unfoldable pub change_type : JsString → State → Result
  change_type kind s = restart (record s { currenttype = kind })

  unfoldable pub get_more : State → Result
  get_more s =
      get_result anchor_hash two_factor task_url s.currenttype (s.currentpage + 1)
        (record s { currentpage = s.currentpage + 1 })

  unfoldable pub act : Action → State → Result
  unfolding search_analyze add2config kill_all change_status request_password post_all change_type
      get_more get_result
  act (analyze n) s = search_analyze n s
  act (add kind info config_type) s =
      add2config anchor_hash two_factor task_url kind info config_type s
  act (kill process) s = kill_all anchor_hash two_factor task_url process s
  act open_filter s = (
    s,
    ask_input (codes "告警信息过滤器") (codes "请输入需要搜索的ip, 告警类型等信息") (codes "Filter") filter_typed ∷ [],
  )
  act (choose_type kind) s = change_type kind s
  act more s = get_more s
  act (click_tab tab) s = (record s { currenttab = tab }, [])
  act (mark id status) s = change_status id status s
  act (mark_all status) s =
      request_password two_factor (all_password status) (post_all anchor_hash status) s
  act close_message s = (record s { is_close_messagebox = true }, [])

  -- The callback that a wait stands for; an answer of another kind does not reach it.
  unfoldable pub answer : Wait → Answer → State → Result
  unfolding show_notices put_config config_reply kill_answer post_kill kill_reply filter_answer
      status_reply post_all all_reply password_entered
  answer notices_loaded (notices ns) s = show_notices ns s
  answer config_password (password p) s =
      password_entered (put_config anchor_hash two_factor task_url) p s
  answer config_added (reply r) s = config_reply anchor_hash two_factor task_url r s
  answer kill_confirmed (chosen b) s = kill_answer anchor_hash two_factor task_url b s
  answer kill_password (password p) s =
      password_entered (post_kill anchor_hash two_factor task_url) p s
  answer task_added (reply r) s = kill_reply anchor_hash two_factor task_url r s
  answer filter_typed (typed p) s = filter_answer p s
  answer (status_changed id) (reply r) s = status_reply id r s
  answer (all_password status) (password p) s = password_entered (post_all anchor_hash status) p s
  answer all_changed (reply r) s = all_reply r s
  answer _ _ s = (s, [])
