-- ===== src/Config/Step.antt =====
-- The handlers and callbacks of the settings page.
use yulong.Prelude.{
  ℕ, Bool, ◌&&◌, not, [], ◌∷◌, ◌++◌, Option, none, some, get_elem?, if◌then◌else◌, ◌==◌,
}
use yulong.Text.{JsString, codes, truthy, str_eq, trim}
use yulong.Url.{url_update_query}
use yulong.Page.{
  get, post, put, delete, send, confirm, ask_input, alert, notify, throw, success, warning, Reply,
  succeeded, refused, ajaxcallback, request_password, password_entered, enable_pass,
}
use yulong.Config.{
  Wait, edit_typed, item_password, item_changed, add_typed, add_password, value_added,
  del_confirmed, del_password, value_deleted, notice_ignored, white_added, notice_deleted,
  learn_loaded, learn_cleaned, pull_password, pull_added, State, Result, white_info, white_json,
  ignore_json, clean_json, update_json, upper,
}
use yulong.Config.Items.{
  change_item, edit_answer, add_answer, post_item, put_value, added_reply, del_answer, delete_value,
  deleted_reply,
}

-- What the user does; the last argument of `del` and `add_white` is the text of the element that is
-- clicked, and `hover` is `showdel` and its like: the pointer comes to an element.
pub data Action : Type 0 where
  edit : ℕ → JsString → JsString → Action
  add : ℕ → JsString → Action
  del : JsString → ℕ → JsString → JsString → Action
  hover : JsString → Action
  add_white : JsString → JsString → ℕ → JsString → Action
  clean_notice : Action
  update_bool : ℕ → JsString → Bool → Action
  close_learn : ℕ → JsString → Action
  save_info : ℕ → JsString → JsString → Action
  pull_all : JsString → Action

pub data Answer : Type 0 where
  typed : Option JsString → Answer
  confirmed : Answer
  password : Option JsString → Answer
  reply : Reply → Answer

module _ (anchor_hash : JsString → JsString) (two_factor : Bool)
    (notice_url task_url : JsString) where
  -- `add_white`: a notice seen once is ignored, others go to the white list, without the second
  -- factor.
  unfoldable pub put_white : JsString → JsString → ℕ → JsString → State → Result
  put_white kind info count target s =
      if count == 1
      then (
        s,
        send (record { method = post; url = notice_url; body = some (ignore_json kind info) })
              (notice_ignored kind info target)
            ∷ [],
      )
      else elim s.white_index [
        | none ↦ (
          record s { info_ = white_info kind info },
          throw (codes "configs[null] is undefined") ∷ [],
        )
        | some i ↦ elim (get_elem? s.configs i) [
          | none ↦ (
            record s { info_ = white_info kind info },
            throw (codes "configs[i] is undefined") ∷ [],
          )
          | some c ↦ (
            record s { info_ = white_info kind info },
            send
                  (record {
                    method = put;
                    url = s.config_url;
                    body = some (white_json c.id kind (white_info kind info));
                  })
                  (white_added kind info target)
                ∷ [],
          )
        ]
      ]

  -- The answer, where `kind` stands for its text in the language table: the notices of that kind are deleted where the entry was added.
  unfoldable pub white_reply : JsString → JsString → JsString → Reply → State → Result
  white_reply kind info target r s =
      if succeeded r
      then (
        record s { ele = some target },
        notify success (kind ++ codes ":" ++ info ++ codes " 已添加到白名单")
            ∷ send
                (record {
                  method = delete;
                  url =
                      url_update_query anchor_hash (codes "info") info
                        (url_update_query anchor_hash (codes "type") kind notice_url);
                  body = none;
                })
                (notice_deleted info)
            ∷ [],
      )
      else if refused r
      then (s, ajaxcallback r ∷ [])
      else (s, [])

  -- `UpdateBool`: leaving the learning mode first shows what was learnt.
  unfoldable pub update_switch : ℕ → JsString → Bool → State → Result
  unfolding change_item
  update_switch index key checked s =
      if not checked && str_eq key (codes "learn")
      then (
        s,
        send
              (record {
                method = get;
                url = url_update_query anchor_hash (codes "status") (codes "learn") notice_url;
                body = none;
              })
              learn_loaded
            ∷ [],
      )
      else change_item anchor_hash two_factor notice_url task_url index key
          (if checked then codes "true" else codes "false") s

  -- The callback of `request_password` in `pull_all` reads the global `json`.
  unfoldable pub post_pull : JsString → JsString → State → Result
  post_pull system pass s = (
    s,
    send (record { method = post; url = enable_pass anchor_hash task_url pass; body = some s.json })
          (pull_added system)
        ∷ [],
  )

  unfoldable pub pull_reply : JsString → Reply → State → Result
  pull_reply system r s = (
    s,
    (if succeeded r
          then alert success (codes "Updated!") (codes "已为所有" ++ system ++ codes "机器添加更新任务.") ∷ []
          else [])
        ++ (if refused r then ajaxcallback r ∷ [] else []),
  )

  unfoldable pub act : Action → State → Result
  unfolding change_item put_white update_switch post_pull request_password
  act (edit index key origin) s =
      (s, ask_input (upper key) (codes "Input a new value!") origin (edit_typed index key) ∷ [])
  act (add index key) s =
      (s, ask_input (upper key) (codes "Add a new item!") [] (add_typed index key) ∷ [])
  act (del id index key target) s = elim s.ele [
    | none ↦ (s, throw (codes "ele is undefined") ∷ [])
    | some shown ↦ (
      s,
      confirm (codes "Are you sure?") (codes "Delete the \"" ++ trim shown ++ codes "\"?")
            (del_confirmed id index key target)
          ∷ [],
    )
  ]
  act (hover shown) s = (record s { ele = some shown }, [])
  act (add_white kind info count target) s = put_white kind info count target s
  act clean_notice s = (
    s,
    send (record { method = post; url = notice_url; body = some clean_json }) learn_cleaned ∷ [],
  )
  act (update_bool index key checked) s = update_switch index key checked s
  act (close_learn index key) s =
      change_item anchor_hash two_factor notice_url task_url index key (codes "false") s
  act (save_info index key value) s =
      if truthy value
      then change_item anchor_hash two_factor notice_url task_url index key value s
      else (s, [])
  act (pull_all system) s =
      request_password two_factor (pull_password system) (post_pull system)
        (record s { json = update_json system })

  unfoldable pub answer : Wait → Answer → State → Result
  unfolding edit_answer add_answer put_value added_reply del_answer delete_value deleted_reply
      white_reply post_item post_pull pull_reply password_entered
  answer (edit_typed index key) (typed v) s =
      edit_answer anchor_hash two_factor notice_url task_url index key v s
  answer (item_password body) (password p) s =
      password_entered (post_item anchor_hash two_factor notice_url task_url body) p s
  answer item_changed (reply r) s = (s, ajaxcallback r ∷ [])
  answer (add_typed index key) (typed v) s =
      add_answer anchor_hash two_factor notice_url task_url index key v s
  answer (add_password index key value) (password p) s =
      password_entered (put_value anchor_hash two_factor notice_url task_url index key value) p s
  answer (value_added index key value) (reply r) s =
      added_reply anchor_hash two_factor notice_url task_url index key value r s
  answer (del_confirmed id index key target) confirmed s =
      del_answer anchor_hash two_factor notice_url task_url id index key target s
  answer (del_password id index key) (password p) s =
      password_entered (delete_value anchor_hash two_factor notice_url task_url id index key) p s
  answer (value_deleted index key) (reply r) s =
      deleted_reply anchor_hash two_factor notice_url task_url index key r s
  answer (notice_ignored kind info target) (reply r) s =
      if succeeded r
      then (
        record s { ele = some target },
        notify success (kind ++ codes ":" ++ info ++ codes " 已经忽略") ∷ [],
      )
      else (s, [])
  answer (white_added kind info target) (reply r) s = white_reply kind info target r s
  answer (notice_deleted info) (reply r) s =
      if succeeded r then (s, notify warning (codes "删除已经添加到白名单的信息:" ++ info) ∷ []) else (s, [])
  answer learn_cleaned (reply r) s =
      if succeeded r then (s, notify warning (codes "所有在观察模式下的未处理告警已经设置为未处理告警。") ∷ []) else (s, [])
  answer (pull_password system) (password p) s = password_entered (post_pull system) p s
  answer (pull_added system) (reply r) s = pull_reply system r s
  answer _ _ s = (s, [])
