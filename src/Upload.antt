-- ===== src/Upload.antt =====
-- Files for the server (web/static/js/main.js): the upload of agents on the settings page, and the
-- controller `file`.
pub mod Laws
mod Tests
use yulong.Prelude.{
  ℕ, Bool, true, false, List, [], ◌∷◌, ◌++◌, Option, none, some, get_elem?, if◌then◌else◌,
}
use yulong.Text.{JsString, codes, truthy}
use yulong.Url.{url_update_query}
use yulong.Page.{
  Json, text, object, fields, post, put, Effect, send, alert, throw, success, Reply, succeeded,
  ajaxcallback, request_password, password_entered,
}

-- A kind of agent: its number of bits is the text that goes into the URL.
pub record Agent : Type 0 where
  pub system : JsString
  pub platform : JsString

-- `agent_type` at the start, which is no kind of agent.
abbrev pub no_agent : Agent
no_agent = record { system = codes "null"; platform = codes "null" }

abbrev pub agent_type_lst : List Agent
agent_type_lst =
    record { system = codes "windows"; platform = codes "32" }
    ∷ record { system = codes "windows"; platform = codes "64" }
    ∷ record { system = codes "linux"; platform = codes "64" }
    ∷ []

-- A file as the list and the form describe it; `file` stands for the chosen file's content.
pub record File : Type 0 where
  pub system : JsString
  pub platform : JsString
  pub kind : JsString
  pub file : JsString

pub data Wait : Type 0 where
  upload_password : JsString → Wait
  uploaded : Wait
  file_password : File → Wait
  file_put : Wait

-- `url` is the global variable of `ajax_submit`; `upload_system` names the system whose agents the
-- page then offers to update.
pub record State : Type 0 where
  pub file_url : JsString
  pub upload_url : JsString
  pub url : JsString
  pub agent_type : Agent
  pub upload_system : JsString
  pub fileinfo : JsString
  pub files : List File

abbrev pub Result : Type 0
Result = State × List (Effect Wait)

pub data Action : Type 0 where
  select_file_type : Agent → Action
  choose_file : JsString → Action
  ajax_submit : JsString → JsString → Action
  change : ℕ → JsString → Action
  change_file : File → Action

pub data Answer : Type 0 where
  files_loaded : List File → Answer
  password : Option JsString → Answer
  reply : Reply → Answer

-- The form's fields, in the order in which they are appended.
abbrev pub form_data : File → Json
form_data f = object (
    fields (
      (codes "system", text f.system)
      ∷ (codes "platform", text f.platform)
      ∷ (codes "type", text f.kind)
      ∷ (codes "file", text f.file)
      ∷ []))

-- `change_fileinfo`
unfoldable pub change_fileinfo : JsString → State → State
change_fileinfo value s = record s {
  fileinfo = if truthy value then value else codes "文件选择错误，请重新选择";
}

-- `ajax_success`
unfoldable pub ajax_success : Reply → State → Result
ajax_success r s =
    if succeeded r
    then (
      record s { upload_system = s.agent_type.system; fileinfo = codes "文件已上传" },
      alert success (codes "文件已上传") (codes "你已经上传了新的agent，可点击快速更新，为所有agent添加更新任务。") ∷ [],
    )
    else (record s { fileinfo = codes "文件上传失败" }, ajaxcallback r ∷ [])

module _ (anchor_hash : JsString → JsString) (two_factor : Bool) where
  unfoldable pub create_file_form : State → State
  create_file_form s = record s {
    upload_url =
        url_update_query anchor_hash (codes "platform") s.agent_type.platform
          (url_update_query anchor_hash (codes "system") s.agent_type.system s.file_url);
  }

  -- The callback in `ajax_submit`; an empty URL sends nothing.
  unfoldable pub post_form : JsString → JsString → State → Result
  post_form file pass s =
      let target = url_update_query anchor_hash (codes "pass") pass s.url in
      (
        record s { url = target; fileinfo = codes "文件上传中..." },
        if truthy target
            then send (record { method = post; url = target; body = some (text file) }) uploaded
              ∷ []
            else [],
      )

  -- The callback in `change` and `changeFile`.
  unfoldable pub put_file : File → JsString → State → Result
  put_file f pass s =
      let target = url_update_query anchor_hash (codes "pass") pass s.file_url in
      (
        record s { file_url = target },
        send (record { method = put; url = target; body = some (form_data f) }) file_put ∷ [],
      )

  -- `action` is the form's, `file` the content that was chosen.
  unfoldable pub act : Action → State → Result
  unfolding change_fileinfo create_file_form post_form put_file request_password
  act (select_file_type agent) s = (create_file_form (record s { agent_type = agent }), [])
  act (choose_file value) s = (change_fileinfo value s, [])
  act (ajax_submit action file) s =
      request_password two_factor (upload_password file) (post_form file)
        (record s { url = action })
  act (change index file) s = elim (get_elem? s.files index) [
    | none ↦ (s, throw (codes "files[index] is undefined") ∷ [])
    | some f ↦
        request_password two_factor (file_password (record f { file = file }))
          (put_file (record f { file = file })) s
  ]
  act (change_file f) s = request_password two_factor (file_password f) (put_file f) s

  unfoldable pub answer : Option Wait → Answer → State → Result
  unfolding ajax_success post_form put_file password_entered
  answer none (files_loaded fs) s = (record s { files = fs }, [])
  answer (some (upload_password file)) (password p) s = password_entered (post_form file) p s
  answer (some uploaded) (reply r) s = ajax_success r s
  answer (some (file_password f)) (password p) s = password_entered (put_file f) p s
  answer (some file_put) (reply r) s = (s, ajaxcallback r ∷ [])
  answer _ _ s = (s, [])
