-- ===== src/Install/Setting.antt =====
-- The last step of the install wizard (web/static/upload/main.js): the key and the settings; and
-- what the page disables when it opens.
pub mod Laws
mod Tests
use yulong.Prelude.{
  ℕ, zero, suc, ◌+◌, ◌-◌, List, [], ◌∷◌, ◌++◌, Option, none, some, if◌then◌else◌, Bool, true, false,
  not,
}
use yulong.Text.{JsString, codes, split_char, truthy}
use yulong.Url.{url_update_query}
use yulong.Page.{
  text, object, array, fields, items, post, Effect, Request, send, alert, confirm, reload, error,
  warning, success, Reply, succeeded,
}
use yulong.Install.Cert.{test_cert}

-- `i`, `i + 1`, ... in `n` rounds of a counted loop.
abbrev pub range_from : ℕ → ℕ → List ℕ
range_from i zero = []
range_from i (suc n) = i ∷ range_from (i + 1) n

-- The buttons that the first loop disables, `for (i = 1; i < current_step; i++)`.
unfoldable pub done_buttons : ℕ → List ℕ
done_buttons current_step = range_from 1 (current_step - 1)

-- The entries that the second loop disables, `for (i = current_step + 1; i <= 4; i++)`.
unfoldable pub later_items : ℕ → List ℕ
later_items current_step = range_from (current_step + 1) (4 - current_step)

pub data Wait : Type 0 where
  key_created : Wait
  setting_added : Wait
  install_done : Wait

-- `cert` is the text put into the form, `placeholder` tells whether its hint was, `link` is where
-- the private key can be loaded.
pub record State : Type 0 where
  pub cert : Option JsString
  pub placeholder : Bool
  pub link : Option JsString
  pub setting_enabled : Bool

abbrev pub Result : Type 0
Result = State × List (Effect Wait)

-- `{status, msg, cert}`: a missing certificate is empty.
pub record KeyReply : Type 0 where
  pub reply : Reply
  pub cert : JsString

pub data Action : Type 0 where
  create_key : Action
  init_setting : JsString → JsString → JsString → Action

pub data Answer : Type 0 where
  key : KeyReply → Answer
  reply : Reply → Answer
  chosen : Answer

-- `href` is `location.href`.
module _ (anchor_hash : JsString → JsString) (href : JsString) where
  abbrev step_url : JsString → JsString
  step_url action =
      url_update_query anchor_hash (codes "action") action
        (url_update_query anchor_hash (codes "step") (codes "4") href)

  abbrev pub setting_request : JsString → JsString → JsString → Request
  setting_request ip process cert = record {
    method = post;
    url = step_url (codes "addconfig");
    body = some (
        object (
          fields (
            (codes "ip", array (items (split_char b',' ip)))
            ∷ (codes "process", array (items (split_char b',' process)))
            ∷ (codes "cert", text cert)
            ∷ [])));
  }

  unfoldable pub act : Action → State → Result
  unfolding test_cert
  act create_key s = (
    s,
    send (record { method = post; url = step_url (codes "createkey"); body = none }) key_created
        ∷ [],
  )
  act (init_setting ip process cert) s =
      if not (test_cert cert)
      then (s, alert error (codes "证书格式错误") (codes "前后记得不要有换行或者空格哦") ∷ [])
      else (s, send (setting_request ip process cert) setting_added ∷ [])

  -- The rest of the answer to the key's request: the link, and the button of the settings.
  abbrev show_link : State → State
  show_link s = record s {
    link = some (url_update_query anchor_hash (codes "download") (codes "private") href);
    setting_enabled = true;
  }

  unfoldable pub key_reply : KeyReply → State → Result
  key_reply r s =
      if succeeded r.reply
      then if truthy r.cert then (show_link (record s { cert = some r.cert }), []) else (
        show_link (record s { placeholder = true }),
        alert warning (codes "无法自动化生成证书请手动生成") r.reply.msg ∷ [],
      )
      else (s, alert error (codes "Oops...") r.reply.msg ∷ [])

  unfoldable pub setting_reply : Reply → State → Result
  setting_reply r s =
      if succeeded r
      then (
        s,
        confirm (codes "安装步骤已经全部完成!!") (codes "基础配置已上传,HTTPS证书已经更新,请重启web程序作用新的HTTPS证书")
              install_done
            ∷ [],
      )
      else (s, alert error (codes "Oops...") r.msg ∷ [])

  unfoldable pub answer : Wait → Answer → State → Result
  unfolding key_reply setting_reply
  answer key_created (key r) s = key_reply r s
  answer setting_added (reply r) s = setting_reply r s
  answer install_done chosen s = (s, reload ∷ [])
  answer _ _ s = (s, [])
