-- ===== src/Page.antt =====
-- What the pages of the console share (web/static/js/js.js, web/static/js/main.js): the URLs of the
-- server's interface, the password prompt, and the effects by which a handler acts on the browser.
-- A handler returns the new state and its effects in order; a callback that it leaves behind is the
-- value of a data type of the page, by which the browser's answer finds it again. An exception that
-- ends a handler is its last effect.
use yulong.Prelude.{ℕ, Bool, true, false, List, [], ◌∷◌, ◌++◌, Option, none, some, if◌then◌else◌}
use yulong.Text.{JsString, codes, truthy, to_string}
use yulong.Url.{url_update_query}

-- The values that are sent as JSON.
mutual
  pub data Json : Type 0 where
    null : Json
    bool : Bool → Json
    number : ℕ → Json
    text : JsString → Json
    array : Items → Json
    object : Fields → Json

  pub data Items : Type 0 where
    nil : Items
    cons : Json → Items → Items

  pub data Fields : Type 0 where
    end : Fields
    field : JsString → Json → Fields → Fields

abbrev pub fields : List (JsString × Json) → Fields
fields [] = end
fields ((k, v) ∷ rest) = field k v (fields rest)

abbrev pub items : List JsString → Items
items [] = nil
items (s ∷ rest) = cons (text s) (items rest)

pub data Method : Type 0 where
  get post put delete : Method

pub record Request : Type 0 where
  pub method : Method
  pub url : JsString
  pub body : Option Json

pub data Kind : Type 0 where
  success error warning info : Kind

-- `K` is the page's type of callbacks.
pub data Effect (K : Type 0) : Type 0 where
  send : Request → K → Effect K
  ask_password : K → Effect K
  confirm : JsString → JsString → K → Effect K
  ask_input : JsString → JsString → JsString → K → Effect K
  alert : Kind → JsString → JsString → Effect K
  notify : Kind → JsString → Effect K
  reload : Effect K
  go_to : JsString → Effect K
  throw : JsString → Effect K

abbrev pub loaded_text : ℕ → JsString
loaded_text n = codes "成功加载 " ++ to_string n ++ codes " 条数据。"

-- `{status, msg}`: the answer of most requests; a field that is not there is `none` or empty.
pub record Reply : Type 0 where
  pub status : Option Bool
  pub msg : JsString

-- `if (data.status)`
abbrev pub succeeded : Reply → Bool
succeeded r = elim r.status [ some b ↦ b | none ↦ false ]

-- `data.status == false`: a missing status is not equal to it.
abbrev pub refused : Reply → Bool
refused r = elim r.status [ some true ↦ false | some false ↦ true | none ↦ false ]

unfoldable pub ajaxcallback : {K : Type 0} → Reply → Effect K
ajaxcallback r =
    if succeeded r
    then alert success (codes "成功") (codes "该动作已经作用到服务器")
    else if truthy r.msg
    then alert error (codes "Oops...") r.msg
    else alert error (codes "Oops...") (codes "something error")

-- The page's URLs; those that a handler overwrites are fields of the state, too.
pub record Urls : Type 0 where
  pub login_url : JsString
  pub client_url : JsString
  pub info_url : JsString
  pub notice_url : JsString
  pub config_url : JsString
  pub task_url : JsString
  pub file_url : JsString
  pub monitor_url : JsString
  pub analyze_url : JsString
  pub statistics_url : JsString
  pub rules_url : JsString
  pub logout_url : JsString

unfoldable pub urls : JsString → Urls
urls apihost = record {
  login_url = apihost ++ codes "/login";
  client_url = apihost ++ codes "/json/client";
  info_url = apihost ++ codes "/json/info";
  notice_url = apihost ++ codes "/json/notice";
  config_url = apihost ++ codes "/json/config";
  task_url = apihost ++ codes "/json/tasks";
  file_url = apihost ++ codes "/json/file";
  monitor_url = apihost ++ codes "/json/monitor";
  analyze_url = apihost ++ codes "/json/analyze";
  statistics_url = apihost ++ codes "/json/statistics";
  rules_url = apihost ++ codes "/json/rules";
  logout_url = apihost ++ codes "/json/logout";
}

-- `request_password`: with two factors the callback waits for a prompt, else it runs with the number 0,
-- of which only the text is used.
module _ {S K : Type 0} where
  unfoldable pub request_password :
      Bool → K → (JsString → S → S × List (Effect K)) → S → S × List (Effect K)
  request_password two_factor k callback s =
      if two_factor then (s, ask_password k ∷ []) else callback (codes "0") s

  -- The prompt's function: only a nonempty input goes on.
  unfoldable pub password_entered :
      (JsString → S → S × List (Effect K)) → Option JsString → S → S × List (Effect K)
  password_entered callback none s = (s, [])
  password_entered callback (some input) s = if truthy input then callback input s else (s, [])

-- `enable_pass`
unfoldable pub enable_pass : (JsString → JsString) → JsString → JsString → JsString
enable_pass anchor_hash url pass = url_update_query anchor_hash (codes "pass") pass url
