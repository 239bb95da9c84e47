-- ===== src/Session.antt =====
-- Around the pages: the login form (web/static/js/login.js), leaving, the routes and the headers
-- of requests (web/static/js/main.js), what every answer goes through, the menu, and the hint of
-- the task form (web/static/js/js.js).
pub mod Laws
mod Tests
use yulong.Prelude.{
  ℕ, Bool, true, false, ◌&&◌, ◌||◌, not, List, [], ◌∷◌, ◌++◌, Option, none, some, reverse,
  if◌then◌else◌, ◌==◌,
}
use yulong.Text.{JsString, codes, truthy, str_eq, strip_prefix, trim}
use yulong.Dict.{put_field}
use yulong.Page.{
  Json, text, object, fields, get, post, put, delete, Method, Effect, send, alert, confirm, go_to,
  reload, error, warning, Reply, succeeded,
}

pub data Wait : Type 0 where
  login_answered : Wait
  logout_confirmed : Wait
  logout_answered : Wait

-- The form's fields, as jQuery sends them.
abbrev pub credentials : JsString → JsString → Json
credentials user pass =
    object (fields ((codes "username", text user) ∷ (codes "password", text pass) ∷ []))

-- The login button; `href` is `location.href`.
unfoldable pub click_login : JsString → JsString → JsString → List (Effect Wait)
click_login href username password =
    let user = trim username in
    let pass = trim password in
    if not (truthy user) || not (truthy pass)
    then alert warning (codes "输入错误!") (codes "用户名及密码不可为空") ∷ []
    else send (record { method = post; url = href; body = some (credentials user pass) })
        login_answered
      ∷ []

-- A key that is let go in an input: the enter key is the button.
unfoldable pub keyup : ℕ → JsString → JsString → JsString → List (Effect Wait)
keyup code href username password = if code == 13 then click_login href username password else []

-- `ok` tells whether jQuery's status is `success`.
unfoldable pub login_reply : Bool → Reply → List (Effect Wait)
login_reply ok r =
    if ok
    then if succeeded r
      then go_to (codes "/#!/") ∷ []
      else alert error (codes "输入错误!") (codes "用户名或密码验证错误") ∷ []
    else []

-- The icon for leaving, its question, and the server's answer.
unfoldable pub click_logout : List (Effect Wait)
click_logout = confirm (codes "确定要退出登录吗?") [] logout_confirmed ∷ []

unfoldable pub logout_answer : JsString → List (Effect Wait)
logout_answer logout_url =
    send (record { method = post; url = logout_url; body = none }) logout_answered ∷ []

unfoldable pub logout_reply : JsString → Reply → List (Effect Wait)
logout_reply login_url r = if succeeded r then go_to login_url ∷ [] else []

-- The headers of an answer that the interceptor `Redirect` looks at.
pub record Headers : Type 0 where
  pub is_login_page : Option JsString
  pub content_type : Option JsString

abbrev pub is_text : Option JsString → JsString → Bool
is_text none s = false
is_text (some t) s = str_eq t s

-- `Redirect.response`; the answer itself goes on in every case.
unfoldable pub redirect_response : JsString → Headers → List (Effect Wait)
redirect_response login_url h =
    if is_text h.is_login_page (codes "true")
    then go_to login_url ∷ []
    else if not (is_text h.content_type (codes "application/json; charset=utf-8"))
    then alert error (codes "响应格式错误!") (codes "服务端响应格式错误，请检查输入是否合理") ∷ []
    else []

-- A request's headers.
abbrev pub Fields : Type 0
Fields = List (JsString × JsString)

-- The services that `$http` requests go through: `XSRFInterceptor`, or `devmode`.
unfoldable pub intercept_request : Bool → JsString → Fields → Fields
intercept_request devmode request_token headers =
    if devmode
    then put_field (codes "Content-Type") (codes "application/x-www-form-urlencoded") headers
    else put_field (codes "RequestToken") request_token headers

-- The handlers of `ajaxSend`; `method` is as the call spells it.
unfoldable pub ajax_send : Bool → JsString → JsString → Fields → Fields
ajax_send devmode request_token method headers =
    if devmode
    then if str_eq method (codes "post")
      then put_field (codes "Content-Type") (codes "application/x-www-form-urlencoded") headers
      else headers
    else put_field (codes "requesttoken") request_token headers

-- `s.endsWith(t)`
abbrev pub ends_with : JsString → JsString → Bool
ends_with s t = elim (strip_prefix (reverse t) (reverse s)) [ none ↦ false | some r ↦ true ]

-- A click on an entry of the menu; `nohref` is its attribute `no-href`.
unfoldable pub click_menu : JsString → Option JsString → List (Effect Wait)
click_menu href none = []
click_menu href (some nohref) =
    if truthy nohref then if ends_with href nohref then reload ∷ [] else go_to nohref ∷ [] else []

-- A click on the command of a new task: the kinds of task that have no command.
unfoldable pub modal_option_click : JsString → List (Effect Wait)
modal_option_click kind =
    if str_eq kind (codes "kill") || (str_eq kind (codes "delete") || str_eq kind (codes "exec"))
    then []
    else alert warning (codes "Oops!") (kind ++ codes "类型的任务无需填写command") ∷ []

-- A path of the route table: a name behind a colon stands for any text.
pub record Route : Type 0 where
  pub path : JsString
  pub controller : JsString

abbrev pub routes : List Route
routes =
    record { path = codes "/"; controller = codes "statistics" }
    ∷ record { path = codes "/info/:ip/"; controller = codes "detailinfo" }
    ∷ record { path = codes "/notice"; controller = codes "notice" }
    ∷ record { path = codes "/config/"; controller = codes "config" }
    ∷ record { path = codes "/tasks"; controller = codes "tasks" }
    ∷ record { path = codes "/taskresult/:id/"; controller = codes "taskresult" }
    ∷ record { path = codes "/analyze"; controller = codes "analyze" }
    ∷ record { path = codes "/rules"; controller = codes "rules" }
    ∷ record { path = codes "/hostlist"; controller = codes "hostlist" }
    ∷ []

-- `otherwise`
abbrev pub fallback : JsString
fallback = codes "/"
