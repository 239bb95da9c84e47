-- ===== src/Backend/Access.antt =====
-- What lets a request through to its handler: `Prepare` of web/controllers/base.go with the
-- helpers that it calls. The time-based password `serverside` is that of the moment; beego runs no
-- handler behind a check that has answered.
pub mod Texts
pub mod Laws
pub mod Tries
use yulong.Prelude.{
  ℕ, Bool, true, false, ◌&&◌, ◌||◌, not, List, [], ◌∷◌, ◌++◌, Option, none, some, if◌then◌else◌,
  ◌==◌, reverse, drop,
}
use yulong.Text.{JsString, codes, truthy, str_eq, strip_prefix, split_char}
use yulong.Page.{Json}
use yulong.Backend.Forms.{EditCfgForm, unmarshal}

-- `utils.StringInSlice`
unfoldable pub string_in_slice : JsString → List JsString → Bool
string_in_slice a [] = false
string_in_slice a (b ∷ list) = str_eq b a || string_in_slice a list

abbrev pub is_some {ℓ} : {A : Type ℓ} → Option A → Bool
is_some none = false
is_some (some a) = true

-- `strings.Contains(s, key)`
abbrev pub has_part : JsString → JsString → Bool
has_part key [] = is_some (strip_prefix key [])
has_part key (c ∷ s) = is_some (strip_prefix key (c ∷ s)) || has_part key s

-- `utils.FindSub`
unfoldable pub find_sub : List JsString → JsString → JsString
find_sub [] str = []
find_sub (key ∷ strlist) str = if has_part key str then key else find_sub strlist str

-- `settings.AuthURILst` and `settings.HTTPURLLst`
abbrev pub auth_uri_lst : List JsString
auth_uri_lst = codes "/file" ∷ codes "/config" ∷ codes "/tasks" ∷ codes "/rules" ∷ []

abbrev pub http_url_lst : List JsString
http_url_lst = codes "/download" ∷ []

-- The configuration of the application, and the settings in the database that `Prepare` reads.
pub record AppConfig : Type 0 where
  pub ylhostname : JsString
  pub only_https : Bool
  pub dev_mode : Bool
  pub username : JsString
  pub two_factor_auth : Bool
  pub learn : Bool
  pub white_id : JsString

-- `user` is the session's, `pass` the query's as `GetUint32` reads it.
pub record Request : Type 0 where
  pub host : JsString
  pub scheme : JsString
  pub url : JsString
  pub method : JsString
  pub user : Option JsString
  pub pass : Option ℕ
  pub cookietoken : JsString
  pub headertoken : JsString
  pub body : Option Json

pub data Outcome : Type 0 where
  passed forbidden to_https to_login too_many wrong_password wrong_token : Outcome

-- `strings.HasSuffix`
abbrev pub has_suffix : JsString → JsString → Bool
has_suffix s suffix = is_some (strip_prefix (reverse suffix) (reverse s))

-- `WatchModeExempt`: in learning mode the white list is changed without the second factor.
unfoldable pub watch_mode_exempt : AppConfig → Request → Bool
watch_mode_exempt app r =
    has_suffix r.url (codes "config") && (app.learn && str_eq (unmarshal r.body).0.id app.white_id)

abbrev pub is_get : Request → Bool
is_get r = str_eq r.method (codes "GET")

abbrev pub logged_in : AppConfig → Request → Bool
logged_in app r = elim r.user [ none ↦ false | some user ↦ str_eq user app.username ]

-- Whether the second factor is asked for.
unfoldable pub is_guarded : AppConfig → Request → Bool
is_guarded app r =
    not (is_get r)
    && (app.two_factor_auth
        && (not (watch_mode_exempt app r) && truthy (find_sub auth_uri_lst r.url)))

-- `TFAPassHistorys` at the start, and behind an attempt: the present password is pushed, and the
-- oldest is popped.
abbrev pub first_historys : List ℕ
first_historys = 0 ∷ 0 ∷ 0 ∷ 0 ∷ 0 ∷ 0 ∷ []

abbrev pub pushed : ℕ → List ℕ → List ℕ
pushed serverside historys = drop 1 (historys ++ serverside ∷ [])

abbrev pub popped : ℕ → List ℕ → ℕ
popped serverside [] = serverside
popped serverside (first ∷ historys) = first

abbrev pub same_pass : ℕ → Option ℕ → Bool
same_pass serverside none = false
same_pass serverside (some clientside) = serverside == clientside

unfoldable pub check_csrf : AppConfig → Request → Outcome
check_csrf app r =
    if not (is_get r) && (not app.dev_mode && not (str_eq r.headertoken r.cookietoken))
    then wrong_token
    else passed

unfoldable pub check_two_factor : ℕ → AppConfig → Request → List ℕ → Outcome
check_two_factor serverside app r historys =
    if popped serverside historys == serverside
    then too_many
    else if same_pass serverside r.pass
    then check_csrf app r
    else wrong_password

unfoldable pub prepare : ℕ → AppConfig → Request → List ℕ → Outcome × List ℕ
prepare serverside app r historys =
    if truthy app.ylhostname && not (string_in_slice r.host (split_char b',' app.ylhostname))
    then (forbidden, historys)
    else if app.only_https
        && (not (str_eq r.scheme (codes "https")) && not (truthy (find_sub http_url_lst r.url)))
    then (to_https, historys)
    else if not app.dev_mode && not (logged_in app r)
    then (to_login, historys)
    else if is_guarded app r
    then (check_two_factor serverside app r historys, pushed serverside historys)
    else (check_csrf app r, historys)
