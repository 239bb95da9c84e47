-- ===== src/Backend/Settings.antt =====
-- The settings in the backend: `ConfigController` (web/controllers/config.go) and `Config`
-- (web/models/config.go).
pub mod Agree
pub mod Exchange
pub mod Sync
pub mod Typed
use yulong.Prelude.{
  Bool, true, false, ◌&&◌, ◌||◌, List, [], ◌∷◌, Option, none, some, if◌then◌else◌, ◌==◌, ℕ,
}
use yulong.Text.{JsString, codes, str_eq}
use yulong.Page.{Json, text, bool, Reply}
use yulong.Backend.Forms.{EditCfgForm, unmarshal}
use yulong.Backend.Access.{string_in_slice}
use yulong.Backend.Store.{Store}

-- `strings.Trim(value, " ") == ""`
abbrev pub is_blank : JsString → Bool
is_blank [] = true
is_blank (c ∷ s) = c == b' ' && is_blank s

-- What is sent back, or `none` behind a panic.
abbrev pub Answered : Type 0 → Type 0
Answered Db = Option Reply × Db

-- `bson.M{"status": res}`, and `NewErrorInfo(settings.EditCfgFailure)`, whose status is 0.
abbrev pub status : Bool → Reply
status res = record { status = some res; msg = [] }

abbrev pub edit_cfg_failure : Reply
edit_cfg_failure = record { status = some false; msg = codes "修改配置失败" }

-- `settings.ConfigTypeMap`; its lists share no key, so the order of the map does not matter.
abbrev pub bool_keys : List JsString
bool_keys =
    codes "udp"
    ∷ codes "lan"
    ∷ codes "learn"
    ∷ codes "switch"
    ∷ codes "onlyhigh"
    ∷ codes "offlinecheck"
    ∷ []

abbrev pub int_keys : List JsString
int_keys = codes "cycle" ∷ []

-- `strconv.ParseBool`, whose error leaves false.
abbrev pub parse_bool : JsString → Bool
parse_bool value =
    str_eq value (codes "1")
    || str_eq value (codes "t")
    || str_eq value (codes "T")
    || str_eq value (codes "true")
    || str_eq value (codes "TRUE")
    || str_eq value (codes "True")

-- `utils.KeyType`; `atoi` is the number that `strconv.Atoi` gives, as JSON.
unfoldable pub key_type : (JsString → Json) → JsString → JsString → Json
unfolding string_in_slice
key_type atoi key value =
    if string_in_slice key int_keys
    then atoi value
    else if string_in_slice key bool_keys
    then bool (parse_bool value)
    else text value

module _ {Db : Type 0} (store : Store Db) (atoi : JsString → Json) where
  -- The three methods of `Config` end alike: the identifier is read, and the document is updated.
  abbrev pub update : JsString → JsString → (Db → Option Db) → Db → Answered Db
  update id value change db =
      if is_blank value
      then (some (status false), db)
      else if store.is_object_id id
      then elim (change db) [
        | none ↦ (some (status false), db)
        | some next ↦ (some (status true), next)
      ]
      else (none, db)

  -- `EditByID`
  unfoldable pub edit_by_id : JsString → JsString → JsString → Db → Answered Db
  edit_by_id id key value db = update id value (store.set_value id key (key_type atoi key value)) db

  unfoldable pub del_one : JsString → JsString → JsString → Db → Answered Db
  del_one id key value db = update id value (store.pull id key value) db

  unfoldable pub add_one : JsString → JsString → JsString → Db → Answered Db
  add_one id key value db = update id value (store.add_to_set id key value) db

  -- `Edit`, `Del` and `Add`: the body that cannot be read changes nothing.
  unfoldable pub edit : Option Json → Db → Answered Db
  unfolding edit_by_id unmarshal
  edit body db =
      let (j, ok) = unmarshal body in
      if ok then edit_by_id j.id j.key j.input db else (some edit_cfg_failure, db)

  unfoldable pub del : Option Json → Db → Answered Db
  unfolding del_one unmarshal
  del body db =
      let (j, ok) = unmarshal body in
      if ok then del_one j.id j.key j.input db else (some edit_cfg_failure, db)

  -- "blacklist" and "whitelist" stand for the documents of that type.
  abbrev pub resolved : JsString → Db → JsString
  resolved id db =
      if str_eq id (codes "blacklist") || str_eq id (codes "whitelist")
      then store.find_one db id
      else id

  unfoldable pub add : Option Json → Db → Answered Db
  unfolding add_one unmarshal
  add body db =
      let (j, ok) = unmarshal body in
      if ok then add_one (resolved j.id db) j.key j.input db else (some edit_cfg_failure, db)
