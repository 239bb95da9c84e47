-- ===== src/Backend/Store.antt =====
-- The database of the settings, as the backend uses it. MongoDB and its driver are not part of the
-- repository; the laws are what they document.
use yulong.Prelude.{◌≡◌, Bool, false, ◌&&◌, ◌||◌, not, Option, some}
use yulong.Text.{JsString, includes, str_eq}
use yulong.Page.{Json}

-- The values of a list, whose order MongoDB does not promise.
abbrev pub Values : Type 0
Values = JsString → Bool

-- The operations on the collection `config`; `none` is the driver's error. `find` gives the list
-- under a key of the document with that identifier, and `find_one` the identifier of the document
-- of that type. An identifier that is none makes `bson.ObjectIdHex` panic.
pub record Store (Db : Type 0) : Type 0 where
  pub is_object_id : JsString → Bool
  pub find : Db → JsString → JsString → Option Values
  pub find_one : Db → JsString → JsString
  pub set_value : JsString → JsString → Json → Db → Option Db
  pub add_to_set : JsString → JsString → JsString → Db → Option Db
  pub pull : JsString → JsString → JsString → Db → Option Db

-- `$addToSet` puts the value into the list, `$pull` takes each occurrence out, and both leave every
-- other list. A dot in the key would lead into the list.
pub record IsLawful {Db : Type 0} (store : Store Db) : Type 0 where
  pub find-add_to_set :
      (id key v : JsString) (f : Values) (db next : Db)
      → includes b'.' key ≡ false
      → store.add_to_set id key v db ≡ some next
      → store.find db id key ≡ some f
      → store.find next id key ≡ some (λ x. f x || str_eq v x)
  pub find-add_to_set-other :
      (id key v i k : JsString) (db next : Db)
      → includes b'.' key ≡ false
      → store.add_to_set id key v db ≡ some next
      → (str_eq i id && str_eq k key) ≡ false
      → store.find next i k ≡ store.find db i k
  pub find-pull :
      (id key v : JsString) (f : Values) (db next : Db)
      → includes b'.' key ≡ false
      → store.pull id key v db ≡ some next
      → store.find db id key ≡ some f
      → store.find next id key ≡ some (λ x. f x && not (str_eq v x))
  pub find-pull-other :
      (id key v i k : JsString) (db next : Db)
      → includes b'.' key ≡ false
      → store.pull id key v db ≡ some next
      → (str_eq i id && str_eq k key) ≡ false
      → store.find next i k ≡ store.find db i k
