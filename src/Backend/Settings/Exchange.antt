-- ===== src/Backend/Settings/Exchange.antt =====
-- The settings page and the backend together: a dialogue of the page with the request that it sends.
use yulong.Url.{url_update_query}
use yulong.Config.Items.{add_answer, put_value, del_answer, added_reply, deleted_reply}
use yulong.Prelude.{
  ◌⊎◌, ℕ, ◌≡◌, refl, inl, inr, Bool, true, false, ◌||◌, List, [], ◌∷◌, ◌++◌, Option, none, some,
  get_elem?, if◌then◌else◌, Bool-cases, Option-cases,
}
use yulong.Text.{JsString, codes, str_eq, trim}
use yulong.Page.{
  request_password, Json, text, object, fields, get, post, put, delete, Request, send, ask_password,
  Reply, succeeded,
}
use yulong.Filters.{remove_all}
use yulong.Filters.Laws.{without, remove_all-without_all}
use yulong.Config
use yulong.Config.{
  Config, Wait, add_typed, add_password, value_added, del_confirmed, del_password, value_deleted,
  State, Result, lookup_dic, values_at, put_values, put_dic, contains, item_json,
}
use yulong.Config.Step.{del, hover, typed, confirmed, password, reply, act, answer}
use yulong.Backend.Store.{Store}
use yulong.Backend.Settings
use yulong.Backend.Settings.{Answered, edit, update, resolved, is_blank, status}

-- What surrounds the page and the backend: the browser, the URLs of the page, the database, Go's
-- `strconv.Atoi`, and `gate`, which tells whether `Prepare` lets a request through.
pub record World (Db : Type 0) : Type 0 where
  pub anchor_hash : JsString → JsString
  pub notice_url : JsString
  pub task_url : JsString
  pub store : Store Db
  pub atoi : JsString → Json
  pub gate : Request → Bool

-- What `Prepare` sends back for a wrong password. Any other refusal does as much on the page:
-- nothing.
abbrev pub denied : Reply
denied = record { status = some false; msg = codes "验证密码为空或者验证密码不正确，请重新输入双因子验证密码" }

abbrev pub guarded : {Db : Type 0} → Bool → Answered Db → Db → Answered Db
guarded b a db = if b then a else (some denied, db)

-- An update succeeds and changes the database, or fails and leaves it.
abbrev pub IsFailure : Option Reply → Type 0
IsFailure none = Unit
IsFailure (some r) = succeeded r ≡ false

module _ {Db : Type 0} (world : World Db) where
  -- The route of a request by its method, where `gate` tells whether `Prepare` lets it through; a
  -- read changes nothing.
  abbrev pub deliver : Request → Db → Answered Db
  deliver r db =
      guarded (world.gate r)
        (elim r.method [
          | get ↦ (none, db)
          | post ↦ edit world.store world.atoi r.body db
          | put ↦ Settings.add world.store world.atoi r.body db
          | delete ↦ Settings.del world.store world.atoi r.body db
        ])
        db

  unfoldable pub answered : Wait → State → Answered Db → State × Db
  answered w s (none, db) = (s, db)
  answered w s (some r, db) =
      ((answer world.anchor_hash true world.notice_url world.task_url w (reply r) s).0, db)

  -- The request of a step goes to the backend, and what it sends back comes to the page.
  abbrev pub settle : Result → Db → State × Db
  settle (s, send r w ∷ []) db = answered w s (deliver r db)
  settle (s, fs) db = (s, db)

  -- The prompt of a step is answered with the password.
  abbrev pub entered : JsString → Result → Result
  entered p (s, ask_password w ∷ []) =
      answer world.anchor_hash true world.notice_url world.task_url w (password (some p)) s
  entered p r = r

  -- Adding a value to a list: the input, the password, and the backend's answer.
  abbrev pub add_value : ℕ → JsString → JsString → JsString → State × Db → State × Db
  add_value index key v p (s, db) =
      settle
        (entered p (
          answer world.anchor_hash true world.notice_url world.task_url (add_typed index key)
            (typed (some v)) s))
        db

  -- Deleting the value of a list whose element, with the text `shown`, the pointer is on.
  abbrev pub delete_value : ℕ → JsString → JsString → JsString → State × Db → State × Db
  delete_value index key shown p (s, db) = elim (get_elem? s.configs index) [
    | none ↦ (s, db)
    | some g ↦ elim (values_at index key s.configs) [
      | none ↦ (s, db)
      | some vs ↦
          let pointed =
            (act world.anchor_hash true world.notice_url world.task_url (hover shown) s).0 in
          let clicked =
            (act world.anchor_hash true world.notice_url world.task_url (del g.id index key shown)
              pointed).0 in
          settle
            (entered p (
              answer world.anchor_hash true world.notice_url world.task_url
                (del_confirmed g.id index key shown) confirmed clicked))
            db
    ]
  ]

  pub update-cases :
      (b : Bool) (id v : JsString) (change : Db → Option Db) (db : Db)
      → ((r : Option Reply) × IsFailure r
          × (guarded b (update world.store world.atoi id v change db) db ≡ (r, db)))
        ⊎ ((next : Db) × (change db ≡ some next)
            × (guarded b (update world.store world.atoi id v change db) db
                ≡ (some (status true), next)))
  update-cases false id v change db = inl (some denied, refl, refl)
  update-cases true id v change db = elim (Bool-cases (is_blank v)) [
    | inl b ↦ inl (some (status false), refl, rw b refl)
    | inr b ↦ elim (Bool-cases (world.store.is_object_id id)) [
      | inl o ↦ elim (Option-cases (change db)) [
        | inl c ↦ inl (some (status false), refl, rw (b, o, c) refl)
        | inr (next, c) ↦ inr (next, c, rw (b, o, c) refl)
      ]
      | inr o ↦ inl (none, tt, rw (b, o) refl)
    ]
  ]

  -- The requests that the passwords send.
  abbrev pub add_request : JsString → JsString → JsString → JsString → State → Request
  add_request id key v pass s = record {
    method = put;
    url = url_update_query world.anchor_hash (codes "pass") pass s.config_url;
    body = some (item_json id key v);
  }

  abbrev pub delete_request : JsString → JsString → JsString → JsString → State → Request
  delete_request id key v pass s = record {
    method = delete;
    url = url_update_query world.anchor_hash (codes "pass") pass s.config_url;
    body = some (
        object (
          fields ((codes "input", text v) ∷ (codes "key", text key) ∷ (codes "id", text id) ∷ [])));
  }

  pub failed_added :
      (index : ℕ) (key v : JsString) (r : Option Reply) (s : State) (db : Db)
      → IsFailure r
      → answered (value_added index key v) s (r, db) ≡ (s, db)
  unfolding answered answer added_reply
  failed_added index key v none s db h = refl
  failed_added index key v (some r) s db h = rw (added_reply, h) refl

  pub added :
      (index : ℕ) (key v : JsString) (vs : List JsString) (s : State) (db : Db)
      → values_at index key s.configs ≡ some vs
      → answered (value_added index key v) s (some (status true), db)
        ≡ (record s { configs = put_values index key (vs ++ v ∷ []) s.configs }, db)
  unfolding answered answer added_reply
  added index key v vs s db l = rw (added_reply, l) refl

  pub asked :
      (index : ℕ) (key : JsString) (c d : ℕ) (v p : JsString) (g : Config) (vs : List JsString)
      (s : State) (db : Db)
      → get_elem? s.configs index ≡ some g
      → values_at index key s.configs ≡ some vs
      → contains (c ∷ v) vs ≡ false
      → (str_eq g.id (codes "blacklist") || str_eq g.id (codes "whitelist")) ≡ false
      → add_value index key (c ∷ v) (d ∷ p) (s, db)
        ≡ answered
            (value_added index key (c ∷ v))
            (record s {
              json = item_json g.id key (c ∷ v);
              config_url = url_update_query world.anchor_hash (codes "pass") (d ∷ p) s.config_url;
            })
            (guarded
              (world.gate (add_request g.id key (c ∷ v) (d ∷ p) s))
              (update world.store world.atoi g.id
                (c ∷ v)
                (world.store.add_to_set g.id key (c ∷ v))
                db)
              db)
  unfolding answer add_answer put_value request_password Settings.add
  asked index key c d v p g vs s db e l n t = rw (answer, add_answer, e, l, n, t) refl

  pub failed_deleted :
      (index : ℕ) (key : JsString) (r : Option Reply) (s : State) (db : Db)
      → IsFailure r
      → answered (value_deleted index key) s (r, db) ≡ (s, db)
  unfolding answered answer deleted_reply
  failed_deleted index key none s db h = refl
  failed_deleted index key (some r) s db h = rw (deleted_reply, h) refl

  pub deleted :
      (index : ℕ) (key : JsString) (vs : List JsString) (s : State) (db : Db)
      → values_at index key s.configs ≡ some vs
      → answered (value_deleted index key) s (some (status true), db)
        ≡ (record s { configs = put_values index key (without s.input vs) s.configs }, db)
  unfolding answered answer deleted_reply
  deleted index key vs s db l =
      let gone : remove_all (s.input ∷ []) vs ≡ some (without s.input vs) =
        remove_all-without_all (s.input ∷ []) vs in
      rw (deleted_reply, l, gone) refl

  -- The page behind the password for a deletion.
  abbrev pub sent : JsString → JsString → State → State
  sent shown pass s = record s {
    input = trim shown;
    ele = some shown;
    config_url = url_update_query world.anchor_hash (codes "pass") pass s.config_url;
  }

  pub asked_deletion :
      (index : ℕ) (key shown : JsString) (d : ℕ) (p : JsString) (g : Config) (vs : List JsString)
      (s : State) (db : Db)
      → get_elem? s.configs index ≡ some g
      → values_at index key s.configs ≡ some vs
      → delete_value index key shown (d ∷ p) (s, db)
        ≡ answered (value_deleted index key) (sent shown (d ∷ p) s) (
            guarded
              (world.gate (delete_request g.id key (trim shown) (d ∷ p) s))
              (update world.store world.atoi g.id
                (trim shown)
                (world.store.pull g.id key (trim shown))
                db)
              db)
  unfolding act answer del_answer Config.Items.delete_value request_password Settings.del
  asked_deletion index key shown d p g vs s db e l = rw (delete_value, e, l) refl
