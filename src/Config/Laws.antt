-- ===== src/Config/Laws.antt =====
-- What the dialogues of the settings page do.
use yulong.Prelude.{ℕ, ◌≡◌, refl, ◌∙◌, ap, true, false, List, [], ◌∷◌, ◌++◌, some, get_elem?}
use yulong.Text.{JsString, codes, trim}
use yulong.Url.{url_update_query}
use yulong.Filters.{remove_all}
use yulong.Page.{alert, error, send, put, ask_password, Reply, succeeded, request_password}
use yulong.Config.{
  Config, Wait, add_typed, add_password, value_added, del_confirmed, del_password, value_deleted,
  State, Result, values_at, put_values, contains, item_json, learn_data_fa, icons,
}
use yulong.Config.Lists.{values_at-put_values, put_values-put_values, remove_all-append}
use yulong.Config.Items.{
  add_answer, added_reply, deleted_reply, del_answer, delete_value, put_value,
}
use yulong.Config.Step.{
  Action, add, del, hover, Answer, typed, confirmed, password, reply, act, answer,
}

module _ (anchor_hash : JsString → JsString) (notice_url task_url : JsString) where
  abbrev pub run : Action → State → Result
  run = act anchor_hash true notice_url task_url

  abbrev pub on : Wait → Answer → State → Result
  on = answer anchor_hash true notice_url task_url

  -- Adding a value with two factors: the input, the password, and the server's consent.
  abbrev pub after_add : ℕ → JsString → JsString → JsString → Reply → State → State
  after_add index key value p r s =
      (on (value_added index key value) (reply r)
        (on (add_password index key value) (password (some p))
          (on (add_typed index key) (typed (some value)) (run (add index key) s).0).0).0).0

  -- Deleting the value whose element the pointer is on.
  abbrev pub after_del : JsString → ℕ → JsString → JsString → JsString → Reply → State → State
  after_del id index key shown p r s =
      (on (value_deleted index key) (reply r)
        (on (del_password id index key) (password (some p))
          (on (del_confirmed id index key shown) confirmed
            (run (del id index key shown) (run (hover shown) s).0).0).0).0).0

  add_answer_lem :
      (index : ℕ) (key : JsString) (c : ℕ) (v : JsString) (g : Config) (vs : List JsString)
      (s : State)
      → get_elem? s.configs index ≡ some g
      → values_at index key s.configs ≡ some vs
      → contains (c ∷ v) vs ≡ false
      → on (add_typed index key) (typed (some (c ∷ v))) s ≡ (
        record s { json = item_json g.id key (c ∷ v) },
        ask_password (add_password index key (c ∷ v)) ∷ [],
      )
  unfolding answer request_password
  add_answer_lem index key c v g vs s e l n = rw (answer, add_answer, e, l, n) refl

  added_state :
      (index : ℕ) (key : JsString) (c d : ℕ) (v p : JsString) (g : Config) (vs : List JsString)
      (r : Reply) (s : State)
      → values_at index key s.configs ≡ some vs
      → succeeded r ≡ true
      → (on
          (value_added index key (c ∷ v))
          (reply r)
          (on
            (add_password index key (c ∷ v))
            (password (some (d ∷ p)))
            (record s { json = item_json g.id key (c ∷ v) })).0).0.configs
        ≡ put_values index key (vs ++ (c ∷ v) ∷ []) s.configs
  unfolding answer put_value added_reply
  added_state index key c d v p g vs r s l ok = rw (added_reply, ok, l) refl

  -- Adding a value that is not in the list, under a password: when the server consents, the list
  -- ends in the value and every other list stays.
  pub after_add_lem :
      (index : ℕ) (key : JsString) (c d : ℕ) (v p : JsString) (g : Config) (vs : List JsString)
      (r : Reply) (s : State)
      → get_elem? s.configs index ≡ some g
      → values_at index key s.configs ≡ some vs
      → contains (c ∷ v) vs ≡ false
      → succeeded r ≡ true
      → (after_add index key (c ∷ v) (d ∷ p) r s).configs
        ≡ put_values index key (vs ++ (c ∷ v) ∷ []) s.configs
  unfolding act answer put_value added_reply
  after_add_lem index key c d v p g vs r s e l n ok =
      ap
        (λ t.
          (on (value_added index key (c ∷ v)) (reply r)
            (on (add_password index key (c ∷ v)) (password (some (d ∷ p))) t).0).0.configs)
        (ap (λ q. q.0) (add_answer_lem index key c v g vs s e l n))
      ∙ added_state index key c d v p g vs r s l ok

  -- Deleting a value, under a password: when the server consents, every occurrence is taken out of
  -- the list, and every other list stays.
  pub after_del_lem :
      (id : JsString) (index : ℕ) (key shown : JsString) (d : ℕ) (p : JsString)
      (vs ws : List JsString) (r : Reply) (s : State)
      → values_at index key s.configs ≡ some vs
      → remove_all (trim shown ∷ []) vs ≡ some ws
      → succeeded r ≡ true
      → (after_del id index key shown (d ∷ p) r s).configs ≡ put_values index key ws s.configs
  unfolding act answer del_answer delete_value deleted_reply request_password
  after_del_lem id index key shown d p vs ws r s l n ok =
      rw (after_del, deleted_reply, ok, l, n) refl

  -- A value that is added and then deleted, both with the server's consent, leaves the settings as
  -- they were.
  pub after_del-after_add :
      (id : JsString) (index : ℕ) (key shown : JsString) (c d : ℕ) (v p : JsString) (g : Config)
      (vs : List JsString) (r : Reply) (s : State)
      → get_elem? s.configs index ≡ some g
      → values_at index key s.configs ≡ some vs
      → contains (c ∷ v) vs ≡ false
      → trim shown ≡ c ∷ v
      → succeeded r ≡ true
      → (after_del id index key shown (d ∷ p) r (after_add index key (c ∷ v) (d ∷ p) r s)).configs
        ≡ s.configs
  after_del-after_add id index key shown c d v p g vs r s e l n t ok =
      let added = after_add_lem index key c d v p g vs r s e l n ok in
      let pushed : List JsString = vs ++ (c ∷ v) ∷ [] in
      let there : values_at index key (after_add index key (c ∷ v) (d ∷ p) r s).configs
          ≡ some pushed =
        ap (values_at index key) added ∙ values_at-put_values key index vs pushed s.configs l in
      let removed : remove_all (trim shown ∷ []) pushed ≡ some vs =
        ap (λ w. remove_all (w ∷ []) pushed) t ∙ remove_all-append (c ∷ v) vs n in
      after_del_lem id index key shown d p pushed vs r (after_add index key (c ∷ v) (d ∷ p) r s)
        there removed ok
      ∙ ap (put_values index key vs) added
      ∙ put_values-put_values key index vs pushed s.configs l

  -- A value that is in the list already is refused, with no request and no change.
  pub add_answer-refused :
      (index : ℕ) (key : JsString) (c : ℕ) (v : JsString) (g : Config) (vs : List JsString)
      (s : State)
      → get_elem? s.configs index ≡ some g
      → values_at index key s.configs ≡ some vs
      → contains (c ∷ v) vs ≡ true
      → on (add_typed index key) (typed (some (c ∷ v))) s
        ≡ (s, alert error [] (codes "Your input already exists in " ++ key) ∷ [])
  unfolding answer
  add_answer-refused index key c v g vs s e l n = rw (answer, add_answer, e, l, n) refl

  -- If the notices of the learning mode are drawn while the password for a new value is awaited,
  -- the request that the password sends holds the table of icons in place of the value.
  pub added-learn_data_fa :
      (index : ℕ) (key kind : JsString) (c d : ℕ) (v p : JsString) (g : Config) (vs : List JsString)
      (s : State)
      → get_elem? s.configs index ≡ some g
      → values_at index key s.configs ≡ some vs
      → contains (c ∷ v) vs ≡ false
      → (on
          (add_password index key (c ∷ v))
          (password (some (d ∷ p)))
          (learn_data_fa kind (on (add_typed index key) (typed (some (c ∷ v))) s).0).0).1
        ≡ send
            (record {
              method = put;
              url = url_update_query anchor_hash (codes "pass") (d ∷ p) s.config_url;
              body = some icons;
            })
            (value_added index key (c ∷ v))
          ∷ []
  unfolding answer put_value learn_data_fa
  added-learn_data_fa index key kind c d v p g vs s e l n =
      ap
        (λ t.
          (on (add_password index key (c ∷ v)) (password (some (d ∷ p)))
            (learn_data_fa kind t.0).0).1)
        (add_answer_lem index key c v g vs s e l n)
