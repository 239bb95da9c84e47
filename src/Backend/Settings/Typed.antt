-- ===== src/Backend/Settings/Typed.antt =====
-- What a switch of the settings page puts into the database.
use yulong.Prelude.{
  ℕ, ◌≡◌, refl, ap, ◌∙◌, inl, inr, Bool, true, false, ◌&&◌, not, ◌∷◌, none, some, get_elem?,
  if◌then◌else◌, Bool-cases, arith,
}
use yulong.Text.{JsString, codes, str_eq}
use yulong.Text.Laws.{str_eq_iff}
use yulong.Url.{url_update_query}
use yulong.Page.{Json, bool, Request, post, request_password}
use yulong.Config.{Config, State, Wait, item_changed, item_json}
use yulong.Config.Items.{change_item}
use yulong.Config.Step.{update_bool, act, answer, update_switch}
use yulong.Backend.Access.{string_in_slice}
use yulong.Backend.Settings.{Answered, bool_keys, int_keys, key_type, update, edit}
use yulong.Backend.Settings.Exchange.{World, guarded, answered, settle, entered}

abbrev shown : Bool → JsString
shown checked = if checked then codes "true" else codes "false"

bool_keys-apart :
    (key : JsString) → string_in_slice key bool_keys ≡ true → string_in_slice key int_keys ≡ false
unfolding string_in_slice
bool_keys-apart key h = elim (Bool-cases (str_eq (codes "cycle") key)) [
  | inl e ↦
      let same : codes "cycle" ≡ key = (str_eq_iff (codes "cycle") key).0 e in
      let wrong : string_in_slice (codes "cycle") bool_keys ≡ true =
        ap (λ k. string_in_slice k bool_keys) same ∙ h in
      absurd (ground arith)
  | inr e ↦ rw e refl
]

-- The text of a switch is the Boolean.
key_type-shown :
    (atoi : JsString → Json) (key : JsString) (checked : Bool)
    → string_in_slice key bool_keys ≡ true
    → key_type atoi key (shown checked) ≡ bool checked
unfolding key_type
key_type-shown atoi key true h = rw (bool_keys-apart key h, h) refl
key_type-shown atoi key false h = rw (bool_keys-apart key h, h) refl

module _ {Db : Type 0} (world : World Db) where
  -- A switch is turned: the new setting, the password, and the backend's answer.
  abbrev pub turn_switch : ℕ → JsString → Bool → JsString → State × Db → State × Db
  turn_switch index key checked p (s, db) =
      settle world
        (entered world p (
          act world.anchor_hash true world.notice_url world.task_url (update_bool index key checked)
            s))
        db

  answered-db : (w : Wait) (s : State) (a : Answered Db) → (answered world w s a).1 ≡ a.1
  unfolding answered
  answered-db w s (none, db) = refl
  answered-db w s (some r, db) = refl

  -- The request that a switch sends.
  abbrev pub switch_request : JsString → JsString → Bool → JsString → State → Request
  switch_request id key checked pass s = record {
    method = post;
    url = url_update_query world.anchor_hash (codes "pass") pass s.config_url;
    body = some (item_json id key (shown checked));
  }

  -- What the backend does with the request, where the value stored is `value`.
  abbrev outcome : JsString → JsString → Bool → JsString → Json → State → Db → Answered Db
  outcome id key checked pass value s db =
      guarded (world.gate (switch_request id key checked pass s))
        (update world.store world.atoi id (shown checked) (world.store.set_value id key value) db)
        db

  turned :
      (index : ℕ) (key : JsString) (checked : Bool) (c : ℕ) (p : JsString) (g : Config) (s : State)
      (db : Db)
      → get_elem? s.configs index ≡ some g
      → (not checked && str_eq key (codes "learn")) ≡ false
      → turn_switch index key checked (c ∷ p) (s, db)
        ≡ answered world item_changed
            (record s {
              json = item_json g.id key (shown checked);
              config_url = url_update_query world.anchor_hash (codes "pass") (c ∷ p) s.config_url;
            })
            (outcome g.id key checked (c ∷ p) (key_type world.atoi key (shown checked)) s db)
  unfolding act answer update_switch change_item request_password edit
  turned index key checked c p g s db e l = rw (l, change_item, e) refl

  -- A switch for one of the Boolean settings but a learning mode that ends, with a password entered:
  -- the setting is set to the Boolean, not to its text, where the backend lets the request through.
  pub turn_switch-bool :
      (index : ℕ) (key : JsString) (checked : Bool) (c : ℕ) (p : JsString) (g : Config) (s : State)
      (db : Db)
      → get_elem? s.configs index ≡ some g
      → string_in_slice key bool_keys ≡ true
      → (not checked && str_eq key (codes "learn")) ≡ false
      → (turn_switch index key checked (c ∷ p) (s, db)).1
        ≡ (guarded
            (world.gate (switch_request g.id key checked (c ∷ p) s))
            (update world.store world.atoi g.id
              (shown checked)
              (world.store.set_value g.id key (bool checked))
              db)
            db).1
  turn_switch-bool index key checked c p g s db e b l =
      let t : State = record s {
        json = item_json g.id key (shown checked);
        config_url = url_update_query world.anchor_hash (codes "pass") (c ∷ p) s.config_url;
      } in
      let value : Json = key_type world.atoi key (shown checked) in
      ap (λ r. r.1) (turned index key checked c p g s db e l)
      ∙ answered-db item_changed t (outcome g.id key checked (c ∷ p) value s db)
      ∙ ap (λ v. (outcome g.id key checked (c ∷ p) v s db).1)
          (key_type-shown world.atoi key checked b)
