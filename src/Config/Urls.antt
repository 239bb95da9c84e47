-- ===== src/Config/Urls.antt =====
-- What leaves the URL of the settings alone.
use yulong.Prelude.{
  ℕ, ◌≡◌, refl, inl, inr, Bool, true, ◌&&◌, not, [], ◌∷◌, Option, none, some, Bool-cases,
  Option-cases, get_elem?, if◌then◌else◌, ◌==◌,
}
use yulong.Text.{JsString, codes, str_eq}
use yulong.Filters.{remove_all}
use yulong.Page.{Reply, succeeded, refused, request_password}
use yulong.Config.{
  Wait, edit_typed, add_typed, value_added, del_confirmed, value_deleted, notice_ignored,
  white_added, notice_deleted, learn_cleaned, State, values_at, contains,
}
use yulong.Config.Items.{change_item, add_answer, added_reply, del_answer, deleted_reply}
use yulong.Config.Step.{
  Action, edit, add, del, hover, add_white, clean_notice, update_bool, close_learn, save_info,
  pull_all, typed, confirmed, reply, act, answer, put_white, white_reply, update_switch, pull_reply,
}

module _ (anchor_hash : JsString → JsString) (notice_url task_url : JsString) where
  change_item-url :
      (index : ℕ) (key value : JsString) (s : State)
      → (change_item anchor_hash true notice_url task_url index key value s).0.config_url
        ≡ s.config_url
  unfolding change_item
  change_item-url index key value s = elim (Option-cases (get_elem? s.configs index)) [
    | inl e ↦ rw (change_item, e) refl
    | inr (c, e) ↦ rw (change_item, e) refl
  ]

  put_white-url :
      (kind info : JsString) (count : ℕ) (target : JsString) (s : State)
      → (put_white anchor_hash true notice_url task_url kind info count target s).0.config_url
        ≡ s.config_url
  unfolding put_white
  put_white-url kind info count target s = elim (Bool-cases (count == 1)) [
    | inl e ↦ rw (put_white, e) refl
    | inr e ↦ elim (Option-cases s.white_index) [
      | inl w ↦ rw (put_white, e, w) refl
      | inr (i, w) ↦ elim (Option-cases (get_elem? s.configs i)) [
        | inl g ↦ rw (put_white, e, w, g) refl
        | inr (c, g) ↦ rw (put_white, e, w, g) refl
      ]
    ]
  ]

  update_switch-url :
      (index : ℕ) (key : JsString) (checked : Bool) (s : State)
      → (update_switch anchor_hash true notice_url task_url index key checked s).0.config_url
        ≡ s.config_url
  unfolding update_switch
  update_switch-url index key checked s =
      elim (Bool-cases (not checked && str_eq key (codes "learn"))) [
        | inl e ↦ rw (update_switch, e) refl
        | inr e ↦
            rw (update_switch, e)
              (change_item-url index key (if checked then codes "true" else codes "false") s)
      ]

  -- No action writes into the URL.
  pub act-url :
      (a : Action) (s : State)
      → (act anchor_hash true notice_url task_url a s).0.config_url ≡ s.config_url
  unfolding act
  act-url (edit index key origin) s = refl
  act-url (add index key) s = refl
  act-url (del id index key target) s = elim (Option-cases s.ele) [
    | inl e ↦ rw (act, e) refl
    | inr (shown, e) ↦ rw (act, e) refl
  ]
  act-url (hover shown) s = refl
  act-url (add_white kind info count target) s = put_white-url kind info count target s
  act-url clean_notice s = refl
  act-url (update_bool index key checked) s = update_switch-url index key checked s
  act-url (close_learn index key) s = change_item-url index key (codes "false") s
  act-url (save_info index key []) s = refl
  act-url (save_info index key (c ∷ v)) s = change_item-url index key (c ∷ v) s
  act-url (pull_all system) s = refl

  added_typed-url :
      (index : ℕ) (key value : JsString) (s : State)
      → (add_answer anchor_hash true notice_url task_url index key (some value) s).0.config_url
        ≡ s.config_url
  unfolding add_answer request_password
  added_typed-url index key [] s = refl
  added_typed-url index key (c ∷ v) s = elim (Option-cases (get_elem? s.configs index)) [
    | inl e ↦ rw (add_answer, e) refl
    | inr (g, e) ↦ elim (Option-cases (values_at index key s.configs)) [
      | inl l ↦ rw (add_answer, e, l) refl
      | inr (vs, l) ↦ elim (Bool-cases (contains (c ∷ v) vs)) [
        | inl n ↦ rw (add_answer, e, l, n) refl
        | inr n ↦ rw (add_answer, e, l, n) refl
      ]
    ]
  ]

  pub typed-url :
      (w : Wait) (v : Option JsString) (s : State)
      → (answer anchor_hash true notice_url task_url w (typed v) s).0.config_url ≡ s.config_url
  unfolding answer add_answer
  typed-url (edit_typed index key) none s = refl
  typed-url (edit_typed index key) (some []) s = refl
  typed-url (edit_typed index key) (some (c ∷ v)) s = change_item-url index key (c ∷ v) s
  typed-url (add_typed index key) none s = elim (Option-cases (values_at index key s.configs)) [
    | inl e ↦ rw (add_answer, e) refl
    | inr (vs, e) ↦ rw (add_answer, e) refl
  ]
  typed-url (add_typed index key) (some []) s = refl
  typed-url (add_typed index key) (some (c ∷ v)) s = added_typed-url index key (c ∷ v) s
  typed-url w v s = refl

  pub confirmed-url :
      (w : Wait) (s : State)
      → (answer anchor_hash true notice_url task_url w confirmed s).0.config_url ≡ s.config_url
  unfolding answer del_answer
  confirmed-url (del_confirmed id index key target) s = elim (Option-cases s.ele) [
    | inl e ↦ rw (del_answer, e) refl
    | inr (shown, e) ↦ rw (del_answer, e) refl
  ]
  confirmed-url w s = refl

  pub reply-url :
      (w : Wait) (r : Reply) (s : State)
      → (answer anchor_hash true notice_url task_url w (reply r) s).0.config_url ≡ s.config_url
  unfolding answer added_reply deleted_reply white_reply pull_reply
  reply-url (value_added index key value) r s = elim (Bool-cases (succeeded r)) [
    | inl e ↦ elim (Option-cases (values_at index key s.configs)) [
      | inl l ↦ rw (added_reply, e, l) refl
      | inr (vs, l) ↦ rw (added_reply, e, l) refl
    ]
    | inr e ↦ rw (added_reply, e) refl
  ]
  reply-url (value_deleted index key) r s = elim (Bool-cases (succeeded r)) [
    | inl e ↦ elim (Option-cases (values_at index key s.configs)) [
      | inl l ↦ rw (deleted_reply, e, l) refl
      | inr (vs, l) ↦ elim (Option-cases (remove_all (s.input ∷ []) vs)) [
        | inl m ↦ rw (deleted_reply, e, l, m) refl
        | inr (ws, m) ↦ rw (deleted_reply, e, l, m) refl
      ]
    ]
    | inr e ↦ rw (deleted_reply, e) refl
  ]
  reply-url (notice_ignored kind info target) r s = elim (Bool-cases (succeeded r)) [
    | inl e ↦ rw (answer, e) refl
    | inr e ↦ rw (answer, e) refl
  ]
  reply-url (white_added kind info target) r s = elim (Bool-cases (succeeded r)) [
    | inl e ↦ rw (white_reply, e) refl
    | inr e ↦ elim (Bool-cases (refused r)) [
      | inl t ↦ rw (white_reply, e, t) refl
      | inr t ↦ rw (white_reply, e, t) refl
    ]
  ]
  reply-url (notice_deleted info) r s = elim (Bool-cases (succeeded r)) [
    | inl e ↦ rw (answer, e) refl
    | inr e ↦ rw (answer, e) refl
  ]
  reply-url learn_cleaned r s = elim (Bool-cases (succeeded r)) [
    | inl e ↦ rw (answer, e) refl
    | inr e ↦ rw (answer, e) refl
  ]
  reply-url w r s = refl
