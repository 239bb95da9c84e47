-- ===== src/Notice/Urls.antt =====
-- What leaves the URL of the notices alone.
use yulong.Prelude.{
  ℕ, ◌≡◌, refl, inl, inr, Bool, true, false, List, [], ◌∷◌, Option, none, some, Bool-cases,
  Option-cases, get_elem?,
}
use yulong.Text.{JsString, includes}
use yulong.Page.{Reply, succeeded, refused}
use yulong.Notice.{
  Notice, Wait, status_changed, notices_loaded, config_added, kill_confirmed, filter_typed,
  all_changed, State, add2config, config_reply, kill_all, get_result, bar_inside, taken_info,
}
use yulong.Notice.Step.{
  Action, analyze, add, kill, open_filter, choose_type, more, click_tab, mark, mark_all,
  close_message, notices, chosen, typed, reply, act, answer, change_status, notice_at, status_reply,
  all_reply,
}

module _ (anchor_hash : JsString → JsString) (task_url : JsString) where
  add2config-url :
      (kind info config_type : JsString) (s : State)
      → (add2config anchor_hash true task_url kind info config_type s).0.notice_url ≡ s.notice_url
  unfolding add2config
  add2config-url kind info config_type s = elim (Bool-cases (bar_inside info)) [
    | inl e ↦ rw (add2config, e) refl
    | inr e ↦ elim (Option-cases (taken_info kind info s.info_)) [
      | inl m ↦ rw (add2config, e, m) refl
      | inr (i, m) ↦ rw (add2config, e, m) refl
    ]
  ]

  change_status-url :
      (id status : ℕ) (s : State) → (change_status id status s).0.notice_url ≡ s.notice_url
  unfolding change_status
  change_status-url id status s =
      elim (Option-cases (notice_at s.heap (get_elem? s.noticelist id))) [
        | inl e ↦ rw (change_status, e) refl
        | inr (n, e) ↦ rw (change_status, e) refl
      ]

  kill_all-url :
      (process : JsString) (s : State)
      → (kill_all anchor_hash true task_url process s).0.notice_url ≡ s.notice_url
  unfolding kill_all
  kill_all-url process s = elim (Bool-cases (includes b'|' process)) [
    | inl e ↦ rw (kill_all, e) refl
    | inr e ↦ rw (kill_all, e) refl
  ]

  -- No action writes into the URL.
  pub act-url :
      (a : Action) (s : State) → (act anchor_hash true task_url a s).0.notice_url ≡ s.notice_url
  unfolding act
  act-url (add kind info config_type) s = add2config-url kind info config_type s
  act-url (kill process) s = kill_all-url process s
  act-url (mark id status) s = change_status-url id status s
  act-url (analyze n) s = refl
  act-url (choose_type kind) s = refl
  act-url more s = refl
  act-url open_filter s = refl
  act-url (click_tab tab) s = refl
  act-url (mark_all status) s = refl
  act-url close_message s = refl

  pub reply-url :
      (w : Wait) (r : Reply) (s : State)
      → (answer anchor_hash true task_url w (reply r) s).0.notice_url ≡ s.notice_url
  unfolding answer
  reply-url config_added r s = elim (Bool-cases (succeeded r)) [
    | inl e ↦ rw (answer, config_reply, e) refl
    | inr e ↦ elim (Bool-cases (refused r)) [
      | inl t ↦ rw (answer, config_reply, e, t) refl
      | inr t ↦ rw (answer, config_reply, e, t) refl
    ]
  ]
  reply-url (status_changed id) r s = elim (Bool-cases (succeeded r)) [
    | inl e ↦ elim (Option-cases s.notice) [
      | inl n ↦ rw (answer, status_reply, e, n) refl
      | inr (i, n) ↦ rw (answer, status_reply, e, n) refl
    ]
    | inr e ↦ rw (answer, status_reply, e) refl
  ]
  reply-url all_changed r s = elim (Bool-cases (succeeded r)) [
    | inl e ↦ rw (answer, all_reply, e) refl
    | inr e ↦ rw (answer, all_reply, e) refl
  ]
  reply-url w r s = refl

  pub typed-url :
      (w : Wait) (p : Option JsString) (s : State)
      → (answer anchor_hash true task_url w (typed p) s).0.notice_url ≡ s.notice_url
  unfolding answer get_result
  typed-url filter_typed none s = refl
  typed-url filter_typed (some []) s = refl
  typed-url filter_typed (some (c ∷ p)) s = refl
  typed-url w p s = refl

  pub notices-url :
      (w : Wait) (ns : Option (List Notice)) (s : State)
      → (answer anchor_hash true task_url w (notices ns) s).0.notice_url ≡ s.notice_url
  unfolding answer
  notices-url notices_loaded none s = refl
  notices-url notices_loaded (some ns) s = refl
  notices-url w ns s = refl

  pub chosen-url :
      (w : Wait) (b : Bool) (s : State)
      → (answer anchor_hash true task_url w (chosen b) s).0.notice_url ≡ s.notice_url
  unfolding answer
  chosen-url kill_confirmed true s = refl
  chosen-url kill_confirmed false s = refl
  chosen-url w b s = refl
