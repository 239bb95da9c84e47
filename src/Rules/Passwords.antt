-- ===== src/Rules/Passwords.antt =====
-- The password in the URL of the rules, over any course of actions and answers.
use yulong.Prelude.{
  ℕ, zero, suc, ◌≡◌, refl, inl, inr, Bool, true, [], ◌∷◌, Option, none, some, Option-cases,
  get_elem?,
}
use yulong.Text.{JsString}
use yulong.Url.Course.{Page, rewritten}
use yulong.Page.{password_entered, request_password, Reply}
use yulong.Rules.{
  Wait, rules_loaded, delete_confirmed, delete_password, rule_deleted, add_confirmed, add_password,
  rules_added, toggle_confirmed, toggle_password, rule_toggled, State, Action, edit, write, delete,
  add_rules, enable_toggle, Answer, loaded, confirmed, password, reply, added, toggled, act,
  load_rules, rule_reply, added_reply, toggled_reply,
}
use yulong.Rules.Step.{answer, post_rules, post_delete, post_add, post_toggle}

-- The password of an answer, all of which change the rules.
abbrev pub asked : Answer → Wait → Option JsString
asked (password (some (c ∷ p))) delete_password = some (c ∷ p)
asked (password (some (c ∷ p))) add_password = some (c ∷ p)
asked (password (some (c ∷ p))) (toggle_password index) = some (c ∷ p)
asked _ _ = none

pub act-url : (a : Action) (s : State) → (act a s).0.rules_url ≡ s.rules_url
unfolding act
act-url (edit index) s = elim (Option-cases (get_elem? s.rulelist index)) [
  | inl e ↦ rw (act, e) refl
  | inr (r, e) ↦ rw (act, e) refl
]
act-url (write j) s = refl
act-url (delete id) s = refl
act-url add_rules s = elim (Option-cases s.new_rules) [
  | inl e ↦ rw (act, e) refl
  | inr (j, e) ↦ rw (act, e) refl
]
act-url (enable_toggle index) s = elim (Option-cases (get_elem? s.rulelist index)) [
  | inl e ↦ rw (act, e) refl
  | inr (r, e) ↦ rw (act, e) refl
]

module _ (anchor_hash : JsString → JsString) where
  post_toggle-url :
      (index : ℕ) (p : JsString) (s : State)
      → (post_toggle anchor_hash true index p s).0.rules_url
        ≡ rewritten anchor_hash (some p) s.rules_url
  unfolding post_toggle post_rules
  post_toggle-url index p s = elim (Option-cases s.current) [
    | inl e ↦ rw (post_toggle, e) refl
    | inr (r, e) ↦ rw (post_toggle, e) refl
  ]

  password-url :
      (p : Option JsString) (w : Wait) (s : State)
      → (answer anchor_hash true w (password p) s).0.rules_url
        ≡ rewritten anchor_hash (asked (password p) w) s.rules_url
  unfolding answer post_delete post_add post_rules password_entered
  password-url none delete_password s = refl
  password-url none add_password s = refl
  password-url none (toggle_password index) s = refl
  password-url none w s = refl
  password-url (some []) delete_password s = refl
  password-url (some []) add_password s = refl
  password-url (some []) (toggle_password index) s = refl
  password-url (some []) w s = refl
  password-url (some (c ∷ p)) delete_password s = refl
  password-url (some (c ∷ p)) add_password s = refl
  password-url (some (c ∷ p)) (toggle_password index) s = post_toggle-url index (c ∷ p) s
  password-url (some (c ∷ p)) w s = refl

  toggled-url :
      (b : Option Bool) (r : Reply) (w : Wait) (s : State)
      → (answer anchor_hash true w (toggled b r) s).0.rules_url ≡ s.rules_url
  unfolding answer toggled_reply
  toggled-url none r (rule_toggled index) s = refl
  toggled-url (some b) r (rule_toggled index) s = refl
  toggled-url b r w s = refl

  added-url :
      (n : ℕ) (r : Reply) (w : Wait) (s : State)
      → (answer anchor_hash true w (added n r) s).0.rules_url ≡ s.rules_url
  unfolding answer added_reply
  added-url zero r rules_added s = refl
  added-url (suc n) r rules_added s = refl
  added-url n r w s = refl

  pub answer-url :
      (w : Wait) (a : Answer) (s : State)
      → (answer anchor_hash true w a s).0.rules_url ≡ rewritten anchor_hash (asked a w) s.rules_url
  unfolding answer load_rules rule_reply request_password
  answer-url w (password p) s = password-url p w s
  answer-url w (added n r) s = added-url n r w s
  answer-url w (toggled b r) s = toggled-url b r w s
  answer-url rules_loaded (loaded rs) s = refl
  answer-url w (loaded rs) s = refl
  answer-url rule_deleted (reply r) s = refl
  answer-url w (reply r) s = refl
  answer-url delete_confirmed confirmed s = refl
  answer-url add_confirmed confirmed s = refl
  answer-url (toggle_confirmed index) confirmed s = refl
  answer-url w confirmed s = refl

  -- The rules page with two factors.
  abbrev pub rules_page : Page anchor_hash State Action Wait Answer
  rules_page = record {
    act = λ a s. (act a s).0;
    answer = λ w a s. (answer anchor_hash true w a s).0;
    url = λ s. s.rules_url;
    asked = asked;
    act-url = act-url;
    answer-url = answer-url;
  }
