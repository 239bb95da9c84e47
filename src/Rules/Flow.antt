-- ===== src/Rules/Flow.antt =====
-- What a whole dialogue of the rules page sends.
use yulong.Prelude.{ℕ, ◌≡◌, refl, Bool, true, not, [], ◌∷◌, some, get_elem?, arith}
use yulong.Text.{JsString, codes}
use yulong.Url.{url_update_query}
use yulong.Page.{array, cons, nil, send, post, Reply}
use yulong.Rules.{
  Rule, Wait, delete_confirmed, delete_password, rule_deleted, add_confirmed, add_password,
  rules_added, toggle_confirmed, toggle_password, rule_toggled, State, Result, without_id, id_json,
  enable_json, Action, edit, delete, add_rules, enable_toggle, confirmed, password, toggled, act,
  set_enabled,
}
use yulong.Rules.Step.{answer}

module _ (anchor_hash : JsString → JsString) where
  -- A dialogue with two factors: the action, its confirmation, and the password.
  abbrev pub dialogue : Action → Wait → Wait → JsString → State → Result
  dialogue a confirm_wait password_wait p s =
      answer anchor_hash true password_wait (password (some p))
        (answer anchor_hash true confirm_wait confirmed (act a s).0).0

  abbrev pub signed : JsString → JsString → State → JsString
  signed action p s =
      url_update_query anchor_hash (codes "action") action
        (url_update_query anchor_hash (codes "pass") p s.rules_url)

  -- Toggling a rule asks the server for the opposite of its state, in one request that carries the
  -- password, and changes the page's list only when the answer comes, to what the answer says.
  toggle_dialogue :
      (index : ℕ) (r : Rule) (c : ℕ) (p : JsString) (b : Bool) (a : Reply) (s : State)
      → get_elem? s.rulelist index ≡ some r
      → let t =
          dialogue
            (enable_toggle index)
            (toggle_confirmed index)
            (toggle_password index)
            (c ∷ p)
            s in
        (t.1
          ≡ send
              (record {
                method = post;
                url = signed (codes "enable") (c ∷ p) s;
                body = some (enable_json r.id (not r.enabled));
              })
              (rule_toggled index)
            ∷ [])
        × (t.0.rulelist ≡ s.rulelist)
        × ((answer anchor_hash true (rule_toggled index) (toggled (some b) a) t.0).0.rulelist
            ≡ set_enabled index b s.rulelist)
  unfolding act answer
  toggle_dialogue index r c p b a s e = ground arith

  -- Deleting sends the identifier of the rule, in one request that carries the password.
  pub delete_dialogue :
      (id : JsString) (c : ℕ) (p : JsString) (s : State)
      → let t = dialogue (delete id) delete_confirmed delete_password (c ∷ p) s in
        (t.1
          ≡ send
              (record {
                method = post;
                url = signed (codes "del") (c ∷ p) s;
                body = some (id_json id);
              })
              rule_deleted
            ∷ [])
        × (t.0.rulelist ≡ s.rulelist)
  unfolding act answer
  delete_dialogue id c p s = (refl, refl)

  -- Editing a rule and saving the text unchanged sends the rule without its `_id`, as a list of one
  -- new rule; the page's list stays.
  edit-dialogue :
      (index : ℕ) (r : Rule) (c : ℕ) (p : JsString) (s : State)
      → get_elem? s.rulelist index ≡ some r
      → let t = dialogue add_rules add_confirmed add_password (c ∷ p) (act (edit index) s).0 in
        (t.1
          ≡ send
              (record {
                method = post;
                url = signed (codes "add") (c ∷ p) s;
                body = some (array (cons (without_id r) nil));
              })
              rules_added
            ∷ [])
        × (t.0.rulelist ≡ s.rulelist)
  unfolding act answer
  edit-dialogue index r c p s e = ground arith
