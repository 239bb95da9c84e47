-- ===== src/Rules/Step.antt =====
-- The callbacks of the rules page.
use yulong.Prelude.{ℕ, Bool, not, [], ◌∷◌, none, some}
use yulong.Text.{JsString, codes}
use yulong.Url.{url_update_query}
use yulong.Page.{Json, send, post, throw, request_password, password_entered}
use yulong.Rules.{
  Wait, rules_loaded, delete_confirmed, delete_password, rule_deleted, add_confirmed, add_password,
  rules_added, toggle_confirmed, toggle_password, rule_toggled, State, Result, enable_json, Answer,
  loaded, confirmed, password, reply, added, toggled, load_rules, rule_reply, added_reply,
  toggled_reply,
}

module _ (anchor_hash : JsString → JsString) (two_factor : Bool) where
  -- The callback of `request_password`: the URL keeps the password, and the request goes to it
  -- with the action added.
  unfoldable pub post_rules : JsString → Json → Wait → JsString → State → Result
  post_rules action body k pass s =
      let url = url_update_query anchor_hash (codes "pass") pass s.rules_url in
      (
        record s { rules_url = url },
        send
              (record {
                method = post;
                url = url_update_query anchor_hash (codes "action") action url;
                body = some body;
              })
              k
            ∷ [],
      )

  unfoldable pub post_delete : JsString → State → Result
  unfolding post_rules
  post_delete pass s = post_rules (codes "del") s.obj rule_deleted pass s

  unfoldable pub post_add : JsString → State → Result
  unfolding post_rules
  post_add pass s = post_rules (codes "add") s.obj rules_added pass s

  unfoldable pub post_toggle : ℕ → JsString → State → Result
  unfolding post_rules
  post_toggle index pass s = elim s.current [
    | none ↦ (
      record s { rules_url = url_update_query anchor_hash (codes "pass") pass s.rules_url },
      throw (codes "current is undefined") ∷ [],
    )
    | some r ↦
        post_rules (codes "enable") (enable_json r.id (not s.current_status)) (rule_toggled index)
          pass s
  ]

  unfoldable pub answer : Wait → Answer → State → Result
  unfolding load_rules rule_reply added_reply toggled_reply request_password password_entered
      post_delete post_add post_toggle
  answer rules_loaded (loaded rs) s = load_rules rs s
  answer delete_confirmed confirmed s = request_password two_factor delete_password post_delete s
  answer delete_password (password p) s = password_entered post_delete p s
  answer rule_deleted (reply r) s = rule_reply r s
  answer add_confirmed confirmed s = request_password two_factor add_password post_add s
  answer add_password (password p) s = password_entered post_add p s
  answer rules_added (added n r) s = added_reply n r s
  answer (toggle_confirmed index) confirmed s =
      request_password two_factor (toggle_password index) (post_toggle index) s
  answer (toggle_password index) (password p) s = password_entered (post_toggle index) p s
  answer (rule_toggled index) (toggled b r) s = toggled_reply index b r s
  answer _ _ s = (s, [])
