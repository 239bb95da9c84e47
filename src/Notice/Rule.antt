-- ===== src/Notice/Rule.antt =====
-- The rule that `add2config` writes for a notice.
use yulong.Prelude.{◌≡◌, refl, Bool, false, none, some, Bool-cases, inl, inr}
use yulong.Text.{JsString, codes}
use yulong.Regexp.{first_run}
use yulong.Page.{request_password}
use yulong.Notice.{
  Wait, State, Result, config_password, put_config, add2config, config_json, bar_inside, taken_info,
}
use yulong.Notice.Step.{add, act}

module _ (anchor_hash : JsString → JsString) (two_factor : Bool) (task_url : JsString) where
  request_password-json :
      (k : Wait) (f : JsString → State → Result) (s : State)
      → ((p : JsString) → (f p s).0.json ≡ s.json)
      → (request_password two_factor k f s).0.json ≡ s.json
  unfolding request_password
  request_password-json k f s h = elim (Bool-cases two_factor) [
    | inl e ↦ rw (request_password, e) refl
    | inr e ↦ rw (request_password, e) (h (codes "0"))
  ]

  -- For a login whose text has no address the rule gets the address that was taken last, of
  -- whatever notice that was.
  add2config_stale :
      (info config_type old : JsString) (s : State)
      → bar_inside info ≡ false
      → first_run info ≡ none
      → s.info_ ≡ some old
      → (act anchor_hash two_factor task_url (add (codes "loginlog") info config_type) s).0.json
        ≡ config_json config_type (codes "ip") old
  unfolding act add2config
  add2config_stale info config_type old s b f o =
      let taken : taken_info (codes "loginlog") info s.info_ ≡ some old = rw f o in
      rw (act, add2config, b, taken)
        (request_password-json config_password (put_config anchor_hash two_factor task_url)
          (record s { info_ = some old; json = config_json config_type (codes "ip") old })
          (λ p. unfold put_config in refl))
