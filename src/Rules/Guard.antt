-- ===== src/Rules/Guard.antt =====
-- The requests of the rules page, over any course of actions and answers.
use mathlib.Core.Path.{subst}
use mathlib.Core.Option.{map}
use yulong.Prelude.{
  ℕ, zero, suc, ◌≡◌, refl, inl, inr, Bool, true, List, [], ◌∷◌, Option, none, some, All,
  Option-cases, Bool-cases, get_elem?,
}
use yulong.Text.{JsString, codes, truthy}
use yulong.Url.{url_update_query}
use yulong.Url.Query.{Pair, IsPlainPath, IsQuery}
use yulong.Url.Stamp.{IsEntered, stamped, Reports}
use yulong.Url.Course.{
  did, came, Event, run_events, last_asked, IsUsable, run_events-stamped, rewritten-stamped,
  last_asked-IsEntered,
}
use yulong.Page.{
  Effect, send, ajaxcallback, refused, succeeded, password_entered, request_password, Reply,
}
use yulong.Rules.{
  Wait, rules_loaded, delete_confirmed, delete_password, rule_deleted, add_confirmed, add_password,
  rules_added, toggle_confirmed, toggle_password, rule_toggled, State, Action, edit, write, delete,
  add_rules, enable_toggle, Answer, loaded, confirmed, password, reply, added, toggled, act,
  load_rules, rule_reply, added_reply, toggled_reply, refusal,
}
use yulong.Rules.Step.{answer, post_rules, post_delete, post_add, post_toggle}
use yulong.Rules.Passwords.{asked, rules_page}

module _ (anchor_hash : JsString → JsString) where
  -- A request goes to the given URL with an action added; where none is given, none is sent.
  abbrev pub IsSigned : Option JsString → Effect Wait → Type 0
  IsSigned none (send r k) = ⊥
  IsSigned (some u) (send r k) =
      (action : JsString) × (r.url ≡ url_update_query anchor_hash (codes "action") action u)
  IsSigned o f = Unit

  abbrev with_password : Option JsString → JsString → Option JsString
  with_password q u = map (λ p. url_update_query anchor_hash (codes "pass") p u) q

  -- The password of an event, and its effects.
  abbrev pub password_of : Event Action Wait Answer → Option JsString
  password_of (did a) = none
  password_of (came w a) = asked a w

  abbrev pub effects : Event Action Wait Answer → State → List (Effect Wait)
  effects (did a) s = (act a s).1
  effects (came w a) s = (answer anchor_hash true w a s).1

  act-IsSigned : (a : Action) (s : State) → All (IsSigned none) (act a s).1
  unfolding act
  act-IsSigned (edit index) s = elim (Option-cases (get_elem? s.rulelist index)) [
    | inl e ↦ rw (act, e) tt
    | inr (r, e) ↦ rw (act, e) tt
  ]
  act-IsSigned (write j) s = tt
  act-IsSigned (delete id) s = (tt, tt)
  act-IsSigned add_rules s = elim (Option-cases s.new_rules) [
    | inl e ↦ rw (act, e) (tt, tt)
    | inr (j, e) ↦ rw (act, e) (tt, tt)
  ]
  act-IsSigned (enable_toggle index) s = elim (Option-cases (get_elem? s.rulelist index)) [
    | inl e ↦ rw (act, e) (tt, tt)
    | inr (r, e) ↦ rw (act, e) (tt, tt)
  ]

  refusal-IsSigned : (r : Reply) → All (IsSigned none) (refusal r)
  unfolding ajaxcallback
  refusal-IsSigned r = elim (Bool-cases (refused r)) [
    | inl e ↦ elim (Bool-cases (succeeded r)) [
      | inl t ↦ rw (refusal, ajaxcallback, e, t) (tt, tt)
      | inr t ↦ elim (Bool-cases (truthy r.msg)) [
        | inl m ↦ rw (refusal, ajaxcallback, e, t, m) (tt, tt)
        | inr m ↦ rw (refusal, ajaxcallback, e, t, m) (tt, tt)
      ]
    ]
    | inr e ↦ rw (refusal, e) tt
  ]

  rule_reply-IsSigned : (r : Reply) (s : State) → All (IsSigned none) (rule_reply r s).1
  unfolding rule_reply
  rule_reply-IsSigned r s = elim (Bool-cases (succeeded r)) [
    | inl e ↦ rw (rule_reply, e) (tt, (tt, refusal-IsSigned r))
    | inr e ↦ rw (rule_reply, e) (refusal-IsSigned r)
  ]

  post_toggle-IsSigned :
      (index : ℕ) (p : JsString) (s : State)
      → All
          (IsSigned (with_password (some p) s.rules_url))
          (post_toggle anchor_hash true index p s).1
  unfolding post_toggle post_rules
  post_toggle-IsSigned index p s = elim (Option-cases s.current) [
    | inl e ↦ rw (post_toggle, e) (tt, tt)
    | inr (r, e) ↦ rw (post_toggle, e) ((codes "enable", refl), tt)
  ]

  password-IsSigned :
      (p : Option JsString) (w : Wait) (s : State)
      → All
          (IsSigned (with_password (asked (password p) w) s.rules_url))
          (answer anchor_hash true w (password p) s).1
  unfolding answer post_delete post_add post_rules password_entered
  password-IsSigned none delete_password s = tt
  password-IsSigned none add_password s = tt
  password-IsSigned none (toggle_password index) s = tt
  password-IsSigned none w s = tt
  password-IsSigned (some []) delete_password s = tt
  password-IsSigned (some []) add_password s = tt
  password-IsSigned (some []) (toggle_password index) s = tt
  password-IsSigned (some []) w s = tt
  password-IsSigned (some (c ∷ p)) delete_password s = ((codes "del", refl), tt)
  password-IsSigned (some (c ∷ p)) add_password s = ((codes "add", refl), tt)
  password-IsSigned (some (c ∷ p)) (toggle_password index) s = post_toggle-IsSigned index (c ∷ p) s
  password-IsSigned (some (c ∷ p)) w s = tt

  added-IsSigned :
      (n : ℕ) (r : Reply) (w : Wait) (s : State)
      → All (IsSigned none) (answer anchor_hash true w (added n r) s).1
  unfolding answer added_reply
  added-IsSigned zero r rules_added s = refusal-IsSigned r
  added-IsSigned (suc n) r rules_added s = (tt, refusal-IsSigned r)
  added-IsSigned n r w s = tt

  toggled-IsSigned :
      (b : Option Bool) (r : Reply) (w : Wait) (s : State)
      → All (IsSigned none) (answer anchor_hash true w (toggled b r) s).1
  unfolding answer toggled_reply
  toggled-IsSigned none r (rule_toggled index) s = refusal-IsSigned r
  toggled-IsSigned (some b) r (rule_toggled index) s = (tt, refusal-IsSigned r)
  toggled-IsSigned b r w s = tt

  answer-IsSigned :
      (w : Wait) (a : Answer) (s : State)
      → All (IsSigned (with_password (asked a w) s.rules_url)) (answer anchor_hash true w a s).1
  unfolding answer load_rules request_password
  answer-IsSigned w (password p) s = password-IsSigned p w s
  answer-IsSigned w (added n r) s = added-IsSigned n r w s
  answer-IsSigned w (toggled b r) s = toggled-IsSigned b r w s
  answer-IsSigned rules_loaded (loaded rs) s = tt
  answer-IsSigned w (loaded rs) s = tt
  answer-IsSigned rule_deleted (reply r) s = rule_reply-IsSigned r s
  answer-IsSigned w (reply r) s = tt
  answer-IsSigned delete_confirmed confirmed s = (tt, tt)
  answer-IsSigned add_confirmed confirmed s = (tt, tt)
  answer-IsSigned (toggle_confirmed index) confirmed s = (tt, tt)
  answer-IsSigned w confirmed s = tt

  effects-IsSigned :
      (e : Event Action Wait Answer) (s : State)
      → All (IsSigned (with_password (password_of e) s.rules_url)) (effects e s)
  effects-IsSigned (did a) s = act-IsSigned a s
  effects-IsSigned (came w a) s = answer-IsSigned w a s

  password_of-IsEntered :
      (e : Event Action Wait Answer)
      → IsUsable anchor_hash (rules_page anchor_hash) e
      → IsEntered (password_of e)
  password_of-IsEntered (did a) h = tt
  password_of-IsEntered (came w a) h = h

  moved :
      (path hash : JsString) (ps : List Pair)
      → Reports path hash ps anchor_hash
      → IsPlainPath path
      → IsQuery ps
      → (q o : Option JsString) (u : JsString) (fs : List (Effect Wait)) → IsEntered q
      → IsEntered o
      → u ≡ stamped path hash ps o
      → All (IsSigned (with_password q u)) fs
      → All (IsSigned (map (λ p. stamped path hash ps (some p)) q)) fs
  moved path hash ps h hp hq none o u fs k l e a = a
  moved path hash ps h hp hq (some p) o u fs k l e a =
      subst (λ v. All (IsSigned (some v)) fs)
        (rewritten-stamped anchor_hash (rules_page anchor_hash) path hash ps h hp hq (some p) o u k
          l e)
        a

  -- With two factors, after any course of actions and answers on the rules page that starts without
  -- a password in its URL, the next event sends nothing unless it is an entered password; what
  -- that sends goes to the page's URL with just this password and with an action added, where the
  -- passwords can stand in a query and the browser reports the fragment.
  pub run_events-IsSigned :
      (path hash : JsString) (ps : List Pair) (es : List (Event Action Wait Answer))
      (e : Event Action Wait Answer) (s : State)
      → Reports path hash ps anchor_hash
      → IsPlainPath path
      → IsQuery ps
      → All (IsUsable anchor_hash (rules_page anchor_hash)) es
      → IsUsable anchor_hash (rules_page anchor_hash) e
      → s.rules_url ≡ stamped path hash ps none
      → All
          (IsSigned (map (λ p. stamped path hash ps (some p)) (password_of e)))
          (effects e (run_events anchor_hash (rules_page anchor_hash) es s))
  run_events-IsSigned path hash ps es e s h hp hq k l n =
      let t : State = run_events anchor_hash (rules_page anchor_hash) es s in
      let o : Option JsString = last_asked anchor_hash (rules_page anchor_hash) es none in
      moved path hash ps h hp hq (password_of e) o t.rules_url (effects e t)
        (password_of-IsEntered e l)
        (last_asked-IsEntered anchor_hash (rules_page anchor_hash) es none k tt)
        (run_events-stamped anchor_hash (rules_page anchor_hash) path hash ps h hp hq es none s k tt
          n)
        (effects-IsSigned e t)
