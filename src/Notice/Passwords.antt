-- ===== src/Notice/Passwords.antt =====
-- The password in the URL of the notices, over any course of actions and answers.
use yulong.Prelude.{ℕ, ◌≡◌, refl, true, false, List, [], ◌∷◌, Option, none, some, All, get_elem?}
use yulong.Text.{JsString}
use yulong.Url.Query.{Pair, IsPlainPath, IsQuery}
use yulong.Url.Stamp.{stamped, Reports}
use yulong.Url.Course.{
  came, Event, Page, rewritten, run_events, last_asked, IsUsable, run_events-stamped,
}
use yulong.Page.{send, post, password_entered, succeeded}
use yulong.Notice.{
  Notice, Wait, config_password, kill_password, all_password, all_changed, status_changed, State,
  put_config, post_kill, status_json,
}
use yulong.Notice.Step.{
  Action, mark, Answer, notices, password, chosen, typed, reply, act, answer, notice_at,
  change_status, post_all,
}
use yulong.Notice.Urls.{act-url, reply-url, typed-url, notices-url, chosen-url}

-- The password of an answer that settles all notices.
abbrev pub asked : Answer → Wait → Option JsString
asked (password (some (c ∷ p))) (all_password status) = some (c ∷ p)
asked _ _ = none

module _ (anchor_hash : JsString → JsString) (task_url : JsString) where
  password-url :
      (p : Option JsString) (w : Wait) (s : State)
      → (answer anchor_hash true task_url w (password p) s).0.notice_url
        ≡ rewritten anchor_hash (asked (password p) w) s.notice_url
  unfolding answer put_config post_kill post_all password_entered
  password-url none config_password s = refl
  password-url none kill_password s = refl
  password-url none (all_password status) s = refl
  password-url none w s = refl
  password-url (some []) config_password s = refl
  password-url (some []) kill_password s = refl
  password-url (some []) (all_password status) s = refl
  password-url (some []) w s = refl
  password-url (some (c ∷ p)) config_password s = refl
  password-url (some (c ∷ p)) kill_password s = refl
  password-url (some (c ∷ p)) (all_password status) s = refl
  password-url (some (c ∷ p)) w s = refl

  pub answer-url :
      (w : Wait) (a : Answer) (s : State)
      → (answer anchor_hash true task_url w a s).0.notice_url
        ≡ rewritten anchor_hash (asked a w) s.notice_url
  answer-url w (password p) s = password-url p w s
  answer-url w (typed v) s = typed-url anchor_hash task_url w v s
  answer-url w (chosen b) s = chosen-url anchor_hash task_url w b s
  answer-url w (notices ns) s = notices-url anchor_hash task_url w ns s
  answer-url w (reply r) s = reply-url anchor_hash task_url w r s

  -- The notice page with two factors.
  abbrev pub notice_page : Page anchor_hash State Action Wait Answer
  notice_page = record {
    act = λ a s. (act anchor_hash true task_url a s).0;
    answer = λ w a s. (answer anchor_hash true task_url w a s).0;
    url = λ s. s.notice_url;
    asked = asked;
    act-url = act-url anchor_hash task_url;
    answer-url = answer-url;
  }

  -- No settling of all notices succeeds, which loads the page anew.
  abbrev pub IsStaying : Event Action Wait Answer → Type 0
  IsStaying (came all_changed (reply r)) = succeeded r ≡ false
  IsStaying e = Unit

  -- After any course of actions and answers with two factors that starts without a password in the
  -- URL of the notices and in which the page is not loaded anew, because settling all notices never
  -- succeeds, where the passwords entered are such as can stand in a query and the browser reports
  -- the fragment, settling a single notice of the list, which asks for no password, sends the one
  -- that was entered last for settling all, if any was.
  pub mark-last_asked :
      (path hash : JsString) (ps : List Pair) (es : List (Event Action Wait Answer)) (s : State)
      (id status : ℕ) (n : Notice)
      → Reports path hash ps anchor_hash
      → IsPlainPath path
      → IsQuery ps
      → All (IsUsable anchor_hash notice_page) es
      → All IsStaying es
      → s.notice_url ≡ stamped path hash ps none
      → let t = run_events anchor_hash notice_page es s in
        notice_at t.heap (get_elem? t.noticelist id) ≡ some n
        → (act anchor_hash true task_url (mark id status) t).1
          ≡ send
              (record {
                method = post;
                url = stamped path hash ps (last_asked anchor_hash notice_page es none);
                body = some (status_json n.id status);
              })
              (status_changed id)
            ∷ []
  unfolding act change_status
  mark-last_asked path hash ps es s id status n h hp hq k stay e f =
      rw
        (
          act,
          change_status,
          f,
          run_events-stamped anchor_hash notice_page path hash ps h hp hq es none s k tt e,
        )
        refl
