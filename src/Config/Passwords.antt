-- ===== src/Config/Passwords.antt =====
-- The password in the URL of the settings, over any course of actions and answers.
use yulong.Prelude.{◌≡◌, refl, true, List, [], ◌∷◌, Option, none, some, All}
use yulong.Text.{JsString}
use yulong.Url.Query.{Pair, IsPlainPath, IsQuery}
use yulong.Url.Stamp.{IsEntered, stamped, Reports}
use yulong.Url.Course.{Event, Page, rewritten, run_events, last_asked, IsUsable, run_events-stamped}
use yulong.Page.{password_entered}
use yulong.Config.{Wait, item_password, add_password, del_password, pull_password, State}
use yulong.Config.Items.{post_item, put_value, delete_value}
use yulong.Config.Step.{Action, Answer, typed, confirmed, password, reply, act, answer, post_pull}
use yulong.Config.Urls.{act-url, typed-url, confirmed-url, reply-url}

-- The password of an answer that changes the settings.
abbrev pub asked : Answer → Wait → Option JsString
asked (password (some (c ∷ p))) (item_password body) = some (c ∷ p)
asked (password (some (c ∷ p))) (add_password index key value) = some (c ∷ p)
asked (password (some (c ∷ p))) (del_password id index key) = some (c ∷ p)
asked _ _ = none

module _ (anchor_hash : JsString → JsString) (notice_url task_url : JsString) where
  password-url :
      (p : Option JsString) (w : Wait) (s : State)
      → (answer anchor_hash true notice_url task_url w (password p) s).0.config_url
        ≡ rewritten anchor_hash (asked (password p) w) s.config_url
  unfolding answer post_item put_value delete_value post_pull password_entered
  password-url none (item_password body) s = refl
  password-url none (add_password index key value) s = refl
  password-url none (del_password id index key) s = refl
  password-url none (pull_password system) s = refl
  password-url none w s = refl
  password-url (some []) (item_password body) s = refl
  password-url (some []) (add_password index key value) s = refl
  password-url (some []) (del_password id index key) s = refl
  password-url (some []) (pull_password system) s = refl
  password-url (some []) w s = refl
  password-url (some (c ∷ p)) (item_password body) s = refl
  password-url (some (c ∷ p)) (add_password index key value) s = refl
  password-url (some (c ∷ p)) (del_password id index key) s = refl
  password-url (some (c ∷ p)) (pull_password system) s = refl
  password-url (some (c ∷ p)) w s = refl

  pub answer-url :
      (w : Wait) (a : Answer) (s : State)
      → (answer anchor_hash true notice_url task_url w a s).0.config_url
        ≡ rewritten anchor_hash (asked a w) s.config_url
  answer-url w (password p) s = password-url p w s
  answer-url w (typed v) s = typed-url anchor_hash notice_url task_url w v s
  answer-url w confirmed s = confirmed-url anchor_hash notice_url task_url w s
  answer-url w (reply r) s = reply-url anchor_hash notice_url task_url w r s

  -- The settings page with two factors.
  abbrev pub settings : Page anchor_hash State Action Wait Answer
  settings = record {
    act = λ a s. (act anchor_hash true notice_url task_url a s).0;
    answer = λ w a s. (answer anchor_hash true notice_url task_url w a s).0;
    url = λ s. s.config_url;
    asked = asked;
    act-url = act-url anchor_hash notice_url task_url;
    answer-url = answer-url;
  }

  -- Whatever the operator does on the settings page with two factors, and whatever comes back, in
  -- any order, the URL of the settings stays the one of the start with the password that was
  -- entered last for a change of the settings, and no other, where the passwords can stand in a
  -- query and the browser reports the fragment.
  pub run_events-settings :
      (path hash : JsString) (ps : List Pair) (es : List (Event Action Wait Answer))
      (o : Option JsString) (s : State)
      → Reports path hash ps anchor_hash
      → IsPlainPath path
      → IsQuery ps
      → All (IsUsable anchor_hash settings) es
      → IsEntered o
      → s.config_url ≡ stamped path hash ps o
      → (run_events anchor_hash settings es s).config_url
        ≡ stamped path hash ps (last_asked anchor_hash settings es o)
  run_events-settings path hash ps es o s h hp hq k l e =
      run_events-stamped anchor_hash settings path hash ps h hp hq es o s k l e
