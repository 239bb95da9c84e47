-- ===== src/Config/Tests.antt =====
-- Runs of the settings page, and instances of its theorems.
use yulong.Prelude.{◌≡◌, refl, true, List, [], ◌∷◌, none, some, All, arith}
use yulong.Text.{codes, trim, is_space}
use yulong.Url.Tests.{plain_hash, plain_hash-Reports}
use yulong.Page.{null, put, send, Reply}
use yulong.Config.{
  Config, State, Wait, edit_typed, item_password, item_changed, add_typed, add_password,
  value_added, load_configs, learn_data_fa, icons,
}
use yulong.Config.Step.{add_white, act, typed, password, reply, edit, Action, Answer}
use yulong.Url.Course.{did, came, Event, run_events}
use yulong.Config.Passwords.{settings, run_events-settings}
use yulong.Config.Laws.{on, after_add, after_del, after_del-after_add, added-learn_data_fa}
use yulong.Url.{url_update_query}
use yulong.Config.Guard.{IsOpen, settings-IsOpen}

abbrev whitelist : Config
whitelist = record {
  id = codes "c7";
  kind = codes "whitelist";
  dic = (codes "ip", codes "10.0.0.1" ∷ []) ∷ (codes "process", []) ∷ [];
}

abbrev page : State
page = record {
  configs = whitelist ∷ [];
  white_index = some 0;
  config_url = codes "/json/config";
  json = null;
  input = [];
  ele = none;
  info_ = [];
}

loaded : (load_configs (whitelist ∷ []) page).0 ≡ page
unfolding load_configs
loaded = refl

abbrev granted : Reply
granted = record { status = some true; msg = [] }

after_del-after_add_example :
    (after_del plain_hash
      (codes "/n")
      (codes "/t")
      (codes "c7")
      0
      (codes "ip")
      (codes " 10.0.0.2 ")
      (codes "pw")
      granted
      (after_add plain_hash
        (codes "/n")
        (codes "/t")
        0
        (codes "ip")
        (codes "10.0.0.2")
        (codes "pw")
        granted
        page)).configs
    ≡ page.configs
after_del-after_add_example =
    after_del-after_add plain_hash (codes "/n") (codes "/t") (codes "c7") 0 (codes "ip")
      (codes " 10.0.0.2 ") b'1' b'p' (codes "0.0.0.2") (codes "w") whitelist (codes "10.0.0.1" ∷ [])
      granted page refl refl refl (unfold trim is_space in refl) refl

added-learn_data_fa_example :
    (on plain_hash
      (codes "/n")
      (codes "/t")
      (add_password 0 (codes "ip") (codes "10.0.0.2"))
      (password (some (codes "pw")))
      (learn_data_fa
        (codes "process")
        (on plain_hash
          (codes "/n")
          (codes "/t")
          (add_typed 0 (codes "ip"))
          (typed (some (codes "10.0.0.2")))
          page).0).0).1
    ≡ send
        (record {
          method = put;
          url = url_update_query plain_hash (codes "pass") (codes "pw") (codes "/json/config");
          body = some icons;
        })
        (value_added 0 (codes "ip") (codes "10.0.0.2"))
      ∷ []
added-learn_data_fa_example =
    added-learn_data_fa plain_hash (codes "/n") (codes "/t") 0 (codes "ip") (codes "process") b'1'
      b'p' (codes "0.0.0.2") (codes "w") whitelist (codes "10.0.0.1" ∷ []) page refl refl refl

settings-IsOpen_example :
    All
      (IsOpen plain_hash (codes "/n") (codes "/t") page)
      (act plain_hash true
        (codes "/n")
        (codes "/t")
        (add_white (codes "process") (codes "sshd") 2 (codes "2"))
        page).1
settings-IsOpen_example =
    settings-IsOpen plain_hash (codes "/n") (codes "/t")
      (add_white (codes "process") (codes "sshd") 2 (codes "2")) page

-- A setting is changed with one password, then a value is added with another.
abbrev events : List (Event Action Wait Answer)
events =
    did (edit 0 (codes "on") (codes "true"))
    ∷ came (edit_typed 0 (codes "on")) (typed (some (codes "false")))
    ∷ came (item_password null) (password (some (codes "old")))
    ∷ came item_changed (reply granted)
    ∷ came (add_typed 0 (codes "ip")) (typed (some (codes "10.0.0.3")))
    ∷ came (add_password 0 (codes "ip") (codes "10.0.0.3")) (password (some (codes "s3cret")))
    ∷ []

run_events-settings_example :
    (run_events plain_hash (settings plain_hash (codes "/n") (codes "/t")) events page).config_url
    ≡ codes "/json/config?pass=s3cret"
run_events-settings_example =
    run_events-settings plain_hash (codes "/n") (codes "/t") (codes "/json/config") [] [] events
      none page (plain_hash-Reports (codes "/json/config") (ground arith)) (ground arith) tt
      (ground arith) tt refl
