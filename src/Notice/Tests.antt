-- ===== src/Notice/Tests.antt =====
-- Runs of the notice page, and instances of its theorems.
use yulong.Prelude.{◌+◌, ◌≡◌, refl, true, false, List, [], ◌∷◌, none, some, arith, get_elem?, All}
use yulong.Text.{codes}
use yulong.Regexp.{first_run}
use yulong.Url.Tests.{plain_hash, plain_hash-Reports}
use yulong.Page.{null, send, post, Reply}
use yulong.Notice.{
  Notice, Wait, status_changed, all_password, all_changed, State, config_json, status_json,
}
use yulong.Notice.Step.{Action, mark, mark_all, add, reply, password, act, answer, Answer}
use yulong.Url.Course.{did, came, Event, run_events}
use yulong.Notice.Passwords.{notice_page, mark-last_asked}
use yulong.Notice.Guard.{IsOpen, act-IsOpen}
use yulong.Notice.Status.{settle_raced}

abbrev pub shell_notice : Notice
shell_notice = record {
  id = codes "5a";
  kind = codes "process";
  info = codes "/bin/sh|nc -e|x";
  ip = codes "10.0.0.9";
  status = some 0;
}

abbrev login_notice : Notice
login_notice = record {
  id = codes "5b";
  kind = codes "loginlog";
  info = codes "root";
  ip = codes "10.0.0.8";
  status = some 0;
}

abbrev pub loaded : State
loaded = record {
  heap = shell_notice ∷ login_notice ∷ [];
  noticelist = 0 ∷ 1 ∷ [];
  currenttab = 0;
  currenttype = codes "undeal";
  currentpage = 1;
  filter = [];
  is_close_messagebox = false;
  notice_search = [];
  notice_url = codes "/json/notice";
  config_url = codes "/json/config";
  json = null;
  notice = none;
  info_ = none;
}

abbrev granted : Reply
granted = record { status = some true; msg = [] }

searched :
    (act plain_hash true (codes "/json/tasks") (Action.analyze shell_notice) loaded).0.notice_search
    ≡ codes "all:/bin/sh | ip:10.0.0.9 | type:process"
unfolding act
searched = refl

-- A login without an address throws on the first call, and would reuse an old address later.
no_address :
    (act plain_hash false
      (codes "/json/tasks")
      (add (codes "loginlog") (codes "root") (codes "white"))
      loaded).0
    ≡ loaded
unfolding act first_run
no_address = refl

act-IsOpen_example :
    All (IsOpen loaded) (act plain_hash true (codes "/json/tasks") (mark_all 1) loaded).1
act-IsOpen_example = act-IsOpen plain_hash (codes "/json/tasks") (mark_all 1) loaded

settle_raced_example :
    let t =
      (answer plain_hash true
        (codes "/json/tasks")
        (status_changed 0)
        (reply granted)
        (act plain_hash true
          (codes "/json/tasks")
          (mark 1 2)
          (act plain_hash true (codes "/json/tasks") (mark 0 1) loaded).0).0).0 in
    (get_elem? t.heap 0 ≡ some shell_notice)
    × (get_elem? t.heap 1 ≡ some (record login_notice { status = none }))
    × (t.currenttab ≡ 0 + 1)
settle_raced_example =
    settle_raced plain_hash true (codes "/json/tasks") 0 1 1 2 0 1 shell_notice login_notice granted
      loaded refl refl refl refl refl (omega arith)

abbrev reused : State
reused = record loaded { info_ = some (codes "10.9.9.9") }

-- Settling all notices fails, and one notice is settled after it.
abbrev events : List (Event Action Wait Answer)
events =
    did (mark_all 1)
    ∷ came (all_password 1) (password (some (codes "s3cret")))
    ∷ came all_changed (reply (record { status = some false; msg = codes "wrong" }))
    ∷ []

mark-last_asked_example :
    (act plain_hash true
      (codes "/json/tasks")
      (mark 1 2)
      (run_events plain_hash (notice_page plain_hash (codes "/json/tasks")) events loaded)).1
    ≡ send
        (record {
          method = post;
          url = codes "/json/notice?pass=s3cret";
          body = some (status_json (codes "5b") 2);
        })
        (status_changed 1)
      ∷ []
unfolding answer act
mark-last_asked_example =
    mark-last_asked plain_hash (codes "/json/tasks") (codes "/json/notice") [] [] events loaded 1 2
      login_notice (plain_hash-Reports (codes "/json/notice") (ground arith)) (ground arith) tt
      (ground arith) (tt, (tt, (refl, tt))) refl refl

stale_address :
    (act plain_hash true
      (codes "/json/tasks")
      (add (codes "loginlog") (codes "root") (codes "white"))
      reused).0.json
    ≡ config_json (codes "white") (codes "ip") (codes "10.9.9.9")
unfolding act first_run
stale_address = refl
