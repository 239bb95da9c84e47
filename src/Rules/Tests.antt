-- ===== src/Rules/Tests.antt =====
-- Runs of the rules page, and instances of its theorems.
use yulong.Prelude.{◌≡◌, refl, true, false, List, [], ◌∷◌, none, some, All, arith}
use mathlib.Core.List.{Perm}
use yulong.Text.{codes}
use yulong.Url.Tests.{plain_hash, plain_hash-Reports}
use yulong.Url.Course.{did, came, Event, run_events}
use yulong.Page.{null, end, Reply}
use yulong.Rules.{
  Rule, Wait, Action, Answer, delete, delete_confirmed, delete_password, confirmed, password, State,
  sort_rules, str_lt,
}
use yulong.Rules.Order.{IsDescending, sort_rules_lem}
use yulong.Rules.Passwords.{rules_page}
use yulong.Rules.Guard.{IsSigned, effects, run_events-IsSigned}

abbrev web_rule : Rule
web_rule = record { id = codes "r1"; name = codes "web"; enabled = true; others = end }

abbrev shell_rule : Rule
shell_rule = record { id = codes "r2"; name = codes "webshell"; enabled = false; others = end }

abbrev page : State
page = record {
  rules_url = codes "/json/rules";
  rulelist = shell_rule ∷ web_rule ∷ [];
  new_rules = none;
  obj = null;
  current = none;
  current_status = false;
}

sorted : sort_rules (web_rule ∷ shell_rule ∷ []) ≡ shell_rule ∷ web_rule ∷ []
unfolding sort_rules str_lt
sorted = refl

abbrev granted : Reply
granted = record { status = some true; msg = [] }

sort_rules_lem_example :
    IsDescending (sort_rules (web_rule ∷ shell_rule ∷ []))
    × Perm (sort_rules (web_rule ∷ shell_rule ∷ [])) (web_rule ∷ shell_rule ∷ [])
sort_rules_lem_example = sort_rules_lem (web_rule ∷ shell_rule ∷ [])

-- A deletion that is refused, and a second one.
abbrev events : List (Event Action Wait Answer)
events =
    did (delete (codes "r1"))
    ∷ came delete_confirmed confirmed
    ∷ came delete_password (password (some (codes "old")))
    ∷ did (delete (codes "r1"))
    ∷ came delete_confirmed confirmed
    ∷ []

abbrev second_try : Event Action Wait Answer
second_try = came delete_password (password (some (codes "s3cret")))

run_events-IsSigned_example :
    All
      (IsSigned plain_hash (some (codes "/json/rules?pass=s3cret")))
      (effects plain_hash second_try (run_events plain_hash (rules_page plain_hash) events page))
run_events-IsSigned_example =
    run_events-IsSigned plain_hash (codes "/json/rules") [] [] events second_try page
      (plain_hash-Reports (codes "/json/rules") (ground arith)) (ground arith) tt (ground arith)
      (ground arith) refl
