-- ===== src/Backend/Tests.antt =====
-- Runs of the web backend, and instances of its theorems.
use mathlib.Core.Option.{map}
use yulong.Prelude.{
  ℕ, zero, suc, ◌≡◌, refl, sym, ap, ◌∙◌, ◌↔◌, ◌≤◌, true, false, ◌&&◌, ◌||◌, not, List, [], ◌∷◌,
  Option, none, some, get_elem?, if◌then◌else◌, replicate,
}
use yulong.Text.{JsString, split_char, codes, includes, str_eq}
use yulong.Text.Laws.{str_eq_refl}
use yulong.Url.Tests.{plain_hash}
use yulong.Page.{null, bool}
use yulong.Config.{Config, State, lookup_dic}
use yulong.Backend.Access.{
  AppConfig, Request, passed, too_many, first_historys, string_in_slice, is_guarded,
  watch_mode_exempt, find_sub, check_two_factor, check_csrf, prepare,
}
use yulong.Backend.Access.Laws.{MayPass, prepare_iff}
use yulong.Backend.Access.Tries.{tries, historys_after, tries_bounds}
use yulong.Backend.Store.{Store, IsLawful, Values}
use yulong.Backend.Settings.{update}
use yulong.Backend.Settings.Typed.{turn_switch, switch_request, turn_switch-bool}
use yulong.Backend.Settings.Agree.{values}
use yulong.Backend.Settings.Exchange.{World, guarded}
use yulong.Backend.Settings.Sync.{
  InSync, Dialogue, adding, deleting, run_dialogues, run_dialogues-InSync,
}

abbrev app : AppConfig
app = record {
  ylhostname = codes "yulong.test";
  only_https = true;
  dev_mode = false;
  username = codes "yulong";
  two_factor_auth = true;
  learn = false;
  white_id = codes "c7";
}

abbrev attempt : ℕ → Request
attempt pass = record {
  host = codes "yulong.test";
  scheme = codes "https";
  url = codes "/config";
  method = codes "PUT";
  user = some (codes "yulong");
  pass = some pass;
  cookietoken = codes "t0";
  headertoken = codes "t0";
  body = none;
}

let_through : (prepare 123 app (attempt 123) first_historys).0 ≡ passed
unfolding prepare string_in_slice split_char is_guarded watch_mode_exempt find_sub check_two_factor
    check_csrf
let_through = refl

-- The seventh attempt is no longer compared, even with the password itself.
seventh :
    (prepare 123 app
      (attempt 123)
      (historys_after app (replicate 6 (123, attempt 99)) first_historys)).0
    ≡ too_many
unfolding prepare string_in_slice split_char is_guarded watch_mode_exempt find_sub check_two_factor
seventh = refl

prepare_iff_example :
    ((prepare 123 app (attempt 99) first_historys).0 ≡ passed)
    ↔ MayPass 123 app (attempt 99) first_historys
prepare_iff_example = prepare_iff 123 app (attempt 99) first_historys

tries_bounds_example :
    tries app 123
      (replicate 9 (attempt 99))
      (historys_after app ((77, attempt 99) ∷ (77, attempt 77) ∷ []) first_historys)
    ≤ 6
tries_bounds_example =
    tries_bounds app ((77, attempt 99) ∷ (77, attempt 77) ∷ []) 123 (replicate 9 (attempt 99))

-- Documents as a function.
abbrev Db : Type 0
Db = JsString → JsString → Option Values

abbrev write : JsString → JsString → (Option Values → Option Values) → Db → Db
write id key change db i k = if str_eq i id && str_eq k key then change (db i k) else db i k

abbrev with_value : JsString → Option Values → Option Values
with_value v none = some (str_eq v)
with_value v (some f) = some (λ x. f x || str_eq v x)

abbrev memory : Store Db
memory = record {
  is_object_id = λ id. includes b'c' id;
  find = λ db. db;
  find_one = λ db kind. kind;
  set_value = λ id key j db. some (write id key (λ f. none) db);
  add_to_set = λ id key v db. some (write id key (with_value v) db);
  pull = λ id key v db. some (write id key (map (λ f x. f x && not (str_eq v x))) db);
}

written : {a b : Db} → some a ≡ some b → (i k : JsString) → b i k ≡ a i k
written h i k = cc

write-here :
    (id key : JsString) (change : Option Values → Option Values) (db : Db)
    → write id key change db id key ≡ change (db id key)
write-here id key change db = rw (str_eq_refl id, str_eq_refl key) refl

memory-IsLawful : IsLawful memory
memory-IsLawful = record {
  find-add_to_set = λ id key v f db next plain a h.
      written a id key ∙ write-here id key (with_value v) db ∙ ap (with_value v) h;
  find-add_to_set-other = λ id key v i k db next plain a h. written a i k ∙ rw h refl;
  find-pull = λ id key v f db next plain a h.
      written a id key
      ∙ write-here id key (map (λ f x. f x && not (str_eq v x))) db
      ∙ ap (map (λ f x. f x && not (str_eq v x))) h;
  find-pull-other = λ id key v i k db next plain a h. written a i k ∙ rw h refl;
}

abbrev whitelist : Config
whitelist = record {
  id = codes "c7";
  kind = codes "whitelist";
  dic = (codes "ip", codes "10.0.0.1" ∷ []) ∷ (codes "process", []) ∷ [];
}

abbrev page : State
page = record {
  configs = whitelist ∷ [];
  white_index = some 0;
  config_url = codes "/json/config";
  json = null;
  input = [];
  ele = none;
  info_ = [];
}

abbrev stored : Db
stored id key = map values (lookup_dic key whitelist.dic)

-- The backend takes the password "pw" only.
abbrev world : World Db
world = record {
  anchor_hash = plain_hash;
  notice_url = codes "/n";
  task_url = codes "/t";
  store = memory;
  atoi = λ s. null;
  gate = λ r. str_eq r.url (codes "/json/config?pass=pw");
}

only : (i : ℕ) (g : Config) → get_elem? (whitelist ∷ []) i ≡ some g → (i ≡ 0) × (whitelist ≡ g)
only zero g h = (refl, cc)
only (suc i) g h = cc

page-InSync : InSync world page.configs stored
page-InSync = record {
  agrees = λ i g k h. ap (λ c. map values (lookup_dic k c.dic)) (sym (only i g h).1);
  distinct = λ i j g h e f same. (only i g e).0 ∙ sym (only j h f).0;
  untagged = λ i g h.
      ap (λ c. str_eq c.id (codes "blacklist") || str_eq c.id (codes "whitelist"))
        (sym (only i g h).1);
}

-- An addition with a wrong password, one with the right one, and a deletion.
abbrev dialogues : List (Dialogue world)
dialogues =
    adding 0 (codes "ip") (codes "10.0.0.2") (codes "no")
    ∷ adding 0 (codes "ip") (codes "10.0.0.3") (codes "pw")
    ∷ deleting 0 (codes "ip") (codes "10.0.0.1") (codes "pw")
    ∷ []

run_dialogues-InSync_example :
    InSync world
      (run_dialogues world dialogues (page, stored)).0.configs
      (run_dialogues world dialogues (page, stored)).1
run_dialogues-InSync_example =
    run_dialogues-InSync world dialogues page stored memory-IsLawful (refl, (refl, (refl, tt)))
      page-InSync

-- The white list's group has no switch, but the request is the same.
turn_switch-bool_example :
    (turn_switch world 0 (codes "udp") false (codes "pw") (page, stored)).1
    ≡ (guarded
        (world.gate (switch_request world (codes "c7") (codes "udp") false (codes "pw") page))
        (update memory world.atoi
          (codes "c7")
          (codes "false")
          (memory.set_value (codes "c7") (codes "udp") (bool false))
          stored)
        stored).1
turn_switch-bool_example =
    turn_switch-bool world 0 (codes "udp") false b'p' (codes "w") whitelist page stored refl
      (unfold string_in_slice in refl) refl
