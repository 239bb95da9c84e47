-- ===== src/Rules.antt =====
-- The controller of the rules page (web/static/js/main.js, `rules`). `obj`, `current` and
-- `current_status` are global variables of the scripts. The text area `new_rules` stands for the
-- value that its text parses to, `none` where it does not parse.
pub mod Order
pub mod Step
pub mod Flow
pub mod Passwords
pub mod Guard
mod Tests
use yulong.Prelude.{
  ℕ, zero, suc, Bool, true, false, not, ◌&&◌, ◌||◌, List, [], ◌∷◌, ◌++◌, Option, none, some,
  get_elem?, set, length, if◌then◌else◌, ◌==◌, ltb,
}
use yulong.Text.{JsString, codes, truthy, to_string}
use yulong.Url.{url_update_query}
use yulong.Page.{
  Json, null, bool, number, text, object, array, Items, nil, cons, Fields, end, field, fields,
  Effect, send, post, get, confirm, notify, reload, success, throw, Reply, succeeded, refused,
  ajaxcallback, request_password, password_entered,
}

-- A rule of the server: its `_id`, the members that the page reads, and the others.
pub record Rule : Type 0 where
  pub id : JsString
  pub name : JsString
  pub enabled : Bool
  pub others : Fields

pub data Wait : Type 0 where
  rules_loaded : Wait
  delete_confirmed : Wait
  delete_password : Wait
  rule_deleted : Wait
  add_confirmed : Wait
  add_password : Wait
  rules_added : Wait
  toggle_confirmed : ℕ → Wait
  toggle_password : ℕ → Wait
  rule_toggled : ℕ → Wait

pub record State : Type 0 where
  pub rules_url : JsString
  pub rulelist : List Rule
  pub new_rules : Option Json
  pub obj : Json
  pub current : Option Rule
  pub current_status : Bool

abbrev pub Result : Type 0
Result = State × List (Effect Wait)

-- `name1 < name2` of two strings
unfoldable pub str_lt : JsString → JsString → Bool
str_lt [] [] = false
str_lt [] (d ∷ t) = true
str_lt (c ∷ s) [] = false
str_lt (c ∷ s) (d ∷ t) = if c == d then str_lt s t else ltb c d

-- `rulelist.sort(…)`: by name, the greatest first; rules of one name keep their order.
unfoldable pub insert_rule : Rule → List Rule → List Rule
insert_rule r [] = r ∷ []
insert_rule r (q ∷ qs) =
    let rest = insert_rule r qs in if str_lt r.name q.name then q ∷ rest else r ∷ q ∷ qs

unfoldable pub sort_rules : List Rule → List Rule
unfolding insert_rule
sort_rules [] = []
sort_rules (r ∷ rs) = insert_rule r (sort_rules rs)

-- `pettyprint`: the rule without its `_id`.
abbrev pub without_id : Rule → Json
without_id r = object (
    field (codes "enabled") (bool r.enabled)
      (field (codes "meta") (object (field (codes "name") (text r.name) end)) r.others))

abbrev pub rule_template : Json
rule_template = object (
    fields (
      (codes "and", bool true)
      ∷ (codes "enabled", bool false)
      ∷ (
        codes "meta",
        object (
            fields (
              (codes "author", text [])
              ∷ (codes "description", text [])
              ∷ (codes "level", number 0)
              ∷ (codes "name", text [])
              ∷ [])),
      )
      ∷ (
        codes "rules",
        object (
            fields (
              (
                codes "name",
                object (fields ((codes "data", text []) ∷ (codes "type", text []) ∷ [])),
              )
              ∷ [])),
      )
      ∷ (codes "source", text [])
      ∷ (codes "system", text [])
      ∷ []))

-- The callback of the first request.
unfoldable pub load_rules : List Rule → State → Result
unfolding sort_rules
load_rules rs s = (record s { rulelist = sort_rules rs; new_rules = some rule_template }, [])

-- `if (!(obj instanceof Array)) obj = [obj]`
abbrev pub as_array : Json → Json
as_array (array xs) = array xs
as_array j = array (cons j nil)

abbrev pub count : Items → ℕ
count nil = zero
count (cons j js) = suc (count js)

-- `obj.length ? obj.length : 1`
abbrev pub shown_count : Json → ℕ
shown_count (array nil) = 1
shown_count (array (cons j js)) = suc (count js)
shown_count j = 1

abbrev pub id_json : JsString → Json
id_json id = object (fields ((codes "id", text id) ∷ []))

abbrev pub enable_json : JsString → Bool → Json
enable_json id enable = object (fields ((codes "id", text id) ∷ (codes "enable", bool enable) ∷ []))

-- `word_dict[current_status]`
abbrev pub toggle_word : Bool → JsString
toggle_word true = codes "关闭"
toggle_word false = codes "开启"

pub data Action : Type 0 where
  edit : ℕ → Action
  write : Option Json → Action
  delete : JsString → Action
  add_rules : Action
  enable_toggle : ℕ → Action

-- The answers; `added` carries the length of the answer, `toggled` its `enable`.
pub data Answer : Type 0 where
  loaded : List Rule → Answer
  confirmed : Answer
  password : Option JsString → Answer
  reply : Reply → Answer
  added : ℕ → Reply → Answer
  toggled : Option Bool → Reply → Answer

unfoldable pub act : Action → State → Result
act (edit index) s = elim (get_elem? s.rulelist index) [
  | none ↦ (record s { current = none; new_rules = some (object end) }, [])
  | some r ↦ (record s { current = some r; new_rules = some (without_id r) }, [])
]
act (write j) s = (record s { new_rules = j }, [])
act (delete id) s = (
  record s { obj = id_json id },
  confirm (codes "删除操作") (codes "该动作会删除这条规则，且不可复原。") delete_confirmed ∷ [],
)
act add_rules s = elim s.new_rules [
  | none ↦ (s, throw (codes "SyntaxError") ∷ [])
  | some j ↦ (
    record s { obj = as_array j },
    confirm (codes "是否确定添加规则？")
          (codes "该动作会添加 [" ++ to_string (shown_count (as_array j)) ++ codes "] 条规则") add_confirmed
        ∷ [],
  )
]
act (enable_toggle index) s = elim (get_elem? s.rulelist index) [
  | none ↦ (record s { current = none }, throw (codes "current is undefined") ∷ [])
  | some r ↦ (
    record s { current = some r; current_status = r.enabled },
    confirm (codes "是否确定" ++ toggle_word r.enabled ++ codes "该规则？")
          (codes "该动作会" ++ toggle_word r.enabled ++ codes "\"" ++ r.name ++ codes "\"规则")
          (toggle_confirmed index)
        ∷ [],
  )
]

-- `if (response.data.status == false) ajaxcallback(response.data)`
abbrev pub refusal : Reply → List (Effect Wait)
refusal r = if refused r then ajaxcallback r ∷ [] else []

unfoldable pub rule_reply : Reply → State → Result
rule_reply r s =
    (s, (if succeeded r then notify success (codes "成功删除规则!") ∷ reload ∷ [] else []) ++ refusal r)

unfoldable pub added_reply : ℕ → Reply → State → Result
added_reply zero r s = (s, refusal r)
added_reply (suc n) r s =
    (s, notify success (codes "成功添加" ++ to_string (suc n) ++ codes "条规则!") ∷ refusal r)

-- `$scope.rulelist[index].enabled = res.enable`
abbrev pub set_enabled : ℕ → Bool → List Rule → List Rule
set_enabled i b [] = []
set_enabled zero b (r ∷ rs) = record r { enabled = b } ∷ rs
set_enabled (suc i) b (r ∷ rs) = r ∷ set_enabled i b rs

unfoldable pub toggled_reply : ℕ → Option Bool → Reply → State → Result
toggled_reply index none r s = (s, refusal r)
toggled_reply index (some b) r s =
    (record s { rulelist = set_enabled index b s.rulelist }, reload ∷ refusal r)
