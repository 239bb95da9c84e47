-- ===== src/Task.antt =====
-- The form for a new task (web/static/js/main.js, `newtask`).
pub mod Laws
mod Tests
use yulong.Prelude.{
  Bool, true, false, ◌&&◌, not, List, [], ◌∷◌, ◌++◌, Option, none, some, if◌then◌else◌,
}
use yulong.Text.{JsString, codes, truthy, str_eq, split_char}
use yulong.Dict.{put_field}
use yulong.Page.{
  Json, text, object, array, fields, items, post, Effect, send, alert, reload, warning, Reply,
  succeeded, ajaxcallback, request_password, password_entered, enable_pass,
}

-- An element of the form.
pub record Input : Type 0 where
  pub name : JsString
  pub value : JsString

pub data Wait : Type 0 where
  task_password : Wait
  task_added : Wait

-- The members of the global `json`.
pub record State : Type 0 where
  pub json : List (JsString × Json)

abbrev pub Result : Type 0
Result = State × List (Effect Wait)

-- The value of an input: the hosts are a list.
unfoldable pub input_json : Input → Json
unfolding split_char
input_json i =
    if str_eq i.name (codes "host_list")
    then array (items (split_char b',' i.value))
    else text i.value

-- The two loops of the form, over the inputs and over the selections.
unfoldable pub put_inputs : List Input → List (JsString × Json) → List (JsString × Json)
unfolding input_json
put_inputs [] json = json
put_inputs (i ∷ is) json = put_inputs is (put_field i.name (input_json i) json)

unfoldable pub put_selects : List Input → List (JsString × Json) → List (JsString × Json)
put_selects [] json = json
put_selects (i ∷ is) json = put_selects is (put_field i.name (text i.value) json)

-- `input.val() == "" && input.attr("name") != "command"`
abbrev pub is_missing : Input → Bool
is_missing i = not (truthy i.value) && not (str_eq i.name (codes "command"))

abbrev pub warn : Input → Effect Wait
warn i = alert warning (i.name ++ codes "不得为空！") []

-- The warnings of the loop, and `submit` behind it.
unfoldable pub warnings : List Input → List (Effect Wait)
warnings [] = []
warnings (i ∷ is) = let rest = warnings is in if is_missing i then warn i ∷ rest else rest

unfoldable pub submit : List Input → Bool
submit [] = true
submit (i ∷ is) = not (is_missing i) && submit is

module _ (anchor_hash : JsString → JsString) (two_factor : Bool) (task_url : JsString) where
  unfoldable pub post_task : JsString → State → Result
  post_task pass s = (
    s,
    send
          (record {
            method = post;
            url = enable_pass anchor_hash task_url pass;
            body = some (object (fields s.json));
          })
          task_added
        ∷ [],
  )

  unfoldable pub ask_task : State → Result
  unfolding post_task request_password
  ask_task s = request_password two_factor task_password post_task s

  unfoldable pub newtask : List Input → List Input → State → Result
  unfolding put_inputs put_selects warnings submit ask_task
  newtask inputs selects s =
      let t : State = record s { json = put_selects selects (put_inputs inputs []) } in
      let asked : Result = if submit inputs then ask_task t else (t, []) in
      (asked.0, warnings inputs ++ asked.1)

  unfoldable pub task_reply : Reply → State → Result
  task_reply r s = (s, if succeeded r then reload ∷ ajaxcallback r ∷ [] else ajaxcallback r ∷ [])
