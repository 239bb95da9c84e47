-- ===== src/Task/Laws.antt =====
-- What the form for a new task sends.
use yulong.Prelude.{
  ℕ, ◌≡◌, refl, ◌∙◌, ap, inl, inr, Bool, true, false, List, [], ◌∷◌, ◌++◌, Option, some, map,
  if◌then◌else◌, All, Bool-cases, append-nil,
}
use yulong.Text.{JsString, codes, str_eq, join}
use yulong.Text.Laws.{IsPlain, split_char-join}
use yulong.Page.{
  Json, text, object, fields, post, send, enable_pass, array, items, Effect, ask_password,
}
use yulong.Task.{
  Input, Wait, task_password, State, Result, input_json, put_inputs, put_selects, is_missing, warn,
  warnings, submit, newtask, ask_task, post_task, task_added,
}
use yulong.Dict.{put_field, get_field, get_field-put_field}

-- The value of the last of the inputs that has the name.
abbrev pub last_json : JsString → List Input → Option Json → Option Json
last_json name [] found = found
last_json name (i ∷ is) found =
    last_json name is (if str_eq i.name name then some (input_json i) else found)

-- Each name of the form gets the value of its last input; other members stay.
pub put_inputs-last_json :
    (name : JsString) (inputs : List Input) (json : List (JsString × Json))
    → get_field name (put_inputs inputs json) ≡ last_json name inputs (get_field name json)
unfolding put_inputs
put_inputs-last_json name [] json = refl
put_inputs-last_json name (i ∷ is) json =
    put_inputs-last_json name is (put_field i.name (input_json i) json)
    ∙ ap (last_json name is) (get_field-put_field name i.name (input_json i) json)

input_json-join :
    (host : JsString) (hosts : List JsString)
    → All (IsPlain b',') (host ∷ hosts)
    → input_json (record { name = codes "host_list"; value = join (codes ",") (host ∷ hosts) })
      ≡ array (items (host ∷ hosts))
unfolding input_json
input_json-join host hosts h = ap (λ ws. array (items ws)) (split_char-join b',' host hosts h)

-- The inputs that must not stay empty and do.
abbrev pub missing : List Input → List Input
missing [] = []
missing (i ∷ is) = if is_missing i then i ∷ missing is else missing is

-- The warnings of the inputs that are missing, or the prompt.
abbrev pub outcome : List Input → List (Effect Wait)
outcome [] = ask_password task_password ∷ []
outcome (i ∷ is) = map warn (i ∷ is)

warnings-missing : (inputs : List Input) → warnings inputs ≡ map warn (missing inputs)
unfolding warnings
warnings-missing [] = refl
warnings-missing (i ∷ is) = elim (Bool-cases (is_missing i)) [
  | inl e ↦ rw (e, warnings-missing is) refl
  | inr e ↦ rw (e, warnings-missing is) refl
]

abbrev is_empty : List Input → Bool
is_empty [] = true
is_empty (i ∷ is) = false

submit-missing : (inputs : List Input) → submit inputs ≡ is_empty (missing inputs)
unfolding submit
submit-missing [] = refl
submit-missing (i ∷ is) = elim (Bool-cases (is_missing i)) [
  | inl e ↦ rw e refl
  | inr e ↦ rw (e, submit-missing is) refl
]

prompt_or_warnings :
    (is : List Input) (s : State)
    → (let asked : Result = if is_empty is then (s, ask_password task_password ∷ []) else (s, []) in
        map warn is ++ asked.1)
      ≡ outcome is
prompt_or_warnings [] s = refl
prompt_or_warnings (i ∷ is) s = append-nil (map warn (i ∷ is))

module _ (anchor_hash : JsString → JsString) (task_url : JsString) where
  -- With two factors the form asks for the password where every input but the command is filled,
  -- and else gives one warning for each that is not; nothing is sent.
  newtask-outcome :
      (inputs selects : List Input) (s : State)
      → (newtask anchor_hash true task_url inputs selects s).1 ≡ outcome (missing inputs)
  unfolding newtask ask_task
  newtask-outcome inputs selects s =
      rw (warnings-missing inputs, submit-missing inputs)
        (prompt_or_warnings (missing inputs)
          (record s { json = put_selects selects (put_inputs inputs []) }))

-- Other names leave a member.
put_inputs-other :
    (name : JsString) (inputs : List Input) (json : List (JsString × Json))
    → All (λ i. str_eq i.name name ≡ false) inputs
    → get_field name (put_inputs inputs json) ≡ get_field name json
unfolding put_inputs
put_inputs-other name [] json h = refl
put_inputs-other name (i ∷ is) json (h, hs) =
    put_inputs-other name is (put_field i.name (input_json i) json) hs
    ∙ get_field-put_field name i.name (input_json i) json
    ∙ rw h refl

put_selects-other :
    (name : JsString) (selects : List Input) (json : List (JsString × Json))
    → All (λ i. str_eq i.name name ≡ false) selects
    → get_field name (put_selects selects json) ≡ get_field name json
unfolding put_selects
put_selects-other name [] json h = refl
put_selects-other name (i ∷ is) json (h, hs) =
    put_selects-other name is (put_field i.name (text i.value) json) hs
    ∙ get_field-put_field name i.name (text i.value) json
    ∙ rw h refl

put_inputs-append :
    (before after : List Input) (json : List (JsString × Json))
    → put_inputs (before ++ after) json ≡ put_inputs after (put_inputs before json)
unfolding put_inputs
put_inputs-append [] after json = refl
put_inputs-append (i ∷ is) after json =
    put_inputs-append is after (put_field i.name (input_json i) json)

-- The form's element for the hosts.
abbrev pub host_input : List JsString → Input
host_input hosts = record { name = codes "host_list"; value = join (codes ",") hosts }

abbrev IsOther : Input → Type 0
IsOther i = str_eq i.name (codes "host_list") ≡ false

module _ (anchor_hash : JsString → JsString) (task_url : JsString) where
  newtask-json :
      (inputs selects : List Input) (s : State)
      → (newtask anchor_hash true task_url inputs selects s).0
        ≡ record s { json = put_selects selects (put_inputs inputs []) }
  unfolding newtask ask_task
  newtask-json inputs selects s = elim (Bool-cases (submit inputs)) [
    | inl e ↦ rw e refl
    | inr e ↦ rw e refl
  ]

  -- With two factors, the password that is entered behind the form sends one request, a POST to the
  -- URL of the tasks with the password, whose body has the hosts, none with a comma in it, that were
  -- typed with commas between them, as a list under `host_list`: where that element is followed by
  -- no other of its name, nor is there a selection of it.
  pub newtask-host_list :
      (before after selects : List Input) (host : JsString) (hosts : List JsString) (c : ℕ)
      (p : JsString) (s : State)
      → All (IsPlain b',') (host ∷ hosts)
      → All IsOther after
      → All IsOther selects
      → (json : List (JsString × Json)) × ((post_task anchor_hash true task_url
            (c ∷ p)
            (newtask anchor_hash true task_url
              (before ++ host_input (host ∷ hosts) ∷ after)
              selects
              s).0).1
          ≡ send
              (record {
                method = post;
                url = enable_pass anchor_hash task_url (c ∷ p);
                body = some (object (fields json));
              })
              task_added
            ∷ [])
        × (get_field (codes "host_list") json ≡ some (array (items (host ∷ hosts))))
  unfolding post_task put_inputs
  newtask-host_list before after selects host hosts c p s plain ha hs =
      let inputs : List Input = before ++ host_input (host ∷ hosts) ∷ after in
      let key : JsString = codes "host_list" in
      let earlier : List (JsString × Json) = put_inputs before [] in
      let i : Input = host_input (host ∷ hosts) in
      (
        put_selects selects (put_inputs inputs []),
        ap (λ t. (post_task anchor_hash true task_url (c ∷ p) t).1) (newtask-json inputs selects s),
        put_selects-other key selects (put_inputs inputs []) hs
            ∙ ap (get_field key) (put_inputs-append before (i ∷ after) [])
            ∙ put_inputs-other key after (put_field key (input_json i) earlier) ha
            ∙ get_field-put_field key key (input_json i) earlier
            ∙ ap some (input_json-join host hosts plain),
      )
