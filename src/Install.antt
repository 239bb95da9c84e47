-- ===== src/Install.antt =====
-- The install wizard (web/static/upload/main.js): the first two steps, and the upload of agents in
-- the third.
pub mod Cert
pub mod Setting
pub mod Laws
pub mod Complete
mod Tests
use yulong.Prelude.{
  ℕ, zero, suc, Bool, true, false, List, [], ◌∷◌, ◌++◌, Option, none, some, if◌then◌else◌, ◌==◌,
}
use yulong.Text.{JsString, codes}
use yulong.Url.{url_update_query}
use yulong.Page.{text, post, Effect, send, alert, go_to, error, Reply, succeeded}

-- An array with holes: `none` is an index that was never set.
abbrev pub Slots : Type 0
Slots = List (Option JsString)

pub data Wait : Type 0 where
  database_made : Wait
  rules_made : Wait
  file_done : ℕ → JsString → Wait

-- `step` is the browser's `localStorage.step`; a file is the text that its content stands for.
pub record State : Type 0 where
  pub step : ℕ
  pub filelist : Slots
  pub has_upload_filelist : Slots

abbrev pub Result : Type 0
Result = State × List (Effect Wait)

-- `slots[i] = file`
unfoldable pub put_slot : ℕ → JsString → Slots → Slots
put_slot zero file [] = some file ∷ []
put_slot zero file (x ∷ xs) = some file ∷ xs
put_slot (suc i) file [] = none ∷ put_slot i file []
put_slot (suc i) file (x ∷ xs) = x ∷ put_slot i file xs

-- `for (a in arr)` comes to the indices that are set; this page does not load js.js.
unfoldable pub count_length : Slots → ℕ
count_length [] = 0
count_length (none ∷ xs) = count_length xs
count_length (some file ∷ xs) = suc (count_length xs)

-- The button: every chosen file is sent; the file's name is that of index `i` on.
unfoldable pub submit_from : ℕ → JsString → Slots → List (Effect Wait)
submit_from i url [] = []
submit_from i url (none ∷ xs) = submit_from (suc i) url xs
submit_from i url (some file ∷ xs) =
    send (record { method = post; url = url; body = some (text file) }) (file_done i file)
    ∷ submit_from (suc i) url xs

-- What the user does; `add` is the choice of a file for the agent of index `i`.
pub data Action : Type 0 where
  init_database : Action
  init_rules : JsString → Action
  add : ℕ → JsString → Action
  start_upload : Action

-- `href` is `location.href`, and `upload_url` the address that the plugin sends files to.
module _ (anchor_hash : JsString → JsString) (href upload_url : JsString) where
  unfoldable pub act : Action → State → Result
  unfolding put_slot submit_from
  act init_database s = (
    s,
    send
          (record {
            method = post;
            url = url_update_query anchor_hash (codes "step") (codes "1") href;
            body = none;
          })
          database_made
        ∷ [],
  )
  act (init_rules rules) s = (
    s,
    send
          (record {
            method = post;
            url = url_update_query anchor_hash (codes "step") (codes "2") href;
            body = some (text rules);
          })
          rules_made
        ∷ [],
  )
  act (add i file) s = (record s { filelist = put_slot i file s.filelist }, [])
  act start_upload s = (s, submit_from 0 upload_url s.filelist)

-- The answer of a step: the next one, or the server's message.
unfoldable pub step_reply : ℕ → JsString → Reply → State → Result
step_reply n search r s =
    if succeeded r
    then (record s { step = n }, go_to search ∷ [])
    else (s, alert error (codes "Oops...") r.msg ∷ [])

-- `done`: the wizard goes on where as many files are uploaded as were chosen.
unfoldable pub file_reply : ℕ → JsString → State → Result
unfolding put_slot count_length
file_reply i file s =
    let uploaded : Slots = put_slot i file s.has_upload_filelist in
    (
      record s { has_upload_filelist = uploaded },
      if count_length uploaded == count_length s.filelist then go_to (codes "?step=4") ∷ [] else [],
    )

unfoldable pub answer : Wait → Reply → State → Result
unfolding step_reply file_reply
answer database_made r s = step_reply 2 (codes "?step=2") r s
answer rules_made r s = step_reply 3 (codes "?step=3") r s
answer (file_done i file) r s = file_reply i file s
