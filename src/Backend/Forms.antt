-- ===== src/Backend/Forms.antt =====
-- What the backend reads the bodies of requests into (web/models/form.go), by Go's
-- `encoding/json`: members are found by the field's name without regard to case, in the order of
-- the text; `null` leaves a field as it is, a value of another type is an error behind which the
-- rest is still read, and members of other names are passed over.
use yulong.Prelude.{Bool, true, false, ◌&&◌, [], Option, none, some, if◌then◌else◌}
use yulong.Text.{JsString, codes}
use yulong.Url.Query.{same_name}
use yulong.Page.{Json, null, text, object, Fields, end, field}

pub record EditCfgForm : Type 0 where
  pub id : JsString
  pub key : JsString
  pub input : JsString

abbrev pub empty_form : EditCfgForm
empty_form = record { id = []; key = []; input = [] }

-- The text of a member, the field's value where it has none, and whether there was no error.
abbrev read_text : Json → JsString → JsString
read_text (text s) old = s
read_text j old = old

abbrev is_text : Json → Bool
is_text null = true
is_text (text s) = true
is_text j = false

-- One member, by its name.
unfoldable pub read_member : JsString → Json → EditCfgForm → EditCfgForm × Bool
unfolding same_name
read_member name j f =
    if same_name name (codes "id")
    then (record f { id = read_text j f.id }, is_text j)
    else if same_name name (codes "key")
    then (record f { key = read_text j f.key }, is_text j)
    else if same_name name (codes "input")
    then (record f { input = read_text j f.input }, is_text j)
    else (f, true)

unfoldable pub read_members : Fields → EditCfgForm → EditCfgForm × Bool
unfolding read_member
read_members end f = (f, true)
read_members (field name j rest) f =
    let (g, ok) = read_member name j f in let (h, more) = read_members rest g in (h, ok && more)

-- `json.Unmarshal(body, &form)` for a fresh form; a body that is no JSON is `none`.
unfoldable pub unmarshal : Option Json → EditCfgForm × Bool
unfolding read_members
unmarshal none = (empty_form, false)
unmarshal (some null) = (empty_form, true)
unmarshal (some (object fs)) = read_members fs empty_form
unmarshal (some j) = (empty_form, false)
