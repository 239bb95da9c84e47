-- ===== src/Language/Laws.antt =====
-- What a table holds after an update.
use yulong.Prelude.{◌≡◌, refl, ap, ◌∙◌, Bool, false, [], ◌∷◌, Option, some, if◌then◌else◌}
use yulong.Text.{JsString, str_eq}
use yulong.Text.Laws.{str_eq_refl}
use yulong.Dict.{put_field, get_field, get_field-put_field}
use yulong.Language.{Table, put_all, table_of, update}

module _ {V : Type 0} where
  -- The value of the last pair of the key, or what was there.
  abbrev pub last_value : JsString → Table V → Option V → Option V
  last_value key [] found = found
  last_value key ((k, v) ∷ dict) found =
      last_value key dict (if str_eq k key then some v else found)

  put_all-last_value :
      (key : JsString) (dict table : Table V)
      → get_field key (put_all dict table) ≡ last_value key dict (get_field key table)
  unfolding put_all
  put_all-last_value key [] table = refl
  put_all-last_value key ((k, v) ∷ dict) table =
      put_all-last_value key dict (put_field k v table)
      ∙ ap (last_value key dict) (get_field-put_field key k v table)

  -- Behind an update the table of that name has the dictionary's values, and its own ones for other
  -- keys; the tables of other names stay.
  update-last_value :
      (has_onload : Bool) (name other key : JsString) (dict : Table V) (tables : Table (Table V))
      → str_eq name other ≡ false
      → (get_field key (table_of (get_field name (update has_onload name dict tables).0))
          ≡ last_value key dict (get_field key (table_of (get_field name tables))))
        × (get_field other (update has_onload name dict tables).0 ≡ get_field other tables)
  unfolding update
  update-last_value has_onload name other key dict tables h =
      let table : Table V = put_all dict (table_of (get_field name tables)) in
      let stored : get_field name (put_field name table tables) ≡ some table =
        get_field-put_field name name table tables ∙ rw (str_eq_refl name) refl in
      let kept : get_field other (put_field name table tables) ≡ get_field other tables =
        get_field-put_field other name table tables ∙ rw h refl in
      (
        ap (λ o. get_field key (table_of o)) stored
            ∙ put_all-last_value key dict (table_of (get_field name tables)),
        kept,
      )
