-- ===== src/Config/Items.antt =====
-- Changing single settings, and the values of their lists.
use yulong.Prelude.{ℕ, Bool, not, [], ◌∷◌, ◌++◌, Option, none, some, get_elem?, if◌then◌else◌}
use yulong.Text.{JsString, codes, truthy, trim}
use yulong.Url.{url_update_query}
use yulong.Filters.{remove_all}
use yulong.Page.{
  Json, text, object, fields, post, put, delete, send, alert, throw, error, Reply, succeeded,
  ajaxcallback, request_password,
}
use yulong.Config.{
  item_password, item_changed, add_password, value_added, del_password, value_deleted, State,
  Result, values_at, put_values, contains, item_json,
}

-- `swal.showInputError`
abbrev pub input_error : JsString → State → Result
input_error message s = (s, alert error [] message ∷ [])

module _ (anchor_hash : JsString → JsString) (two_factor : Bool)
    (notice_url task_url : JsString) where
  -- The callback in `edit_config_item`, whose `json` is its own argument.
  unfoldable pub post_item : Json → JsString → State → Result
  post_item body pass s =
      let url = url_update_query anchor_hash (codes "pass") pass s.config_url in
      (
        record s { config_url = url },
        send (record { method = post; url = url; body = some body }) item_changed ∷ [],
      )

  unfoldable pub edit_config_item : Json → State → Result
  unfolding post_item request_password
  edit_config_item body s = request_password two_factor (item_password body) (post_item body) s

  -- `json = {id: configs[index]._id, key, input}`, which is handed on, or an exception where there is no such group.
  unfoldable pub change_item : ℕ → JsString → JsString → State → Result
  unfolding edit_config_item
  change_item index key value s = elim (get_elem? s.configs index) [
    | none ↦ (s, throw (codes "configs[index] is undefined") ∷ [])
    | some c ↦
        edit_config_item (item_json c.id key value) (record s { json = item_json c.id key value })
  ]

  unfoldable pub edit_answer : ℕ → JsString → Option JsString → State → Result
  edit_answer index key none s = (s, [])
  edit_answer index key (some value) s =
      if truthy value
      then change_item index key value s
      else input_error (codes "You need to write something!") s

  -- The callback of `request_password` in `add` reads the global `json`.
  unfoldable pub put_value : ℕ → JsString → JsString → JsString → State → Result
  put_value index key value pass s =
      let url = url_update_query anchor_hash (codes "pass") pass s.config_url in
      (
        record s { config_url = url },
        send (record { method = put; url = url; body = some s.json }) (value_added index key value)
            ∷ [],
      )

  unfoldable pub add_answer : ℕ → JsString → Option JsString → State → Result
  add_answer index key none s = elim (values_at index key s.configs) [
    | none ↦ (s, throw (codes "dic[key] is undefined") ∷ [])
    | some vs ↦ (s, [])
  ]
  add_answer index key (some value) s =
      if not (truthy value)
      then input_error (codes "You need to write something!") s
      else elim (get_elem? s.configs index) [
        | none ↦ (s, throw (codes "configs[index] is undefined") ∷ [])
        | some c ↦ elim (values_at index key s.configs) [
          | none ↦ (s, throw (codes "dic[key] is undefined") ∷ [])
          | some vs ↦
              if contains value vs
              then input_error (codes "Your input already exists in " ++ key) s
              else request_password two_factor (add_password index key value)
                  (put_value index key value) (record s { json = item_json c.id key value })
        ]
      ]

  unfoldable pub added_reply : ℕ → JsString → JsString → Reply → State → Result
  added_reply index key value r s =
      if succeeded r
      then elim (values_at index key s.configs) [
        | none ↦ (s, throw (codes "dic[key] is undefined") ∷ [])
        | some vs ↦ (
          record s { configs = put_values index key (vs ++ value ∷ []) s.configs },
          ajaxcallback r ∷ [],
        )
      ]
      else (s, ajaxcallback r ∷ [])

  -- The callback of `request_password` in `del`.
  unfoldable pub delete_value : JsString → ℕ → JsString → JsString → State → Result
  delete_value id index key pass s =
      let url = url_update_query anchor_hash (codes "pass") pass s.config_url in
      (
        record s { config_url = url },
        send
              (record {
                method = delete;
                url = url;
                body = some (
                    object (
                      fields (
                        (codes "input", text s.input)
                        ∷ (codes "key", text key)
                        ∷ (codes "id", text id)
                        ∷ [])));
              })
              (value_deleted index key)
            ∷ [],
      )

  unfoldable pub del_answer : JsString → ℕ → JsString → JsString → State → Result
  unfolding delete_value request_password
  del_answer id index key target s = elim s.ele [
    | none ↦ (s, throw (codes "ele is undefined") ∷ [])
    | some shown ↦
        request_password two_factor (del_password id index key) (delete_value id index key)
          (record s { input = trim shown; ele = some target })
  ]

  -- The answer takes the global `input` out of the list.
  unfoldable pub deleted_reply : ℕ → JsString → Reply → State → Result
  deleted_reply index key r s =
      if succeeded r
      then elim (values_at index key s.configs) [
        | none ↦ (s, ajaxcallback r ∷ throw (codes "dic[key] is undefined") ∷ [])
        | some vs ↦ elim (remove_all (s.input ∷ []) vs) [
          | none ↦ (s, ajaxcallback r ∷ [])
          | some ws ↦
              (record s { configs = put_values index key ws s.configs }, ajaxcallback r ∷ [])
        ]
      ]
      else (s, ajaxcallback r ∷ [])
