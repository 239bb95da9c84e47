-- ===== src/Upload/Laws.antt =====
-- The URL of an upload, and what the page offers behind it.
use yulong.Prelude.{ℕ, ◌≡◌, refl, ◌∙◌, ap, true, List, ◌∷◌, ◌++◌, some, All, arith}
use yulong.Text.{JsString, codes}
use yulong.Url.{url_update_query}
use yulong.Url.Query.{
  Pair, render, put_query, IsPlainPath, IsValue, IsQuery, HasNoDollar, put_query-IsQuery,
}
use yulong.Url.Laws.{url_update_query-render}
use yulong.Page.{Reply, succeeded}
use yulong.Upload.{
  Agent, agent_type_lst, State, create_file_form, act, answer, select_file_type, ajax_submit,
  password, reply, uploaded, upload_password, ajax_success,
}

-- What the page offers can be a value of a query.
abbrev pub IsUsable : Agent → Type 0
IsUsable a =
    (IsValue a.system × HasNoDollar a.system) × (IsValue a.platform × HasNoDollar a.platform)

pub agent_type_lst-IsUsable : All IsUsable agent_type_lst
agent_type_lst-IsUsable = ground arith

module _ (anchor_hash : JsString → JsString) where
  -- On a URL of files whose query is a list of named values, the URL of an upload gets the chosen
  -- kind's system and platform as `system` and `platform`, and keeps all else.
  select_file_type-render :
      (path hash : JsString) (ps : List Pair) (a : Agent) (s : State)
      → s.file_url ≡ render path ps ++ hash
      → anchor_hash (render path ps ++ hash) ≡ hash
      → anchor_hash (render path (put_query (codes "system") a.system ps) ++ hash) ≡ hash
      → IsPlainPath path
      → IsQuery ps
      → IsUsable a
      → (act anchor_hash true (select_file_type a) s).0.upload_url
        ≡ render path
            (put_query (codes "platform") a.platform (put_query (codes "system") a.system ps))
          ++ hash
  unfolding act create_file_form
  select_file_type-render path hash ps a s e h k hp hq ((u, v), (w, x)) =
      let named : List Pair = put_query (codes "system") a.system ps in
      let add_platform = url_update_query anchor_hash (codes "platform") a.platform in
      ap (λ t. add_platform (url_update_query anchor_hash (codes "system") a.system t)) e
      ∙ ap add_platform (
          url_update_query-render anchor_hash path (codes "system") a.system hash ps h (λ z. cc) hp
            (ground arith) (ground arith) v hq)
      ∙ url_update_query-render anchor_hash path (codes "platform") a.platform hash named k
          (λ z. cc) hp (ground arith) (ground arith) x
          (put_query-IsQuery (codes "system") a.system ps (ground arith) u hq)

  -- If another kind of agent is chosen while a file is on its way, the page offers to update the
  -- agents of that kind's system, not of the one that the file is for.
  upload_raced :
      (a b : Agent) (action file : JsString) (c : ℕ) (p : JsString) (r : Reply) (s : State)
      → succeeded r ≡ true
      → (answer anchor_hash true
          (some uploaded)
          (reply r)
          (act anchor_hash true
            (select_file_type b)
            (answer anchor_hash true
              (some (upload_password file))
              (password (some (c ∷ p)))
              (act anchor_hash true
                (ajax_submit action file)
                (act anchor_hash true (select_file_type a) s).0).0).0).0).0.upload_system
        ≡ b.system
  unfolding act answer create_file_form
  upload_raced a b action file c p r s ok = rw (ajax_success, ok) refl
