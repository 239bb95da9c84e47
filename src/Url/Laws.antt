-- ===== src/Url/Laws.antt =====
-- What `url_update_query` and `url_add_Paginator` promise of a whole URL.
use yulong.Prelude.{
  ◌-◌, ◌≡◌, refl, ap, true, List, [], ◌∷◌, ◌++◌, Option, none, some, arith, append-nil, take,
  length, length-append, ◌≢◌,
}
use yulong.Text.{JsString, codes}
use yulong.Url.{without_hash, url_update_query, url_add_Paginator}
use yulong.Url.Query.{
  same_name, Pair, put_query-put_query, put_query-IsQuery, render, put_query, IsName, IsValue,
  HasNoDollar, IsPlainPath, IsQuery,
}
use yulong.Url.Refine.{update_uri-render, update_uri-dollar}

take-length : (s t : JsString) → take (length s) (s ++ t) ≡ s
take-length [] t = refl
take-length (c ∷ s) t = ap (c ∷◌) (take-length s t)

without_hash-append : (uri hash : JsString) → without_hash hash (uri ++ hash) ≡ uri
without_hash-append uri [] = append-nil uri
without_hash-append uri (c ∷ hash) =
    let n : length (uri ++ c ∷ hash) - length (c ∷ hash) ≡ length uri =
      omega (arith, length-append uri (c ∷ hash)) in
    rw n (take-length uri (c ∷ hash))

module _ (anchor_hash : JsString → JsString) where
  -- On a URL whose query is a list of named values, `url_update_query` gives the first value of
  -- that name (up to case) the new value, or adds the pair at the end, and keeps the path, the
  -- other pairs, their order and the fragment that the browser reports. Neither key nor value may
  -- hold a `$`.
  pub url_update_query-render :
      (path key value hash : JsString) (ps : List Pair)
      → anchor_hash (render path ps ++ hash) ≡ hash
      → key ≢ []
      → IsPlainPath path
      → IsName key
      → HasNoDollar key
      → HasNoDollar value
      → IsQuery ps
      → url_update_query anchor_hash key value (render path ps ++ hash)
        ≡ render path (put_query key value ps) ++ hash
  unfolding url_update_query
  url_update_query-render path [] value hash ps e ne hp hk dk dv hq = absurd (ne refl)
  url_update_query-render path (k ∷ key) value hash ps e ne hp hk dk dv hq =
      rw
        (
          e,
          without_hash-append (render path ps) hash,
          update_uri-render path (k ∷ key) value ps hp hk dk dv hq,
        )
        refl

  -- A later value of a key replaces an earlier one, wherever the key stood before.
  url_update_query_last :
      (path key v w hash : JsString) (ps : List Pair)
      → anchor_hash (render path ps ++ hash) ≡ hash
      → anchor_hash (render path (put_query key v ps) ++ hash) ≡ hash
      → key ≢ []
      → IsPlainPath path
      → IsName key
      → HasNoDollar key
      → HasNoDollar v
      → IsValue v
      → HasNoDollar w
      → IsQuery ps
      → url_update_query anchor_hash key w
          (url_update_query anchor_hash key v (render path ps ++ hash))
        ≡ url_update_query anchor_hash key w (render path ps ++ hash)
  url_update_query_last path key v w hash ps e e' ne hp hk dk dv hv dw hq =
      rw
        (
          url_update_query-render path key v hash ps e ne hp hk dk dv hq,
          url_update_query-render path key w hash (put_query key v ps) e' ne hp hk dk dw
              (put_query-IsQuery key v ps hk hv hq),
          url_update_query-render path key w hash ps e ne hp hk dk dw hq,
          put_query-put_query key v w ps,
        )
        refl

  -- Where the key, which holds no `$`, stands already in a query of one plain pair and the browser
  -- reports no fragment, a value whose only `$` is its last character is not stored as it is: the
  -- `$` and the `$2` of the replacement text are read together, and the URL gets `$2` in its place.
  pub url_update_query-dollar :
      (path key n u v : JsString)
      → anchor_hash (render path ((n, u) ∷ [])) ≡ []
      → key ≢ []
      → IsPlainPath path
      → IsName key
      → HasNoDollar key
      → HasNoDollar v
      → IsName n
      → IsValue u
      → same_name key n ≡ true
      → url_update_query anchor_hash key (v ++ codes "$") (render path ((n, u) ∷ []))
        ≡ render path ((key, v ++ codes "$2") ∷ [])
  unfolding url_update_query
  url_update_query-dollar path [] n u v e ne hp hk dk dv hn hu same = absurd (ne refl)
  url_update_query-dollar path (k ∷ key) n u v e ne hp hk dk dv hn hu same =
      rw (e, update_uri-dollar path (k ∷ key) n u v hp hk dk dv hn hu same) (simp append-nil)

  -- `url_add_Paginator` sets `page` in a rendered URL, and drops a limit that it is given; without
  -- a page it returns the URL unchanged.
  pub url_add_Paginator-render :
      (path page hash : JsString) (limit : Option JsString) (ps : List Pair)
      → anchor_hash (render path ps ++ hash) ≡ hash
      → IsPlainPath path
      → HasNoDollar page
      → IsQuery ps
      → (url_add_Paginator anchor_hash (some page) limit (render path ps ++ hash)
          ≡ render path (put_query (codes "page") page ps) ++ hash)
        × (url_add_Paginator anchor_hash none limit (render path ps ++ hash)
            ≡ render path ps ++ hash)
  unfolding url_add_Paginator
  url_add_Paginator-render path page hash limit ps e hp dp hq = (
    url_update_query-render path (codes "page") page hash ps e (λ h. cc) hp (ground arith)
        (omega arith) dp hq,
    refl,
  )
