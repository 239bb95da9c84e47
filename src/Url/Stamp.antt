-- ===== src/Url/Stamp.antt =====
-- A URL that the pages write a password into, again and again.
use yulong.Prelude.{◌≡◌, ◌≢◌, ap, ◌∙◌, List, ◌++◌, Option, none, some, arith, All}
use yulong.Text.{JsString, codes}
use yulong.Url.{url_update_query}
use yulong.Url.Query.{
  Pair, put_query, put_query-put_query, put_query-IsQuery, render, IsPlainPath, IsQuery, IsValue,
  HasNoDollar,
}
use yulong.Url.Laws.{url_update_query-render}

-- A password that can stand in a query as it is.
abbrev pub IsPassword : JsString → Type 0
IsPassword p = (HasNoDollar p × IsValue p) × All (λ c. c ≢ b'#') p

abbrev pub IsEntered : Option JsString → Type 0
IsEntered none = Unit
IsEntered (some p) = IsPassword p

module _ (path hash : JsString) (ps : List Pair) where
  -- The URL before any password, and with one.
  abbrev pub stamped : Option JsString → JsString
  stamped none = render path ps ++ hash
  stamped (some p) = render path (put_query (codes "pass") p ps) ++ hash

  -- The browser reports the fragment of each of these URLs.
  abbrev pub Reports : (JsString → JsString) → Type 0
  Reports anchor_hash = (o : Option JsString) → IsEntered o → anchor_hash (stamped o) ≡ hash

  -- Writing a password replaces the one that was there.
  pub url_update_query-stamped :
      (anchor_hash : JsString → JsString) (p : JsString) (o : Option JsString)
      → Reports anchor_hash
      → IsPlainPath path
      → IsQuery ps
      → IsPassword p
      → IsEntered o
      → url_update_query anchor_hash (codes "pass") p (stamped o) ≡ stamped (some p)
  url_update_query-stamped anchor_hash p none h hp hq k l =
      url_update_query-render anchor_hash path (codes "pass") p hash ps (h none l) (λ e. cc) hp
        (ground arith) (ground arith) k.0.0 hq
  url_update_query-stamped anchor_hash p (some q) h hp hq k l =
      url_update_query-render anchor_hash path (codes "pass") p hash (put_query (codes "pass") q ps)
        (h (some q) l) (λ e. cc) hp (ground arith) (ground arith) k.0.0
        (put_query-IsQuery (codes "pass") q ps (ground arith) l.0.1 hq)
      ∙ ap (λ qs. render path qs ++ hash) (put_query-put_query (codes "pass") q p ps)

-- A URL that a password can be written into: the query, with the password under `pass` if there is
-- one already, is plain, and the browser reports the fragment.
pub record IsStamped (anchor_hash : JsString → JsString) (u : JsString) : Type 0 where
  pub path : JsString
  pub hash : JsString
  pub pairs : List Pair
  pub held : Option JsString
  pub reports : Reports path hash pairs anchor_hash
  pub plain : IsPlainPath path
  pub query : IsQuery pairs
  pub usable : IsEntered held
  pub text : u ≡ stamped path hash pairs held

-- The URL has the password under `pass`.
abbrev pub Carries : JsString → JsString → Type 0
Carries p u =
    (path : JsString) × ((hash : JsString) × ((ps : List Pair) × (u
          ≡ render path (put_query (codes "pass") p ps) ++ hash)))

pub url_update_query-Carries :
    (anchor_hash : JsString → JsString) (p u : JsString)
    → IsStamped anchor_hash u
    → IsPassword p
    → Carries p (url_update_query anchor_hash (codes "pass") p u)
url_update_query-Carries anchor_hash p u k h = (
  k.path,
  (
    k.hash,
    (
      k.pairs,
      ap (url_update_query anchor_hash (codes "pass") p) k.text
          ∙ url_update_query-stamped k.path k.hash k.pairs anchor_hash p k.held k.reports k.plain
              k.query h k.usable,
    ),
  ),
)
