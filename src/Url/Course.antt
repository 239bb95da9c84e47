-- ===== src/Url/Course.antt =====
-- A page that writes passwords into a URL: what the pages promise, and what comes of it.
use yulong.Prelude.{◌≡◌, ap, ◌∙◌, List, [], ◌∷◌, Option, none, some, All}
use yulong.Text.{JsString, codes}
use yulong.Url.{url_update_query}
use yulong.Url.Query.{Pair, IsPlainPath, IsQuery}
use yulong.Url.Stamp.{IsEntered, stamped, Reports, url_update_query-stamped}

-- What happens on a page: an action of the operator, or an answer to a callback that waits.
pub data Event (Action Wait Answer : Type 0) : Type 0 where
  did : Action → Event Action Wait Answer
  came : Wait → Answer → Event Action Wait Answer

module _ (anchor_hash : JsString → JsString) where
  abbrev pub rewritten : Option JsString → JsString → JsString
  rewritten none u = u
  rewritten (some p) u = url_update_query anchor_hash (codes "pass") p u

  -- A page's operations and its URL, which an answer with a password that `asked` gives rewrites
  -- and nothing else touches.
  pub record Page (State Action Wait Answer : Type 0) : Type 0 where
    pub act : Action → State → State
    pub answer : Wait → Answer → State → State
    pub url : State → JsString
    pub asked : Answer → Wait → Option JsString
    pub act-url : (a : Action) (s : State) → url (act a s) ≡ url s
    pub answer-url :
        (w : Wait) (a : Answer) (s : State) → url (answer w a s) ≡ rewritten (asked a w) (url s)

  -- The latter of two passwords, if there is one.
  abbrev pub latter : Option JsString → Option JsString → Option JsString
  latter o none = o
  latter o (some p) = some p

  module _ {State Action Wait Answer : Type 0} (page : Page State Action Wait Answer) where
    abbrev pub run_events : List (Event Action Wait Answer) → State → State
    run_events [] s = s
    run_events (did a ∷ es) s = run_events es (page.act a s)
    run_events (came w a ∷ es) s = run_events es (page.answer w a s)

    -- The password that was entered last.
    abbrev pub last_asked : List (Event Action Wait Answer) → Option JsString → Option JsString
    last_asked [] o = o
    last_asked (did a ∷ es) o = last_asked es o
    last_asked (came w a ∷ es) o = last_asked es (latter o (page.asked a w))

    -- The passwords that are entered can stand in a query.
    abbrev pub IsUsable : Event Action Wait Answer → Type 0
    IsUsable (did a) = Unit
    IsUsable (came w a) = IsEntered (page.asked a w)

    latter-IsEntered : (o q : Option JsString) → IsEntered o → IsEntered q → IsEntered (latter o q)
    latter-IsEntered o none l k = l
    latter-IsEntered o (some p) l k = k

    pub last_asked-IsEntered :
        (es : List (Event Action Wait Answer)) (o : Option JsString)
        → All IsUsable es
        → IsEntered o
        → IsEntered (last_asked es o)
    last_asked-IsEntered [] o k l = l
    last_asked-IsEntered (did a ∷ es) o (k, ks) l = last_asked-IsEntered es o ks l
    last_asked-IsEntered (came w a ∷ es) o (k, ks) l =
        last_asked-IsEntered es (latter o (page.asked a w)) ks
          (latter-IsEntered o (page.asked a w) l k)

    module _ (path hash : JsString) (ps : List Pair) (h : Reports path hash ps anchor_hash)
        (hp : IsPlainPath path) (hq : IsQuery ps) where
      pub rewritten-stamped :
          (q o : Option JsString) (u : JsString)
          → IsEntered q
          → IsEntered o
          → u ≡ stamped path hash ps o
          → rewritten q u ≡ stamped path hash ps (latter o q)
      rewritten-stamped none o u k l e = e
      rewritten-stamped (some p) o u k l e =
          ap (url_update_query anchor_hash (codes "pass") p) e
          ∙ url_update_query-stamped path hash ps anchor_hash p o h hp hq k l

      -- Whatever happens, the URL is the one of the start with the password that was entered last.
      pub run_events-stamped :
          (es : List (Event Action Wait Answer)) (o : Option JsString) (s : State)
          → All IsUsable es
          → IsEntered o
          → page.url s ≡ stamped path hash ps o
          → page.url (run_events es s) ≡ stamped path hash ps (last_asked es o)
      run_events-stamped [] o s k l e = e
      run_events-stamped (did a ∷ es) o s (k, ks) l e =
          run_events-stamped es o (page.act a s) ks l (page.act-url a s ∙ e)
      run_events-stamped (came w a ∷ es) o s (k, ks) l e =
          run_events-stamped es (latter o (page.asked a w)) (page.answer w a s) ks
            (latter-IsEntered o (page.asked a w) l k)
            (page.answer-url w a s ∙ rewritten-stamped (page.asked a w) o (page.url s) k l e)
