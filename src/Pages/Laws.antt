-- ===== src/Pages/Laws.antt =====
-- The URL of a search, and the pages and events that are asked for.
use yulong.Prelude.{
  ℕ, ◌+◌, ◌-◌, ◌≤◌, ◌≡◌, refl, ◌∙◌, ap, true, List, [], ◌∷◌, ◌++◌, Option, none, some, length, ltb,
  arith, All, Bool-cases, inl, inr, length-append, not, Option-cases,
}
use yulong.Text.{JsString, codes, truthy}
use yulong.Url.{url_update_query}
use yulong.Url.Query.{render, Pair, put_query, IsPlainPath, IsQuery, put_query-IsQuery}
use yulong.Url.Laws.{url_update_query-render}
use yulong.Uri.{encode_uri_component}
use yulong.Uri.Laws.{IsSafe, encode_uri_component-IsSafe, IsSafe→HasNoDollar, IsSafe→IsValue}
use yulong.Pages.{
  Analysis, Detail, Tasks, get_analysis, AnalysisAction, previous, next, show_data, type,
  append2search, choose_days, analyze_act, get_tasks, previous_tasks, next_tasks, show_twenty,
}

-- Whatever text is searched for, its encoded form is the value of `q` in the URL: neither `&` nor
-- `#` nor `$` of the text touches the path, the other pairs or the fragment.
pub url_update_query-encode_uri_component :
    (anchor_hash : JsString → JsString) (path search query hash : JsString) (ps : List Pair)
    → encode_uri_component search ≡ some query
    → anchor_hash (render path ps ++ hash) ≡ hash
    → IsPlainPath path
    → IsQuery ps
    → (url_update_query anchor_hash (codes "q") query (render path ps ++ hash)
        ≡ render path (put_query (codes "q") query ps) ++ hash)
      × IsQuery (put_query (codes "q") query ps)
url_update_query-encode_uri_component anchor_hash path search query hash ps e a hp hq =
    let safe : All IsSafe query = encode_uri_component-IsSafe search query e in
    (
      url_update_query-render anchor_hash path (codes "q") query hash ps a (λ h. cc) hp
          (ground arith) (omega arith) (IsSafe→HasNoDollar query safe) hq,
      put_query-IsQuery (codes "q") query ps (ground arith) (IsSafe→IsValue query safe) hq,
    )

-- The pages of a search are counted from 1.
abbrev pub IsPage : Analysis → Type 0
IsPage s = 1 ≤ s.current_page

module _ (anchor_hash date_parse : JsString → JsString) (analyze_url : JsString) where
  get_analysis-page :
      (s : Analysis)
      → (get_analysis anchor_hash date_parse analyze_url s).0.current_page ≡ s.current_page
  unfolding get_analysis
  get_analysis-page s = elim (Bool-cases (not (truthy s.value))) [
    | inl e ↦ rw (get_analysis, e) refl
    | inr e ↦ elim (Option-cases (encode_uri_component s.value)) [
      | inl n ↦ rw (get_analysis, e, n) refl
      | inr (q, n) ↦ rw (get_analysis, e, n) refl
    ]
  ]

  -- No action leaves the pages that exist: the page stays at least 1.
  pub analyze_act-IsPage :
      (a : AnalysisAction) (s : Analysis)
      → IsPage s
      → IsPage (analyze_act anchor_hash date_parse analyze_url a s).0
  unfolding analyze_act
  analyze_act-IsPage previous s h = elim (Bool-cases (ltb 1 s.current_page)) [
    | inl e ↦
        rw (analyze_act, e)
          (ground (arith, get_analysis-page (record s { current_page = s.current_page - 1 })))
    | inr e ↦ rw (analyze_act, e) h
  ]
  analyze_act-IsPage next s h =
      omega (arith, get_analysis-page (record s { current_page = s.current_page + 1 }))
  analyze_act-IsPage show_data s h =
      omega (arith, get_analysis-page (record s { current_page = 1 }))
  analyze_act-IsPage (type search) s h = h
  analyze_act-IsPage (append2search end) s h = h
  analyze_act-IsPage (choose_days lo hi) s h = h

module _ (anchor_hash : JsString → JsString) (task_url : JsString) where
  tasks-state :
      (page : ℕ) (tid : Option JsString) (rows : List JsString)
      → (get_tasks anchor_hash task_url (record { current_page = page; tid = tid; rows = rows })).0
        ≡ record { current_page = page; tid = tid; rows = rows }
  unfolding get_tasks
  tasks-state page none rows = refl
  tasks-state page (some tid) rows = refl

  -- From a page that exists, the next page and back asks for the first one's rows again.
  pub previous_tasks-next_tasks :
      (s : Tasks)
      → 1 ≤ s.current_page
      → previous_tasks anchor_hash task_url (next_tasks anchor_hash task_url s).0
        ≡ get_tasks anchor_hash task_url s
  unfolding previous_tasks next_tasks
  previous_tasks-next_tasks s h =
      let test : ltb 1 (s.current_page + 1) ≡ true = ground arith in
      let back : s.current_page + 1 - 1 ≡ s.current_page = omega arith in
      ap (λ t. previous_tasks anchor_hash task_url t)
        (tasks-state (s.current_page + 1) s.tid s.rows)
      ∙ rw (previous_tasks, test)
          (ap (λ n. get_tasks anchor_hash task_url (record s { current_page = n })) back)

-- The events of a host that answers leave behind, in whatever order they come.
abbrev pub all_answers : List (Option (List JsString)) → Detail → Detail
all_answers [] s = s
all_answers (a ∷ as_) s = all_answers as_ (show_twenty a s).0

-- The next request starts behind the events that are shown, whatever answers came before it.
pub all_answers-start :
    (answers : List (Option (List JsString))) (s : Detail)
    → s.start ≡ length s.monitorlist
    → (all_answers answers s).start ≡ length (all_answers answers s).monitorlist
unfolding show_twenty
all_answers-start [] s h = h
all_answers-start (none ∷ answers) s h = all_answers-start answers s h
all_answers-start (some newlist ∷ answers) s h =
    all_answers-start answers
      (record s { monitorlist = s.monitorlist ++ newlist; start = s.start + length newlist })
      (omega (arith, length-append s.monitorlist newlist))
