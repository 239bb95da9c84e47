-- ===== src/Notice/Guard.antt =====
-- Which requests of the notice page wait for the second factor.
use yulong.Prelude.{
  ℕ, ◌≡◌, refl, ◌⊎◌, inl, inr, true, some, All, Bool-cases, Option-cases, get_elem?,
}
use yulong.Text.{JsString, truthy, includes}
use yulong.Url.Stamp.{IsEntered, IsStamped, Carries}
use yulong.Page.{post, Effect, send, get}
use yulong.Notice.{Notice, Wait, State, add2config, kill_all, bar_inside, taken_info, status_json}
use yulong.Notice.Step.{
  Action, analyze, add, kill, open_filter, choose_type, more, click_tab, mark, mark_all,
  close_message, Answer, password, act, change_status, notice_at,
}

-- A read, or the request that gives one notice of the list, by its own identifier, a status.
abbrev pub IsOpen : State → Effect Wait → Type 0
IsOpen s (send r k) =
    (r.method ≡ get)
    ⊎ ((id : ℕ) × ((status : ℕ) × ((n : Notice) × (notice_at s.heap (get_elem? s.noticelist id)
              ≡ some n)
            × (r ≡ record {
              method = post;
              url = s.notice_url;
              body = some (status_json n.id status);
            }))))
IsOpen s _ = Unit

module _ (anchor_hash : JsString → JsString) (task_url : JsString) where
  add2config-IsOpen :
      (kind info config_type : JsString) (s : State)
      → All (IsOpen s) (add2config anchor_hash true task_url kind info config_type s).1
  unfolding add2config
  add2config-IsOpen kind info config_type s = elim (Bool-cases (bar_inside info)) [
    | inl e ↦ rw (add2config, e) (tt, tt)
    | inr e ↦ elim (Option-cases (taken_info kind info s.info_)) [
      | inl m ↦ rw (add2config, e, m) (tt, tt)
      | inr (i, m) ↦ rw (add2config, e, m) (tt, tt)
    ]
  ]

  change_status-IsOpen : (id status : ℕ) (s : State) → All (IsOpen s) (change_status id status s).1
  unfolding change_status
  change_status-IsOpen id status s =
      elim (Option-cases (notice_at s.heap (get_elem? s.noticelist id))) [
        | inl e ↦ rw (change_status, e) (tt, tt)
        | inr (n, e) ↦ rw (change_status, e) (inr (id, (status, (n, e, refl))), tt)
      ]

  kill_all-IsOpen :
      (process : JsString) (s : State)
      → All (IsOpen s) (kill_all anchor_hash true task_url process s).1
  unfolding kill_all
  kill_all-IsOpen process s = elim (Bool-cases (includes b'|' process)) [
    | inl e ↦ rw (kill_all, e) (tt, tt)
    | inr e ↦ rw (kill_all, e) (tt, tt)
  ]

  -- With two factors no action of the user sends a request but reads, and the one that gives a
  -- single notice of the list, named by its own identifier, a status.
  pub act-IsOpen : (a : Action) (s : State) → All (IsOpen s) (act anchor_hash true task_url a s).1
  unfolding act
  act-IsOpen (analyze n) s = (tt, tt)
  act-IsOpen (add kind info config_type) s = add2config-IsOpen kind info config_type s
  act-IsOpen (kill process) s = kill_all-IsOpen process s
  act-IsOpen (choose_type kind) s = (inl refl, tt)
  act-IsOpen more s = (inl refl, tt)
  act-IsOpen (mark id status) s = change_status-IsOpen id status s
  act-IsOpen open_filter s = (tt, tt)
  act-IsOpen (click_tab tab) s = tt
  act-IsOpen (mark_all status) s = (tt, tt)
  act-IsOpen close_message s = tt

  -- What an answer may send with two factors: a read, and behind a password that was entered a
  -- request to a URL that has the password under `pass`.
  abbrev pub IsAuthorised : Answer → Effect Wait → Type 0
  IsAuthorised (password (some p)) (send r k) = (truthy p ≡ true) × Carries p r.url
  IsAuthorised _ (send r k) = r.method ≡ get
  IsAuthorised _ _ = Unit

  -- The URLs that the page writes a password into, and the passwords, are such as can hold it and
  -- can be held.
  abbrev pub AreStamped : State → Type 0
  AreStamped s =
      IsStamped anchor_hash s.config_url
      × IsStamped anchor_hash task_url
      × IsStamped anchor_hash s.notice_url

  abbrev pub IsHeld : Answer → Type 0
  IsHeld (password p) = IsEntered p
  IsHeld _ = Unit
