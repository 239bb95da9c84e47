-- ===== src/Notice/Status.antt =====
-- Which notice a settled request marks.
use yulong.Prelude.{
  ℕ, zero, suc, ◌+◌, ◌≡◌, ◌≢◌, refl, ◌∙◌, ap, Bool, true, List, [], ◌∷◌, none, some, arith,
  get_elem?, set,
}
use yulong.Text.{JsString}
use yulong.Page.{Reply, succeeded}
use yulong.Notice.{Notice, Wait, status_changed, State}
use yulong.Notice.Step.{Action, mark, Answer, reply, act, answer, change_status, status_reply}

get_elem?-set_ne {ℓ} :
    {A : Type ℓ} (xs : List A) (i j : ℕ) (v : A) → i ≢ j → get_elem? (set xs i v) j ≡ get_elem? xs j
get_elem?-set_ne [] i j v h = refl
get_elem?-set_ne (x ∷ xs) zero zero v h = absurd (h refl)
get_elem?-set_ne (x ∷ xs) zero (suc j) v h = refl
get_elem?-set_ne (x ∷ xs) (suc i) zero v h = refl
get_elem?-set_ne (x ∷ xs) (suc i) (suc j) v h = get_elem?-set_ne xs i j v (λ e. h (ap suc e))

get_elem?-set_self {ℓ} :
    {A : Type ℓ} (xs : List A) (i : ℕ) (v w : A)
    → get_elem? xs i ≡ some w
    → get_elem? (set xs i v) i ≡ some v
get_elem?-set_self [] i v w h = cc
get_elem?-set_self (x ∷ xs) zero v w h = refl
get_elem?-set_self (x ∷ xs) (suc i) v w h = get_elem?-set_self xs i v w h

module _ (anchor_hash : JsString → JsString) (two_factor : Bool) (task_url : JsString) where
  -- The state behind an action.
  abbrev after : Action → State → State
  after a s = (act anchor_hash two_factor task_url a s).0

  abbrev answered : Wait → Answer → State → State
  answered w a s = (answer anchor_hash two_factor task_url w a s).0

  marked :
      (id status place : ℕ) (n : Notice) (s : State)
      → get_elem? s.noticelist id ≡ some place
      → get_elem? s.heap place ≡ some n
      → after (mark id status) s ≡ record s { notice = some place }
  unfolding act change_status
  marked id status place n s e h = ground arith

  settled :
      (id place : ℕ) (n : Notice) (r : Reply) (s : State)
      → succeeded r ≡ true
      → s.notice ≡ some place
      → get_elem? s.heap place ≡ some n
      → answered (status_changed id) (reply r) s
        ≡ record s { heap = set s.heap place (record n { status = none }); currenttab = id + 1 }
  unfolding answer status_reply
  settled id place n r s ok e h = ground arith

  -- A notice that is marked and whose request succeeds before another is marked gets the status -1,
  -- every other notice keeps its place and content, and the next tab is shown.
  settle_one :
      (id status place other : ℕ) (n : Notice) (r : Reply) (s : State)
      → get_elem? s.noticelist id ≡ some place
      → get_elem? s.heap place ≡ some n
      → succeeded r ≡ true
      → place ≢ other
      → let t = answered (status_changed id) (reply r) (after (mark id status) s) in
        (get_elem? t.heap place ≡ some (record n { status = none }))
        × (get_elem? t.heap other ≡ get_elem? s.heap other)
        × (t.noticelist ≡ s.noticelist)
        × (t.currenttab ≡ id + 1)
  settle_one id status place other n r s e h ok ne =
      let m = marked id status place n s e h in
      let d = settled id place n r (record s { notice = some place }) ok refl h in
      rw (m, d)
        (
          get_elem?-set_self s.heap place (record n { status = none }) n h,
          get_elem?-set_ne s.heap place other (record n { status = none }) ne,
          refl,
          refl,
        )

  -- Two notices are marked before the first answer comes. That answer, about the first, gives the
  -- status -1 to the second, since the global `notice` holds the last one; the first keeps its
  -- status, and the tab behind the first is shown.
  pub settle_raced :
      (id id' status status' place place' : ℕ) (n n' : Notice) (r : Reply) (s : State)
      → get_elem? s.noticelist id ≡ some place
      → get_elem? s.heap place ≡ some n
      → get_elem? s.noticelist id' ≡ some place'
      → get_elem? s.heap place' ≡ some n'
      → succeeded r ≡ true
      → place' ≢ place
      → let t =
          answered
            (status_changed id)
            (reply r)
            (after (mark id' status') (after (mark id status) s)) in
        (get_elem? t.heap place ≡ some n)
        × (get_elem? t.heap place' ≡ some (record n' { status = none }))
        × (t.currenttab ≡ id + 1)
  settle_raced id id' status status' place place' n n' r s e h e' h' ok ne =
      let m = marked id status place n s e h in
      let m' = marked id' status' place' n' (record s { notice = some place }) e' h' in
      let d = settled id place' n' r (record s { notice = some place' }) ok refl h' in
      rw (m, m', d)
        (
          get_elem?-set_ne s.heap place' place (record n' { status = none }) ne ∙ h,
          get_elem?-set_self s.heap place' (record n' { status = none }) n' h',
          refl,
        )
