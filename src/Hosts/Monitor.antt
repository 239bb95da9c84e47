-- ===== src/Hosts/Monitor.antt =====
-- The window with a host's events: no event is shown twice, and one timer runs at most.
use yulong.Prelude.{
  ◌≡◌, refl, ◌∙◌, sym, ap, ◌⊎◌, inl, inr, true, false, List, [], ◌∷◌, ◌++◌, Option, none, some,
  arith, if◌then◌else◌, Bool-cases, reverse, map, ==_refl,
}
use mathlib.Core.List.{reverse-append}
use yulong.Text.{JsString}
use yulong.Text.Laws.{str_eq_iff}
use yulong.Hosts.{
  Event, Wait, hosts_loaded, filter_typed, first_events, later_events, State, clear_interval, id_eq,
  has_id, append_event, inherited, append_events, monitor_append, Action, show, close_monitor,
  Answer, loaded, typed, events, act, filter_answer, answer,
}

id_eq_sym : (i j : Option JsString) → id_eq i j ≡ id_eq j i
id_eq_sym none none = refl
id_eq_sym none (some b) = refl
id_eq_sym (some a) none = refl
id_eq_sym (some a) (some b) = ground (arith, str_eq_iff a b, str_eq_iff b a)

abbrev pub IsDistinct : List (Option JsString) → Type 0
IsDistinct [] = Unit
IsDistinct (i ∷ is) = (has_id i is ≡ false) × IsDistinct is

has_id-append :
    (i j : Option JsString) (is : List (Option JsString))
    → has_id i (is ++ j ∷ []) ≡ (if has_id i is then true else id_eq j i)
has_id-append i j [] = ground arith
has_id-append i j (k ∷ is) = ground (arith, has_id-append i j is)

IsDistinct-append :
    (j : Option JsString) (is : List (Option JsString))
    → has_id j is ≡ false
    → IsDistinct is
    → IsDistinct (is ++ j ∷ [])
IsDistinct-append j [] h d = (refl, tt)
IsDistinct-append j (i ∷ is) h (p, d) =
    (has_id-append i j is ∙ ground (arith, id_eq_sym i j), IsDistinct-append j is (ground arith) d)

-- The shown entries are those of the remembered identifiers, the last first, each once; the timer
-- of the state is the only one that may run.
pub record IsConsistent (s : State) : Type 0 where
  pub distinct : IsDistinct s.has_show_ids
  pub remembered : map (λ e. e.id) s.shown ≡ reverse s.has_show_ids
  pub one_timer : (s.intervals ≡ []) ⊎ (s.intervals ≡ s.timer ∷ [])

append_event-IsConsistent :
    (e : Event) (s : State) → IsConsistent s → IsConsistent (append_event e s)
unfolding append_event
append_event-IsConsistent e s v = elim (Bool-cases (has_id e.id s.has_show_ids)) [
  | inl h ↦ rw (append_event, h) v
  | inr h ↦
      rw (append_event, h)
        (record {
          distinct = IsDistinct-append e.id s.has_show_ids h v.distinct;
          remembered = ap (e.id ∷◌) v.remembered ∙ sym (reverse-append s.has_show_ids (e.id ∷ []));
          one_timer = v.one_timer;
        })
]

append_events-IsConsistent :
    (es : List Event) (s : State) → IsConsistent s → IsConsistent (append_events es s)
unfolding append_events
append_events-IsConsistent [] s v = append_event-IsConsistent inherited s v
append_events-IsConsistent (e ∷ es) s v =
    append_events-IsConsistent es (append_event e s) (append_event-IsConsistent e s v)

monitor_append-IsConsistent :
    (es : Option (List Event)) (s : State) → IsConsistent s → IsConsistent (monitor_append es s)
unfolding monitor_append
monitor_append-IsConsistent none s v = v
monitor_append-IsConsistent (some es) s v = append_events-IsConsistent es s v

clear_interval-nil :
    (s : State)
    → (s.intervals ≡ []) ⊎ (s.intervals ≡ s.timer ∷ [])
    → clear_interval s.timer s.intervals ≡ []
clear_interval-nil s (inl e) = rw e refl
clear_interval-nil s (inr e) = rw e (rw (==_refl s.timer) refl)

-- The parts of the state that the invariant reads.
same-IsConsistent :
    (s t : State)
    → t.has_show_ids ≡ s.has_show_ids
    → t.shown ≡ s.shown
    → t.timer ≡ s.timer
    → t.intervals ≡ s.intervals
    → IsConsistent s
    → IsConsistent t
same-IsConsistent s t a b c d v = record {
  distinct = rw a v.distinct;
  remembered = rw (a, b) v.remembered;
  one_timer = rw (c, d) v.one_timer;
}

module _ (anchor_hash : JsString → JsString) (client_url : JsString) where
  act-IsConsistent :
      (a : Action) (s : State) → IsConsistent s → IsConsistent (act anchor_hash client_url a s).0
  unfolding act
  act-IsConsistent (show ip fresh) s v = record {
    distinct = tt;
    remembered = refl;
    one_timer = inr (ap (fresh ∷◌) (clear_interval-nil s v.one_timer));
  }
  act-IsConsistent close_monitor s v = record {
    distinct = v.distinct;
    remembered = v.remembered;
    one_timer = inl (clear_interval-nil s v.one_timer);
  }
  act-IsConsistent a s v =
      same-IsConsistent s (act anchor_hash client_url a s).0 refl refl refl refl v

  filter_answer-IsConsistent :
      (p : Option JsString) (s : State)
      → IsConsistent s
      → IsConsistent (filter_answer anchor_hash client_url p s).0
  unfolding filter_answer
  filter_answer-IsConsistent none s v =
      same-IsConsistent s (filter_answer anchor_hash client_url none s).0 refl refl refl refl v
  filter_answer-IsConsistent (some []) s v =
      same-IsConsistent s (filter_answer anchor_hash client_url (some []) s).0 refl refl refl refl v
  filter_answer-IsConsistent (some (c ∷ p)) s v =
      same-IsConsistent s (filter_answer anchor_hash client_url (some (c ∷ p)) s).0 refl refl refl
        refl v

  answer-IsConsistent :
      (w : Wait) (a : Answer) (s : State)
      → IsConsistent s
      → IsConsistent (answer anchor_hash client_url w a s).0
  unfolding answer
  answer-IsConsistent filter_typed (typed p) s v = filter_answer-IsConsistent p s v
  answer-IsConsistent first_events (events none) s v = v
  answer-IsConsistent first_events (events (some es)) s v =
      monitor_append-IsConsistent (some (reverse es)) s v
  answer-IsConsistent later_events (events es) s v = monitor_append-IsConsistent es s v
  answer-IsConsistent hosts_loaded (loaded none) s v = v
  answer-IsConsistent hosts_loaded (loaded (some hs)) s v =
      same-IsConsistent s (answer anchor_hash client_url hosts_loaded (loaded (some hs)) s).0 refl
        refl refl refl v
  answer-IsConsistent w a s v = v

  -- The states that the user's actions and the browser's answers lead to, in any order.
  pub data Reach (s : State) : State → Type 0 where
    here : Reach s s
    acted : {t : State} (a : Action) → Reach s t → Reach s (act anchor_hash client_url a t).0
    answered :
        {t : State} (w : Wait) (a : Answer)
        → Reach s t
        → Reach s (answer anchor_hash client_url w a t).0

  -- Whatever the user does and in whatever order the answers and the timer's ticks come, no
  -- identifier is shown twice, the entries are those of the remembered identifiers, and no timer
  -- but the state's own is running.
  pub Reach-IsConsistent : {s t : State} → IsConsistent s → Reach s t → IsConsistent t
  Reach-IsConsistent v here = v
  Reach-IsConsistent v (acted {t} a r) = act-IsConsistent a t (Reach-IsConsistent v r)
  Reach-IsConsistent v (answered {t} w a r) = answer-IsConsistent w a t (Reach-IsConsistent v r)

  -- Closing the window stops every timer.
  pub close_monitor-intervals :
      {s t : State}
      → IsConsistent s
      → Reach s t
      → (act anchor_hash client_url close_monitor t).0.intervals ≡ []
  unfolding act
  close_monitor-intervals {t} v r = clear_interval-nil t (Reach-IsConsistent v r).one_timer
