-- ===== src/Backend/Queue/Laws.antt =====
-- Which hosts of a task come into the queue.
use yulong.Prelude.{
  ◌≡◌, refl, ap, ◌∙◌, inl, inr, Bool, true, false, ◌||◌, List, [], ◌∷◌, ◌++◌, some, map,
  if◌then◌else◌, arith, All, Bool-cases, append-nil, append_assoc,
}
use yulong.Text.{JsString, codes, includes}
use yulong.Text.Laws.{str_eq_iff}
use yulong.Backend.Access.{string_in_slice}
use yulong.Backend.Net.{Net}
use yulong.Backend.Queue.{
  Task, Entry, Surroundings, enable_tags, entry, add_queue, add_hosts, save, task_added, post_reply,
  post_task,
}

-- No host stands twice.
abbrev pub AreDistinct : List JsString → Type 0
AreDistinct [] = Unit
AreDistinct (ip ∷ ips) = (string_in_slice ip ips ≡ false) × AreDistinct ips

-- A host is no range.
abbrev pub IsSingle : JsString → Type 0
IsSingle ip = includes b'-' ip ≡ false

-- The entries that MongoDB inserts.
abbrev pub inserted : (Entry → Bool) → List Entry → List Entry
inserted inserts [] = []
inserted inserts (e ∷ es) = let rest = inserted inserts es in if inserts e then e ∷ rest else rest

string_in_slice-append :
    (a : JsString) (xs ys : List JsString)
    → string_in_slice a (xs ++ ys) ≡ (string_in_slice a xs || string_in_slice a ys)
unfolding string_in_slice
string_in_slice-append a [] ys = refl
string_in_slice-append a (x ∷ xs) ys = ground (arith, string_in_slice-append a xs ys)

-- None of the hosts was added.
abbrev Unseen : List JsString → List JsString → Type 0
Unseen added ips = All (λ ip. string_in_slice ip added ≡ false) ips

Unseen-snoc :
    (ip : JsString) (added ips : List JsString)
    → string_in_slice ip ips ≡ false
    → Unseen added ips
    → Unseen (added ++ ip ∷ []) ips
unfolding string_in_slice
Unseen-snoc ip added [] h k = tt
Unseen-snoc ip added (x ∷ xs) h (k, ks) = (
  ground (arith, string_in_slice-append x added (ip ∷ []), str_eq_iff x ip, str_eq_iff ip x),
  Unseen-snoc ip added xs (ground arith) ks,
)

module _ {Ip : Type 0} (net : Net Ip) (sur : Surroundings) (task : Task) where
  abbrev pub entries : List JsString → List Entry
  entries ips = inserted sur.inserts (map (entry net sur task) ips)

  add_queue-entries :
      (ip : JsString) (ips : List JsString) (queue : List Entry)
      → add_queue net sur task ip queue ++ entries ips ≡ queue ++ entries (ip ∷ ips)
  unfolding add_queue
  add_queue-entries ip ips queue = elim (Bool-cases (sur.inserts (entry net sur task ip))) [
    | inl e ↦ rw e (append_assoc queue (entry net sur task ip ∷ []) (entries ips))
    | inr e ↦ rw e refl
  ]

  -- Hosts that are neither ranges nor repeated are queued, and the loop goes on behind them.
  add_hosts-append :
      (ips rest added : List JsString) (queue : List Entry)
      → AreDistinct ips
      → All IsSingle ips
      → Unseen added ips
      → add_hosts net sur task (ips ++ rest) added queue
        ≡ add_hosts net sur task rest (added ++ ips) (queue ++ entries ips)
  unfolding add_hosts
  add_hosts-append [] rest added queue d h k = rw (append-nil added, append-nil queue) refl
  add_hosts-append (ip ∷ ips) rest added queue (d, ds) (h, hs) (k, ks) =
      let rest_of : add_hosts net sur task (ips ++ rest) (added ++ ip ∷ [])
            (add_queue net sur task ip queue)
          ≡ add_hosts net sur task rest ((added ++ ip ∷ []) ++ ips)
              (add_queue net sur task ip queue ++ entries ips) =
        add_hosts-append ips rest (added ++ ip ∷ []) (add_queue net sur task ip queue) ds hs
          (Unseen-snoc ip added ips d ks) in
      rw (k, h)
        (rest_of
          ∙ ap (λ a. add_hosts net sur task rest a (add_queue net sur task ip queue ++ entries ips))
              (append_assoc added (ip ∷ []) ips)
          ∙ ap (add_hosts net sur task rest (added ++ ip ∷ ips)) (add_queue-entries ip ips queue))

  nothing_seen : (ips : List JsString) → Unseen [] ips
  unfolding string_in_slice
  nothing_seen [] = tt
  nothing_seen (ip ∷ ips) = (refl, nothing_seen ips)

  save-repeated :
      (ips behind : List JsString) (ip : JsString) (queue : List Entry)
      → sur.inserts_task ≡ true
      → enable_tags sur task.host_list ≡ ips ++ ip ∷ behind
      → AreDistinct ips
      → All IsSingle ips
      → string_in_slice ip ips ≡ true
      → save net sur task queue ≡ (some true, queue ++ entries ips)
  unfolding save
  save-repeated ips behind ip queue t e d h k =
      let ended : add_hosts net sur task (ip ∷ behind) ips (queue ++ entries ips)
          ≡ (true, queue ++ entries ips) =
        unfold add_hosts in rw k refl in
      let looped : add_hosts net sur task (ips ++ ip ∷ behind) [] queue
          ≡ (true, queue ++ entries ips) =
        add_hosts-append ips (ip ∷ behind) [] queue d h (nothing_seen ips) ∙ ended in
      rw (t, e, looped) refl

  save-distinct :
      (ips : List JsString) (queue : List Entry)
      → sur.inserts_task ≡ true
      → enable_tags sur task.host_list ≡ ips
      → AreDistinct ips
      → All IsSingle ips
      → save net sur task queue ≡ (some true, queue ++ entries ips)
  unfolding save
  save-distinct ips queue t e d h =
      let ended : add_hosts net sur task [] ips (queue ++ entries ips)
          ≡ (true, queue ++ entries ips) =
        unfold add_hosts in refl in
      let looped : add_hosts net sur task (ips ++ []) [] queue ≡ (true, queue ++ entries ips) =
        add_hosts-append ips [] [] queue d h (nothing_seen ips) ∙ ended in
      let whole : add_hosts net sur task ips [] queue ≡ (true, queue ++ entries ips) =
        rw (append-nil ips) at looped in
      rw (t, e, whole) refl

  save_clients :
      (queue : List Entry)
      → sur.inserts_task ≡ true
      → string_in_slice (codes "all") task.host_list ≡ true
      → AreDistinct sur.all_ips
      → All IsSingle sur.all_ips
      → string_in_slice (codes "windows") sur.all_ips ≡ false
      → string_in_slice (codes "linux") sur.all_ips ≡ false
      → save net sur task queue ≡ (some true, queue ++ entries sur.all_ips)
  save_clients queue t a d h w l = save-distinct sur.all_ips queue t (rw (a, w, l) refl) d h

  -- Where the task is inserted, no address of a client stands twice, has a dash or is a tag, and
  -- "all" is one of the task's hosts, the entries for the clients are queued, one for each but for
  -- those that MongoDB refuses, and nothing else, whatever the other hosts are; the answer is a success.
  pub post_task_clients :
      (queue : List Entry)
      → sur.inserts_task ≡ true
      → string_in_slice (codes "all") task.host_list ≡ true
      → AreDistinct sur.all_ips
      → All IsSingle sur.all_ips
      → string_in_slice (codes "windows") sur.all_ips ≡ false
      → string_in_slice (codes "linux") sur.all_ips ≡ false
      → post_task net sur (some task) queue ≡ (some task_added, queue ++ entries sur.all_ips)
  unfolding post_task
  post_task_clients queue t a d h w l = ap post_reply (save_clients queue t a d h w l)

  -- Where the task is inserted and, its tags replaced, a host stands behind hosts that are neither
  -- ranges nor repeated and it is one of, the entries for those are queued but for the refused ones,
  -- nothing is queued for any host behind it, and the answer is a success.
  pub post_task-repeated :
      (ips behind : List JsString) (ip : JsString) (queue : List Entry)
      → sur.inserts_task ≡ true
      → enable_tags sur task.host_list ≡ ips ++ ip ∷ behind
      → AreDistinct ips
      → All IsSingle ips
      → string_in_slice ip ips ≡ true
      → post_task net sur (some task) queue ≡ (some task_added, queue ++ entries ips)
  unfolding post_task
  post_task-repeated ips behind ip queue t e d h k =
      ap post_reply (save-repeated ips behind ip queue t e d h k)
