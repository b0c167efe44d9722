-- ===== src/Memory/Admission.antt =====
-- `enqueue`, `enqueue_many` and `cleanup_terminal` keep the store in order.
use litestar_queues.Memory.Enqueue.{
  initial_status, store, active_by_key, new_record, enqueue, enqueue_one, enqueue_loop,
  enqueue_many, notify_new_tasks,
}
use litestar_queues.Base.{
  All-select_both, ℕ, suc, ◌≡◌, ◌≢◌, sym, ap, ◌∙◌, subst, Bool, true, false, Option, none, some,
  String, Dict, arith, List, [], ◌∷◌, Bool-cases, Option-cases, inl, inr, if◌then◌else◌, get,
  delete, get-delete, nat_eq, string_eq, ◌==◌, eq_of_beq, ne_of_beq, delete-Apart, All, All-take,
  All-sort, All-mono, option_eq, or_else, map, Stored-self, ◌&&◌,
}
use litestar_queues.Models.{QueuedTaskRecord, TaskRequest, is_terminal, is_due, is_waiting}
use litestar_queues.Memory.State.{Memory, notify_new_task}
use litestar_queues.Memory.Dispatch.{take_limit}
use litestar_queues.Memory.Recovery.{
  forget_key, cleanup_loop, cleanup_candidates, cleanup_terminal, is_aged, completed_before,
}
use litestar_queues.Memory.Consistency.{IsConsistent, store-IsConsistent, OwnIds}

-- A wakeup touches nothing else.
signal-IsConsistent :
    (s : Memory) (b : Bool)
    → IsConsistent s
    → IsConsistent (if b then record s { notification_event = true } else s)
signal-IsConsistent s true c = record { apart = c.apart; ids = c.ids; owned = c.owned }
signal-IsConsistent s false c = c

pub enqueue-IsConsistent :
    (s : Memory) (q : TaskRequest) (given : Option ℕ) (fresh now tested seen : ℕ)
    → IsConsistent s
    → IsConsistent (enqueue s q given fresh now tested seen).0
unfolding enqueue notify_new_task
enqueue-IsConsistent s q given fresh now tested seen c =
    elim (Option-cases (active_by_key s q.key)) [
      | inr (x, held) ↦ rw (held, enqueue) c
      | inl free ↦
          rw (free, enqueue) (signal-IsConsistent (store r s) _ (store-IsConsistent s r free c))
    ]
  where
    r : QueuedTaskRecord
    r = new_record q (or_else given fresh) (initial_status q.scheduled_at tested) now

enqueue_one-IsConsistent :
    (now : ℕ) (s : Memory) (q : TaskRequest) (fresh record_now : ℕ)
    → IsConsistent s
    → IsConsistent (enqueue_one now s q fresh record_now).0
unfolding enqueue_one
enqueue_one-IsConsistent now s q fresh record_now c = elim (Option-cases (active_by_key s q.key)) [
  | inr (r, held) ↦ rw (held, enqueue_one) c
  | inl free ↦ rw (free, enqueue_one) (store-IsConsistent s _ free c)
]

enqueue_loop-IsConsistent :
    (now : ℕ) (s : Memory) (qs : List (TaskRequest × ℕ × ℕ))
    → IsConsistent s
    → IsConsistent (enqueue_loop now s qs).0
unfolding enqueue_loop
enqueue_loop-IsConsistent now s [] c = c
enqueue_loop-IsConsistent now s ((q, fresh, record_now) ∷ qs) c =
    enqueue_loop-IsConsistent now (enqueue_one now s q fresh record_now).0 qs
      (enqueue_one-IsConsistent now s q fresh record_now c)

notify_new_tasks-IsConsistent :
    (seen : ℕ → ℕ) (again i : ℕ) (rs : List QueuedTaskRecord) (s : Memory)
    → IsConsistent s
    → IsConsistent (notify_new_tasks seen again i rs s)
unfolding notify_new_tasks
notify_new_tasks-IsConsistent seen again i [] s c = c
notify_new_tasks-IsConsistent seen again i (r ∷ rs) s c =
    elim (Bool-cases (is_waiting r.status && is_due (seen i) r)) [
      | inl due ↦ rw due (signal-IsConsistent s _ c)
      | inr early ↦ rw early (notify_new_tasks-IsConsistent seen again (suc i) rs s c)
    ]

pub enqueue_many-IsConsistent :
    (s : Memory) (qs : List (TaskRequest × ℕ × ℕ)) (now : ℕ) (seen : ℕ → ℕ) (again : ℕ)
    → IsConsistent s
    → IsConsistent (enqueue_many s qs now seen again).0
unfolding enqueue_many
enqueue_many-IsConsistent s [] now seen again c = c
enqueue_many-IsConsistent s (q ∷ qs) now seen again c =
    notify_new_tasks-IsConsistent seen again 0 (enqueue_loop now s (q ∷ qs)).1
      (enqueue_loop now s (q ∷ qs)).0 (enqueue_loop-IsConsistent now s (q ∷ qs) c)

-- The record stored under the id, if there is one, is finished.
abbrev Finished : Memory → QueuedTaskRecord → Type 0
Finished s r = (x : QueuedTaskRecord) → get r.id s.records ≡ some x → is_terminal x ≡ true

forget_key-get :
    (keys : Dict String ℕ) (key : Option String) (id i : ℕ) (k : String)
    → id ≢ i
    → get k keys ≡ some i
    → get k (forget_key key id keys) ≡ some i
unfolding forget_key
forget_key-get keys none id i k n g = g
forget_key-get keys (some j) id i k n g = elim (Bool-cases (get j keys == some id)) [
  | inl mine ↦ rw mine (elim (Bool-cases (j == k)) [
    | inl same ↦ absurd (
        n (
          some_inj (
            sym (eq_of_beq (get j keys) (some id) mine)
            ∙ ap (λ (x : String). get x keys) (eq_of_beq j k same)
            ∙ g)))
    | inr other ↦ rw (get-delete j k keys, other) g
  ])
  | inr theirs ↦ rw theirs g
]
  where
    some_inj : ◌≡◌ {A = Option ℕ} (some id) (some i) → id ≡ i
    some_inj e = cc

-- Deleting a finished record, and its key's entry if it is the record's, keeps the store in order.
cleanup_step-IsConsistent :
    (s : Memory) (r : QueuedTaskRecord)
    → Finished s r
    → IsConsistent s
    → IsConsistent
        (record s { records = delete r.id s.records; keys = forget_key r.key r.id s.keys })
cleanup_step-IsConsistent s r done c = record {
  apart = delete-Apart r.id s.records c.apart;
  ids = λ i x h. c.ids i x (kept i x h).1;
  owned = λ i x k h hk live.
      let (apart, here) = kept i x h in
      forget_key-get s.keys r.key r.id i k apart (c.owned i x k here hk live);
}
  where
    kept :
        (i : ℕ) (x : QueuedTaskRecord)
        → get i (delete r.id s.records) ≡ some x
        → (r.id ≢ i) × (get i s.records ≡ some x)
    kept i x h = elim (Bool-cases (r.id == i)) [
      | inl same ↦ cc (rw (get-delete r.id i s.records, same) at h)
      | inr other ↦ (ne_of_beq r.id i other, rw (get-delete r.id i s.records, other) at h)
    ]

Finished-delete :
    (s : Memory) (r : QueuedTaskRecord) (keys : Dict String ℕ) (rs : List QueuedTaskRecord)
    → All (Finished s) rs
    → All (Finished (record s { records = delete r.id s.records; keys = keys })) rs
Finished-delete s r keys [] h = tt
Finished-delete s r keys (q ∷ rs) h = (
  λ x e. elim (Bool-cases (r.id == q.id)) [
    | inl same ↦ cc (rw (get-delete r.id q.id s.records, same) at e)
    | inr other ↦ h.0 x (rw (get-delete r.id q.id s.records, other) at e)
  ],
  Finished-delete s r keys rs h.1,
)

cleanup_loop-IsConsistent :
    (rs : List QueuedTaskRecord) (s : Memory)
    → All (Finished s) rs
    → IsConsistent s
    → IsConsistent (cleanup_loop rs s)
unfolding cleanup_loop
cleanup_loop-IsConsistent [] s h c = c
cleanup_loop-IsConsistent (r ∷ rs) s h c =
    cleanup_loop-IsConsistent rs _ (Finished-delete s r (forget_key r.key r.id s.keys) rs h.1)
      (cleanup_step-IsConsistent s r h.0 c)

take_limit-All :
    (P : QueuedTaskRecord → Type 0) (limit : Option ℕ) (rs : List QueuedTaskRecord)
    → All P rs
    → All P (take_limit limit rs)
take_limit-All P none rs h = h
take_limit-All P (some n) rs h = All-take P n rs h

values-stored :
    (s : Memory) (es : List (ℕ × QueuedTaskRecord))
    → OwnIds s.records
    → All (λ kv. get kv.0 s.records ≡ some kv.1) es
    → All (λ (r : QueuedTaskRecord). get r.id s.records ≡ some r) (map (λ kv. kv.1) es)
values-stored s [] ids h = tt
values-stored s ((k, r) ∷ es) ids h =
    (subst (λ j. get j s.records ≡ some r) (sym (ids k r h.0)) h.0, values-stored s es ids h.1)

aged-Finished :
    (s : Memory) (before : ℕ) (r : QueuedTaskRecord)
    → get r.id s.records ≡ some r
    → is_aged before r ≡ true
    → Finished s r
unfolding is_aged
aged-Finished s before r here old x h = ground arith

pub cleanup_terminal-IsConsistent :
    (s : Memory) (before : ℕ) (limit : Option ℕ)
    → IsConsistent s
    → IsConsistent (cleanup_terminal s before limit).0
unfolding cleanup_terminal cleanup_candidates
cleanup_terminal-IsConsistent s before limit c =
    cleanup_loop-IsConsistent _ s
      (take_limit-All (Finished s) limit _ (
        All-sort (Finished s) completed_before _ (
          All-mono (λ r. (get r.id s.records ≡ some r) × (is_aged before r ≡ true)) (Finished s) _
            (λ r h. aged-Finished s before r h.0 h.1)
            (All-select_both (λ r. get r.id s.records ≡ some r) (is_aged before)
              (map (λ kv. kv.1) s.records)
              (values-stored s s.records c.ids (Stored-self s.records c.apart))))))
      c
