-- ===== src/Memory/Fences.antt =====
-- The retry count as a fence: once an attempt is settled or has left `running`, no later call of its
-- worker changes anything.
pub mod Once
use litestar_queues.Base.{
  suc, ℕ, ◌+◌, ◌≤◌, ◌<◌, ◌≡◌, ◌≢◌, ◌⊎◌, refl, sym, ap, ◌∙◌, subst, Bool, true, false, not, Option,
  none, some, String, List, [], ◌∷◌, Dict, arith, Bool-cases, Option-cases, inl, inr, if◌then◌else◌,
  get, insert, delete, get-insert, get-insert_self, get-delete, nat_eq, ◌==◌, eq_of_beq, ◌&&◌, ◌||◌,
  or_else, All, option_eq, string_eq,
}
use litestar_queues.Models.{
  Value, Floats, QueuedTaskRecord, TaskRequest, is_terminal, is_terminal_status, is_running,
  is_waiting,
}
use litestar_queues.Memory.State.{Memory, Effect, keep, write, on_record, notify_new_task}
use litestar_queues.Memory.Enqueue.{
  store, enqueue, enqueue_one, enqueue_loop, enqueue_many, notify_new_tasks, active_by_key,
  new_record, initial_status,
}
use litestar_queues.Memory.Recovery.{cleanup_loop, cleanup_terminal, cleanup_candidates}
use litestar_queues.Memory.Settle.{
  is_fenced_off, complete_record, complete_task, fail_record, fail_task, retry_record,
  interrupt_record, interrupt_task, interrupted_record,
}
use litestar_queues.Memory.Evolution.{Moves, Evolves, Related}
use litestar_queues.Memory.Consistency.{IsConsistent}
use litestar_queues.Memory.Changes.{Changes}
use litestar_queues.Memory.Calls.{
  Setting, Call, enqueues, enqueues_many, cleans, perform, Calm, run, CalmRun, Avoids,
}
use litestar_queues.Memory.History.{perform-Changes, perform-IsConsistent}

-- The attempt with retry count `n` is over.
abbrev pub Past : ℕ → QueuedTaskRecord → Type 0
Past n r = (n < r.retry_count) ⊎ (is_terminal r ≡ true)

abbrev pub PastAt : ℕ → ℕ → Dict ℕ QueuedTaskRecord → Type 0
PastAt n i d = (r : QueuedTaskRecord) → get i d ≡ some r → Past n r

Moves-Past : (n : ℕ) (r r' : QueuedTaskRecord) → Moves r r' → Past n r → Past n r'
Moves-Past n r r' m (inl h) = inl (omega (arith, m.retries))
Moves-Past n r r' m (inr h) = inr (ap is_terminal_status (m.frozen h) ∙ h)

Related-Past :
    (n : ℕ) (a : Option QueuedTaskRecord) (r' : QueuedTaskRecord)
    → Related Moves a (some r')
    → ((r : QueuedTaskRecord) → a ≡ some r → Past n r)
    → Past n r'
Related-Past n none r' m p = absurd m
Related-Past n (some r) r' m p = Moves-Past n r r' m (p r refl)

Evolves-PastAt :
    (n i : ℕ) (d d' : Dict ℕ QueuedTaskRecord) → Evolves Moves d d' → PastAt n i d → PastAt n i d'
Evolves-PastAt n i d d' f p r' h =
    Related-Past n (get i d) r' (subst (Related Moves (get i d)) h (f i)) p

insert-PastAt :
    (n i j : ℕ) (q : QueuedTaskRecord) (d : Dict ℕ QueuedTaskRecord)
    → j ≢ i
    → PastAt n i d
    → PastAt n i (insert j q d)
insert-PastAt n i j q d ne p r h = elim (Bool-cases (j == i)) [
  | inl same ↦ absurd (ne (eq_of_beq j i same))
  | inr other ↦ p r (rw (get-insert j i q d, other) at h)
]

delete-PastAt : (n i j : ℕ) (d : Dict ℕ QueuedTaskRecord) → PastAt n i d → PastAt n i (delete j d)
delete-PastAt n i j d p r h = elim (Bool-cases (j == i)) [
  | inl same ↦ cc (rw (get-delete j i d, same) at h)
  | inr other ↦ p r (rw (get-delete j i d, other) at h)
]

cleanup_loop-PastAt :
    (n i : ℕ) (rs : List QueuedTaskRecord) (s : Memory)
    → PastAt n i s.records
    → PastAt n i (cleanup_loop rs s).records
unfolding cleanup_loop
cleanup_loop-PastAt n i [] s p = p
cleanup_loop-PastAt n i (r ∷ rs) s p =
    cleanup_loop-PastAt n i rs _ (delete-PastAt n i r.id s.records p)

signal-PastAt :
    (n i : ℕ) (b : Bool) (s : Memory)
    → PastAt n i s.records
    → PastAt n i (if b then record s { notification_event = true } else s).records
signal-PastAt n i true s p = p
signal-PastAt n i false s p = p

enqueue_one-PastAt :
    (n i now : ℕ) (s : Memory) (q : TaskRequest) (fresh record_now : ℕ)
    → fresh ≢ i
    → PastAt n i s.records
    → PastAt n i (enqueue_one now s q fresh record_now).0.records
unfolding enqueue_one store new_record
enqueue_one-PastAt n i now s q fresh record_now ne p = elim (Option-cases (active_by_key s q.key)) [
  | inr (x, held) ↦ rw (held, enqueue_one) p
  | inl free ↦ rw (free, enqueue_one) (insert-PastAt n i fresh _ s.records ne p)
]

enqueue_loop-PastAt :
    (n i now : ℕ) (s : Memory) (qs : List (TaskRequest × ℕ × ℕ))
    → All (λ q. q.1 ≢ i) qs
    → PastAt n i s.records
    → PastAt n i (enqueue_loop now s qs).0.records
unfolding enqueue_loop
enqueue_loop-PastAt n i now s [] ne p = p
enqueue_loop-PastAt n i now s ((q, fresh, record_now) ∷ qs) ne p =
    enqueue_loop-PastAt n i now (enqueue_one now s q fresh record_now).0 qs ne.1
      (enqueue_one-PastAt n i now s q fresh record_now ne.0 p)

notify_new_tasks-records :
    (seen : ℕ → ℕ) (again i : ℕ) (rs : List QueuedTaskRecord) (s : Memory)
    → (notify_new_tasks seen again i rs s).records ≡ s.records
unfolding notify_new_tasks
notify_new_tasks-records seen again i [] s = refl
notify_new_tasks-records seen again i (r ∷ rs) s =
    ground (arith, notify_new_tasks-records seen again (suc i) rs s)

enqueue-PastAt :
    (n i : ℕ) (s : Memory) (q : TaskRequest) (given : Option ℕ) (fresh now tested seen : ℕ)
    → or_else given fresh ≢ i
    → PastAt n i s.records
    → PastAt n i (enqueue s q given fresh now tested seen).0.records
unfolding enqueue store new_record notify_new_task
enqueue-PastAt n i s q given fresh now tested seen ne p =
    elim (Option-cases (active_by_key s q.key)) [
      | inr (x, held) ↦ rw (held, enqueue) p
      | inl free ↦
          rw (free, enqueue)
            (signal-PastAt n i _
              (store (new_record q (or_else given fresh) (initial_status q.scheduled_at tested) now)
                s)
              (insert-PastAt n i (or_else given fresh) _ s.records ne p))
    ]

enqueue_many-PastAt :
    (n i : ℕ) (s : Memory) (qs : List (TaskRequest × ℕ × ℕ)) (now : ℕ) (seen : ℕ → ℕ) (again : ℕ)
    → All (λ q. q.1 ≢ i) qs
    → PastAt n i s.records
    → PastAt n i (enqueue_many s qs now seen again).0.records
enqueue_many-PastAt n i s [] now seen again ne p = unfold enqueue_many in p
enqueue_many-PastAt n i s (q ∷ qs) now seen again ne p =
    subst (PastAt n i) (sym same) (enqueue_loop-PastAt n i now s (q ∷ qs) ne p)
  where
    same :
        (enqueue_many s (q ∷ qs) now seen again).0.records ≡ (enqueue_loop now s (q ∷ qs)).0.records
    same =
        unfold enqueue_many in
        notify_new_tasks-records seen again 0 (enqueue_loop now s (q ∷ qs)).1
          (enqueue_loop now s (q ∷ qs)).0

-- A call that creates no record under the id leaves a finished attempt finished.
perform-PastAt :
    (e : Setting) (n i : ℕ) (c : Call) (s : Memory)
    → Calm e c s
    → Avoids i c
    → IsConsistent s
    → PastAt n i s.records
    → PastAt n i (perform e c s).records
unfolding cleanup_terminal
perform-PastAt e n i (enqueues q given fresh now tested seen) s h av c p =
    enqueue-PastAt n i s q given fresh now tested seen av p
perform-PastAt e n i (enqueues_many qs now seen again) s h av c p =
    enqueue_many-PastAt n i s qs now seen again av p
perform-PastAt e n i (cleans before limit) s h av c p =
    cleanup_loop-PastAt n i (cleanup_candidates before limit s) s p
perform-PastAt e n i other s h av c p =
    Evolves-PastAt n i s.records (perform e other s).records
      (perform-Changes e other s tt h c.apart).moves p

pub run-PastAt :
    (e : Setting) (n i : ℕ) (cs : List Call) (s : Memory)
    → CalmRun e cs s
    → All (Avoids i) cs
    → IsConsistent s
    → PastAt n i s.records
    → PastAt n i (run e cs s).records
run-PastAt e n i [] s h av c p = p
run-PastAt e n i (x ∷ cs) s h av c p =
    run-PastAt e n i cs (perform e x s) h.1 av.1 (perform-IsConsistent e x s h.0 c)
      (perform-PastAt e n i x s h.0 av.0 c p)

-- The fenced calls by which a worker ends its attempt.
pub data Settlement : Type 0 where
  completing : ℕ → Value → Settlement
  failing : ℕ → String → Bool → (retry_at queued_at : Option ℕ) → Settlement
  interrupting : String → ℕ → Settlement

abbrev pub settle : Setting → Settlement → Memory → ℕ → ℕ → Memory × Option QueuedTaskRecord
settle e (completing now v) s i n = complete_task s i now v (some n)
settle e (failing now error retry retry_at queued_at) s i n =
    fail_task s e.floats i now error retry (some n) retry_at queued_at
settle e (interrupting worker_id queued_at) s i n =
    interrupt_task s e.floats i n worker_id queued_at

abbrev pub settlement_of :
    Setting → Settlement → ℕ → QueuedTaskRecord → Effect (Option QueuedTaskRecord)
settlement_of e (completing now v) n = complete_record now v (some n)
settlement_of e (failing now error retry retry_at queued_at) n =
    fail_record e.floats now error retry (some n) retry_at queued_at
settlement_of e (interrupting worker_id queued_at) n =
    interrupt_record e.floats n worker_id queued_at

pub settle-on_record :
    (e : Setting) (x : Settlement) (s : Memory) (i n : ℕ)
    → settle e x s i n ≡ on_record s i none (settlement_of e x n)
settle-on_record e (completing now v) s i n = unfold complete_task in refl
settle-on_record e (failing now error retry retry_at queued_at) s i n = unfold fail_task in refl
settle-on_record e (interrupting worker_id queued_at) s i n = unfold interrupt_task in refl

-- A finished attempt cannot be settled.
pub settlement-refused :
    (e : Setting) (x : Settlement) (n : ℕ) (r : QueuedTaskRecord)
    → Past n r
    → settlement_of e x n r ≡ keep none
unfolding complete_record fail_record interrupt_record is_fenced_off
settlement-refused e (completing now v) n r p = ground arith
settlement-refused e (failing now error retry retry_at queued_at) n r p = ground arith
settlement-refused e (interrupting worker_id queued_at) n r p = ground arith

-- What a settlement writes has finished its attempt.
abbrev pub Ends : ℕ → Effect (Option QueuedTaskRecord) → Type 0
Ends n (keep a) = a ≡ none
Ends n (write r a) = Past n r

pub settlement-Ends :
    (e : Setting) (x : Settlement) (n : ℕ) (r : QueuedTaskRecord) → Ends n (settlement_of e x n r)
unfolding complete_record fail_record interrupt_record is_fenced_off retry_record interrupted_record
settlement-Ends e (completing now v) n r = ground arith
settlement-Ends e (failing now error retry retry_at queued_at) n r = ground arith
settlement-Ends e (interrupting worker_id queued_at) n r = ground arith
