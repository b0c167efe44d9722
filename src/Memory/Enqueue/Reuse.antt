-- ===== src/Memory/Enqueue/Reuse.antt =====
-- Deduplication: what an enqueue with a key leaves behind.
use litestar_queues.Base.{
  ℕ, ◌≡◌, refl, sym, true, false, Option, none, some, String, arith, get, get-insert_self, nat_eq,
  string_eq, Option-cases, inl, inr, or_else, if◌then◌else◌, ◌&&◌, subst, none_or, leb,
}
use litestar_queues.Models.{QueuedTaskRecord, TaskRequest, is_terminal, is_due, is_waiting}
use litestar_queues.Memory.State.{Memory, notify_new_task}
use litestar_queues.Memory.Enqueue.{
  get_task_by_key, active_by_key, if_active, initial_status, new_record, store, enqueue,
}
use litestar_queues.Memory.Queries.{wait_for_wakeups}

if_active-some :
    (a : Option QueuedTaskRecord) (r : QueuedTaskRecord)
    → if_active a ≡ some r
    → (a ≡ some r) × (is_terminal r ≡ false)
if_active-some none r h = cc h
if_active-some (some q) r h = ground arith

-- The key's entry names the record `r`, and `r` is not finished.
abbrev Holds : Memory → String → QueuedTaskRecord → Type 0
Holds s k r =
    (i : ℕ) × (get k s.keys ≡ some i) × (get i s.records ≡ some r) × (is_terminal r ≡ false)

Holds-found :
    (s : Memory) (k : String) (r : QueuedTaskRecord) → Holds s k r → get_task_by_key s k ≡ some r
unfolding get_task_by_key
Holds-found s k r (i, named, here, live) = rw (named, get_task_by_key) here

Holds-active :
    (s : Memory) (k : String) (r : QueuedTaskRecord)
    → Holds s k r
    → active_by_key s (some k) ≡ some r
unfolding active_by_key
Holds-active s k r (i, named, here, live) =
    rw (Holds-found s k r (i, named, here, live)) (rw live refl)

Holds-of_active :
    (s : Memory) (k : String) (r : QueuedTaskRecord)
    → active_by_key s (some k) ≡ some r
    → Holds s k r
unfolding active_by_key get_task_by_key
Holds-of_active s k r h = elim (Option-cases (get k s.keys)) [
  | inl e ↦ cc (rw (e, active_by_key, get_task_by_key) at h)
  | inr (i, e) ↦
      let both = if_active-some (get i s.records) r (rw (e, active_by_key, get_task_by_key) at h) in
      (i, e, both.0, both.1)
]

store-Holds :
    (s : Memory) (k : String) (r : QueuedTaskRecord)
    → r.key ≡ some k
    → is_terminal r ≡ false
    → Holds (store r s) k r
unfolding store
store-Holds s k r h live =
    (r.id, rw h (get-insert_self k r.id s.keys), get-insert_self r.id r s.records, live)

notify-Holds :
    (seen : ℕ) (q : QueuedTaskRecord) (s : Memory) (k : String) (r : QueuedTaskRecord)
    → Holds s k r
    → Holds (notify_new_task seen q s) k r
unfolding notify_new_task
notify-Holds seen q s k r h =
    elim (is_waiting q.status && is_due seen q)
      as (λ b. Holds (if b then record s { notification_event = true } else s) k r) [
        | true ↦ h
        | false ↦ h
      ]

new_record-live :
    (q : TaskRequest) (id tested now : ℕ)
    → is_terminal (new_record q id (initial_status q.scheduled_at tested) now) ≡ false
unfolding new_record initial_status
new_record-live q id tested now = ground arith

enqueue-taken :
    (s : Memory) (q : TaskRequest) (given : Option ℕ) (fresh now tested seen : ℕ)
    (r : QueuedTaskRecord)
    → active_by_key s q.key ≡ some r
    → enqueue s q given fresh now tested seen ≡ (s, r)
unfolding enqueue
enqueue-taken s q given fresh now tested seen r h = rw (h, enqueue) refl

enqueue-vacant :
    (s : Memory) (q : TaskRequest) (given : Option ℕ) (fresh now tested seen : ℕ)
    → active_by_key s q.key ≡ none
    → let r = new_record q (or_else given fresh) (initial_status q.scheduled_at tested) now in
      enqueue s q given fresh now tested seen ≡ (notify_new_task seen r (store r s), r)
unfolding enqueue
enqueue-vacant s q given fresh now tested seen h = rw (h, enqueue) refl

enqueue-Holds :
    (s : Memory) (q : TaskRequest) (given : Option ℕ) (fresh now tested seen : ℕ) (k : String)
    → q.key ≡ some k
    → let x = enqueue s q given fresh now tested seen in Holds x.0 k x.1
unfolding new_record
enqueue-Holds s q given fresh now tested seen k h = elim (Option-cases (active_by_key s q.key)) [
  | inl vacant ↦
      subst (λ (x : Memory × QueuedTaskRecord). Holds x.0 k x.1)
        (sym (enqueue-vacant s q given fresh now tested seen vacant))
        (notify-Holds seen _ _ k _
          (store-Holds s k _ h (new_record-live q (or_else given fresh) tested now)))
  | inr (r, taken) ↦
      subst (λ (x : Memory × QueuedTaskRecord). Holds x.0 k x.1)
        (sym (enqueue-taken s q given fresh now tested seen r taken))
        (Holds-of_active s k r (subst (λ x. active_by_key s x ≡ some r) h taken))
]

-- Enqueueing with a key returns an unfinished record, which is then the one that the key finds, and a further
-- enqueue with the key creates nothing: it returns this record and leaves the state as it is.
pub enqueue_deduplicates :
    (s : Memory) (q q' : TaskRequest) (given given' : Option ℕ)
    (fresh now tested seen fresh' now' tested' seen' : ℕ) (k : String)
    → q.key ≡ some k
    → q'.key ≡ some k
    → let (t, r) = enqueue s q given fresh now tested seen in
      (is_terminal r ≡ false)
      × (get_task_by_key t k ≡ some r)
      × (enqueue t q' given' fresh' now' tested' seen' ≡ (t, r))
enqueue_deduplicates s q q' given given' fresh now tested seen fresh' now' tested' seen' k h h' =
    let x = enqueue s q given fresh now tested seen in
    let held = enqueue-Holds s q given fresh now tested seen k h in
    let (i, named, here, live) = held in
    (
      live,
      Holds-found x.0 k x.1 held,
      enqueue-taken x.0 q' given' fresh' now' tested' seen' x.1
          (rw h' (Holds-active x.0 k x.1 held)),
    )

new_record-signals :
    (s : Memory) (q : TaskRequest) (id tested now seen : ℕ)
    → none_or q.scheduled_at (λ at. leb at seen) ≡ true
    → let r = new_record q id (initial_status q.scheduled_at tested) now in
      (wait_for_wakeups (notify_new_task seen r (store r s)) false false).1 ≡ true
unfolding notify_new_task new_record initial_status is_due wait_for_wakeups
new_record-signals s q id tested now seen due = rw due (ground arith)

-- An enqueue that stores a record which is due wakes a worker: the next wait returns at once with a wakeup,
-- if no retained read is pending.
pub enqueue_wakes :
    (s : Memory) (q : TaskRequest) (given : Option ℕ) (fresh now tested seen : ℕ)
    → active_by_key s q.key ≡ none
    → none_or q.scheduled_at (λ at. leb at seen) ≡ true
    → (wait_for_wakeups (enqueue s q given fresh now tested seen).0 false false).1 ≡ true
enqueue_wakes s q given fresh now tested seen vacant due =
    rw (enqueue-vacant s q given fresh now tested seen vacant)
      (new_record-signals s q (or_else given fresh) tested now seen due)
