-- ===== src/Memory/History.antt =====
-- What holds after any history of calls.
use litestar_queues.Memory.Enqueue.{get_task}
use litestar_queues.Base.{
  ℕ, ◌≡◌, refl, false, Option, some, List, [], ◌∷◌, Dict, ℤ, String, Apart, SameKeys-Apart,
  Bool-cases, inl, inr, ◌==◌, nat_eq,
}
use litestar_queues.Models.{QueuedTaskRecord, is_terminal}
use litestar_queues.Memory.State.{Memory, new_memory}
use litestar_queues.Memory.Claim.{claim_many_with_expired}
use litestar_queues.Memory.Claim.Batch.{claim_many_with_expired-Evolves}
use litestar_queues.Memory.Settle.{cancel_tasks, touch_heartbeats, null_heartbeats}
use litestar_queues.Memory.Settle.Heartbeats.{touch_heartbeats-Evolves}
use litestar_queues.Memory.Dispatch.{list_dispatch_repair_candidates}
use litestar_queues.Memory.Recovery.{expire_overdue}
use litestar_queues.Memory.Sweeps.{
  cancel_tasks-Evolves, null_heartbeats-Evolves, expire_overdue-Evolves,
}
use litestar_queues.Memory.Shape.{
  claim_many_with_expired-Apart, cancel_loop-SameKeys, null_loop-SameKeys, expire_loop-SameKeys,
  mark_checked-Apart, touch_loop-Apart, touch_loop-keys,
}
use litestar_queues.Memory.Lifecycle.{
  assign_worker-Changes, claim_task_with_expired-Changes, complete_task-Changes, fail_task-Changes,
  cancel_task-Changes, interrupt_task-Changes,
}
use litestar_queues.Memory.Dispatch.Lifecycle.{
  reserve_scheduled_execution_ref-Changes, reserve_external_dispatch-Changes,
  clear_execution_ref-Changes, replace_execution_ref-Changes, release_external_dispatch-Changes,
  finalize_external_dispatch-Changes, set_execution_ref-Changes, set_execution_backend-Changes,
  list_dispatch_repair_candidates-Evolves,
}
use litestar_queues.Memory.Recovery.Lifecycle.{requeue_stale_running-Changes}
use litestar_queues.Memory.Consistency.{IsConsistent, new_memory-IsConsistent, active_unique}
use litestar_queues.Memory.Admission.{
  enqueue-IsConsistent, enqueue_many-IsConsistent, cleanup_terminal-IsConsistent,
}
use litestar_queues.Memory.Changes.{Changes, Changes-IsConsistent}
use litestar_queues.Memory.Calls.{
  Setting, Call, enqueues, enqueues_many, cleans, assigns, claims, claims_many, completes, fails,
  cancels, cancels_many, interrupts, touches, nulls, recovers, expires, repairs, reserves_scheduled,
  reserves, clears, replaces, releases, finalizes, sets_ref, sets_backend, perform, Calm, run,
  CalmRun,
}

claims_many-Changes :
    (s : Memory) (now limit : ℕ) (queues : List String) (backend : Option String)
    (queue_limits : Dict String ℤ)
    → Apart s.records
    → Changes s (claim_many_with_expired s now limit queues backend queue_limits).0
claims_many-Changes s now limit queues backend queue_limits a = record {
  moves = claim_many_with_expired-Evolves s now limit queues backend queue_limits a;
  apart = claim_many_with_expired-Apart s now limit queues backend queue_limits a;
  keys = keys;
}
  where
    keys : (claim_many_with_expired s now limit queues backend queue_limits).0.keys ≡ s.keys
    keys = elim (Bool-cases (limit == 0)) [
      | inl z ↦ unfold claim_many_with_expired in rw z
      | inr p ↦ unfold claim_many_with_expired in rw p
    ]

repairs-Changes :
    (s : Memory) (now : ℕ) (backend : String) (limit : ℕ)
    → Apart s.records
    → Changes s (list_dispatch_repair_candidates s now backend limit).0
unfolding list_dispatch_repair_candidates
repairs-Changes s now backend limit a = record {
  moves = list_dispatch_repair_candidates-Evolves s now backend limit a;
  apart = elim (Bool-cases (limit == 0)) [
    | inl z ↦ rw z a
    | inr p ↦ rw p (mark_checked-Apart now _ s.records a)
  ];
  keys = elim (Bool-cases (limit == 0)) [ inl z ↦ rw z | inr p ↦ rw p ];
}

abbrev pub Existing : Call → Type 0
Existing (enqueues q given fresh now tested seen) = ⊥
Existing (enqueues_many qs now seen again) = ⊥
Existing (cleans before limit) = ⊥
Existing _ = Unit

-- Every call that neither enqueues nor cleans up, on a store without double keys, with a retry count in
-- `complete_task` and `fail_task`, and with no error in a stale recovery, keeps each record and its deduplication entries: the id and the key stay, the retry count never
-- falls, a terminal status is final, and a record leaves `running` for the queue only under a higher count.
pub perform-Changes :
    (e : Setting) (c : Call) (s : Memory)
    → Existing c
    → Calm e c s
    → Apart s.records
    → Changes s (perform e c s)
unfolding cancel_tasks null_heartbeats expire_overdue touch_heartbeats
perform-Changes e (enqueues q given fresh now tested seen) s x h a = absurd x
perform-Changes e (enqueues_many qs now seen again) s x h a = absurd x
perform-Changes e (cleans before limit) s x h a = absurd x
perform-Changes e (assigns i worker_id n) s x h a = assign_worker-Changes s i a worker_id n
perform-Changes e (claims i due now n ref) s x h a =
    claim_task_with_expired-Changes s i a due now n ref
perform-Changes e (claims_many now limit queues backend queue_limits) s x h a =
    claims_many-Changes s now limit queues backend queue_limits a
perform-Changes e (completes i now v n) s x h a = complete_task-Changes s i a now n v
perform-Changes e (fails i now error retry n retry_at queued_at) s x h a =
    fail_task-Changes s i a e.floats now n error retry retry_at queued_at
perform-Changes e (cancels i now include_running n) s x h a =
    cancel_task-Changes s i a now include_running n
perform-Changes e (cancels_many f clock) s x h a = record {
  moves = cancel_tasks-Evolves s e.same f clock;
  apart = SameKeys-Apart s.records _ (cancel_loop-SameKeys e.same f clock s.records) a;
  keys = refl;
}
perform-Changes e (interrupts i n worker_id queued_at) s x h a =
    interrupt_task-Changes s i a e.floats n worker_id queued_at
perform-Changes e (touches now ts) s x h a = record {
  moves = touch_heartbeats-Evolves s now ts;
  apart = touch_loop-Apart now s ts _ a;
  keys = touch_loop-keys now s ts _;
}
perform-Changes e (nulls is n) s x h a = record {
  moves = null_heartbeats-Evolves s is n;
  apart = SameKeys-Apart s.records _ (null_loop-SameKeys is n s.records) a;
  keys = refl;
}
perform-Changes e (recovers now stale_after limit clock) s x h a =
    requeue_stale_running-Changes s e.floats e.policy now stale_after limit clock a h
perform-Changes e (expires now limit) s x h a = record {
  moves = expire_overdue-Evolves s now limit;
  apart = SameKeys-Apart s.records _ (expire_loop-SameKeys now limit 0 s.records) a;
  keys = refl;
}
perform-Changes e (repairs now backend limit) s x h a = repairs-Changes s now backend limit a
perform-Changes e (reserves_scheduled i now backend ref n old) s x h a =
    reserve_scheduled_execution_ref-Changes s i a now n backend ref old
perform-Changes e (reserves i now due backend ref profile n) s x h a =
    reserve_external_dispatch-Changes s i a now due backend ref profile n
perform-Changes e (clears i seen n ref) s x h a = clear_execution_ref-Changes s i a seen n ref
perform-Changes e (replaces i n old ref) s x h a = replace_execution_ref-Changes s i a n old ref
perform-Changes e (releases i seen ref backend profile) s x h a =
    release_external_dispatch-Changes s i a seen ref backend profile
perform-Changes e (finalizes i old backend ref profile) s x h a =
    finalize_external_dispatch-Changes s i a old backend ref profile
perform-Changes e (sets_ref i backend ref profile) s x h a =
    set_execution_ref-Changes s i a backend ref profile
perform-Changes e (sets_backend i seen backend profile) s x h a =
    set_execution_backend-Changes s i a seen backend profile

pub perform-IsConsistent :
    (e : Setting) (c : Call) (s : Memory)
    → Calm e c s
    → IsConsistent s
    → IsConsistent (perform e c s)
perform-IsConsistent e (enqueues q given fresh now tested seen) s h c =
    enqueue-IsConsistent s q given fresh now tested seen c
perform-IsConsistent e (enqueues_many qs now seen again) s h c =
    enqueue_many-IsConsistent s qs now seen again c
perform-IsConsistent e (cleans before limit) s h c = cleanup_terminal-IsConsistent s before limit c
perform-IsConsistent e other s h c = Changes-IsConsistent (perform-Changes e other s tt h c.apart) c

pub run-IsConsistent :
    (e : Setting) (cs : List Call) (s : Memory)
    → CalmRun e cs s
    → IsConsistent s
    → IsConsistent (run e cs s)
run-IsConsistent e [] s h c = c
run-IsConsistent e (x ∷ cs) s h c =
    run-IsConsistent e cs (perform e x s) h.1 (perform-IsConsistent e x s h.0 c)

-- After any history of calls from the empty backend, in which `complete_task` and `fail_task` carry a retry
-- count and no stale recovery raises an error, at most one unfinished record has a given deduplication key.
pub history_active_unique :
    (e : Setting) (cs : List Call) (i j : ℕ) (r q : QueuedTaskRecord) (k : String)
    → CalmRun e cs new_memory
    → get_task (run e cs new_memory) i ≡ some r
    → get_task (run e cs new_memory) j ≡ some q
    → r.key ≡ some k
    → q.key ≡ some k
    → is_terminal r ≡ false
    → is_terminal q ≡ false
    → i ≡ j
unfolding get_task
history_active_unique e cs i j r q k h =
    active_unique (run e cs new_memory) i j r q k
      (run-IsConsistent e cs new_memory h new_memory-IsConsistent)
