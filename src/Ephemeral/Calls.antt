-- ===== src/Ephemeral/Calls.antt =====
-- The calls whose contract both backends share: one task is looked up, or added, and answered about.
pub mod Serializer
pub mod Simulated
pub mod Refinement
use litestar_queues.Base.{
  ℕ, Bool, Option, none, some, String, List, [], ◌∷◌, get, nat_eq, or_else, ◌≡◌, ◌⊎◌, inl, inr,
}
use litestar_queues.Models.{Value, QueuedTaskRecord, TaskRequest, TaskReservation}
use litestar_queues.Memory.State.{Memory}
use litestar_queues.Memory.Calls as InMemory
use litestar_queues.Memory.Calls.{Setting, Call, perform}
use litestar_queues.Memory.Enqueue as MemoryEnqueue
use litestar_queues.Memory.Claim as MemoryClaim
use litestar_queues.Memory.Settle as MemorySettle
use litestar_queues.Memory.Dispatch as MemoryDispatch
use litestar_queues.Ephemeral.Database.{EphemeralQueueBackend, Failure}
use litestar_queues.Ephemeral.Enqueue.{enqueue}
use litestar_queues.Ephemeral.Claim.{answer, assign_worker, claim_task_with_expired}
use litestar_queues.Ephemeral.Settle.{complete_task, fail_task, cancel_task, interrupt_task}
use litestar_queues.Ephemeral.Dispatch.{
  reserve_scheduled_execution_ref, reserve_external_dispatch, clear_execution_ref,
  replace_execution_ref, release_external_dispatch, finalize_external_dispatch, set_execution_ref,
  set_execution_backend,
}

-- A request with the arguments and the readings of the clock; the settlements come with a retry count,
-- as workers call them.
pub data TaskCall : Type 0 where
  enqueues : TaskRequest → (given : Option ℕ) → (fresh now tested seen : ℕ) → TaskCall
  assigns : (task_id : ℕ) → String → ℕ → TaskCall
  claims : (task_id due now : ℕ) → Option ℕ → Option String → TaskCall
  completes : (task_id now : ℕ) → Value → ℕ → TaskCall
  fails : (task_id now : ℕ) → String → Bool → ℕ → (retry_at queued_at : Option ℕ) → TaskCall
  cancels : (task_id now : ℕ) → Bool → Option ℕ → TaskCall
  interrupts : (task_id : ℕ) → ℕ → String → ℕ → TaskCall
  reserves_scheduled : (task_id now : ℕ) → (backend ref : String) → ℕ → Option String → TaskCall
  reserves : (task_id now due : ℕ) → (backend ref : String) → Option String → Option ℕ → TaskCall
  clears : (task_id seen : ℕ) → ℕ → String → TaskCall
  replaces : (task_id : ℕ) → ℕ → (old ref : String) → TaskCall
  releases : (task_id seen : ℕ) → (ref backend : String) → Option String → TaskCall
  finalizes : (task_id : ℕ) → (old backend ref : String) → Option String → TaskCall
  sets_ref : (task_id : ℕ) → (backend ref : String) → Option String → TaskCall
  sets_backend : (task_id seen : ℕ) → String → Option String → TaskCall

-- What a caller gets.
pub data Answer : Type 0 where
  task : QueuedTaskRecord → Answer
  task_or_none : Option QueuedTaskRecord → Answer
  claimed_and_expired : Option QueuedTaskRecord × Option QueuedTaskRecord → Answer
  flag : Bool → Answer

-- The same call, among those of the in-memory backend.
abbrev pub as_call : TaskCall → Call
as_call (enqueues q given fresh now tested seen) = InMemory.enqueues q given fresh now tested seen
as_call (assigns i worker_id n) = InMemory.assigns i worker_id n
as_call (claims i due now n ref) = InMemory.claims i due now n ref
as_call (completes i now v n) = InMemory.completes i now v n
as_call (fails i now error retry n retry_at queued_at) =
    InMemory.fails i now error retry n retry_at queued_at
as_call (cancels i now include_running n) = InMemory.cancels i now include_running n
as_call (interrupts i n worker_id queued_at) = InMemory.interrupts i n worker_id queued_at
as_call (reserves_scheduled i now backend ref n old) =
    InMemory.reserves_scheduled i now backend ref n old
as_call (reserves i now due backend ref profile n) =
    InMemory.reserves i now due backend ref profile n
as_call (clears i seen n ref) = InMemory.clears i seen n ref
as_call (replaces i n old ref) = InMemory.replaces i n old ref
as_call (releases i seen ref backend profile) = InMemory.releases i seen ref backend profile
as_call (finalizes i old backend ref profile) = InMemory.finalizes i old backend ref profile
as_call (sets_ref i backend ref profile) = InMemory.sets_ref i backend ref profile
as_call (sets_backend i seen backend profile) = InMemory.sets_backend i seen backend profile

module _ (e : Setting) where
  -- What the in-memory backend answers.
  abbrev pub reply : TaskCall → Memory → Answer
  reply (enqueues q given fresh now tested seen) s =
      task (MemoryEnqueue.enqueue s q given fresh now tested seen).1
  reply (assigns i worker_id n) s = task_or_none (MemoryClaim.assign_worker s i worker_id n).1
  reply (claims i due now n ref) s =
      claimed_and_expired (MemoryClaim.claim_task_with_expired s i due now n ref).1
  reply (completes i now v n) s = task_or_none (MemorySettle.complete_task s i now v (some n)).1
  reply (fails i now error retry n retry_at queued_at) s =
      task_or_none
        (MemorySettle.fail_task s e.floats i now error retry (some n) retry_at queued_at).1
  reply (cancels i now include_running n) s =
      flag (MemorySettle.cancel_task s i now include_running n).1
  reply (interrupts i n worker_id queued_at) s =
      task_or_none (MemorySettle.interrupt_task s e.floats i n worker_id queued_at).1
  reply (reserves_scheduled i now backend ref n old) s =
      task_or_none (MemoryDispatch.reserve_scheduled_execution_ref s i now backend ref n old).1
  reply (reserves i now due backend ref profile n) s =
      task_or_none (MemoryDispatch.reserve_external_dispatch s i now due backend ref profile n).1
  reply (clears i seen n ref) s = task_or_none (MemoryDispatch.clear_execution_ref s i seen n ref).1
  reply (replaces i n old ref) s =
      task_or_none (MemoryDispatch.replace_execution_ref s i n old ref).1
  reply (releases i seen ref backend profile) s =
      task_or_none (MemoryDispatch.release_external_dispatch s i seen ref backend profile).1
  reply (finalizes i old backend ref profile) s =
      task_or_none (MemoryDispatch.finalize_external_dispatch s i old backend ref profile).1
  reply (sets_ref i backend ref profile) s =
      task_or_none (MemoryDispatch.set_execution_ref s i backend ref profile).1
  reply (sets_backend i seen backend profile) s =
      task_or_none (MemoryDispatch.set_execution_backend s i seen backend profile).1

  -- The call on the ephemeral backend.
  abbrev pub submit : TaskCall → EphemeralQueueBackend → EphemeralQueueBackend × (Failure ⊎ Answer)
  submit (enqueues q given fresh now tested seen) b =
      answer task (enqueue b q given fresh now tested seen)
  submit (assigns i worker_id n) b = answer task_or_none (assign_worker b i worker_id n)
  submit (claims i due now n ref) b =
      answer claimed_and_expired (claim_task_with_expired b i due now n ref)
  submit (completes i now v n) b = answer task_or_none (complete_task b i now v (some n))
  submit (fails i now error retry n retry_at queued_at) b =
      answer task_or_none (fail_task b e.floats i now error retry (some n) retry_at queued_at)
  submit (cancels i now include_running n) b = answer flag (cancel_task b i now include_running n)
  submit (interrupts i n worker_id queued_at) b =
      answer task_or_none (interrupt_task b e.floats i n worker_id queued_at)
  submit (reserves_scheduled i now backend ref n old) b =
      answer task_or_none (reserve_scheduled_execution_ref b i now backend ref n old)
  submit (reserves i now due backend ref profile n) b =
      answer task_or_none (reserve_external_dispatch b i now due backend ref profile n)
  submit (clears i seen n ref) b = answer task_or_none (clear_execution_ref b i seen n ref)
  submit (replaces i n old ref) b = answer task_or_none (replace_execution_ref b i n old ref)
  submit (releases i seen ref backend profile) b =
      answer task_or_none (release_external_dispatch b i seen ref backend profile)
  submit (finalizes i old backend ref profile) b =
      answer task_or_none (finalize_external_dispatch b i old backend ref profile)
  submit (sets_ref i backend ref profile) b =
      answer task_or_none (set_execution_ref b i backend ref profile)
  submit (sets_backend i seen backend profile) b =
      answer task_or_none (set_execution_backend b i seen backend profile)

  -- The state in memory after the calls, and all answers.
  abbrev pub run_memory : List TaskCall → Memory → Memory × List Answer
  run_memory [] s = (s, [])
  run_memory (c ∷ cs) s =
      let (t, rest) = run_memory cs (perform e (as_call c) s) in (t, reply c s ∷ rest)

  abbrev pub run_ephemeral :
      List TaskCall → EphemeralQueueBackend → EphemeralQueueBackend × List (Failure ⊎ Answer)
  run_ephemeral [] b = (b, [])
  run_ephemeral (c ∷ cs) b =
      let x = submit c b in let (t, rest) = run_ephemeral cs x.0 in (t, x.1 ∷ rest)

  -- An enqueued task comes under an id that is not stored, as `uuid4` sees to.
  abbrev pub IsFresh : TaskCall → Memory → Type 0
  IsFresh (enqueues q given fresh now tested seen) s = get (or_else given fresh) s.records ≡ none
  IsFresh _ s = Unit

  abbrev pub FreshRun : List TaskCall → Memory → Type 0
  FreshRun [] s = Unit
  FreshRun (c ∷ cs) s = IsFresh c s × FreshRun cs (perform e (as_call c) s)
