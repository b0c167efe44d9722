-- ===== src/Memory/Calls.antt =====
-- Histories of calls. `Call` has the methods that write records or keys, with their arguments and
-- the clock's readings; `complete_task` and `fail_task` come with a retry count, as workers call them.
use litestar_queues.Base.{
  ℕ, ◌≡◌, ◌≢◌, Bool, Option, none, some, String, Dict, List, [], ◌∷◌, ℤ, All, or_else,
}
use litestar_queues.Models.{Value, Floats, TaskRequest, HeartbeatTouch}
use litestar_queues.Backend.{StaleRequeuePriority}
use litestar_queues.Memory.State.{Memory}
use litestar_queues.Memory.Enqueue.{enqueue, enqueue_many}
use litestar_queues.Memory.Claim.{assign_worker, claim_task_with_expired, claim_many_with_expired}
use litestar_queues.Memory.Settle.{
  CancelFilter, complete_task, fail_task, cancel_task, cancel_tasks, interrupt_task,
  touch_heartbeats, null_heartbeats,
}
use litestar_queues.Memory.Dispatch.{
  list_dispatch_repair_candidates, reserve_scheduled_execution_ref, reserve_external_dispatch,
  clear_execution_ref, replace_execution_ref, release_external_dispatch, finalize_external_dispatch,
  set_execution_ref, set_execution_backend,
}
use litestar_queues.Memory.Recovery.{requeue_stale_running, expire_overdue, cleanup_terminal}

-- What the backend takes from its surroundings.
pub record Setting : Type 0 where
  pub floats : Floats
  pub policy : StaleRequeuePriority
  pub same : Value → Value → Bool

pub data Call : Type 0 where
  enqueues : TaskRequest → (given : Option ℕ) → (fresh now tested seen : ℕ) → Call
  enqueues_many : List (TaskRequest × ℕ × ℕ) → ℕ → (ℕ → ℕ) → ℕ → Call
  cleans : ℕ → Option ℕ → Call
  assigns : (task_id : ℕ) → String → ℕ → Call
  claims : (task_id due now : ℕ) → Option ℕ → Option String → Call
  claims_many : (now limit : ℕ) → List String → Option String → Dict String ℤ → Call
  completes : (task_id now : ℕ) → Value → ℕ → Call
  fails : (task_id now : ℕ) → String → Bool → ℕ → (retry_at queued_at : Option ℕ) → Call
  cancels : (task_id now : ℕ) → Bool → Option ℕ → Call
  cancels_many : CancelFilter → (ℕ → ℕ) → Call
  interrupts : (task_id : ℕ) → ℕ → String → ℕ → Call
  touches : ℕ → List HeartbeatTouch → Call
  nulls : List ℕ → Option ℕ → Call
  recovers : (now stale_after : ℕ) → Option ℕ → (ℕ → ℕ) → Call
  expires : ℕ → Option ℕ → Call
  repairs : ℕ → String → ℕ → Call
  reserves_scheduled : (task_id now : ℕ) → (backend ref : String) → ℕ → Option String → Call
  reserves : (task_id now due : ℕ) → (backend ref : String) → Option String → Option ℕ → Call
  clears : (task_id seen : ℕ) → ℕ → String → Call
  replaces : (task_id : ℕ) → ℕ → (old ref : String) → Call
  releases : (task_id seen : ℕ) → (ref backend : String) → Option String → Call
  finalizes : (task_id : ℕ) → (old backend ref : String) → Option String → Call
  sets_ref : (task_id : ℕ) → (backend ref : String) → Option String → Call
  sets_backend : (task_id seen : ℕ) → String → Option String → Call

module _ (e : Setting) where
  -- The state after one call.
  abbrev pub perform : Call → Memory → Memory
  perform (enqueues q given fresh now tested seen) s = (enqueue s q given fresh now tested seen).0
  perform (enqueues_many qs now seen again) s = (enqueue_many s qs now seen again).0
  perform (cleans before limit) s = (cleanup_terminal s before limit).0
  perform (assigns i worker_id n) s = (assign_worker s i worker_id n).0
  perform (claims i due now n ref) s = (claim_task_with_expired s i due now n ref).0
  perform (claims_many now limit queues backend queue_limits) s =
      (claim_many_with_expired s now limit queues backend queue_limits).0
  perform (completes i now v n) s = (complete_task s i now v (some n)).0
  perform (fails i now error retry n retry_at queued_at) s =
      (fail_task s e.floats i now error retry (some n) retry_at queued_at).0
  perform (cancels i now include_running n) s = (cancel_task s i now include_running n).0
  perform (cancels_many f clock) s = (cancel_tasks s e.same f clock).0
  perform (interrupts i n worker_id queued_at) s =
      (interrupt_task s e.floats i n worker_id queued_at).0
  perform (touches now ts) s = (touch_heartbeats s now ts).0
  perform (nulls is n) s = null_heartbeats s is n
  perform (recovers now stale_after limit clock) s =
      (requeue_stale_running s e.floats e.policy now stale_after limit clock).0
  perform (expires now limit) s = (expire_overdue s now limit).0
  perform (repairs now backend limit) s = (list_dispatch_repair_candidates s now backend limit).0
  perform (reserves_scheduled i now backend ref n old) s =
      (reserve_scheduled_execution_ref s i now backend ref n old).0
  perform (reserves i now due backend ref profile n) s =
      (reserve_external_dispatch s i now due backend ref profile n).0
  perform (clears i seen n ref) s = (clear_execution_ref s i seen n ref).0
  perform (replaces i n old ref) s = (replace_execution_ref s i n old ref).0
  perform (releases i seen ref backend profile) s =
      (release_external_dispatch s i seen ref backend profile).0
  perform (finalizes i old backend ref profile) s =
      (finalize_external_dispatch s i old backend ref profile).0
  perform (sets_ref i backend ref profile) s = (set_execution_ref s i backend ref profile).0
  perform (sets_backend i seen backend profile) s =
      (set_execution_backend s i seen backend profile).0

  -- A stale recovery in the history raises nothing.
  abbrev pub Calm : Call → Memory → Type 0
  Calm (recovers now stale_after limit clock) s =
      (requeue_stale_running s e.floats e.policy now stale_after limit clock).2 ≡ none
  Calm _ s = Unit

  abbrev pub run : List Call → Memory → Memory
  run [] s = s
  run (c ∷ cs) s = run cs (perform c s)

  abbrev pub CalmRun : List Call → Memory → Type 0
  CalmRun [] s = Unit
  CalmRun (c ∷ cs) s = Calm c s × CalmRun cs (perform c s)

-- A call creates no record under the id.
abbrev pub Avoids : ℕ → Call → Type 0
Avoids i (enqueues q given fresh now tested seen) = or_else given fresh ≢ i
Avoids i (enqueues_many qs now seen again) = All (λ q. q.1 ≢ i) qs
Avoids i _ = Unit
