-- ===== src/Ephemeral/Calls/Simulated.antt =====
-- Each call on the file and in memory.
use litestar_queues.Base.{
  ℕ, ◌≡◌, refl, ap, ◌∙◌, get, true, false, Option, none, some, String, nat_eq, string_eq, option_eq,
  if◌then◌else◌, ◌⊎◌, inl, inr, arith,
}
use litestar_queues.Models.{QueuedTaskRecord, is_expired}
use litestar_queues.Memory.State.{Memory, Effect, keep, on_record}
use litestar_queues.Memory.Evolution.{Moves, Does}
use litestar_queues.Memory.Consistency.{IsConsistent}
use litestar_queues.Memory.Calls.{Setting, perform}
use litestar_queues.Memory.Lifecycle.{
  assign_record-Moves, claim_record-Moves, complete_record-Moves, fail_record-Moves,
  cancel_record-Moves, interrupt_record-Moves,
}
use litestar_queues.Memory.Dispatch.Lifecycle.{
  reserve_scheduled_record-Moves, reserve_record-Moves, switch_record-Moves, release_record-Moves,
  finalize_record-Moves, route_record-Moves,
}
use litestar_queues.Memory.Enqueue as MemoryEnqueue
use litestar_queues.Memory.Claim as MemoryClaim
use litestar_queues.Memory.Settle as MemorySettle
use litestar_queues.Memory.Dispatch as MemoryDispatch
use litestar_queues.Memory.Claim.{assign_record, claim_record}
use litestar_queues.Memory.Settle.{complete_record, fail_record, cancel_record, interrupt_record}
use litestar_queues.Memory.Dispatch.{
  reserve_scheduled_record, reserve_record, switch_record, release_record, finalize_record,
  route_record, notify_result,
}
use litestar_queues.Ephemeral.Database.{EphemeralQueueBackend, Failure, as_row, transaction, on_row}
use litestar_queues.Ephemeral.Claim.{answer, assign_worker, claim_task_with_expired}
use litestar_queues.Ephemeral.Settle.{complete_task, fail_task, cancel_task, interrupt_task}
use litestar_queues.Ephemeral.Dispatch.{
  reserve_scheduled_execution_ref, reserve_external_dispatch, clear_execution_ref,
  replace_execution_ref, release_external_dispatch, finalize_external_dispatch, set_execution_ref,
  set_execution_backend, is_reservable_row, refer_record,
}
use litestar_queues.Ephemeral.Holds.{Holds, AllStorable}
use litestar_queues.Ephemeral.Simulation.{
  Agrees, on_row-Agrees, notify_found-Agrees, notify_result-records, IsNamed,
}
use litestar_queues.Ephemeral.Simulation.Admission.{enqueue-Agrees}
use litestar_queues.Ephemeral.Calls.{
  TaskCall, enqueues, assigns, claims, completes, fails, cancels, interrupts, reserves_scheduled,
  reserves, clears, replaces, releases, finalizes, sets_ref, sets_backend, task, task_or_none,
  claimed_and_expired, flag, as_call, reply, submit, IsFresh,
}

answer-Agrees :
    {A B : Type 0} (f : A → B) (x : EphemeralQueueBackend × (Failure ⊎ A)) (y : Memory × A)
    → Agrees x y
    → Agrees (answer f x) (y.0, f y.1)
answer-Agrees f (b, inl e) y h = absurd (cc h.1)
answer-Agrees f (b, inr a) y h = (h.0, cc h.1)

-- The file and the dicts of the two backends, in order.
pub record IsMatch (b : EphemeralQueueBackend) (s : Memory) : Type 0 where
  pub file : Holds b.database s
  pub consistent : IsConsistent s
  pub named : IsNamed s

module _ (b : EphemeralQueueBackend) (s : Memory) (m : IsMatch b s) where
  -- The guard of the statement and that of the decoded record, together, are the guard in memory.
  same_reservation :
      (now n : ℕ) (backend ref : String) (old : Option String) (r : QueuedTaskRecord)
      → (if is_reservable_row now backend n (as_row r) then refer_record old ref r else keep none)
        ≡ reserve_scheduled_record now backend ref n old r
  unfolding is_reservable_row as_row refer_record reserve_scheduled_record is_expired
  same_reservation now n backend ref old r = ground arith

  unnotified :
      (seen : ℕ) (x : Memory × Option QueuedTaskRecord)
      → AllStorable b.database.library (notify_result seen x).0
      → AllStorable b.database.library x.0
  unnotified seen x f i r e = f i r (ap (get i) (notify_result-records seen x) ∙ e)

  by_id :
      {A : Type 0} (i : ℕ) (missing : A) (body : QueuedTaskRecord → Effect A)
      → ((r : QueuedTaskRecord) → Does Moves r (body r))
      → AllStorable b.database.library (on_record s i missing body).0
      → Agrees (transaction b (on_row i missing body)) (on_record s i missing body)
  by_id i missing body moves fit =
      on_row-Agrees (λ _. true) i missing body body b s m.file m.consistent (λ r. refl) moves fit

  pub submit-Agrees :
      (e : Setting) (c : TaskCall)
      → IsFresh e c s
      → AllStorable b.database.library (perform e (as_call c) s)
      → Agrees (submit e c b) (perform e (as_call c) s, reply e c s)
  unfolding assign_worker claim_task_with_expired complete_task fail_task cancel_task interrupt_task
      reserve_scheduled_execution_ref reserve_external_dispatch clear_execution_ref
      replace_execution_ref release_external_dispatch finalize_external_dispatch set_execution_ref
      set_execution_backend MemoryClaim.assign_worker MemoryClaim.claim_task_with_expired
      MemorySettle.complete_task MemorySettle.fail_task MemorySettle.cancel_task
      MemorySettle.interrupt_task MemoryDispatch.reserve_scheduled_execution_ref
      MemoryDispatch.reserve_external_dispatch MemoryDispatch.clear_execution_ref
      MemoryDispatch.replace_execution_ref MemoryDispatch.release_external_dispatch
      MemoryDispatch.finalize_external_dispatch MemoryDispatch.set_execution_ref
      MemoryDispatch.set_execution_backend
  submit-Agrees e (enqueues q given fresh now tested seen) f fit =
      answer-Agrees task _ (MemoryEnqueue.enqueue s q given fresh now tested seen)
        (enqueue-Agrees b s q given fresh now tested seen m.file m.consistent m.named f fit)
  submit-Agrees e (assigns i worker_id n) f fit =
      answer-Agrees task_or_none _ _
        (by_id i none (assign_record worker_id n) (assign_record-Moves worker_id n) fit)
  submit-Agrees e (claims i due now n ref) f fit =
      answer-Agrees claimed_and_expired _ _
        (by_id i (none, none) (claim_record due now n ref) (claim_record-Moves due now n ref) fit)
  submit-Agrees e (completes i now v n) f fit =
      answer-Agrees task_or_none _ _
        (by_id i none (complete_record now v (some n)) (complete_record-Moves now n v) fit)
  submit-Agrees e (fails i now error retry n retry_at queued_at) f fit =
      answer-Agrees task_or_none _ _ (
        by_id i none (fail_record e.floats now error retry (some n) retry_at queued_at)
          (fail_record-Moves e.floats now n error retry retry_at queued_at) fit)
  submit-Agrees e (cancels i now include_running n) f fit = answer-Agrees flag _ _ (
      by_id i false (cancel_record now include_running n)
        (cancel_record-Moves now include_running n) fit)
  submit-Agrees e (interrupts i n worker_id queued_at) f fit = answer-Agrees task_or_none _ _ (
      by_id i none (interrupt_record e.floats n worker_id queued_at)
        (interrupt_record-Moves e.floats n worker_id queued_at) fit)
  submit-Agrees e (reserves_scheduled i now backend ref n old) f fit =
      answer-Agrees task_or_none _ _ (
        on_row-Agrees (is_reservable_row now backend n) i none (refer_record old ref)
          (reserve_scheduled_record now backend ref n old) b s m.file m.consistent
          (same_reservation now n backend ref old)
          (reserve_scheduled_record-Moves now n backend ref old) fit)
  submit-Agrees e (reserves i now due backend ref profile n) f fit =
      answer-Agrees task_or_none _ _ (
        by_id i none (reserve_record now due backend ref profile n)
          (reserve_record-Moves now due backend ref profile n) fit)
  submit-Agrees e (clears i seen n ref) f fit = answer-Agrees task_or_none _ _ (
      notify_found-Agrees seen _ _ (
        by_id i none (switch_record n ref none) (switch_record-Moves n ref none)
          (unnotified seen _ fit)))
  submit-Agrees e (replaces i n old ref) f fit =
      answer-Agrees task_or_none _ _
        (by_id i none (switch_record n old (some ref)) (switch_record-Moves n old (some ref)) fit)
  submit-Agrees e (releases i seen ref backend profile) f fit = answer-Agrees task_or_none _ _ (
      notify_found-Agrees seen _ _ (
        by_id i none (release_record ref backend profile) (release_record-Moves ref backend profile)
          (unnotified seen _ fit)))
  submit-Agrees e (finalizes i old backend ref profile) f fit = answer-Agrees task_or_none _ _ (
      by_id i none (finalize_record old backend ref profile)
        (finalize_record-Moves old backend ref profile) fit)
  submit-Agrees e (sets_ref i backend ref profile) f fit = answer-Agrees task_or_none _ _ (
      by_id i none (route_record backend profile (some ref))
        (route_record-Moves backend profile (some ref)) fit)
  submit-Agrees e (sets_backend i seen backend profile) f fit = answer-Agrees task_or_none _ _ (
      notify_found-Agrees seen _ _ (
        by_id i none (route_record backend profile none) (route_record-Moves backend profile none)
          (unnotified seen _ fit)))
