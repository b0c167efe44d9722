-- ===== src/Memory/Lifecycle.antt =====
-- The calls that look up one record follow the record's lifecycle.
use litestar_queues.Base.{Apart, ℕ, Bool, Option, none, some, String, arith}
use litestar_queues.Memory.Changes.{Changes, on_record-Changes}
use litestar_queues.Models.{Value, Floats, QueuedTaskRecord, HeartbeatTouch}
use litestar_queues.Memory.State.{Memory, expire_record}
use litestar_queues.Memory.Claim.{
  assign_record, assign_worker, claim_record, claim_task_with_expired, is_claimable, start,
}
use litestar_queues.Memory.Settle.{
  is_fenced_off, complete_record, complete_task, fail_record, fail_task, cancel_record, cancel_task,
  is_cancellable, interrupt_record, interrupt_task, interrupted_record, retry_record,
  cancelled_record, touch_record, touched_record,
}
use litestar_queues.Memory.Evolution.{Moves, Does}

pub assign_record-Moves :
    (worker_id : String) (n : ℕ) (r : QueuedTaskRecord) → Does Moves r (assign_record worker_id n r)
unfolding assign_record
assign_record-Moves worker_id n r = ground arith

pub claim_record-Moves :
    (due now : ℕ) (n : Option ℕ) (ref : Option String) (r : QueuedTaskRecord)
    → Does Moves r (claim_record due now n ref r)
unfolding claim_record is_claimable start expire_record
claim_record-Moves due now n ref r = ground arith

pub complete_record-Moves :
    (now n : ℕ) (v : Value) (r : QueuedTaskRecord) → Does Moves r (complete_record now v (some n) r)
unfolding complete_record is_fenced_off
complete_record-Moves now n v r = ground arith

pub fail_record-Moves :
    (fl : Floats) (now n : ℕ) (error : String) (retry : Bool) (retry_at queued_at : Option ℕ)
    (r : QueuedTaskRecord)
    → Does Moves r (fail_record fl now error retry (some n) retry_at queued_at r)
unfolding fail_record is_fenced_off retry_record
fail_record-Moves fl now n error retry retry_at queued_at r = ground arith

pub cancel_record-Moves :
    (now : ℕ) (include_running : Bool) (n : Option ℕ) (r : QueuedTaskRecord)
    → Does Moves r (cancel_record now include_running n r)
unfolding cancel_record is_cancellable cancelled_record
cancel_record-Moves now include_running n r = ground arith

pub interrupt_record-Moves :
    (fl : Floats) (n : ℕ) (worker_id : String) (queued_at : ℕ) (r : QueuedTaskRecord)
    → Does Moves r (interrupt_record fl n worker_id queued_at r)
unfolding interrupt_record interrupted_record
interrupt_record-Moves fl n worker_id queued_at r = ground arith

pub touch_record-Moves :
    (now : ℕ) (t : HeartbeatTouch) (r : QueuedTaskRecord) → Does Moves r (touch_record now t r)
unfolding touch_record touched_record
touch_record-Moves now t r = ground arith

module _ (s : Memory) (task_id : ℕ) (a : Apart s.records) where
  pub assign_worker-Changes :
      (worker_id : String) (n : ℕ) → Changes s (assign_worker s task_id worker_id n).0
  unfolding assign_worker
  assign_worker-Changes worker_id n =
      on_record-Changes s task_id none _ a (assign_record-Moves worker_id n)

  pub claim_task_with_expired-Changes :
      (due now : ℕ) (n : Option ℕ) (ref : Option String)
      → Changes s (claim_task_with_expired s task_id due now n ref).0
  unfolding claim_task_with_expired
  claim_task_with_expired-Changes due now n ref =
      on_record-Changes s task_id _ _ a (claim_record-Moves due now n ref)

  pub complete_task-Changes :
      (now n : ℕ) (v : Value) → Changes s (complete_task s task_id now v (some n)).0
  unfolding complete_task
  complete_task-Changes now n v = on_record-Changes s task_id _ _ a (complete_record-Moves now n v)

  pub fail_task-Changes :
      (fl : Floats) (now n : ℕ) (error : String) (retry : Bool) (retry_at queued_at : Option ℕ)
      → Changes s (fail_task s fl task_id now error retry (some n) retry_at queued_at).0
  unfolding fail_task
  fail_task-Changes fl now n error retry retry_at queued_at =
      on_record-Changes s task_id _ _ a (fail_record-Moves fl now n error retry retry_at queued_at)

  pub cancel_task-Changes :
      (now : ℕ) (include_running : Bool) (n : Option ℕ)
      → Changes s (cancel_task s task_id now include_running n).0
  unfolding cancel_task
  cancel_task-Changes now include_running n =
      on_record-Changes s task_id _ _ a (cancel_record-Moves now include_running n)

  pub interrupt_task-Changes :
      (fl : Floats) (n : ℕ) (worker_id : String) (queued_at : ℕ)
      → Changes s (interrupt_task s fl task_id n worker_id queued_at).0
  unfolding interrupt_task
  interrupt_task-Changes fl n worker_id queued_at =
      on_record-Changes s task_id _ _ a (interrupt_record-Moves fl n worker_id queued_at)
