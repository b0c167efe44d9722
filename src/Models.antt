-- ===== src/Models.antt =====
-- src/litestar_queues/models.py: the queue record, its statuses and the result summaries.
-- A `datetime` is the number of microseconds since `datetime.min` in UTC, a `UUID` is its `int`.
mod Values
unfoldable pub use Values.*
use litestar_queues.Base.{
  ℕ, ◌+◌, ◌≡◌, refl, ◌⊎◌, inl, inr, Bool, true, false, not, Option, none, some, List, [], String, ℤ,
  leb, some_and, none_or, Dict, Eq, ◌↔◌, arith,
}

pub data TaskStatus : Type 0 where
  pending scheduled running completed failed cancelled expired : TaskStatus

-- `status in TERMINAL_STATUSES`.
abbrev pub is_terminal_status : TaskStatus → Bool
is_terminal_status pending = false
is_terminal_status scheduled = false
is_terminal_status running = false
is_terminal_status _ = true

-- `status in {"pending", "scheduled"}`.
abbrev pub is_waiting : TaskStatus → Bool
is_waiting pending = true
is_waiting scheduled = true
is_waiting _ = false

-- `status == "running"`.
abbrev pub is_running : TaskStatus → Bool
is_running running = true
is_running _ = false

pub record HeartbeatTouch : Type 0 where
  pub task_id : ℕ
  pub expected_retry_count : Option ℕ
  pub metadata_patch : Option (Dict String Value)

-- The two sets of ids, in the order of the additions.
pub record HeartbeatTouchResult : Type 0 where
  pub touched_task_ids : List ℕ
  pub missed_task_ids : List ℕ

pub record QueueStatistics : Type 0 where
  pub pending_count : ℕ
  pub scheduled_count : ℕ
  pub running_count : ℕ
  pub completed_count : ℕ
  pub failed_count : ℕ
  pub cancelled_count : ℕ
  pub expired_count : ℕ

-- The property `QueueStatistics.total`.
unfoldable pub total : QueueStatistics → ℕ
total s =
    s.pending_count + s.scheduled_count + s.running_count + s.completed_count + s.failed_count
    + s.cancelled_count + s.expired_count

-- `repair` is left out: only the service assigns it.
pub record StaleTaskRecoveryResult : Type 0 where
  pub requeued : ℕ
  pub failed_count : ℕ
  pub skipped : ℕ
  pub handler_needed : ℕ
  pub requeued_task_ids : List ℕ
  pub failed_task_ids : List ℕ
  pub handler_needed_task_ids : List ℕ

pub record TaskReservation : Type 0 where
  pub key : String
  pub task_id : ℕ
  pub task_name : String
  pub created_at : ℕ

-- Also the arguments of `enqueue`, which are these fields.
pub record TaskRequest : Type 0 where
  pub task_name : String
  pub args : List Value
  pub kwargs : Option (Dict String Value)
  pub queue : String
  pub priority : ℤ
  pub max_retries : ℤ
  pub scheduled_at : Option ℕ
  pub expires_at : Option ℕ
  pub key : Option String
  pub execution_backend : String
  pub execution_profile : Option String
  pub metadata : Option (Dict String Value)

pub record QueuedTaskRecord : Type 0 where
  pub task_name : String
  pub id : ℕ
  pub args : List Value
  pub kwargs : Dict String Value
  pub queue : String
  pub execution_backend : String
  pub execution_profile : Option String
  pub execution_ref : Option String
  pub worker_id : Option String
  pub status : TaskStatus
  pub priority : ℤ
  pub max_retries : ℤ
  pub retry_count : ℕ
  pub scheduled_at : Option ℕ
  pub expires_at : Option ℕ
  pub created_at : ℕ
  pub queued_at : ℕ
  pub started_at : Option ℕ
  pub completed_at : Option ℕ
  pub heartbeat_at : Option ℕ
  pub result : Value
  pub error : Option String
  pub key : Option String
  pub metadata : Dict String Value
  pub dispatch_checked_at : Option ℕ

abbrev pub is_terminal : QueuedTaskRecord → Bool
is_terminal r = is_terminal_status r.status

-- `is_due` and `is_expired` read the clock: `now` is what they read.
unfoldable pub is_due : ℕ → QueuedTaskRecord → Bool
is_due now r = none_or r.scheduled_at (λ at. leb at now)

unfoldable pub is_expired : ℕ → QueuedTaskRecord → Bool
is_expired now r = some_and r.expires_at (λ at. leb at now)
