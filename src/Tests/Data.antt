-- ===== src/Tests/Data.antt =====
-- A task that is enqueued, claimed and settled, and three events.
use litestar_queues.Base.{
  ℕ, ◌+◌, ◌*◌, ◌^◌, Bool, true, false, Option, none, some, [], ◌∷◌, ℤ, pos, negsuc, ltb,
}
use litestar_queues.Models.{
  Value, null, integer, Floats, TaskRequest, QueuedTaskRecord, pending, running,
}
use litestar_queues.Backend.{preserve}
use litestar_queues.Memory.State.{Memory, new_memory}
use litestar_queues.Memory.Calls.{Setting, Call, enqueues, claims, run}
use litestar_queues.Events.Records.{QueueEventLogRecord}
use litestar_queues.Events.Query.{QueueEventQuery, asc}
use litestar_queues.Events.Log.{EventLog}

-- Whole numbers in place of floats.
abbrev whole_power : ℕ → ℤ → Option ℕ
whole_power x (pos n) = some (x ^ n)
whole_power x (negsuc n) = none

abbrev whole_value : Value → Option ℕ
whole_value (integer (pos n)) = some n
whole_value _ = none

abbrev pub whole_floats : Floats
whole_floats = record {
  zero_float = 0;
  one_float = 1;
  truncate = pos;
  to_float = whole_value;
  multiply = ◌*◌;
  power = whole_power;
  less = ltb;
  add_seconds = λ at x. some (at + x * 1000000);
}

abbrev same_null : Value → Value → Bool
same_null null null = true
same_null _ _ = false

abbrev pub setting : Setting
setting = record { floats = whole_floats; policy = preserve; same = same_null }

abbrev pub request : TaskRequest
request = record {
  task_name = "send";
  args = [];
  kwargs = none;
  queue = "mail";
  priority = pos 5;
  max_retries = pos 3;
  scheduled_at = none;
  expires_at = none;
  key = some "welcome";
  execution_backend = "local";
  execution_profile = none;
  metadata = none;
}

abbrev pub waiting_task : QueuedTaskRecord
waiting_task = record {
  task_name = "send";
  id = 1;
  args = [];
  kwargs = [];
  queue = "mail";
  execution_backend = "local";
  execution_profile = none;
  execution_ref = none;
  worker_id = none;
  status = pending;
  priority = pos 5;
  max_retries = pos 3;
  retry_count = 0;
  scheduled_at = none;
  expires_at = none;
  created_at = 100;
  queued_at = 100;
  started_at = none;
  completed_at = none;
  heartbeat_at = none;
  result = null;
  error = none;
  key = some "welcome";
  metadata = [];
  dispatch_checked_at = none;
}

abbrev pub running_task : QueuedTaskRecord
running_task = record waiting_task {
  status = running;
  started_at = some 200;
  heartbeat_at = some 200;
}

abbrev pub enqueueing : Call
enqueueing = enqueues request none 1 100 100 100

abbrev pub claiming : Call
claiming = claims 1 200 200 none none

-- The store with the waiting task, and with the running one.
abbrev pub idle : Memory
idle = run setting (enqueueing ∷ []) new_memory

abbrev pub busy : Memory
busy = run setting (enqueueing ∷ claiming ∷ []) new_memory

abbrev pub idle_store : Memory
idle_store = record {
  records = (1, waiting_task) ∷ [];
  keys = ("welcome", 1) ∷ [];
  reservations = [];
  maintenances = [];
  notification_event = true;
  control_event = false;
}

abbrev pub busy_store : Memory
busy_store = record idle_store { records = (1, running_task) ∷ [] }

abbrev pub event : QueueEventLogRecord
event = record {
  event_id = "e1";
  event_type = "task.started";
  task_id = some "t1";
  task_name = some "send";
  queue = some "mail";
  worker_id = none;
  execution_backend = none;
  execution_profile = none;
  actor_type = none;
  actor_id = none;
  stage = some "load";
  level = some "info";
  message = none;
  detail = [];
  progress_current = none;
  progress_total = none;
  progress_percent = none;
  duration_ms = some 3;
  sequence = some (pos 1);
  occurred_at = 10;
  created_at = 11;
  scope = none;
  scope_key = none;
  actor = none;
  entity = none;
  extra = [];
}

abbrev pub later_event : QueueEventLogRecord
later_event = record event { event_id = "e2"; occurred_at = 20; level = some "error" }

abbrev pub event_log : EventLog
event_log = record {
  memory_capacity = 2;
  extra_columns = [];
  records = (0, event) ∷ (1, later_event) ∷ [];
  next_identity = 2;
}

abbrev pub everything : QueueEventQuery
everything = record {
  task_id = none;
  task_name = none;
  event_type = none;
  scope = none;
  scope_key = none;
  entity = none;
  level = none;
  order = asc;
  limit = none;
  offset = 0;
}
