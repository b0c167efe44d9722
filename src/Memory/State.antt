-- ===== src/Memory/State.antt =====
-- The state of `InMemoryQueueBackend` and what its methods share. A method runs under the lock, so
-- it is one function from state to state. Each reading of the clock is an argument.
use litestar_queues.Base.{
  ℕ, Bool, true, false, none, some, [], String, ◌&&◌, Dict, get, insert, nat_eq, if◌then◌else◌,
}
use litestar_queues.Models.{QueuedTaskRecord, TaskReservation, TaskStatus, is_waiting, is_due}

pub record Memory : Type 0 where
  pub records : Dict ℕ QueuedTaskRecord
  pub keys : Dict String ℕ
  pub reservations : Dict String TaskReservation
  pub maintenances : Dict String (String × ℕ)
  pub notification_event : Bool
  pub control_event : Bool

-- `__init__`.
unfoldable pub new_memory : Memory
new_memory = record {
  records = [];
  keys = [];
  reservations = [];
  maintenances = [];
  notification_event = false;
  control_event = false;
}

-- What a method does to the record that it has looked up: nothing, or attribute assignments.
pub data Effect (A : Type 0) : Type 0 where
  keep : A → Effect A
  write : QueuedTaskRecord → A → Effect A

abbrev pub apply : {A : Type 0} → Memory → ℕ → Effect A → Memory × A
apply s task_id (keep a) = (s, a)
apply s task_id (write r a) = (record s { records = insert task_id r s.records }, a)

-- `record = self._records.get(task_id)`, the answer for `None`, and the rest of the method.
unfoldable pub on_record :
    {A : Type 0} → Memory → ℕ → A → (QueuedTaskRecord → Effect A) → Memory × A
on_record s task_id missing body = elim (get task_id s.records) [
  | none ↦ (s, missing)
  | some r ↦ apply s task_id (body r)
]

-- `_expire_record`.
unfoldable pub expire_record : QueuedTaskRecord → ℕ → QueuedTaskRecord
expire_record r at = record r {
  status = TaskStatus.expired;
  completed_at = some at;
  heartbeat_at = none;
}

-- `notify_new_task`; `seen` is the clock that `is_due` reads.
unfoldable pub notify_new_task : ℕ → QueuedTaskRecord → Memory → Memory
notify_new_task seen r s =
    if is_waiting r.status && is_due seen r then record s { notification_event = true } else s
