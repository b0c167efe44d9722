-- ===== src/Memory/Enqueue.antt =====
-- `enqueue`, `enqueue_many`, `get_task`, `get_task_by_key`, `get_tasks` and `notify_new_tasks`.
pub mod Reuse
use litestar_queues.Base.{
  ℕ, suc, Bool, not, Option, none, some, List, [], ◌∷◌, String, ◌&&◌, Dict, get, insert, nat_eq,
  string_eq, if◌then◌else◌, or_else, some_and, ltb,
}
use litestar_queues.Models.{
  QueuedTaskRecord, TaskRequest, TaskStatus, pending, scheduled, is_waiting, is_terminal, is_due,
  null,
}
use litestar_queues.Memory.State.{Memory, notify_new_task}

unfoldable pub get_task : Memory → ℕ → Option QueuedTaskRecord
get_task s task_id = get task_id s.records

unfoldable pub get_task_by_key : Memory → String → Option QueuedTaskRecord
get_task_by_key s key = elim (get key s.keys) [ none ↦ none | some task_id ↦ get task_id s.records ]

unfoldable pub get_tasks : Memory → List ℕ → List QueuedTaskRecord
get_tasks s [] = []
get_tasks s (i ∷ is) =
    let rest = get_tasks s is in elim (get i s.records) [ none ↦ rest | some r ↦ r ∷ rest ]

-- The record of the key, if it is not finished: the one that `enqueue` returns in place of a new one.
abbrev pub if_active : Option QueuedTaskRecord → Option QueuedTaskRecord
if_active none = none
if_active (some r) = if is_terminal r then none else some r

unfoldable pub active_by_key : Memory → Option String → Option QueuedTaskRecord
unfolding get_task_by_key
active_by_key s none = none
active_by_key s (some key) = if_active (get_task_by_key s key)

-- `"scheduled" if scheduled_at is not None and scheduled_at > now else "pending"`.
unfoldable pub initial_status : Option ℕ → ℕ → TaskStatus
initial_status at now = if some_and at (λ t. ltb now t) then scheduled else pending

unfoldable pub new_record : TaskRequest → ℕ → TaskStatus → ℕ → QueuedTaskRecord
new_record q id status now = record {
  task_name = q.task_name;
  id = id;
  args = q.args;
  kwargs = or_else q.kwargs [];
  queue = q.queue;
  execution_backend = q.execution_backend;
  execution_profile = q.execution_profile;
  execution_ref = none;
  worker_id = none;
  status = status;
  priority = q.priority;
  max_retries = q.max_retries;
  retry_count = 0;
  scheduled_at = q.scheduled_at;
  expires_at = q.expires_at;
  created_at = now;
  queued_at = now;
  started_at = none;
  completed_at = none;
  heartbeat_at = none;
  result = null;
  error = none;
  key = q.key;
  metadata = or_else q.metadata [];
  dispatch_checked_at = none;
}

abbrev pub claim_key : Option String → ℕ → Dict String ℕ → Dict String ℕ
claim_key none id keys = keys
claim_key (some key) id keys = insert key id keys

-- `self._records[record.id] = record`, and the key's entry.
unfoldable pub store : QueuedTaskRecord → Memory → Memory
store r s = record s { records = insert r.id r s.records; keys = claim_key r.key r.id s.keys }

-- `now`, `tested` and `seen` are the readings for the record, for its status and for `is_due`;
-- `fresh` is what `uuid4` returns.
unfoldable pub enqueue : Memory → TaskRequest → Option ℕ → ℕ → ℕ → ℕ → ℕ → Memory × QueuedTaskRecord
unfolding active_by_key initial_status new_record store notify_new_task
enqueue s q given fresh now tested seen = elim (active_by_key s q.key) [
  | some existing ↦ (s, existing)
  | none ↦
      let r = new_record q (or_else given fresh) (initial_status q.scheduled_at tested) now in
      (notify_new_task seen r (store r s), r)
]

-- The default `notify_new_tasks` of base.py: one signal, for the first due record. `seen` has the
-- clock's readings, one to a position, and `again` that of `notify_new_task`.
unfoldable pub notify_new_tasks : (ℕ → ℕ) → ℕ → ℕ → List QueuedTaskRecord → Memory → Memory
unfolding notify_new_task
notify_new_tasks seen again i [] s = s
notify_new_tasks seen again i (r ∷ rs) s =
    let later = notify_new_tasks seen again (suc i) rs s in
    if is_waiting r.status && is_due (seen i) r then notify_new_task again r s else later

-- One round of the loop of `enqueue_many`.
unfoldable pub enqueue_one : ℕ → Memory → TaskRequest → ℕ → ℕ → Memory × QueuedTaskRecord
unfolding active_by_key initial_status new_record store
enqueue_one now s q fresh record_now = elim (active_by_key s q.key) [
  | some existing ↦ (s, existing)
  | none ↦
      let r = new_record q fresh (initial_status q.scheduled_at now) record_now in (store r s, r)
]

-- Each request comes with its `uuid4` and its reading of the clock.
unfoldable pub enqueue_loop :
    ℕ → Memory → List (TaskRequest × ℕ × ℕ) → Memory × List QueuedTaskRecord
unfolding enqueue_one
enqueue_loop now s [] = (s, [])
enqueue_loop now s ((q, fresh, record_now) ∷ qs) =
    let (s', r) = enqueue_one now s q fresh record_now in
    let (last, rs) = enqueue_loop now s' qs in (last, r ∷ rs)

unfoldable pub enqueue_many :
    Memory → List (TaskRequest × ℕ × ℕ) → ℕ → (ℕ → ℕ) → ℕ → Memory × List QueuedTaskRecord
unfolding enqueue_loop notify_new_tasks
enqueue_many s [] now seen again = (s, [])
enqueue_many s (q ∷ qs) now seen again =
    let (s', rs) = enqueue_loop now s (q ∷ qs) in (notify_new_tasks seen again 0 rs s', rs)
