-- ===== src/Memory/Queries.antt =====
-- Reads and wakeups: `get_statistics`, `list_completed_by_task`, `time_until_next_due`,
-- `wait_for_wakeups`, `wait_for_worker_control`, `notify_worker_control` and `clear`.
pub mod Statistics
pub mod Due
use litestar_queues.Base.{
  ℕ, ◌+◌, ◌-◌, min, Bool, true, false, not, Option, none, some, List, [], ◌∷◌, String, ◌&&◌, ◌||◌,
  string_eq, ◌==◌, if◌then◌else◌, none_or, some_and, or_else, ltb, leb, length, take, select, any,
  sort, map,
}
use litestar_queues.Models.{
  QueuedTaskRecord, QueueStatistics, TaskStatus, pending, scheduled, running, completed, failed,
  cancelled, expired, is_waiting,
}
use litestar_queues.Memory.State.{Memory}

-- `setattr(statistics, status, getattr(statistics, status) + 1)`.
unfoldable pub bump : TaskStatus → QueueStatistics → QueueStatistics
bump pending x = record x { pending_count = x.pending_count + 1 }
bump scheduled x = record x { scheduled_count = x.scheduled_count + 1 }
bump running x = record x { running_count = x.running_count + 1 }
bump completed x = record x { completed_count = x.completed_count + 1 }
bump failed x = record x { failed_count = x.failed_count + 1 }
bump cancelled x = record x { cancelled_count = x.cancelled_count + 1 }
bump expired x = record x { expired_count = x.expired_count + 1 }

unfoldable pub statistics_loop :
    Option String → List QueuedTaskRecord → QueueStatistics → QueueStatistics
unfolding bump
statistics_loop queue [] x = x
statistics_loop queue (r ∷ rs) x =
    statistics_loop queue rs
      (if not (none_or queue (λ name. r.queue == name)) then x else bump r.status x)

unfoldable pub get_statistics : Memory → Option String → QueueStatistics
unfolding statistics_loop
get_statistics s queue = statistics_loop queue (map (λ kv. kv.1) s.records) (record {
  pending_count = 0;
  scheduled_count = 0;
  running_count = 0;
  completed_count = 0;
  failed_count = 0;
  cancelled_count = 0;
  expired_count = 0;
})

abbrev is_completed : TaskStatus → Bool
is_completed completed = true
is_completed _ = false

-- `key=completed_at or created_at, reverse=True`: a stable sort, the latest first.
unfoldable pub completed_after : QueuedTaskRecord → QueuedTaskRecord → Bool
completed_after a b =
    leb (or_else b.completed_at b.created_at) (or_else a.completed_at a.created_at)

unfoldable pub list_completed_by_task :
    Memory → String → (since : Option ℕ) → ℕ → List QueuedTaskRecord
unfolding sort completed_after
list_completed_by_task s task_name since limit = take limit (
    sort completed_after (
      select
        (λ r.
          r.task_name == task_name
          && is_completed r.status
          && some_and r.completed_at (λ at. none_or since (λ t. leb t at)))
        (map (λ kv. kv.1) s.records)))

-- `[record.scheduled_at for record in … if …]`.
unfoldable pub upcoming : ℕ → List String → List QueuedTaskRecord → List ℕ
upcoming now queues [] = []
upcoming now queues (r ∷ rs) =
    let rest = upcoming now queues rs in
    elim r.scheduled_at [
      | none ↦ rest
      | some at ↦
          if is_waiting r.status
            && ltb now at
            && (not (leb 1 (length queues)) || any (λ q. r.queue == q) queues)
          then at ∷ rest
          else rest
    ]

unfoldable pub minimum : ℕ → List ℕ → ℕ
minimum a [] = a
minimum a (b ∷ bs) = minimum (min a b) bs

-- In microseconds; `later` is the second reading of the clock.
unfoldable pub time_until_next_due : Memory → (now later : ℕ) → List String → Option ℕ
unfolding upcoming minimum
time_until_next_due s now later queues = elim (upcoming now queues (map (λ kv. kv.1) s.records)) [
  | [] ↦ none
  | at ∷ rest ↦ some (minimum at rest - later)
]

-- `pending` is `has_pending` of the retained read, `raced` whether its race ended with the event.
unfoldable pub wait_for_wakeups : Memory → (has_pending raced : Bool) → Memory × Bool
wait_for_wakeups s has_pending raced =
    if not has_pending && s.notification_event
    then (record s { notification_event = false }, true)
    else (if raced then (record s { notification_event = false }, true) else (s, false))

unfoldable pub wait_for_worker_control : Memory → (has_pending raced : Bool) → Memory × Bool
wait_for_worker_control s has_pending raced =
    if not has_pending && s.control_event
    then (record s { control_event = false }, true)
    else (if raced then (record s { control_event = false }, true) else (s, false))

unfoldable pub notify_worker_control : Memory → Memory
notify_worker_control s = record s { control_event = true }

-- The event log and the retained reads are not part of this state.
unfoldable pub clear : Memory → Memory
clear s = record {
  records = [];
  keys = [];
  reservations = [];
  maintenances = [];
  notification_event = false;
  control_event = false;
}
