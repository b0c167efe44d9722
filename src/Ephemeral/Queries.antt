-- ===== src/Ephemeral/Queries.antt =====
-- Reads and wakeups: `get_statistics`, `list_completed_by_task`, `wait_for_wakeups`, `_has_due_work`,
-- `time_until_next_due` and `clear`.
pub mod Polling
use litestar_queues.Base.{
  ℕ, zero, suc, ◌-◌, ◌+◌, min, max, Bool, true, false, not, Option, none, some, List, [], ◌∷◌,
  String, ◌&&◌, ◌||◌, string_eq, ◌==◌, if◌then◌else◌, none_or, some_and, or_else, ltb, leb, length,
  take, select, any, sort, map, ◌⊎◌,
}
use litestar_queues.Models.{
  QueuedTaskRecord, QueueStatistics, TaskStatus, pending, scheduled, running, completed, failed,
  cancelled, expired, is_waiting,
}
use litestar_queues.Memory.Queries.{minimum}
use litestar_queues.Ephemeral.Database.{
  Row, Database, Failure, done, commit, EphemeralQueueBackend, transaction, decode_all,
  new_database,
}
use litestar_queues.Ephemeral.Claim.{is_ready_row}

-- The rows that `COUNT(*) … WHERE queue = ? GROUP BY status` counts for a status.
unfoldable pub count_rows : (TaskStatus → Bool) → Option String → EphemeralQueueBackend → ℕ
count_rows test queue b = length (
    select (λ kv. none_or queue (λ name. kv.1.queue == name) && test kv.1.status)
      b.database.queue_task)

abbrev pub is_status : TaskStatus → TaskStatus → Bool
is_status pending pending = true
is_status scheduled scheduled = true
is_status running running = true
is_status completed completed = true
is_status failed failed = true
is_status cancelled cancelled = true
is_status expired expired = true
is_status _ _ = false

unfoldable pub get_statistics : EphemeralQueueBackend → Option String → QueueStatistics
unfolding count_rows
get_statistics b queue = record {
  pending_count = count_rows (is_status pending) queue b;
  scheduled_count = count_rows (is_status scheduled) queue b;
  running_count = count_rows (is_status running) queue b;
  completed_count = count_rows (is_status completed) queue b;
  failed_count = count_rows (is_status failed) queue b;
  cancelled_count = count_rows (is_status cancelled) queue b;
  expired_count = count_rows (is_status expired) queue b;
}

-- `ORDER BY completed_at DESC`.
unfoldable pub row_completed_after : ℕ × Row → ℕ × Row → Bool
row_completed_after (i, a) (j, b) = leb (or_else b.completed_at 0) (or_else a.completed_at 0)

unfoldable pub list_completed_by_task :
    EphemeralQueueBackend → String → (since : Option ℕ) → ℕ → List QueuedTaskRecord
unfolding row_completed_after sort decode_all
list_completed_by_task b task_name since limit = decode_all (
    take limit (
      sort row_completed_after (
        select
          (λ kv.
            kv.1.task_name == task_name
            && is_status completed kv.1.status
            && some_and kv.1.completed_at (λ at. none_or since (λ t. leb t at)))
          b.database.queue_task)))

-- `_has_due_work`.
unfoldable pub has_due_work : ℕ → Database → Bool
unfolding is_ready_row
has_due_work now d = any (λ kv. is_ready_row now kv.1) d.queue_task

-- The scheduled times of the rows that are waiting, not due and not expired.
unfoldable pub upcoming_rows : ℕ → List String → List (ℕ × Row) → List ℕ
upcoming_rows now queues [] = []
upcoming_rows now queues (kv ∷ rows) =
    let rest = upcoming_rows now queues rows in
    elim kv.1.scheduled_at [
      | none ↦ rest
      | some at ↦
          if is_waiting kv.1.status
            && ltb now at
            && none_or kv.1.expires_at (λ t. ltb now t)
            && (not (leb 1 (length queues)) || any (λ q. kv.1.queue == q) queues)
          then at ∷ rest
          else rest
    ]

-- In microseconds; `later` is the second reading of the clock.
unfoldable pub time_until_next_due :
    EphemeralQueueBackend → (now later : ℕ) → List String → Option ℕ
unfolding upcoming_rows minimum
time_until_next_due b now later queues = elim (upcoming_rows now queues b.database.queue_task) [
  | [] ↦ none
  | at ∷ rest ↦ some (minimum at rest - later)
]

-- What one round of the poll meets: the file at its read, the reading of the clock for the read, whether
-- `_notification_event` is set after it, and the reading of the loop's clock.
pub record Round : Type 0 where
  pub file : Database
  pub now : ℕ
  pub is_set : Bool
  pub time : ℕ

-- The `while` loop: `deadline` is the time at which it gives up, `fuel` the rounds that are followed. The
-- answer is `none` when the loop is still waiting after them.
unfoldable pub poll_loop : ℕ → (deadline : Option ℕ) → (ℕ → Round) → ℕ → Option Bool
unfolding has_due_work
poll_loop i deadline rounds zero = none
poll_loop i deadline rounds (suc fuel) =
    let rest = poll_loop (suc i) deadline rounds fuel in
    if has_due_work (rounds i).now (rounds i).file
    then some true
    else (if (rounds i).is_set
        then some true
        else (if some_and deadline (λ t. leb t (rounds i).time) then some false else rest))

-- The event is cleared before `True` is returned.
abbrev pub wake : EphemeralQueueBackend → Option Bool → EphemeralQueueBackend × Option Bool
wake b none = (b, none)
wake b (some false) = (b, some false)
wake b (some true) = (record b { notification_event = false }, some true)

-- `wait_for_wakeups(timeout)`, called at the time `start`. The sleeps between the rounds show in their
-- times only, and what others write meanwhile in their files.
unfoldable pub wait_for_wakeups :
    EphemeralQueueBackend
    → (start : ℕ) → (timeout : Option ℕ) → (ℕ → Round)
    → ℕ
    → EphemeralQueueBackend × Option Bool
unfolding poll_loop
wait_for_wakeups b start timeout rounds fuel =
    if b.notification_event
    then wake b (some true)
    else wake b (poll_loop 0 (elim timeout [ none ↦ none | some t ↦ some (start + t) ]) rounds fuel)

-- `clear`; the event history has its own table, which is not part of this state.
unfoldable pub clear : EphemeralQueueBackend → EphemeralQueueBackend
unfolding new_database
clear b = record { database = new_database b.database.library; notification_event = false }
