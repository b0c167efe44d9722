-- ===== src/Memory/Recovery.antt =====
-- `requeue_stale_running`, `expire_overdue` and `cleanup_terminal`.
pub mod Lifecycle
pub mod Overdue
pub mod Reports
use litestar_queues.Base.{
  ℕ, ◌+◌, suc, Bool, true, false, not, Option, none, some, List, [], ◌∷◌, ◌++◌, String, ◌&&◌, ◌||◌,
  Dict, get, insert, delete, nat_eq, string_eq, option_eq, ◌==◌, if◌then◌else◌, none_or, some_and,
  or_else, ltb, leb, length, select, sort, map, ltb_ℤ, ℤ, ℤ,
}
use litestar_queues.Models.{
  Value, boolean, Floats, QueuedTaskRecord, TaskStatus, pending, scheduled, failed, is_waiting,
  is_running, is_terminal, is_expired, StaleTaskRecoveryResult,
}
use litestar_queues.Backend.{
  QueueError, queue_configuration_error, arithmetic_error, StaleRequeuePriority, attempts_consumed,
  retry_schedule, stale_requeue_error, stale_requeue_priority, stale_heartbeat_error,
}
use litestar_queues.Memory.State.{Memory, expire_record}
use litestar_queues.Memory.Dispatch.{take_limit}

-- `status == "running" and (heartbeat_at is None or heartbeat_at < now - stale_after)`.
unfoldable pub is_stale : (now stale_after : ℕ) → QueuedTaskRecord → Bool
is_stale now stale_after r =
    is_running r.status && none_or r.heartbeat_at (λ at. ltb (at + stale_after) now)

-- `_stale_sort_key`: `_MIN_DATETIME` is the instant 0.
unfoldable pub staler : QueuedTaskRecord → QueuedTaskRecord → Bool
staler a b =
    let ta : ℕ = or_else a.heartbeat_at 0 in
    let tb : ℕ = or_else b.heartbeat_at 0 in ltb ta tb || (leb ta tb && leb a.id b.id)

abbrev pub entry_staler : ℕ × QueuedTaskRecord → ℕ × QueuedTaskRecord → Bool
entry_staler a b = staler a.1 b.1

-- `x is not False`.
abbrev is_not_false : Value → Bool
is_not_false (boolean false) = false
is_not_false _ = true

unfoldable pub requeue_on_stale : QueuedTaskRecord → Bool
requeue_on_stale r = none_or (get "requeue_on_stale" r.metadata) is_not_false

-- The state of the loop: an error ends it.
pub record Recovery : Type 0 where
  pub records : Dict ℕ QueuedTaskRecord
  pub result : StaleTaskRecoveryResult
  pub raised : Option QueueError

-- The assignments that come before the policy is asked.
unfoldable pub rescheduled_record : ℕ × Option ℕ → QueuedTaskRecord → QueuedTaskRecord
rescheduled_record (queued_at, retry_at) r = record r {
  status = if some_and retry_at (λ _. true) then scheduled else pending;
  queued_at = queued_at;
  scheduled_at = retry_at;
}

unfoldable pub requeued_record : ℕ × Option ℕ → (priority : ℤ) → QueuedTaskRecord → QueuedTaskRecord
unfolding rescheduled_record stale_requeue_error
requeued_record at priority r = record (rescheduled_record at r) {
  priority = priority;
  started_at = none;
  heartbeat_at = none;
  error = some (stale_requeue_error r.error);
  retry_count = r.retry_count + 1;
}

unfoldable pub stale_failed_record : ℕ → QueuedTaskRecord → QueuedTaskRecord
stale_failed_record now r = record r {
  status = failed;
  completed_at = some now;
  heartbeat_at = none;
  error = some stale_heartbeat_error;
}

abbrev pub count_requeued : ℕ → StaleTaskRecoveryResult → StaleTaskRecoveryResult
count_requeued id x = record x {
  requeued = x.requeued + 1;
  requeued_task_ids = x.requeued_task_ids ++ id ∷ [];
}

abbrev pub count_failed : ℕ → Bool → StaleTaskRecoveryResult → StaleTaskRecoveryResult
count_failed id handler x = record x {
  failed_count = x.failed_count + 1;
  failed_task_ids = x.failed_task_ids ++ id ∷ [];
  handler_needed = if handler then x.handler_needed + 1 else x.handler_needed;
  handler_needed_task_ids =
      if handler then x.handler_needed_task_ids ++ id ∷ [] else x.handler_needed_task_ids;
}

module _ (fl : Floats) (policy : StaleRequeuePriority) (now : ℕ) where
  abbrev prioritize : ℕ → QueuedTaskRecord → Recovery → ℕ × Option ℕ → Option ℤ → Recovery
  prioritize k r x at none = record x {
    records = insert k (rescheduled_record at r) x.records;
    raised = some queue_configuration_error;
  }
  prioritize k r x at (some priority) = record x {
    records = insert k (requeued_record at priority r) x.records;
    result = count_requeued r.id x.result;
  }

  abbrev reschedule : ℕ → QueuedTaskRecord → Recovery → Option (ℕ × Option ℕ) → Recovery
  reschedule k r x none = record x { raised = some arithmetic_error }
  reschedule k r x (some at) = prioritize k r x at (stale_requeue_priority r.priority policy)

  -- One candidate; `now` is the clock that it reads.
  unfoldable pub recover_one : ℕ → QueuedTaskRecord → Recovery → Recovery
  unfolding attempts_consumed retry_schedule stale_requeue_priority rescheduled_record
      requeued_record stale_failed_record requeue_on_stale
  recover_one k r x =
      if requeue_on_stale r && ltb_ℤ (attempts_consumed fl r) r.max_retries
      then reschedule k r x (retry_schedule fl r now)
      else record x {
        records = insert k (stale_failed_record now r) x.records;
        result = count_failed r.id (not (requeue_on_stale r)) x.result;
      }

-- `clock` has the reading for each candidate, by the key of its record.
unfoldable pub recover_loop :
    Floats → StaleRequeuePriority → (ℕ → ℕ) → List (ℕ × QueuedTaskRecord) → Recovery → Recovery
unfolding recover_one
recover_loop fl policy clock [] x = x
recover_loop fl policy clock ((k, r) ∷ rest) x =
    let x' = recover_one fl policy (clock k) k r x in
    let done = recover_loop fl policy clock rest x' in
    if some_and x'.raised (λ _. true) then x' else done

unfoldable pub stale_candidates :
    (now stale_after : ℕ) → Option ℕ → Dict ℕ QueuedTaskRecord → List (ℕ × QueuedTaskRecord)
unfolding is_stale staler sort
stale_candidates now stale_after limit d =
    take_limit limit (sort entry_staler (select (λ kv. is_stale now stale_after kv.1) d))

-- The error, if one was raised, stands in the third component; the records changed so far stay changed.
unfoldable pub requeue_stale_running :
    Memory
    → Floats
    → StaleRequeuePriority
    → (now stale_after : ℕ) → Option ℕ
    → (ℕ → ℕ)
    → Memory × StaleTaskRecoveryResult × Option QueueError
unfolding recover_loop stale_candidates
requeue_stale_running s fl policy now stale_after limit clock =
    let x =
      recover_loop fl policy clock (stale_candidates now stale_after limit s.records) (record {
        records = s.records;
        result = record {
          requeued = 0;
          failed_count = 0;
          skipped = 0;
          handler_needed = 0;
          requeued_task_ids = [];
          failed_task_ids = [];
          handler_needed_task_ids = [];
        };
        raised = none;
      }) in
    (record s { records = x.records }, x.result, x.raised)

-- The guards of the loop of `expire_overdue`.
unfoldable pub is_overdue : ℕ → QueuedTaskRecord → Bool
unfolding is_expired
is_overdue now r = is_waiting r.status && none_or r.execution_ref (λ _. false) && is_expired now r

-- `found` counts the records expired so far.
unfoldable pub expire_loop :
    ℕ → Option ℕ → ℕ → Dict ℕ QueuedTaskRecord → Dict ℕ QueuedTaskRecord × List QueuedTaskRecord
unfolding is_overdue expire_record
expire_loop now limit found [] = ([], [])
expire_loop now limit found ((k, r) ∷ d) =
    let pass = expire_loop now limit found d in
    let hit = expire_loop now limit (suc found) d in
    if some_and limit (λ n. leb n found)
    then ((k, r) ∷ d, [])
    else (if is_overdue now r
        then ((k, expire_record r now) ∷ hit.0, expire_record r now ∷ hit.1)
        else ((k, r) ∷ pass.0, pass.1))

unfoldable pub expire_overdue : Memory → ℕ → Option ℕ → Memory × List QueuedTaskRecord
unfolding expire_loop
expire_overdue s now limit =
    let (d, expired) = expire_loop now limit 0 s.records in (record s { records = d }, expired)

unfoldable pub is_aged : ℕ → QueuedTaskRecord → Bool
is_aged before r = is_terminal r && some_and r.completed_at (λ at. ltb at before)

-- The sort key `(completed_at, str(id))`.
unfoldable pub completed_before : QueuedTaskRecord → QueuedTaskRecord → Bool
completed_before a b =
    let ta : ℕ = or_else a.completed_at 0 in
    let tb : ℕ = or_else b.completed_at 0 in ltb ta tb || (leb ta tb && leb a.id b.id)

-- `if key is not None and keys.get(key) == id: del keys[key]`.
unfoldable pub forget_key : Option String → ℕ → Dict String ℕ → Dict String ℕ
forget_key none id keys = keys
forget_key (some key) id keys = if get key keys == some id then delete key keys else keys

unfoldable pub cleanup_loop : List QueuedTaskRecord → Memory → Memory
unfolding forget_key
cleanup_loop [] s = s
cleanup_loop (r ∷ rs) s =
    cleanup_loop rs
      (record s { records = delete r.id s.records; keys = forget_key r.key r.id s.keys })

unfoldable pub cleanup_candidates : ℕ → Option ℕ → Memory → List QueuedTaskRecord
unfolding is_aged completed_before sort
cleanup_candidates before limit s =
    take_limit limit (sort completed_before (select (is_aged before) (map (λ kv. kv.1) s.records)))

unfoldable pub cleanup_terminal : Memory → ℕ → Option ℕ → Memory × ℕ
unfolding cleanup_loop cleanup_candidates
cleanup_terminal s before limit =
    let doomed = cleanup_candidates before limit s in (cleanup_loop doomed s, length doomed)
