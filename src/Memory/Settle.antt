-- ===== src/Memory/Settle.antt =====
-- `complete_task`, `fail_task`, `cancel_task`, `cancel_tasks`, `interrupt_task`, `touch_heartbeats` and
-- `null_heartbeats`.
pub mod Heartbeats
pub mod Retry
pub mod Touches
use litestar_queues.Base.{
  ℕ, ◌+◌, suc, Bool, true, false, not, Option, none, some, List, [], ◌∷◌, ◌++◌, String, ◌&&◌, ◌||◌,
  Dict, get, insert, update, nat_eq, string_eq, option_eq, ◌==◌, if◌then◌else◌, none_or, some_and,
  or_else, ltb, any, ℤ, pos, ltb_ℤ,
}
use litestar_queues.Models.{
  Value, integer, Floats, QueuedTaskRecord, TaskStatus, pending, scheduled, running, completed,
  failed, cancelled, is_waiting, is_running, HeartbeatTouch, HeartbeatTouchResult,
}
use litestar_queues.Backend.{interruption_count, attempts_consumed, record_matches_filters}
use litestar_queues.Memory.State.{Memory, Effect, keep, write, on_record}

-- `expected_retry_count is not None and (status != "running" or retry_count != expected)`.
unfoldable pub is_fenced_off : Option ℕ → QueuedTaskRecord → Bool
is_fenced_off expected r =
    some_and expected (λ n. not (is_running r.status) || not (r.retry_count == n))

unfoldable pub complete_record :
    ℕ → Value → Option ℕ → QueuedTaskRecord → Effect (Option QueuedTaskRecord)
unfolding is_fenced_off
complete_record now result expected r =
    if is_fenced_off expected r
    then keep none
    else (let r' = record r {
      status = completed;
      completed_at = some now;
      heartbeat_at = none;
      result = result;
      error = none;
    } in
        write r' (some r'))

unfoldable pub complete_task : Memory → ℕ → ℕ → Value → Option ℕ → Memory × Option QueuedTaskRecord
unfolding complete_record
complete_task s task_id now result expected =
    on_record s task_id none (complete_record now result expected)

-- The branch of `fail_task` that schedules a retry, after `record.error = error`.
unfoldable pub retry_record : ℕ → Option ℕ → QueuedTaskRecord → QueuedTaskRecord
retry_record now retry_at r = record r {
  retry_count = r.retry_count + 1;
  queued_at = now;
  scheduled_at = retry_at;
  status = if some_and retry_at (λ at. ltb now at) then scheduled else pending;
  started_at = none;
  heartbeat_at = none;
}

unfoldable pub fail_record :
    Floats
    → ℕ
    → String
    → Bool
    → Option ℕ
    → (retry_at queued_at : Option ℕ) → QueuedTaskRecord
    → Effect (Option QueuedTaskRecord)
unfolding is_fenced_off attempts_consumed interruption_count retry_record
fail_record fl now error retry expected retry_at queued_at r =
    if is_fenced_off expected r
    then keep none
    else (let noted = record r { error = some error } in
        if retry && ltb_ℤ (attempts_consumed fl noted) noted.max_retries
        then (let r' = retry_record (or_else queued_at now) retry_at noted in write r' (some r'))
        else (let r' = record noted {
          status = failed;
          completed_at = some now;
          heartbeat_at = none;
        } in
            write r' (some r')))

unfoldable pub fail_task :
    Memory
    → Floats
    → ℕ
    → ℕ
    → String
    → Bool
    → Option ℕ
    → (retry_at queued_at : Option ℕ) → Memory × Option QueuedTaskRecord
unfolding fail_record
fail_task s fl task_id now error retry expected retry_at queued_at =
    on_record s task_id none (fail_record fl now error retry expected retry_at queued_at)

-- `status in cancellable_statuses`.
unfoldable pub is_cancellable : Bool → TaskStatus → Bool
is_cancellable include_running status = is_waiting status || (include_running && is_running status)

unfoldable pub cancelled_record : ℕ → QueuedTaskRecord → QueuedTaskRecord
cancelled_record now r = record r {
  status = cancelled;
  completed_at = some now;
  heartbeat_at = none;
}

unfoldable pub cancel_record : ℕ → Bool → Option ℕ → QueuedTaskRecord → Effect Bool
unfolding is_cancellable cancelled_record
cancel_record now include_running expected r =
    if not (is_cancellable include_running r.status)
      || some_and expected (λ n. not (r.retry_count == n))
    then keep false
    else write (cancelled_record now r) true

unfoldable pub cancel_task : Memory → ℕ → ℕ → Bool → Option ℕ → Memory × Bool
unfolding cancel_record
cancel_task s task_id now include_running expected =
    on_record s task_id false (cancel_record now include_running expected)

unfoldable pub interrupted_record : Floats → ℕ → QueuedTaskRecord → QueuedTaskRecord
unfolding interruption_count
interrupted_record fl queued_at r = record r {
  status = pending;
  queued_at = queued_at;
  scheduled_at = none;
  started_at = none;
  heartbeat_at = none;
  completed_at = none;
  execution_ref = none;
  worker_id = none;
  metadata = insert "interruptions" (integer (pos (interruption_count fl r + 1))) r.metadata;
  retry_count = r.retry_count + 1;
}

unfoldable pub interrupt_record :
    Floats → ℕ → String → ℕ → QueuedTaskRecord → Effect (Option QueuedTaskRecord)
unfolding interrupted_record
interrupt_record fl expected worker_id queued_at r =
    if not (is_running r.status)
      || not (r.retry_count == expected)
      || not (r.worker_id == some worker_id)
    then keep none
    else (let r' = interrupted_record fl queued_at r in write r' (some r'))

unfoldable pub interrupt_task :
    Memory → Floats → ℕ → ℕ → String → ℕ → Memory × Option QueuedTaskRecord
unfolding interrupt_record
interrupt_task s fl task_id expected worker_id queued_at =
    on_record s task_id none (interrupt_record fl expected worker_id queued_at)

-- What `cancel_tasks` is asked for.
pub record CancelFilter : Type 0 where
  pub task_name : Option String
  pub queue : Option String
  pub kwargs : Option (Dict String Value)
  pub metadata : Option (Dict String Value)
  pub include_running : Bool

unfoldable pub is_cancel_target : (Value → Value → Bool) → CancelFilter → QueuedTaskRecord → Bool
unfolding is_cancellable record_matches_filters
is_cancel_target same f r =
    is_cancellable f.include_running r.status
    && record_matches_filters same r f.task_name f.queue f.kwargs f.metadata

-- `clock` has the reading for each record. The last component counts the cancelled records.
unfoldable pub cancel_loop :
    (Value → Value → Bool)
    → CancelFilter
    → (ℕ → ℕ)
    → Dict ℕ QueuedTaskRecord
    → Dict ℕ QueuedTaskRecord × ℕ
unfolding is_cancel_target cancelled_record
cancel_loop same f clock [] = ([], 0)
cancel_loop same f clock ((k, r) ∷ d) =
    let (d', n) = cancel_loop same f clock d in
    if is_cancel_target same f r
    then ((k, cancelled_record (clock k) r) ∷ d', suc n)
    else ((k, r) ∷ d', n)

unfoldable pub cancel_tasks : Memory → (Value → Value → Bool) → CancelFilter → (ℕ → ℕ) → Memory × ℕ
unfolding cancel_loop
cancel_tasks s same f clock =
    let (d, n) = cancel_loop same f clock s.records in (record s { records = d }, n)

-- `set.add`.
unfoldable pub set_add : ℕ → List ℕ → List ℕ
set_add i is = if any (λ j. i == j) is then is else is ++ i ∷ []

unfoldable pub touched_record : ℕ → HeartbeatTouch → QueuedTaskRecord → QueuedTaskRecord
touched_record now t r = record r {
  heartbeat_at = some now;
  metadata = elim t.metadata_patch [ none ↦ r.metadata | some patch ↦ update r.metadata patch ];
}

-- Whether the touch was taken.
unfoldable pub touch_record : ℕ → HeartbeatTouch → QueuedTaskRecord → Effect Bool
unfolding touched_record
touch_record now t r =
    if not (is_running r.status)
    then keep false
    else (if not (none_or t.expected_retry_count (λ n. r.retry_count == n))
        then keep false
        else write (touched_record now t r) true)

unfoldable pub touch_loop :
    ℕ → Memory → List HeartbeatTouch → HeartbeatTouchResult → Memory × HeartbeatTouchResult
unfolding touch_record set_add
touch_loop now s [] result = (s, result)
touch_loop now s (t ∷ ts) result =
    let (s', taken) = on_record s t.task_id false (touch_record now t) in
    touch_loop now s' ts (
      if taken
      then record result { touched_task_ids = set_add t.task_id result.touched_task_ids }
      else record result { missed_task_ids = set_add t.task_id result.missed_task_ids })

unfoldable pub touch_heartbeats : Memory → ℕ → List HeartbeatTouch → Memory × HeartbeatTouchResult
unfolding touch_loop
touch_heartbeats s now touches =
    touch_loop now s touches (record { touched_task_ids = []; missed_task_ids = [] })

unfoldable pub null_loop : List ℕ → Option ℕ → Dict ℕ QueuedTaskRecord → Dict ℕ QueuedTaskRecord
null_loop task_ids expected [] = []
null_loop task_ids expected ((k, r) ∷ d) =
    (
      k,
      if any (λ j. k == j) task_ids && none_or expected (λ n. r.retry_count == n)
          then record r { heartbeat_at = none }
          else r,
    )
    ∷ null_loop task_ids expected d

unfoldable pub null_heartbeats : Memory → List ℕ → Option ℕ → Memory
unfolding null_loop
null_heartbeats s task_ids expected = record s { records = null_loop task_ids expected s.records }
