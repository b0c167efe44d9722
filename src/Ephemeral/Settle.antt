-- ===== src/Ephemeral/Settle.antt =====
-- `complete_task`, `fail_task`, `cancel_task`, `interrupt_task`, `cancel_tasks`, `touch_heartbeats` and
-- `null_heartbeats`.
use litestar_queues.Base.{
  ℕ, suc, Bool, true, false, not, Option, none, List, [], ◌∷◌, String, nat_eq, string_eq, ◌==◌,
  if◌then◌else◌, none_or, any, select, ◌⊎◌, inr,
}
use litestar_queues.Models.{Value, Floats, QueuedTaskRecord, HeartbeatTouch, HeartbeatTouchResult}
use litestar_queues.Backend.{record_matches_filters}
use litestar_queues.Memory.State.{Effect, keep, write}
use litestar_queues.Memory.Settle.{
  complete_record, fail_record, cancel_record, interrupt_record, cancelled_record, is_cancellable,
  CancelFilter, touch_record, set_add,
}
use litestar_queues.Ephemeral.Database.{
  Failure, Operation, pure, ◌>>=◌, ◌>>◌, EphemeralQueueBackend, on_row, on_row_where, write_record,
  update_row, columns, transaction, decode_all,
}

-- The four methods that settle one record. `_locked_record` is the fence of the first two.
unfoldable pub complete_task :
    EphemeralQueueBackend
    → ℕ
    → ℕ
    → Value
    → Option ℕ
    → EphemeralQueueBackend × (Failure ⊎ Option QueuedTaskRecord)
unfolding on_row_where transaction complete_record
complete_task b task_id now result expected =
    transaction b (on_row task_id none (complete_record now result expected))

unfoldable pub fail_task :
    EphemeralQueueBackend
    → Floats
    → ℕ
    → ℕ
    → String
    → Bool
    → Option ℕ
    → (retry_at queued_at : Option ℕ) → EphemeralQueueBackend × (Failure ⊎ Option QueuedTaskRecord)
unfolding on_row_where transaction fail_record
fail_task b fl task_id now error retry expected retry_at queued_at =
    transaction b (on_row task_id none (fail_record fl now error retry expected retry_at queued_at))

unfoldable pub cancel_task :
    EphemeralQueueBackend → ℕ → ℕ → Bool → Option ℕ → EphemeralQueueBackend × (Failure ⊎ Bool)
unfolding on_row_where transaction cancel_record
cancel_task b task_id now include_running expected =
    transaction b (on_row task_id false (cancel_record now include_running expected))

unfoldable pub interrupt_task :
    EphemeralQueueBackend
    → Floats
    → ℕ
    → ℕ
    → String
    → ℕ
    → EphemeralQueueBackend × (Failure ⊎ Option QueuedTaskRecord)
unfolding on_row_where transaction interrupt_record
interrupt_task b fl task_id expected worker_id queued_at =
    transaction b (on_row task_id none (interrupt_record fl expected worker_id queued_at))

-- The loop of `cancel_tasks`, over the decoded rows; one reading of the clock serves all.
unfoldable pub cancel_all :
    (Value → Value → Bool) → CancelFilter → ℕ → List QueuedTaskRecord → Operation ℕ
unfolding record_matches_filters cancelled_record update_row columns
cancel_all same f now [] = pure 0
cancel_all same f now (r ∷ rs) =
    let rest = cancel_all same f now rs in
    if not (record_matches_filters same r f.task_name f.queue f.kwargs f.metadata)
    then rest
    else (do write_record (cancelled_record now r); n ← rest; pure (suc n))

unfoldable pub cancel_selected : (Value → Value → Bool) → CancelFilter → ℕ → Operation ℕ
unfolding cancel_all is_cancellable decode_all
cancel_selected same f now d =
    cancel_all same f now
      (decode_all (select (λ kv. is_cancellable f.include_running kv.1.status) d.queue_task)) d

unfoldable pub cancel_tasks :
    EphemeralQueueBackend
    → (Value → Value → Bool)
    → CancelFilter
    → ℕ
    → EphemeralQueueBackend × (Failure ⊎ ℕ)
unfolding cancel_selected transaction
cancel_tasks b same f now = transaction b (cancel_selected same f now)

abbrev pub note_touch : ℕ → HeartbeatTouchResult → Bool → HeartbeatTouchResult
note_touch task_id result true = record result {
  touched_task_ids = set_add task_id result.touched_task_ids;
}
note_touch task_id result false = record result {
  missed_task_ids = set_add task_id result.missed_task_ids;
}

unfoldable pub touch_all :
    ℕ → List HeartbeatTouch → HeartbeatTouchResult → Operation HeartbeatTouchResult
unfolding on_row_where touch_record set_add
touch_all now [] result = pure result
touch_all now (t ∷ ts) result = do
  taken ← on_row t.task_id false (touch_record now t)
  touch_all now ts (note_touch t.task_id result taken)

-- `HeartbeatTouchResult()`.
abbrev pub no_touches : HeartbeatTouchResult
no_touches = record { touched_task_ids = []; missed_task_ids = [] }

unfoldable pub touch_heartbeats :
    EphemeralQueueBackend
    → ℕ
    → List HeartbeatTouch
    → EphemeralQueueBackend × (Failure ⊎ HeartbeatTouchResult)
unfolding touch_all transaction
touch_heartbeats b now [] = (b, inr no_touches)
touch_heartbeats b now (t ∷ ts) = transaction b (touch_all now (t ∷ ts) no_touches)

-- The answer says nothing.
unfoldable pub null_record : Option ℕ → QueuedTaskRecord → Effect (Unit {0})
null_record expected r =
    if not (none_or expected (λ n. r.retry_count == n))
    then keep tt
    else write (record r { heartbeat_at = none }) tt

-- `for task_id in set(task_ids)`: an id that comes again is skipped.
unfoldable pub null_all : List ℕ → Option ℕ → Operation (Unit {0})
unfolding null_record on_row_where
null_all [] expected = pure tt
null_all (i ∷ is) expected =
    let rest = null_all is expected in
    if any (λ j. i == j) is then rest else (do on_row i tt (null_record expected); rest)

unfoldable pub null_heartbeats :
    EphemeralQueueBackend → List ℕ → Option ℕ → EphemeralQueueBackend × (Failure ⊎ Unit {0})
unfolding null_all transaction
null_heartbeats b [] expected = (b, inr tt)
null_heartbeats b (i ∷ is) expected = transaction b (null_all (i ∷ is) expected)
