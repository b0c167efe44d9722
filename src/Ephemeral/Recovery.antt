-- ===== src/Ephemeral/Recovery.antt =====
-- `requeue_stale_running` and `cleanup_terminal`.
pub mod Reports
use litestar_queues.Base.{
  ℕ, ◌+◌, suc, Bool, true, false, not, Option, none, some, List, [], ◌∷◌, ◌++◌, String, ◌&&◌, ◌||◌,
  Dict, delete, nat_eq, ◌==◌, if◌then◌else◌, none_or, some_and, or_else, ltb, leb, length, select,
  sort, map, ltb_ℤ, ℤ, ◌⊎◌, inl, inr,
}
use litestar_queues.Models.{
  Floats, QueuedTaskRecord, TaskStatus, is_running, is_terminal_status, StaleTaskRecoveryResult,
}
use litestar_queues.Backend.{
  QueueError, queue_configuration_error, arithmetic_error, StaleRequeuePriority, attempts_consumed,
  retry_schedule, stale_requeue_priority,
}
use litestar_queues.Memory.Dispatch.{take_limit}
use litestar_queues.Memory.Recovery.{
  staler, requeue_on_stale, requeued_record, stale_failed_record, count_failed,
}
use litestar_queues.Ephemeral.Database.{
  Row, Database, Failure, queue_failure, Operation, pure, ◌>>=◌, ◌>>◌, done, raised, bind, commit,
  EphemeralQueueBackend, write_record, update_row, columns, transaction, decode_all,
}

-- `heartbeat_at is None or heartbeat_at < now - stale_after`.
unfoldable pub is_silent : (now stale_after : ℕ) → QueuedTaskRecord → Bool
is_silent now stale_after r = none_or r.heartbeat_at (λ at. ltb (at + stale_after) now)

-- The candidates, in the order of `_stale_sort_key`.
unfoldable pub stale_records : (now stale_after : ℕ) → Option ℕ → Database → List QueuedTaskRecord
unfolding is_silent staler sort decode_all
stale_records now stale_after limit d = take_limit limit (
    sort staler (
      select (is_silent now stale_after)
        (decode_all (select (λ kv. is_running kv.1.status) d.queue_task))))

-- `result.requeued += 1`.
unfoldable pub count_requeued : StaleTaskRecoveryResult → StaleTaskRecoveryResult
count_requeued x = record x { requeued = x.requeued + 1 }

-- A helper that may raise, within an operation.
abbrev pub attempt {ℓ} :
    {A : Type ℓ} {B : Type 0} → QueueError → Option A → (A → Operation B) → Operation B
attempt e none f d = raised (queue_failure e)
attempt e (some a) f d = f a d

module _ (fl : Floats) (policy : StaleRequeuePriority) (now : ℕ) where
  -- One candidate of the loop.
  unfoldable pub recover_one :
      QueuedTaskRecord → StaleTaskRecoveryResult → Operation StaleTaskRecoveryResult
  unfolding requeue_on_stale attempts_consumed retry_schedule stale_requeue_priority requeued_record
      stale_failed_record count_requeued update_row columns
  recover_one r x =
      if requeue_on_stale r && ltb_ℤ (attempts_consumed fl r) r.max_retries
      then attempt arithmetic_error (retry_schedule fl r now) (λ at.
        attempt queue_configuration_error (stale_requeue_priority r.priority policy)
          (λ priority. write_record (requeued_record at priority r) >> pure (count_requeued x)))
      else write_record (stale_failed_record now r)
        >> pure (count_failed r.id (not (requeue_on_stale r)) x)

  unfoldable pub recover_all :
      List QueuedTaskRecord → StaleTaskRecoveryResult → Operation StaleTaskRecoveryResult
  unfolding recover_one
  recover_all [] x = pure x
  recover_all (r ∷ rs) x = recover_one r x >>= recover_all rs

-- The empty `StaleTaskRecoveryResult()`.
abbrev pub no_recovery : StaleTaskRecoveryResult
no_recovery = record {
  requeued = 0;
  failed_count = 0;
  skipped = 0;
  handler_needed = 0;
  requeued_task_ids = [];
  failed_task_ids = [];
  handler_needed_task_ids = [];
}

unfoldable pub recover :
    Floats
    → StaleRequeuePriority
    → (now stale_after : ℕ) → Option ℕ
    → Operation StaleTaskRecoveryResult
unfolding recover_all stale_records
recover fl policy now stale_after limit d =
    recover_all fl policy now (stale_records now stale_after limit d) no_recovery d

unfoldable pub requeue_stale_running :
    EphemeralQueueBackend
    → Floats
    → StaleRequeuePriority
    → (now stale_after : ℕ) → Option ℕ
    → EphemeralQueueBackend × (Failure ⊎ StaleTaskRecoveryResult)
unfolding recover transaction
requeue_stale_running b fl policy now stale_after limit =
    transaction b (recover fl policy now stale_after limit)

-- `status IN (…) AND completed_at IS NOT NULL AND completed_at < ?`.
unfoldable pub is_aged_row : ℕ → Row → Bool
is_aged_row before row =
    is_terminal_status row.status && some_and row.completed_at (λ at. ltb at before)

-- `ORDER BY completed_at ASC, id ASC`.
unfoldable pub row_completed_before : ℕ × Row → ℕ × Row → Bool
row_completed_before (i, a) (j, b) =
    let ta : ℕ = or_else a.completed_at 0 in
    let tb : ℕ = or_else b.completed_at 0 in ltb ta tb || (leb ta tb && leb i j)

unfoldable pub aged_ids : ℕ → Option ℕ → Database → List ℕ
unfolding is_aged_row row_completed_before sort
aged_ids before limit d =
    map (λ kv. kv.0)
      (take_limit limit
        (sort row_completed_before (select (λ kv. is_aged_row before kv.1) d.queue_task)))

unfoldable pub delete_all : List ℕ → Dict ℕ Row → Dict ℕ Row
unfolding delete
delete_all [] rows = rows
delete_all (i ∷ is) rows = delete_all is (delete i rows)

unfoldable pub cleanup_terminal :
    EphemeralQueueBackend → ℕ → Option ℕ → EphemeralQueueBackend × (Failure ⊎ ℕ)
unfolding aged_ids delete_all transaction
cleanup_terminal b before limit = transaction b λ d.
    let ids = aged_ids before limit d in
    done (length ids) (record d { queue_task = delete_all ids d.queue_task })
