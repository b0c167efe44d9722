-- ===== src/Ephemeral/Dispatch.antt =====
-- External dispatch: repair candidates, reservations, references and the list of external executions.
use litestar_queues.Base.{
  ℕ, Bool, true, false, not, Option, none, some, List, [], ◌∷◌, String, ◌&&◌, ◌||◌, nat_eq,
  string_eq, option_eq, ◌==◌, if◌then◌else◌, none_or, some_and, or_else, ltb, leb, length, take,
  select, sort, ◌⊎◌, inr,
}
use litestar_queues.Models.{QueuedTaskRecord, is_waiting, is_terminal_status}
use litestar_queues.Backend.{DispatchRepairCandidates}
use litestar_queues.Memory.State.{Effect, keep, write}
use litestar_queues.Memory.Dispatch.{
  checked_record, reserve_record, switch_record, release_record, finalize_record, route_record,
  started_before, take_limit,
}
use litestar_queues.Ephemeral.Database.{
  Row, Database, Failure, Operation, pure, ◌>>=◌, ◌>>◌, bind, EphemeralQueueBackend, on_row,
  on_row_where, write_record, update_row, columns, transaction, decode_all,
}
use litestar_queues.Ephemeral.Enqueue.{after, notify_new_task}

unfoldable pub is_repair_row : ℕ → String → Row → Bool
is_repair_row now backend row =
    row.execution_backend == backend
    && is_waiting row.status
    && none_or row.expires_at (λ at. ltb now at)

-- `ORDER BY COALESCE(dispatch_checked_at, created_at), id`.
unfoldable pub row_checked_before : ℕ × Row → ℕ × Row → Bool
row_checked_before (i, a) (j, b) =
    let ta : ℕ = or_else a.dispatch_checked_at a.created_at in
    let tb : ℕ = or_else b.dispatch_checked_at b.created_at in ltb ta tb || (leb ta tb && leb i j)

-- The loop that marks the records, with the records as they are after it.
unfoldable pub mark_all : ℕ → List QueuedTaskRecord → Operation (List QueuedTaskRecord)
unfolding checked_record update_row columns
mark_all now [] = pure []
mark_all now (r ∷ rs) =
    let rest = mark_all now rs in
    if none_or r.dispatch_checked_at (λ at. ltb at now)
    then (do
      write_record (checked_record now r)
      marked ← rest
      pure (checked_record now r ∷ marked))
    else (do marked ← rest; pure (r ∷ marked))

unfoldable pub repair_rows : ℕ → String → ℕ → Database → List (ℕ × Row)
unfolding is_repair_row row_checked_before sort
repair_rows now backend limit d =
    take limit
      (sort row_checked_before (select (λ kv. is_repair_row now backend kv.1) d.queue_task))

-- The operation of `list_dispatch_repair_candidates`.
unfoldable pub examine : ℕ → String → ℕ → Operation DispatchRepairCandidates
unfolding repair_rows mark_all decode_all
examine now backend limit d =
    let rows = repair_rows now backend limit d in
    bind (mark_all now (decode_all rows) d) λ records.
      pure
        (record { records = records; examined = length rows; limit_reached = length rows == limit })

-- A negative limit raises in the source.
unfoldable pub list_dispatch_repair_candidates :
    EphemeralQueueBackend
    → ℕ
    → String
    → ℕ
    → EphemeralQueueBackend × (Failure ⊎ DispatchRepairCandidates)
unfolding examine transaction
list_dispatch_repair_candidates b now backend limit =
    if limit == 0
    then (b, inr (record { records = []; examined = 0; limit_reached = false }))
    else transaction b (examine now backend limit)

-- The statement's conditions on the columns.
unfoldable pub is_reservable_row : ℕ → String → ℕ → Row → Bool
is_reservable_row now execution_backend retries row =
    row.execution_backend == execution_backend
    && row.retry_count == retries
    && is_waiting row.status
    && none_or row.expires_at (λ at. ltb now at)

-- What follows the decoding.
unfoldable pub refer_record :
    Option String → String → QueuedTaskRecord → Effect (Option QueuedTaskRecord)
refer_record ref execution_ref r =
    if not (r.execution_ref == ref)
    then keep none
    else (let r' = record r { execution_ref = some execution_ref } in write r' (some r'))

unfoldable pub reserve_scheduled_execution_ref :
    EphemeralQueueBackend
    → ℕ
    → ℕ
    → (execution_backend execution_ref : String) → ℕ
    → Option String
    → EphemeralQueueBackend × (Failure ⊎ Option QueuedTaskRecord)
unfolding on_row_where transaction is_reservable_row refer_record
reserve_scheduled_execution_ref b task_id now execution_backend execution_ref retries ref =
    transaction b (
      on_row_where (is_reservable_row now execution_backend retries) task_id none
        (refer_record ref execution_ref))

unfoldable pub reserve_external_dispatch :
    EphemeralQueueBackend
    → ℕ
    → (now due : ℕ) → (execution_backend reservation_ref : String) → Option String
    → Option ℕ
    → EphemeralQueueBackend × (Failure ⊎ Option QueuedTaskRecord)
unfolding on_row_where transaction reserve_record
reserve_external_dispatch b task_id now due execution_backend reservation_ref profile expected =
    transaction b (
      on_row task_id none
        (reserve_record now due execution_backend reservation_ref profile expected))

-- `if record is not None: await self.notify_new_task(record)`.
abbrev pub notify_found :
    ℕ → Option QueuedTaskRecord → EphemeralQueueBackend → EphemeralQueueBackend
notify_found seen none b = b
notify_found seen (some r) b = notify_new_task seen r b

unfoldable pub clear_execution_ref :
    EphemeralQueueBackend
    → ℕ
    → ℕ
    → ℕ
    → String
    → EphemeralQueueBackend × (Failure ⊎ Option QueuedTaskRecord)
unfolding on_row_where transaction switch_record notify_new_task
clear_execution_ref b task_id seen retries ref =
    after (transaction b (on_row task_id none (switch_record retries ref none))) (notify_found seen)

unfoldable pub replace_execution_ref :
    EphemeralQueueBackend
    → ℕ
    → ℕ
    → (expected_execution_ref execution_ref : String)
    → EphemeralQueueBackend × (Failure ⊎ Option QueuedTaskRecord)
unfolding on_row_where transaction switch_record
replace_execution_ref b task_id retries ref execution_ref =
    transaction b (on_row task_id none (switch_record retries ref (some execution_ref)))

unfoldable pub release_external_dispatch :
    EphemeralQueueBackend
    → ℕ
    → ℕ
    → (reservation_ref execution_backend : String) → Option String
    → EphemeralQueueBackend × (Failure ⊎ Option QueuedTaskRecord)
unfolding on_row_where transaction release_record notify_new_task
release_external_dispatch b task_id seen reservation_ref execution_backend profile =
    after
      (transaction b
        (on_row task_id none (release_record reservation_ref execution_backend profile)))
      (notify_found seen)

unfoldable pub finalize_external_dispatch :
    EphemeralQueueBackend
    → ℕ
    → (reservation_ref execution_backend execution_ref : String) → Option String
    → EphemeralQueueBackend × (Failure ⊎ Option QueuedTaskRecord)
unfolding on_row_where transaction finalize_record
finalize_external_dispatch b task_id reservation_ref execution_backend execution_ref profile =
    transaction b (
      on_row task_id none (finalize_record reservation_ref execution_backend execution_ref profile))

unfoldable pub set_execution_ref :
    EphemeralQueueBackend
    → ℕ
    → (execution_backend execution_ref : String) → Option String
    → EphemeralQueueBackend × (Failure ⊎ Option QueuedTaskRecord)
unfolding on_row_where transaction route_record
set_execution_ref b task_id execution_backend execution_ref profile =
    transaction b
      (on_row task_id none (route_record execution_backend profile (some execution_ref)))

unfoldable pub set_execution_backend :
    EphemeralQueueBackend
    → ℕ
    → ℕ
    → String
    → Option String
    → EphemeralQueueBackend × (Failure ⊎ Option QueuedTaskRecord)
unfolding on_row_where transaction route_record notify_new_task
set_execution_backend b task_id seen execution_backend profile =
    after (transaction b (on_row task_id none (route_record execution_backend profile none)))
      (notify_found seen)

unfoldable pub list_running_external : EphemeralQueueBackend → Option ℕ → List QueuedTaskRecord
unfolding started_before sort decode_all
list_running_external b limit = take_limit limit (
    sort started_before (
      select (λ r. some_and r.execution_ref (λ _. true))
        (decode_all (select (λ kv. not (is_terminal_status kv.1.status)) b.database.queue_task))))
