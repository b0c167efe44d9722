-- ===== src/Ephemeral/Claim.antt =====
-- `assign_worker`, `list_pending`, `claim_task` and `claim_task_with_expired`.
use litestar_queues.Base.{
  ℕ, Bool, not, Option, none, List, String, ◌&&◌, nat_eq, string_eq, ◌==◌, none_or, ltb, leb, take,
  select, sort, ◌⊎◌, inl, inr,
}
use litestar_queues.Models.{QueuedTaskRecord, is_waiting}
use litestar_queues.Backend.{is_external_dispatch_reservation}
use litestar_queues.Memory.Claim.{assign_record, claim_record}
use litestar_queues.Ephemeral.Database.{
  Row, Database, Failure, EphemeralQueueBackend, on_row, on_row_where, transaction, row_before,
  decode_all,
}

unfoldable pub assign_worker :
    EphemeralQueueBackend
    → ℕ
    → String
    → ℕ
    → EphemeralQueueBackend × (Failure ⊎ Option QueuedTaskRecord)
unfolding on_row_where transaction assign_record
assign_worker b task_id worker_id expected =
    transaction b (on_row task_id none (assign_record worker_id expected))

-- `status IN (…) AND (scheduled_at IS NULL OR scheduled_at <= ?) AND (expires_at IS NULL OR expires_at > ?)`.
unfoldable pub is_ready_row : ℕ → Row → Bool
is_ready_row now row =
    is_waiting row.status
    && none_or row.scheduled_at (λ at. leb at now)
    && none_or row.expires_at (λ at. ltb now at)

unfoldable pub is_unreserved : QueuedTaskRecord → Bool
unfolding is_external_dispatch_reservation
is_unreserved r = not (is_external_dispatch_reservation r.execution_ref)

-- The statement of `list_pending` and of the claims: its test of a row, its order and its limit.
unfoldable pub select_ready : (Row → Bool) → ℕ → Database → List QueuedTaskRecord
unfolding row_before sort decode_all
select_ready test limit d =
    decode_all (take limit (sort row_before (select (λ kv. test kv.1) d.queue_task)))

unfoldable pub is_pending_row : ℕ → (queue backend : Option String) → Row → Bool
unfolding is_ready_row
is_pending_row now queue backend row =
    is_ready_row now row
    && none_or queue (λ name. row.queue == name)
    && none_or backend (λ name. row.execution_backend == name)

unfoldable pub list_pending :
    EphemeralQueueBackend → ℕ → ℕ → (queue backend : Option String) → List QueuedTaskRecord
unfolding select_ready is_pending_row is_unreserved
list_pending b now limit queue backend =
    select is_unreserved (select_ready (is_pending_row now queue backend) limit b.database)

-- `due` is the reading of `is_due`.
unfoldable pub claim_task_with_expired :
    EphemeralQueueBackend
    → ℕ
    → (due now : ℕ) → Option ℕ
    → Option String
    → EphemeralQueueBackend × (Failure ⊎ (Option QueuedTaskRecord × Option QueuedTaskRecord))
unfolding on_row_where transaction claim_record
claim_task_with_expired b task_id due now expected_retry_count expected_execution_ref =
    transaction b (
      on_row task_id (none, none)
        (claim_record due now expected_retry_count expected_execution_ref))

-- A method that awaits another one and returns a part of its answer.
abbrev pub answer {ℓ κ μ} :
    {S : Type μ} {A : Type ℓ} {B : Type κ} → (A → B) → S × (Failure ⊎ A) → S × (Failure ⊎ B)
answer f (b, inl e) = (b, inl e)
answer f (b, inr a) = (b, inr (f a))

unfoldable pub claim_task :
    EphemeralQueueBackend
    → ℕ
    → (due now : ℕ) → Option ℕ
    → Option String
    → EphemeralQueueBackend × (Failure ⊎ Option QueuedTaskRecord)
unfolding claim_task_with_expired
claim_task b task_id due now expected_retry_count expected_execution_ref =
    answer (λ both. both.0)
      (claim_task_with_expired b task_id due now expected_retry_count expected_execution_ref)
