-- ===== src/Ephemeral/Batch.antt =====
-- `claim_many`, `claim_many_with_expired` and `expire_overdue`.
pub mod Limits
use litestar_queues.Base.{
  ℕ, zero, suc, Bool, true, false, not, Option, none, some, List, [], ◌∷◌, ◌++◌, String, ◌&&◌, ◌||◌,
  Dict, insert, nat_eq, string_eq, ◌==◌, if◌then◌else◌, none_or, some_and, or_else, ltb, leb,
  length, take, select, any, map, sort, values, ℤ, ◌⊎◌, inl, inr,
}
use litestar_queues.Models.{QueuedTaskRecord, TaskStatus, is_waiting}
use litestar_queues.Backend.{is_external_dispatch_reservation}
use litestar_queues.Memory.State.{expire_record}
use litestar_queues.Memory.Claim.{assign_record, claim_record, start}
use litestar_queues.Memory.Dispatch.{take_limit}
use litestar_queues.Ephemeral.Database.{
  Row, Database, Failure, recursion_error, Operation, pure, ◌>>=◌, ◌>>◌, done, bind, commit,
  EphemeralQueueBackend, on_row, on_row_where, write_record, update_row, columns, transaction,
  row_before, decode_all,
}
use litestar_queues.Ephemeral.Claim.{answer, is_ready_row, is_unreserved, select_ready}

-- `for record in expired: _expire_record(record, now); _write(connection, record)`.
unfoldable pub expire_all : ℕ → List QueuedTaskRecord → Operation (List QueuedTaskRecord)
unfolding expire_record update_row columns
expire_all now [] = pure []
expire_all now (r ∷ rs) = do
  write_record (expire_record r now)
  late ← expire_all now rs
  pure (expire_record r now ∷ late)

-- `status IN (…) AND expires_at IS NOT NULL AND expires_at <= ?`.
unfoldable pub is_late_row : ℕ → Row → Bool
is_late_row now row = is_waiting row.status && some_and row.expires_at (λ at. leb at now)

-- `not queues or record.queue in queues`, and the same for the execution backend.
unfoldable pub is_wanted : List String → Option String → (queue backend : String) → Bool
is_wanted queues execution_backend queue backend =
    (not (leb 1 (length queues)) || any (λ q. queue == q) queues)
    && none_or execution_backend (λ name. backend == name)

unfoldable pub late_records : ℕ → List String → Option String → Database → List QueuedTaskRecord
unfolding is_late_row is_unreserved is_wanted decode_all
late_records now queues backend d =
    select (λ r. is_unreserved r && is_wanted queues backend r.queue r.execution_backend)
      (decode_all (select (λ kv. is_late_row now kv.1) d.queue_task))

-- The loop over the rows to claim.
unfoldable pub claim_all : ℕ → List QueuedTaskRecord → Operation (List QueuedTaskRecord)
unfolding is_unreserved start update_row columns
claim_all now [] = pure []
claim_all now (r ∷ rs) =
    let rest = claim_all now rs in
    if not (is_unreserved r)
    then rest
    else (do write_record (start now r); claimed ← rest; pure (start now r ∷ claimed))

-- The operation of `claim_many_with_expired`.
unfoldable pub claim_batch :
    ℕ → ℕ → List String → Option String → Operation (List QueuedTaskRecord × List QueuedTaskRecord)
unfolding late_records expire_all select_ready claim_all is_ready_row is_wanted
claim_batch now limit queues backend d =
    bind (expire_all now (late_records now queues backend d) d) λ expired after_expiry.
      bind
        (claim_all now
          (select_ready
            (λ row.
              is_ready_row now row && is_wanted queues backend row.queue row.execution_backend)
            limit after_expiry)
          after_expiry)
        λ claimed. pure (claimed, expired)

-- `ORDER BY expires_at ASC, created_at ASC, id ASC`.
unfoldable pub expires_before : ℕ × Row → ℕ × Row → Bool
expires_before (i, a) (j, b) =
    let ta : ℕ = or_else a.expires_at 0 in
    let tb : ℕ = or_else b.expires_at 0 in
    ltb ta tb
    || (leb ta tb && (ltb a.created_at b.created_at || (leb a.created_at b.created_at && leb i j)))

unfoldable pub overdue_records : ℕ → Option ℕ → Database → List QueuedTaskRecord
unfolding is_late_row expires_before sort decode_all
overdue_records now limit d =
    select (λ r. none_or r.execution_ref (λ _. false))
      (decode_all
        (take_limit limit (sort expires_before (select (λ kv. is_late_row now kv.1) d.queue_task))))

unfoldable pub expire_overdue :
    EphemeralQueueBackend → ℕ → Option ℕ → EphemeralQueueBackend × (Failure ⊎ List QueuedTaskRecord)
unfolding overdue_records expire_all transaction
expire_overdue b now limit = transaction b (λ d. expire_all now (overdue_records now limit d) d)

-- `list({record.id: record for record in expired}.values())`.
abbrev pub unique_by_id : List QueuedTaskRecord → Dict ℕ QueuedTaskRecord → List QueuedTaskRecord
unique_by_id [] seen = values seen
unique_by_id (r ∷ rs) seen = unique_by_id rs (insert r.id r seen)

module _ {S : Type 0} (sweep : S → S × (Failure ⊎ List QueuedTaskRecord)) where
  abbrev pub default_end :
      (expired claimed : List QueuedTaskRecord)
      → S × (Failure ⊎ List QueuedTaskRecord)
      → S × (Failure ⊎ (List QueuedTaskRecord × List QueuedTaskRecord))
  default_end expired claimed x = answer (λ more. (claimed, unique_by_id (expired ++ more) [])) x

  abbrev pub default_claimed :
      (expired : List QueuedTaskRecord)
      → S × (Failure ⊎ List QueuedTaskRecord)
      → S × (Failure ⊎ (List QueuedTaskRecord × List QueuedTaskRecord))
  default_claimed expired (b, inl e) = (b, inl e)
  default_claimed expired (b, inr claimed) = default_end expired claimed (sweep b)

abbrev pub default_swept :
    {S : Type 0}
    → (later : S → S × (Failure ⊎ List QueuedTaskRecord))
    → (claim : S → S × (Failure ⊎ List QueuedTaskRecord)) → S × (Failure ⊎ List QueuedTaskRecord)
    → S × (Failure ⊎ (List QueuedTaskRecord × List QueuedTaskRecord))
default_swept later claim (b, inl e) = (b, inl e)
default_swept later claim (b, inr expired) = default_claimed later expired (claim b)

-- `claim_many_with_expired` of base.py: a sweep, the claim, a second sweep.
unfoldable pub default_claim_many_with_expired :
    {S : Type 0}
    → (sweep later claim : S → S × (Failure ⊎ List QueuedTaskRecord)) → S
    → S × (Failure ⊎ (List QueuedTaskRecord × List QueuedTaskRecord))
default_claim_many_with_expired sweep later claim b = default_swept later claim (sweep b)

-- `depth` is the number of nested calls that the interpreter's stack has room for, and `clock` has the
-- readings at each depth: of the transaction, and of the two sweeps. With queue limits the default of
-- base.py runs, whose `self.claim_many` is the one of this class and awaits this method again.
unfoldable pub claim_many_with_expired :
    (depth : ℕ)
    → EphemeralQueueBackend
    → (ℕ → ℕ × ℕ × ℕ)
    → (limit : ℕ) → List String
    → Option String
    → Option (Dict String ℤ)
    → EphemeralQueueBackend × (Failure ⊎ (List QueuedTaskRecord × List QueuedTaskRecord))
unfolding claim_batch transaction default_claim_many_with_expired expire_overdue
claim_many_with_expired zero b clock limit queues backend queue_limits = (b, inl recursion_error)
claim_many_with_expired (suc depth) b clock limit queues backend none =
    if limit == 0
    then (b, inr ([], []))
    else transaction b (claim_batch (clock depth).0 limit queues backend)
claim_many_with_expired (suc depth) b clock limit queues backend (some queue_limits) =
    default_claim_many_with_expired (λ c. expire_overdue c (clock depth).1 none)
      (λ c. expire_overdue c (clock depth).2 none)
      (λ c.
        answer (λ both. both.0)
          (claim_many_with_expired depth c clock limit queues backend (some queue_limits)))
      b

unfoldable pub claim_many :
    (depth : ℕ)
    → EphemeralQueueBackend
    → (ℕ → ℕ × ℕ × ℕ)
    → (limit : ℕ) → List String
    → Option String
    → Option (Dict String ℤ)
    → EphemeralQueueBackend × (Failure ⊎ List QueuedTaskRecord)
unfolding claim_many_with_expired
claim_many depth b clock limit queues backend queue_limits =
    answer (λ both. both.0)
      (claim_many_with_expired depth b clock limit queues backend queue_limits)
