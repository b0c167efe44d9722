-- ===== src/Ephemeral/Recovery/Reports.antt =====
-- What a stale recovery reports, and what it leaves when it raises.
use litestar_queues.Base.{
  ℕ, suc, ◌+◌, ◌≡◌, refl, true, false, not, Bool, Option, none, some, List, [], ◌∷◌, ◌&&◌, length,
  length-append, ◌⊎◌, inl, inr, arith, if◌then◌else◌, ltb_ℤ, subst, ℤ,
}
use litestar_queues.Models.{Floats, QueuedTaskRecord, StaleTaskRecoveryResult}
use litestar_queues.Backend.{
  QueueError, queue_configuration_error, arithmetic_error, StaleRequeuePriority, attempts_consumed,
  retry_schedule, stale_requeue_priority,
}
use litestar_queues.Memory.Recovery.{
  requeue_on_stale, requeued_record, stale_failed_record, count_failed,
}
use litestar_queues.Ephemeral.Database.{
  Database, Failure, EphemeralQueueBackend, Outcome, Operation, done, raised, bind, commit,
  transaction, write_record,
}
use litestar_queues.Ephemeral.Recovery.{
  recover_one, recover_all, requeue_stale_running, stale_records, count_requeued, attempt, recover,
  no_recovery,
}

-- The ids and the counts of a report go together, for `n` candidates; no requeued task is named.
pub record Reports (n : ℕ) (x : StaleTaskRecoveryResult) : Type 0 where
  pub handled : x.requeued + x.failed_count ≡ n
  pub failures : length x.failed_task_ids ≡ x.failed_count
  pub handlers : length x.handler_needed_task_ids ≡ x.handler_needed
  pub unnamed : x.requeued_task_ids ≡ []

-- The operation raises, or reports on `n` candidates.
abbrev ReportsOn : ℕ → Outcome StaleTaskRecoveryResult → Type 0
ReportsOn n (done x d) = Reports n x
ReportsOn n (raised e) = Unit

written :
    (n : ℕ) (o : Outcome (Unit {0})) (x : StaleTaskRecoveryResult)
    → Reports n x
    → ReportsOn n (bind o (λ _ d. done x d))
written n (done u d) x h = h
written n (raised e) x h = tt

requeued-Reports :
    (n : ℕ) (x : StaleTaskRecoveryResult) → Reports n x → Reports (suc n) (count_requeued x)
unfolding count_requeued
requeued-Reports n x h = record {
  handled = omega (arith, h.handled);
  failures = h.failures;
  handlers = h.handlers;
  unnamed = h.unnamed;
}

failed-Reports :
    (n id : ℕ) (b : Bool) (x : StaleTaskRecoveryResult)
    → Reports n x
    → Reports (suc n) (count_failed id b x)
failed-Reports n id true x h = record {
  handled = omega (arith, h.handled);
  failures = omega (arith, h.failures, length-append x.failed_task_ids (id ∷ []));
  handlers = omega (arith, h.handlers, length-append x.handler_needed_task_ids (id ∷ []));
  unnamed = h.unnamed;
}
failed-Reports n id false x h = record {
  handled = omega (arith, h.handled);
  failures = omega (arith, h.failures, length-append x.failed_task_ids (id ∷ []));
  handlers = h.handlers;
  unnamed = h.unnamed;
}

attempted :
    {A : Type 0} (n : ℕ) (e : QueueError) (o : Option A) (f : A → Operation StaleTaskRecoveryResult)
    (d : Database)
    → ((a : A) → ReportsOn n (f a d))
    → ReportsOn n (attempt e o f d)
attempted n e none f d h = tt
attempted n e (some a) f d h = h a

module _ (fl : Floats) (policy : StaleRequeuePriority) (now : ℕ) where
  recover_one-Reports :
      (n : ℕ) (r : QueuedTaskRecord) (x : StaleTaskRecoveryResult) (d : Database)
      → Reports n x
      → ReportsOn (suc n) (recover_one fl policy now r x d)
  unfolding recover_one
  recover_one-Reports n r x d h =
      elim (requeue_on_stale r && ltb_ℤ (attempts_consumed fl r) r.max_retries)
        as (λ c. ReportsOn (suc n) ((if c then again else over) d)) [
          | true ↦ attempted (suc n) arithmetic_error (retry_schedule fl r now) prioritized d λ at.
              attempted (suc n) queue_configuration_error (stale_requeue_priority r.priority policy)
                (requeue at) d
                λ priority.
                  written (suc n) (write_record (requeued_record at priority r) d)
                    (count_requeued x) (requeued-Reports n x h)
          | false ↦
              written (suc n) (write_record (stale_failed_record now r) d)
                (count_failed r.id (not (requeue_on_stale r)) x)
                (failed-Reports n r.id (not (requeue_on_stale r)) x h)
        ]
    where
      requeue : ℕ × Option ℕ → ℤ → Operation StaleTaskRecoveryResult
      requeue at priority d =
          bind (write_record (requeued_record at priority r) d) λ _ d. done (count_requeued x) d

      prioritized : ℕ × Option ℕ → Operation StaleTaskRecoveryResult
      prioritized at =
          attempt queue_configuration_error (stale_requeue_priority r.priority policy) (requeue at)

      again : Operation StaleTaskRecoveryResult
      again = attempt arithmetic_error (retry_schedule fl r now) prioritized

      over : Operation StaleTaskRecoveryResult
      over d =
          bind (write_record (stale_failed_record now r) d)
            λ _ d. done (count_failed r.id (not (requeue_on_stale r)) x) d

  then-Reports :
      (n k : ℕ) (o : Outcome StaleTaskRecoveryResult)
      (f : StaleTaskRecoveryResult → Operation StaleTaskRecoveryResult)
      → ReportsOn n o
      → ((x : StaleTaskRecoveryResult) (d : Database) → Reports n x → ReportsOn k (f x d))
      → ReportsOn k (bind o f)
  then-Reports n k (done x d) f h g = g x d h
  then-Reports n k (raised e) f h g = tt

  recover_all-Reports :
      (n : ℕ) (rs : List QueuedTaskRecord) (x : StaleTaskRecoveryResult) (d : Database)
      → Reports n x
      → ReportsOn (length rs + n) (recover_all fl policy now rs x d)
  unfolding recover_all
  recover_all-Reports n [] x d h = subst (λ m. Reports m x) (omega arith) h
  recover_all-Reports n (r ∷ rs) x d h =
      then-Reports (suc n) (suc (length rs) + n) (recover_one fl policy now r x d)
        (recover_all fl policy now rs) (recover_one-Reports n r x d h)
        (λ y d' k.
          subst (λ m. ReportsOn m (recover_all fl policy now rs y d')) (omega arith)
            (recover_all-Reports (suc n) rs y d' k))

-- What a transaction leaves of an operation that raises or reports.
abbrev pub Settled :
    EphemeralQueueBackend → ℕ → EphemeralQueueBackend × (Failure ⊎ StaleTaskRecoveryResult) → Type 0
Settled b n (b', inl e) = b' ≡ b
Settled b n (b', inr x) = Reports n x

commit-Settled :
    (b : EphemeralQueueBackend) (n : ℕ) (o : Outcome StaleTaskRecoveryResult)
    → ReportsOn n o
    → Settled b n (commit b o)
commit-Settled b n (done x d) h = h
commit-Settled b n (raised e) h = refl

-- A stale recovery that raises leaves the backend as it was. Otherwise every candidate is counted once, as
-- requeued or as failed, the ids of the failed tasks and of those that need a handler go with their
-- counts, and no requeued task is named, however many were requeued.
pub requeue_stale_running_settles :
    (b : EphemeralQueueBackend) (fl : Floats) (policy : StaleRequeuePriority) (now stale_after : ℕ)
    (limit : Option ℕ)
    → Settled b
        (length (stale_records now stale_after limit b.database))
        (requeue_stale_running b fl policy now stale_after limit)
unfolding requeue_stale_running transaction recover
requeue_stale_running_settles b fl policy now stale_after limit =
    let rs = stale_records now stale_after limit b.database in
    commit-Settled b (length rs) _ (
      subst (λ n. ReportsOn n (recover_all fl policy now rs no_recovery b.database)) (omega arith)
        (recover_all-Reports fl policy now 0 rs no_recovery b.database
          (record { handled = refl; failures = refl; handlers = refl; unnamed = refl })))
