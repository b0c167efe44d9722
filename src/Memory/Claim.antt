-- ===== src/Memory/Claim.antt =====
-- `assign_worker`, `list_pending`, `claim_task`, `claim_task_with_expired`, `claim_many`,
-- `claim_many_with_expired`.
pub mod Order
pub mod Batch
pub mod Selection
pub mod Exclusive
pub mod Next
use litestar_queues.Base.{
  ℕ, ◌-◌, Bool, true, false, not, Option, none, some, List, [], ◌∷◌, ◌++◌, String, ◌&&◌, ◌||◌, Dict,
  get, insert, nat_eq, string_eq, option_eq, ◌==◌, if◌then◌else◌, none_or, some_and, ltb, leb,
  length, take, select, any, map, sort, ℤ, pos, leb_ℤ, ltb_ℤ, sub_ℕ, pos_part, neg_part, suc, ◌+◌,
}
use litestar_queues.Models.{
  QueuedTaskRecord, TaskStatus, running, is_waiting, is_running, is_due, is_expired,
}
use litestar_queues.Backend.{is_external_dispatch_reservation}
use litestar_queues.Memory.State.{Memory, Effect, keep, write, on_record, expire_record}

-- What `assign_worker` does to the record that it looks up.
unfoldable pub assign_record : String → ℕ → QueuedTaskRecord → Effect (Option QueuedTaskRecord)
assign_record worker_id expected r =
    if not (is_running r.status) || not (r.retry_count == expected)
    then keep none
    else (let r' = record r { worker_id = some worker_id } in write r' (some r'))

unfoldable pub assign_worker :
    Memory
    → ℕ
    → (worker_id : String) → (expected_retry_count : ℕ) → Memory × Option QueuedTaskRecord
unfolding assign_record
assign_worker s task_id worker_id expected =
    on_record s task_id none (assign_record worker_id expected)

-- The sort key `(-priority, queued_at, created_at, id.int)`.
unfoldable pub before : QueuedTaskRecord → QueuedTaskRecord → Bool
before a b =
    ltb_ℤ b.priority a.priority
    || (leb_ℤ b.priority a.priority
        && (ltb a.queued_at b.queued_at
            || (leb a.queued_at b.queued_at
                && (ltb a.created_at b.created_at
                    || (leb a.created_at b.created_at && leb a.id b.id)))))

-- `due` and `late` are the readings of `is_due` and `is_expired`, one to a record.
unfoldable pub is_pending :
    (due late : ℕ → ℕ) → (queue backend : Option String) → QueuedTaskRecord → Bool
unfolding is_due is_expired is_external_dispatch_reservation
is_pending due late queue backend r =
    is_waiting r.status
    && is_due (due r.id) r
    && not (is_expired (late r.id) r)
    && not (is_external_dispatch_reservation r.execution_ref)
    && none_or queue (λ name. r.queue == name)
    && none_or backend (λ name. r.execution_backend == name)

unfoldable pub list_pending :
    Memory → (due late : ℕ → ℕ) → ℕ → (queue backend : Option String) → List QueuedTaskRecord
unfolding is_pending before sort
list_pending s due late limit queue backend =
    take limit
      (sort before (select (is_pending due late queue backend) (map (λ kv. kv.1) s.records)))

-- `status = "running"; started_at = now; heartbeat_at = now`.
unfoldable pub start : ℕ → QueuedTaskRecord → QueuedTaskRecord
start now r = record r { status = running; started_at = some now; heartbeat_at = some now }

-- The guard of `claim_task_with_expired`; `due` is the reading of `is_due`.
unfoldable pub is_claimable : ℕ → Option ℕ → Option String → QueuedTaskRecord → Bool
unfolding is_due is_external_dispatch_reservation
is_claimable due expected_retry_count expected_execution_ref r =
    is_waiting r.status
    && is_due due r
    && not (is_external_dispatch_reservation r.execution_ref)
    && none_or expected_retry_count (λ n. r.retry_count == n)
    && none_or expected_execution_ref (λ ref. r.execution_ref == some ref)

abbrev is_none {ℓ} : {A : Type ℓ} → Option A → Bool
is_none none = true
is_none (some a) = false

unfoldable pub claim_record :
    (due now : ℕ)
    → Option ℕ
    → Option String
    → QueuedTaskRecord
    → Effect (Option QueuedTaskRecord × Option QueuedTaskRecord)
unfolding is_claimable start expire_record is_expired
claim_record due now expected_retry_count expected_execution_ref r =
    if not (is_claimable due expected_retry_count expected_execution_ref r)
    then keep (none, none)
    else (if is_none r.execution_ref && is_expired now r
        then (let r' = expire_record r now in write r' (none, some r'))
        else (let r' = start now r in write r' (some r', none)))

unfoldable pub claim_task_with_expired :
    Memory
    → ℕ
    → (due now : ℕ) → Option ℕ
    → Option String
    → Memory × (Option QueuedTaskRecord × Option QueuedTaskRecord)
unfolding claim_record
claim_task_with_expired s task_id due now expected_retry_count expected_execution_ref =
    on_record s task_id (none, none)
      (claim_record due now expected_retry_count expected_execution_ref)

unfoldable pub claim_task :
    Memory → ℕ → (due now : ℕ) → Option ℕ → Option String → Memory × Option QueuedTaskRecord
unfolding claim_task_with_expired
claim_task s task_id due now expected_retry_count expected_execution_ref =
    let (s', both) =
      claim_task_with_expired s task_id due now expected_retry_count expected_execution_ref in
    (s', both.0)

-- What the first loop of `claim_many_with_expired` does with a record.
pub data Verdict : Type 0 where
  skipped overdue eligible : Verdict

unfoldable pub verdict : ℕ → List String → Option String → QueuedTaskRecord → Verdict
unfolding is_external_dispatch_reservation is_expired
verdict now queues backend r =
    if not (is_waiting r.status)
    then skipped
    else (if leb 1 (length queues) && not (any (λ q. r.queue == q) queues)
        then skipped
        else (if not (none_or backend (λ name. r.execution_backend == name))
            then skipped
            else (if is_external_dispatch_reservation r.execution_ref
                then skipped
                else (if is_expired now r
                    then overdue
                    else (if some_and r.scheduled_at (λ at. ltb now at)
                        then skipped
                        else eligible)))))

-- The store after the loop, the eligible entries and the expired records.
pub record Scan : Type 0 where
  pub records : Dict ℕ QueuedTaskRecord
  pub found : List (ℕ × QueuedTaskRecord)
  pub late : List QueuedTaskRecord

abbrev pub scan_step : ℕ → ℕ → QueuedTaskRecord → Scan → Verdict → Scan
scan_step now k r rest skipped = record rest { records = (k, r) ∷ rest.records }
scan_step now k r rest overdue = record rest {
  records = (k, expire_record r now) ∷ rest.records;
  late = expire_record r now ∷ rest.late;
}
scan_step now k r rest eligible = record rest {
  records = (k, r) ∷ rest.records;
  found = (k, r) ∷ rest.found;
}

unfoldable pub scan : ℕ → List String → Option String → Dict ℕ QueuedTaskRecord → Scan
unfolding verdict expire_record
scan now queues backend [] = record { records = []; found = []; late = [] }
scan now queues backend ((k, r) ∷ d) =
    scan_step now k r (scan now queues backend d) (verdict now queues backend r)

-- `remaining[queue] <= 0`, for a queue that has a limit.
unfoldable pub is_spent : Dict String ℤ → String → Bool
is_spent remaining queue = some_and (get queue remaining) (λ n. leb_ℤ n (pos 0))

abbrev decrement : ℤ → ℤ
decrement n = sub_ℕ (pos_part n) (neg_part n + 1)

-- `if queue in remaining: remaining[queue] -= 1`.
unfoldable pub spend : Dict String ℤ → String → Dict String ℤ
spend remaining queue = elim (get queue remaining) [
  | none ↦ remaining
  | some n ↦ insert queue (decrement n) remaining
]

-- The second loop: what it has claimed so far is its last argument.
unfoldable pub claim_loop :
    ℕ
    → ℕ
    → List (ℕ × QueuedTaskRecord)
    → Dict String ℤ
    → Dict ℕ QueuedTaskRecord
    → List QueuedTaskRecord
    → Dict ℕ QueuedTaskRecord × List QueuedTaskRecord
unfolding is_spent spend start
claim_loop limit now [] remaining d claimed = (d, claimed)
claim_loop limit now ((k, r) ∷ rest) remaining d claimed =
    let pass = claim_loop limit now rest remaining d claimed in
    let take_it =
      claim_loop limit now rest (spend remaining r.queue) (insert k (start now r) d)
        (claimed ++ start now r ∷ []) in
    if leb limit (length claimed)
    then (d, claimed)
    else (if is_spent remaining r.queue then pass else take_it)

abbrev pub entry_before : ℕ × QueuedTaskRecord → ℕ × QueuedTaskRecord → Bool
entry_before a b = before a.1 b.1

-- The claimed and the expired records.
unfoldable pub claim_many_with_expired :
    Memory
    → ℕ
    → ℕ
    → List String
    → Option String
    → Dict String ℤ
    → Memory × (List QueuedTaskRecord × List QueuedTaskRecord)
unfolding scan claim_loop sort before
claim_many_with_expired s now limit queues backend queue_limits =
    if limit == 0
    then (s, ([], []))
    else (let seen = scan now queues backend s.records in
        let (d, claimed) =
          claim_loop limit now (sort entry_before seen.found) queue_limits seen.records [] in
        (record s { records = d }, (claimed, seen.late)))

unfoldable pub claim_many :
    Memory → ℕ → ℕ → List String → Option String → Dict String ℤ → Memory × List QueuedTaskRecord
unfolding claim_many_with_expired
claim_many s now limit queues backend queue_limits =
    let (s', both) = claim_many_with_expired s now limit queues backend queue_limits in (s', both.0)
