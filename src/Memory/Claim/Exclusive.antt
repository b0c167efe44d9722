-- ===== src/Memory/Claim/Exclusive.antt =====
-- A task is claimed by one worker.
use litestar_queues.Base.{
  ℕ, ◌≡◌, refl, true, false, Option, none, some, String, arith, get, insert, get-insert_self,
  nat_eq, string_eq, option_eq, Option-cases, inl, inr,
}
use litestar_queues.Models.{QueuedTaskRecord, is_running, is_waiting}
use litestar_queues.Backend.{is_external_dispatch_reservation}
use litestar_queues.Memory.State.{Memory, keep, write, apply, on_record}
use litestar_queues.Memory.Enqueue.{get_task}
use litestar_queues.Memory.Claim.{
  start, is_claimable, claim_record, claim_task_with_expired, claim_task,
}

-- What a claim that returns a record has done.
claimed_by :
    (due now : ℕ) (n : Option ℕ) (ref : Option String) (s : Memory) (i : ℕ)
    (r r' : QueuedTaskRecord)
    → (apply s i (claim_record due now n ref r)).1.0 ≡ some r'
    → (claim_record due now n ref r ≡ write (start now r) (some (start now r), none))
      × (r' ≡ start now r)
      × (is_waiting r.status ≡ true)
      × (is_external_dispatch_reservation r.execution_ref ≡ false)
unfolding claim_record is_claimable
claimed_by due now n ref s i r r' h = ground arith

claim_record-running :
    (due now : ℕ) (n : Option ℕ) (ref : Option String) (r : QueuedTaskRecord)
    → is_running r.status ≡ true
    → claim_record due now n ref r ≡ keep (none, none)
unfolding claim_record is_claimable
claim_record-running due now n ref r h = ground arith

claim_task_here :
    (s : Memory) (i due now : ℕ) (n : Option ℕ) (ref : Option String) (r : QueuedTaskRecord)
    → get i s.records ≡ some r
    → claim_task s i due now n ref ≡ (
      (apply s i (claim_record due now n ref r)).0,
      (apply s i (claim_record due now n ref r)).1.0,
    )
unfolding claim_task claim_task_with_expired on_record
claim_task_here s i due now n ref r e = rw (e, claim_task, claim_task_with_expired, on_record) refl

claim_task_missing :
    (s : Memory) (i due now : ℕ) (n : Option ℕ) (ref : Option String)
    → get i s.records ≡ none
    → claim_task s i due now n ref ≡ (s, none)
unfolding claim_task claim_task_with_expired on_record
claim_task_missing s i due now n ref e = rw (e, claim_task, claim_task_with_expired, on_record) refl

-- A claim that returns a record has found it waiting and not reserved for an external dispatch, has stored it
-- as running under the same retry count, and every further claim of the task is refused and changes nothing.
pub claim_task_exclusive :
    (s : Memory) (i due now due' now' : ℕ) (n n' : Option ℕ) (ref ref' : Option String)
    (r' : QueuedTaskRecord)
    → (claim_task s i due now n ref).1 ≡ some r'
    → let t = (claim_task s i due now n ref).0 in
      ((r : QueuedTaskRecord) × (get_task s i ≡ some r)
        × (is_waiting r.status ≡ true)
        × (is_external_dispatch_reservation r.execution_ref ≡ false)
        × (r'.retry_count ≡ r.retry_count))
      × (get_task t i ≡ some r')
      × (is_running r'.status ≡ true)
      × (claim_task t i due' now' n' ref' ≡ (t, none))
unfolding get_task start
claim_task_exclusive s i due now due' now' n n' ref ref' r' h =
    elim (Option-cases (get i s.records)) [
      | inl e ↦ cc (rw (claim_task_missing s i due now n ref e) at h)
      | inr (r, e) ↦
          let (done, same, waits, free) =
            claimed_by due now n ref s i r r' (rw (claim_task_here s i due now n ref r e) at h) in
          rw (claim_task_here s i due now n ref r e, done, same)
            ((r, e, waits, free, refl), get-insert_self i (start now r) s.records, refl, again r)
    ]
  where
    again :
        (r : QueuedTaskRecord)
        → claim_task (record s { records = insert i (start now r) s.records }) i due' now' n' ref'
          ≡ (record s { records = insert i (start now r) s.records }, none)
    again r =
        let t = record s { records = insert i (start now r) s.records } in
        rw
          (
            claim_task_here t i due' now' n' ref' (start now r)
                (get-insert_self i (start now r) s.records),
            claim_record-running due' now' n' ref' (start now r) refl,
          )
          refl
