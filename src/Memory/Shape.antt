-- ===== src/Memory/Shape.antt =====
-- Every call keeps the store free of double keys.
use litestar_queues.Base.{
  ◌∙◌, ℕ, suc, ◌≡◌, refl, Bool, false, Option, String, Dict, List, [], ◌∷◌, ◌++◌, Bool-cases,
  Option-cases, inl, inr, some_and, leb, length, get, insert, nat_eq, Apart, SameKeys,
  SameKeys-refl, SameKeys-Apart, insert-Apart, ℤ, ◌==◌,
}
use litestar_queues.Models.{Value, QueuedTaskRecord, HeartbeatTouch, HeartbeatTouchResult}
use litestar_queues.Memory.State.{Memory, Effect, keep, write, apply, on_record}
use litestar_queues.Memory.Claim.{
  Verdict, skipped, overdue, eligible, verdict, Scan, scan, scan_step, claim_loop, is_spent, spend,
  start, claim_many_with_expired,
}
use litestar_queues.Memory.Settle.{
  CancelFilter, is_cancel_target, cancel_loop, null_loop, touch_loop, touch_record,
}
use litestar_queues.Memory.Dispatch.{mark_checked, checked_record}
use litestar_queues.Memory.Recovery.{is_overdue, expire_loop}

apply-Apart :
    {A : Type 0} (s : Memory) (k : ℕ) (x : Effect A)
    → Apart s.records
    → Apart (apply s k x).0.records
apply-Apart s k (keep a) h = h
apply-Apart s k (write r a) h = insert-Apart k r s.records h

pub on_record-Apart :
    {A : Type 0} (s : Memory) (k : ℕ) (missing : A) (body : QueuedTaskRecord → Effect A)
    → Apart s.records
    → Apart (on_record s k missing body).0.records
unfolding on_record
on_record-Apart s k missing body h = elim (Option-cases (get k s.records)) [
  | inl e ↦ rw (e, on_record) h
  | inr (r, e) ↦ rw (e, on_record) (apply-Apart s k (body r) h)
]

apply-keys : {A : Type 0} (s : Memory) (k : ℕ) (x : Effect A) → (apply s k x).0.keys ≡ s.keys
apply-keys s k (keep a) = refl
apply-keys s k (write r a) = refl

pub on_record-keys :
    {A : Type 0} (s : Memory) (k : ℕ) (missing : A) (body : QueuedTaskRecord → Effect A)
    → (on_record s k missing body).0.keys ≡ s.keys
unfolding on_record
on_record-keys s k missing body = elim (Option-cases (get k s.records)) [
  | inl e ↦ rw (e, on_record)
  | inr (r, e) ↦ rw (e, on_record) (apply-keys s k (body r))
]

scan_step-SameKeys :
    (now k : ℕ) (r : QueuedTaskRecord) (d : Dict ℕ QueuedTaskRecord) (rest : Scan) (v : Verdict)
    → SameKeys d rest.records
    → SameKeys ((k, r) ∷ d) (scan_step now k r rest v).records
scan_step-SameKeys now k r d rest skipped h = (refl, h)
scan_step-SameKeys now k r d rest overdue h = (refl, h)
scan_step-SameKeys now k r d rest eligible h = (refl, h)

scan-SameKeys :
    (now : ℕ) (queues : List String) (backend : Option String) (d : Dict ℕ QueuedTaskRecord)
    → SameKeys d (scan now queues backend d).records
unfolding scan
scan-SameKeys now queues backend [] = tt
scan-SameKeys now queues backend ((k, r) ∷ d) =
    scan_step-SameKeys now k r d (scan now queues backend d) (verdict now queues backend r)
      (scan-SameKeys now queues backend d)

claim_loop-Apart :
    (limit now : ℕ) (es : List (ℕ × QueuedTaskRecord)) (remaining : Dict String ℤ)
    (d : Dict ℕ QueuedTaskRecord) (claimed : List QueuedTaskRecord)
    → Apart d
    → Apart (claim_loop limit now es remaining d claimed).0
unfolding claim_loop
claim_loop-Apart limit now [] remaining d claimed a = a
claim_loop-Apart limit now ((k, r) ∷ es) remaining d claimed a =
    elim (Bool-cases (leb limit (length claimed))) [
      | inl full ↦ rw full a
      | inr room ↦ rw room (elim (Bool-cases (is_spent remaining r.queue)) [
        | inl out ↦ rw out (claim_loop-Apart limit now es remaining d claimed a)
        | inr free ↦ rw free (
            claim_loop-Apart limit now es (spend remaining r.queue) (insert k (start now r) d)
              (claimed ++ start now r ∷ []) (insert-Apart k (start now r) d a))
      ])
    ]

pub claim_many_with_expired-Apart :
    (s : Memory) (now limit : ℕ) (queues : List String) (backend : Option String)
    (queue_limits : Dict String ℤ)
    → Apart s.records
    → Apart (claim_many_with_expired s now limit queues backend queue_limits).0.records
unfolding claim_many_with_expired
claim_many_with_expired-Apart s now limit queues backend queue_limits a =
    elim (Bool-cases (limit == 0)) [
      | inl z ↦ rw z a
      | inr p ↦ rw p (
          claim_loop-Apart limit now _ queue_limits (scan now queues backend s.records).records []
            (SameKeys-Apart s.records _ (scan-SameKeys now queues backend s.records) a))
    ]

pub cancel_loop-SameKeys :
    (same : Value → Value → Bool) (f : CancelFilter) (clock : ℕ → ℕ) (d : Dict ℕ QueuedTaskRecord)
    → SameKeys d (cancel_loop same f clock d).0
unfolding cancel_loop
cancel_loop-SameKeys same f clock [] = tt
cancel_loop-SameKeys same f clock ((k, r) ∷ d) = elim (Bool-cases (is_cancel_target same f r)) [
  | inl hit ↦ rw hit (refl, cancel_loop-SameKeys same f clock d)
  | inr miss ↦ rw miss (refl, cancel_loop-SameKeys same f clock d)
]

pub null_loop-SameKeys :
    (task_ids : List ℕ) (n : Option ℕ) (d : Dict ℕ QueuedTaskRecord)
    → SameKeys d (null_loop task_ids n d)
unfolding null_loop
null_loop-SameKeys task_ids n [] = tt
null_loop-SameKeys task_ids n ((k, r) ∷ d) = (refl, null_loop-SameKeys task_ids n d)

pub expire_loop-SameKeys :
    (now : ℕ) (limit : Option ℕ) (found : ℕ) (d : Dict ℕ QueuedTaskRecord)
    → SameKeys d (expire_loop now limit found d).0
unfolding expire_loop
expire_loop-SameKeys now limit found [] = tt
expire_loop-SameKeys now limit found ((k, r) ∷ d) =
    elim (Bool-cases (some_and limit (λ n. leb n found))) [
      | inl full ↦ rw full (SameKeys-refl ((k, r) ∷ d))
      | inr room ↦ rw room (elim (Bool-cases (is_overdue now r)) [
        | inl late ↦ rw late (refl, expire_loop-SameKeys now limit (suc found) d)
        | inr live ↦ rw live (refl, expire_loop-SameKeys now limit found d)
      ])
    ]

pub mark_checked-Apart :
    (now : ℕ) (es : List (ℕ × QueuedTaskRecord)) (d : Dict ℕ QueuedTaskRecord)
    → Apart d
    → Apart (mark_checked now es d)
unfolding mark_checked
mark_checked-Apart now [] d a = a
mark_checked-Apart now ((k, r) ∷ es) d a =
    mark_checked-Apart now es (insert k (checked_record now r) d)
      (insert-Apart k (checked_record now r) d a)

pub touch_loop-Apart :
    (now : ℕ) (s : Memory) (ts : List HeartbeatTouch) (x : HeartbeatTouchResult)
    → Apart s.records
    → Apart (touch_loop now s ts x).0.records
unfolding touch_loop
touch_loop-Apart now s [] x a = a
touch_loop-Apart now s (t ∷ ts) x a =
    touch_loop-Apart now (on_record s t.task_id false (touch_record now t)).0 ts _
      (on_record-Apart s t.task_id false (touch_record now t) a)

pub touch_loop-keys :
    (now : ℕ) (s : Memory) (ts : List HeartbeatTouch) (x : HeartbeatTouchResult)
    → (touch_loop now s ts x).0.keys ≡ s.keys
unfolding touch_loop
touch_loop-keys now s [] x = refl
touch_loop-keys now s (t ∷ ts) x =
    touch_loop-keys now (on_record s t.task_id false (touch_record now t)).0 ts _
    ∙ on_record-keys s t.task_id false (touch_record now t)
