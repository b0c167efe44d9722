-- ===== src/Memory/Sweeps.antt =====
-- The loops over all records follow the lifecycle: `expire_overdue`, the first loop of `claim_many`,
-- `cancel_tasks` and `null_heartbeats`.
use litestar_queues.Base.{
  ℕ, suc, ◌≡◌, refl, Bool, true, Option, none, String, Dict, arith, List, [], ◌∷◌, Bool-cases, inl,
  inr, if◌then◌else◌, some_and, leb,
}
use litestar_queues.Models.{Value, QueuedTaskRecord, is_waiting}
use litestar_queues.Memory.State.{Memory, expire_record}
use litestar_queues.Memory.Claim.{
  Verdict, skipped, overdue, eligible, verdict, Scan, scan, scan_step,
}
use litestar_queues.Memory.Settle.{
  CancelFilter, is_cancel_target, is_cancellable, cancelled_record, cancel_loop, cancel_tasks,
  null_loop, null_heartbeats,
}
use litestar_queues.Memory.Recovery.{is_overdue, expire_loop, expire_overdue}
use litestar_queues.Memory.Evolution.{Moves, Moves-refl, Evolves, Evolves-refl, cons-Evolves}

expire_record-Moves :
    (r : QueuedTaskRecord) (now : ℕ) → is_waiting r.status ≡ true → Moves r (expire_record r now)
unfolding expire_record
expire_record-Moves r now h = ground arith

is_overdue-is_waiting :
    (now : ℕ) (r : QueuedTaskRecord) → is_overdue now r ≡ true → is_waiting r.status ≡ true
unfolding is_overdue
is_overdue-is_waiting now r h = ground arith

-- A record that the first loop of `claim_many` expires or keeps waits for its execution.
pub verdict-overdue :
    (now : ℕ) (queues : List String) (backend : Option String) (r : QueuedTaskRecord)
    → verdict now queues backend r ≡ overdue
    → is_waiting r.status ≡ true
unfolding verdict
verdict-overdue now queues backend r h = elim (Bool-cases (is_waiting r.status)) [
  | inl e ↦ e
  | inr e ↦ cc (rw (e, verdict) at h)
]

scan_step-Evolves :
    (now k : ℕ) (r : QueuedTaskRecord) (d : Dict ℕ QueuedTaskRecord) (rest : Scan) (v : Verdict)
    → (v ≡ overdue → is_waiting r.status ≡ true)
    → Evolves Moves d rest.records
    → Evolves Moves ((k, r) ∷ d) (scan_step now k r rest v).records
scan_step-Evolves now k r d rest skipped h f =
    cons-Evolves Moves k r r d rest.records (Moves-refl r) f
scan_step-Evolves now k r d rest overdue h f =
    cons-Evolves Moves k r (expire_record r now) d rest.records (expire_record-Moves r now (h refl))
      f
scan_step-Evolves now k r d rest eligible h f =
    cons-Evolves Moves k r r d rest.records (Moves-refl r) f

pub scan-Evolves :
    (now : ℕ) (queues : List String) (backend : Option String) (d : Dict ℕ QueuedTaskRecord)
    → Evolves Moves d (scan now queues backend d).records
unfolding scan
scan-Evolves now queues backend [] = Evolves-refl Moves Moves-refl []
scan-Evolves now queues backend ((k, r) ∷ d) =
    scan_step-Evolves now k r d (scan now queues backend d) (verdict now queues backend r)
      (verdict-overdue now queues backend r) (scan-Evolves now queues backend d)

expire_loop-Evolves :
    (now : ℕ) (limit : Option ℕ) (found : ℕ) (d : Dict ℕ QueuedTaskRecord)
    → Evolves Moves d (expire_loop now limit found d).0
unfolding expire_loop
expire_loop-Evolves now limit found [] = Evolves-refl Moves Moves-refl []
expire_loop-Evolves now limit found ((k, r) ∷ d) =
    elim (Bool-cases (some_and limit (λ n. leb n found))) [
      | inl full ↦ rw full (Evolves-refl Moves Moves-refl ((k, r) ∷ d))
      | inr room ↦ rw room (elim (Bool-cases (is_overdue now r)) [
        | inl late ↦ rw late (
            cons-Evolves Moves k r (expire_record r now) d _
              (expire_record-Moves r now (is_overdue-is_waiting now r late))
              (expire_loop-Evolves now limit (suc found) d))
        | inr live ↦
            rw live
              (cons-Evolves Moves k r r d _ (Moves-refl r) (expire_loop-Evolves now limit found d))
      ])
    ]

pub expire_overdue-Evolves :
    (s : Memory) (now : ℕ) (limit : Option ℕ)
    → Evolves Moves s.records (expire_overdue s now limit).0.records
unfolding expire_overdue
expire_overdue-Evolves s now limit = expire_loop-Evolves now limit 0 s.records

cancelled_record-Moves :
    (same : Value → Value → Bool) (f : CancelFilter) (now : ℕ) (r : QueuedTaskRecord)
    → is_cancel_target same f r ≡ true
    → Moves r (cancelled_record now r)
unfolding is_cancel_target is_cancellable cancelled_record
cancelled_record-Moves same f now r h = ground arith

cancel_loop-Evolves :
    (same : Value → Value → Bool) (f : CancelFilter) (clock : ℕ → ℕ) (d : Dict ℕ QueuedTaskRecord)
    → Evolves Moves d (cancel_loop same f clock d).0
unfolding cancel_loop
cancel_loop-Evolves same f clock [] = Evolves-refl Moves Moves-refl []
cancel_loop-Evolves same f clock ((k, r) ∷ d) = elim (Bool-cases (is_cancel_target same f r)) [
  | inl hit ↦ rw hit (
      cons-Evolves Moves k r (cancelled_record (clock k) r) d _
        (cancelled_record-Moves same f (clock k) r hit) (cancel_loop-Evolves same f clock d))
  | inr miss ↦
      rw miss (cons-Evolves Moves k r r d _ (Moves-refl r) (cancel_loop-Evolves same f clock d))
]

pub cancel_tasks-Evolves :
    (s : Memory) (same : Value → Value → Bool) (f : CancelFilter) (clock : ℕ → ℕ)
    → Evolves Moves s.records (cancel_tasks s same f clock).0.records
unfolding cancel_tasks
cancel_tasks-Evolves s same f clock = cancel_loop-Evolves same f clock s.records

silenced-Moves :
    (b : Bool) (r : QueuedTaskRecord) → Moves r (if b then record r { heartbeat_at = none } else r)
silenced-Moves b r = ground arith

null_loop-Evolves :
    (task_ids : List ℕ) (n : Option ℕ) (d : Dict ℕ QueuedTaskRecord)
    → Evolves Moves d (null_loop task_ids n d)
unfolding null_loop
null_loop-Evolves task_ids n [] = Evolves-refl Moves Moves-refl []
null_loop-Evolves task_ids n ((k, r) ∷ d) =
    cons-Evolves Moves k r _ d _ (silenced-Moves _ r) (null_loop-Evolves task_ids n d)

pub null_heartbeats-Evolves :
    (s : Memory) (task_ids : List ℕ) (n : Option ℕ)
    → Evolves Moves s.records (null_heartbeats s task_ids n).records
unfolding null_heartbeats
null_heartbeats-Evolves s task_ids n = null_loop-Evolves task_ids n s.records
