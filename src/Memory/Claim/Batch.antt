-- ===== src/Memory/Claim/Batch.antt =====
-- `claim_many_with_expired`: what the scan finds, and what the loop over the found records claims.
use litestar_queues.Base.{
  ℕ, ◌≡◌, ◌≢◌, refl, true, false, Option, some, String, Dict, arith, List, [], ◌∷◌, ◌++◌,
  Bool-cases, inl, inr, leb, get, insert, nat_eq, string_eq, ◌==◌, All, All-sort, Apart, Apart-sort,
  Stored, Stored-insert, sort, ℤ, length, eq_self, beq_of_ne,
}
use litestar_queues.Models.{QueuedTaskRecord, is_waiting, is_expired, is_due}
use litestar_queues.Backend.{is_external_dispatch_reservation}
use litestar_queues.Memory.State.{Memory, expire_record}
use litestar_queues.Memory.Claim.{
  Verdict, skipped, overdue, eligible, verdict, Scan, scan, scan_step, is_spent, spend, claim_loop,
  start, entry_before, claim_many_with_expired,
}
use litestar_queues.Memory.Evolution.{
  Moves, Moves-refl, Moves-trans, Evolves, Evolves-refl, Evolves-trans, insert-Evolves,
}
use litestar_queues.Memory.Sweeps.{scan-Evolves}

-- What makes a record claimable at `now`.
pub record Claimable (now : ℕ) (r : QueuedTaskRecord) : Type 0 where
  pub waiting : is_waiting r.status ≡ true
  pub unreserved : is_external_dispatch_reservation r.execution_ref ≡ false
  pub unexpired : is_expired now r ≡ false
  pub due : is_due now r ≡ true

module _ (now : ℕ) (queues : List String) (backend : Option String) where
  verdict-Claimable :
      (r : QueuedTaskRecord) → verdict now queues backend r ≡ eligible → Claimable now r
  unfolding verdict is_due
  verdict-Claimable r h = ground arith

  module _ (k : ℕ) where
    scan_step-apart :
        (j : ℕ) (r : QueuedTaskRecord) (rest : Scan) (v : Verdict)
        → k ≢ j
        → All (λ (y : ℕ × QueuedTaskRecord). k ≢ y.0) rest.found
        → All (λ (y : ℕ × QueuedTaskRecord). k ≢ y.0) (scan_step now j r rest v).found
    scan_step-apart j r rest skipped h a = a
    scan_step-apart j r rest overdue h a = a
    scan_step-apart j r rest eligible h a = (h, a)

    scan-apart :
        (d : Dict ℕ QueuedTaskRecord)
        → All (λ y. k ≢ y.0) d
        → All (λ y. k ≢ y.0) (scan now queues backend d).found
    unfolding scan
    scan-apart [] a = tt
    scan-apart ((j, r) ∷ d) a =
        scan_step-apart j r (scan now queues backend d) (verdict now queues backend r) a.0
          (scan-apart d a.1)

  scan_step-Apart :
      (k : ℕ) (r : QueuedTaskRecord) (rest : Scan) (v : Verdict)
      → All (λ (y : ℕ × QueuedTaskRecord). k ≢ y.0) rest.found
      → Apart rest.found
      → Apart (scan_step now k r rest v).found
  scan_step-Apart k r rest skipped h a = a
  scan_step-Apart k r rest overdue h a = a
  scan_step-Apart k r rest eligible h a = (h, a)

  scan-Apart : (d : Dict ℕ QueuedTaskRecord) → Apart d → Apart (scan now queues backend d).found
  unfolding scan
  scan-Apart [] a = tt
  scan-Apart ((k, r) ∷ d) a =
      scan_step-Apart k r (scan now queues backend d) (verdict now queues backend r)
        (scan-apart k d a.0) (scan-Apart d a.1)

  scan_step-Claimable :
      (k : ℕ) (r : QueuedTaskRecord) (rest : Scan) (v : Verdict)
      → (v ≡ eligible → Claimable now r)
      → All (λ (y : ℕ × QueuedTaskRecord). Claimable now y.1) rest.found
      → All (λ (y : ℕ × QueuedTaskRecord). Claimable now y.1) (scan_step now k r rest v).found
  scan_step-Claimable k r rest skipped h a = a
  scan_step-Claimable k r rest overdue h a = a
  scan_step-Claimable k r rest eligible h a = (h refl, a)

  -- Every record that the scan finds is claimable.
  pub scan-Claimable :
      (d : Dict ℕ QueuedTaskRecord) → All (λ y. Claimable now y.1) (scan now queues backend d).found
  unfolding scan
  scan-Claimable [] = tt
  scan-Claimable ((k, r) ∷ d) =
      scan_step-Claimable k r (scan now queues backend d) (verdict now queues backend r)
        (verdict-Claimable r) (scan-Claimable d)

  Stored-cons_apart :
      (k : ℕ) (r : QueuedTaskRecord) (d xs : Dict ℕ QueuedTaskRecord)
      → All (λ y. k ≢ y.0) xs
      → Stored d xs
      → Stored ((k, r) ∷ d) xs
  unfolding get
  Stored-cons_apart k r d [] a h = tt
  Stored-cons_apart k r d ((j, w) ∷ xs) a h =
      (rw (beq_of_ne k j a.0) h.0, Stored-cons_apart k r d xs a.1 h.1)

  scan_step-Stored :
      (k : ℕ) (r : QueuedTaskRecord) (rest : Scan) (v : Verdict)
      → All (λ (y : ℕ × QueuedTaskRecord). k ≢ y.0) rest.found
      → Stored rest.records rest.found
      → Stored (scan_step now k r rest v).records (scan_step now k r rest v).found
  unfolding get
  scan_step-Stored k r rest skipped a h = Stored-cons_apart k r rest.records rest.found a h
  scan_step-Stored k r rest overdue a h =
      Stored-cons_apart k (expire_record r now) rest.records rest.found a h
  scan_step-Stored k r rest eligible a h =
      (rw (eq_self k), Stored-cons_apart k r rest.records rest.found a h)

  -- The entries that the scan finds stand in the store that it leaves.
  scan-Stored :
      (d : Dict ℕ QueuedTaskRecord)
      → Apart d
      → Stored (scan now queues backend d).records (scan now queues backend d).found
  unfolding scan
  scan-Stored [] a = tt
  scan-Stored ((k, r) ∷ d) a =
      scan_step-Stored k r (scan now queues backend d) (verdict now queues backend r)
        (scan-apart k d a.0) (scan-Stored d a.1)

start-Moves : (now : ℕ) (r : QueuedTaskRecord) → Claimable now r → Moves r (start now r)
unfolding start
start-Moves now r c = ground (arith, c.waiting)

module _ (limit now : ℕ) where
  -- Claiming found records follows their lifecycle.
  claim_loop-Evolves :
      (es : List (ℕ × QueuedTaskRecord)) (remaining : Dict String ℤ) (d : Dict ℕ QueuedTaskRecord)
      (claimed : List QueuedTaskRecord)
      → Apart es
      → Stored d es
      → All (λ y. Claimable now y.1) es
      → Evolves Moves d (claim_loop limit now es remaining d claimed).0
  unfolding claim_loop
  claim_loop-Evolves [] remaining d claimed a h c = Evolves-refl Moves Moves-refl d
  claim_loop-Evolves ((k, r) ∷ es) remaining d claimed a h c =
      elim (Bool-cases (leb limit (length claimed))) [
        | inl full ↦ rw full (Evolves-refl Moves Moves-refl d)
        | inr room ↦ rw room (elim (Bool-cases (is_spent remaining r.queue)) [
          | inl out ↦ rw out (claim_loop-Evolves es remaining d claimed a.1 h.1 c.1)
          | inr free ↦ rw free (
              Evolves-trans d (insert k (start now r) d) _ (λ x y z. Moves-trans)
                (insert-Evolves Moves Moves-refl k r (start now r) d h.0 (start-Moves now r c.0))
                (claim_loop-Evolves es (spend remaining r.queue) (insert k (start now r) d)
                  (claimed ++ start now r ∷ []) a.1 (Stored-insert k (start now r) d es a.0 h.1)
                  c.1))
        ])
      ]

-- A batch claim follows the lifecycle of every record, in a store without double keys.
pub claim_many_with_expired-Evolves :
    (s : Memory) (now limit : ℕ) (queues : List String) (backend : Option String)
    (queue_limits : Dict String ℤ)
    → Apart s.records
    → Evolves Moves s.records
        (claim_many_with_expired s now limit queues backend queue_limits).0.records
unfolding claim_many_with_expired
claim_many_with_expired-Evolves s now limit queues backend queue_limits a =
    elim (Bool-cases (limit == 0)) [
      | inl z ↦ rw z (Evolves-refl Moves Moves-refl s.records)
      | inr p ↦ rw p (
          Evolves-trans s.records seen.records _ (λ x y z. Moves-trans)
            (scan-Evolves now queues backend s.records)
            (claim_loop-Evolves limit now (sort entry_before seen.found) queue_limits seen.records
              [] (Apart-sort entry_before seen.found (scan-Apart now queues backend s.records a))
              (All-sort (λ kv. get kv.0 seen.records ≡ some kv.1) entry_before seen.found
                (scan-Stored now queues backend s.records a))
              (All-sort (λ kv. Claimable now kv.1) entry_before seen.found
                (scan-Claimable now queues backend s.records))))
    ]
  where
    seen : Scan
    seen = scan now queues backend s.records
