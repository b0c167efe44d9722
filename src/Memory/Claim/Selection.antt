-- ===== src/Memory/Claim/Selection.antt =====
-- Which of the found records `claim_many_with_expired` claims: the first ones in execution order, at
-- most `limit`, and of a limited queue no more than its limit.
use litestar_queues.Base.{
  beq_of_ne, none_or, any, ltb, not, select, ◌&&◌, ◌||◌, ℕ, zero, suc, ◌+◌, ◌≤◌, ◌≡◌, refl, Bool,
  true, false, Option, none, some, String, Dict, arith, List, [], ◌∷◌, ◌++◌, Bool-cases, inl, inr,
  if◌then◌else◌, leb, get, insert, nat_eq, string_eq, ◌==◌, All, sort, ℤ, length, length-append,
  take, drop, map, get-insert, eq_of_beq, Option-cases, sym, sort-Ordered, take-Ordered, Ordered,
}
use litestar_queues.Memory.Claim.{
  scan_step, verdict, Scan, scan, is_spent, spend, decrement, claim_loop, start, before,
  entry_before, claim_many_with_expired,
}
use litestar_queues.Backend.{is_external_dispatch_reservation, non_negative}
use litestar_queues.Models.{is_waiting, is_expired, QueuedTaskRecord}
use mathlib.Core.List.{append_assoc, append-nil}
use litestar_queues.Memory.State.{Memory}
use litestar_queues.Memory.Claim.Order.{before_total, before_trans}

-- How many of the records belong to the queue.
abbrev pub count_queue : String → List QueuedTaskRecord → ℕ
count_queue q [] = 0
count_queue q (r ∷ rs) = let n = count_queue q rs in if r.queue == q then suc n else n

count_queue-le : (q : String) (rs : List QueuedTaskRecord) → count_queue q rs ≤ length rs
count_queue-le q [] = omega arith
count_queue-le q (r ∷ rs) = ground (arith, count_queue-le q rs)

-- How many records of a queue a claim may return.
abbrev pub cap_of : ℕ → Option ℤ → ℕ
cap_of limit none = limit
cap_of limit (some n) = non_negative n

count_queue-append :
    (q : String) (xs ys : List QueuedTaskRecord)
    → count_queue q (xs ++ ys) ≡ count_queue q xs + count_queue q ys
count_queue-append q [] ys = omega arith
count_queue-append q (x ∷ xs) ys = ground (arith, count_queue-append q xs ys)

-- The allowance that is left: a queue without a limit has none.
abbrev pub allowance : Option ℤ → ℕ
allowance none = 0
allowance (some n) = non_negative n

module _ (limit now : ℕ) where
  claim_loop-length :
      (es : List (ℕ × QueuedTaskRecord)) (remaining : Dict String ℤ) (d : Dict ℕ QueuedTaskRecord)
      (claimed : List QueuedTaskRecord)
      → length claimed ≤ limit
      → length (claim_loop limit now es remaining d claimed).1 ≤ limit
  unfolding claim_loop
  claim_loop-length [] remaining d claimed h = h
  claim_loop-length ((k, r) ∷ es) remaining d claimed h = ground (
    arith,
    claim_loop-length es remaining d claimed,
    claim_loop-length es (spend remaining r.queue) (insert k (start now r) d)
        (claimed ++ start now r ∷ []),
    length-append claimed (start now r ∷ []),
  )

  -- With no queue limits the loop claims from the front.
  claim_loop-take :
      (es : List (ℕ × QueuedTaskRecord)) (d : Dict ℕ QueuedTaskRecord)
      (claimed : List QueuedTaskRecord) (room : ℕ)
      → length claimed + room ≡ limit
      → (claim_loop limit now es [] d claimed).1
        ≡ claimed ++ map (λ kv. start now kv.1) (take room es)
  unfolding claim_loop is_spent spend get
  claim_loop-take [] d claimed zero h = sym (append-nil claimed)
  claim_loop-take [] d claimed (suc room) h = sym (append-nil claimed)
  claim_loop-take ((k, r) ∷ es) d claimed zero h = ground (arith, append-nil claimed)
  claim_loop-take ((k, r) ∷ es) d claimed (suc room) h = ground (
    arith,
    claim_loop-take es (insert k (start now r) d) (claimed ++ start now r ∷ []) room,
    length-append claimed (start now r ∷ []),
    append_assoc claimed (start now r ∷ []) (map (λ kv. start now kv.1) (take room es)),
  )

get-spend :
    (remaining : Dict String ℤ) (p q : String) (n : ℤ)
    → get q remaining ≡ some n
    → get q (spend remaining p) ≡ (if p == q then some (decrement n) else some n)
unfolding spend
get-spend remaining p q n h = elim (Option-cases (get p remaining)) [
  | inl absent ↦ elim (Bool-cases (p == q)) [
    | inl same ↦ cc (absent, h, eq_of_beq p q same)
    | inr other ↦ rw (absent, spend, other) h
  ]
  | inr (m, found) ↦ elim (Bool-cases (p == q)) [
    | inl same ↦
        rw (found, spend, get-insert p q (decrement m) remaining, same)
          (ground (arith, eq_of_beq p q same))
    | inr other ↦ rw (found, spend, get-insert p q (decrement m) remaining, other) h
  ]
]

is_spent-some :
    (remaining : Dict String ℤ) (q : String) (n : ℤ)
    → get q remaining ≡ some n
    → is_spent remaining q ≡ false
    → non_negative n ≡ suc (non_negative (decrement n))
unfolding is_spent
is_spent-some remaining q n h s = ground arith

module _ (limit now : ℕ) (q : String) where
  claim_loop-cap :
      (es : List (ℕ × QueuedTaskRecord)) (remaining : Dict String ℤ) (d : Dict ℕ QueuedTaskRecord)
      (claimed : List QueuedTaskRecord) (n : ℤ)
      → get q remaining ≡ some n
      → count_queue q (claim_loop limit now es remaining d claimed).1
        ≤ count_queue q claimed + non_negative n
  unfolding claim_loop start
  claim_loop-cap [] remaining d claimed n h = omega arith
  claim_loop-cap ((k, r) ∷ es) remaining d claimed n h =
      elim (Bool-cases (leb limit (length claimed))) [
        | inl full ↦ rw full (omega arith)
        | inr room ↦ rw room (elim (Bool-cases (is_spent remaining r.queue)) [
          | inl out ↦ rw out (claim_loop-cap es remaining d claimed n h)
          | inr free ↦ rw free (elim (Bool-cases (r.queue == q)) [
            | inl same ↦
                let step =
                  claim_loop-cap es (spend remaining r.queue) (insert k (start now r) d)
                    (claimed ++ start now r ∷ []) (decrement n)
                    (rw same at (get-spend remaining r.queue q n h)) in
                let one = is_spent-some remaining q n h (rw (eq_of_beq r.queue q same) at free) in
                ground (arith, step, one, count_queue-append q claimed (start now r ∷ []))
            | inr other ↦
                let step =
                  claim_loop-cap es (spend remaining r.queue) (insert k (start now r) d)
                    (claimed ++ start now r ∷ []) n
                    (rw other at (get-spend remaining r.queue q n h)) in
                ground (arith, step, count_queue-append q claimed (start now r ∷ []))
          ])
        ])
      ]

module _ (s : Memory) (now limit : ℕ) (queues : List String) (backend : Option String)
    (queue_limits : Dict String ℤ) where
  at_most_limit :
      length (claim_many_with_expired s now limit queues backend queue_limits).1.0 ≤ limit
  unfolding claim_many_with_expired
  at_most_limit = elim (Bool-cases (limit == 0)) [
    | inl z ↦ rw z (omega arith)
    | inr p ↦
        rw p (claim_loop-length limit now (sort entry_before found) queue_limits d [] (omega arith))
  ]
    where
      found : List (ℕ × QueuedTaskRecord)
      found = (scan now queues backend s.records).found

      d : Dict ℕ QueuedTaskRecord
      d = (scan now queues backend s.records).records

  at_most_cap :
      (q : String) (n : ℤ)
      → get q queue_limits ≡ some n
      → count_queue q (claim_many_with_expired s now limit queues backend queue_limits).1.0
        ≤ non_negative n
  unfolding claim_many_with_expired
  at_most_cap q n h = elim (Bool-cases (limit == 0)) [
    | inl z ↦ rw z (omega arith)
    | inr p ↦
        rw p (
          omega (arith, claim_loop-cap limit now q (sort entry_before found) queue_limits d [] n h))
  ]
    where
      found : List (ℕ × QueuedTaskRecord)
      found = (scan now queues backend s.records).found

      d : Dict ℕ QueuedTaskRecord
      d = (scan now queues backend s.records).records

  -- A batch claim returns at most `limit` records, with queue limits or without, and of every queue at
  -- most as many as its limit in `queue_limits`, if it has one (none, if that limit is negative).
  pub claim_many_with_expired_bounds :
      (q : String)
      → (length (claim_many_with_expired s now limit queues backend queue_limits).1.0 ≤ limit)
        × (count_queue q (claim_many_with_expired s now limit queues backend queue_limits).1.0
            ≤ cap_of limit (get q queue_limits))
  claim_many_with_expired_bounds q = (at_most_limit, capped (get q queue_limits) refl)
    where
      capped :
          (o : Option ℤ)
          → get q queue_limits ≡ o
          → count_queue q (claim_many_with_expired s now limit queues backend queue_limits).1.0
            ≤ cap_of limit o
      capped (some n) e = at_most_cap q n e
      capped none e = omega (
        arith,
        at_most_limit,
        count_queue-le q (claim_many_with_expired s now limit queues backend queue_limits).1.0,
      )

-- Whether a batch claim may take a record: it waits, belongs to the queues and the backend asked for, is
-- not reserved for an external dispatch, has not expired and is due.
abbrev pub is_open : ℕ → List String → Option String → QueuedTaskRecord → Bool
is_open now queues backend r =
    is_waiting r.status
    && (not (leb 1 (length queues)) || any (λ q. r.queue == q) queues)
    && none_or backend (λ name. r.execution_backend == name)
    && not (is_external_dispatch_reservation r.execution_ref)
    && none_or r.expires_at (λ at. ltb now at)
    && none_or r.scheduled_at (λ at. leb at now)

scan_step-found :
    (now k : ℕ) (queues : List String) (backend : Option String) (r : QueuedTaskRecord)
    (rest : Scan)
    → (scan_step now k r rest (verdict now queues backend r)).found
      ≡ (if is_open now queues backend r then (k, r) ∷ rest.found else rest.found)
unfolding verdict is_expired
scan_step-found now k queues backend r rest = ground arith

-- The scan finds the records that may be taken.
scan-found :
    (now : ℕ) (queues : List String) (backend : Option String) (d : Dict ℕ QueuedTaskRecord)
    → (scan now queues backend d).found ≡ select (λ kv. is_open now queues backend kv.1) d
unfolding scan
scan-found now queues backend [] = refl
scan-found now queues backend ((k, r) ∷ d) = rw (
  scan_step-found now k queues backend r (scan now queues backend d),
  scan-found now queues backend d,
)

-- The records that may be taken, in execution order.
abbrev pub in_order :
    ℕ → List String → Option String → Dict ℕ QueuedTaskRecord → List (ℕ × QueuedTaskRecord)
in_order now queues backend d = sort entry_before (select (λ kv. is_open now queues backend kv.1) d)

module _ (s : Memory) (now limit : ℕ) (queues : List String) (backend : Option String) where
  -- Without queue limits a batch claim starts the first `limit` claimable records in execution order,
  -- and each of them comes, by priority, queueing time, creation time and id, before every claimable
  -- record that is left.
  pub claim_many_with_expired-order :
      ((claim_many_with_expired s now limit queues backend []).1.0
        ≡ map (λ kv. start now kv.1) (take limit (in_order now queues backend s.records)))
      × All
          (λ x.
            All (λ y. before x.1 y.1 ≡ true) (drop limit (in_order now queues backend s.records)))
          (take limit (in_order now queues backend s.records))
  unfolding claim_many_with_expired
  claim_many_with_expired-order = (claims limit, take-Ordered entry_before limit found sorted)
    where
      found : List (ℕ × QueuedTaskRecord)
      found = in_order now queues backend s.records

      sorted : Ordered entry_before found
      sorted =
          sort-Ordered entry_before (λ a b. before_total a.1 b.1)
            (λ a b c. before_trans a.1 b.1 c.1)
            (select (λ kv. is_open now queues backend kv.1) s.records)

      claims :
          (n : ℕ)
          → (claim_many_with_expired s now n queues backend []).1.0
            ≡ map (λ kv. start now kv.1) (take n found)
      claims zero = refl
      claims (suc n) =
          rw (beq_of_ne (suc n) 0 (omega arith), scan-found now queues backend s.records)
            (claim_loop-take (suc n) now found (scan now queues backend s.records).records []
              (suc n) (omega arith))
