-- ===== src/Events/Pages.antt =====
-- Pages of the event history, and what a publication leaves.
use litestar_queues.Base.{
  ℕ, zero, suc, ◌+◌, ◌-◌, ◌≤◌, ◌<◌, ◌≡◌, ◌≢◌, refl, sym, ap, none, some, List, [], ◌∷◌, ◌++◌, arith,
  length, take, drop, length-append, All, All-append, All-mono, Apart, nat_eq, length-take,
}
use litestar_queues.Events.Records.{QueueEventLogRecord}
use litestar_queues.Events.Query.{QueueEventQuery, paginate_event_records}
use litestar_queues.Events.Log.{EventLog, publish_event}

module _ {ℓ} {A : Type ℓ} where
  take-drop : (n : ℕ) (xs : List A) → take n xs ++ drop n xs ≡ xs
  take-drop zero xs = refl
  take-drop (suc n) [] = refl
  take-drop (suc n) (x ∷ xs) = rw (take-drop n xs) refl

  drop-zero : (xs : List A) → drop 0 xs ≡ xs
  drop-zero xs = refl

  drop-nil : (n : ℕ) → ◌≡◌ {A = List A} (drop n []) []
  drop-nil zero = refl
  drop-nil (suc n) = refl

  drop-drop : (m n k : ℕ) (xs : List A) → n + m ≡ k → drop m (drop n xs) ≡ drop k xs
  drop-drop m zero k xs h = ap (λ i. drop i xs) (omega (arith, h))
  drop-drop m (suc n) zero xs h = absurd (omega (arith, h))
  drop-drop m (suc n) (suc k) [] h = drop-nil m
  drop-drop m (suc n) (suc k) (x ∷ xs) h = drop-drop m n k xs (omega (arith, h))

  length-drop : (n : ℕ) (xs : List A) → length (drop n xs) ≡ length xs - n
  length-drop zero xs = omega arith
  length-drop (suc n) [] = omega arith
  length-drop (suc n) (x ∷ xs) = omega (arith, length-drop n xs)

-- A page of `n` records and what follows it at the next offset make up what follows the page's start, so
-- consecutive pages neither repeat nor skip a record, and each page reports the number of all
-- matching records.
pub paginate_event_records_tiles :
    (rs : List QueueEventLogRecord) (q : QueueEventQuery) (n : ℕ)
    → let page = paginate_event_records rs (some (record q { limit = some n })) in
      let rest =
        paginate_event_records rs (some (record q { limit = none; offset = q.offset + n })) in
      let all = paginate_event_records rs (some (record q { limit = none })) in
      (page.items ++ rest.items ≡ all.items)
      × (length page.items ≤ n)
      × (page.total ≡ length rs)
      × (rest.total ≡ length rs)
unfolding paginate_event_records
paginate_event_records_tiles rs q n = (
  rw (sym (drop-drop n q.offset (q.offset + n) rs refl)) (take-drop n (drop q.offset rs)),
  omega (arith, length-take n (drop q.offset rs)),
  refl,
  refl,
)

module _ {ℓ κ} {A : Type ℓ} (P : A → Type κ) where
  All-drop : (n : ℕ) (xs : List A) → All P xs → All P (drop n xs)
  All-drop zero xs h = h
  All-drop (suc n) [] h = tt
  All-drop (suc n) (x ∷ xs) h = All-drop n xs h.1

Apart-drop : (n : ℕ) (xs : List (ℕ × QueueEventLogRecord)) → Apart xs → Apart (drop n xs)
Apart-drop zero xs a = a
Apart-drop (suc n) [] a = tt
Apart-drop (suc n) (x ∷ xs) a = Apart-drop n xs a.1

Apart-snoc :
    (k : ℕ) (r : QueueEventLogRecord) (xs : List (ℕ × QueueEventLogRecord))
    → All (λ kv. kv.0 < k) xs
    → Apart xs
    → Apart (xs ++ (k, r) ∷ [])
Apart-snoc k r [] h a = (tt, tt)
Apart-snoc k r (x ∷ xs) h a =
    (All-append (λ y. x.0 ≢ y.0) xs ((k, r) ∷ []) a.0 (apart, tt), Apart-snoc k r xs h.1 a.1)
  where
    apart : x.0 ≢ k
    apart e = omega (arith, h.0, e)

-- The objects have different identities, all of them given out already.
pub record IsNumbered (log : EventLog) : Type 0 where
  pub apart : Apart log.records
  pub below : All (λ kv. kv.0 < log.next_identity) log.records

-- A publication keeps at most `memory_capacity` records, namely the newest ones with the new record as the
-- last, and keeps the identities of the stored objects apart.
pub publish_event_bounded :
    (log : EventLog) (r : QueueEventLogRecord)
    → IsNumbered log
    → let after = publish_event log r in
      (length after.records ≤ log.memory_capacity)
      × ((lost : ℕ) × (lost ≡ length log.records + 1 - log.memory_capacity)
          × (after.records ≡ drop lost (log.records ++ (log.next_identity, r) ∷ [])))
      × IsNumbered after
unfolding publish_event
publish_event_bounded log r ok = (
  omega (arith, length-drop lost all, length-append log.records ((log.next_identity, r) ∷ [])),
  (lost, omega (arith, length-append log.records ((log.next_identity, r) ∷ [])), refl),
  record {
    apart = Apart-drop lost all (Apart-snoc log.next_identity r log.records ok.below ok.apart);
    below =
        All-drop (λ kv. kv.0 < log.next_identity + 1) lost all
          (All-append (λ kv. kv.0 < log.next_identity + 1) log.records _
            (All-mono (λ kv. kv.0 < log.next_identity) (λ kv. kv.0 < log.next_identity + 1)
              log.records (λ kv h. omega (arith, h)) ok.below)
            (omega arith, tt));
  },
)
  where
    all : List (ℕ × QueueEventLogRecord)
    all = log.records ++ (log.next_identity, r) ∷ []

    lost : ℕ
    lost = length all - log.memory_capacity
