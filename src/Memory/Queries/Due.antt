-- ===== src/Memory/Queries/Due.antt =====
-- How long a worker may sleep.
use litestar_queues.Base.{
  ℕ, ◌-◌, ◌≤◌, min, ◌≡◌, refl, Bool, true, not, Option, some, List, [], ◌∷◌, ◌&&◌, ◌||◌, String,
  Dict, arith, get, nat_eq, string_eq, ◌==◌, ltb, leb, length, any, map, All, subst, sym,
  Bool-cases, Option-cases, inl, inr,
}
use litestar_queues.Models.{QueuedTaskRecord, is_waiting}
use litestar_queues.Memory.State.{Memory}
use litestar_queues.Memory.Enqueue.{get_task}
use litestar_queues.Memory.Queries.{upcoming, minimum, time_until_next_due}

minimum-first : (a : ℕ) (bs : List ℕ) → minimum a bs ≤ a
unfolding minimum
minimum-first a [] = omega arith
minimum-first a (b ∷ bs) = omega (arith, minimum-first (min a b) bs)

minimum-All : (a : ℕ) (bs : List ℕ) → All (λ b. minimum a bs ≤ b) (a ∷ bs)
unfolding minimum
minimum-All a [] = (omega arith, tt)
minimum-All a (b ∷ bs) =
    let rest = minimum-All (min a b) bs in (omega (arith, rest.0), (omega (arith, rest.0), rest.1))

-- A worker that polls the queues waits for the record's time.
abbrev pub is_upcoming : ℕ → List String → QueuedTaskRecord → ℕ → Bool
is_upcoming now queues r at =
    is_waiting r.status
    && ltb now at
    && (not (leb 1 (length queues)) || any (λ q. r.queue == q) queues)

module _ (P : ℕ → Type 0) (now : ℕ) (queues : List String) where
  upcoming-tail :
      (r : QueuedTaskRecord) (rs : List QueuedTaskRecord)
      → All P (upcoming now queues (r ∷ rs))
      → All P (upcoming now queues rs)
  unfolding upcoming
  upcoming-tail r rs h = elim (Option-cases r.scheduled_at) [
    | inl e ↦ rw e at h
    | inr (at, e) ↦ elim (Bool-cases (is_upcoming now queues r at)) [
      | inl soon ↦ (rw (e, soon) at h).1
      | inr other ↦ rw (e, other) at h
    ]
  ]

  upcoming-head :
      (r : QueuedTaskRecord) (rs : List QueuedTaskRecord) (at : ℕ)
      → All P (upcoming now queues (r ∷ rs))
      → r.scheduled_at ≡ some at
      → is_upcoming now queues r at ≡ true
      → P at
  unfolding upcoming
  upcoming-head r rs at h e soon = (rw (e, soon) at h).0

  upcoming-All :
      (d : Dict ℕ QueuedTaskRecord) (i : ℕ) (r : QueuedTaskRecord) (at : ℕ)
      → All P (upcoming now queues (map (λ kv. kv.1) d))
      → get i d ≡ some r
      → r.scheduled_at ≡ some at
      → is_upcoming now queues r at ≡ true
      → P at
  unfolding get
  upcoming-All [] i r at h here e soon = cc here
  upcoming-All ((k, q) ∷ d) i r at h here e soon = elim (Bool-cases (k == i)) [
    | inl same ↦
        let eq = some_inj q r (rw same at here) in
        upcoming-head q (map (λ kv. kv.1) d) at h
          (subst (λ (x : QueuedTaskRecord). x.scheduled_at ≡ some at) (sym eq) e)
          (subst (λ x. is_upcoming now queues x at ≡ true) (sym eq) soon)
    | inr other ↦
        upcoming-All d i r at (upcoming-tail q (map (λ kv. kv.1) d) h) (rw other at here) e soon
  ]
    where
      some_inj :
          (q r : QueuedTaskRecord) → ◌≡◌ {A = Option QueuedTaskRecord} (some q) (some r) → q ≡ r
      some_inj q r e = cc

-- The time until the next due record is at most the time until any waiting record of the queues that is
-- scheduled for later, so a worker that sleeps that long does not sleep past a due time.
pub time_until_next_due_earliest :
    (s : Memory) (now later : ℕ) (queues : List String) (i : ℕ) (r : QueuedTaskRecord) (at : ℕ)
    → get_task s i ≡ some r
    → r.scheduled_at ≡ some at
    → is_upcoming now queues r at ≡ true
    → (wait : ℕ) × (time_until_next_due s now later queues ≡ some wait) × (wait ≤ at - later)
unfolding time_until_next_due get_task
time_until_next_due_earliest s now later queues i r at here e soon =
    go (upcoming now queues (map (λ kv. kv.1) s.records)) refl
  where
    go :
        (ats : List ℕ)
        → upcoming now queues (map (λ kv. kv.1) s.records) ≡ ats
        → (wait : ℕ) × (time_until_next_due s now later queues ≡ some wait) × (wait ≤ at - later)
    go [] h = absurd (upcoming-All (λ _. ⊥) now queues s.records i r at (rw h tt) here e soon)
    go (a ∷ rest) h = (
      minimum a rest - later,
      rw (h, time_until_next_due) refl,
      omega (
        arith,
        upcoming-All (λ b. minimum a rest ≤ b) now queues s.records i r at
            (rw h (minimum-All a rest)) here e soon,
      ),
    )
