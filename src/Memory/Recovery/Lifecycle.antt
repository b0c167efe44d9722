-- ===== src/Memory/Recovery/Lifecycle.antt =====
-- A stale recovery that raises no error follows the lifecycle of the records.
use litestar_queues.Memory.Recovery.{
  count_failed, Recovery, recover_one, recover_loop, requeued_record, rescheduled_record,
  stale_failed_record, requeue_on_stale, is_stale, entry_staler, stale_candidates,
  requeue_stale_running, prioritize, reschedule,
}
use litestar_queues.Memory.Changes.{Changes}
use litestar_queues.Base.{
  insert-Apart, ℕ, ◌≡◌, refl, Bool, true, false, not, Option, none, some, arith, ◌&&◌, List, [],
  ◌∷◌, Apart, Apart-sort, Apart-select, Apart-take, Stored, Stored-insert, Stored-self, All,
  All-sort, All-select, All-select_of_All, All-take, sort, select, get, insert, nat_eq, Bool-cases,
  Option-cases, inl, inr, if◌then◌else◌, some_and, ltb_ℤ, ℤ,
}
use litestar_queues.Models.{Floats, QueuedTaskRecord, is_running}
use litestar_queues.Backend.{
  StaleRequeuePriority, attempts_consumed, retry_schedule, stale_requeue_priority,
}
use litestar_queues.Memory.State.{Memory}
use litestar_queues.Memory.Dispatch.{take_limit}
use litestar_queues.Memory.Evolution.{
  Moves, Moves-refl, Moves-trans, Evolves, Evolves-refl, Evolves-trans, insert-Evolves,
}

abbrev IsRunning : ℕ × QueuedTaskRecord → Type 0
IsRunning kv = is_running kv.1.status ≡ true

requeued_record-Moves :
    (at : ℕ × Option ℕ) (p : ℤ) (r : QueuedTaskRecord)
    → is_running r.status ≡ true
    → Moves r (requeued_record at p r)
unfolding requeued_record rescheduled_record
requeued_record-Moves at p r h = ground arith

stale_failed_record-Moves :
    (now : ℕ) (r : QueuedTaskRecord)
    → is_running r.status ≡ true
    → Moves r (stale_failed_record now r)
unfolding stale_failed_record
stale_failed_record-Moves now r h = ground arith

module _ (fl : Floats) (policy : StaleRequeuePriority) (now k : ℕ) (r : QueuedTaskRecord)
    (x : Recovery) (here : get k x.records ≡ some r) (up : is_running r.status ≡ true) where
  prioritize-written :
      (at : ℕ × Option ℕ) (p : Option ℤ)
      → (prioritize fl policy now k r x at p).raised ≡ none
      → (r' : QueuedTaskRecord) × (Moves r r')
        × ((prioritize fl policy now k r x at p).records ≡ insert k r' x.records)
  prioritize-written at none h = cc
  prioritize-written at (some p) h = (requeued_record at p r, requeued_record-Moves at p r up, refl)

  reschedule-written :
      (at : Option (ℕ × Option ℕ))
      → (reschedule fl policy now k r x at).raised ≡ none
      → (r' : QueuedTaskRecord) × (Moves r r')
        × ((reschedule fl policy now k r x at).records ≡ insert k r' x.records)
  reschedule-written none h = cc
  reschedule-written (some at) h =
      prioritize-written at (stale_requeue_priority r.priority policy) h

  -- Without an error the candidate's record is written once, and moves along its lifecycle.
  recover_one-written :
      (recover_one fl policy now k r x).raised ≡ none
      → (r' : QueuedTaskRecord) × (Moves r r')
        × ((recover_one fl policy now k r x).records ≡ insert k r' x.records)
  unfolding recover_one
  recover_one-written h =
      elim (Bool-cases (requeue_on_stale r && ltb_ℤ (attempts_consumed fl r) r.max_retries)) [
        | inl again ↦ rw again (reschedule-written (retry_schedule fl r now) (rw again at h))
        | inr over ↦ rw over (stale_failed_record now r, stale_failed_record-Moves now r up, refl)
      ]

module _ (fl : Floats) (policy : StaleRequeuePriority) (clock : ℕ → ℕ) where
  -- An error raised by one candidate is the loop's.
  recover_loop-raised :
      (es : List (ℕ × QueuedTaskRecord)) (k : ℕ) (r : QueuedTaskRecord) (x : Recovery)
      → (recover_loop fl policy clock ((k, r) ∷ es) x).raised ≡ none
      → ((recover_one fl policy (clock k) k r x).raised ≡ none)
        × (recover_loop fl policy clock ((k, r) ∷ es) x
            ≡ recover_loop fl policy clock es (recover_one fl policy (clock k) k r x))
  unfolding recover_loop
  recover_loop-raised es k r x h =
      elim (Option-cases (recover_one fl policy (clock k) k r x).raised) [
        | inl fine ↦ (fine, rw fine refl)
        | inr (e, bad) ↦ cc (rw bad at h, bad)
      ]

  recover_loop-Evolves :
      (es : List (ℕ × QueuedTaskRecord)) (x : Recovery)
      → Apart es
      → Stored x.records es
      → All IsRunning es
      → (recover_loop fl policy clock es x).raised ≡ none
      → Evolves Moves x.records (recover_loop fl policy clock es x).records
  recover_loop-Evolves [] x a h up fine =
      unfold recover_loop in Evolves-refl Moves Moves-refl x.records
  recover_loop-Evolves ((k, r) ∷ es) x a h up fine =
      let (calm, next) = recover_loop-raised es k r x fine in
      let (r', moved, wrote) = recover_one-written fl policy (clock k) k r x h.0 up.0 calm in
      rw next (
        Evolves-trans x.records (recover_one fl policy (clock k) k r x).records _
          (λ u v w. Moves-trans)
          (rw wrote (insert-Evolves Moves Moves-refl k r r' x.records h.0 moved))
          (recover_loop-Evolves es (recover_one fl policy (clock k) k r x) a.1
            (rw wrote (Stored-insert k r' x.records es a.0 h.1)) up.1 (rw next at fine)))

is_stale-IsRunning :
    (now stale_after : ℕ) (kv : ℕ × QueuedTaskRecord)
    → is_stale now stale_after kv.1 ≡ true
    → IsRunning kv
unfolding is_stale
is_stale-IsRunning now stale_after kv h = ground arith

take_limit-Apart :
    (limit : Option ℕ) (es : List (ℕ × QueuedTaskRecord)) → Apart es → Apart (take_limit limit es)
take_limit-Apart none es a = a
take_limit-Apart (some n) es a = Apart-take n es a

take_limit-All :
    (P : ℕ × QueuedTaskRecord → Type 0) (limit : Option ℕ) (es : List (ℕ × QueuedTaskRecord))
    → All P es
    → All P (take_limit limit es)
take_limit-All P none es a = a
take_limit-All P (some n) es a = All-take P n es a

-- A recovery that raises nothing follows the lifecycle of every record.
pub requeue_stale_running-Evolves :
    (s : Memory) (fl : Floats) (policy : StaleRequeuePriority) (now stale_after : ℕ)
    (limit : Option ℕ) (clock : ℕ → ℕ)
    → Apart s.records
    → (requeue_stale_running s fl policy now stale_after limit clock).2 ≡ none
    → Evolves Moves s.records
        (requeue_stale_running s fl policy now stale_after limit clock).0.records
unfolding requeue_stale_running stale_candidates
requeue_stale_running-Evolves s fl policy now stale_after limit clock a fine =
    recover_loop-Evolves fl policy clock (take_limit limit (sort entry_staler found)) _
      (take_limit-Apart limit _ (Apart-sort entry_staler found (Apart-select stale s.records a)))
      (take_limit-All (λ kv. get kv.0 s.records ≡ some kv.1) limit _
        (All-sort (λ kv. get kv.0 s.records ≡ some kv.1) entry_staler found
          (All-select_of_All (λ kv. get kv.0 s.records ≡ some kv.1) stale s.records
            (Stored-self s.records a))))
      (take_limit-All IsRunning limit _ (
        All-sort IsRunning entry_staler found
          (All-select IsRunning stale s.records (is_stale-IsRunning now stale_after))))
      fine
  where
    stale : ℕ × QueuedTaskRecord → Bool
    stale kv = is_stale now stale_after kv.1

    found : List (ℕ × QueuedTaskRecord)
    found = select stale s.records

module _ (fl : Floats) (policy : StaleRequeuePriority) (now k : ℕ) (r : QueuedTaskRecord)
    (x : Recovery) (a : Apart x.records) where
  prioritize-Apart :
      (at : ℕ × Option ℕ) (p : Option ℤ) → Apart (prioritize fl policy now k r x at p).records
  prioritize-Apart at none = insert-Apart k (rescheduled_record at r) x.records a
  prioritize-Apart at (some p) = insert-Apart k (requeued_record at p r) x.records a

  reschedule-Apart :
      (at : Option (ℕ × Option ℕ)) → Apart (reschedule fl policy now k r x at).records
  reschedule-Apart none = a
  reschedule-Apart (some at) = prioritize-Apart at (stale_requeue_priority r.priority policy)

  recover_one-Apart : Apart (recover_one fl policy now k r x).records
  unfolding recover_one
  recover_one-Apart =
      elim (requeue_on_stale r && ltb_ℤ (attempts_consumed fl r) r.max_retries)
        as (λ b.
          Apart
            (if b then reschedule fl policy now k r x (retry_schedule fl r now) else record x {
              records = insert k (stale_failed_record now r) x.records;
              result = count_failed r.id (not (requeue_on_stale r)) x.result;
            }).records) [
              | true ↦ reschedule-Apart (retry_schedule fl r now)
              | false ↦ insert-Apart k (stale_failed_record now r) x.records a
            ]

recover_loop-Apart :
    (fl : Floats) (policy : StaleRequeuePriority) (clock : ℕ → ℕ) (es : List (ℕ × QueuedTaskRecord))
    (x : Recovery)
    → Apart x.records
    → Apart (recover_loop fl policy clock es x).records
unfolding recover_loop
recover_loop-Apart fl policy clock [] x a = a
recover_loop-Apart fl policy clock ((k, r) ∷ es) x a =
    elim (Bool-cases (some_and (recover_one fl policy (clock k) k r x).raised (λ _. true))) [
      | inl bad ↦ rw bad (recover_one-Apart fl policy (clock k) k r x a)
      | inr fine ↦ rw fine (
          recover_loop-Apart fl policy clock es (recover_one fl policy (clock k) k r x)
            (recover_one-Apart fl policy (clock k) k r x a))
    ]

pub requeue_stale_running-Changes :
    (s : Memory) (fl : Floats) (policy : StaleRequeuePriority) (now stale_after : ℕ)
    (limit : Option ℕ) (clock : ℕ → ℕ)
    → Apart s.records
    → (requeue_stale_running s fl policy now stale_after limit clock).2 ≡ none
    → Changes s (requeue_stale_running s fl policy now stale_after limit clock).0
unfolding requeue_stale_running
requeue_stale_running-Changes s fl policy now stale_after limit clock a fine = record {
  moves = requeue_stale_running-Evolves s fl policy now stale_after limit clock a fine;
  apart = recover_loop-Apart fl policy clock (stale_candidates now stale_after limit s.records) _ a;
  keys = refl;
}
