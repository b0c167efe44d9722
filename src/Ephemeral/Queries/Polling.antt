-- ===== src/Ephemeral/Queries/Polling.antt =====
-- The poll of `wait_for_wakeups` ends.
use litestar_queues.Base.{
  ℕ, zero, suc, ◌+◌, ◌-◌, ◌≤◌, ◌<◌, ◌≡◌, refl, true, false, Bool, some, inl, inr, arith, Bool-cases,
  leb,
}
use litestar_queues.Ephemeral.Database.{EphemeralQueueBackend}
use litestar_queues.Ephemeral.Queries.{Round, poll_loop, wait_for_wakeups, has_due_work, wake}

poll_loop-ends :
    (i deadline fuel : ℕ) (rounds : ℕ → Round)
    → ((j : ℕ) → (rounds j).time < (rounds (suc j)).time)
    → deadline - (rounds i).time < fuel
    → (answer : Bool) × (poll_loop i (some deadline) rounds fuel ≡ some answer)
unfolding poll_loop
poll_loop-ends i deadline zero rounds later enough = absurd (omega (arith, enough))
poll_loop-ends i deadline (suc fuel) rounds later enough =
    elim (Bool-cases (has_due_work (rounds i).now (rounds i).file)) [
      | inl due ↦ (true, rw due refl)
      | inr idle ↦ elim (Bool-cases (rounds i).is_set) [
        | inl set ↦ (true, rw (idle, set) refl)
        | inr unset ↦ elim (Bool-cases (leb deadline (rounds i).time)) [
          | inl over ↦ (false, rw (idle, unset, over) refl)
          | inr early ↦
              let (a, rest) =
                poll_loop-ends (suc i) deadline fuel rounds later
                  (ground (arith, later i, enough, early)) in
              (a, rw (idle, unset, early) rest)
        ]
      ]
    ]

wake-answer : (b : EphemeralQueueBackend) (a : Bool) → (wake b (some a)).1 ≡ some a
wake-answer b true = refl
wake-answer b false = refl

-- With a timeout, `wait_for_wakeups` returns, and within as many rounds as the timeout has ticks and one
-- more, if the loop's clock is later in each round than in the one before and not before the call.
pub wait_for_wakeups_ends :
    (b : EphemeralQueueBackend) (start timeout : ℕ) (rounds : ℕ → Round)
    → ((j : ℕ) → (rounds j).time < (rounds (suc j)).time)
    → start ≤ (rounds 0).time
    → (answer : Bool) × ((wait_for_wakeups b start (some timeout) rounds (suc timeout)).1
        ≡ some answer)
unfolding wait_for_wakeups
wait_for_wakeups_ends b start timeout rounds later begun = elim (Bool-cases b.notification_event) [
  | inl set ↦ (true, rw set refl)
  | inr unset ↦
      let (a, ends) =
        poll_loop-ends 0 (start + timeout) (suc timeout) rounds later (omega (arith, begun)) in
      (a, rw (unset, ends) (wake-answer (record b { notification_event = false }) a))
]
