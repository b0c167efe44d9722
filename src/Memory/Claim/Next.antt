-- ===== src/Memory/Claim/Next.antt =====
-- `claim_next` of src/litestar_queues/backends/base.py, which the in-memory backend inherits.
use litestar_queues.Base.{
  ℕ, suc, ◌≡◌, refl, true, Option, none, some, List, [], ◌∷◌, String, map, Option-cases, inl, inr,
  ◌⊎◌, ◌∙◌,
}
use litestar_queues.Models.{QueuedTaskRecord, is_running}
use litestar_queues.Memory.State.{Memory}
use litestar_queues.Memory.Enqueue.{get_task}
use litestar_queues.Memory.Claim.{list_pending, claim_task}
use litestar_queues.Memory.Claim.Exclusive.{claim_task_exclusive}

-- The readings of the clock in one round: for `list_pending` by record, and for the claim.
pub record Readings : Type 0 where
  pub due : ℕ → ℕ
  pub late : ℕ → ℕ
  pub claim_due : ℕ
  pub claim_now : ℕ

-- `queues or (None,)`.
abbrev pub rounds : List String → List (Option String)
rounds [] = none ∷ []
rounds (q ∷ qs) = map some (q ∷ qs)

-- `clock` has the readings of each round, by its position `i`.
unfoldable pub claim_next_loop :
    Memory
    → (ℕ → Readings)
    → Option String
    → ℕ
    → List (Option String)
    → Memory × Option QueuedTaskRecord
unfolding list_pending claim_task
claim_next_loop s clock backend i [] = (s, none)
claim_next_loop s clock backend i (queue ∷ queues) =
    elim (list_pending s (clock i).due (clock i).late 1 queue backend) [
      | [] ↦ claim_next_loop s clock backend (suc i) queues
      | r ∷ rs ↦
          let x = claim_task s r.id (clock i).claim_due (clock i).claim_now none none in
          elim x.1 [
            | some r' ↦ (x.0, some r')
            | none ↦ claim_next_loop x.0 clock backend (suc i) queues
          ]
    ]

unfoldable pub claim_next :
    Memory → (ℕ → Readings) → List String → Option String → Memory × Option QueuedTaskRecord
unfolding claim_next_loop
claim_next s clock queues backend = claim_next_loop s clock backend 0 (rounds queues)

List-cases :
    (rs : List QueuedTaskRecord)
    → (rs ≡ []) ⊎ ((r : QueuedTaskRecord) × (rest : List QueuedTaskRecord) × (rs ≡ r ∷ rest))
List-cases [] = inl refl
List-cases (r ∷ rest) = inr (r, rest, refl)

module _ (due now : ℕ) (n : Option ℕ) (ref : Option String) where
  -- The record is stored as running, and the given claim of it is refused.
  abbrev pub IsClaimed : Memory → QueuedTaskRecord → Type 0
  IsClaimed t r =
      (i : ℕ) × (get_task t i ≡ some r)
      × (is_running r.status ≡ true)
      × (claim_task t i due now n ref ≡ (t, none))

  claim_task-IsClaimed :
      (s : Memory) (i due' now' : ℕ) (r' r : QueuedTaskRecord)
      → (claim_task s i due' now' none none).1 ≡ some r
      → some r ≡ some r'
      → IsClaimed (claim_task s i due' now' none none).0 r'
  claim_task-IsClaimed s i due' now' r' r h e =
      let won = claim_task_exclusive s i due' now' due now none n none ref r' (h ∙ e) in
      (i, won.1, won.2, won.3)

  claim_next_loop-IsClaimed :
      (clock : ℕ → Readings) (backend : Option String) (queues : List (Option String)) (i : ℕ)
      (s : Memory) (r' : QueuedTaskRecord)
      → (claim_next_loop s clock backend i queues).1 ≡ some r'
      → IsClaimed (claim_next_loop s clock backend i queues).0 r'
  unfolding claim_next_loop
  claim_next_loop-IsClaimed clock backend [] i s r' h = cc h
  claim_next_loop-IsClaimed clock backend (queue ∷ queues) i s r' h =
      elim (List-cases (list_pending s (clock i).due (clock i).late 1 queue backend)) [
        | inl e ↦
            rw (e, claim_next_loop)
              (claim_next_loop-IsClaimed clock backend queues (suc i) s r'
                (rw (e, claim_next_loop) at h))
        | inr (r, rest, e) ↦
            elim (Option-cases
              (claim_task s r.id (clock i).claim_due (clock i).claim_now none none).1) [
                | inl lost ↦
                    rw (e, claim_next_loop)
                      (rw lost (
                        claim_next_loop-IsClaimed clock backend queues (suc i)
                          (claim_task s r.id (clock i).claim_due (clock i).claim_now none none).0 r'
                          (rw (e, lost, claim_next_loop) at h)))
                | inr (q, won) ↦
                    rw (e, claim_next_loop)
                      (rw won (
                        claim_task-IsClaimed s r.id (clock i).claim_due (clock i).claim_now r' q won
                          (rw (e, won, claim_next_loop) at h)))
              ]
      ]

  -- A record that `claim_next` returns is stored as running, and any further claim of it is refused and
  -- changes nothing.
  pub claim_next_exclusive :
      (s : Memory) (clock : ℕ → Readings) (queues : List String) (backend : Option String)
      (r' : QueuedTaskRecord)
      → (claim_next s clock queues backend).1 ≡ some r'
      → (i : ℕ) × (get_task (claim_next s clock queues backend).0 i ≡ some r')
        × (is_running r'.status ≡ true)
        × (claim_task (claim_next s clock queues backend).0 i due now n ref
            ≡ ((claim_next s clock queues backend).0, none))
  unfolding claim_next
  claim_next_exclusive s clock queues backend r' h =
      claim_next_loop-IsClaimed clock backend (rounds queues) 0 s r' h
