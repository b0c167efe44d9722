-- ===== src/Worker/Heartbeat/Misses.antt =====
-- How worker/heartbeat.py counts the ticks that miss a task.
use litestar_queues.Base.{
  ℕ, ◌+◌, Bool, false, Option, none, some, List, [], ◌∷◌, get, get-insert, get-delete, nat_eq, ◌==◌,
  All, any, if◌then◌else◌, ◌≡◌, refl, ap, ◌≢◌, eq_of_beq, leb, Bool-cases, Option-cases, inl, inr,
  arith, subst, ◌∙◌,
}
use litestar_queues.Worker.Heartbeat.{
  HeartbeatManager, HeartbeatRegistration, unregister, set_misses, touched, touched_loop,
}

abbrev pub Distinct : List ℕ → Type 0
Distinct [] = Unit
Distinct (i ∷ is) = All (λ j. i ≢ j) is × Distinct is

-- `i in ids`.
abbrev pub has_id : ℕ → List ℕ → Bool
has_id i is = any (λ j. j == i) is

-- The registration of a task after the tick counted it as touched, and as missed.
abbrev pub reset : HeartbeatRegistration → HeartbeatRegistration
reset r = record r { consecutive_misses = 0 }

abbrev pub miss : ℕ → HeartbeatRegistration → Option HeartbeatRegistration
miss threshold r =
    if leb threshold (r.consecutive_misses + 1)
    then none
    else some (record r { consecutive_misses = r.consecutive_misses + 1 })

abbrev pub miss_option : ℕ → Option HeartbeatRegistration → Option HeartbeatRegistration
miss_option threshold none = none
miss_option threshold (some r) = miss threshold r

abbrev pub reset_option : Option HeartbeatRegistration → Option HeartbeatRegistration
reset_option none = none
reset_option (some r) = some (reset r)

get-unregister :
    (m : HeartbeatManager) (i j : ℕ)
    → get i (unregister m j).registrations ≡ (if j == i then none else get i m.registrations)
unfolding unregister
get-unregister m i j = elim (Option-cases (get j m.registrations)) [
  | inl absent ↦
      rw (absent, unregister)
        (ground (arith, nat_eq.test_iff j i, ap (λ k. get k m.registrations), absent))
  | inr (r, found) ↦ rw (found, unregister) (get-delete j i m.registrations)
]

get-touched :
    (m : HeartbeatManager) (i j : ℕ)
    → get i (touched m j).registrations
      ≡ (if j == i then reset_option (get i m.registrations) else get i m.registrations)
unfolding touched set_misses
get-touched m i j = elim (Option-cases (get j m.registrations)) [
  | inl absent ↦
      rw (absent, touched)
        (ground (arith, nat_eq.test_iff j i, ap (λ k. get k m.registrations), absent))
  | inr (r, found) ↦
      rw (found, touched)
        (ground (
          arith,
          get-insert j i (reset r) m.registrations,
          nat_eq.test_iff j i,
          ap (λ k. get k m.registrations),
          found,
        ))
]

-- A round over a missed task, where no other task acts.
unfoldable pub missed_alone : HeartbeatManager → ℕ → HeartbeatManager
unfolding set_misses unregister
missed_alone m j = elim (get j m.registrations) [
  | none ↦ m
  | some r ↦
      let m' = set_misses j r m (r.consecutive_misses + 1) in
      if leb m.miss_threshold (r.consecutive_misses + 1) then unregister m' j else m'
]

get-missed_alone :
    (m : HeartbeatManager) (i j : ℕ)
    → get i (missed_alone m j).registrations ≡ (
        if j == i
        then miss_option m.miss_threshold (get i m.registrations)
        else get i m.registrations)
unfolding missed_alone set_misses
get-missed_alone m i j = elim (Option-cases (get j m.registrations)) [
  | inl absent ↦
      rw (absent, missed_alone)
        (ground (arith, nat_eq.test_iff j i, ap (λ k. get k m.registrations), absent))
  | inr (r, found) ↦
      let r' : HeartbeatRegistration = record r { consecutive_misses = r.consecutive_misses + 1 } in
      rw (found, missed_alone)
        (ground (
          arith,
          get-insert j i r' m.registrations,
          nat_eq.test_iff j i,
          get-unregister (set_misses j r m (r.consecutive_misses + 1)) i j,
          ap (λ k. get k m.registrations),
          found,
        ))
]

missed_alone-threshold :
    (m : HeartbeatManager) (j : ℕ) → (missed_alone m j).miss_threshold ≡ m.miss_threshold
unfolding missed_alone set_misses unregister
missed_alone-threshold m j = ground arith

touched-threshold : (m : HeartbeatManager) (j : ℕ) → (touched m j).miss_threshold ≡ m.miss_threshold
unfolding touched set_misses
touched-threshold m j = ground arith

unfoldable pub missed_alone_loop : HeartbeatManager → List ℕ → HeartbeatManager
missed_alone_loop m [] = m
missed_alone_loop m (j ∷ js) = missed_alone_loop (missed_alone m j) js

pub get-touched_loop :
    (m : HeartbeatManager) (i : ℕ) (js : List ℕ)
    → get i (touched_loop m js).registrations
      ≡ (if has_id i js then reset_option (get i m.registrations) else get i m.registrations)
unfolding touched_loop
get-touched_loop m i [] = refl
get-touched_loop m i (j ∷ js) =
    ground (arith, get-touched_loop (touched m j) i js, get-touched m i j)

pub touched_loop-threshold :
    (m : HeartbeatManager) (js : List ℕ) → (touched_loop m js).miss_threshold ≡ m.miss_threshold
unfolding touched_loop
touched_loop-threshold m [] = refl
touched_loop-threshold m (j ∷ js) = touched_loop-threshold (touched m j) js ∙ touched-threshold m j

has_id-apart : (i : ℕ) (js : List ℕ) → All (λ j. i ≢ j) js → has_id i js ≡ false
has_id-apart i [] a = refl
has_id-apart i (j ∷ js) a = ground (arith, nat_eq.test_iff j i, a.0, has_id-apart i js a.1)

pub get-missed_alone_loop :
    (m : HeartbeatManager) (i : ℕ) (js : List ℕ)
    → Distinct js
    → get i (missed_alone_loop m js).registrations ≡ (
        if has_id i js
        then miss_option m.miss_threshold (get i m.registrations)
        else get i m.registrations)
unfolding missed_alone_loop
get-missed_alone_loop m i [] a = refl
get-missed_alone_loop m i (j ∷ js) a =
    rw
      (
        get-missed_alone_loop (missed_alone m j) i js a.1,
        missed_alone-threshold m j,
        get-missed_alone m i j,
      )
      (elim (Bool-cases (j == i)) [
        | inl same ↦
            rw (same, has_id-apart i js (subst (λ k. All (λ l. k ≢ l) js) (eq_of_beq j i same) a.0))
              refl
        | inr other ↦ rw other refl
      ])

pub missed_alone_loop-threshold :
    (m : HeartbeatManager) (js : List ℕ)
    → (missed_alone_loop m js).miss_threshold ≡ m.miss_threshold
unfolding missed_alone_loop
missed_alone_loop-threshold m [] = refl
missed_alone_loop-threshold m (j ∷ js) =
    missed_alone_loop-threshold (missed_alone m j) js ∙ missed_alone-threshold m j
