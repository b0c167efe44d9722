-- ===== src/Memory/Settle/Touches.antt =====
-- What the report of `touch_heartbeats` means.
use litestar_queues.Base.{
  Bool, true, false, none, some, ◌&&◌, get, insert, get-insert, get-insert_self, nat_eq, ◌==◌,
  eq_of_beq, subst, arith, if◌then◌else◌, none_or, Option-cases, Bool-cases, inl, inr, ◌≡◌, refl,
  All, any, ◌||◌, ◌++◌, [], ◌∷◌, eq_self, All-append, All-mono, ℕ, List,
}
use litestar_queues.Models.{is_running, QueuedTaskRecord, HeartbeatTouch, HeartbeatTouchResult}
use litestar_queues.Memory.State.{keep, write, apply, Memory, on_record}
use litestar_queues.Memory.Settle.{
  touched_record, set_add, touch_record, touch_loop, touch_heartbeats,
}

-- The task runs and has the heartbeat.
abbrev pub Beats : ℕ → Memory → ℕ → Type 0
Beats now s i =
    (r : QueuedTaskRecord) × (get i s.records ≡ some r)
    × (is_running r.status ≡ true)
    × (r.heartbeat_at ≡ some now)

touched_record-beats :
    (now : ℕ) (t : HeartbeatTouch) (r : QueuedTaskRecord)
    → is_running r.status ≡ true
    → (is_running (touched_record now t r).status ≡ true)
      × ((touched_record now t r).heartbeat_at ≡ some now)
unfolding touched_record
touched_record-beats now t r h = (h, refl)

-- What a touch does to a record that is there.
abbrev pub is_touchable : HeartbeatTouch → QueuedTaskRecord → Bool
is_touchable t r = is_running r.status && none_or t.expected_retry_count (λ n. r.retry_count == n)

touch_record-cases :
    (now : ℕ) (t : HeartbeatTouch) (r : QueuedTaskRecord)
    → touch_record now t r
      ≡ (if is_touchable t r then write (touched_record now t r) true else keep false)
unfolding touch_record
touch_record-cases now t r = ground arith

pub touch_here :
    (now : ℕ) (s : Memory) (t : HeartbeatTouch) (r : QueuedTaskRecord)
    → get t.task_id s.records ≡ some r
    → on_record s t.task_id false (touch_record now t) ≡ (
        if is_touchable t r
        then (record s { records = insert t.task_id (touched_record now t r) s.records }, true)
        else (s, false))
unfolding on_record
touch_here now s t r e =
    rw (e, on_record) (rw (touch_record-cases now t r) (split (is_touchable t r)))
  where
    split :
        (b : Bool)
        → apply s t.task_id (if b then write (touched_record now t r) true else keep false) ≡ (
            if b
            then (record s { records = insert t.task_id (touched_record now t r) s.records }, true)
            else (s, false))
    split true = refl
    split false = refl

pub touch_absent :
    (now : ℕ) (s : Memory) (t : HeartbeatTouch)
    → get t.task_id s.records ≡ none
    → on_record s t.task_id false (touch_record now t) ≡ (s, false)
unfolding on_record
touch_absent now s t e = rw (e, on_record) refl

-- The step of the loop: who beats goes on, and a touch that is taken beats.
touch-Beats :
    (now : ℕ) (s : Memory) (t : HeartbeatTouch)
    → let x = on_record s t.task_id false (touch_record now t) in
      ((i : ℕ) → Beats now s i → Beats now x.0 i) × (x.1 ≡ true → Beats now x.0 t.task_id)
touch-Beats now s t = elim (Option-cases (get t.task_id s.records)) [
  | inl e ↦ rw (touch_absent now s t e) (λ i b. b, λ h. cc h)
  | inr (r, e) ↦ rw (touch_here now s t r e) (elim (Bool-cases (is_touchable t r)) [
    | inr off ↦ rw off (λ i b. b, λ h. cc h)
    | inl on ↦ rw on (
      λ i b. elim (Bool-cases (t.task_id == i)) [
        | inl same ↦ subst (Beats now (after r)) (eq_of_beq t.task_id i same) (self r on)
        | inr other ↦ (
          b.0,
          (rw (get-insert t.task_id i (touched_record now t r) s.records, other) b.1),
          b.2,
          b.3,
        )
      ],
      λ h. self r on,
    )
  ])
]
  where
    after : QueuedTaskRecord → Memory
    after r = record s { records = insert t.task_id (touched_record now t r) s.records }

    self : (r : QueuedTaskRecord) → is_touchable t r ≡ true → Beats now (after r) t.task_id
    self r on =
        let both = touched_record-beats now t r (ground arith) in
        (
          touched_record now t r,
          get-insert_self t.task_id (touched_record now t r) s.records,
          both.0,
          both.1,
        )

abbrev pub is_in : List ℕ → ℕ → Bool
is_in is i = any (λ j. i == j) is

pub any-snoc : (i k : ℕ) (is : List ℕ) → is_in (is ++ k ∷ []) i ≡ (is_in is i || (i == k))
any-snoc i k [] = ground arith
any-snoc i k (j ∷ is) = ground (arith, any-snoc i k is)

set_add_self : (i : ℕ) (is : List ℕ) → is_in (set_add i is) i ≡ true
unfolding set_add
set_add_self i is = ground (arith, any-snoc i i is, eq_self i)

set_add-keeps : (i k : ℕ) (is : List ℕ) → is_in is i ≡ true → is_in (set_add k is) i ≡ true
unfolding set_add
set_add-keeps i k is h = ground (arith, any-snoc i k is)

set_add-All : (P : ℕ → Type 0) (k : ℕ) (is : List ℕ) → All P is → P k → All P (set_add k is)
unfolding set_add
set_add-All P k is h p = elim (Bool-cases (is_in is k)) [
  | inl old ↦ rw old h
  | inr new ↦ rw new (All-append P is (k ∷ []) h (p, tt))
]

abbrev Answered : HeartbeatTouchResult → ℕ → Type 0
Answered x i = (is_in x.touched_task_ids i || is_in x.missed_task_ids i) ≡ true

abbrev pub noted : HeartbeatTouch → Bool → HeartbeatTouchResult → HeartbeatTouchResult
noted t taken x =
    if taken
    then record x { touched_task_ids = set_add t.task_id x.touched_task_ids }
    else record x { missed_task_ids = set_add t.task_id x.missed_task_ids }

noted_self :
    (t : HeartbeatTouch) (b : Bool) (x : HeartbeatTouchResult) → Answered (noted t b x) t.task_id
noted_self t true x = ground (arith, set_add_self t.task_id x.touched_task_ids)
noted_self t false x = ground (arith, set_add_self t.task_id x.missed_task_ids)

noted-keeps :
    (t : HeartbeatTouch) (b : Bool) (x : HeartbeatTouchResult) (i : ℕ)
    → Answered x i
    → Answered (noted t b x) i
noted-keeps t true x i h = ground (arith, set_add-keeps i t.task_id x.touched_task_ids)
noted-keeps t false x i h = ground (arith, set_add-keeps i t.task_id x.missed_task_ids)

touch_loop-keeps :
    (now : ℕ) (s : Memory) (ts : List HeartbeatTouch) (x : HeartbeatTouchResult) (i : ℕ)
    → Answered x i
    → Answered (touch_loop now s ts x).1 i
unfolding touch_loop
touch_loop-keeps now s [] x i h = h
touch_loop-keeps now s (t ∷ ts) x i h =
    let step = on_record s t.task_id false (touch_record now t) in
    touch_loop-keeps now step.0 ts (noted t step.1 x) i (noted-keeps t step.1 x i h)

touch_loop-answers :
    (now : ℕ) (s : Memory) (ts : List HeartbeatTouch) (x : HeartbeatTouchResult)
    → All (λ t. Answered (touch_loop now s ts x).1 t.task_id) ts
unfolding touch_loop
touch_loop-answers now s [] x = tt
touch_loop-answers now s (t ∷ ts) x =
    let step = on_record s t.task_id false (touch_record now t) in
    (
      touch_loop-keeps now step.0 ts (noted t step.1 x) t.task_id (noted_self t step.1 x),
      touch_loop-answers now step.0 ts (noted t step.1 x),
    )

noted-Beats :
    (now : ℕ) (s : Memory) (t : HeartbeatTouch) (b : Bool) (x : HeartbeatTouchResult)
    → All (Beats now s) x.touched_task_ids
    → (b ≡ true → Beats now s t.task_id)
    → All (Beats now s) (noted t b x).touched_task_ids
noted-Beats now s t true x h p = set_add-All (Beats now s) t.task_id x.touched_task_ids h (p refl)
noted-Beats now s t false x h p = h

touch_loop-Beats :
    (now : ℕ) (s : Memory) (ts : List HeartbeatTouch) (x : HeartbeatTouchResult)
    → All (Beats now s) x.touched_task_ids
    → All (Beats now (touch_loop now s ts x).0) (touch_loop now s ts x).1.touched_task_ids
unfolding touch_loop
touch_loop-Beats now s [] x h = h
touch_loop-Beats now s (t ∷ ts) x h =
    let step = on_record s t.task_id false (touch_record now t) in
    let beats = touch-Beats now s t in
    touch_loop-Beats now step.0 ts (noted t step.1 x) (
      noted-Beats now step.0 t step.1 x
        (All-mono (Beats now s) (Beats now step.0) x.touched_task_ids beats.0 h) beats.1)

-- A batch of heartbeats answers for each of its tasks, as touched or as missed, and every task that is
-- reported as touched is running with the new heartbeat at the end of the batch.
pub touch_heartbeats_reports :
    (s : Memory) (now : ℕ) (touches : List HeartbeatTouch)
    → let (t, report) = touch_heartbeats s now touches in
      All
        (λ x.
          (is_in report.touched_task_ids x.task_id || is_in report.missed_task_ids x.task_id)
          ≡ true)
        touches
      × All (Beats now t) report.touched_task_ids
unfolding touch_heartbeats
touch_heartbeats_reports s now touches =
    (touch_loop-answers now s touches _, touch_loop-Beats now s touches _ tt)
