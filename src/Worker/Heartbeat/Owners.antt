-- ===== src/Worker/Heartbeat/Owners.antt =====
-- The ticks of worker/heartbeat.py over the queue of backends/memory/backend.py.
use litestar_queues.Base.{
  ℕ, Bool, true, false, not, Option, none, some, List, [], ◌∷◌, ◌++◌, String, Dict, get, get-insert,
  nat_eq, ◌==◌, ◌&&◌, ◌||◌, All, Apart, if◌then◌else◌, ◌≡◌, refl, sym, ap, ◌≢◌, eq_self, eq_of_beq,
  ne_of_beq, none_or, Bool-cases, Option-cases, inl, inr, arith, subst, ◌∙◌, All-append,
}
use litestar_queues.Models.{HeartbeatTouch, HeartbeatTouchResult, QueuedTaskRecord, is_running}
use litestar_queues.Memory.State.{Memory, on_record}
use litestar_queues.Memory.Enqueue.{get_task}
use litestar_queues.Memory.Settle.{
  touched_record, set_add, touch_record, touch_loop, touch_heartbeats,
}
use litestar_queues.Memory.Settle.Touches.{
  is_touchable, is_in, any-snoc, noted, touch_here, touch_absent,
}
use litestar_queues.Worker.Heartbeat.{
  HeartbeatManager, HeartbeatRegistration, build_touches, progress_patch,
}
use litestar_queues.Worker.Heartbeat.Service.{HeartbeatService, tick}
use litestar_queues.Worker.Heartbeat.Tracking.{IsTracked}
use litestar_queues.Worker.Heartbeat.Misses.{Distinct, has_id, reset, miss}
use litestar_queues.Worker.Heartbeat.Counts.{IsQuiet, tick_counts}

has_id-is_in : (i : ℕ) (is : List ℕ) → has_id i is ≡ is_in is i
has_id-is_in i [] = refl
has_id-is_in i (j ∷ is) =
    ground (arith, nat_eq.test_iff i j, nat_eq.test_iff j i, has_id-is_in i is)

has_id-set_add : (i k : ℕ) (is : List ℕ) → has_id i (set_add k is) ≡ (has_id i is || (k == i))
unfolding set_add
has_id-set_add i k is =
    rw (has_id-is_in i (set_add k is), has_id-is_in i is)
      (ground (arith, any-snoc i k is, nat_eq.test_iff i k, nat_eq.test_iff k i, ap (is_in is)))

apart_of_id : (k : ℕ) (is : List ℕ) → has_id k is ≡ false → All (λ j. j ≢ k) is
apart_of_id k [] h = tt
apart_of_id k (j ∷ is) h =
    (λ e. ground (arith, nat_eq.test_iff j k, h, e), apart_of_id k is (ground (arith, h)))

Distinct-snoc : (k : ℕ) (is : List ℕ) → All (λ j. j ≢ k) is → Distinct is → Distinct (is ++ k ∷ [])
Distinct-snoc k [] a d = (tt, tt)
Distinct-snoc k (j ∷ is) a d =
    (All-append (λ l. j ≢ l) is (k ∷ []) d.0 (a.0, tt), Distinct-snoc k is a.1 d.1)

Distinct-set_add : (k : ℕ) (is : List ℕ) → Distinct is → Distinct (set_add k is)
unfolding set_add
Distinct-set_add k is d = elim (Bool-cases (is_in is k)) [
  | inl old ↦ rw old d
  | inr new ↦ rw new (Distinct-snoc k is (apart_of_id k is (has_id-is_in k is ∙ new)) d)
]

touch_loop-Distinct :
    (now : ℕ) (s : Memory) (ts : List HeartbeatTouch) (x : HeartbeatTouchResult)
    → Distinct x.missed_task_ids
    → Distinct (touch_loop now s ts x).1.missed_task_ids
unfolding touch_loop
touch_loop-Distinct now s [] x d = d
touch_loop-Distinct now s (t ∷ ts) x d =
    let step = on_record s t.task_id false (touch_record now t) in
    touch_loop-Distinct now step.0 ts (noted t step.1 x)
      (elim step.1 as (λ b. Distinct (noted t b x).missed_task_ids) [
        | true ↦ d
        | false ↦ Distinct-set_add t.task_id x.missed_task_ids d
      ])

-- Whether the ids of an answer have the task.
abbrev Same : ℕ → HeartbeatTouchResult → HeartbeatTouchResult → Type 0
Same i x y =
    (has_id i y.touched_task_ids ≡ has_id i x.touched_task_ids)
    × (has_id i y.missed_task_ids ≡ has_id i x.missed_task_ids)

noted_other :
    (i : ℕ) (t : HeartbeatTouch) (b : Bool) (x : HeartbeatTouchResult)
    → i ≢ t.task_id
    → Same i x (noted t b x)
noted_other i t true x h = (
  ground (arith, has_id-set_add i t.task_id x.touched_task_ids, nat_eq.test_iff t.task_id i, h),
  refl,
)
noted_other i t false x h = (
  refl,
  ground (arith, has_id-set_add i t.task_id x.missed_task_ids, nat_eq.test_iff t.task_id i, h),
)

touch_loop_others :
    (now i : ℕ) (s : Memory) (ts : List HeartbeatTouch) (x : HeartbeatTouchResult)
    → All (λ t. i ≢ t.task_id) ts
    → Same i x (touch_loop now s ts x).1
unfolding touch_loop
touch_loop_others now i s [] x a = (refl, refl)
touch_loop_others now i s (t ∷ ts) x a =
    let step = on_record s t.task_id false (touch_record now t) in
    let first = noted_other i t step.1 x a.0 in
    let rest = touch_loop_others now i step.0 ts (noted t step.1 x) a.1 in
    (rest.0 ∙ first.0, rest.1 ∙ first.1)

touch_other :
    (now i : ℕ) (s : Memory) (t : HeartbeatTouch)
    → i ≢ t.task_id
    → get i (on_record s t.task_id false (touch_record now t)).0.records ≡ get i s.records
touch_other now i s t h = elim (Option-cases (get t.task_id s.records)) [
  | inl absent ↦ rw (touch_absent now s t absent) refl
  | inr (r, found) ↦ rw (touch_here now s t r found) (elim (Bool-cases (is_touchable t r)) [
    | inl on ↦ rw on (
        ground (
          arith,
          get-insert t.task_id i (touched_record now t r) s.records,
          nat_eq.test_iff t.task_id i,
          h,
        ))
    | inr off ↦ rw off refl
  ])
]

build_touches-apart :
    (i : ℕ) (beats : Dict ℕ (Option String)) (d : Dict ℕ HeartbeatRegistration)
    → All (λ y. i ≢ y.0) d
    → All (λ t. i ≢ t.task_id) (build_touches beats d)
unfolding build_touches
build_touches-apart i beats [] a = tt
build_touches-apart i beats ((j, w) ∷ d) a = (a.0, build_touches-apart i beats d a.1)

-- `is_running(r)` and the retry count is the one of the registration.
abbrev pub is_owned : HeartbeatRegistration → QueuedTaskRecord → Bool
is_owned w r = is_running r.status && none_or w.expected_retry_count (λ n. r.retry_count == n)

-- The task is in the one list of the answer or in the other.
abbrev Sorts : ℕ → Bool → HeartbeatTouchResult → Type 0
Sorts i b x = (has_id i x.touched_task_ids ≡ b) × (has_id i x.missed_task_ids ≡ not b)

noted_here :
    (t : HeartbeatTouch) (b : Bool) (x : HeartbeatTouchResult)
    → has_id t.task_id x.touched_task_ids ≡ false
    → has_id t.task_id x.missed_task_ids ≡ false
    → Sorts t.task_id b (noted t b x)
noted_here t true x h k =
    (has_id-set_add t.task_id t.task_id x.touched_task_ids ∙ rw (h, eq_self t.task_id) refl, k)
noted_here t false x h k =
    (h, has_id-set_add t.task_id t.task_id x.missed_task_ids ∙ rw (k, eq_self t.task_id) refl)

touch_taken :
    (now : ℕ) (s : Memory) (t : HeartbeatTouch) (r : QueuedTaskRecord)
    → get t.task_id s.records ≡ some r
    → (on_record s t.task_id false (touch_record now t)).1 ≡ is_touchable t r
touch_taken now s t r found =
    rw (touch_here now s t r found)
      (elim (Bool-cases (is_touchable t r)) [ inl on ↦ rw on refl | inr off ↦ rw off refl ])

module _ (now : ℕ) (beats : Dict ℕ (Option String)) (i : ℕ) (w : HeartbeatRegistration)
    (r : QueuedTaskRecord) where
  touch_loop-Sorts :
      (s : Memory) (d : Dict ℕ HeartbeatRegistration) (x : HeartbeatTouchResult)
      → Apart d
      → get i d ≡ some w
      → get i s.records ≡ some r
      → has_id i x.touched_task_ids ≡ false
      → has_id i x.missed_task_ids ≡ false
      → Sorts i (is_owned w r) (touch_loop now s (build_touches beats d) x).1
  unfolding touch_loop build_touches get
  touch_loop-Sorts s [] x a e f h k = ground (arith, e)
  touch_loop-Sorts s ((j, v) ∷ d) x a e f h k =
      let t : HeartbeatTouch = record {
        task_id = j;
        expected_retry_count = v.expected_retry_count;
        metadata_patch = progress_patch (get j beats);
      } in
      let step = on_record s j false (touch_record now t) in
      elim (Bool-cases (j == i)) [
        | inl same ↦
            let at_i : (j ≡ i) = eq_of_beq j i same in
            let owner : (v ≡ w) = ground (arith, e, same) in
            let first : Sorts j (is_touchable t r) (noted t step.1 x) =
              subst (λ b. Sorts j b (noted t step.1 x))
                (touch_taken now s t r (ap (λ l. get l s.records) at_i ∙ f))
                (noted_here t step.1 x (ap (λ l. has_id l x.touched_task_ids) at_i ∙ h)
                  (ap (λ l. has_id l x.missed_task_ids) at_i ∙ k)) in
            let rest =
              touch_loop_others now j step.0 (build_touches beats d) (noted t step.1 x)
                (build_touches-apart j beats d a.0) in
            subst (λ u. Sorts i (is_owned u r) (touch_loop now s (t ∷ build_touches beats d) x).1)
              owner
              (subst
                (λ l. Sorts l (is_owned v r) (touch_loop now s (t ∷ build_touches beats d) x).1)
                at_i (rest.0 ∙ first.0, rest.1 ∙ first.1))
        | inr other ↦
            let away : (i ≢ j) = λ q. ne_of_beq j i other (sym q) in
            let kept = noted_other i t step.1 x away in
            touch_loop-Sorts step.0 d (noted t step.1 x) a.1 (rw other at e)
              (touch_other now i s t away ∙ f) (kept.0 ∙ h) (kept.1 ∙ k)
      ]

-- The in-memory queue as the backend; the publication of a lost claim succeeds, there is no callback, and
-- no other task acts meanwhile.
abbrev pub memory_service : ℕ → HeartbeatService Memory
memory_service now = record {
  touch_heartbeats = λ s ts. let (s', result) = touch_heartbeats s now ts in (s', [], some result);
  get_task = λ s i. (s, [], some (get_task s i));
  publish_claim_lost = λ s r e. (s, [], true);
  on_claim_lost = none;
}

memory_service-IsQuiet : (now : ℕ) → IsQuiet (memory_service now)
memory_service-IsQuiet now = record {
  touched_alone = λ s ts. refl;
  asked_alone = λ s i. refl;
  answered = λ s i e. ground (arith, e);
  told_alone = λ s r e. refl;
  published = λ s r e. refl;
  cancelled_alone = λ callback e s i. ground (arith, e);
}

-- On the in-memory queue, with a well-formed manager, no callback for lost claims, a publication that never
-- raises and no other task acting meanwhile: a tick sets the counter of a registered task that has a record
-- to zero if the record is running with the retry count of the registration, if any was given, and
-- otherwise counts a miss, which removes the registration at the threshold.
pub tick_keeps_owners :
    (parse_uuid : String → Option ℕ) (now : ℕ) (s : Memory) (m : HeartbeatManager)
    → IsTracked m
    → (i : ℕ) (w : HeartbeatRegistration) (r : QueuedTaskRecord) → get i m.registrations ≡ some w
    → get i s.records ≡ some r
    → get i (tick parse_uuid (memory_service now) s m).1.registrations
      ≡ (if is_owned w r then some (reset w) else miss m.miss_threshold w)
unfolding touch_heartbeats
tick_keeps_owners parse_uuid now s m t i w r found stored =
    let empty : HeartbeatTouchResult = record { touched_task_ids = []; missed_task_ids = [] } in
    let touches = build_touches m.beats m.registrations in
    let result = (touch_loop now s touches empty).1 in
    let sorted =
      touch_loop-Sorts now m.beats i w r s m.registrations empty t.apart found stored refl refl in
    tick_counts parse_uuid (memory_service now) (memory_service-IsQuiet now) s m i w result found
      refl (touch_loop-Distinct now s touches empty tt)
    ∙ rw (sorted.0, sorted.1)
        (elim (Bool-cases (is_owned w r)) [ inl on ↦ rw on refl | inr off ↦ rw off refl ])
