-- ===== src/Worker/Heartbeat/Loss.antt =====
-- When worker/heartbeat.py gives a claim up, where no other task acts on the manager meanwhile.
use litestar_queues.Base.{
  ℕ, zero, suc, ◌≤◌, true, false, Option, none, some, List, [], ◌∷◌, String, Dict, get, nat_eq,
  ◌==◌, any, ◌≡◌, refl, ap, arith, ◌∙◌,
}
use litestar_queues.Models.{HeartbeatTouch, HeartbeatTouchResult}
use litestar_queues.Worker.Heartbeat.{
  HeartbeatManager, HeartbeatRegistration, touched_loop, build_touches,
}
use litestar_queues.Worker.Heartbeat.Service.{HeartbeatService, tick}
use litestar_queues.Worker.Heartbeat.Misses.{
  Distinct, has_id, miss, touched_loop-threshold, missed_alone_loop-threshold,
}
use litestar_queues.Worker.Heartbeat.Counts.{IsQuiet, tick-answered, tick_counts}

module _ (parse_uuid : String → Option ℕ) {S : Type 0} (service : HeartbeatService S) where
  unfoldable pub run_ticks : ℕ → S × HeartbeatManager → S × HeartbeatManager
  unfolding tick
  run_ticks zero sm = sm
  run_ticks (suc k) sm = let next = run_ticks k sm in tick parse_uuid service next.0 next.1

  has_touch :
      (beats : Dict ℕ (Option String)) (i : ℕ) (r : HeartbeatRegistration)
      → (d : Dict ℕ HeartbeatRegistration) → get i d ≡ some r
      → any (λ t. t.task_id == i) (build_touches beats d) ≡ true
  unfolding get build_touches
  has_touch beats i r [] h = ground (arith, h)
  has_touch beats i r ((j, w) ∷ d) h = ground (arith, h, has_touch beats i r d)

  -- Every answer to a touch of the task lists it as missed, and lists no task twice.
  abbrev pub Misses : ℕ → Type 0
  Misses i =
      (s : S) (ts : List HeartbeatTouch)
      → any (λ t. t.task_id == i) ts ≡ true
      → (result : HeartbeatTouchResult) × ((service.touch_heartbeats s ts).2 ≡ some result)
        × (has_id i result.missed_task_ids ≡ true)
        × (has_id i result.touched_task_ids ≡ false)
        × Distinct result.missed_task_ids

  missed_tick :
      IsQuiet service
      → (i : ℕ) → Misses i
      → (s : S) (m : HeartbeatManager) (r : HeartbeatRegistration) → get i m.registrations ≡ some r
      → (get i (tick parse_uuid service s m).1.registrations ≡ miss m.miss_threshold r)
        × ((tick parse_uuid service s m).1.miss_threshold ≡ m.miss_threshold)
  missed_tick q i misses s m r found =
      let (result, e, is_missed, not_touched, a) =
        misses s (build_touches m.beats m.registrations)
          (has_touch m.beats i r m.registrations found) in
      (
        tick_counts parse_uuid service q s m i r result found e a
            ∙ rw (is_missed, not_touched) refl,
        ap (λ m'. m'.miss_threshold) (tick-answered parse_uuid service q s m i r result found e)
            ∙ missed_alone_loop-threshold (touched_loop m result.touched_task_ids)
                result.missed_task_ids
            ∙ touched_loop-threshold m result.touched_task_ids,
      )

  kept_below :
      IsQuiet service
      → (i : ℕ) → Misses i
      → (s : S) (m : HeartbeatManager) (r : HeartbeatRegistration) (n : ℕ)
      → get i m.registrations ≡ some r
      → r.consecutive_misses ≡ 0
      → m.miss_threshold ≡ suc n
      → (k : ℕ) → k ≤ n
      → (get i (run_ticks k (s, m)).1.registrations ≡ some (record r { consecutive_misses = k }))
        × ((run_ticks k (s, m)).1.miss_threshold ≡ suc n)
  unfolding run_ticks
  kept_below q i misses s m r n found fresh e zero h =
      (found ∙ ap (λ c. some (record r { consecutive_misses = c })) fresh, e)
  kept_below q i misses s m r n found fresh e (suc k) h =
      let (before, limit) = kept_below q i misses s m r n found fresh e k (omega (arith, h)) in
      let next = run_ticks k (s, m) in
      let (counted, same) =
        missed_tick q i misses next.0 next.1 (record r { consecutive_misses = k }) before in
      (counted ∙ rw limit (ground (arith, h)), same ∙ limit)

  -- With no other task acting meanwhile, a lookup and a publication that never raise, and a backend that
  -- reports a registered task as missed at every tick: the registration counts the ticks while they are
  -- fewer than the threshold, and is gone after as many ticks as the threshold.
  pub lost_at_threshold :
      IsQuiet service
      → (i : ℕ) → Misses i
      → (s : S) (m : HeartbeatManager) (r : HeartbeatRegistration) (n : ℕ)
      → get i m.registrations ≡ some r
      → r.consecutive_misses ≡ 0
      → m.miss_threshold ≡ suc n
      → ((k : ℕ)
          → k ≤ n
          → get i (run_ticks k (s, m)).1.registrations ≡ some (record r { consecutive_misses = k }))
        × (get i (run_ticks (suc n) (s, m)).1.registrations ≡ none)
  unfolding run_ticks
  lost_at_threshold q i misses s m r n found fresh e =
      let below = kept_below q i misses s m r n found fresh e in
      let next = run_ticks n (s, m) in
      let (before, limit) = below n (omega arith) in
      (
        λ k h. (below k h).0,
        (missed_tick q i misses next.0 next.1 (record r { consecutive_misses = n }) before).0
            ∙ rw limit (ground arith),
      )
