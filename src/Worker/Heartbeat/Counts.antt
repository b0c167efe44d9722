-- ===== src/Worker/Heartbeat/Counts.antt =====
-- What one tick of worker/heartbeat.py does to the counters, where no other task acts meanwhile.
use litestar_queues.Base.{
  ℕ, ◌+◌, true, false, Option, none, some, List, [], ◌∷◌, String, Dict, get, nat_eq, if◌then◌else◌,
  ◌≡◌, refl, sym, ap, ◌≢◌, leb, Bool-cases, Option-cases, inl, inr, arith, subst, ◌∙◌,
}
use litestar_queues.Models.{HeartbeatTouch, HeartbeatTouchResult, QueuedTaskRecord}
use litestar_queues.Worker.Heartbeat.{
  HeartbeatManager, HeartbeatRegistration, unregister, set_misses, touched_loop, build_touches,
}
use litestar_queues.Worker.Heartbeat.Service.{
  Action, HeartbeatService, act_all, drop_claim, publish_claim_lost, missed, missed_loop, tick,
}
use litestar_queues.Worker.Heartbeat.Misses.{
  Distinct, has_id, reset, miss, miss_option, missed_alone, missed_alone_loop, get-touched_loop,
  touched_loop-threshold, get-missed_alone_loop,
}

-- No other task acts on the manager while a call is awaited, and neither the lookup of a lost task nor
-- the publication of its loss raises.
pub record IsQuiet {S : Type 0} (service : HeartbeatService S) : Type 0 where
  pub touched_alone : (s : S) (ts : List HeartbeatTouch) → (service.touch_heartbeats s ts).1 ≡ []
  pub asked_alone : (s : S) (i : ℕ) → (service.get_task s i).1 ≡ []
  pub answered : (s : S) (i : ℕ) → (service.get_task s i).2 ≢ none
  pub told_alone :
      (s : S) (r : QueuedTaskRecord) (e : Option ℕ) → (service.publish_claim_lost s r e).1 ≡ []
  pub published :
      (s : S) (r : QueuedTaskRecord) (e : Option ℕ) → (service.publish_claim_lost s r e).2 ≡ true
  pub cancelled_alone :
      (callback : S → ℕ → S × List Action)
      → service.on_claim_lost ≡ some callback
      → (s : S) (i : ℕ) → (callback s i).1 ≡ []

module _ (parse_uuid : String → Option ℕ) {S : Type 0} (service : HeartbeatService S) where
  drop_claim-quiet :
      IsQuiet service
      → (s : S) (m : HeartbeatManager) (i : ℕ)
      → (drop_claim parse_uuid service s m i).1 ≡ unregister m i
  unfolding drop_claim act_all
  drop_claim-quiet q s m i = elim (Option-cases service.on_claim_lost) [
    | inl no_callback ↦ rw (no_callback, drop_claim) refl
    | inr (callback, e) ↦ rw (e, drop_claim) (rw (q.cancelled_alone callback e s i, act_all) refl)
  ]

  publish_claim_lost-quiet :
      IsQuiet service
      → (s : S) (m : HeartbeatManager) (i : ℕ) (expected : Option ℕ)
      → (publish_claim_lost parse_uuid service s m i expected).1 ≡ unregister m i
  unfolding publish_claim_lost act_all
  publish_claim_lost-quiet q s m i expected = found (service.get_task s i).2 refl
    where
      asked : S
      asked = (service.get_task s i).0

      alone : act_all parse_uuid m (service.get_task s i).1 ≡ m
      alone = rw (q.asked_alone s i, act_all) refl

      found :
          (o : Option (Option QueuedTaskRecord))
          → (service.get_task s i).2 ≡ o
          → (publish_claim_lost parse_uuid service s m i expected).1 ≡ unregister m i
      found none e = absurd (q.answered s i e)
      found (some none) e = rw (e, publish_claim_lost) (rw alone (drop_claim-quiet q asked m i))
      found (some (some r)) e =
          rw (e, publish_claim_lost)
            (rw (q.published asked r expected, q.told_alone asked r expected, alone)
              (drop_claim-quiet q (service.publish_claim_lost asked r expected).0 m i))

  missed-quiet :
      IsQuiet service
      → (s : S) (m : HeartbeatManager) (j : ℕ)
      → (missed parse_uuid service s m j).1 ≡ missed_alone m j
  unfolding missed missed_alone
  missed-quiet q s m j = elim (Option-cases (get j m.registrations)) [
    | inl absent ↦ rw (absent, missed, missed_alone) refl
    | inr (r, found) ↦
        let n = r.consecutive_misses + 1 in
        rw (found, missed, missed_alone)
          (elim (Bool-cases (leb m.miss_threshold n)) [
            | inl enough ↦
                rw enough
                  (publish_claim_lost-quiet q s (set_misses j r m n) j r.expected_retry_count)
            | inr few ↦ rw few refl
          ])
  ]

  missed_loop-quiet :
      IsQuiet service
      → (s : S) (m : HeartbeatManager) (js : List ℕ)
      → (missed_loop parse_uuid service s m js).1 ≡ missed_alone_loop m js
  unfolding missed_loop missed_alone_loop
  missed_loop-quiet q s m [] = refl
  missed_loop-quiet q s m (j ∷ js) =
      let next = missed parse_uuid service s m j in
      missed_loop-quiet q next.0 next.1 js
      ∙ ap (λ m'. missed_alone_loop m' js) (missed-quiet q s m j)

  -- The touches that `tick` sends.
  abbrev pub answer : S → HeartbeatManager → Option HeartbeatTouchResult
  answer s m = (service.touch_heartbeats s (build_touches m.beats m.registrations)).2

  pub tick-answered :
      IsQuiet service
      → (s : S) (m : HeartbeatManager) (i : ℕ) (r : HeartbeatRegistration)
        (result : HeartbeatTouchResult)
      → get i m.registrations ≡ some r
      → answer s m ≡ some result
      → (tick parse_uuid service s m).1
        ≡ missed_alone_loop (touched_loop m result.touched_task_ids) result.missed_task_ids
  unfolding tick get act_all
  tick-answered q s m i r result found e = by_registrations m.registrations found
    where
      target : HeartbeatManager
      target = missed_alone_loop (touched_loop m result.touched_task_ids) result.missed_task_ids

      asked : S × List Action × Option HeartbeatTouchResult
      asked = service.touch_heartbeats s (build_touches m.beats m.registrations)

      settled : Option HeartbeatTouchResult → S × HeartbeatManager
      settled o =
          let m' = act_all parse_uuid m asked.1 in
          elim o [
            | none ↦ (asked.0, m')
            | some result' ↦
                missed_loop parse_uuid service asked.0 (touched_loop m' result'.touched_task_ids)
                  result'.missed_task_ids
          ]

      alone : act_all parse_uuid m asked.1 ≡ m
      alone = rw (q.touched_alone s (build_touches m.beats m.registrations), act_all) refl

      settled-result : (settled (some result)).1 ≡ target
      settled-result =
          missed_loop-quiet q asked.0
            (touched_loop (act_all parse_uuid m asked.1) result.touched_task_ids)
            result.missed_task_ids
          ∙ ap
              (λ m'.
                missed_alone_loop (touched_loop m' result.touched_task_ids) result.missed_task_ids)
              alone

      by_registrations :
          (d : Dict ℕ HeartbeatRegistration)
          → get i d ≡ some r
          → (elim d as (λ _. S × HeartbeatManager) [ [] ↦ (s, m) | _ ∷ _ ↦ settled asked.2 ]).1
            ≡ target
      by_registrations [] h = ground (arith, h)
      by_registrations (kv ∷ d) h = subst (λ o. (settled o).1 ≡ target) (sym e) settled-result

  -- With no other task acting meanwhile, a lookup and a publication of a lost claim that never raise, and
  -- an answer of the backend that lists no missed task twice, a tick sets the counter of a registered task
  -- that was touched to zero, adds one to that of a task that was missed, and removes the registration when
  -- the counter reaches the threshold; a task that was neither keeps its registration as it is.
  pub tick_counts :
      IsQuiet service
      → (s : S) (m : HeartbeatManager) (i : ℕ) (r : HeartbeatRegistration)
        (result : HeartbeatTouchResult)
      → get i m.registrations ≡ some r
      → answer s m ≡ some result
      → Distinct result.missed_task_ids
      → get i (tick parse_uuid service s m).1.registrations ≡ (
          let r' = if has_id i result.touched_task_ids then reset r else r in
          if has_id i result.missed_task_ids then miss m.miss_threshold r' else some r')
  tick_counts q s m i r result found e a =
      let m' = touched_loop m result.touched_task_ids in
      rw
        (
          tick-answered q s m i r result found e,
          get-missed_alone_loop m' i result.missed_task_ids a,
          touched_loop-threshold m result.touched_task_ids,
          get-touched_loop m i result.touched_task_ids,
          found,
        )
        (elim (has_id i result.touched_task_ids)
          as (λ b.
            (if has_id i result.missed_task_ids
              then miss_option m.miss_threshold (if b then some (reset r) else some r)
              else (if b then some (reset r) else some r))
            ≡ (let r' = if b then reset r else r in
                if has_id i result.missed_task_ids then miss m.miss_threshold r' else some r')) [
                  | true ↦ refl
                  | false ↦ refl
                ])
