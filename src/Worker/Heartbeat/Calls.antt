-- ===== src/Worker/Heartbeat/Calls.antt =====
-- Sequences of calls on the manager of worker/heartbeat.py, and what holds after them.
use litestar_queues.Base.{
  ℕ, ◌+◌, Bool, true, false, Option, none, some, List, [], ◌∷◌, String, ℤ, pos, get, nat_eq,
  if◌then◌else◌, ◌≡◌, refl, leb, Option-cases, inl, inr,
}
use litestar_queues.Models.{HeartbeatTouchResult}
use litestar_queues.Worker.Heartbeat.{
  HeartbeatManager, new_manager, unregister, record_beat, set_misses, touched_loop, build_touches,
}
use litestar_queues.Worker.Heartbeat.Service.{
  Action, registers, unregisters, beats, HeartbeatService, act, act_all, drop_claim,
  publish_claim_lost, missed, missed_loop, tick, aclose,
}
use litestar_queues.Worker.Heartbeat.Tracking.{
  IsTracked, register-IsTracked, unregister-IsTracked, store_beat-IsTracked, set_misses-IsTracked,
  touched_loop-IsTracked, clear_registrations-lem,
}

pub data Call : Type 0 where
  acts : Action → Call
  ticks closes : Call

module _ (parse_uuid : String → Option ℕ) where
  act-IsTracked : (m : HeartbeatManager) (a : Action) → IsTracked m → IsTracked (act parse_uuid m a)
  unfolding act record_beat
  act-IsTracked m (registers i expected) t = register-IsTracked m i expected t
  act-IsTracked m (unregisters i) t = unregister-IsTracked m i t
  act-IsTracked m (beats text detail) t = elim (Option-cases (parse_uuid text)) [
    | inl bad ↦ rw (bad, record_beat) t
    | inr (i, good) ↦ rw (good, record_beat) (store_beat-IsTracked m i detail t)
  ]

  pub act_all-IsTracked :
      (m : HeartbeatManager) (actions : List Action)
      → IsTracked m
      → IsTracked (act_all parse_uuid m actions)
  unfolding act_all
  act_all-IsTracked m [] t = t
  act_all-IsTracked m (a ∷ actions) t =
      act_all-IsTracked (act parse_uuid m a) actions (act-IsTracked m a t)

  module _ {S : Type 0} (service : HeartbeatService S) where
    -- The methods that the worker calls on the manager.
    unfoldable pub serve : S × HeartbeatManager → Call → S × HeartbeatManager
    unfolding act tick aclose
    serve sm (acts a) = (sm.0, act parse_uuid sm.1 a)
    serve sm ticks = tick parse_uuid service sm.0 sm.1
    serve sm closes = aclose parse_uuid service sm.0 sm.1

    unfoldable pub serve_all : S × HeartbeatManager → List Call → S × HeartbeatManager
    unfolding serve
    serve_all sm [] = sm
    serve_all sm (c ∷ calls) = serve_all (serve sm c) calls

    drop_claim-IsTracked :
        (s : S) (m : HeartbeatManager) (i : ℕ)
        → IsTracked m
        → IsTracked (drop_claim parse_uuid service s m i).1
    unfolding drop_claim
    drop_claim-IsTracked s m i t = dropped service.on_claim_lost (unregister-IsTracked m i t)
      where
        dropped :
            (callback : Option (S → ℕ → S × List Action))
            → IsTracked (unregister m i)
            → IsTracked
                (elim callback as (λ _. S × HeartbeatManager) [
                  | none ↦ (s, unregister m i)
                  | some f ↦
                      let (s', others) = f s i in (s', act_all parse_uuid (unregister m i) others)
                ]).1
        dropped none u = u
        dropped (some f) u = act_all-IsTracked (unregister m i) (f s i).1 u

    published-IsTracked :
        (s : S) (m : HeartbeatManager) (i : ℕ) (b : Bool)
        → IsTracked m
        → IsTracked (if b then drop_claim parse_uuid service s m i else (s, m)).1
    published-IsTracked s m i true t = drop_claim-IsTracked s m i t
    published-IsTracked s m i false t = t

    publish_claim_lost-IsTracked :
        (s : S) (m : HeartbeatManager) (i : ℕ) (expected : Option ℕ)
        → IsTracked m
        → IsTracked (publish_claim_lost parse_uuid service s m i expected).1
    unfolding publish_claim_lost
    publish_claim_lost-IsTracked s m i expected t =
        let asked = service.get_task s i in
        let m' = act_all parse_uuid m asked.1 in
        let u : IsTracked m' = act_all-IsTracked m asked.1 t in
        elim (service.get_task s i).2
          as (λ found.
            IsTracked
              (elim found as (λ _. S × HeartbeatManager) [
                | none ↦ (asked.0, m')
                | some none ↦ drop_claim parse_uuid service asked.0 m' i
                | some (some r) ↦
                    let (s'', others', published) = service.publish_claim_lost asked.0 r expected in
                    let m'' = act_all parse_uuid m' others' in
                    if published then drop_claim parse_uuid service s'' m'' i else (s'', m'')
              ]).1) [
                | none ↦ u
                | some none ↦ drop_claim-IsTracked asked.0 m' i u
                | some (some r) ↦
                    let told = service.publish_claim_lost asked.0 r expected in
                    published-IsTracked told.0 (act_all parse_uuid m' told.1) i told.2
                      (act_all-IsTracked m' told.1 u)
              ]

    missed-IsTracked :
        (s : S) (m : HeartbeatManager) (i : ℕ)
        → IsTracked m
        → IsTracked (missed parse_uuid service s m i).1
    unfolding missed
    missed-IsTracked s m i t = elim (Option-cases (get i m.registrations)) [
      | inl absent ↦ rw (absent, missed) t
      | inr (r, old) ↦
          let n = r.consecutive_misses + 1 in
          let u : IsTracked (set_misses i r m n) = set_misses-IsTracked i r r m n old t in
          rw (old, missed)
            (elim (leb m.miss_threshold n)
              as (λ b.
                IsTracked
                  (if b
                    then publish_claim_lost parse_uuid service s (set_misses i r m n) i
                        r.expected_retry_count
                    else (s, set_misses i r m n)).1) [
                      | true ↦
                          publish_claim_lost-IsTracked s (set_misses i r m n) i
                            r.expected_retry_count u
                      | false ↦ u
                    ])
    ]

    missed_loop-IsTracked :
        (s : S) (m : HeartbeatManager) (is : List ℕ)
        → IsTracked m
        → IsTracked (missed_loop parse_uuid service s m is).1
    unfolding missed_loop
    missed_loop-IsTracked s m [] t = t
    missed_loop-IsTracked s m (i ∷ is) t =
        let next = missed parse_uuid service s m i in
        missed_loop-IsTracked next.0 next.1 is (missed-IsTracked s m i t)

    tick-IsTracked :
        (s : S) (m : HeartbeatManager) → IsTracked m → IsTracked (tick parse_uuid service s m).1
    unfolding tick
    tick-IsTracked s m t =
        elim m.registrations
          as (λ d.
            IsTracked
              (elim d as (λ _. S × HeartbeatManager) [ [] ↦ (s, m) | _ ∷ _ ↦ answered ]).1) [
                | [] ↦ t
                | _ ∷ _ ↦
                    elim asked.2
                      as (λ answer.
                        IsTracked
                          (elim answer as (λ _. S × HeartbeatManager) [
                            | none ↦ (asked.0, m')
                            | some result ↦
                                missed_loop parse_uuid service asked.0
                                  (touched_loop m' result.touched_task_ids) result.missed_task_ids
                          ]).1) [
                            | none ↦ u
                            | some result ↦
                                missed_loop-IsTracked asked.0
                                  (touched_loop m' result.touched_task_ids) result.missed_task_ids
                                  (touched_loop-IsTracked m' result.touched_task_ids u)
                          ]
              ]
      where
        asked : S × List Action × Option HeartbeatTouchResult
        asked = service.touch_heartbeats s (build_touches m.beats m.registrations)

        m' : HeartbeatManager
        m' = act_all parse_uuid m asked.1

        u : IsTracked m'
        u = act_all-IsTracked m asked.1 t

        answered : S × HeartbeatManager
        answered = elim asked.2 [
          | none ↦ (asked.0, m')
          | some result ↦
              missed_loop parse_uuid service asked.0 (touched_loop m' result.touched_task_ids)
                result.missed_task_ids
        ]

    serve-IsTracked :
        (sm : S × HeartbeatManager) (c : Call) → IsTracked sm.1 → IsTracked (serve sm c).1
    unfolding serve aclose
    serve-IsTracked sm (acts a) t = act-IsTracked sm.1 a t
    serve-IsTracked sm ticks t = tick-IsTracked sm.0 sm.1 t
    serve-IsTracked sm closes t =
        (clear_registrations-lem (tick parse_uuid service sm.0 sm.1).1
          (tick-IsTracked sm.0 sm.1 t)).0

    serve_all-Tracked :
        (sm : S × HeartbeatManager) (calls : List Call)
        → IsTracked sm.1
        → IsTracked (serve_all sm calls).1
    unfolding serve_all
    serve_all-Tracked sm [] t = t
    serve_all-Tracked sm (c ∷ calls) t =
        serve_all-Tracked (serve sm c) calls (serve-IsTracked sm c t)

    -- After any sequence of calls on a new manager, with any backend and whatever other tasks do while
    -- a call is awaited: no task is registered twice, the gauge is the number of the registrations, and
    -- every stored beat belongs to a registered task.
    pub heartbeats-IsTracked :
        (s : S) (threshold : ℤ) (calls : List Call)
        → IsTracked (serve_all (s, new_manager threshold) calls).1
    unfolding new_manager get
    heartbeats-IsTracked s threshold calls =
        serve_all-Tracked (s, new_manager threshold) calls new_manager-IsTracked
      where
        new_manager-IsTracked : IsTracked (new_manager threshold)
        new_manager-IsTracked = record { apart = tt; counted = refl; registered = λ i h. refl }

    -- If `aclose` comes last in such a sequence, no registration and no beat is left and the gauge is
    -- zero.
    pub aclose_clears :
        (s : S) (threshold : ℤ) (calls : List Call)
        → (let m = (serve (serve_all (s, new_manager threshold) calls) closes).1 in
            (m.registrations ≡ []) × (m.beats ≡ []) × (m.active ≡ pos 0))
    unfolding serve aclose
    aclose_clears s threshold calls =
        let sm = serve_all (s, new_manager threshold) calls in
        let cleared =
          clear_registrations-lem (tick parse_uuid service sm.0 sm.1).1
            (tick-IsTracked sm.0 sm.1 (heartbeats-IsTracked s threshold calls)) in
        (cleared.1, refl, cleared.2)
