-- ===== src/Worker/Heartbeat/Service.antt =====
-- The part of worker/heartbeat.py that calls the backend and the service.
use litestar_queues.Base.{
  ℕ, ◌+◌, Bool, Option, none, some, List, [], ◌∷◌, String, get, nat_eq, leb, if◌then◌else◌,
}
use litestar_queues.Models.{HeartbeatTouch, HeartbeatTouchResult, QueuedTaskRecord}
use litestar_queues.Worker.Heartbeat.{
  HeartbeatManager, register, unregister, record_beat, build_touches, touched_loop, set_misses,
  clear_registrations,
}

-- The methods that the worker's other tasks call on the manager while one of its calls is awaited.
pub data Action : Type 0 where
  registers : ℕ → Option ℕ → Action
  unregisters : ℕ → Action
  beats : String → Option String → Action

-- The collaborators, on their own state `S`. A call answers with what other tasks did while it was
-- awaited, and `none` or `false` where it raised.
pub record HeartbeatService (S : Type 0) : Type 0 where
  pub touch_heartbeats : S → List HeartbeatTouch → S × List Action × Option HeartbeatTouchResult
  pub get_task : S → ℕ → S × List Action × Option (Option QueuedTaskRecord)
  pub publish_claim_lost : S → QueuedTaskRecord → Option ℕ → S × List Action × Bool
  pub on_claim_lost : Option (S → ℕ → S × List Action)

module _ (parse_uuid : String → Option ℕ) where
  unfoldable pub act : HeartbeatManager → Action → HeartbeatManager
  unfolding register unregister record_beat
  act m (registers i expected) = register m i expected
  act m (unregisters i) = unregister m i
  act m (beats text detail) = record_beat parse_uuid m text detail

  unfoldable pub act_all : HeartbeatManager → List Action → HeartbeatManager
  unfolding act
  act_all m [] = m
  act_all m (a ∷ actions) = act_all (act m a) actions

  module _ {S : Type 0} (service : HeartbeatService S) where
    -- `_publish_claim_lost` after the event is published.
    unfoldable pub drop_claim : S → HeartbeatManager → ℕ → S × HeartbeatManager
    unfolding unregister act_all
    drop_claim s m task_id =
        let m' = unregister m task_id in
        elim service.on_claim_lost [
          | none ↦ (s, m')
          | some callback ↦ let (s', others) = callback s task_id in (s', act_all m' others)
        ]

    unfoldable pub publish_claim_lost : S → HeartbeatManager → ℕ → Option ℕ → S × HeartbeatManager
    unfolding drop_claim act_all
    publish_claim_lost s m task_id expected =
        let (s', others, found) = service.get_task s task_id in
        let m' = act_all m others in
        elim found [
          | none ↦ (s', m')
          | some none ↦ drop_claim s' m' task_id
          | some (some r) ↦
              let (s'', others', published) = service.publish_claim_lost s' r expected in
              let m'' = act_all m' others' in
              if published then drop_claim s'' m'' task_id else (s'', m'')
        ]

    -- The round of the loop over `missed_task_ids`, and the loop.
    unfoldable pub missed : S → HeartbeatManager → ℕ → S × HeartbeatManager
    unfolding set_misses publish_claim_lost
    missed s m task_id = elim (get task_id m.registrations) [
      | none ↦ (s, m)
      | some r ↦
          let n = r.consecutive_misses + 1 in
          let m' = set_misses task_id r m n in
          if leb m.miss_threshold n
          then publish_claim_lost s m' task_id r.expected_retry_count
          else (s, m')
    ]

    unfoldable pub missed_loop : S → HeartbeatManager → List ℕ → S × HeartbeatManager
    unfolding missed
    missed_loop s m [] = (s, m)
    missed_loop s m (i ∷ is) = let (s', m') = missed s m i in missed_loop s' m' is

    unfoldable pub tick : S → HeartbeatManager → S × HeartbeatManager
    unfolding build_touches act_all touched_loop missed_loop
    tick s m = elim m.registrations [
      | [] ↦ (s, m)
      | _ ∷ _ ↦
          let (s', others, answer) =
            service.touch_heartbeats s (build_touches m.beats m.registrations) in
          let m' = act_all m others in
          elim answer [
            | none ↦ (s', m')
            | some result ↦
                missed_loop s' (touched_loop m' result.touched_task_ids) result.missed_task_ids
          ]
    ]

    -- `aclose`, once the loop has stopped.
    unfoldable pub aclose : S → HeartbeatManager → S × HeartbeatManager
    unfolding tick clear_registrations
    aclose s m = let (s', m') = tick s m in (s', clear_registrations m')
