-- ===== src/Worker/Heartbeat.antt =====
-- src/litestar_queues/worker/heartbeat.py: SingleTaskBeatSink and WorkerHeartbeatManager.
pub mod Service
pub mod Tracking
pub mod Calls
pub mod Misses
pub mod Counts
pub mod Loss
pub mod Owners
use Prim.Native.String.{String}
use litestar_queues.Base.{
  ℕ, zero, suc, Bool, true, false, Option, none, some, List, [], ◌∷◌, Dict, get, insert, delete,
  nat_eq, ◌==◌, if◌then◌else◌, ℤ, pos, negsuc, max,
}
use litestar_queues.Models.{Value, string, HeartbeatTouch}

-- `text[:n]`.
unfoldable pub take_text : ℕ → String → String
take_text zero t = ""
take_text (suc n) String.[] = ""
take_text (suc n) (String.◌∷◌ c t) = String.◌∷◌ c (take_text n t)

-- `detail[:256] if isinstance(detail, str) else None`.
unfoldable pub kept_detail : Option String → Option String
unfolding take_text
kept_detail none = none
kept_detail (some t) = some (take_text 256 t)

pub record BeatSink : Type 0 where
  pub task_id : ℕ
  pub detail : Option String

pub record HeartbeatRegistration : Type 0 where
  pub expected_retry_count : Option ℕ
  pub consecutive_misses : ℕ

-- The manager's own state, and the gauge `litestar_queues.heartbeat.active`.
pub record HeartbeatManager : Type 0 where
  pub miss_threshold : ℕ
  pub registrations : Dict ℕ HeartbeatRegistration
  pub beats : Dict ℕ (Option String)
  pub active : ℤ

unfoldable pub new_manager : ℤ → HeartbeatManager
new_manager threshold = record {
  miss_threshold = at_least_one threshold;
  registrations = [];
  beats = [];
  active = pos 0;
}
  where
    at_least_one : ℤ → ℕ
    at_least_one (pos n) = max 1 n
    at_least_one (negsuc n) = 1

abbrev pub has_registrations : HeartbeatManager → Bool
has_registrations m = elim m.registrations [ [] ↦ false | _ ∷ _ ↦ true ]

abbrev increment : ℤ → ℤ
increment (pos n) = pos (suc n)
increment (negsuc zero) = pos zero
increment (negsuc (suc n)) = negsuc n

abbrev decrement : ℤ → ℤ
decrement (pos zero) = negsuc zero
decrement (pos (suc n)) = pos n
decrement (negsuc n) = negsuc (suc n)

unfoldable pub register : HeartbeatManager → ℕ → Option ℕ → HeartbeatManager
register m task_id expected =
    let r : HeartbeatRegistration = record {
      expected_retry_count = expected;
      consecutive_misses = 0;
    } in
    record m {
      registrations = insert task_id r m.registrations;
      active = elim (get task_id m.registrations) [ none ↦ increment m.active | some _ ↦ m.active ];
    }

unfoldable pub unregister : HeartbeatManager → ℕ → HeartbeatManager
unregister m task_id = elim (get task_id m.registrations) [
  | none ↦ m
  | some _ ↦ record m {
    registrations = delete task_id m.registrations;
    beats = delete task_id m.beats;
    active = decrement m.active;
  }
]

unfoldable pub store_beat : HeartbeatManager → ℕ → Option String → HeartbeatManager
unfolding kept_detail
store_beat m task_id detail = elim (get task_id m.registrations) [
  | none ↦ m
  | some _ ↦ record m { beats = insert task_id (kept_detail detail) m.beats }
]

-- `UUID(text)` is a parameter, `none` where it raises ValueError.
module _ (parse_uuid : String → Option ℕ) where
  unfoldable pub sink_record_beat : BeatSink → String → Option String → BeatSink
  unfolding kept_detail
  sink_record_beat sink text detail = elim (parse_uuid text) [
    | none ↦ sink
    | some i ↦ if i == sink.task_id then record sink { detail = kept_detail detail } else sink
  ]

  unfoldable pub record_beat : HeartbeatManager → String → Option String → HeartbeatManager
  unfolding store_beat
  record_beat m text detail = elim (parse_uuid text) [
    | none ↦ m
    | some task_id ↦ store_beat m task_id detail
  ]

abbrev pub peek_detail : BeatSink → Option String
peek_detail sink = sink.detail

abbrev pub clear_detail : BeatSink → BeatSink
clear_detail sink = record sink { detail = none }

-- `{"progress_detail": detail} if detail else None`.
abbrev pub progress_patch : Option (Option String) → Option (Dict String Value)
progress_patch none = none
progress_patch (some none) = none
progress_patch (some (some String.[])) = none
progress_patch (some (some (String.◌∷◌ c t))) =
    some (("progress_detail", string (String.◌∷◌ c t)) ∷ [])

unfoldable pub build_touches :
    Dict ℕ (Option String) → Dict ℕ HeartbeatRegistration → List HeartbeatTouch
build_touches beats [] = []
build_touches beats ((task_id, r) ∷ d) =
    let touch : HeartbeatTouch = record {
      task_id = task_id;
      expected_retry_count = r.expected_retry_count;
      metadata_patch = progress_patch (get task_id beats);
    } in
    touch ∷ build_touches beats d

-- The counter of a registration.
unfoldable pub set_misses : ℕ → HeartbeatRegistration → HeartbeatManager → ℕ → HeartbeatManager
set_misses task_id r m n = record m {
  registrations = insert task_id (record r { consecutive_misses = n }) m.registrations;
}

-- The round of the loop over `touched_task_ids`, and the loop.
unfoldable pub touched : HeartbeatManager → ℕ → HeartbeatManager
unfolding set_misses
touched m task_id = elim (get task_id m.registrations) [
  | none ↦ m
  | some r ↦ set_misses task_id r (record m { beats = delete task_id m.beats }) 0
]

unfoldable pub touched_loop : HeartbeatManager → List ℕ → HeartbeatManager
unfolding touched
touched_loop m [] = m
touched_loop m (i ∷ is) = touched_loop (touched m i) is

-- The end of `aclose`: every registration is removed, then the beats.
unfoldable pub unregister_all : HeartbeatManager → Dict ℕ HeartbeatRegistration → HeartbeatManager
unfolding unregister
unregister_all m [] = m
unregister_all m ((i, r) ∷ d) = unregister_all (unregister m i) d

unfoldable pub clear_registrations : HeartbeatManager → HeartbeatManager
unfolding unregister_all
clear_registrations m = record (unregister_all m m.registrations) { beats = [] }
