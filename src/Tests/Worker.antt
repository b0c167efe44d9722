-- ===== src/Tests/Worker.antt =====
-- A manager of heartbeats over two services: one where nothing else runs and every touch is missed,
-- one where other tasks register and beat meanwhile and the event cannot be published, and the queue in memory.
use litestar_queues.Base.{
  ℕ, suc, ◌≡◌, refl, true, false, Option, none, some, List, [], ◌∷◌, String, string_eq, nat_eq,
  ◌==◌, if◌then◌else◌, pos, get, ◌≤◌, arith, subst,
}
use litestar_queues.Worker.Heartbeat.{HeartbeatManager, HeartbeatRegistration, new_manager}
use litestar_queues.Worker.Heartbeat.Service.{
  Action, registers, unregisters, beats, HeartbeatService, tick,
}
use litestar_queues.Worker.Heartbeat.Tracking.{IsTracked}
use litestar_queues.Worker.Heartbeat.Calls.{
  Call, acts, ticks, closes, serve, serve_all, heartbeats-IsTracked, aclose_clears,
}
use litestar_queues.Worker.Heartbeat.Loss.{Misses, run_ticks, lost_at_threshold}
use litestar_queues.Worker.Heartbeat.Counts.{IsQuiet, tick_counts}
use litestar_queues.Worker.Heartbeat.Misses.{reset}
use litestar_queues.Worker.Heartbeat.Owners.{memory_service, tick_keeps_owners}
use litestar_queues.Memory.State.{Memory}
use litestar_queues.Tests.Data.{idle, running_task}

abbrev parse_digit : String → Option ℕ
parse_digit text = if text == "7" then some 7 else none

abbrev all_missed : HeartbeatService ℕ
all_missed = record {
  touch_heartbeats =
      λ s ts. (s, [], some (record { touched_task_ids = []; missed_task_ids = 7 ∷ [] }));
  get_task = λ s i. (s, [], some none);
  publish_claim_lost = λ s r e. (s, [], true);
  on_claim_lost = some (λ s i. (suc s, []));
}

abbrev Alone : Option (ℕ → ℕ → ℕ × List Action) → ℕ → ℕ → Type 0
Alone none s i = Unit
Alone (some callback) s i = (callback s i).1 ≡ []

all_missed-IsQuiet : IsQuiet all_missed
all_missed-IsQuiet = record {
  touched_alone = λ s ts. refl;
  asked_alone = λ s i. refl;
  answered = λ s i e. ground (arith, e);
  told_alone = λ s r e. refl;
  published = λ s r e. refl;
  cancelled_alone = λ callback e s i. subst (λ o. Alone o s i) e refl;
}

all_missed-Misses : Misses parse_digit all_missed 7
all_missed-Misses s ts h =
    (record { touched_task_ids = []; missed_task_ids = 7 ∷ [] }, refl, refl, refl, (tt, tt))

abbrev seven : HeartbeatRegistration
seven = record { expected_retry_count = some 0; consecutive_misses = 0 }

abbrev of_seven : HeartbeatManager
of_seven = record {
  miss_threshold = 2;
  registrations = (7, seven) ∷ [];
  beats = (7, some "half way") ∷ [];
  active = pos 1;
}

tick_counts_example :
    get 7 (tick parse_digit all_missed 0 of_seven).1.registrations
    ≡ some (record { expected_retry_count = some 0; consecutive_misses = 1 })
unfolding get
tick_counts_example =
    tick_counts parse_digit all_missed all_missed-IsQuiet 0 of_seven 7 seven
      (record { touched_task_ids = []; missed_task_ids = 7 ∷ [] }) refl refl (tt, tt)

lost_at_threshold_example :
    ((k : ℕ)
      → k ≤ 1
      → get 7 (run_ticks parse_digit all_missed k (0, of_seven)).1.registrations
        ≡ some (record seven { consecutive_misses = k }))
    × (get 7 (run_ticks parse_digit all_missed 2 (0, of_seven)).1.registrations ≡ none)
unfolding get
lost_at_threshold_example =
    lost_at_threshold parse_digit all_missed all_missed-IsQuiet 7 all_missed-Misses 0 of_seven seven
      1 refl refl refl

-- While a touch is awaited the task 8 is registered and the task 7 beats; `get_task` raises.
abbrev busy : HeartbeatService ℕ
busy = record {
  touch_heartbeats = λ s ts. (
    suc s,
    registers 8 none ∷ beats "7" (some "late") ∷ [],
    some (record { touched_task_ids = []; missed_task_ids = 7 ∷ [] }),
  );
  get_task = λ s i. (s, [], none);
  publish_claim_lost = λ s r e. (s, [], false);
  on_claim_lost = none;
}

abbrev day : List Call
day =
    acts (registers 7 (some 0))
    ∷ acts (beats "7" (some "begun"))
    ∷ acts (beats "x" none)
    ∷ ticks
    ∷ ticks
    ∷ acts (unregisters 9)
    ∷ []

heartbeats-IsTracked_example : IsTracked (serve_all parse_digit busy (0, new_manager (pos 1)) day).1
heartbeats-IsTracked_example = heartbeats-IsTracked parse_digit busy 0 (pos 1) day

aclose_clears_example :
    (let m =
        (serve parse_digit busy
          (serve_all parse_digit busy (0, new_manager (pos 1)) day)
          closes).1 in
      (m.registrations ≡ []) × (m.beats ≡ []) × (m.active ≡ pos 0))
aclose_clears_example = aclose_clears parse_digit busy 0 (pos 1) day

abbrev one_running : Memory
one_running = record idle { records = (1, running_task) ∷ [] }

abbrev owner : HeartbeatRegistration
owner = record { expected_retry_count = some 0; consecutive_misses = 1 }

abbrev of_owner : HeartbeatManager
of_owner = record {
  miss_threshold = 2;
  registrations = (1, owner) ∷ [];
  beats = [];
  active = pos 1;
}

of_owner-IsTracked : IsTracked of_owner
unfolding get
of_owner-IsTracked = record { apart = (tt, tt); counted = refl; registered = λ i h. refl }

tick_keeps_owners_example :
    get 1 (tick parse_digit (memory_service 300) one_running of_owner).1.registrations
    ≡ some (reset owner)
unfolding get
tick_keeps_owners_example =
    tick_keeps_owners parse_digit 300 one_running of_owner of_owner-IsTracked 1 owner running_task
      refl refl
