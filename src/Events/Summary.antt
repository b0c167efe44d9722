-- ===== src/Events/Summary.antt =====
-- `summarize_event_records` of src/litestar_queues/events/query.py.
use litestar_queues.Base.{
  ℕ, ◌+◌, Bool, true, false, Option, none, some, List, [], ◌∷◌, String, ℤ, Dict, get, insert,
  string_eq, option_eq, nat_eq, ◌==◌, if◌then◌else◌, none_or, or_else, leb, ltb, sort, map,
}
use litestar_queues.Models.{Floats}
use litestar_queues.Events.Records.{QueueEventLogRecord, QueueEventStageSummary, leb_string}
use litestar_queues.Events.Query.{sort_event_records, asc}

abbrev pub event_level_ranks : Dict String ℕ
event_level_ranks =
    ("debug", 10) ∷ ("info", 20) ∷ ("warning", 30) ∷ ("error", 40) ∷ ("critical", 50) ∷ []

-- `lower` is `str.lower`.
unfoldable pub event_level_rank : (String → String) → Option String → ℕ
event_level_rank lower none = 0
event_level_rank lower (some level) =
    if level == "" then 0 else or_else (get (lower level) event_level_ranks) 1

abbrev pub level_with : ℕ → Dict String ℕ → String
level_with rank [] = "unknown"
level_with rank ((level, r) ∷ ranks) = if r == rank then level else level_with rank ranks

unfoldable pub event_level_for_rank : ℕ → Option String
event_level_for_rank rank = if rank == 0 then none else some (level_with rank event_level_ranks)

pub record StageAccumulator : Type 0 where
  pub event_count : ℕ
  pub total_duration_ms : ℕ
  pub first_event_at : Option ℕ
  pub last_event_at : Option ℕ
  pub latest_sequence : Option ℤ
  pub latest_message : Option String
  pub best_rank : ℕ
  pub worst_level : Option String

module _ (lower : String → String) (fl : Floats) (add : ℕ → ℕ → ℕ) where
  abbrev pub new_stage : StageAccumulator
  new_stage = record {
    event_count = 0;
    total_duration_ms = fl.zero_float;
    first_event_at = none;
    last_event_at = none;
    latest_sequence = none;
    latest_message = none;
    best_rank = 0;
    worst_level = none;
  }

  -- The loop's body on the stage's entry; `add` is the addition of two floats.
  unfoldable pub accumulate : QueueEventLogRecord → StageAccumulator → StageAccumulator
  unfolding event_level_rank
  accumulate r x =
      let rank = event_level_rank lower r.level in
      let worse = leb x.best_rank rank in
      record {
        event_count = x.event_count + 1;
        total_duration_ms = elim r.duration_ms [
          | none ↦ x.total_duration_ms
          | some ms ↦ add x.total_duration_ms ms
        ];
        first_event_at =
            if none_or x.first_event_at (λ at. ltb r.occurred_at at)
            then some r.occurred_at
            else x.first_event_at;
        last_event_at =
            if none_or x.last_event_at (λ at. leb at r.occurred_at)
            then some r.occurred_at
            else x.last_event_at;
        latest_sequence = r.sequence;
        latest_message = r.message;
        best_rank = if worse then rank else x.best_rank;
        worst_level = if worse then r.level else x.worst_level;
      }

  unfoldable pub group_stages :
      List QueueEventLogRecord
      → Dict (Option String) StageAccumulator
      → Dict (Option String) StageAccumulator
  unfolding accumulate
  group_stages [] stages = stages
  group_stages (r ∷ rs) stages =
      group_stages rs
        (insert r.stage (accumulate r (or_else (get r.stage stages) new_stage)) stages)

  abbrev pub summary_of : Option String × StageAccumulator → QueueEventStageSummary
  summary_of (stage, x) = record {
    stage = stage;
    event_count = x.event_count;
    total_duration_ms = x.total_duration_ms;
    first_event_at = x.first_event_at;
    last_event_at = x.last_event_at;
    latest_sequence = x.latest_sequence;
    latest_message = x.latest_message;
    worst_level = x.worst_level;
  }

  -- The key `(stage is not None, stage or "")`.
  abbrev pub stage_not_after : Option String → Option String → Bool
  stage_not_after none b = true
  stage_not_after (some a) none = false
  stage_not_after (some a) (some b) = leb_string a b

  unfoldable pub summarize_event_records : List QueueEventLogRecord → List QueueEventStageSummary
  unfolding sort_event_records sort group_stages
  summarize_event_records rs =
      sort (λ a b. stage_not_after a.stage b.stage)
        (map summary_of (group_stages (sort_event_records rs asc) []))
