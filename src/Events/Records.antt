-- ===== src/Events/Records.antt =====
-- src/litestar_queues/events/history.py: the record of an event, the adopter's columns and the
-- configuration; and the sort key of events/_log_records.py.
use Prim.Native.String.{compare}
use Prim.Native.Nat.{lt, eq, gt}
use litestar_queues.Base.{
  ℕ, Bool, true, false, Option, none, some, List, [], ◌∷◌, ◌&&◌, ◌||◌, String, ℤ, pos, Dict, get,
  insert, string_eq, option_eq, ◌==◌, if◌then◌else◌, or_else, ltb, leb, ltb_ℤ, leb_ℤ, all,
}
use litestar_queues.Models.{Value}

pub record QueueEventLogRecord : Type 0 where
  pub event_id : String
  pub event_type : String
  pub task_id : Option String
  pub task_name : Option String
  pub queue : Option String
  pub worker_id : Option String
  pub execution_backend : Option String
  pub execution_profile : Option String
  pub actor_type : Option String
  pub actor_id : Option String
  pub stage : Option String
  pub level : Option String
  pub message : Option String
  pub detail : Dict String Value
  pub progress_current : Option ℕ
  pub progress_total : Option ℕ
  pub progress_percent : Option ℕ
  pub duration_ms : Option ℕ
  pub sequence : Option ℤ
  pub occurred_at : ℕ
  pub created_at : ℕ
  pub scope : Option String
  pub scope_key : Option String
  pub actor : Option String
  pub entity : Option String
  pub extra : Dict String String

pub record QueueEventStageSummary : Type 0 where
  pub stage : Option String
  pub event_count : ℕ
  pub total_duration_ms : ℕ
  pub first_event_at : Option ℕ
  pub last_event_at : Option ℕ
  pub latest_sequence : Option ℤ
  pub latest_message : Option String
  pub worst_level : Option String

pub record EventHistoryExtraColumn : Type 0 where
  pub name : String
  pub source : String
  pub indexed : Bool

-- `a <= b` of two texts: by the numbers of their characters.
abbrev pub leb_string : String → String → Bool
leb_string a b = elim (compare a b) [ lt ↦ true | eq ↦ true | gt ↦ false ]

abbrev pub ltb_string : String → String → Bool
ltb_string a b = elim (compare a b) [ lt ↦ true | eq ↦ false | gt ↦ false ]

-- The order of `event_log_record_sort_key`.
unfoldable pub not_after : QueueEventLogRecord → QueueEventLogRecord → Bool
not_after a b =
    let m : ℤ = or_else a.sequence (pos 0) in
    let n : ℤ = or_else b.sequence (pos 0) in
    ltb a.occurred_at b.occurred_at
    || (leb a.occurred_at b.occurred_at
        && (ltb_ℤ m n || (leb_ℤ m n && leb_string a.event_id b.event_id)))

-- `declared_map`: `lower` is `str.lower`.
unfoldable pub declared_map :
    (String → String) → List EventHistoryExtraColumn → Dict String String → Dict String String
declared_map lower [] known = known
declared_map lower (c ∷ cs) known = declared_map lower cs (insert (lower c.name) c.name known)

unfoldable pub resolve_filters :
    (String → String)
    → Dict String String
    → Dict String String
    → Dict String String
    → Option (Dict String String)
resolve_filters lower declared [] resolved = some resolved
resolve_filters lower declared ((key, value) ∷ rest) resolved = elim (get (lower key) declared) [
  | none ↦ none
  | some name ↦ resolve_filters lower declared rest (insert name value resolved)
]

-- `none`: QueueConfigurationError. The set of the two built-in names is iterated in either order,
-- which no reading of the dict tells apart.
unfoldable pub validate_event_extra_filter :
    (String → String)
    → Option (Dict String String)
    → List EventHistoryExtraColumn
    → Option (Dict String String)
unfolding declared_map resolve_filters
validate_event_extra_filter lower none columns = some []
validate_event_extra_filter lower (some filters) columns =
    resolve_filters lower
      (insert "actor_type" "actor_type"
        (insert "actor_id" "actor_id" (declared_map lower columns [])))
      filters []

abbrev pub extra_field : QueueEventLogRecord → String → Option String
extra_field r key =
    if key == "actor_id"
    then r.actor_id
    else (if key == "actor_type" then r.actor_type else get key r.extra)

unfoldable pub event_extra_filter_matches : QueueEventLogRecord → Dict String String → Bool
event_extra_filter_matches r filters = all (λ kv. extra_field r kv.0 == some kv.1) filters
