-- ===== src/Events/Columns.antt =====
-- The adopter's columns of src/litestar_queues/events/history.py: their validation, and the
-- configuration that holds them.
use Prim.Native.Char.{Char, code}
use litestar_queues.Base.{
  ℕ, Bool, true, false, not, Option, none, some, List, [], ◌∷◌, ◌&&◌, ◌||◌, String, ℤ, pos, Dict,
  get, insert, string_eq, ◌==◌, if◌then◌else◌, leb, ltb_ℤ, leb_ℤ, any,
}
use litestar_queues.Models.{Value, null, Floats}
use litestar_queues.Events.Records.{EventHistoryExtraColumn}

abbrev within : ℕ → ℕ → Char → Bool
within a b c = leb a (code c) && leb (code c) b

abbrev is_letter : Char → Bool
is_letter c = within 65 90 c || within 97 122 c

-- `character.isalnum() or character == "_"`, of an ASCII character.
abbrev is_word_character : Char → Bool
is_word_character c = is_letter c || within 48 57 c || within 95 95 c

abbrev every : (Char → Bool) → String → Bool
every p String.[] = true
every p (String.◌∷◌ c s) = p c && every p s

abbrev starts_word : String → Bool
starts_word String.[] = false
starts_word (String.◌∷◌ c s) = is_letter c || within 95 95 c

-- `identifier.isascii()` bounds the numbers of the characters.
unfoldable pub is_unquoted_identifier_part : String → Bool
is_unquoted_identifier_part s = every (within 0 127) s && starts_word s && every is_word_character s

abbrev pub event_history_column_names : List String
event_history_column_names =
    "event_id" ∷ "event_type" ∷ "task_id" ∷ "task_name" ∷ "queue" ∷ "worker_id"
    ∷ "execution_backend" ∷ "execution_profile" ∷ "actor_type" ∷ "actor_id" ∷ "stage" ∷ "level"
    ∷ "message" ∷ "detail" ∷ "progress_current" ∷ "progress_total" ∷ "progress_percent"
    ∷ "duration_ms" ∷ "sequence" ∷ "occurred_at" ∷ "created_at" ∷ []

abbrev pub reserved_event_history_columns : List String
reserved_event_history_columns = "actor" ∷ "entity" ∷ "scope" ∷ "scope_key" ∷ []

abbrev pub holds : List String → String → Bool
holds names name = any (λ n. name == n) names

-- The guards on one column, of which `folded` is the name in lower case.
abbrev pub is_acceptable : String → List String → EventHistoryExtraColumn → Bool
is_acceptable folded seen c =
    is_unquoted_identifier_part c.name
    && not (holds event_history_column_names folded)
    && not (holds reserved_event_history_columns folded)
    && not (holds seen folded)
    && not (c.source == "")

abbrev prepend :
    EventHistoryExtraColumn
    → Option (List EventHistoryExtraColumn)
    → Option (List EventHistoryExtraColumn)
prepend c none = none
prepend c (some cs) = some (c ∷ cs)

-- The loop: `lower` is `str.lower`, `none` is QueueConfigurationError.
unfoldable pub validate_columns :
    (String → String)
    → List EventHistoryExtraColumn
    → List String
    → Option (List EventHistoryExtraColumn)
unfolding is_unquoted_identifier_part
validate_columns lower [] seen = some []
validate_columns lower (c ∷ cs) seen =
    let rest = validate_columns lower cs (lower c.name ∷ seen) in
    if not (is_acceptable (lower c.name) seen c) then none else prepend c rest

unfoldable pub validate_event_history_extra_columns :
    (String → String) → List EventHistoryExtraColumn → Option (List EventHistoryExtraColumn)
unfolding validate_columns
validate_event_history_extra_columns lower columns = validate_columns lower columns []

abbrev is_null : Value → Bool
is_null null = true
is_null _ = false

-- `text` is `str` of a value.
unfoldable pub extract_loop :
    (Value → String)
    → Option (Dict String Value)
    → List EventHistoryExtraColumn
    → Dict String String
    → Dict String String
extract_loop text none columns extracted = extracted
extract_loop text (some payload) [] extracted = extracted
extract_loop text (some payload) (c ∷ cs) extracted = elim (get c.source payload) [
  | none ↦ extract_loop text (some payload) cs extracted
  | some v ↦
      let kept = extract_loop text (some payload) cs extracted in
      let added = extract_loop text (some payload) cs (insert c.name (text v) extracted) in
      if is_null v then kept else added
]

unfoldable pub extract_event_extras :
    (Value → String)
    → Option (Dict String Value)
    → List EventHistoryExtraColumn
    → Dict String String
unfolding extract_loop
extract_event_extras text payload columns = extract_loop text payload columns []

pub record EventHistoryConfig : Type 0 where
  pub batch_size : ℤ
  pub flush_interval : ℕ
  pub strict : Bool
  pub memory_capacity : ℤ
  pub extra_columns : List EventHistoryExtraColumn
  pub max_pending : ℤ

abbrev with_columns :
    EventHistoryConfig → Option (List EventHistoryExtraColumn) → Option EventHistoryConfig
with_columns config none = none
with_columns config (some columns) = some (record config { extra_columns = columns })

-- `__post_init__`: a float of the model is finite, so `isfinite` holds.
unfoldable pub check_event_history_config :
    (String → String) → Floats → EventHistoryConfig → Option EventHistoryConfig
unfolding validate_event_history_extra_columns
check_event_history_config lower fl config =
    if leb_ℤ config.batch_size (pos 0)
    then none
    else (if not (fl.less fl.zero_float config.flush_interval)
        then none
        else (if ltb_ℤ config.max_pending config.batch_size
            then none
            else (if leb_ℤ config.memory_capacity (pos 0)
                then none
                else with_columns config
                    (validate_event_history_extra_columns lower config.extra_columns))))
