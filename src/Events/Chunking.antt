-- ===== src/Events/Chunking.antt =====
-- src/litestar_queues/events/models.py: the event that is published; and events/chunking.py.
pub mod Cover
use litestar_queues.Base.{
  ℕ, suc, Bool, true, false, not, Option, none, some, List, [], ◌∷◌, ◌++◌, String, ◌&&◌, ◌||◌, ℤ,
  pos, Dict, get, insert, string_eq, if◌then◌else◌, ltb, leb, length, select, map,
}
use litestar_queues.Ephemeral.Codec.{to_fields, from_fields}
use litestar_queues.Models.{Value, boolean, integer, array, object, Items, nil, cons, Fields}

pub record QueueEventActor : Type 0 where
  pub kind : Option String
  pub id : Option String
  pub name : Option String

pub record QueueEventEntityRef : Type 0 where
  pub kind : String
  pub id : String
  pub name : Option String

pub data QueueEventScope : Type 0 where
  task queue worker global custom : QueueEventScope

-- `type` is `kind` here. A progress value is a number.
pub record QueueEvent : Type 0 where
  pub kind : String
  pub scope : QueueEventScope
  pub id : String
  pub scope_key : Option String
  pub task_id : Option String
  pub task_name : Option String
  pub queue : Option String
  pub worker_id : Option String
  pub execution_backend : Option String
  pub execution_profile : Option String
  pub attempt : Option ℤ
  pub sequence : Option ℤ
  pub level : Option String
  pub message : Option String
  pub progress_current : Option Value
  pub progress_total : Option Value
  pub progress_percent : Option Value
  pub actor : Option QueueEventActor
  pub entity : Option QueueEventEntityRef
  pub payload : Dict String Value
  pub occurred_at : ℕ
  pub schema_version : ℤ
  pub event_key : Option String

-- `payload.get("batch") is True`.
abbrev pub is_true : Option Value → Bool
is_true (some (boolean true)) = true
is_true _ = false

-- The items, if all are mappings.
unfoldable pub mappings : Items → Option (List Fields)
mappings nil = some []
mappings (cons (object fs) xs) = elim (mappings xs) [ none ↦ none | some rest ↦ some (fs ∷ rest) ]
mappings (cons v xs) = none

abbrev pub as_mappings : Option Value → Option (List Fields)
as_mappings (some (array xs)) = mappings xs
as_mappings _ = none

-- `_extract_batch_items`.
unfoldable pub extract_batch_items : QueueEvent → Option (List Fields)
unfolding mappings
extract_batch_items event =
    if not (is_true (get "batch" event.payload))
    then none
    else as_mappings (get "items" event.payload)

unfoldable pub as_items : List Fields → Items
as_items [] = nil
as_items (fs ∷ rest) = cons (object fs) (as_items rest)

-- What the function does: it returns the events, or raises ValueError for a limit below one or for an item
-- that does not fit alone.
pub data Split : Type 0 where
  split : List QueueEvent → Split
  limit_error item_error : Split

-- `dict(data.get("payload") or {})`.
abbrev pub payload_of : Option Value → Dict String Value
payload_of (some (object fs)) = from_fields fs
payload_of _ = []

-- `msgspec.to_builtins` of an event and `QueueEvent.from_dict` are parameters.
module _ (to_builtins : QueueEvent → Dict String Value) (from_dict : Dict String Value → QueueEvent)
    (size : QueueEvent → ℕ) (max_bytes : ℕ) where
  -- `_replace_batch_items`.
  unfoldable pub replace_batch_items : QueueEvent → List Fields → QueueEvent
  unfolding as_items
  replace_batch_items event items =
      let fields = to_builtins event in
      let payload =
        insert "count" (integer (pos (length items)))
          (insert "items" (array (as_items items)) (payload_of (get "payload" fields))) in
      from_dict (insert "payload" (object (to_fields payload)) fields)

  -- The event with these items does not exceed the limit.
  unfoldable pub is_within : QueueEvent → List Fields → Bool
  unfolding replace_batch_items
  is_within event items = leb (size (replace_batch_items event items)) max_bytes

  -- `if current: chunks.append(…)`, before what follows.
  unfoldable pub flush : QueueEvent → List Fields → Split → Split
  unfolding replace_batch_items
  flush event [] rest = rest
  flush event (item ∷ items) (split chunks) =
      split (replace_batch_items event (item ∷ items) ∷ chunks)
  flush event (item ∷ items) error = error

  -- The loop over the items, with `current`.
  unfoldable pub chunk_loop : QueueEvent → List Fields → List Fields → Split
  unfolding flush is_within
  chunk_loop event [] current = flush event current (split [])
  chunk_loop event (item ∷ items) current =
      let grown = chunk_loop event items (current ++ item ∷ []) in
      let fresh = chunk_loop event items (item ∷ []) in
      if is_within event (current ++ item ∷ [])
      then grown
      else (if not (is_within event (item ∷ [])) then item_error else flush event current fresh)

  -- `tuple(chunks) or (event,)`.
  abbrev or_whole : QueueEvent → Split → Split
  or_whole event (split []) = split (event ∷ [])
  or_whole event other = other

  abbrev split_items : QueueEvent → Option (List Fields) → Split
  split_items event none = split (event ∷ [])
  split_items event (some items) =
      if leb (size event) max_bytes
      then split (event ∷ [])
      else or_whole event (chunk_loop event items [])

  unfoldable pub split_event_batch_by_size : QueueEvent → Split
  unfolding extract_batch_items chunk_loop
  split_event_batch_by_size event =
      if ltb max_bytes 1 then limit_error else split_items event (extract_batch_items event)
