-- ===== src/Tests/Chunking.antt =====
-- A batch of two items of which only one fits at a time.
use litestar_queues.Base.{
  ℕ, ◌+◌, ◌*◌, ◌≡◌, refl, true, Option, none, some, List, [], ◌∷◌, get, insert, string_eq, pos,
  Dict, String, ap, ◌∙◌, length,
}
use litestar_queues.Ephemeral.Codec.{to_fields, from_fields}
use litestar_queues.Ephemeral.Codec.RoundTrip.{from_fields-to_fields}
use litestar_queues.Models.{Value, boolean, integer, array, object, Fields, field, end, cons, nil}
use litestar_queues.Events.Chunking.{
  payload_of, QueueEvent, QueueEventScope, extract_batch_items, replace_batch_items, is_within,
  as_items, mappings, split_event_batch_by_size,
}
use litestar_queues.Events.Chunking.Cover.{
  Cover, split_event_batch_by_size_covers, extract_batch_items-replace_batch_items,
}

abbrev first_item : Fields
first_item = field "id" (integer (pos 1)) end

abbrev second_item : Fields
second_item = field "id" (integer (pos 2)) end

abbrev batch : QueueEvent
batch = record {
  kind = "task.log";
  scope = QueueEventScope.task;
  id = "e1";
  scope_key = none;
  task_id = some "t1";
  task_name = none;
  queue = none;
  worker_id = none;
  execution_backend = none;
  execution_profile = none;
  attempt = none;
  sequence = none;
  level = none;
  message = none;
  progress_current = none;
  progress_total = none;
  progress_percent = none;
  actor = none;
  entity = none;
  payload =
      ("batch", boolean true)
      ∷ ("items", array (cons (object first_item) (cons (object second_item) nil)))
      ∷ [];
  occurred_at = 10;
  schema_version = pos 1;
  event_key = none;
}

abbrev builtins : QueueEvent → Dict String Value
builtins e = ("payload", object (to_fields e.payload)) ∷ []

abbrev built : Dict String Value → QueueEvent
built fields = record batch { payload = payload_of (get "payload" fields) }

built-keeps :
    (fields payload : Dict String Value)
    → get "payload" fields ≡ some (object (to_fields payload))
    → (built fields).payload ≡ payload
built-keeps fields payload e = ap payload_of e ∙ from_fields-to_fields payload

abbrev count_items : Option (List Fields) → ℕ
count_items none = 0
count_items (some items) = length items

-- Ten bytes for an item, and five for the rest.
abbrev size : QueueEvent → ℕ
size event = 5 + 10 * count_items (extract_batch_items event)

split_event_batch_by_size_covers_example :
    Cover builtins built size 20 batch
      (first_item ∷ second_item ∷ [])
      (split_event_batch_by_size builtins built size 20 batch)
unfolding to_fields from_fields extract_batch_items is_within replace_batch_items as_items mappings
    get insert
split_event_batch_by_size_covers_example =
    split_event_batch_by_size_covers builtins built size 20 batch first_item (second_item ∷ []) refl
      refl refl (refl, (refl, tt))

extract_batch_items-replace_batch_items_example :
    extract_batch_items (replace_batch_items builtins built size 20 batch (second_item ∷ []))
    ≡ some (second_item ∷ [])
unfolding get to_fields from_fields
extract_batch_items-replace_batch_items_example =
    extract_batch_items-replace_batch_items builtins built size 20 batch (second_item ∷ [])
      built-keeps refl
