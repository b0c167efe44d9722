-- ===== src/Ephemeral/Codec.antt =====
-- src/litestar_queues/backends/ephemeral/codec.py: the payload of a queue record.
pub mod RoundTrip
use litestar_queues.Base.{
  ℕ, Bool, true, false, not, Option, none, some, List, [], ◌∷◌, ◌++◌, String, Dict, ℤ, pos, negsuc,
  ◌==◌, nat_eq, string_eq, if◌then◌else◌, ◌&&◌, all, some_and,
}
use litestar_queues.Models.{
  Value, null, integer, string, array, object, Items, nil, cons, Fields, end, field, get_field,
  QueuedTaskRecord, TaskStatus, pending, scheduled, running, completed, failed, cancelled, expired,
}

-- The JSON serializer, and the texts of a UUID and of an instant in UTC. What raises returns `none`; a
-- datetime without a zone is read as one in UTC, which is what `parse_iso` returns.
pub record Library : Type 0 where
  pub encode_json : Value → Option (List ℕ)
  pub decode_json : List ℕ → Option Value
  pub uuid_text : ℕ → String
  pub parse_uuid : String → Option ℕ
  pub isoformat : ℕ → String
  pub parse_iso : String → Option ℕ
  -- `str(value)` of what is no text.
  pub str : Value → String
  -- Python's `==` of two values.
  pub same : Value → Value → Bool

-- `MAGIC`.
abbrev pub magic : List ℕ
magic = 76 ∷ 81 ∷ 69 ∷ 80 ∷ 3 ∷ []

abbrev pub schema_version : Value
schema_version = integer (pos 5)

-- `_RECORD_FIELDS`.
abbrev pub record_fields : List String
record_fields =
    "task_name" ∷ "id" ∷ "args" ∷ "kwargs" ∷ "queue" ∷ "execution_backend" ∷ "execution_profile"
    ∷ "execution_ref" ∷ "worker_id" ∷ "status" ∷ "priority" ∷ "max_retries" ∷ "retry_count"
    ∷ "scheduled_at" ∷ "expires_at" ∷ "created_at" ∷ "queued_at" ∷ "started_at" ∷ "completed_at"
    ∷ "heartbeat_at" ∷ "dispatch_checked_at" ∷ "result" ∷ "error" ∷ "key" ∷ "metadata" ∷ []

-- What a decoder does: it returns, or raises EphemeralDatabaseError. `untyped` stands for a payload whose
-- fields have values of other types than the record's: the source checks only some of them.
pub data Decoded (A : Type 0) : Type 0 where
  decoded : A → Decoded A
  unreadable : Decoded A
  untyped : Decoded A

infixl 5 ◌>>=◌
abbrev pub ◌>>=◌ : {A B : Type 0} → Decoded A → (A → Decoded B) → Decoded B
decoded a >>= f = f a
unreadable >>= f = unreadable
untyped >>= f = untyped

-- `none`: QueueConfigurationError.
unfoldable pub encode_payload : Library → Value → Option (List ℕ)
encode_payload l value = elim (l.encode_json value) [
  | none ↦ none
  | some body ↦ some (magic ++ body)
]

-- `payload[len(MAGIC):]` of a payload that starts with `MAGIC`.
abbrev pub strip_prefix : List ℕ → List ℕ → Option (List ℕ)
strip_prefix [] body = some body
strip_prefix (a ∷ xs) [] = none
strip_prefix (a ∷ xs) (b ∷ bs) = if a == b then strip_prefix xs bs else none

abbrev pub as_mapping : Option Value → Decoded Fields
as_mapping (some (object fields)) = decoded fields
as_mapping _ = unreadable

unfoldable pub decode_payload : Library → List ℕ → Decoded Fields
decode_payload l payload = elim (strip_prefix magic payload) [
  | none ↦ unreadable
  | some body ↦ as_mapping (l.decode_json body)
]

-- `list(args)` and `dict(kwargs)` as JSON values, and back.
unfoldable pub to_items : List Value → Items
to_items [] = nil
to_items (v ∷ vs) = cons v (to_items vs)

unfoldable pub from_items : Items → List Value
from_items nil = []
from_items (cons v vs) = v ∷ from_items vs

unfoldable pub to_fields : Dict String Value → Fields
to_fields [] = end
to_fields ((k, v) ∷ d) = field k v (to_fields d)

unfoldable pub from_fields : Fields → Dict String Value
from_fields end = []
from_fields (field k v fs) = (k, v) ∷ from_fields fs

abbrev pub text_or_null : Option String → Value
text_or_null none = null
text_or_null (some s) = string s

-- `_iso`.
unfoldable pub iso : Library → Option ℕ → Value
iso l none = null
iso l (some at) = string (l.isoformat at)

abbrev pub status_text : TaskStatus → String
status_text pending = "pending"
status_text scheduled = "scheduled"
status_text running = "running"
status_text completed = "completed"
status_text failed = "failed"
status_text cancelled = "cancelled"
status_text expired = "expired"

-- The loop over `_RECORD_DATETIMES`.
unfoldable pub record_times : Library → QueuedTaskRecord → Fields
unfolding iso
record_times l r = field "scheduled_at" (iso l r.scheduled_at) (
    field "expires_at" (iso l r.expires_at) (
      field "created_at" (iso l (some r.created_at)) (
        field "queued_at" (iso l (some r.queued_at)) (
          field "started_at" (iso l r.started_at) (
            field "completed_at" (iso l r.completed_at) (
              field "heartbeat_at" (iso l r.heartbeat_at)
                (field "dispatch_checked_at" (iso l r.dispatch_checked_at) end)))))))

-- The mapping of `record_to_payload`.
unfoldable pub record_mapping : Library → QueuedTaskRecord → Fields
unfolding to_items to_fields record_times
record_mapping l r = field "schema_version" schema_version (
    field "task_name" (string r.task_name) (
      field "id" (string (l.uuid_text r.id)) (
        field "args" (array (to_items r.args)) (
          field "kwargs" (object (to_fields r.kwargs)) (
            field "queue" (string r.queue) (
              field "execution_backend" (string r.execution_backend) (
                field "execution_profile" (text_or_null r.execution_profile) (
                  field "execution_ref" (text_or_null r.execution_ref) (
                    field "worker_id" (text_or_null r.worker_id) (
                      field "status" (string (status_text r.status)) (
                        field "priority" (integer r.priority) (
                          field "max_retries" (integer r.max_retries) (
                            field "retry_count" (integer (pos r.retry_count)) (
                              field "result" r.result (
                                field "error" (text_or_null r.error) (
                                  field "key" (text_or_null r.key) (
                                    field "metadata" (object (to_fields r.metadata))
                                      (record_times l r))))))))))))))))))

unfoldable pub record_to_payload : Library → QueuedTaskRecord → Option (List ℕ)
unfolding record_mapping encode_payload
record_to_payload l r = encode_payload l (object (record_mapping l r))

-- `_parse_datetime`.
abbrev parsed : Option ℕ → Decoded (Option ℕ)
parsed none = unreadable
parsed (some at) = decoded (some at)

unfoldable pub parse_datetime : Library → Value → Decoded (Option ℕ)
parse_datetime l null = decoded none
parse_datetime l (string s) = parsed (l.parse_iso s)
parse_datetime l _ = unreadable

abbrev or_unreadable : {A : Type 0} → Option A → Decoded A
or_unreadable none = unreadable
or_unreadable (some a) = decoded a

-- `decoded[name]`, which raises KeyError for a missing one; the fields were checked before.
abbrev item : String → Fields → Decoded Value
item name fields = or_unreadable (get_field name fields)

abbrev as_text : Value → Decoded String
as_text (string s) = decoded s
as_text _ = untyped

abbrev as_text_or_none : Value → Decoded (Option String)
as_text_or_none null = decoded none
as_text_or_none (string s) = decoded (some s)
as_text_or_none _ = untyped

abbrev as_integer : Value → Decoded ℤ
as_integer (integer n) = decoded n
as_integer _ = untyped

abbrev as_count : Value → Decoded ℕ
as_count (integer (pos n)) = decoded n
as_count _ = untyped

abbrev pub parse_status : String → Decoded TaskStatus
parse_status s =
    if s == "pending"
    then decoded pending
    else (if s == "scheduled"
        then decoded scheduled
        else (if s == "running"
            then decoded running
            else (if s == "completed"
                then decoded completed
                else (if s == "failed"
                    then decoded failed
                    else (if s == "cancelled"
                        then decoded cancelled
                        else (if s == "expired" then decoded expired else untyped))))))

-- `setattr(record, name, …)` of a field that the record's type wants.
abbrev as_instant : Option ℕ → Decoded ℕ
as_instant none = untyped
as_instant (some at) = decoded at

-- `str(decoded["id"])`.
abbrev as_str : Library → Value → String
as_str l (string s) = s
as_str l v = l.str v

abbrev as_list : Value → Decoded (List Value)
as_list (array xs) = decoded (from_items xs)
as_list _ = unreadable

abbrev as_dict : Value → Decoded (Dict String Value)
as_dict (object fs) = decoded (from_fields fs)
as_dict _ = unreadable

abbrev present : Fields → String → Bool
present fields name = some_and (get_field name fields) (λ _. true)

-- The checks of `record_from_payload` on the whole mapping.
unfoldable pub is_record_mapping : Library → Fields → Bool
unfolding get_field
is_record_mapping l fields =
    some_and (get_field "schema_version" fields) (λ v. l.same v schema_version)
    && all (present fields) record_fields

-- The loop that parses the datetimes.
unfoldable pub parse_item : Library → Fields → String → Decoded (Option ℕ)
unfolding get_field parse_datetime
parse_item l fields name = do v ← item name fields; parse_datetime l v

-- The record of a checked mapping. The values that the source only stores are typed last.
unfoldable pub record_of : Library → Fields → Decoded QueuedTaskRecord
unfolding get_field from_items from_fields parse_item
record_of l fields = do
  id_value ← item "id" fields
  id ← or_unreadable (l.parse_uuid (as_str l id_value))
  args_value ← item "args" fields
  args ← as_list args_value
  kwargs_value ← item "kwargs" fields
  kwargs ← as_dict kwargs_value
  metadata_value ← item "metadata" fields
  metadata ← as_dict metadata_value
  scheduled_at ← parse_item l fields "scheduled_at"
  expires_at ← parse_item l fields "expires_at"
  created ← parse_item l fields "created_at"
  queued ← parse_item l fields "queued_at"
  started_at ← parse_item l fields "started_at"
  completed_at ← parse_item l fields "completed_at"
  heartbeat_at ← parse_item l fields "heartbeat_at"
  dispatch_checked_at ← parse_item l fields "dispatch_checked_at"
  created_at ← as_instant created
  queued_at ← as_instant queued
  task_name ← item "task_name" fields >>= as_text
  queue ← item "queue" fields >>= as_text
  execution_backend ← item "execution_backend" fields >>= as_text
  execution_profile ← item "execution_profile" fields >>= as_text_or_none
  execution_ref ← item "execution_ref" fields >>= as_text_or_none
  worker_id ← item "worker_id" fields >>= as_text_or_none
  status_value ← item "status" fields >>= as_text
  status ← parse_status status_value
  priority ← item "priority" fields >>= as_integer
  max_retries ← item "max_retries" fields >>= as_integer
  retry_count ← item "retry_count" fields >>= as_count
  result ← item "result" fields
  error ← item "error" fields >>= as_text_or_none
  key ← item "key" fields >>= as_text_or_none
  decoded (record {
    task_name = task_name;
    id = id;
    args = args;
    kwargs = kwargs;
    queue = queue;
    execution_backend = execution_backend;
    execution_profile = execution_profile;
    execution_ref = execution_ref;
    worker_id = worker_id;
    status = status;
    priority = priority;
    max_retries = max_retries;
    retry_count = retry_count;
    scheduled_at = scheduled_at;
    expires_at = expires_at;
    created_at = created_at;
    queued_at = queued_at;
    started_at = started_at;
    completed_at = completed_at;
    heartbeat_at = heartbeat_at;
    result = result;
    error = error;
    key = key;
    metadata = metadata;
    dispatch_checked_at = dispatch_checked_at;
  })

unfoldable pub record_from_payload : Library → List ℕ → Decoded QueuedTaskRecord
unfolding decode_payload is_record_mapping record_of
record_from_payload l payload = do
  fields ← decode_payload l payload
  if is_record_mapping l fields then record_of l fields else unreadable
