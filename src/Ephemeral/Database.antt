-- ===== src/Ephemeral/Database.antt =====
-- backends/ephemeral/schema.py and backend.py: the tables, the statements that the methods run on
-- `queue_task`, the transaction, and the backend object.
-- A time column holds an ISO text in UTC, which is in the order of the instants, so the model has the
-- instants. The payload column holds the bytes of Ephemeral/Codec.antt: the model has the record that they
-- decode to, so bytes that cannot be decoded again raise when they are written, not when they are read.
use litestar_queues.Base.{
  ℕ, Bool, true, false, not, Option, none, some, List, [], String, ◌&&◌, ◌||◌, Dict, get, insert,
  nat_eq, string_eq, ◌==◌, if◌then◌else◌, some_and, ltb, leb, ltb_ℤ, leb_ℤ, ◌≡◌, ap, ℤ, pos, negsuc,
  ◌^◌, any, map, ◌⊎◌, inl, inr,
}
use litestar_queues.Models.{QueuedTaskRecord, TaskReservation, TaskStatus, is_terminal_status}
use litestar_queues.Backend.{QueueError}
use litestar_queues.Ephemeral.Codec.{
  Library, decoded, unreadable, untyped, record_to_payload, record_from_payload,
}
use litestar_queues.Memory.State.{Effect, keep, write}

-- A row of `queue_task` without its primary key.
pub record Row : Type 0 where
  pub task_name : String
  pub queue : String
  pub execution_backend : String
  pub worker_id : Option String
  pub status : TaskStatus
  pub priority : ℤ
  pub retry_count : ℕ
  pub scheduled_at : Option ℕ
  pub expires_at : Option ℕ
  pub created_at : ℕ
  pub queued_at : ℕ
  pub completed_at : Option ℕ
  pub heartbeat_at : Option ℕ
  pub dispatch_checked_at : Option ℕ
  pub task_key : Option String
  pub payload : QueuedTaskRecord

-- The row of a record whose payload decodes to the record itself.
unfoldable pub as_row : QueuedTaskRecord → Row
as_row r = record {
  task_name = r.task_name;
  queue = r.queue;
  execution_backend = r.execution_backend;
  worker_id = r.worker_id;
  status = r.status;
  priority = r.priority;
  retry_count = r.retry_count;
  scheduled_at = r.scheduled_at;
  expires_at = r.expires_at;
  created_at = r.created_at;
  queued_at = r.queued_at;
  completed_at = r.completed_at;
  heartbeat_at = r.heartbeat_at;
  dispatch_checked_at = r.dispatch_checked_at;
  task_key = r.key;
  payload = r;
}

-- The tables, by their primary keys, with the rows in the order of their insertion, and the serializer of
-- the process.
pub record Database : Type 0 where
  pub library : Library
  pub queue_task : Dict ℕ Row
  pub queue_reservation : Dict String TaskReservation
  pub queue_maintenance : Dict String (String × ℕ)

-- `IntegrityError`, `RecursionError`, `OverflowError` of the driver, `QueueConfigurationError` of a value
-- that JSON cannot have, `EphemeralDatabaseError`, or what the helpers of base.py raise.
pub data Failure : Type 0 where
  integrity_error recursion_error overflow_error serialization_error unreadable_error : Failure
  queue_failure : QueueError → Failure

-- `_columns`: every column but the payload is the record's field. The key of the entry is the first column.
unfoldable pub columns : Library → QueuedTaskRecord → Failure ⊎ Row
unfolding record_to_payload record_from_payload as_row
columns l r = elim (record_to_payload l r) [
  | none ↦ inl serialization_error
  | some payload ↦ elim (record_from_payload l payload) [
    | decoded q ↦ inr (record (as_row r) { payload = q })
    | unreadable ↦ inl unreadable_error
    | untyped ↦ inl unreadable_error
  ]
]

-- The numbers that SQLite's INTEGER holds.
abbrev pub is_int64 : ℤ → Bool
is_int64 (pos n) = ltb n (2 ^ 63)
is_int64 (negsuc n) = ltb n (2 ^ 63)

unfoldable pub is_bindable : Row → Bool
is_bindable row = is_int64 row.priority && is_int64 (pos row.retry_count)

-- What a statement or an operation on an open connection does.
pub data Outcome (A : Type 0) : Type 0 where
  done : A → Database → Outcome A
  raised : Failure → Outcome A

abbrev pub Operation : Type 0 → Type 0
Operation A = Database → Outcome A

abbrev pub pure : {A : Type 0} → A → Operation A
pure a d = done a d

abbrev pub bind : {A B : Type 0} → Outcome A → (A → Operation B) → Outcome B
bind (done a d) f = f a d
bind (raised e) f = raised e

infixl 5 ◌>>=◌ ◌>>◌
abbrev pub ◌>>=◌ : {A B : Type 0} → Operation A → (A → Operation B) → Operation B
◌>>=◌ m f d = bind (m d) f

abbrev pub ◌>>◌ : {B : Type 0} → Operation (Unit {0}) → Operation B → Operation B
m >> k = m >>= λ _. k

-- `SELECT payload FROM queue_task WHERE id = ? AND …`, decoded, with a test for the further conditions.
unfoldable pub select_by_id : (Row → Bool) → ℕ → Operation (Option QueuedTaskRecord)
select_by_id test task_id d =
    done
      (elim (get task_id d.queue_task) [
        | none ↦ none
        | some row ↦ if test row then some row.payload else none
      ])
      d

-- The index `ux_queue_task_active_key` has an entry for the row, with this key.
unfoldable pub is_indexed_under : String → Row → Bool
is_indexed_under key row =
    not (is_terminal_status row.status) && some_and row.task_key (λ k. k == key)

-- A row at `id` would have the same entry in the index as another row.
unfoldable pub violates_active_key : ℕ → Row → Dict ℕ Row → Bool
unfolding is_indexed_under
violates_active_key id row rows =
    not (is_terminal_status row.status)
    && some_and row.task_key (λ key. any (λ kv. not (kv.0 == id) && is_indexed_under key kv.1) rows)

-- `UPDATE queue_task SET … WHERE id = ?`: no row is changed where the id is unknown.
unfoldable pub update_row : ℕ → Row → Operation (Unit {0})
unfolding violates_active_key is_bindable
update_row id row d =
    if not (is_bindable row) then raised overflow_error else elim (get id d.queue_task) [
      | none ↦ done tt d
      | some _ ↦
          if violates_active_key id row d.queue_task
          then raised integrity_error
          else done tt (record d { queue_task = insert id row d.queue_task })
    ]

-- `INSERT INTO queue_task`.
unfoldable pub insert_row : ℕ → Row → Operation (Unit {0})
unfolding violates_active_key is_bindable
insert_row id row d =
    if not (is_bindable row) then raised overflow_error else elim (get id d.queue_task) [
      | some _ ↦ raised integrity_error
      | none ↦
          if violates_active_key id row d.queue_task
          then raised integrity_error
          else done tt (record d { queue_task = insert id row d.queue_task })
    ]

abbrev pub with_row : Failure ⊎ Row → (Row → Operation (Unit {0})) → Operation (Unit {0})
with_row (inl e) statement d = raised e
with_row (inr row) statement d = statement row d

-- `_write`.
abbrev pub write_record : QueuedTaskRecord → Operation (Unit {0})
write_record r d = with_row (columns d.library r) (update_row r.id) d

-- The row that is written for a record decodes to the record again, and the driver takes its numbers.
abbrev pub Storable : Library → QueuedTaskRecord → Type 0
Storable l r = (columns l r ≡ inr (as_row r)) × (is_bindable (as_row r) ≡ true)

pub write_record-Storable :
    (r : QueuedTaskRecord) (d : Database)
    → columns d.library r ≡ inr (as_row r)
    → write_record r d ≡ update_row r.id (as_row r) d
write_record-Storable r d e = ap (λ o. with_row o (update_row r.id) d) e

-- `_insert`.
abbrev pub insert_record : QueuedTaskRecord → Operation (Unit {0})
insert_record r d = with_row (columns d.library r) (insert_row r.id) d

pub insert_record-Storable :
    (r : QueuedTaskRecord) (d : Database)
    → columns d.library r ≡ inr (as_row r)
    → insert_record r d ≡ insert_row r.id (as_row r) d
insert_record-Storable r d e = ap (λ o. with_row o (insert_row r.id) d) e

abbrev pub apply : {A : Type 0} → Effect A → Operation A
apply (keep a) = pure a
apply (write r a) = do write_record r; pure a

abbrev pub on_row_found :
    {A : Type 0} → A → (QueuedTaskRecord → Effect A) → Option QueuedTaskRecord → Operation A
on_row_found missing body none = pure missing
on_row_found missing body (some r) = apply (body r)

-- The operation of most methods: select the row, return `missing` if there is none, decode it, check
-- and assign, write it back.
unfoldable pub on_row_where :
    {A : Type 0} → (Row → Bool) → ℕ → A → (QueuedTaskRecord → Effect A) → Operation A
unfolding select_by_id update_row columns
on_row_where test task_id missing body = do
  found ← select_by_id test task_id
  on_row_found missing body found

abbrev pub on_row : {A : Type 0} → ℕ → A → (QueuedTaskRecord → Effect A) → Operation A
on_row task_id missing body = on_row_where (λ _. true) task_id missing body

-- The backend object: the file and its `_notification_event`.
pub record EphemeralQueueBackend : Type 0 where
  pub database : Database
  pub notification_event : Bool

abbrev pub commit :
    {A : Type 0} → EphemeralQueueBackend → Outcome A → EphemeralQueueBackend × (Failure ⊎ A)
commit b (done a d) = (record b { database = d }, inr a)
commit b (raised e) = (b, inl e)

-- `_transaction`: BEGIN IMMEDIATE, the operation, and COMMIT or ROLLBACK.
unfoldable pub transaction :
    {A : Type 0} → EphemeralQueueBackend → Operation A → EphemeralQueueBackend × (Failure ⊎ A)
transaction b operation = commit b (operation b.database)

-- The database that the server's lifespan creates, before its first task.
unfoldable pub new_database : Library → Database
new_database l = record {
  library = l;
  queue_task = [];
  queue_reservation = [];
  queue_maintenance = [];
}

unfoldable pub new_backend : Library → EphemeralQueueBackend
unfolding new_database
new_backend l = record { database = new_database l; notification_event = false }

-- `ORDER BY priority DESC, queued_at ASC, created_at ASC, id ASC`.
unfoldable pub row_before : ℕ × Row → ℕ × Row → Bool
row_before (i, a) (j, b) =
    ltb_ℤ b.priority a.priority
    || (leb_ℤ b.priority a.priority
        && (ltb a.queued_at b.queued_at
            || (leb a.queued_at b.queued_at
                && (ltb a.created_at b.created_at || (leb a.created_at b.created_at && leb i j)))))

-- `_decode_all`.
unfoldable pub decode_all : List (ℕ × Row) → List QueuedTaskRecord
decode_all rows = map (λ kv. kv.1.payload) rows
