-- ===== src/Tests/Serializer.antt =====
-- A serializer that knows the records of one task: waiting, running, completed, and expired at any time.
use litestar_queues.Base.{
  ℕ, ◌≡◌, refl, sym, ap, ◌∙◌, true, Option, none, some, List, [], ◌∷◌, ◌++◌, String, string_eq,
  nat_eq, ◌==◌, if◌then◌else◌, Bool-cases, inl, inr, get, or_else, subst,
}
use litestar_queues.Models.{
  Value, string, object, get_field, QueuedTaskRecord, TaskStatus, completed,
}
use litestar_queues.Memory.State.{Memory}
use litestar_queues.Ephemeral.Codec.{
  Library, magic, record_mapping, record_times, iso, record_to_payload, encode_payload,
}
use litestar_queues.Ephemeral.Codec.RoundTrip.{IsFaithful, Restores}
use litestar_queues.Ephemeral.Database.{as_row, is_bindable, Storable}
use litestar_queues.Ephemeral.Holds.{AllStorable, restored-Storable}
use litestar_queues.Tests.Data.{waiting_task}
use litestar_queues.Tests.Texts.{ticks, ticks-unary}
use litestar_queues.Tests.Codec.{texts}

abbrev pub started_task : QueuedTaskRecord
started_task = record waiting_task {
  status = TaskStatus.running;
  started_at = some 200;
  heartbeat_at = some 200;
}

abbrev pub completed_task : QueuedTaskRecord
completed_task = record started_task {
  status = completed;
  completed_at = some 300;
  heartbeat_at = none;
}

abbrev pub expired_task : ℕ → QueuedTaskRecord
expired_task at = record waiting_task {
  status = TaskStatus.expired;
  completed_at = some at;
  heartbeat_at = none;
}

abbrev text_of : Option Value → String
text_of (some (string s)) = s
text_of _ = ""

-- The number of a record's status, and the time of an expiry.
abbrev summary : Value → List ℕ
summary (object fields) =
    let status = text_of (get_field "status" fields) in
    if status == "pending"
    then 0 ∷ []
    else (if status == "running"
        then 1 ∷ []
        else (if status == "completed"
            then 2 ∷ []
            else 3 ∷ ticks (text_of (get_field "completed_at" fields)) ∷ []))
summary _ = []

abbrev recalled : List ℕ → Option QueuedTaskRecord
recalled (n ∷ []) =
    some (if n == 0 then waiting_task else (if n == 1 then started_task else completed_task))
recalled (n ∷ at ∷ []) = some (expired_task at)
recalled _ = none

abbrev as_mapping : Option QueuedTaskRecord → Option Value
as_mapping none = none
as_mapping (some r) = some (object (record_mapping texts r))

abbrev pub memory_of : Library
memory_of = record texts {
  encode_json = λ v. some (summary v);
  decode_json = λ body. as_mapping (recalled body);
}

memory_of-IsFaithful : IsFaithful memory_of
memory_of-IsFaithful = record {
  ids = λ n. ap some (ticks-unary n);
  instants = λ t. ap some (ticks-unary t);
  version = refl;
}

-- A record that the summary recalls.
recalled-Storable :
    (r : QueuedTaskRecord)
    → recalled (summary (object (record_mapping memory_of r))) ≡ some r
    → is_bindable (as_row r) ≡ true
    → Storable memory_of r
unfolding record_to_payload encode_payload record_mapping record_times iso
recalled-Storable r e fits =
    restored-Storable memory_of r (magic ++ summary (object (record_mapping memory_of r)))
      memory_of-IsFaithful restores refl fits
  where
    restores : Restores memory_of (record_mapping memory_of r)
    restores body written =
        ap (λ b. as_mapping (recalled (or_else b []))) (sym written) ∙ ap as_mapping e

pub waiting_task-Storable : Storable memory_of waiting_task
unfolding record_mapping record_times iso get_field as_row is_bindable
waiting_task-Storable = recalled-Storable waiting_task refl refl

pub started_task-Storable : Storable memory_of started_task
unfolding record_mapping record_times iso get_field as_row is_bindable
started_task-Storable = recalled-Storable started_task refl refl

pub completed_task-Storable : Storable memory_of completed_task
unfolding record_mapping record_times iso get_field as_row is_bindable
completed_task-Storable = recalled-Storable completed_task refl refl

pub expired_task-Storable : (at : ℕ) → Storable memory_of (expired_task at)
unfolding record_mapping record_times iso get_field as_row is_bindable
expired_task-Storable at =
    recalled-Storable (expired_task at) (ap (λ t. some (expired_task t)) (ticks-unary at)) refl

-- A state with one record.
pub one-AllStorable :
    (l : Library) (s : Memory) (r : QueuedTaskRecord)
    → s.records ≡ (1, r) ∷ []
    → Storable l r
    → AllStorable l s
unfolding get
one-AllStorable l s r e h i q found = elim (Bool-cases (1 == i)) [
  | inl same ↦ subst (λ o. Storable l (or_else o r)) (rw (e, same) at found) h
  | inr other ↦ absurd (cc (rw (e, other) at found))
]
