-- ===== src/Ephemeral/Codec/RoundTrip.antt =====
-- A record survives its payload, and what is no payload of a record is refused.
use litestar_queues.Base.{
  ℕ, ◌≡◌, refl, sym, ap, true, false, Bool, Option, none, some, List, [], ◌∷◌, ◌++◌, String, Dict,
  nat_eq, ◌==◌, eq_self, all, All, &&-left, &&-right, some_and, pos, eq_of_beq, if◌then◌else◌, inl,
  inr, Option-cases, Bool-cases, or_else,
}
use litestar_queues.Models.{
  Value, null, boolean, integer, float, decimal, string, array, object, Fields, get_field,
  QueuedTaskRecord, TaskStatus, pending, scheduled, running, completed, failed, cancelled, expired,
}
use litestar_queues.Ephemeral.Codec.{
  Library, Decoded, record_fields, present, ◌>>=◌, decoded, unreadable, untyped, magic,
  schema_version, encode_payload, strip_prefix, decode_payload, to_items, from_items, to_fields,
  from_fields, iso, record_times, record_mapping, record_to_payload, parse_datetime, parse_item,
  is_record_mapping, record_of, record_from_payload, text_or_null, status_text, parse_status,
  as_text_or_none, as_mapping,
}

from_items-to_items : (vs : List Value) → from_items (to_items vs) ≡ vs
unfolding from_items to_items
from_items-to_items [] = refl
from_items-to_items (v ∷ vs) = ap (λ ws. v ∷ ws) (from_items-to_items vs)

pub from_fields-to_fields : (d : Dict String Value) → from_fields (to_fields d) ≡ d
unfolding from_fields to_fields
from_fields-to_fields [] = refl
from_fields-to_fields ((k, v) ∷ d) = ap (λ e. (k, v) ∷ e) (from_fields-to_fields d)

strip_prefix-append : (xs body : List ℕ) → strip_prefix xs (xs ++ body) ≡ some body
strip_prefix-append [] body = refl
strip_prefix-append (x ∷ xs) body = rw (eq_self x) (strip_prefix-append xs body)

parse_status-status_text : (s : TaskStatus) → parse_status (status_text s) ≡ decoded s
parse_status-status_text pending = refl
parse_status-status_text scheduled = refl
parse_status-status_text running = refl
parse_status-status_text completed = refl
parse_status-status_text failed = refl
parse_status-status_text cancelled = refl
parse_status-status_text expired = refl

-- What the library's texts of ids and instants are documented to do, and 5 == 5.
pub record IsFaithful (l : Library) : Type 0 where
  pub ids : (n : ℕ) → l.parse_uuid (l.uuid_text n) ≡ some n
  pub instants : (t : ℕ) → l.parse_iso (l.isoformat t) ≡ some t
  pub version : l.same schema_version schema_version ≡ true

-- The JSON library restores a mapping that it has encoded.
abbrev pub Restores : Library → Fields → Type 0
Restores l fields =
    (body : List ℕ)
    → l.encode_json (object fields) ≡ some body
    → l.decode_json body ≡ some (object fields)

parse_datetime-iso :
    (l : Library) (at : Option ℕ) → IsFaithful l → parse_datetime l (iso l at) ≡ decoded at
unfolding parse_datetime iso
parse_datetime-iso l none f = refl
parse_datetime-iso l (some t) f = rw (f.instants t) refl

as_text_or_none-text_or_null : (o : Option String) → as_text_or_none (text_or_null o) ≡ decoded o
as_text_or_none-text_or_null none = refl
as_text_or_none-text_or_null (some s) = refl

record_of-record_mapping :
    (l : Library) (r : QueuedTaskRecord)
    → IsFaithful l
    → record_of l (record_mapping l r) ≡ decoded r
unfolding record_of record_mapping record_times get_field parse_item
record_of-record_mapping l r f =
    rw
      (
        f.ids r.id,
        from_items-to_items r.args,
        from_fields-to_fields r.kwargs,
        from_fields-to_fields r.metadata,
        parse_datetime-iso l r.scheduled_at f,
        parse_datetime-iso l r.expires_at f,
        parse_datetime-iso l (some r.created_at) f,
        parse_datetime-iso l (some r.queued_at) f,
        parse_datetime-iso l r.started_at f,
        parse_datetime-iso l r.completed_at f,
        parse_datetime-iso l r.heartbeat_at f,
        parse_datetime-iso l r.dispatch_checked_at f,
        as_text_or_none-text_or_null r.execution_profile,
        as_text_or_none-text_or_null r.execution_ref,
        as_text_or_none-text_or_null r.worker_id,
        parse_status-status_text r.status,
        as_text_or_none-text_or_null r.error,
        as_text_or_none-text_or_null r.key,
      )
      refl

is_record_mapping-record_mapping :
    (l : Library) (r : QueuedTaskRecord)
    → IsFaithful l
    → is_record_mapping l (record_mapping l r) ≡ true
unfolding is_record_mapping record_mapping record_times get_field
is_record_mapping-record_mapping l r f = rw f.version refl

encode_payload-some :
    (l : Library) (v : Value) (payload : List ℕ)
    → encode_payload l v ≡ some payload
    → (body : List ℕ) × (l.encode_json v ≡ some body) × (payload ≡ magic ++ body)
unfolding encode_payload
encode_payload-some l v payload e = elim (Option-cases (l.encode_json v)) [
  | inl none_ ↦ absurd (cc (rw (none_, encode_payload) at e))
  | inr (body, same) ↦ (body, same, sym (some-payload body (rw (same, encode_payload) at e)))
]
  where
    some-payload : (body : List ℕ) → some (magic ++ body) ≡ some payload → (magic ++ body) ≡ payload
    some-payload body e = ap (λ (o : Option (List ℕ)). or_else o []) e

decode_payload-magic :
    (l : Library) (body : List ℕ) (fields : Fields)
    → l.decode_json body ≡ some (object fields)
    → decode_payload l (magic ++ body) ≡ decoded fields
unfolding decode_payload
decode_payload-magic l body fields e = rw e refl

-- A record is decoded from its own payload, whatever its fields hold, if the texts of ids and instants
-- are read back as they were written and the JSON library restores the record's mapping.
pub record_from_payload-record_to_payload :
    (l : Library) (r : QueuedTaskRecord) (payload : List ℕ)
    → IsFaithful l
    → Restores l (record_mapping l r)
    → record_to_payload l r ≡ some payload
    → record_from_payload l payload ≡ decoded r
unfolding record_to_payload record_from_payload
record_from_payload-record_to_payload l r payload f restores e =
    let (body, written, split) = encode_payload-some l (object (record_mapping l r)) payload e in
    rw
      (
        split,
        decode_payload-magic l body (record_mapping l r) (restores body written),
        is_record_mapping-record_mapping l r f,
      )
      (record_of-record_mapping l r f)

strip_prefix-some :
    (xs payload body : List ℕ) → strip_prefix xs payload ≡ some body → payload ≡ xs ++ body
strip_prefix-some [] payload body e = ap (λ (o : Option (List ℕ)). or_else o []) e
strip_prefix-some (x ∷ xs) [] body e = absurd (cc e)
strip_prefix-some (x ∷ xs) (y ∷ payload) body e = elim (Bool-cases (x == y)) [
  | inl same ↦
      rw (← eq_of_beq x y same)
        (ap (λ rest. x ∷ rest) (strip_prefix-some xs payload body (rw same at e)))
  | inr other ↦ absurd (cc (rw other at e))
]

as_mapping-decoded :
    (o : Option Value) (fields : Fields) → as_mapping o ≡ decoded fields → o ≡ some (object fields)
as_mapping-decoded none fields e = absurd (cc e)
as_mapping-decoded (some null) fields e = absurd (cc e)
as_mapping-decoded (some (boolean b)) fields e = absurd (cc e)
as_mapping-decoded (some (integer n)) fields e = absurd (cc e)
as_mapping-decoded (some (float x)) fields e = absurd (cc e)
as_mapping-decoded (some (decimal c k)) fields e = absurd (cc e)
as_mapping-decoded (some (string s)) fields e = absurd (cc e)
as_mapping-decoded (some (array xs)) fields e = absurd (cc e)
as_mapping-decoded (some (object fs)) fields e = cc e

checked :
    (l : Library) (fields : Fields) (r : QueuedTaskRecord) (c : Bool)
    → (if c then record_of l fields else unreadable) ≡ decoded r
    → c ≡ true
checked l fields r true e = refl
checked l fields r false e = absurd (cc e)

mapping_of :
    (l : Library) (payload : List ℕ) (r : QueuedTaskRecord)
    → record_from_payload l payload ≡ decoded r
    → (body : List ℕ) × (fields : Fields) × (payload ≡ magic ++ body)
      × (l.decode_json body ≡ some (object fields))
      × (is_record_mapping l fields ≡ true)
unfolding record_from_payload decode_payload
mapping_of l payload r e = elim (Option-cases (strip_prefix magic payload)) [
  | inl other ↦ absurd (cc (rw (other, record_from_payload, decode_payload) at e))
  | inr (body, split) ↦
      from_body body split (as_mapping (l.decode_json body)) refl
        (rw (split, record_from_payload, decode_payload) at e)
]
  where
    from_body :
        (body : List ℕ)
        → strip_prefix magic payload ≡ some body
        → (m : Decoded Fields) → as_mapping (l.decode_json body) ≡ m
        → (m >>= λ fields. if is_record_mapping l fields then record_of l fields else unreadable)
          ≡ decoded r
        → (body : List ℕ) × (fields : Fields) × (payload ≡ magic ++ body)
          × (l.decode_json body ≡ some (object fields))
          × (is_record_mapping l fields ≡ true)
    from_body body split (decoded fields) m e = (
      body,
      fields,
      strip_prefix-some magic payload body split,
      as_mapping-decoded (l.decode_json body) fields m,
      checked l fields r (is_record_mapping l fields) e,
    )
    from_body body split unreadable m e = absurd (cc e)
    from_body body split untyped m e = absurd (cc e)

all-All : {A : Type 0} (p : A → Bool) (xs : List A) → all p xs ≡ true → All (λ x. p x ≡ true) xs
all-All p [] e = tt
all-All p (x ∷ xs) e = (&&-left (p x) (all p xs) e, all-All p xs (&&-right (p x) (all p xs) e))

versioned :
    (l : Library) (o : Option Value)
    → some_and o (λ v. l.same v schema_version) ≡ true
    → (v : Value) × (o ≡ some v) × (l.same v schema_version ≡ true)
versioned l none e = absurd (cc e)
versioned l (some v) e = (v, refl, e)

-- If a payload is decoded to a record, it starts with the magic bytes, and the rest is the JSON text of a
-- mapping whose schema version equals the present one and which has a value under the name of each of the
-- record's fields.
pub record_from_payload_checks :
    (l : Library) (payload : List ℕ) (r : QueuedTaskRecord)
    → record_from_payload l payload ≡ decoded r
    → (body : List ℕ) × (fields : Fields) × (version : Value) × (payload ≡ magic ++ body)
      × (l.decode_json body ≡ some (object fields))
      × (get_field "schema_version" fields ≡ some version)
      × (l.same version (integer (pos 5)) ≡ true)
      × All (λ name. some_and (get_field name fields) (λ _. true) ≡ true) record_fields
unfolding is_record_mapping
record_from_payload_checks l payload r e =
    let (body, fields, split, read, checks) = mapping_of l payload r e in
    let tested = some_and (get_field "schema_version" fields) (λ v. l.same v schema_version) in
    let (version, found, same) =
      versioned l (get_field "schema_version" fields)
        (&&-left tested (all (present fields) record_fields) checks) in
    (
      body,
      fields,
      version,
      split,
      read,
      found,
      same,
      all-All (present fields) record_fields
          (&&-right tested (all (present fields) record_fields) checks),
    )
