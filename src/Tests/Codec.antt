-- ===== src/Tests/Codec.antt =====
-- A serializer that knows one mapping, with unary texts for ids and instants.
use litestar_queues.Base.{
  ℕ, ◌≡◌, refl, ap, true, none, some, List, [], ◌∷◌, ◌++◌, Bool, false, pos, ◌==◌, nat_eq, All,
  some_and,
}
use litestar_queues.Models.{Value, integer, object, Fields, get_field}
use litestar_queues.Ephemeral.Codec.{
  Library, decoded, magic, record_fields, record_mapping, record_times, iso, record_to_payload,
  encode_payload, record_from_payload,
}
use litestar_queues.Ephemeral.Codec.RoundTrip.{
  IsFaithful, Restores, record_from_payload-record_to_payload, record_from_payload_checks,
}
use litestar_queues.Tests.Data.{waiting_task}
use litestar_queues.Tests.Texts.{unary, ticks, ticks-unary}

abbrev same_integer : Value → Value → Bool
same_integer (integer (pos m)) (integer (pos n)) = m == n
same_integer _ _ = false

-- The texts, with a JSON library that encodes everything alike and decodes nothing.
abbrev pub texts : Library
texts = record {
  encode_json = λ v. some (0 ∷ []);
  decode_json = λ body. none;
  uuid_text = unary;
  parse_uuid = λ s. some (ticks s);
  isoformat = unary;
  parse_iso = λ s. some (ticks s);
  str = λ v. "";
  same = same_integer;
}

-- The one mapping that it knows.
abbrev known : Library
known = record texts { decode_json = λ body. some (object (record_mapping texts waiting_task)) }

known-IsFaithful : IsFaithful known
known-IsFaithful = record {
  ids = λ n. ap some (ticks-unary n);
  instants = λ t. ap some (ticks-unary t);
  version = refl;
}

known-Restores : Restores known (record_mapping known waiting_task)
unfolding record_mapping record_times iso
known-Restores body e = refl

written : record_to_payload known waiting_task ≡ some (magic ++ 0 ∷ [])
unfolding record_to_payload encode_payload
written = refl

record_from_payload-record_to_payload_example :
    record_from_payload known (magic ++ 0 ∷ []) ≡ decoded waiting_task
record_from_payload-record_to_payload_example =
    record_from_payload-record_to_payload known waiting_task (magic ++ 0 ∷ []) known-IsFaithful
      known-Restores written

record_from_payload_checks_example :
    (body : List ℕ) × (fields : Fields) × (version : Value) × ((magic ++ 0 ∷ []) ≡ magic ++ body)
    × (known.decode_json body ≡ some (object fields))
    × (get_field "schema_version" fields ≡ some version)
    × (known.same version (integer (pos 5)) ≡ true)
    × All (λ name. some_and (get_field name fields) (λ _. true) ≡ true) record_fields
record_from_payload_checks_example =
    record_from_payload_checks known (magic ++ 0 ∷ []) waiting_task
      record_from_payload-record_to_payload_example
