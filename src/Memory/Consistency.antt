-- ===== src/Memory/Consistency.antt =====
-- The invariant of the store: no double keys, each record under its own id, and every unfinished record
-- with a deduplication key is the one that the key's entry names.
use litestar_queues.Base.{
  ℕ, ◌≡◌, refl, sym, ap, ◌∙◌, subst, false, Option, none, some, String, Dict, arith, Bool-cases,
  inl, inr, get, insert, get-insert, nat_eq, string_eq, ◌==◌, eq_of_beq, ne_of_beq, Apart,
  insert-Apart, option_eq,
}
use litestar_queues.Models.{QueuedTaskRecord, is_terminal, is_terminal_status}
use litestar_queues.Memory.State.{Memory, new_memory}
use litestar_queues.Memory.Enqueue.{store, active_by_key, get_task_by_key, claim_key}
use litestar_queues.Memory.Evolution.{Moves, Evolves, Related}

abbrev pub Owned : Dict ℕ QueuedTaskRecord → Dict String ℕ → Type 0
Owned records keys =
    (i : ℕ) (r : QueuedTaskRecord) (k : String)
    → get i records ≡ some r
    → r.key ≡ some k
    → is_terminal r ≡ false
    → get k keys ≡ some i

abbrev pub OwnIds : Dict ℕ QueuedTaskRecord → Type 0
OwnIds records = (i : ℕ) (r : QueuedTaskRecord) → get i records ≡ some r → r.id ≡ i

pub record IsConsistent (s : Memory) : Type 0 where
  pub apart : Apart s.records
  pub ids : OwnIds s.records
  pub owned : Owned s.records s.keys

pub new_memory-IsConsistent : IsConsistent new_memory
unfolding new_memory get
new_memory-IsConsistent = record { apart = tt; ids = λ i r h. cc; owned = λ i r k h. cc }

-- At most one unfinished record has a given deduplication key.
pub active_unique :
    (s : Memory) (i j : ℕ) (r q : QueuedTaskRecord) (k : String)
    → IsConsistent s
    → get i s.records ≡ some r
    → get j s.records ≡ some q
    → r.key ≡ some k
    → q.key ≡ some k
    → is_terminal r ≡ false
    → is_terminal q ≡ false
    → i ≡ j
active_unique s i j r q k c hi hj ri qj ar aq = cc (c.owned i r k hi ri ar, c.owned j q k hj qj aq)

Related-some :
    (R : QueuedTaskRecord → QueuedTaskRecord → Type 0) (a : Option QueuedTaskRecord)
    (r' : QueuedTaskRecord)
    → Related R a (some r')
    → (r : QueuedTaskRecord) × (a ≡ some r) × R r r'
Related-some R none r' h = absurd h
Related-some R (some r) r' h = (r, refl, h)

-- Where each record moved along its lifecycle, the records and their owners stay in order.
pub Evolves-IsConsistent :
    (s t : Memory)
    → Evolves Moves s.records t.records
    → Apart t.records
    → t.keys ≡ s.keys
    → IsConsistent s
    → IsConsistent t
Evolves-IsConsistent s t f a e c = record {
  apart = a;
  ids = λ i r' h. let (r, here, m) = before i r' h in m.id ∙ c.ids i r here;
  owned = λ i r' k h hk live.
      let (r, here, m) = before i r' h in
      rw e (c.owned i r k here (sym m.key ∙ hk) (alive r r' m live));
}
  where
    before :
        (i : ℕ) (r' : QueuedTaskRecord)
        → get i t.records ≡ some r'
        → (r : QueuedTaskRecord) × (get i s.records ≡ some r) × Moves r r'
    before i r' h =
        Related-some Moves (get i s.records) r' (subst (Related Moves (get i s.records)) h (f i))

    alive : (r r' : QueuedTaskRecord) → Moves r r' → is_terminal r' ≡ false → is_terminal r ≡ false
    alive r r' m live = elim (Bool-cases (is_terminal r)) [
      | inl done ↦ ap is_terminal_status (sym (m.frozen done)) ∙ live
      | inr fine ↦ fine
    ]

claim_key-owned :
    (records : Dict ℕ QueuedTaskRecord) (keys : Dict String ℕ) (id i : ℕ) (key : Option String)
    (k : String)
    → (key ≡ some k → ⊥)
    → get k keys ≡ some i
    → get k (claim_key key id keys) ≡ some i
claim_key-owned records keys id i none k h g = g
claim_key-owned records keys id i (some j) k h g = elim (Bool-cases (j == k)) [
  | inl same ↦ absurd (h (ap some (eq_of_beq j k same)))
  | inr other ↦ rw (get-insert j k id keys, other) g
]

claim_key_self :
    (keys : Dict String ℕ) (id : ℕ) (key : Option String) (k : String)
    → key ≡ some k
    → get k (claim_key key id keys) ≡ some id
claim_key_self keys id none k h = cc
claim_key_self keys id (some j) k h = elim (Bool-cases (j == k)) [
  | inl same ↦ rw (get-insert j k id keys, same)
  | inr other ↦ absurd (ne_of_beq j k other (ground arith))
]

-- A record that holds the key and is not finished is what `active_by_key` finds.
pub active_by_key-some :
    (s : Memory) (i : ℕ) (r : QueuedTaskRecord) (key : Option String) (k : String)
    → key ≡ some k
    → get k s.keys ≡ some i
    → get i s.records ≡ some r
    → is_terminal r ≡ false
    → active_by_key s key ≡ some r
unfolding active_by_key get_task_by_key
active_by_key-some s i r none k h g here live = cc
active_by_key-some s i r (some j) k h g here live =
    ground (arith, ap (λ (x : String). get x s.keys) (some_inj j k h))
  where
    some_inj : (j k : String) → ◌≡◌ {A = Option String} (some j) (some k) → j ≡ k
    some_inj j k e = cc

-- Storing a record whose key nobody unfinished holds keeps the store in order.
pub store-IsConsistent :
    (s : Memory) (r : QueuedTaskRecord)
    → active_by_key s r.key ≡ none
    → IsConsistent s
    → IsConsistent (store r s)
unfolding store
store-IsConsistent s r vacant c = record {
  apart = insert-Apart r.id r s.records c.apart;
  ids = ids;
  owned = owned;
}
  where
    ids : OwnIds (insert r.id r s.records)
    ids i q h = elim (Bool-cases (r.id == i)) [
      | inl same ↦ ground (arith, get-insert r.id i r s.records, eq_of_beq r.id i same, same)
      | inr other ↦ c.ids i q (rw (get-insert r.id i r s.records, other) at h)
    ]

    owned : Owned (insert r.id r s.records) (claim_key r.key r.id s.keys)
    owned i q k h hk live = elim (Bool-cases (r.id == i)) [
      | inl same ↦ rw (← eq_of_beq r.id i same) (
          claim_key_self s.keys r.id r.key k
            (ground (arith, get-insert r.id i r s.records, same, hk)))
      | inr other ↦
          let here = rw (get-insert r.id i r s.records, other) at h in
          claim_key-owned s.records s.keys r.id i r.key k
            (λ e.
              cc
                (vacant, active_by_key-some s i q r.key k e (c.owned i q k here hk live) here live))
            (c.owned i q k here hk live)
    ]
