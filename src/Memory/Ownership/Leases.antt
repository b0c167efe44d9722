-- ===== src/Memory/Ownership/Leases.antt =====
-- Maintenance leases exclude other tokens until they expire, and permanent identities have one owner.
use litestar_queues.Base.{
  ℕ, ◌+◌, ◌<◌, ◌≡◌, ◌≢◌, refl, true, false, none, some, String, arith, string_eq, nat_eq, get,
  get-insert_self, beq_of_ne, Bool-cases, Option-cases, inl, inr, eq_self,
}
use litestar_queues.Models.{TaskReservation}
use litestar_queues.Memory.State.{Memory}
use litestar_queues.Memory.Ownership.{
  is_held, acquire_maintenance, release_maintenance, reserve_identity, reset_identity,
}

acquired :
    (s : Memory) (now : ℕ) (name token : String) (ttl : ℕ)
    → (acquire_maintenance s now name token ttl).1 ≡ true
    → get name (acquire_maintenance s now name token ttl).0.maintenances ≡ some (token, now + ttl)
unfolding acquire_maintenance
acquired s now name token ttl h = elim (Bool-cases (is_held now token (get name s.maintenances))) [
  | inl held ↦ cc (rw held at h)
  | inr free ↦ rw free (get-insert_self name (token, now + ttl) s.maintenances)
]

held_refuses :
    (s : Memory) (name token other : String) (until later ttl : ℕ)
    → get name s.maintenances ≡ some (token, until)
    → token ≢ other
    → later < until
    → (acquire_maintenance s later name other ttl ≡ (s, false))
      × (release_maintenance s name other ≡ (s, false))
unfolding acquire_maintenance release_maintenance is_held
held_refuses s name token other until later ttl h ne lt = (
  rw (h, is_held) (ground (arith, beq_of_ne token other ne)),
  rw h (ground (arith, beq_of_ne token other ne)),
)

-- A token that has acquired a maintenance lease excludes every other token until the lease runs out: the
-- other's acquisition and its release are refused, and change nothing.
pub acquire_maintenance_exclusive :
    (s : Memory) (now later ttl ttl' : ℕ) (name token other : String)
    → (acquire_maintenance s now name token ttl).1 ≡ true
    → token ≢ other
    → later < now + ttl
    → let t = (acquire_maintenance s now name token ttl).0 in
      (acquire_maintenance t later name other ttl' ≡ (t, false))
      × (release_maintenance t name other ≡ (t, false))
acquire_maintenance_exclusive s now later ttl ttl' name token other h ne lt =
    held_refuses (acquire_maintenance s now name token ttl).0 name token other (now + ttl) later
      ttl' (acquired s now name token ttl h) ne lt

reserved :
    (s : Memory) (now : ℕ) (key : String) (id : ℕ) (name : String)
    → (reserve_identity s now key id name).1 ≡ none
    → get key (reserve_identity s now key id name).0.reservations
      ≡ some (record { key = key; task_id = id; task_name = name; created_at = now })
unfolding reserve_identity
reserved s now key id name h = elim (Option-cases (get key s.reservations)) [
  | inl free ↦ rw (free, reserve_identity) (get-insert_self key _ s.reservations)
  | inr (x, taken) ↦ cc (rw (taken, reserve_identity) at h)
]

owner_refuses :
    (s : Memory) (key : String) (x : TaskReservation) (later other : ℕ) (name : String)
    → get key s.reservations ≡ some x
    → x.task_id ≢ other
    → (reserve_identity s later key other name ≡ (s, some x))
      × (reset_identity s key (some other) ≡ (s, false))
      × ((reset_identity s key (some x.task_id)).1 ≡ true)
unfolding reserve_identity reset_identity
owner_refuses s key x later other name h ne = (
  rw (h, reserve_identity) refl,
  rw (h, reset_identity) (rw (beq_of_ne x.task_id other ne) refl),
  rw (h, reset_identity) (rw (eq_self x.task_id) refl),
)

-- Exactly one task owns a permanent identity: when one reservation has won, a later one by another task is
-- answered with the winner and changes nothing, a reset on behalf of another task is refused, and a reset on
-- behalf of the owner succeeds.
pub reserve_identity_exclusive :
    (s : Memory) (now later : ℕ) (key : String) (id other : ℕ) (name name' : String)
    → (reserve_identity s now key id name).1 ≡ none
    → id ≢ other
    → let t = (reserve_identity s now key id name).0 in
      (reserve_identity t later key other name'
        ≡ (t, some (record { key = key; task_id = id; task_name = name; created_at = now })))
      × (reset_identity t key (some other) ≡ (t, false))
      × ((reset_identity t key (some id)).1 ≡ true)
reserve_identity_exclusive s now later key id other name name' h ne =
    owner_refuses (reserve_identity s now key id name).0 key _ later other name'
      (reserved s now key id name h) ne
