-- ===== src/Memory/Ownership.antt =====
-- Maintenance leases and the permanent identities: `acquire_maintenance`, `release_maintenance`,
-- `reserve_identity`, `has_identity` and `reset_identity`.
pub mod Leases
use litestar_queues.Base.{
  ℕ, ◌+◌, Bool, true, false, not, Option, none, some, String, ◌&&◌, ◌||◌, Dict, get, insert, delete,
  nat_eq, string_eq, ◌==◌, if◌then◌else◌, some_and, ltb,
}
use litestar_queues.Models.{TaskReservation}
use litestar_queues.Memory.State.{Memory}

-- Whether another token holds the lease at `now`.
unfoldable pub is_held : ℕ → String → Option (String × ℕ) → Bool
is_held now token existing = some_and existing (λ lease. ltb now lease.1 && not (lease.0 == token))

unfoldable pub acquire_maintenance : Memory → ℕ → (name token : String) → (ttl : ℕ) → Memory × Bool
unfolding is_held
acquire_maintenance s now name token ttl =
    if is_held now token (get name s.maintenances)
    then (s, false)
    else (record s { maintenances = insert name (token, now + ttl) s.maintenances }, true)

unfoldable pub release_maintenance : Memory → (name token : String) → Memory × Bool
release_maintenance s name token =
    if some_and (get name s.maintenances) (λ lease. lease.0 == token)
    then (record s { maintenances = delete name s.maintenances }, true)
    else (s, false)

unfoldable pub reserve_identity :
    Memory
    → ℕ
    → (key : String) → (task_id : ℕ) → (task_name : String) → Memory × Option TaskReservation
reserve_identity s now key task_id task_name = elim (get key s.reservations) [
  | some existing ↦ (s, some existing)
  | none ↦ (
    record s {
      reservations =
          insert key
            (record { key = key; task_id = task_id; task_name = task_name; created_at = now })
            s.reservations;
    },
    none,
  )
]

unfoldable pub has_identity : Memory → String → Option TaskReservation
has_identity s key = get key s.reservations

unfoldable pub reset_identity : Memory → String → Option ℕ → Memory × Bool
reset_identity s key expected = elim (get key s.reservations) [
  | none ↦ (s, false)
  | some owner ↦
      if some_and expected (λ id. not (owner.task_id == id))
      then (s, false)
      else (record s { reservations = delete key s.reservations }, true)
]
