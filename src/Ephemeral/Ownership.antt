-- ===== src/Ephemeral/Ownership.antt =====
-- `acquire_maintenance`, `release_maintenance`, `reserve_identity`, `has_identity` and `reset_identity`.
use litestar_queues.Base.{
  ℕ, ◌+◌, Bool, true, false, Option, none, some, String, get, insert, delete, nat_eq, string_eq,
  ◌==◌, if◌then◌else◌, some_and, none_or, ◌⊎◌,
}
use litestar_queues.Models.{TaskReservation}
use litestar_queues.Memory.Ownership.{is_held}
use litestar_queues.Ephemeral.Database.{Failure, done, EphemeralQueueBackend, transaction}

-- `INSERT OR REPLACE` keeps the row's primary key, and with it its place in the table.
unfoldable pub acquire_maintenance :
    EphemeralQueueBackend
    → ℕ
    → (name token : String) → (ttl : ℕ) → EphemeralQueueBackend × (Failure ⊎ Bool)
unfolding is_held transaction
acquire_maintenance b now name token ttl = transaction b λ d.
    if is_held now token (get name d.queue_maintenance)
    then done false d
    else done true
        (record d { queue_maintenance = insert name (token, now + ttl) d.queue_maintenance })

-- `DELETE … WHERE name = ? AND token = ?`, and whether it met a row.
unfoldable pub release_maintenance :
    EphemeralQueueBackend → (name token : String) → EphemeralQueueBackend × (Failure ⊎ Bool)
unfolding transaction
release_maintenance b name token = transaction b λ d.
    if some_and (get name d.queue_maintenance) (λ lease. lease.0 == token)
    then done true (record d { queue_maintenance = delete name d.queue_maintenance })
    else done false d

unfoldable pub reserve_identity :
    EphemeralQueueBackend
    → ℕ
    → (key : String) → (task_id : ℕ) → (task_name : String)
    → EphemeralQueueBackend × (Failure ⊎ Option TaskReservation)
unfolding transaction
reserve_identity b now key task_id task_name = transaction b λ d.
    elim (get key d.queue_reservation) [
      | some existing ↦ done (some existing) d
      | none ↦ done none (record d {
        queue_reservation =
            insert key
              (record { key = key; task_id = task_id; task_name = task_name; created_at = now })
              d.queue_reservation;
      })
    ]

unfoldable pub has_identity : EphemeralQueueBackend → String → Option TaskReservation
has_identity b key = get key b.database.queue_reservation

unfoldable pub reset_identity :
    EphemeralQueueBackend → String → Option ℕ → EphemeralQueueBackend × (Failure ⊎ Bool)
unfolding transaction
reset_identity b key expected = transaction b λ d.
    if some_and (get key d.queue_reservation)
      (λ owner. none_or expected (λ id. owner.task_id == id))
    then done true (record d { queue_reservation = delete key d.queue_reservation })
    else done false d
