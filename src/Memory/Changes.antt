-- ===== src/Memory/Changes.antt =====
-- What every call that creates and deletes no record has in common: the records move along their
-- lifecycle, the store keeps its shape, and the keys stay.
use litestar_queues.Memory.Shape.{on_record-keys, on_record-Apart}
use litestar_queues.Base.{◌⊎◌, ℕ, ◌≡◌, true, Option, none, some, Apart, inl, inr, nat_eq, arith}
use litestar_queues.Models.{QueuedTaskRecord}
use litestar_queues.Memory.State.{Memory, Effect, on_record, notify_new_task}
use litestar_queues.Memory.Evolution.{Moves, Moves-refl, Evolves, Does, on_record-Evolves}
use litestar_queues.Memory.Dispatch.{notify_result}
use litestar_queues.Memory.Consistency.{IsConsistent, Evolves-IsConsistent}

pub record Changes (s t : Memory) : Type 0 where
  pub moves : Evolves Moves s.records t.records
  pub apart : Apart t.records
  pub keys : t.keys ≡ s.keys

pub Changes-IsConsistent : {s t : Memory} → Changes s t → IsConsistent s → IsConsistent t
Changes-IsConsistent {s} {t} x c = Evolves-IsConsistent s t x.moves x.apart x.keys c

-- A method whose effect on the looked-up record follows the lifecycle.
pub on_record-Changes :
    {A : Type 0} (s : Memory) (k : ℕ) (missing : A) (body : QueuedTaskRecord → Effect A)
    → Apart s.records
    → ((r : QueuedTaskRecord) → Does Moves r (body r))
    → Changes s (on_record s k missing body).0
on_record-Changes s k missing body a h = record {
  moves = on_record-Evolves Moves Moves-refl s k missing body h;
  apart = on_record-Apart s k missing body a;
  keys = on_record-keys s k missing body;
}

-- A wakeup on top.
pub notify_result-Changes :
    (s : Memory) (seen : ℕ) (x : Memory × Option QueuedTaskRecord)
    → Changes s x.0
    → Changes s (notify_result seen x).0
unfolding notify_new_task
notify_result-Changes s seen (t, none) c = c
notify_result-Changes s seen (t, some r) c = elim (notify_case seen r t) [
  | inl e ↦ rw e c
  | inr e ↦ rw e (record { moves = c.moves; apart = c.apart; keys = c.keys })
]
  where
    notify_case :
        (seen : ℕ) (r : QueuedTaskRecord) (t : Memory)
        → (notify_new_task seen r t ≡ t)
          ⊎ (notify_new_task seen r t ≡ record t { notification_event = true })
    notify_case seen r t = ground arith
