-- ===== src/Memory/Settle/Heartbeats.antt =====
-- `touch_heartbeats` follows the lifecycle of the records.
use litestar_queues.Base.{false, nat_eq, [], ◌∷◌, ℕ, List}
use litestar_queues.Models.{HeartbeatTouch, HeartbeatTouchResult}
use litestar_queues.Memory.State.{Memory, on_record}
use litestar_queues.Memory.Settle.{touch_record, touch_loop, touch_heartbeats}
use litestar_queues.Memory.Evolution.{
  Moves, Moves-refl, Moves-trans, Evolves, Evolves-refl, Evolves-trans, on_record-Evolves,
}
use litestar_queues.Memory.Lifecycle.{touch_record-Moves}

touch_loop-Evolves :
    (now : ℕ) (s : Memory) (ts : List HeartbeatTouch) (x : HeartbeatTouchResult)
    → Evolves Moves s.records (touch_loop now s ts x).0.records
unfolding touch_loop
touch_loop-Evolves now s [] x = Evolves-refl Moves Moves-refl s.records
touch_loop-Evolves now s (t ∷ ts) x =
    Evolves-trans s.records (on_record s t.task_id false (touch_record now t)).0.records _
      (λ u v w. Moves-trans)
      (on_record-Evolves Moves Moves-refl s t.task_id false (touch_record now t)
        (touch_record-Moves now t))
      (touch_loop-Evolves now (on_record s t.task_id false (touch_record now t)).0 ts _)

pub touch_heartbeats-Evolves :
    (s : Memory) (now : ℕ) (touches : List HeartbeatTouch)
    → Evolves Moves s.records (touch_heartbeats s now touches).0.records
unfolding touch_heartbeats
touch_heartbeats-Evolves s now touches = touch_loop-Evolves now s touches _
