-- ===== src/Memory/Queries/Statistics.antt =====
-- The statistics count each record once.
use litestar_queues.Base.{
  ◌+◌, ◌≡◌, Bool, Option, String, List, [], ◌∷◌, arith, length, select, map, none_or, ◌==◌,
  string_eq,
}
use litestar_queues.Models.{QueuedTaskRecord, QueueStatistics, TaskStatus, total}
use litestar_queues.Memory.State.{Memory}
use litestar_queues.Memory.Queries.{bump, statistics_loop, get_statistics}

abbrev in_queue : Option String → QueuedTaskRecord → Bool
in_queue queue r = none_or queue (λ name. r.queue == name)

total-bump : (t : TaskStatus) (x : QueueStatistics) → total (bump t x) ≡ total x + 1
unfolding total bump
total-bump t x = ground arith

total-statistics_loop :
    (queue : Option String) (rs : List QueuedTaskRecord) (x : QueueStatistics)
    → total (statistics_loop queue rs x) ≡ total x + length (select (in_queue queue) rs)
unfolding statistics_loop
total-statistics_loop queue [] x = omega arith
total-statistics_loop queue (r ∷ rs) x = ground (
  arith,
  total-statistics_loop queue rs x,
  total-statistics_loop queue rs (bump r.status x),
  total-bump r.status x,
)

-- The total of the statistics is the number of records in the queue that is asked for, of all records if none
-- is.
pub get_statistics_total :
    (s : Memory) (queue : Option String)
    → total (get_statistics s queue)
      ≡ length (select (λ r. none_or queue (λ name. r.queue == name)) (map (λ kv. kv.1) s.records))
unfolding get_statistics total
get_statistics_total s queue =
    omega (arith, total-statistics_loop queue (map (λ kv. kv.1) s.records) _)
