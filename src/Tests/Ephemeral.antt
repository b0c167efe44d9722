-- ===== src/Tests/Ephemeral.antt =====
-- The ephemeral backend with a task that is enqueued, claimed and settled.
use litestar_queues.Base.{
  ℕ, ◌+◌, ◌≡◌, refl, false, Bool, none, some, [], ◌∷◌, List, get, insert, map, inl, inr, pos,
  length, arith, nat_eq,
}
use litestar_queues.Models.{null, QueuedTaskRecord}
use litestar_queues.Backend.{preserve}
use litestar_queues.Memory.State.{new_memory, expire_record, on_record}
use litestar_queues.Memory.Calls.{perform}
use litestar_queues.Memory.Claim.{claim_task_with_expired}
use litestar_queues.Memory.Settle.{complete_task}
use litestar_queues.Memory.Enqueue.{enqueue}
use litestar_queues.Memory.Enqueue as MemoryEnqueue
use litestar_queues.Ephemeral.Database.{
  EphemeralQueueBackend, new_backend, new_database, recursion_error, as_row,
}
use litestar_queues.Ephemeral.Enqueue.{get_task}
use litestar_queues.Ephemeral.Batch.{claim_many}
use litestar_queues.Ephemeral.Batch.Limits.{NoneStarted, claim_many_with_limits_recurses}
use litestar_queues.Ephemeral.Recovery.{requeue_stale_running, stale_records}
use litestar_queues.Ephemeral.Recovery.Reports.{Settled, requeue_stale_running_settles}
use litestar_queues.Ephemeral.Queries.{Round, wait_for_wakeups}
use litestar_queues.Ephemeral.Queries.Polling.{wait_for_wakeups_ends}
use litestar_queues.Ephemeral.Calls.{
  TaskCall, as_call, enqueues, claims, completes, run_memory, run_ephemeral,
}
use litestar_queues.Ephemeral.Calls.Refinement.{ephemeral-refines-memory, StorableRun}
use litestar_queues.Tests.Data.{setting, request, whole_floats, waiting_task}
use litestar_queues.Tests.Serializer.{
  memory_of, started_task, completed_task, waiting_task-Storable, started_task-Storable,
  completed_task-Storable, expired_task-Storable, one-AllStorable,
}

abbrev enqueueing : TaskCall
enqueueing = enqueues request none 1 100 100 100

abbrev claiming : TaskCall
claiming = claims 1 200 200 none none

abbrev working : List TaskCall
working = enqueueing ∷ claiming ∷ completes 1 300 null 0 ∷ []

abbrev file_with : QueuedTaskRecord → EphemeralQueueBackend
file_with r = record {
  database = record {
    library = memory_of;
    queue_task = (1, as_row r) ∷ [];
    queue_reservation = [];
    queue_maintenance = [];
  };
  notification_event = false;
}

abbrev waiting_file : EphemeralQueueBackend
waiting_file = file_with waiting_task

abbrev running_file : EphemeralQueueBackend
running_file = file_with started_task

working-Storable : StorableRun memory_of setting working new_memory
unfolding new_memory get enqueue claim_task_with_expired complete_task on_record insert
working-Storable = (
  one-AllStorable memory_of (perform setting (as_call enqueueing) new_memory) waiting_task refl
      waiting_task-Storable,
  (
    one-AllStorable memory_of (run_memory setting (enqueueing ∷ claiming ∷ []) new_memory).0
        started_task refl started_task-Storable,
    (
      one-AllStorable memory_of (run_memory setting working new_memory).0 completed_task refl
          completed_task-Storable,
      tt,
    ),
  ),
)

ephemeral-refines-memory_example :
    ((run_ephemeral setting working (new_backend memory_of)).1
      ≡ map inr (run_memory setting working new_memory).1)
    × ((i : ℕ)
        → get_task (run_ephemeral setting working (new_backend memory_of)).0 i
          ≡ MemoryEnqueue.get_task (run_memory setting working new_memory).0 i)
unfolding new_memory get
ephemeral-refines-memory_example =
    ephemeral-refines-memory memory_of setting working (refl, (tt, (tt, tt))) working-Storable

claim_many_with_limits_recurses_example :
    ((claim_many 3 waiting_file (λ _. (200, 200, 200)) 5 [] none (some (("mail", pos 1) ∷ []))).1
      ≡ inl recursion_error)
    × NoneStarted waiting_file.database
        (claim_many 3 waiting_file
          (λ _. (200, 200, 200))
          5
          []
          none
          (some (("mail", pos 1) ∷ []))).0.database
unfolding expire_record as_row
claim_many_with_limits_recurses_example =
    claim_many_with_limits_recurses (λ _. (200, 200, 200)) 5 [] none (("mail", pos 1) ∷ []) 3
      waiting_file (expired_task-Storable, tt)

requeue_stale_running_settles_example :
    Settled running_file
      (length (stale_records 900 100 none running_file.database))
      (requeue_stale_running running_file whole_floats preserve 900 100 none)
requeue_stale_running_settles_example =
    requeue_stale_running_settles running_file whole_floats preserve 900 100 none

abbrev quiet_round : ℕ → Round
quiet_round i = record { file = new_database memory_of; now = 200; is_set = false; time = 10 + i }

wait_for_wakeups_ends_example :
    (answer : Bool) × ((wait_for_wakeups (new_backend memory_of) 10 (some 5) quiet_round 6).1
      ≡ some answer)
wait_for_wakeups_ends_example =
    wait_for_wakeups_ends (new_backend memory_of) 10 5 quiet_round (λ j. omega arith) (omega arith)
