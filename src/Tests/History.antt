-- ===== src/Tests/History.antt =====
-- Histories of calls: a task is enqueued, claimed, and settled or taken away.
use litestar_queues.Base.{
  ℕ, ◌≡◌, refl, true, Option, none, some, [], ◌∷◌, get, insert, nat_eq, string_eq, option_eq,
}
use litestar_queues.Models.{null, QueuedTaskRecord, TaskStatus, is_due, is_expired}
use litestar_queues.Backend.{is_external_dispatch_reservation}
use litestar_queues.Memory.State.{new_memory, on_record, expire_record, notify_new_task}
use litestar_queues.Memory.Enqueue.{
  get_task, enqueue, active_by_key, get_task_by_key, initial_status, new_record, store,
}
use litestar_queues.Memory.Claim.{claim_task_with_expired, claim_record, is_claimable, start}
use litestar_queues.Memory.Settle.{
  is_fenced_off, cancel_task, cancel_record, cancelled_record, is_cancellable, complete_task,
  complete_record,
}
use litestar_queues.Memory.Consistency.{IsConsistent, new_memory-IsConsistent}
use litestar_queues.Memory.Calls.{cancels, perform, run}
use litestar_queues.Memory.History.{history_active_unique, run-IsConsistent, perform-Changes}
use litestar_queues.Memory.Changes.{Changes}
use litestar_queues.Memory.Fences.{completing, settle}
use litestar_queues.Memory.Fences.Once.{settled_at_most_once, lost_attempt_refused}
use litestar_queues.Tests.Data.{setting, running_task, enqueueing, claiming, busy}

busy-IsConsistent : IsConsistent busy
busy-IsConsistent =
    run-IsConsistent setting (enqueueing ∷ claiming ∷ []) new_memory (tt, (tt, tt))
      new_memory-IsConsistent

history_active_unique_example : ◌≡◌ {A = ℕ} 1 1
unfolding get_task enqueue active_by_key get_task_by_key initial_status new_record store
    notify_new_task is_due claim_task_with_expired claim_record is_claimable start expire_record
    is_expired is_external_dispatch_reservation on_record get insert new_memory
history_active_unique_example =
    history_active_unique setting (enqueueing ∷ claiming ∷ []) 1 1 running_task running_task
      "welcome" (tt, (tt, tt)) refl refl refl refl refl refl

abbrev completed_task : QueuedTaskRecord
completed_task = record running_task {
  status = TaskStatus.completed;
  completed_at = some 300;
  heartbeat_at = none;
}

settled_at_most_once_example :
    settle setting
      (completing 500 null)
      (run setting (cancels 1 400 true none ∷ []) (settle setting (completing 300 null) busy 1 0).0)
      1
      0
    ≡ (
      run setting (cancels 1 400 true none ∷ []) (settle setting (completing 300 null) busy 1 0).0,
      none,
    )
unfolding get_task enqueue active_by_key get_task_by_key initial_status new_record store
    notify_new_task is_due claim_task_with_expired claim_record is_claimable start expire_record
    is_expired is_external_dispatch_reservation on_record get insert complete_task complete_record
    is_fenced_off new_memory
settled_at_most_once_example =
    settled_at_most_once setting (completing 300 null) (completing 500 null) busy 1 0 completed_task
      (cancels 1 400 true none ∷ []) busy-IsConsistent refl (tt, tt) (tt, tt)

carried :
    (q r' : QueuedTaskRecord)
    → ◌≡◌ {A = Option QueuedTaskRecord} (some q) (some r')
    → is_fenced_off (some 0) q ≡ true
    → is_fenced_off (some 0) r' ≡ true
carried q r' h e = cc (h, e)

cancelled_is_fenced_off :
    (r' : QueuedTaskRecord)
    → get_task (perform setting (cancels 1 300 true none) busy) 1 ≡ some r'
    → is_fenced_off (some 0) r' ≡ true
unfolding get_task enqueue active_by_key get_task_by_key initial_status new_record store
    notify_new_task is_due claim_task_with_expired claim_record is_claimable start expire_record
    is_expired is_external_dispatch_reservation on_record get insert cancel_task cancel_record
    cancelled_record is_cancellable is_fenced_off new_memory
cancelled_is_fenced_off r' h = carried _ r' h refl

lost_attempt_refused_example :
    settle setting
      (completing 500 null)
      (run setting (claiming ∷ []) (perform setting (cancels 1 300 true none) busy))
      1
      0
    ≡ (run setting (claiming ∷ []) (perform setting (cancels 1 300 true none) busy), none)
unfolding get_task enqueue active_by_key get_task_by_key initial_status new_record store
    notify_new_task is_due claim_task_with_expired claim_record is_claimable start expire_record
    is_expired is_external_dispatch_reservation on_record get insert new_memory
lost_attempt_refused_example =
    lost_attempt_refused setting (completing 500 null) (cancels 1 300 true none) busy 1 0
      running_task (claiming ∷ []) busy-IsConsistent refl refl refl tt tt cancelled_is_fenced_off
      (tt, tt) (tt, tt)

perform-Changes_example : Changes busy (perform setting (cancels 1 300 true none) busy)
perform-Changes_example =
    perform-Changes setting (cancels 1 300 true none) busy tt tt busy-IsConsistent.apart
