-- ===== src/Tests/Queue.antt =====
-- Single calls on a store with one task.
use litestar_queues.Base.{
  not, ◌+◌, ◌≤◌, ◌≡◌, refl, true, false, none, some, [], ◌∷◌, ◌&&◌, pos, ltb_ℤ, arith, get, nat_eq,
  string_eq, ◌==◌, length, All, take, drop, map, select, none_or, some_and, or_else, ltb,
  if◌then◌else◌, insert, sort, insert_sorted, ne_of_beq, ◌||◌, ℕ, List, ◌-◌,
}
use litestar_queues.Models.{
  null, QueuedTaskRecord, pending, scheduled, failed, is_waiting, is_running, is_terminal, total,
  is_expired, is_due, HeartbeatTouch,
}
use litestar_queues.Backend.{
  attempts_consumed, is_external_dispatch_reservation, callable, retry_schedule,
  queue_configuration_error, interruption_count, stale_requeue_priority, preserve,
}
use litestar_queues.Memory.State.{new_memory, expire_record, on_record, Memory}
use litestar_queues.Memory.Enqueue.{get_task, get_task_by_key, enqueue, active_by_key}
use litestar_queues.Memory.Enqueue.Reuse.{enqueue_deduplicates, enqueue_wakes}
use litestar_queues.Memory.Claim.{
  claim_task, claim_many_with_expired, start, before, claim_task_with_expired, claim_record,
  is_claimable, list_pending, is_pending,
}
use litestar_queues.Memory.Claim.Exclusive.{claim_task_exclusive}
use litestar_queues.Memory.Claim.Selection.{
  claim_many_with_expired-order, claim_many_with_expired_bounds, in_order, count_queue,
}
use litestar_queues.Memory.Settle.{fail_task, interrupted_record, touch_heartbeats}
use litestar_queues.Memory.Settle.Retry.{fail_task_decides, interrupted_record_free}
use litestar_queues.Memory.Recovery.{
  requeue_stale_running, recover_one, stale_candidates, recover_loop, is_stale, staler,
  requeue_on_stale,
}
use litestar_queues.Memory.Recovery.Reports.{
  requeue_stale_running_reports, requeue_stale_running_aborts, ids_where, retries, before_any,
}
use litestar_queues.Memory.Ownership.{
  acquire_maintenance, release_maintenance, reserve_identity, reset_identity, is_held,
}
use litestar_queues.Memory.Ownership.Leases.{
  acquire_maintenance_exclusive, reserve_identity_exclusive,
}
use litestar_queues.Memory.Queries.{get_statistics, wait_for_wakeups, time_until_next_due}
use litestar_queues.Memory.Queries.Statistics.{get_statistics_total}
use litestar_queues.Memory.Settle.Touches.{touch_heartbeats_reports, is_in, Beats}
use litestar_queues.Memory.Queries.Due.{time_until_next_due_earliest}
use litestar_queues.Memory.Claim.Next.{Readings, claim_next, claim_next_loop, claim_next_exclusive}
use litestar_queues.Tests.Data.{
  waiting_task, whole_floats, request, running_task, idle_store, busy_store,
}

enqueue_deduplicates_example :
    let (t, r) = enqueue idle_store request none 2 300 300 300 in
    (is_terminal r ≡ false)
    × (get_task_by_key t "welcome" ≡ some r)
    × (enqueue t request none 3 400 400 400 ≡ (t, r))
enqueue_deduplicates_example =
    enqueue_deduplicates idle_store request request none none 2 300 300 300 3 400 400 400 "welcome"
      refl refl

enqueue_wakes_example :
    (wait_for_wakeups (enqueue new_memory request none 1 100 100 100).0 false false).1 ≡ true
unfolding active_by_key get_task_by_key get new_memory
enqueue_wakes_example = enqueue_wakes new_memory request none 1 100 100 100 refl refl

claim_task_exclusive_example :
    let t = (claim_task idle_store 1 200 200 none none).0 in
    ((r : QueuedTaskRecord) × (get_task idle_store 1 ≡ some r)
      × (is_waiting r.status ≡ true)
      × (is_external_dispatch_reservation r.execution_ref ≡ false)
      × (running_task.retry_count ≡ r.retry_count))
    × (get_task t 1 ≡ some running_task)
    × (is_running running_task.status ≡ true)
    × (claim_task t 1 300 300 none none ≡ (t, none))
unfolding claim_task claim_task_with_expired claim_record is_claimable start expire_record
    is_expired is_due is_external_dispatch_reservation on_record get insert
claim_task_exclusive_example =
    claim_task_exclusive idle_store 1 200 200 300 300 none none none none running_task refl

claim_many_with_expired_bounds_example :
    (length (claim_many_with_expired idle_store 200 10 [] none (("mail", pos 1) ∷ [])).1.0 ≤ 10)
    × (count_queue "mail"
          (claim_many_with_expired idle_store 200 10 [] none (("mail", pos 1) ∷ [])).1.0
        ≤ 1)
unfolding get
claim_many_with_expired_bounds_example =
    claim_many_with_expired_bounds idle_store 200 10 [] none (("mail", pos 1) ∷ []) "mail"

claim_many_with_expired-order_example :
    ((claim_many_with_expired idle_store 200 1 [] none []).1.0
      ≡ map (λ kv. start 200 kv.1) (take 1 (in_order 200 [] none idle_store.records)))
    × All
        (λ x. All (λ y. before x.1 y.1 ≡ true) (drop 1 (in_order 200 [] none idle_store.records)))
        (take 1 (in_order 200 [] none idle_store.records))
claim_many_with_expired-order_example = claim_many_with_expired-order idle_store 200 1 [] none

fail_task_decides_example :
    let again =
      true && ltb_ℤ (attempts_consumed whole_floats running_task) running_task.max_retries in
    let call = fail_task busy_store whole_floats 1 300 "lost" true (some 0) (some 900) none in
    (r' : QueuedTaskRecord) × ((call.1 ≡ some r') × (get_task call.0 1 ≡ some r'))
    × (r'.error ≡ some "lost")
    × (r'.retry_count ≡ (if again then running_task.retry_count + 1 else running_task.retry_count))
    × (r'.status ≡ (
        if again
        then (if some_and (some 900) (λ at. ltb (or_else none 300) at) then scheduled else pending)
        else failed))
unfolding get_task get
fail_task_decides_example =
    fail_task_decides busy_store whole_floats 1 300 "lost" true (some 900) none running_task refl
      refl

interrupted_record_free_example :
    (attempts_consumed whole_floats (interrupted_record whole_floats 300 running_task)
      ≡ attempts_consumed whole_floats running_task)
    × ((interrupted_record whole_floats 300 running_task).retry_count
        ≡ running_task.retry_count + 1)
interrupted_record_free_example = interrupted_record_free whole_floats 300 running_task

requeue_stale_running_reports_example :
    let report =
      (requeue_stale_running busy_store whole_floats preserve 900 100 none (λ k. 900)).1 in
    let stale = stale_candidates 900 100 none busy_store.records in
    ((report.requeued_task_ids ≡ ids_where (retries whole_floats) stale)
      × (report.failed_task_ids ≡ ids_where (λ r. not (retries whole_floats r)) stale)
      × (report.handler_needed_task_ids
          ≡ ids_where (λ r. not (retries whole_floats r) && not (requeue_on_stale r)) stale))
    × (report.requeued ≡ length report.requeued_task_ids)
    × (report.failed_count ≡ length report.failed_task_ids)
    × (report.handler_needed ≡ length report.handler_needed_task_ids)
unfolding requeue_stale_running recover_loop recover_one stale_candidates is_stale staler sort
    insert_sorted attempts_consumed interruption_count retry_schedule stale_requeue_priority
    requeue_on_stale get insert
requeue_stale_running_reports_example =
    requeue_stale_running_reports busy_store whole_floats preserve 900 100 none (λ k. 900) refl

requeue_stale_running_aborts_example :
    let (t, report, e) =
      requeue_stale_running busy_store whole_floats
        (callable (λ p. null))
        900
        100
        none
        (λ k. 900) in
    (e ≡ some queue_configuration_error)
    × (report ≡ (before_any busy_store).result)
    × ((r' : QueuedTaskRecord) × (t
          ≡ record busy_store { records = insert 1 r' busy_store.records })
        × (is_waiting r'.status ≡ true)
        × (r'.retry_count ≡ running_task.retry_count)
        × (r'.heartbeat_at ≡ running_task.heartbeat_at))
unfolding stale_candidates is_stale staler sort insert_sorted attempts_consumed interruption_count
    retry_schedule stale_requeue_priority requeue_on_stale get
requeue_stale_running_aborts_example =
    requeue_stale_running_aborts busy_store whole_floats (callable (λ p. null)) 900 100 none
      (λ k. 900) 1 running_task [] (900, none) refl refl refl refl

acquire_maintenance_exclusive_example :
    let t = (acquire_maintenance new_memory 100 "sweep" "a" 50).0 in
    (acquire_maintenance t 120 "sweep" "b" 50 ≡ (t, false))
    × (release_maintenance t "sweep" "b" ≡ (t, false))
unfolding acquire_maintenance is_held get new_memory
acquire_maintenance_exclusive_example =
    acquire_maintenance_exclusive new_memory 100 120 50 50 "sweep" "a" "b" refl
      (ne_of_beq "a" "b" refl) (omega arith)

reserve_identity_exclusive_example :
    let t = (reserve_identity new_memory 100 "report" 1 "send").0 in
    (reserve_identity t 120 "report" 2 "send"
      ≡ (t, some (record { key = "report"; task_id = 1; task_name = "send"; created_at = 100 })))
    × (reset_identity t "report" (some 2) ≡ (t, false))
    × ((reset_identity t "report" (some 1)).1 ≡ true)
unfolding reserve_identity get new_memory
reserve_identity_exclusive_example =
    reserve_identity_exclusive new_memory 100 120 "report" 1 2 "send" "send" refl
      (λ e. omega (arith, e))

get_statistics_total_example :
    total (get_statistics busy_store (some "mail"))
    ≡ length (
        select
          (λ r. none_or (some "mail") (λ name. r.queue == name))
          (map (λ kv. kv.1) busy_store.records))
get_statistics_total_example = get_statistics_total busy_store (some "mail")

abbrev touches : List HeartbeatTouch
touches =
    record { task_id = 1; expected_retry_count = some 0; metadata_patch = none }
    ∷ record { task_id = 2; expected_retry_count = none; metadata_patch = none }
    ∷ []

touch_heartbeats_reports_example :
    let (t, report) = touch_heartbeats busy_store 300 touches in
    All
      (λ x.
        (is_in report.touched_task_ids x.task_id || is_in report.missed_task_ids x.task_id) ≡ true)
      touches
    × All (Beats 300 t) report.touched_task_ids
touch_heartbeats_reports_example = touch_heartbeats_reports busy_store 300 touches

abbrev later_store : Memory
later_store = record idle_store {
  records = (1, record waiting_task { scheduled_at = some 700 }) ∷ [];
}

time_until_next_due_earliest_example :
    (wait : ℕ) × (time_until_next_due later_store 300 301 [] ≡ some wait) × (wait ≤ 700 - 301)
unfolding get_task get
time_until_next_due_earliest_example =
    time_until_next_due_earliest later_store 300 301 [] 1
      (record waiting_task { scheduled_at = some 700 }) 700 refl refl refl

abbrev readings : ℕ → Readings
readings i = record { due = λ k. 200; late = λ k. 200; claim_due = 200; claim_now = 200 }

claim_next_exclusive_example :
    (i : ℕ) × (get_task (claim_next idle_store readings [] none).0 i ≡ some running_task)
    × (is_running running_task.status ≡ true)
    × (claim_task (claim_next idle_store readings [] none).0 i 300 300 none none
        ≡ ((claim_next idle_store readings [] none).0, none))
unfolding claim_next claim_next_loop list_pending is_pending sort insert_sorted claim_task
    claim_task_with_expired claim_record is_claimable start expire_record is_expired is_due
    is_external_dispatch_reservation on_record get insert
claim_next_exclusive_example =
    claim_next_exclusive 300 300 none none idle_store readings [] none running_task refl
