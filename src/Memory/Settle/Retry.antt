-- ===== src/Memory/Settle/Retry.antt =====
-- The retry budget: what a fenced failure decides, and that an interruption costs nothing.
use litestar_queues.Base.{
  ℕ, ◌+◌, ◌≡◌, refl, Bool, true, false, Option, none, some, String, arith, ◌&&◌, if◌then◌else◌, pos,
  ltb_ℤ, get, get-insert_self, string_eq, nat_eq, eq_self, or_else, sub_ℕ, some_and, ltb,
}
use litestar_queues.Models.{
  integer, Floats, QueuedTaskRecord, failed, pending, scheduled, is_running,
}
use litestar_queues.Backend.{interruption_count, attempts_consumed}
use litestar_queues.Memory.State.{Memory, Effect, write, on_record}
use litestar_queues.Memory.Enqueue.{get_task}
use litestar_queues.Memory.Settle.{
  fail_record, fail_task, is_fenced_off, retry_record, interrupted_record,
}

interruption_count-interrupted :
    (fl : Floats) (at : ℕ) (r : QueuedTaskRecord)
    → interruption_count fl (interrupted_record fl at r) ≡ interruption_count fl r + 1
unfolding interrupted_record
interruption_count-interrupted fl at r =
    unfold interruption_count in
    rw (get-insert_self "interruptions" (integer (pos (interruption_count fl r + 1))) r.metadata)
      refl

sub_ℕ-shift : (m n : ℕ) → sub_ℕ (m + 1) (n + 1) ≡ sub_ℕ m n
sub_ℕ-shift m n = ground arith

-- An interruption raises the retry count, which fences the interrupted attempt off, and consumes no attempt
-- of the retry budget.
pub interrupted_record_free :
    (fl : Floats) (at : ℕ) (r : QueuedTaskRecord)
    → (attempts_consumed fl (interrupted_record fl at r) ≡ attempts_consumed fl r)
      × ((interrupted_record fl at r).retry_count ≡ r.retry_count + 1)
interrupted_record_free fl at r = (
  unfold attempts_consumed in
      rw (interruption_count-interrupted fl at r)
        (unfold interrupted_record in sub_ℕ-shift r.retry_count (interruption_count fl r)),
  unfold interrupted_record in refl,
)

-- A method that writes the record and returns it.
written :
    (s : Memory) (i : ℕ) (missing : Option QueuedTaskRecord)
    (body : QueuedTaskRecord → Effect (Option QueuedTaskRecord)) (r r' : QueuedTaskRecord)
    → get i s.records ≡ some r
    → body r ≡ write r' (some r')
    → ((on_record s i missing body).1 ≡ some r')
      × (get i (on_record s i missing body).0.records ≡ some r')
unfolding on_record
written s i missing body r r' here h =
    rw (here, on_record) (rw h (refl, get-insert_self i r' s.records))

-- What `fail_record` leaves behind for the attempt's own worker.
abbrev failure :
    Floats
    → ℕ
    → String
    → Bool
    → (retry_at queued_at : Option ℕ) → QueuedTaskRecord
    → QueuedTaskRecord
failure fl now error retry retry_at queued_at r =
    if retry && ltb_ℤ (attempts_consumed fl r) r.max_retries
    then retry_record (or_else queued_at now) retry_at (record r { error = some error })
    else record r {
      error = some error;
      status = failed;
      completed_at = some now;
      heartbeat_at = none;
    }

write-if :
    (b : Bool) (x y : QueuedTaskRecord)
    → (if b then write x (some x) else write y (some y))
      ≡ write (if b then x else y) (some (if b then x else y))
write-if true x y = refl
write-if false x y = refl

fail_record-failure :
    (fl : Floats) (now : ℕ) (error : String) (retry : Bool) (retry_at queued_at : Option ℕ)
    (r : QueuedTaskRecord)
    → is_running r.status ≡ true
    → fail_record fl now error retry (some r.retry_count) retry_at queued_at r
      ≡ write
          (failure fl now error retry retry_at queued_at r)
          (some (failure fl now error retry retry_at queued_at r))
unfolding fail_record is_fenced_off attempts_consumed interruption_count
fail_record-failure fl now error retry retry_at queued_at r live =
    rw (live, eq_self r.retry_count)
      (write-if (retry && ltb_ℤ (attempts_consumed fl r) r.max_retries) _ _)

-- A failure reported by the worker that holds the attempt keeps the error and queues the record again, under
-- the next retry count, exactly if a retry is asked for and the attempts consumed are below `max_retries`;
-- otherwise it makes the record failed, under the same retry count.
pub fail_task_decides :
    (s : Memory) (fl : Floats) (i now : ℕ) (error : String) (retry : Bool)
    (retry_at queued_at : Option ℕ) (r : QueuedTaskRecord)
    → get_task s i ≡ some r
    → is_running r.status ≡ true
    → let again = retry && ltb_ℤ (attempts_consumed fl r) r.max_retries in
      let call = fail_task s fl i now error retry (some r.retry_count) retry_at queued_at in
      (r' : QueuedTaskRecord) × ((call.1 ≡ some r') × (get_task call.0 i ≡ some r'))
      × (r'.error ≡ some error)
      × (r'.retry_count ≡ (if again then r.retry_count + 1 else r.retry_count))
      × (r'.status ≡ (
          if again
          then (if some_and retry_at (λ at. ltb (or_else queued_at now) at)
              then scheduled
              else pending)
          else failed))
unfolding get_task fail_task retry_record
fail_task_decides s fl i now error retry retry_at queued_at r here live = (
  failure fl now error retry retry_at queued_at r,
  written s i none _ r _ here (fail_record-failure fl now error retry retry_at queued_at r live),
  ground arith,
  ground arith,
  ground arith,
)
