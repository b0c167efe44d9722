-- ===== src/Memory/Dispatch.antt =====
-- External dispatch: `list_dispatch_repair_candidates`, `reserve_scheduled_execution_ref`,
-- `reserve_external_dispatch`, `clear_execution_ref`, `replace_execution_ref`,
-- `release_external_dispatch`, `finalize_external_dispatch`, `set_execution_ref`,
-- `set_execution_backend` and `list_running_external`.
pub mod Lifecycle
use litestar_queues.Base.{
  ℕ, Bool, true, false, not, Option, none, some, List, [], ◌∷◌, ◌++◌, String, ◌&&◌, ◌||◌, Dict, get,
  insert, nat_eq, string_eq, option_eq, ◌==◌, if◌then◌else◌, none_or, some_and, or_else, ltb, leb,
  length, take, select, sort, map,
}
use litestar_queues.Models.{QueuedTaskRecord, is_waiting, is_due, is_expired, is_terminal}
use litestar_queues.Backend.{DispatchRepairCandidates}
use litestar_queues.Memory.State.{
  Memory, Effect, keep, write, on_record, expire_record, notify_new_task,
}

-- The sort key `(dispatch_checked_at or created_at, str(id))`. The texts of two ids are in the order of
-- the numbers, since they are hexadecimal and of one length.
unfoldable pub checked_before : QueuedTaskRecord → QueuedTaskRecord → Bool
checked_before a b =
    let ta : ℕ = or_else a.dispatch_checked_at a.created_at in
    let tb : ℕ = or_else b.dispatch_checked_at b.created_at in
    ltb ta tb || (leb ta tb && leb a.id b.id)

unfoldable pub is_repair_candidate : ℕ → String → QueuedTaskRecord → Bool
is_repair_candidate now backend r =
    r.execution_backend == backend && is_waiting r.status && none_or r.expires_at (λ at. ltb now at)

unfoldable pub checked_record : ℕ → QueuedTaskRecord → QueuedTaskRecord
checked_record now r =
    if none_or r.dispatch_checked_at (λ at. ltb at now)
    then record r { dispatch_checked_at = some now }
    else r

abbrev pub entry_checked_before : ℕ × QueuedTaskRecord → ℕ × QueuedTaskRecord → Bool
entry_checked_before a b = checked_before a.1 b.1

unfoldable pub mark_checked :
    ℕ → List (ℕ × QueuedTaskRecord) → Dict ℕ QueuedTaskRecord → Dict ℕ QueuedTaskRecord
unfolding checked_record
mark_checked now [] d = d
mark_checked now ((k, r) ∷ rest) d = mark_checked now rest (insert k (checked_record now r) d)

-- A negative limit raises in the source.
unfoldable pub list_dispatch_repair_candidates :
    Memory → ℕ → String → ℕ → Memory × DispatchRepairCandidates
unfolding is_repair_candidate sort checked_before checked_record
list_dispatch_repair_candidates s now backend limit =
    if limit == 0
    then (s, record { records = []; examined = 0; limit_reached = false })
    else (let found = take limit (
          sort entry_checked_before
            (select (λ kv. is_repair_candidate now backend kv.1) s.records)) in
        (
          record s { records = mark_checked now found s.records },
          record {
            records = map (λ kv. checked_record now kv.1) found;
            examined = length found;
            limit_reached = length found == limit;
          },
        ))

-- What the methods below do to the record that they look up.
unfoldable pub reserve_scheduled_record :
    ℕ
    → (execution_backend execution_ref : String) → ℕ
    → Option String
    → QueuedTaskRecord
    → Effect (Option QueuedTaskRecord)
unfolding is_expired
reserve_scheduled_record now execution_backend execution_ref retries ref r =
    if not (r.execution_backend == execution_backend)
      || not (r.retry_count == retries)
      || not (r.execution_ref == ref)
      || not (is_waiting r.status)
      || is_expired now r
    then keep none
    else (let r' = record r { execution_ref = some execution_ref } in write r' (some r'))

unfoldable pub reserve_scheduled_execution_ref :
    Memory
    → ℕ
    → ℕ
    → (execution_backend execution_ref : String) → ℕ
    → Option String
    → Memory × Option QueuedTaskRecord
unfolding reserve_scheduled_record
reserve_scheduled_execution_ref s task_id now execution_backend execution_ref retries ref =
    on_record s task_id none
      (reserve_scheduled_record now execution_backend execution_ref retries ref)

-- The three assignments of the methods that route a record.
unfoldable pub route_record :
    (execution_backend : String)
    → (profile ref : Option String) → QueuedTaskRecord
    → Effect (Option QueuedTaskRecord)
route_record execution_backend profile ref r =
    let r' = record r {
      execution_backend = execution_backend;
      execution_profile = profile;
      execution_ref = ref;
    } in
    write r' (some r')

unfoldable pub reserve_record :
    (now due : ℕ)
    → (execution_backend reservation_ref : String) → Option String
    → Option ℕ
    → QueuedTaskRecord
    → Effect (Option QueuedTaskRecord)
unfolding is_due is_expired expire_record route_record
reserve_record now due execution_backend reservation_ref profile expected r =
    if not (is_waiting r.status)
      || not (is_due due r)
      || some_and r.execution_ref (λ _. true)
      || some_and expected (λ n. not (r.retry_count == n))
    then keep none
    else (if is_expired now r
        then write (expire_record r now) none
        else route_record execution_backend profile (some reservation_ref) r)

-- `now` is read before the lock, `due` by `is_due`.
unfoldable pub reserve_external_dispatch :
    Memory
    → ℕ
    → (now due : ℕ) → (execution_backend reservation_ref : String) → Option String
    → Option ℕ
    → Memory × Option QueuedTaskRecord
unfolding reserve_record
reserve_external_dispatch s task_id now due execution_backend reservation_ref profile expected =
    on_record s task_id none
      (reserve_record now due execution_backend reservation_ref profile expected)

-- The guard of the two methods below.
unfoldable pub holds_ref : ℕ → String → QueuedTaskRecord → Bool
holds_ref retries ref r =
    is_waiting r.status && r.retry_count == retries && r.execution_ref == some ref

unfoldable pub switch_record :
    ℕ → String → Option String → QueuedTaskRecord → Effect (Option QueuedTaskRecord)
unfolding holds_ref
switch_record retries ref new_ref r =
    if not (holds_ref retries ref r)
    then keep none
    else (let r' = record r { execution_ref = new_ref } in write r' (some r'))

-- `notify_new_task` for the record of an answer, if there is one.
abbrev pub notify_result : ℕ → Memory × Option QueuedTaskRecord → Memory × Option QueuedTaskRecord
notify_result seen (s, none) = (s, none)
notify_result seen (s, some r) = (notify_new_task seen r s, some r)

unfoldable pub clear_execution_ref :
    Memory
    → ℕ
    → ℕ
    → (expected_retry_count : ℕ) → (expected_execution_ref : String)
    → Memory × Option QueuedTaskRecord
unfolding switch_record notify_new_task
clear_execution_ref s task_id seen retries ref =
    notify_result seen (on_record s task_id none (switch_record retries ref none))

unfoldable pub replace_execution_ref :
    Memory
    → ℕ
    → ℕ
    → (expected_execution_ref execution_ref : String) → Memory × Option QueuedTaskRecord
unfolding switch_record
replace_execution_ref s task_id retries ref execution_ref =
    on_record s task_id none (switch_record retries ref (some execution_ref))

unfoldable pub release_record :
    (reservation_ref execution_backend : String)
    → Option String
    → QueuedTaskRecord
    → Effect (Option QueuedTaskRecord)
unfolding route_record
release_record reservation_ref execution_backend profile r =
    if not (r.execution_ref == some reservation_ref)
    then keep none
    else route_record execution_backend profile none r

unfoldable pub release_external_dispatch :
    Memory
    → ℕ
    → ℕ
    → (reservation_ref execution_backend : String) → Option String
    → Memory × Option QueuedTaskRecord
unfolding notify_new_task release_record
release_external_dispatch s task_id seen reservation_ref execution_backend profile =
    notify_result seen
      (on_record s task_id none (release_record reservation_ref execution_backend profile))

unfoldable pub finalize_record :
    (reservation_ref execution_backend execution_ref : String)
    → Option String
    → QueuedTaskRecord
    → Effect (Option QueuedTaskRecord)
unfolding route_record
finalize_record reservation_ref execution_backend execution_ref profile r =
    if not (r.execution_ref == some reservation_ref) || not (is_waiting r.status)
    then keep none
    else route_record execution_backend profile (some execution_ref) r

unfoldable pub finalize_external_dispatch :
    Memory
    → ℕ
    → (reservation_ref execution_backend execution_ref : String) → Option String
    → Memory × Option QueuedTaskRecord
unfolding finalize_record
finalize_external_dispatch s task_id reservation_ref execution_backend execution_ref profile =
    on_record s task_id none
      (finalize_record reservation_ref execution_backend execution_ref profile)

unfoldable pub set_execution_ref :
    Memory
    → ℕ
    → (execution_backend execution_ref : String) → Option String
    → Memory × Option QueuedTaskRecord
unfolding route_record
set_execution_ref s task_id execution_backend execution_ref profile =
    on_record s task_id none λ r. route_record execution_backend profile (some execution_ref) r

unfoldable pub set_execution_backend :
    Memory → ℕ → ℕ → (execution_backend : String) → Option String → Memory × Option QueuedTaskRecord
unfolding notify_new_task route_record
set_execution_backend s task_id seen execution_backend profile =
    notify_result seen (on_record s task_id none λ r. route_record execution_backend profile none r)

-- The sort key `(started_at or created_at, str(id))`.
unfoldable pub started_before : QueuedTaskRecord → QueuedTaskRecord → Bool
started_before a b =
    let ta : ℕ = or_else a.started_at a.created_at in
    let tb : ℕ = or_else b.started_at b.created_at in ltb ta tb || (leb ta tb && leb a.id b.id)

-- `xs[:limit] if limit is not None else xs`.
abbrev pub take_limit {ℓ} : {A : Type ℓ} → Option ℕ → List A → List A
take_limit none xs = xs
take_limit (some n) xs = take n xs

unfoldable pub list_running_external : Memory → Option ℕ → List QueuedTaskRecord
unfolding sort started_before
list_running_external s limit = take_limit limit (
    sort started_before (
      select (λ r. not (is_terminal r) && some_and r.execution_ref (λ _. true))
        (map (λ kv. kv.1) s.records)))
