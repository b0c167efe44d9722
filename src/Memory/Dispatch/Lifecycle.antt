-- ===== src/Memory/Dispatch/Lifecycle.antt =====
-- The external-dispatch calls follow the lifecycle of the records.
use litestar_queues.Memory.Changes.{Changes, on_record-Changes, notify_result-Changes}
use litestar_queues.Memory.Evolution.{
  Does, Moves, Moves-refl, Moves-trans, Evolves, Evolves-refl, Evolves-trans, insert-Evolves,
}
use litestar_queues.Memory.Dispatch.{
  route_record, reserve_scheduled_execution_ref, reserve_external_dispatch, clear_execution_ref,
  replace_execution_ref, release_external_dispatch, finalize_external_dispatch, set_execution_ref,
  set_execution_backend, reserve_scheduled_record, reserve_record, switch_record, release_record,
  finalize_record, list_dispatch_repair_candidates, mark_checked, checked_record,
  entry_checked_before, is_repair_candidate,
}
use litestar_queues.Base.{
  Apart-take, ℕ, ◌≡◌, Option, none, some, String, Dict, arith, List, [], ◌∷◌, Apart, Apart-sort,
  Apart-select, Stored, Stored-insert, Stored-self, All-sort, All-select_of_All, All-take, get,
  insert, nat_eq, ◌==◌, Bool-cases, inl, inr,
}
use litestar_queues.Models.{QueuedTaskRecord}
use litestar_queues.Memory.State.{Memory, expire_record}

pub reserve_scheduled_record-Moves :
    (now n : ℕ) (backend ref : String) (old : Option String) (r : QueuedTaskRecord)
    → Does Moves r (reserve_scheduled_record now backend ref n old r)
unfolding reserve_scheduled_record
reserve_scheduled_record-Moves now n backend ref old r = ground arith

pub reserve_record-Moves :
    (now due : ℕ) (backend ref : String) (profile : Option String) (n : Option ℕ)
    (r : QueuedTaskRecord)
    → Does Moves r (reserve_record now due backend ref profile n r)
unfolding reserve_record expire_record route_record
reserve_record-Moves now due backend ref profile n r = ground arith

pub switch_record-Moves :
    (n : ℕ) (old : String) (ref : Option String) (r : QueuedTaskRecord)
    → Does Moves r (switch_record n old ref r)
unfolding switch_record
switch_record-Moves n old ref r = ground arith

pub release_record-Moves :
    (ref backend : String) (profile : Option String) (r : QueuedTaskRecord)
    → Does Moves r (release_record ref backend profile r)
unfolding release_record route_record
release_record-Moves ref backend profile r = ground arith

pub finalize_record-Moves :
    (old backend ref : String) (profile : Option String) (r : QueuedTaskRecord)
    → Does Moves r (finalize_record old backend ref profile r)
unfolding finalize_record route_record
finalize_record-Moves old backend ref profile r = ground arith

pub route_record-Moves :
    (backend : String) (profile ref : Option String) (r : QueuedTaskRecord)
    → Does Moves r (route_record backend profile ref r)
unfolding route_record
route_record-Moves backend profile ref r = ground arith

module _ (s : Memory) (task_id : ℕ) (a : Apart s.records) where
  pub reserve_scheduled_execution_ref-Changes :
      (now n : ℕ) (backend ref : String) (old : Option String)
      → Changes s (reserve_scheduled_execution_ref s task_id now backend ref n old).0
  unfolding reserve_scheduled_execution_ref
  reserve_scheduled_execution_ref-Changes now n backend ref old =
      on_record-Changes s task_id none _ a (reserve_scheduled_record-Moves now n backend ref old)

  pub reserve_external_dispatch-Changes :
      (now due : ℕ) (backend ref : String) (profile : Option String) (n : Option ℕ)
      → Changes s (reserve_external_dispatch s task_id now due backend ref profile n).0
  unfolding reserve_external_dispatch
  reserve_external_dispatch-Changes now due backend ref profile n =
      on_record-Changes s task_id none _ a (reserve_record-Moves now due backend ref profile n)

  pub clear_execution_ref-Changes :
      (seen n : ℕ) (ref : String) → Changes s (clear_execution_ref s task_id seen n ref).0
  unfolding clear_execution_ref
  clear_execution_ref-Changes seen n ref =
      notify_result-Changes s seen _
        (on_record-Changes s task_id none _ a (switch_record-Moves n ref none))

  pub replace_execution_ref-Changes :
      (n : ℕ) (old ref : String) → Changes s (replace_execution_ref s task_id n old ref).0
  unfolding replace_execution_ref
  replace_execution_ref-Changes n old ref =
      on_record-Changes s task_id none _ a (switch_record-Moves n old (some ref))

  pub release_external_dispatch-Changes :
      (seen : ℕ) (ref backend : String) (profile : Option String)
      → Changes s (release_external_dispatch s task_id seen ref backend profile).0
  unfolding release_external_dispatch
  release_external_dispatch-Changes seen ref backend profile =
      notify_result-Changes s seen _
        (on_record-Changes s task_id none _ a (release_record-Moves ref backend profile))

  pub finalize_external_dispatch-Changes :
      (old backend ref : String) (profile : Option String)
      → Changes s (finalize_external_dispatch s task_id old backend ref profile).0
  unfolding finalize_external_dispatch
  finalize_external_dispatch-Changes old backend ref profile =
      on_record-Changes s task_id none _ a (finalize_record-Moves old backend ref profile)

  pub set_execution_ref-Changes :
      (backend ref : String) (profile : Option String)
      → Changes s (set_execution_ref s task_id backend ref profile).0
  unfolding set_execution_ref
  set_execution_ref-Changes backend ref profile =
      on_record-Changes s task_id none (route_record backend profile (some ref)) a
        (route_record-Moves backend profile (some ref))

  pub set_execution_backend-Changes :
      (seen : ℕ) (backend : String) (profile : Option String)
      → Changes s (set_execution_backend s task_id seen backend profile).0
  unfolding set_execution_backend
  set_execution_backend-Changes seen backend profile = notify_result-Changes s seen _ (
      on_record-Changes s task_id none (route_record backend profile none) a
        (route_record-Moves backend profile none))

checked_record-Moves : (now : ℕ) (r : QueuedTaskRecord) → Moves r (checked_record now r)
unfolding checked_record
checked_record-Moves now r = ground arith

mark_checked-Evolves :
    (now : ℕ) (es : List (ℕ × QueuedTaskRecord)) (d : Dict ℕ QueuedTaskRecord)
    → Apart es
    → Stored d es
    → Evolves Moves d (mark_checked now es d)
unfolding mark_checked
mark_checked-Evolves now [] d a h = Evolves-refl Moves Moves-refl d
mark_checked-Evolves now ((k, r) ∷ es) d a h =
    let r' = checked_record now r in
    Evolves-trans d (insert k r' d) _ (λ x y z. Moves-trans)
      (insert-Evolves Moves Moves-refl k r r' d h.0 (checked_record-Moves now r))
      (mark_checked-Evolves now es (insert k r' d) a.1 (Stored-insert k r' d es a.0 h.1))

pub list_dispatch_repair_candidates-Evolves :
    (s : Memory) (now : ℕ) (backend : String) (limit : ℕ)
    → Apart s.records
    → Evolves Moves s.records (list_dispatch_repair_candidates s now backend limit).0.records
unfolding list_dispatch_repair_candidates
list_dispatch_repair_candidates-Evolves s now backend limit a = elim (Bool-cases (limit == 0)) [
  | inl z ↦ rw z (Evolves-refl Moves Moves-refl s.records)
  | inr p ↦ rw p (
      mark_checked-Evolves now _ s.records
        (Apart-take limit _ (
          Apart-sort entry_checked_before _
            (Apart-select (λ kv. is_repair_candidate now backend kv.1) s.records a)))
        (All-take (λ kv. get kv.0 s.records ≡ some kv.1) limit _
          (All-sort (λ kv. get kv.0 s.records ≡ some kv.1) entry_checked_before _
            (All-select_of_All (λ kv. get kv.0 s.records ≡ some kv.1)
              (λ kv. is_repair_candidate now backend kv.1) s.records (Stored-self s.records a)))))
]
