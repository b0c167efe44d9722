-- ===== src/Ephemeral/Calls/Serializer.antt =====
-- The calls leave the serializer of the backend as it is.
use litestar_queues.Base.{
  ℕ, ◌≡◌, refl, ap, ◌∙◌, true, false, Bool, Option, none, some, String, get, nat_eq, if◌then◌else◌,
  ◌⊎◌, inl, inr, not, or_else, insert,
}
use litestar_queues.Models.{QueuedTaskRecord}
use litestar_queues.Memory.State.{Effect, keep, write}
use litestar_queues.Memory.Calls.{Setting}
use litestar_queues.Memory.Enqueue.{new_record, initial_status}
use litestar_queues.Memory.Claim.{assign_record, claim_record}
use litestar_queues.Memory.Settle.{complete_record, fail_record, cancel_record, interrupt_record}
use litestar_queues.Memory.Dispatch.{
  reserve_record, switch_record, release_record, finalize_record, route_record,
}
use litestar_queues.Ephemeral.Codec.{Library}
use litestar_queues.Ephemeral.Database.{
  Row, Database, Failure, overflow_error, integrity_error, Outcome, Operation, done, raised, bind,
  EphemeralQueueBackend, columns, with_row, update_row, insert_row, is_bindable,
  violates_active_key, write_record, insert_record, apply, on_row_found, on_row_where, select_by_id,
  commit, transaction, pure,
}
use litestar_queues.Ephemeral.Enqueue.{
  add_record, active_of, active_by_key, reuse_or_insert, after, enqueue, notify_new_task,
}
use litestar_queues.Ephemeral.Claim.{answer, assign_worker, claim_task_with_expired}
use litestar_queues.Ephemeral.Settle.{complete_task, fail_task, cancel_task, interrupt_task}
use litestar_queues.Ephemeral.Dispatch.{
  reserve_scheduled_execution_ref, reserve_external_dispatch, clear_execution_ref,
  replace_execution_ref, release_external_dispatch, finalize_external_dispatch, set_execution_ref,
  set_execution_backend, notify_found, is_reservable_row, refer_record,
}
use litestar_queues.Ephemeral.Simulation.{notify-database}
use litestar_queues.Ephemeral.Calls.{
  TaskCall, enqueues, assigns, claims, completes, fails, cancels, interrupts, reserves_scheduled,
  reserves, clears, replaces, releases, finalizes, sets_ref, sets_backend, submit, task,
  task_or_none, claimed_and_expired, flag,
}

-- The file that an operation leaves, if it does not raise, has the serializer.
abbrev Keeps : {A : Type 0} → Library → Outcome A → Type 0
Keeps l (done a d) = d.library ≡ l
Keeps l (raised e) = Unit

bind-Keeps :
    {A B : Type 0} (l : Library) (o : Outcome A) (f : A → Operation B)
    → Keeps l o
    → ((a : A) (d : Database) → d.library ≡ l → Keeps l (f a d))
    → Keeps l (bind o f)
bind-Keeps l (done a d) f k g = g a d k
bind-Keeps l (raised e) f k g = tt

-- What the statements do once the row has passed or failed their tests.
checked-Keeps :
    (l : Library) (d d' : Database) (b : Bool) (e : Failure)
    → d'.library ≡ l
    → Keeps {A = Unit {0}} l (if b then raised e else done tt d')
checked-Keeps l d d' true e k = tt
checked-Keeps l d d' false e k = k

update_row-Keeps :
    (l : Library) (i : ℕ) (row : Row) (d : Database) → d.library ≡ l → Keeps l (update_row i row d)
unfolding update_row
update_row-Keeps l i row d k =
    elim (not (is_bindable row))
      as (λ b. Keeps l (if b then raised overflow_error else looked (get i d.queue_task))) [
        | true ↦ tt
        | false ↦ elim (get i d.queue_task) as (λ o. Keeps l (looked o)) [
          | none ↦ k
          | some old ↦
              checked-Keeps l d (changed) (violates_active_key i row d.queue_task) integrity_error k
        ]
      ]
  where
    changed : Database
    changed = record d { queue_task = insert i row d.queue_task }

    looked : Option Row → Outcome (Unit {0})
    looked o = elim o [
      | none ↦ done tt d
      | some _ ↦
          if violates_active_key i row d.queue_task then raised integrity_error else done tt changed
    ]

insert_row-Keeps :
    (l : Library) (i : ℕ) (row : Row) (d : Database) → d.library ≡ l → Keeps l (insert_row i row d)
unfolding insert_row
insert_row-Keeps l i row d k =
    elim (not (is_bindable row))
      as (λ b. Keeps l (if b then raised overflow_error else looked (get i d.queue_task))) [
        | true ↦ tt
        | false ↦ elim (get i d.queue_task) as (λ o. Keeps l (looked o)) [
          | none ↦
              checked-Keeps l d (changed) (violates_active_key i row d.queue_task) integrity_error k
          | some old ↦ tt
        ]
      ]
  where
    changed : Database
    changed = record d { queue_task = insert i row d.queue_task }

    looked : Option Row → Outcome (Unit {0})
    looked o = elim o [
      | some _ ↦ raised integrity_error
      | none ↦
          if violates_active_key i row d.queue_task then raised integrity_error else done tt changed
    ]

with_row-Keeps :
    (l : Library) (o : Failure ⊎ Row) (f : Row → Operation (Unit {0})) (d : Database)
    → ((row : Row) → Keeps l (f row d))
    → Keeps l (with_row o f d)
with_row-Keeps l (inl e) f d h = tt
with_row-Keeps l (inr row) f d h = h row

apply-Keeps :
    {A : Type 0} (l : Library) (x : Effect A) (d : Database) → d.library ≡ l → Keeps l (apply x d)
apply-Keeps l (keep a) d k = k
apply-Keeps l (write r a) d k =
    bind-Keeps l (write_record r d) (λ _. pure a)
      (with_row-Keeps l (columns d.library r) (update_row r.id) d
        (λ row. update_row-Keeps l r.id row d k))
      (λ u d' k'. k')

on_row_found-Keeps :
    {A : Type 0} (l : Library) (missing : A) (body : QueuedTaskRecord → Effect A)
    (o : Option QueuedTaskRecord) (d : Database)
    → d.library ≡ l
    → Keeps l (on_row_found missing body o d)
on_row_found-Keeps l missing body none d k = k
on_row_found-Keeps l missing body (some r) d k = apply-Keeps l (body r) d k

commit-library :
    {A : Type 0} (b : EphemeralQueueBackend) (o : Outcome A)
    → Keeps b.database.library o
    → (commit b o).0.database.library ≡ b.database.library
commit-library b (done a d) k = k
commit-library b (raised e) k = refl

on_row_where-library :
    {A : Type 0} (test : Row → Bool) (i : ℕ) (missing : A) (body : QueuedTaskRecord → Effect A)
    (b : EphemeralQueueBackend)
    → (transaction b (on_row_where test i missing body)).0.database.library ≡ b.database.library
unfolding transaction on_row_where select_by_id
on_row_where-library test i missing body b =
    let l = b.database.library in
    commit-library b (on_row_where test i missing body b.database) (
      bind-Keeps l (select_by_id test i b.database) (on_row_found missing body) refl
        (λ o d k. on_row_found-Keeps l missing body o d k))

reuse_or_insert-Keeps :
    (l : Library) (o : Option QueuedTaskRecord) (r : QueuedTaskRecord) (d : Database)
    → d.library ≡ l
    → Keeps l (reuse_or_insert o r d)
reuse_or_insert-Keeps l (some old) r d k = k
reuse_or_insert-Keeps l none r d k =
    bind-Keeps l (insert_record r d) (λ _. pure r)
      (with_row-Keeps l (columns d.library r) (insert_row r.id) d
        (λ row. insert_row-Keeps l r.id row d k))
      (λ u d' k'. k')

active_of-Keeps :
    (l : Library) (key : Option String) (d : Database) → d.library ≡ l → Keeps l (active_of key d)
unfolding active_by_key
active_of-Keeps l none d k = k
active_of-Keeps l (some key) d k = k

add_record-library :
    (r : QueuedTaskRecord) (b : EphemeralQueueBackend)
    → (transaction b (add_record r)).0.database.library ≡ b.database.library
unfolding transaction add_record
add_record-library r b = commit-library b (add_record r b.database) (
    bind-Keeps b.database.library (active_of r.key b.database) (λ o. reuse_or_insert o r)
      (active_of-Keeps b.database.library r.key b.database refl)
      (λ o d k. reuse_or_insert-Keeps b.database.library o r d k))

answer-backend :
    {A B : Type 0} (f : A → B) (x : EphemeralQueueBackend × (Failure ⊎ A)) → (answer f x).0 ≡ x.0
answer-backend f (b, inl e) = refl
answer-backend f (b, inr a) = refl

after-database :
    {A : Type 0} (x : EphemeralQueueBackend × (Failure ⊎ A))
    (f : A → EphemeralQueueBackend → EphemeralQueueBackend)
    → ((a : A) (b : EphemeralQueueBackend) → (f a b).database ≡ b.database)
    → (after x f).0.database ≡ x.0.database
after-database (b, inl e) f h = refl
after-database (b, inr a) f h = h a b

notify_found-database :
    (seen : ℕ) (o : Option QueuedTaskRecord) (b : EphemeralQueueBackend)
    → (notify_found seen o b).database ≡ b.database
notify_found-database seen none b = refl
notify_found-database seen (some r) b = notify-database b seen r

abbrev serializer : EphemeralQueueBackend → Library
serializer b = b.database.library

row_answer :
    {A B : Type 0} (f : A → B) (test : Row → Bool) (i : ℕ) (missing : A)
    (body : QueuedTaskRecord → Effect A) (b : EphemeralQueueBackend)
    → serializer (answer f (transaction b (on_row_where test i missing body))).0 ≡ serializer b
row_answer f test i missing body b =
    ap serializer (answer-backend f (transaction b (on_row_where test i missing body)))
    ∙ on_row_where-library test i missing body b

notified_answer :
    {B : Type 0} (f : Option QueuedTaskRecord → B) (seen : ℕ) (test : Row → Bool) (i : ℕ)
    (body : QueuedTaskRecord → Effect (Option QueuedTaskRecord)) (b : EphemeralQueueBackend)
    → serializer
        (answer f (after (transaction b (on_row_where test i none body)) (notify_found seen))).0
      ≡ serializer b
notified_answer f seen test i body b =
    let x = transaction b (on_row_where test i none body) in
    ap serializer (answer-backend f (after x (notify_found seen)))
    ∙ ap (λ d. d.library) (after-database x (notify_found seen) (notify_found-database seen))
    ∙ on_row_where-library test i none body b

pub submit-library :
    (e : Setting) (c : TaskCall) (b : EphemeralQueueBackend)
    → (submit e c b).0.database.library ≡ b.database.library
unfolding enqueue assign_worker claim_task_with_expired complete_task fail_task cancel_task
    interrupt_task reserve_scheduled_execution_ref reserve_external_dispatch clear_execution_ref
    replace_execution_ref release_external_dispatch finalize_external_dispatch set_execution_ref
    set_execution_backend
submit-library e (enqueues q given fresh now tested seen) b =
    let r = new_record q (or_else given fresh) (initial_status q.scheduled_at tested) now in
    let x = transaction b (add_record r) in
    ap serializer (answer-backend task (after x (notify_new_task seen)))
    ∙ ap (λ d. d.library)
        (after-database x (notify_new_task seen) (λ a b'. notify-database b' seen a))
    ∙ add_record-library r b
submit-library e (assigns i worker_id n) b =
    row_answer task_or_none (λ _. true) i none (assign_record worker_id n) b
submit-library e (claims i due now n ref) b =
    row_answer claimed_and_expired (λ _. true) i (none, none) (claim_record due now n ref) b
submit-library e (completes i now v n) b =
    row_answer task_or_none (λ _. true) i none (complete_record now v (some n)) b
submit-library e (fails i now error retry n retry_at queued_at) b =
    row_answer task_or_none (λ _. true) i none
      (fail_record e.floats now error retry (some n) retry_at queued_at) b
submit-library e (cancels i now include_running n) b =
    row_answer flag (λ _. true) i false (cancel_record now include_running n) b
submit-library e (interrupts i n worker_id queued_at) b =
    row_answer task_or_none (λ _. true) i none (interrupt_record e.floats n worker_id queued_at) b
submit-library e (reserves_scheduled i now backend ref n old) b =
    row_answer task_or_none (is_reservable_row now backend n) i none (refer_record old ref) b
submit-library e (reserves i now due backend ref profile n) b =
    row_answer task_or_none (λ _. true) i none (reserve_record now due backend ref profile n) b
submit-library e (clears i seen n ref) b =
    notified_answer task_or_none seen (λ _. true) i (switch_record n ref none) b
submit-library e (replaces i n old ref) b =
    row_answer task_or_none (λ _. true) i none (switch_record n old (some ref)) b
submit-library e (releases i seen ref backend profile) b =
    notified_answer task_or_none seen (λ _. true) i (release_record ref backend profile) b
submit-library e (finalizes i old backend ref profile) b =
    row_answer task_or_none (λ _. true) i none (finalize_record old backend ref profile) b
submit-library e (sets_ref i backend ref profile) b =
    row_answer task_or_none (λ _. true) i none (route_record backend profile (some ref)) b
submit-library e (sets_backend i seen backend profile) b =
    notified_answer task_or_none seen (λ _. true) i (route_record backend profile none) b
