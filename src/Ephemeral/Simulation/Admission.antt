-- ===== src/Ephemeral/Simulation/Admission.antt =====
-- `enqueue` on the file and in memory.
use litestar_queues.Base.{
  ℕ, ◌≡◌, refl, sym, ap, ◌∙◌, subst, true, false, Option, none, some, String, get, insert, nat_eq,
  or_else, get-insert_self, inl, inr, ◌⊎◌, Option-cases,
}
use litestar_queues.Models.{QueuedTaskRecord, TaskRequest}
use litestar_queues.Memory.State.{Memory, notify_new_task as memory_notify}
use litestar_queues.Memory.Consistency.{IsConsistent, active_by_key-some}
use litestar_queues.Memory.Enqueue.{
  new_record, initial_status, store, active_by_key as memory_active, enqueue as memory_enqueue,
}
use litestar_queues.Ephemeral.Database.{
  Row, Database, Failure, Outcome, Operation, done, raised, bind, as_row, EphemeralQueueBackend,
  violates_active_key, insert_row, insert_record, is_bindable, Storable, insert_record-Storable,
}
use litestar_queues.Ephemeral.Enqueue.{add_record, reuse_or_insert, after, enqueue, notify_new_task}
use litestar_queues.Ephemeral.Holds.{
  AllStorable, Holds, Yields, rows_of, row_of, row-found, insert-rows_of, Vacant-unviolated, Vacant,
}
use litestar_queues.Ephemeral.Simulation.{
  Agrees, transaction-Agrees, memory_notify-Holds, memory_notify-records, notify-database, IsNamed,
  active_of-done,
}

insert_row-done :
    (d : Database) (i : ℕ) (row : Row)
    → get i d.queue_task ≡ none
    → is_bindable row ≡ true
    → violates_active_key i row d.queue_task ≡ false
    → insert_row i row d ≡ done tt (record d { queue_task = insert i row d.queue_task })
unfolding insert_row
insert_row-done d i row missing fits fine = rw (fits, insert_row) (rw (missing, fine) refl)

inactive-Vacant :
    (s : Memory) (i : ℕ) (key : Option String) (k : String)
    → IsConsistent s
    → memory_active s key ≡ none
    → key ≡ some k
    → Vacant s i k
inactive-Vacant s i key k c vacant e j q hj other own live =
    cc (vacant, active_by_key-some s j q key k e (c.owned j q k hj own live) hj live)

store-Holds :
    (d : Database) (s : Memory) (r : QueuedTaskRecord)
    → Holds d s
    → Holds (record d { queue_task = rows_of (insert r.id r s.records) }) (store r s)
unfolding store
store-Holds d s r h = record {
  tasks = refl;
  reservations = h.reservations;
  maintenances = h.maintenances;
}

insert-Yields :
    (d : Database) (s : Memory) (r : QueuedTaskRecord)
    → Holds d s
    → IsConsistent s
    → memory_active s r.key ≡ none
    → get r.id s.records ≡ none
    → Storable d.library r
    → Yields (bind (insert_record r d) (λ _ e. done r e)) (store r s) r
insert-Yields d s r h c vacant fresh fits =
    subst (λ o. Yields (bind o (λ _ e. done r e)) (store r s) r)
      (sym (insert_record-Storable r d fits.0 ∙ inserted)) (store-Holds d s r h, refl)
  where
    inserted :
        insert_row r.id (as_row r) d
        ≡ done tt (record d { queue_task = rows_of (insert r.id r s.records) })
    inserted =
        insert_row-done d r.id (as_row r) (row-found d s r.id h ∙ ap row_of fresh) fits.1 (
          ap (violates_active_key r.id (as_row r)) h.tasks
          ∙ Vacant-unviolated s r.id r c.apart (λ k e _. inactive-Vacant s r.id r.key k c vacant e))
        ∙ ap (λ rows. done tt (record d { queue_task = rows }))
            (ap (insert r.id (as_row r)) h.tasks ∙ insert-rows_of r.id r s.records)

abbrev insert_record_then : QueuedTaskRecord → Operation QueuedTaskRecord
insert_record_then r d = bind (insert_record r d) (λ _ e. done r e)

Yields-Holds :
    {A : Type 0} (o : Outcome A) (s t : Memory) (a : A)
    → ((d : Database) → Holds d s → Holds d t)
    → Yields o s a
    → Yields o t a
Yields-Holds (done b d) s t a f y = (f d y.0, y.1)
Yields-Holds (raised e) s t a f y = y

add_record-start :
    (d : Database) (s : Memory) (r : QueuedTaskRecord)
    → Holds d s
    → IsConsistent s
    → IsNamed s
    → add_record r d ≡ reuse_or_insert (memory_active s r.key) r d
unfolding add_record
add_record-start d s r h c n =
    ap (λ o. bind o (λ existing. reuse_or_insert existing r)) (active_of-done d s r.key h c n)

after-Agrees :
    {A : Type 0} (x : EphemeralQueueBackend × (Failure ⊎ A)) (y : Memory × A)
    (f : A → EphemeralQueueBackend → EphemeralQueueBackend)
    → ((a : A) (b : EphemeralQueueBackend) → (f a b).database ≡ b.database)
    → Agrees x y
    → Agrees (after x f) y
after-Agrees (b, inl e) y f same h = h
after-Agrees (b, inr a) y f same h = (subst (λ d. Holds d y.0) (sym (same a b)) h.0, h.1)

-- A task under an id that is not stored: the same record is answered, new or found by its key.
pub enqueue-Agrees :
    (b : EphemeralQueueBackend) (s : Memory) (q : TaskRequest) (given : Option ℕ)
    (fresh now tested seen : ℕ)
    → Holds b.database s
    → IsConsistent s
    → IsNamed s
    → get (or_else given fresh) s.records ≡ none
    → AllStorable b.database.library (memory_enqueue s q given fresh now tested seen).0
    → Agrees
        (enqueue b q given fresh now tested seen)
        (memory_enqueue s q given fresh now tested seen)
unfolding enqueue memory_enqueue new_record store
enqueue-Agrees b s q given fresh now tested seen h c n missing fit =
    elim (Option-cases (memory_active s q.key)) [
      | inl vacant ↦
          rw (vacant, memory_enqueue)
            (after-Agrees _ (memory_notify seen r (store r s), r) (notify_new_task seen)
              (λ a e. notify-database e seen a)
              (transaction-Agrees b (add_record r) _ r (
                subst (λ o. Yields o (memory_notify seen r (store r s)) r)
                  (sym (
                    add_record-start b.database s r h c n
                    ∙ ap (λ o. reuse_or_insert o r b.database) vacant))
                  (Yields-Holds (insert_record_then r b.database) (store r s) _ r
                    (λ d k. memory_notify-Holds d (store r s) seen r k)
                    (insert-Yields b.database s r h c vacant missing
                      (new-Storable (rw (vacant, memory_enqueue) at fit)))))))
      | inr (found, e) ↦
          rw (e, memory_enqueue)
            (after-Agrees _ (s, found) (notify_new_task seen) (λ a x. notify-database x seen a)
              (transaction-Agrees b (add_record r) s found (
                subst (λ o. Yields o s found)
                  (sym (
                    add_record-start b.database s r h c n
                    ∙ ap (λ o. reuse_or_insert o r b.database) e))
                  (h, refl))))
    ]
  where
    r : QueuedTaskRecord
    r = new_record q (or_else given fresh) (initial_status q.scheduled_at tested) now

    new-Storable :
        AllStorable b.database.library (memory_notify seen r (store r s))
        → Storable b.database.library r
    new-Storable f = f r.id r (
        ap (get r.id) (memory_notify-records (store r s) seen r) ∙ get-insert_self r.id r s.records)
