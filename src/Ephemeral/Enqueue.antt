-- ===== src/Ephemeral/Enqueue.antt =====
-- `enqueue`, `enqueue_many`, `get_task`, `get_tasks`, `get_task_by_key` and the wakeups that they send.
use litestar_queues.Base.{
  ℕ, suc, Bool, true, Option, none, some, List, [], ◌∷◌, String, ◌&&◌, ◌||◌, get, nat_eq, string_eq,
  ◌==◌, if◌then◌else◌, or_else, some_and, ltb, leb, select, sort, ◌⊎◌, inl, inr,
}
use litestar_queues.Models.{QueuedTaskRecord, TaskRequest, is_waiting, is_due}
use litestar_queues.Memory.Enqueue.{initial_status, new_record}
use litestar_queues.Ephemeral.Database.{
  Row, Failure, Operation, pure, ◌>>=◌, ◌>>◌, done, EphemeralQueueBackend, is_indexed_under,
  insert_record, insert_row, columns, transaction,
}

abbrev pub first_payload : List (ℕ × Row) → Option QueuedTaskRecord
first_payload [] = none
first_payload (kv ∷ rows) = some kv.1.payload

-- `_active_by_key`.
unfoldable pub active_by_key : String → Operation (Option QueuedTaskRecord)
unfolding is_indexed_under
active_by_key key d = done (first_payload (select (λ kv. is_indexed_under key kv.1) d.queue_task)) d

-- `notify_new_task`; `seen` is the clock that `is_due` reads.
unfoldable pub notify_new_task :
    ℕ → QueuedTaskRecord → EphemeralQueueBackend → EphemeralQueueBackend
unfolding is_due
notify_new_task seen r b =
    if is_waiting r.status && is_due seen r then record b { notification_event = true } else b

-- The inherited `notify_new_tasks`.
unfoldable pub notify_new_tasks :
    (ℕ → ℕ) → ℕ → ℕ → List QueuedTaskRecord → EphemeralQueueBackend → EphemeralQueueBackend
unfolding notify_new_task is_due
notify_new_tasks seen again i [] b = b
notify_new_tasks seen again i (r ∷ rs) b =
    let later = notify_new_tasks seen again (suc i) rs b in
    if is_waiting r.status && is_due (seen i) r then notify_new_task again r b else later

-- What a method does after its transaction with the answer; nothing follows an error.
abbrev pub after :
    {A : Type 0}
    → EphemeralQueueBackend × (Failure ⊎ A)
    → (A → EphemeralQueueBackend → EphemeralQueueBackend)
    → EphemeralQueueBackend × (Failure ⊎ A)
after (b, inl e) f = (b, inl e)
after (b, inr a) f = (f a b, inr a)

abbrev pub reuse_or_insert : Option QueuedTaskRecord → QueuedTaskRecord → Operation QueuedTaskRecord
reuse_or_insert (some existing) r = pure existing
reuse_or_insert none r = do insert_record r; pure r

abbrev pub active_of : Option String → Operation (Option QueuedTaskRecord)
active_of none = pure none
active_of (some key) = active_by_key key

-- The body of `operation` in `enqueue`, and of the loop in `enqueue_many`.
unfoldable pub add_record : QueuedTaskRecord → Operation QueuedTaskRecord
unfolding active_by_key insert_row columns
add_record r = do existing ← active_of r.key; reuse_or_insert existing r

-- `now`, `tested` and `seen` are the readings for the record, for its status and for `is_due`; `fresh`
-- is what `uuid4` returns.
unfoldable pub enqueue :
    EphemeralQueueBackend
    → TaskRequest
    → Option ℕ
    → ℕ
    → (now tested seen : ℕ) → EphemeralQueueBackend × (Failure ⊎ QueuedTaskRecord)
unfolding add_record transaction notify_new_task initial_status new_record
enqueue b q given fresh now tested seen =
    let r = new_record q (or_else given fresh) (initial_status q.scheduled_at tested) now in
    after (transaction b (add_record r)) (notify_new_task seen)

-- Each request comes with its `uuid4`.
unfoldable pub enqueue_loop : ℕ → List (TaskRequest × ℕ) → Operation (List QueuedTaskRecord)
unfolding add_record initial_status new_record
enqueue_loop now [] = pure []
enqueue_loop now ((q, fresh) ∷ qs) = do
  r ← add_record (new_record q fresh (initial_status q.scheduled_at now) now)
  rs ← enqueue_loop now qs
  pure (r ∷ rs)

unfoldable pub enqueue_many :
    EphemeralQueueBackend
    → List (TaskRequest × ℕ)
    → ℕ
    → (ℕ → ℕ)
    → ℕ
    → EphemeralQueueBackend × (Failure ⊎ List QueuedTaskRecord)
unfolding enqueue_loop transaction notify_new_tasks
enqueue_many b [] now seen again = (b, inr [])
enqueue_many b (q ∷ qs) now seen again =
    after (transaction b (enqueue_loop now (q ∷ qs))) (notify_new_tasks seen again 0)

abbrev pub payload_of : Option Row → Option QueuedTaskRecord
payload_of none = none
payload_of (some row) = some row.payload

unfoldable pub get_task : EphemeralQueueBackend → ℕ → Option QueuedTaskRecord
get_task b task_id = payload_of (get task_id b.database.queue_task)

-- Each id is read on a connection of its own: `b i` is what the read of the id at position `i` finds.
unfoldable pub get_tasks : (ℕ → EphemeralQueueBackend) → ℕ → List ℕ → List QueuedTaskRecord
unfolding get_task
get_tasks b i [] = []
get_tasks b i (task_id ∷ ids) =
    let rest = get_tasks b (suc i) ids in
    elim (get_task (b i) task_id) [ none ↦ rest | some r ↦ r ∷ rest ]

-- `ORDER BY created_at DESC, id DESC`.
unfoldable pub row_newer : ℕ × Row → ℕ × Row → Bool
row_newer (i, a) (j, b) =
    ltb b.created_at a.created_at || (leb b.created_at a.created_at && leb j i)

unfoldable pub get_task_by_key : EphemeralQueueBackend → String → Option QueuedTaskRecord
unfolding row_newer sort
get_task_by_key b key =
    first_payload
      (sort row_newer (select (λ kv. some_and kv.1.task_key (λ k. k == key)) b.database.queue_task))
