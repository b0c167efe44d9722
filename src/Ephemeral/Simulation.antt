-- ===== src/Ephemeral/Simulation.antt =====
-- What a method of the ephemeral backend answers and leaves, next to the same method in memory.
pub mod Admission
pub mod Names
use litestar_queues.Base.{
  ℕ, ◌≡◌, refl, sym, ap, ◌∙◌, subst, Bool, true, false, not, Option, none, some, List, [], ◌∷◌,
  String, ◌&&◌, Dict, get, insert, nat_eq, string_eq, ◌==◌, if◌then◌else◌, some_and, or_else, arith,
  inl, inr, ◌⊎◌, Bool-cases, Option-cases, All, Apart, Stored-self, select, eq_of_beq, eq_self,
}
use litestar_queues.Models.{
  QueuedTaskRecord, TaskRequest, is_terminal, is_terminal_status, is_waiting, is_due,
}
use litestar_queues.Memory.State.{Memory, Effect, keep, on_record, notify_new_task as memory_notify}
use litestar_queues.Memory.Evolution.{Moves, Does}
use litestar_queues.Memory.Consistency.{IsConsistent, active_by_key-some}
use litestar_queues.Memory.Dispatch.{notify_result}
use litestar_queues.Memory.Enqueue.{
  new_record, initial_status, store, claim_key, if_active, get_task_by_key,
  active_by_key as memory_active, enqueue as memory_enqueue,
}
use litestar_queues.Ephemeral.Database.{
  Row, Database, Failure, Outcome, done, raised, bind, as_row, commit, EphemeralQueueBackend,
  is_indexed_under, violates_active_key, insert_row, on_row_where, transaction, Operation,
}
use litestar_queues.Ephemeral.Enqueue.{
  active_by_key, active_of, add_record, reuse_or_insert, after, enqueue, first_payload,
  notify_new_task,
}
use litestar_queues.Ephemeral.Dispatch.{notify_found}
use litestar_queues.Ephemeral.Holds.{
  AllStorable, Holds, Yields, rows_of, row_of, row-found, insert-rows_of, on_row_where-Yields,
  Vacant, Vacant-unviolated,
}

-- The backend's file holds the state, and the answer is no error and the same.
abbrev pub Agrees : {A : Type 0} → EphemeralQueueBackend × (Failure ⊎ A) → Memory × A → Type 0
Agrees x y = Holds x.0.database y.0 × (x.1 ≡ inr y.1)

pub transaction-Agrees :
    {A : Type 0} (b : EphemeralQueueBackend) (operation : Operation A) (t : Memory) (a : A)
    → Yields (operation b.database) t a
    → Agrees (transaction b operation) (t, a)
unfolding transaction
transaction-Agrees b operation t a y = go b (operation b.database) t a y
  where
    go :
        {A : Type 0} (b : EphemeralQueueBackend) (o : Outcome A) (t : Memory) (a : A)
        → Yields o t a
        → Agrees (commit b o) (t, a)
    go b (done x d) t a y = (y.0, ap inr y.1)
    go b (raised e) t a y = absurd y

pub on_row-Agrees :
    {A : Type 0} (test : Row → Bool) (i : ℕ) (missing : A)
    (body on_memory : QueuedTaskRecord → Effect A) (b : EphemeralQueueBackend) (s : Memory)
    → Holds b.database s
    → IsConsistent s
    → ((r : QueuedTaskRecord) → (if test (as_row r) then body r else keep missing) ≡ on_memory r)
    → ((r : QueuedTaskRecord) → Does Moves r (on_memory r))
    → AllStorable b.database.library (on_record s i missing on_memory).0
    → Agrees (transaction b (on_row_where test i missing body)) (on_record s i missing on_memory)
on_row-Agrees test i missing body on_memory b s h c same m fit =
    transaction-Agrees b (on_row_where test i missing body) _ _
      (on_row_where-Yields test i missing body on_memory b.database s h c same m fit)

pub memory_notify-Holds :
    (d : Database) (s : Memory) (seen : ℕ) (r : QueuedTaskRecord)
    → Holds d s
    → Holds d (memory_notify seen r s)
unfolding memory_notify
memory_notify-Holds d s seen r h =
    elim (is_waiting r.status && is_due seen r)
      as (λ c. Holds d (if c then record s { notification_event = true } else s)) [
        | true ↦ record {
          tasks = h.tasks;
          reservations = h.reservations;
          maintenances = h.maintenances;
        }
        | false ↦ h
      ]

pub memory_notify-records :
    (s : Memory) (seen : ℕ) (r : QueuedTaskRecord) → (memory_notify seen r s).records ≡ s.records
unfolding memory_notify
memory_notify-records s seen r = ground arith

pub notify_result-records :
    (seen : ℕ) (x : Memory × Option QueuedTaskRecord)
    → (notify_result seen x).0.records ≡ x.0.records
notify_result-records seen (s, none) = refl
notify_result-records seen (s, some r) = memory_notify-records s seen r

pub notify-database :
    (b : EphemeralQueueBackend) (seen : ℕ) (r : QueuedTaskRecord)
    → (notify_new_task seen r b).database ≡ b.database
unfolding notify_new_task
notify-database b seen r = ground arith

pub notify_found-Agrees :
    (seen : ℕ) (x : EphemeralQueueBackend × (Failure ⊎ Option QueuedTaskRecord))
    (y : Memory × Option QueuedTaskRecord)
    → Agrees x y
    → Agrees (after x (notify_found seen)) (notify_result seen y)
notify_found-Agrees seen (b, inl e) (s, o) h = cc
notify_found-Agrees seen (b, inr none) (s, none) h = h
notify_found-Agrees seen (b, inr none) (s, some r) h = cc
notify_found-Agrees seen (b, inr (some q)) (s, none) h = cc
notify_found-Agrees seen (b, inr (some q)) (s, some r) h = (
  subst (λ d. Holds d (memory_notify seen r s)) (sym (notify-database b seen q))
      (memory_notify-Holds b.database s seen r h.0),
  h.1,
)

-- A key's entry names a stored record with that key.
abbrev pub IsNamed : Memory → Type 0
IsNamed s =
    (key : String) (i : ℕ)
    → get key s.keys ≡ some i
    → (r : QueuedTaskRecord) × (get i s.records ≡ some r) × (r.key ≡ some key)

first-some :
    (key : String) (s : Memory) (es : List (ℕ × QueuedTaskRecord)) (q : QueuedTaskRecord)
    → All (λ kv. get kv.0 s.records ≡ some kv.1) es
    → first_payload (select (λ kv. is_indexed_under key kv.1) (rows_of es)) ≡ some q
    → (j : ℕ) × (get j s.records ≡ some q) × (is_indexed_under key (as_row q) ≡ true)
unfolding as_row
first-some key s [] q a e = cc
first-some key s ((i, r) ∷ es) q a e = elim (Bool-cases (is_indexed_under key (as_row r))) [
  | inl hit ↦
      let here = rw hit at e in
      (i, a.0 ∙ here, subst (λ o. is_indexed_under key (as_row (or_else o r)) ≡ true) here hit)
  | inr miss ↦ first-some key s es q a.1 (rw miss at e)
]

first-none :
    (key : String) (es : List (ℕ × QueuedTaskRecord)) (i : ℕ) (r : QueuedTaskRecord)
    → first_payload (select (λ kv. is_indexed_under key kv.1) (rows_of es)) ≡ none
    → get i es ≡ some r
    → is_indexed_under key (as_row r) ≡ false
unfolding get
first-none key [] i r e here = cc
first-none key ((k, q) ∷ es) i r e here = elim (Bool-cases (is_indexed_under key (as_row q))) [
  | inl hit ↦ absurd (cc (rw hit at e))
  | inr miss ↦ elim (Bool-cases (k == i)) [
    | inl same ↦
        subst (λ o. is_indexed_under key (as_row (or_else o q)) ≡ false) (rw same at here) miss
    | inr other ↦ first-none key es i r (rw miss at e) (rw other at here)
  ]
]

indexed :
    (over : Bool) (o : Option String) (key : String)
    → (not over && some_and o (λ k. k == key)) ≡ true
    → (o ≡ some key) × (over ≡ false)
indexed true o key e = absurd (cc e)
indexed false none key e = absurd (cc e)
indexed false (some j) key e = (ap some (eq_of_beq j key e), refl)

if_active-some :
    (o : Option QueuedTaskRecord) (r : QueuedTaskRecord)
    → if_active o ≡ some r
    → (o ≡ some r) × (is_terminal r ≡ false)
if_active-some none r e = cc
if_active-some (some q) r e = elim (Bool-cases (is_terminal q)) [
  | inl over ↦ cc (rw over at e)
  | inr live ↦
      let here = rw live at e in (here, subst (λ o. is_terminal (or_else o q) ≡ false) here live)
]

-- A record that `active_by_key` finds is stored, unfinished and holds the key.
pub memory_active-some :
    (s : Memory) (key : String) (r : QueuedTaskRecord)
    → IsNamed s
    → memory_active s (some key) ≡ some r
    → (i : ℕ) × (get i s.records ≡ some r) × (r.key ≡ some key) × (is_terminal r ≡ false)
unfolding memory_active get_task_by_key
memory_active-some s key r n e = elim (Option-cases (get key s.keys)) [
  | inl vacant ↦ cc (rw (vacant, memory_active, get_task_by_key) at e)
  | inr (i, named) ↦
      let (q, here, own) = n key i named in
      let (same, live) =
        if_active-some (get i s.records) r (rw (named, memory_active, get_task_by_key) at e) in
      (i, same, subst (λ o. (or_else o q).key ≡ some key) (sym here ∙ same) own, live)
]

first-active :
    (s : Memory) (key : String) (o : Option QueuedTaskRecord)
    → IsConsistent s
    → IsNamed s
    → first_payload (select (λ kv. is_indexed_under key kv.1) (rows_of s.records)) ≡ o
    → o ≡ memory_active s (some key)
unfolding as_row is_indexed_under
first-active s key none c n e = elim (Option-cases (memory_active s (some key))) [
  | inl vacant ↦ sym vacant
  | inr (r, found) ↦
      let (i, here, own, live) = memory_active-some s key r n found in
      let miss = first-none key s.records i r e here in
      absurd (cc (rw (live, own, eq_self key) at miss))
]
first-active s key (some q) c n e =
    let (j, here, hit) = first-some key s s.records q (Stored-self s.records c.apart) e in
    let (own, live) = indexed (is_terminal q) q.key key hit in
    sym (active_by_key-some s j q (some key) key refl (c.owned j q key here own live) here live)

pub active_of-done :
    (d : Database) (s : Memory) (key : Option String)
    → Holds d s
    → IsConsistent s
    → IsNamed s
    → active_of key d ≡ done (memory_active s key) d
unfolding memory_active active_by_key
active_of-done d s none h c n = refl
active_of-done d s (some key) h c n =
    ap (λ o. done o d)
      (ap (λ rows. first_payload (select (λ kv. is_indexed_under key kv.1) rows)) h.tasks
        ∙ first-active s key _ c n refl)
