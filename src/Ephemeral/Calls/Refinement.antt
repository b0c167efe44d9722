-- ===== src/Ephemeral/Calls/Refinement.antt =====
-- The ephemeral backend implements the in-memory backend.
use litestar_queues.Base.{
  ℕ, ◌≡◌, refl, sym, subst, List, [], ◌∷◌, map, get, nat_eq, string_eq, option_eq, inl, inr,
  Option-cases,
}
use litestar_queues.Memory.State.{Memory, new_memory}
use litestar_queues.Memory.Consistency.{IsConsistent, new_memory-IsConsistent}
use litestar_queues.Memory.Calls.{Setting, perform, Calm}
use litestar_queues.Memory.Enqueue as MemoryEnqueue
use litestar_queues.Memory.History.{Existing, perform-IsConsistent, perform-Changes}
use litestar_queues.Ephemeral.Database.{EphemeralQueueBackend, as_row, new_backend, new_database}
use litestar_queues.Ephemeral.Enqueue.{get_task}
use litestar_queues.Ephemeral.Holds.{Holds, AllStorable, row-found}
use litestar_queues.Ephemeral.Codec.{Library}
use litestar_queues.Ephemeral.Calls.Serializer.{submit-library}
use litestar_queues.Ephemeral.Simulation.{IsNamed}
use litestar_queues.Ephemeral.Simulation.Names.{
  Changes-IsNamed, enqueue-IsNamed, new_memory-IsNamed,
}
use litestar_queues.Ephemeral.Calls.{
  TaskCall, enqueues, assigns, claims, completes, fails, cancels, interrupts, reserves_scheduled,
  reserves, clears, replaces, releases, finalizes, sets_ref, sets_backend, as_call, submit,
  run_memory, run_ephemeral, IsFresh, FreshRun,
}
use litestar_queues.Ephemeral.Calls.Simulated.{IsMatch, submit-Agrees}

perform-Calm : (e : Setting) (c : TaskCall) (s : Memory) → Calm e (as_call c) s
perform-Calm e (enqueues q given fresh now tested seen) s = tt
perform-Calm e (assigns i worker_id n) s = tt
perform-Calm e (claims i due now n ref) s = tt
perform-Calm e (completes i now v n) s = tt
perform-Calm e (fails i now error retry n retry_at queued_at) s = tt
perform-Calm e (cancels i now include_running n) s = tt
perform-Calm e (interrupts i n worker_id queued_at) s = tt
perform-Calm e (reserves_scheduled i now backend ref n old) s = tt
perform-Calm e (reserves i now due backend ref profile n) s = tt
perform-Calm e (clears i seen n ref) s = tt
perform-Calm e (replaces i n old ref) s = tt
perform-Calm e (releases i seen ref backend profile) s = tt
perform-Calm e (finalizes i old backend ref profile) s = tt
perform-Calm e (sets_ref i backend ref profile) s = tt
perform-Calm e (sets_backend i seen backend profile) s = tt

changed :
    (e : Setting) (c : TaskCall) (s : Memory)
    → Existing (as_call c)
    → IsConsistent s
    → IsNamed s
    → IsNamed (perform e (as_call c) s)
changed e c s x k n =
    Changes-IsNamed (perform-Changes e (as_call c) s x (perform-Calm e c s) k.apart) n

-- Only an enqueue creates a record.
perform-IsNamed :
    (e : Setting) (c : TaskCall) (s : Memory)
    → IsFresh e c s
    → IsConsistent s
    → IsNamed s
    → IsNamed (perform e (as_call c) s)
perform-IsNamed e (enqueues q given fresh now tested seen) s f c n =
    enqueue-IsNamed s q given fresh now tested seen n f
perform-IsNamed e (assigns i worker_id k) s f c n = changed e (assigns i worker_id k) s tt c n
perform-IsNamed e (claims i due now k ref) s f c n = changed e (claims i due now k ref) s tt c n
perform-IsNamed e (completes i now v k) s f c n = changed e (completes i now v k) s tt c n
perform-IsNamed e (fails i now error retry k retry_at queued_at) s f c n =
    changed e (fails i now error retry k retry_at queued_at) s tt c n
perform-IsNamed e (cancels i now include_running k) s f c n =
    changed e (cancels i now include_running k) s tt c n
perform-IsNamed e (interrupts i k worker_id queued_at) s f c n =
    changed e (interrupts i k worker_id queued_at) s tt c n
perform-IsNamed e (reserves_scheduled i now backend ref k old) s f c n =
    changed e (reserves_scheduled i now backend ref k old) s tt c n
perform-IsNamed e (reserves i now due backend ref profile k) s f c n =
    changed e (reserves i now due backend ref profile k) s tt c n
perform-IsNamed e (clears i seen k ref) s f c n = changed e (clears i seen k ref) s tt c n
perform-IsNamed e (replaces i k old ref) s f c n = changed e (replaces i k old ref) s tt c n
perform-IsNamed e (releases i seen ref backend profile) s f c n =
    changed e (releases i seen ref backend profile) s tt c n
perform-IsNamed e (finalizes i old backend ref profile) s f c n =
    changed e (finalizes i old backend ref profile) s tt c n
perform-IsNamed e (sets_ref i backend ref profile) s f c n =
    changed e (sets_ref i backend ref profile) s tt c n
perform-IsNamed e (sets_backend i seen backend profile) s f c n =
    changed e (sets_backend i seen backend profile) s tt c n

pub submit-IsMatch :
    (b : EphemeralQueueBackend) (s : Memory) (e : Setting) (c : TaskCall)
    → IsMatch b s
    → IsFresh e c s
    → AllStorable b.database.library (perform e (as_call c) s)
    → IsMatch (submit e c b).0 (perform e (as_call c) s)
submit-IsMatch b s e c m f fit = record {
  file = (submit-Agrees b s m e c f fit).0;
  consistent = perform-IsConsistent e (as_call c) s (perform-Calm e c s) m.consistent;
  named = perform-IsNamed e c s f m.consistent m.named;
}

-- After each call, the file can take every record that the in-memory backend has, and reads it back as it
-- is.
abbrev pub StorableRun : Library → Setting → List TaskCall → Memory → Type 0
StorableRun l e [] s = Unit
StorableRun l e (c ∷ cs) s =
    let s' = perform e (as_call c) s in AllStorable l s' × StorableRun l e cs s'

run-Agrees :
    (e : Setting) (cs : List TaskCall) (b : EphemeralQueueBackend) (s : Memory)
    → IsMatch b s
    → FreshRun e cs s
    → StorableRun b.database.library e cs s
    → Holds (run_ephemeral e cs b).0.database (run_memory e cs s).0
      × ((run_ephemeral e cs b).1 ≡ map inr (run_memory e cs s).1)
run-Agrees e [] b s m f fit = (m.file, refl)
run-Agrees e (c ∷ cs) b s m f fit =
    let s' = perform e (as_call c) s in
    let rest =
      run-Agrees e cs (submit e c b).0 s' (submit-IsMatch b s e c m f.0 fit.0) f.1
        (subst (λ l. StorableRun l e cs s') (sym (submit-library e c b)) fit.1) in
    (rest.0, rw ((submit-Agrees b s m e c f.0 fit.0).1, rest.1) refl)

new_backend-IsMatch : (l : Library) → IsMatch (new_backend l) new_memory
unfolding new_backend new_database new_memory
new_backend-IsMatch l = record {
  file = record { tasks = refl; reservations = refl; maintenances = refl };
  consistent = new_memory-IsConsistent;
  named = new_memory-IsNamed;
}

get_task-Holds :
    (b : EphemeralQueueBackend) (s : Memory) (i : ℕ)
    → Holds b.database s
    → get_task b i ≡ MemoryEnqueue.get_task s i
unfolding get_task MemoryEnqueue.get_task as_row
get_task-Holds b s i h = elim (Option-cases (get i s.records)) [
  | inl e ↦ rw (row-found b.database s i h, get_task, e) refl
  | inr (r, e) ↦ rw (row-found b.database s i h, get_task, e) refl
]

-- From the empty backends, any sequence of enqueues, claims, assignments, settlements with a retry count,
-- cancellations, interruptions and dispatch calls on single tasks, in which each enqueue comes with an id
-- that is not stored, and after each of which the serializer and SQLite's integers can take every record
-- that the in-memory backend has and give it back as it is, raises nothing on the ephemeral backend and
-- gets from it, call by call, the answers of the in-memory backend; afterwards `get_task` finds the same record under every id.
pub ephemeral-refines-memory :
    (l : Library) (e : Setting) (cs : List TaskCall)
    → FreshRun e cs new_memory
    → StorableRun l e cs new_memory
    → ((run_ephemeral e cs (new_backend l)).1 ≡ map inr (run_memory e cs new_memory).1)
      × ((i : ℕ)
          → get_task (run_ephemeral e cs (new_backend l)).0 i
            ≡ MemoryEnqueue.get_task (run_memory e cs new_memory).0 i)
unfolding new_backend new_database
ephemeral-refines-memory l e cs f fit =
    let (file, same) = run-Agrees e cs (new_backend l) new_memory (new_backend-IsMatch l) f fit in
    (same, λ i. get_task-Holds (run_ephemeral e cs (new_backend l)).0 _ i file)
