-- ===== src/Memory/Fences/Once.antt =====
-- An attempt is settled at most once, and a worker that lost its attempt never settles it.
use litestar_queues.Base.{
  ℕ, ◌≡◌, refl, sym, ◌∙◌, subst, true, Option, none, some, List, arith, All, Option-cases, inl, inr,
  get, get-insert_self, nat_eq,
}
use litestar_queues.Models.{QueuedTaskRecord, is_running}
use litestar_queues.Memory.State.{Memory, Effect, keep, write, apply, on_record}
use litestar_queues.Memory.Enqueue.{get_task}
use litestar_queues.Memory.Settle.{is_fenced_off}
use litestar_queues.Memory.Evolution.{Moves, Related}
use litestar_queues.Memory.Consistency.{IsConsistent}
use litestar_queues.Memory.Calls.{
  Setting, Call, completes, fails, interrupts, perform, Calm, run, CalmRun, Avoids,
}
use litestar_queues.Memory.History.{Existing, perform-Changes, perform-IsConsistent}
use litestar_queues.Memory.Fences.{
  Past, PastAt, run-PastAt, Settlement, completing, failing, interrupting, settle, settlement_of,
  settle-on_record, settlement-refused, settlement-Ends, Ends,
}

on_record-refused :
    {A : Type 0} (s : Memory) (i : ℕ) (missing : A) (body : QueuedTaskRecord → Effect A)
    → ((r : QueuedTaskRecord) → get i s.records ≡ some r → body r ≡ keep missing)
    → on_record s i missing body ≡ (s, missing)
unfolding on_record
on_record-refused s i missing body h = elim (Option-cases (get i s.records)) [
  | inl e ↦ rw (e, on_record) refl
  | inr (r, e) ↦ rw (e, on_record) (rw (h r e) refl)
]

-- Over a finished attempt no settlement does anything.
pub settle-PastAt :
    (e : Setting) (y : Settlement) (s : Memory) (i n : ℕ)
    → PastAt n i s.records
    → settle e y s i n ≡ (s, none)
settle-PastAt e y s i n p =
    settle-on_record e y s i n
    ∙ on_record-refused s i none (settlement_of e y n) (λ r h. settlement-refused e y n r (p r h))

apply-Ends :
    (s : Memory) (i n : ℕ) (x : Effect (Option QueuedTaskRecord)) (r' : QueuedTaskRecord)
    → Ends n x
    → (apply s i x).1 ≡ some r'
    → PastAt n i (apply s i x).0.records
apply-Ends s i n (keep a) r' h e = cc (h, e)
apply-Ends s i n (write q a) r' h e =
    λ r g. subst (Past n) (some_inj q r (sym (get-insert_self i q s.records) ∙ g)) h
  where
    some_inj :
        (q r : QueuedTaskRecord) → ◌≡◌ {A = Option QueuedTaskRecord} (some q) (some r) → q ≡ r
    some_inj q r e = cc

on_record-Ends :
    (s : Memory) (i n : ℕ) (body : QueuedTaskRecord → Effect (Option QueuedTaskRecord))
    (r' : QueuedTaskRecord)
    → ((r : QueuedTaskRecord) → Ends n (body r))
    → (on_record s i none body).1 ≡ some r'
    → PastAt n i (on_record s i none body).0.records
unfolding on_record
on_record-Ends s i n body r' h e = elim (Option-cases (get i s.records)) [
  | inl m ↦ cc (rw (m, on_record) at e)
  | inr (r, m) ↦ rw (m, on_record) (apply-Ends s i n (body r) r' (h r) (rw (m, on_record) at e))
]

settled-PastAt :
    (e : Setting) (x : Settlement) (s : Memory) (i n : ℕ) (r' : QueuedTaskRecord)
    → (settle e x s i n).1 ≡ some r'
    → PastAt n i (settle e x s i n).0.records
settled-PastAt e x s i n r' h = rw (settle-on_record e x s i n) (
    on_record-Ends s i n (settlement_of e x n) r' (settlement-Ends e x n)
      (rw (settle-on_record e x s i n) at h))

settle-IsConsistent :
    (e : Setting) (x : Settlement) (s : Memory) (i n : ℕ)
    → IsConsistent s
    → IsConsistent (settle e x s i n).0
settle-IsConsistent e (completing now v) s i n = perform-IsConsistent e (completes i now v n) s tt
settle-IsConsistent e (failing now error retry retry_at queued_at) s i n =
    perform-IsConsistent e (fails i now error retry n retry_at queued_at) s tt
settle-IsConsistent e (interrupting worker_id queued_at) s i n =
    perform-IsConsistent e (interrupts i n worker_id queued_at) s tt

-- When a fenced completion, failure or interruption of an attempt has succeeded in a consistent
-- store, then after any further calls, in which `complete_task` and `fail_task` carry a retry
-- count and none of which raises in a stale recovery or creates a record under the same id, every
-- completion, failure or interruption with the attempt's retry count is refused and changes
-- nothing.
pub settled_at_most_once :
    (e : Setting) (x y : Settlement) (s : Memory) (i n : ℕ) (r' : QueuedTaskRecord) (cs : List Call)
    → IsConsistent s
    → (settle e x s i n).1 ≡ some r'
    → CalmRun e cs (settle e x s i n).0
    → All (Avoids i) cs
    → settle e y (run e cs (settle e x s i n).0) i n ≡ (run e cs (settle e x s i n).0, none)
settled_at_most_once e x y s i n r' cs c h calm av =
    settle-PastAt e y (run e cs (settle e x s i n).0) i n (
      run-PastAt e n i cs (settle e x s i n).0 calm av (settle-IsConsistent e x s i n c)
        (settled-PastAt e x s i n r' h))

lost-Past :
    (n : ℕ) (r r' : QueuedTaskRecord)
    → Moves r r'
    → is_running r.status ≡ true
    → r.retry_count ≡ n
    → is_fenced_off (some n) r' ≡ true
    → Past n r'
unfolding is_fenced_off
lost-Past n r r' m up e f = ground (arith, m.retries, m.bumped)

lost-Related :
    (n : ℕ) (a : Option QueuedTaskRecord) (r r' : QueuedTaskRecord)
    → a ≡ some r
    → Related Moves a (some r')
    → is_running r.status ≡ true
    → r.retry_count ≡ n
    → is_fenced_off (some n) r' ≡ true
    → Past n r'
lost-Related n none r r' h m up e f = cc
lost-Related n (some q) r r' h m up e f =
    lost-Past n r r' (subst (λ x. Moves x r') (some_inj q r h) m) up e f
  where
    some_inj :
        (q r : QueuedTaskRecord) → ◌≡◌ {A = Option QueuedTaskRecord} (some q) (some r) → q ≡ r
    some_inj q r e = cc

-- When a call that creates and deletes no record takes an attempt away from the worker that runs
-- it (the record is no longer running under the worker's retry count), then after any further
-- calls, in which `complete_task` and `fail_task` carry a retry count and none of which raises in
-- a stale recovery or creates a record under the same id, every completion, failure or
-- interruption by that worker is refused and changes nothing; the store is consistent at the
-- start.
pub lost_attempt_refused :
    (e : Setting) (y : Settlement) (c : Call) (s : Memory) (i n : ℕ) (r : QueuedTaskRecord)
    (cs : List Call)
    → IsConsistent s
    → get_task s i ≡ some r
    → is_running r.status ≡ true
    → r.retry_count ≡ n
    → Existing c
    → Calm e c s
    → ((r' : QueuedTaskRecord)
        → get_task (perform e c s) i ≡ some r'
        → is_fenced_off (some n) r' ≡ true)
    → CalmRun e cs (perform e c s)
    → All (Avoids i) cs
    → settle e y (run e cs (perform e c s)) i n ≡ (run e cs (perform e c s), none)
unfolding get_task
lost_attempt_refused e y c s i n r cs ok here up gen ex calm lost calms av =
    settle-PastAt e y (run e cs (perform e c s)) i n (
      run-PastAt e n i cs (perform e c s) calms av (perform-IsConsistent e c s calm ok) (λ r' h.
        lost-Related n (get i s.records) r r' here
          (subst (Related Moves (get i s.records)) h
            ((perform-Changes e c s ex calm ok.apart).moves i))
          up gen (lost r' h)))
