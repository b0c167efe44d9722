-- ===== src/Memory/Recovery/Reports.antt =====
-- The report of a stale recovery, and the error of a callable priority policy.
use litestar_queues.Base.{
  ℕ, ◌+◌, ◌≡◌, refl, Bool, true, false, not, Option, none, some, List, [], ◌∷◌, arith, length,
  length-append, ◌++◌, ap, ◌∙◌, sym, if◌then◌else◌, insert, nat_eq, string_eq, ◌&&◌, Bool-cases,
  Option-cases, inl, inr, ltb_ℤ, some_and, ℤ,
}
use litestar_queues.Models.{Floats, QueuedTaskRecord, is_waiting, StaleTaskRecoveryResult}
use litestar_queues.Backend.{
  QueueError, queue_configuration_error, StaleRequeuePriority, attempts_consumed, retry_schedule,
  stale_requeue_priority,
}
use litestar_queues.Memory.State.{Memory}
use litestar_queues.Memory.Recovery.{
  Recovery, rescheduled_record, count_failed, prioritize, reschedule, recover_one, recover_loop,
  requeue_on_stale, stale_candidates, requeue_stale_running,
}

-- Whether a stale record is queued again, and whether its failure needs a handler.
abbrev pub retries : Floats → QueuedTaskRecord → Bool
retries fl r = requeue_on_stale r && ltb_ℤ (attempts_consumed fl r) r.max_retries

abbrev pub needs_handler : QueuedTaskRecord → Bool
needs_handler r = not (requeue_on_stale r)

abbrev pub ids_where : (QueuedTaskRecord → Bool) → List (ℕ × QueuedTaskRecord) → List ℕ
ids_where p [] = []
ids_where p ((k, r) ∷ es) = if p r then r.id ∷ ids_where p es else ids_where p es

-- The report names these tasks, in this order, and counts them.
abbrev Names : StaleTaskRecoveryResult → (requeued failed handlers : List ℕ) → Type 0
Names x requeued failed handlers =
    ((x.requeued_task_ids ≡ requeued) × (x.requeued ≡ length requeued))
    × ((x.failed_task_ids ≡ failed) × (x.failed_count ≡ length failed))
    × ((x.handler_needed_task_ids ≡ handlers) × (x.handler_needed ≡ length handlers))

abbrev has_raised : Option QueueError → Bool
has_raised e = some_and e (λ _. true)

append_one :
    (xs ys : List ℕ) (n i : ℕ)
    → (xs ≡ ys) × (n ≡ length ys)
    → (xs ++ i ∷ [] ≡ ys ++ i ∷ []) × (n + 1 ≡ length (ys ++ i ∷ []))
append_one xs ys n i h =
    (ap (λ zs. zs ++ i ∷ []) h.0, omega (arith, h.1, length-append ys (i ∷ [])))

module _ (fl : Floats) (policy : StaleRequeuePriority) (now k : ℕ) (r : QueuedTaskRecord)
    (a b c : List ℕ) where
  -- What one candidate adds to the report, unless it raises an error.
  abbrev After : Bool → StaleTaskRecoveryResult → Type 0
  After again y =
      if again
      then Names y (a ++ r.id ∷ []) b c
      else (if needs_handler r
          then Names y a (b ++ r.id ∷ []) (c ++ r.id ∷ [])
          else Names y a (b ++ r.id ∷ []) c)

  prioritize-After :
      (x : Recovery) (at : ℕ × Option ℕ) (p : Option ℤ)
      → Names x.result a b c
      → (prioritize fl policy now k r x at p).raised ≡ none
      → After true (prioritize fl policy now k r x at p).result
  prioritize-After x at none h calm = absurd (cc calm)
  prioritize-After x at (some p) h calm =
      (append_one x.result.requeued_task_ids a x.result.requeued r.id h.0, h.1, h.2)

  reschedule-After :
      (x : Recovery) (at : Option (ℕ × Option ℕ))
      → Names x.result a b c
      → (reschedule fl policy now k r x at).raised ≡ none
      → After true (reschedule fl policy now k r x at).result
  reschedule-After x none h calm = absurd (cc calm)
  reschedule-After x (some at) h calm =
      prioritize-After x at (stale_requeue_priority r.priority policy) h calm

  count_failed-After :
      (x : StaleTaskRecoveryResult)
      → Names x a b c
      → After false (count_failed r.id (needs_handler r) x)
  count_failed-After x h =
      elim (needs_handler r)
        as (λ n.
          if n
          then Names (count_failed r.id n x) a (b ++ r.id ∷ []) (c ++ r.id ∷ [])
          else Names (count_failed r.id n x) a (b ++ r.id ∷ []) c) [
            | true ↦ (
              h.0,
              append_one x.failed_task_ids b x.failed_count r.id h.1,
              append_one x.handler_needed_task_ids c x.handler_needed r.id h.2,
            )
            | false ↦ (h.0, append_one x.failed_task_ids b x.failed_count r.id h.1, h.2)
          ]

  recover_one-After :
      (x : Recovery)
      → Names x.result a b c
      → (recover_one fl policy now k r x).raised ≡ none
      → After (retries fl r) (recover_one fl policy now k r x).result
  unfolding recover_one
  recover_one-After x h calm = elim (Bool-cases (retries fl r)) [
    | inl again ↦ rw again (reschedule-After x (retry_schedule fl r now) h (rw again at calm))
    | inr out ↦ rw out (count_failed-After x.result h)
  ]

append_nil : (xs : List ℕ) → xs ++ [] ≡ xs
append_nil [] = refl
append_nil (x ∷ xs) = ap (λ ys. x ∷ ys) (append_nil xs)

append_snoc : (xs ys : List ℕ) (i : ℕ) → (xs ++ i ∷ []) ++ ys ≡ xs ++ i ∷ ys
append_snoc [] ys i = refl
append_snoc (x ∷ xs) ys i = ap (λ zs. x ∷ zs) (append_snoc xs ys i)

recover_loop-Names :
    (fl : Floats) (policy : StaleRequeuePriority) (clock : ℕ → ℕ) (es : List (ℕ × QueuedTaskRecord))
    (a b c : List ℕ) (x : Recovery)
    → Names x.result a b c
    → (recover_loop fl policy clock es x).raised ≡ none
    → Names
        (recover_loop fl policy clock es x).result
        (a ++ ids_where (retries fl) es)
        (b ++ ids_where (λ r. not (retries fl r)) es)
        (c ++ ids_where (λ r. not (retries fl r) && needs_handler r) es)
unfolding recover_loop
recover_loop-Names fl policy clock [] a b c x h calm =
    rw (append_nil a, append_nil b, append_nil c) h
recover_loop-Names fl policy clock ((k, r) ∷ es) a b c x h calm =
    elim (Option-cases (recover_one fl policy (clock k) k r x).raised) [
      | inl quiet ↦ rw quiet (
          split (retries fl r) (needs_handler r)
            (recover_one-After fl policy (clock k) k r a b c x h quiet)
            (λ a' b' c' y. recover_loop-Names fl policy clock es a' b' c' x' y (rw quiet at calm)))
      | inr (e, loud) ↦ absurd (cc (loud, rw loud at calm))
    ]
  where
    x' : Recovery
    x' = recover_one fl policy (clock k) k r x

    rest : (List ℕ) × (List ℕ) × (List ℕ)
    rest = (
      ids_where (retries fl) es,
      ids_where (λ r. not (retries fl r)) es,
      ids_where (λ r. not (retries fl r) && needs_handler r) es,
    )

    split :
        (again handler : Bool)
        → (if again
            then Names x'.result (a ++ r.id ∷ []) b c
            else (if handler
                then Names x'.result a (b ++ r.id ∷ []) (c ++ r.id ∷ [])
                else Names x'.result a (b ++ r.id ∷ []) c))
        → ((a' b' c' : List ℕ)
            → Names x'.result a' b' c'
            → Names
                (recover_loop fl policy clock es x').result
                (a' ++ rest.0)
                (b' ++ rest.1)
                (c' ++ rest.2))
        → Names
            (recover_loop fl policy clock es x').result
            (a ++ (if again then r.id ∷ rest.0 else rest.0))
            (b ++ (if not again then r.id ∷ rest.1 else rest.1))
            (c ++ (if not again && handler then r.id ∷ rest.2 else rest.2))
    split true handler y next = rw (← append_snoc a rest.0 r.id) (next (a ++ r.id ∷ []) b c y)
    split false true y next =
        rw (← append_snoc b rest.1 r.id, ← append_snoc c rest.2 r.id)
          (next a (b ++ r.id ∷ []) (c ++ r.id ∷ []) y)
    split false false y next = rw (← append_snoc b rest.1 r.id) (next a (b ++ r.id ∷ []) c y)

abbrev pub before_any : Memory → Recovery
before_any s = record {
  records = s.records;
  result = record {
    requeued = 0;
    failed_count = 0;
    skipped = 0;
    handler_needed = 0;
    requeued_task_ids = [];
    failed_task_ids = [];
    handler_needed_task_ids = [];
  };
  raised = none;
}

-- A stale recovery that raises no error names in its report, in the order in which it took the stale records
-- up: as requeued those that may be requeued and have retries left, as failed all others, and as needing a
-- handler the failed ones that may not be requeued; and its counts are the lengths of these lists.
pub requeue_stale_running_reports :
    (s : Memory) (fl : Floats) (policy : StaleRequeuePriority) (now stale_after : ℕ)
    (limit : Option ℕ) (clock : ℕ → ℕ)
    → (requeue_stale_running s fl policy now stale_after limit clock).2 ≡ none
    → let report = (requeue_stale_running s fl policy now stale_after limit clock).1 in
      let stale = stale_candidates now stale_after limit s.records in
      ((report.requeued_task_ids ≡ ids_where (retries fl) stale)
        × (report.failed_task_ids ≡ ids_where (λ r. not (retries fl r)) stale)
        × (report.handler_needed_task_ids
            ≡ ids_where (λ r. not (retries fl r) && not (requeue_on_stale r)) stale))
      × (report.requeued ≡ length report.requeued_task_ids)
      × (report.failed_count ≡ length report.failed_task_ids)
      × (report.handler_needed ≡ length report.handler_needed_task_ids)
unfolding requeue_stale_running
requeue_stale_running_reports s fl policy now stale_after limit clock calm =
    let h =
      recover_loop-Names fl policy clock (stale_candidates now stale_after limit s.records) [] [] []
        (before_any s) ((refl, refl), (refl, refl), (refl, refl)) calm in
    (
      (h.0.0, h.1.0, h.2.0),
      h.0.1 ∙ ap length (sym h.0.0),
      h.1.1 ∙ ap length (sym h.1.0),
      h.2.1 ∙ ap length (sym h.2.0),
    )

abort_lem :
    (fl : Floats) (policy : StaleRequeuePriority) (now k : ℕ) (r : QueuedTaskRecord) (x : Recovery)
    (at : ℕ × Option ℕ)
    → retries fl r ≡ true
    → retry_schedule fl r now ≡ some at
    → stale_requeue_priority r.priority policy ≡ none
    → recover_one fl policy now k r x ≡ record {
      records = insert k (rescheduled_record at r) x.records;
      result = x.result;
      raised = some queue_configuration_error;
    }
unfolding recover_one
abort_lem fl policy now k r x at again dated refused = rw again (rw dated (rw refused refl))

-- When a callable priority policy answers the first stale record, which has retries left, with a value that
-- is no `int`, the whole recovery stops: it raises QueueConfigurationError, reports nothing, and leaves
-- every other record as it was, while this one goes back to the queue, waiting, under the retry count of
-- the attempt that went stale and with that attempt's heartbeat.
pub requeue_stale_running_aborts :
    (s : Memory) (fl : Floats) (policy : StaleRequeuePriority) (now stale_after : ℕ)
    (limit : Option ℕ) (clock : ℕ → ℕ) (k : ℕ) (r : QueuedTaskRecord)
    (rest : List (ℕ × QueuedTaskRecord)) (at : ℕ × Option ℕ)
    → stale_candidates now stale_after limit s.records ≡ (k, r) ∷ rest
    → retries fl r ≡ true
    → retry_schedule fl r (clock k) ≡ some at
    → stale_requeue_priority r.priority policy ≡ none
    → let (t, report, e) = requeue_stale_running s fl policy now stale_after limit clock in
      (e ≡ some queue_configuration_error)
      × (report ≡ (before_any s).result)
      × ((r' : QueuedTaskRecord) × (t ≡ record s { records = insert k r' s.records })
          × (is_waiting r'.status ≡ true)
          × (r'.retry_count ≡ r.retry_count)
          × (r'.heartbeat_at ≡ r.heartbeat_at))
unfolding requeue_stale_running recover_loop rescheduled_record
requeue_stale_running_aborts s fl policy now stale_after limit clock k r rest at first again dated
      refused =
    rw first (
      rw (abort_lem fl policy (clock k) k r (before_any s) at again dated refused)
        (refl, refl, (rescheduled_record at r, refl, ground arith, refl, refl)))
