-- ===== src/Backend.antt =====
-- src/litestar_queues/backends/base.py: the helpers that every queue backend shares.
use package.text.Mathlib.Text.{starts_with}
use litestar_queues.Base.{
  ℕ, ◌/◌, ◌^◌, Bool, true, Option, none, some, List, [], ◌∷◌, ◌&&◌, String, ℤ, pos, negsuc, sub_ℕ,
  min_ℤ, Dict, get, ◌==◌, string_eq, if◌then◌else◌, none_or, some_and, or_else,
}
use litestar_queues.Models.{
  Value, null, integer, float, decimal, object, Fields, get_field, Floats, QueuedTaskRecord,
}

abbrev pub external_dispatch_reservation_prefix : String
external_dispatch_reservation_prefix = "__litestar_queues_dispatching__:"

abbrev pub stale_heartbeat_error : String
stale_heartbeat_error = "Task heartbeat stale"

pub record DispatchRepairCandidates : Type 0 where
  pub records : List QueuedTaskRecord
  pub examined : ℕ
  pub limit_reached : Bool

-- What a backend call may raise: `QueueConfigurationError`, or an arithmetic error of `retry_schedule`.
pub data QueueError : Type 0 where
  queue_configuration_error arithmetic_error : QueueError

-- `max(0, n)`.
abbrev pub non_negative : ℤ → ℕ
non_negative (pos n) = n
non_negative (negsuc n) = 0

-- `int(d)` of a decimal rounds toward zero.
abbrev count_value : Floats → Value → ℕ
count_value fl (integer n) = non_negative n
count_value fl (float x) = non_negative (fl.truncate x)
count_value fl (decimal (pos c) k) = c / 10 ^ k
count_value fl _ = 0

abbrev count_entry : Floats → Option Value → ℕ
count_entry fl none = 0
count_entry fl (some v) = count_value fl v

unfoldable pub interruption_count : Floats → QueuedTaskRecord → ℕ
interruption_count fl r = count_entry fl (get "interruptions" r.metadata)

unfoldable pub attempts_consumed : Floats → QueuedTaskRecord → ℤ
attempts_consumed fl r = sub_ℕ r.retry_count (interruption_count fl r)

infixl 5 ◌>>=◌
abbrev ◌>>=◌ : {A B : Type 0} → Option A → (A → Option B) → Option B
none >>= f = none
some a >>= f = f a

-- `delay = min(delay, float(max_delay))`, if there is a `max_delay`.
abbrev cap_delay : Floats → ℕ → Option Value → Option ℕ
cap_delay fl delay none = some delay
cap_delay fl delay (some null) = some delay
cap_delay fl delay (some v) = do
  cap ← fl.to_float v
  some (if fl.less cap delay then cap else delay)

-- `float(value.get(name, default))`.
abbrev float_field : Floats → Fields → String → ℕ → Option ℕ
float_field fl fields name default = elim (get_field name fields) [
  | none ↦ some default
  | some v ↦ fl.to_float v
]

abbrev backoff_schedule : Floats → Fields → ℤ → ℕ → Option (ℕ × Option ℕ)
backoff_schedule fl fields attempts queued_at = do
  initial ← float_field fl fields "initial_delay" fl.zero_float
  multiplier ← float_field fl fields "multiplier" fl.one_float
  factor ← fl.power multiplier attempts
  delay ← cap_delay fl (fl.multiply initial factor) (get_field "max_delay" fields)
  if fl.less fl.zero_float delay
      then (fl.add_seconds queued_at delay >>= λ at. some (queued_at, some at))
      else some (queued_at, none)

abbrev schedule_by : Floats → QueuedTaskRecord → ℕ → Option Value → Option (ℕ × Option ℕ)
schedule_by fl r queued_at (some (object fields)) =
    backoff_schedule fl fields (attempts_consumed fl r) queued_at
schedule_by fl r queued_at _ = some (queued_at, none)

-- `now` is the argument, or what the clock reads. `none`: the arithmetic raised.
unfoldable pub retry_schedule : Floats → QueuedTaskRecord → ℕ → Option (ℕ × Option ℕ)
retry_schedule fl r now = schedule_by fl r now (get "retry_backoff" r.metadata)

unfoldable pub is_external_dispatch_reservation : Option String → Bool
is_external_dispatch_reservation ref =
    some_and ref (λ s. starts_with s external_dispatch_reservation_prefix)

-- `same` is Python's `==` of two values; a missing key reads as `None`.
unfoldable pub contains_items :
    (Value → Value → Bool) → Dict String Value → Dict String Value → Bool
contains_items same source [] = true
contains_items same source ((k, v) ∷ expected) =
    same (or_else (get k source) null) v && contains_items same source expected

unfoldable pub record_matches_filters :
    (Value → Value → Bool)
    → QueuedTaskRecord
    → (task_name queue : Option String) → (kwargs metadata : Option (Dict String Value)) → Bool
record_matches_filters same r task_name queue kwargs metadata =
    none_or task_name (λ name. r.task_name == name)
    && none_or queue (λ name. r.queue == name)
    && none_or kwargs (contains_items same r.kwargs)
    && none_or metadata (contains_items same r.metadata)

-- `current_error or STALE_HEARTBEAT_ERROR`: the empty text is false.
unfoldable pub stale_requeue_error : Option String → String
stale_requeue_error none = stale_heartbeat_error
stale_requeue_error (some e) = if e == "" then stale_heartbeat_error else e

-- A callable, "preserve", or a bound.
pub data StaleRequeuePriority : Type 0 where
  callable : (ℤ → Value) → StaleRequeuePriority
  preserve : StaleRequeuePriority
  bound : ℤ → StaleRequeuePriority

abbrev integer_or_none : Value → Option ℤ
integer_or_none (integer n) = some n
integer_or_none _ = none

-- `none`: a callable policy returned no `int`, and QueueConfigurationError is raised.
unfoldable pub stale_requeue_priority : ℤ → StaleRequeuePriority → Option ℤ
stale_requeue_priority priority (callable policy) = integer_or_none (policy priority)
stale_requeue_priority priority preserve = some priority
stale_requeue_priority priority (bound cap) = some (min_ℤ priority cap)
