-- ===== src/Events/Log.antt =====
-- `InMemoryQueueEventLog` of src/litestar_queues/backends/memory/event_log.py.
use litestar_queues.Base.{
  ℕ, ◌+◌, ◌-◌, Bool, not, Option, none, some, List, [], ◌∷◌, ◌++◌, ◌&&◌, String, Dict, nat_eq, ◌==◌,
  if◌then◌else◌, ltb, length, take, drop, select, any, sort, map,
}
use litestar_queues.Models.{Floats}
use litestar_queues.Events.Records.{
  QueueEventLogRecord, QueueEventStageSummary, EventHistoryExtraColumn, not_after,
  validate_event_extra_filter, event_extra_filter_matches,
}
use litestar_queues.Events.Query.{
  QueueEventQuery, QueueEventOrder, asc, OffsetPagination, match_event_record, sort_event_records,
  paginate_event_records, is_unpaginated_query,
}
use litestar_queues.Events.Summary.{summarize_event_records}

-- Each record stands beside the identity of its object; `next_identity` is that of the next one.
pub record EventLog : Type 0 where
  pub memory_capacity : ℕ
  pub extra_columns : List EventHistoryExtraColumn
  pub records : Dict ℕ QueueEventLogRecord
  pub next_identity : ℕ

unfoldable pub new_event_log : ℕ → List EventHistoryExtraColumn → EventLog
new_event_log capacity columns = record {
  memory_capacity = capacity;
  extra_columns = columns;
  records = [];
  next_identity = 0;
}

-- The record is what `event_log_record_from_event` made of the event. The slice drops the overflow, if
-- there is one.
unfoldable pub publish_event : EventLog → QueueEventLogRecord → EventLog
publish_event log r =
    let records = log.records ++ (log.next_identity, r) ∷ [] in
    record log {
      records = drop (length records - log.memory_capacity) records;
      next_identity = log.next_identity + 1;
    }

abbrev pub contents : EventLog → List QueueEventLogRecord
contents log = map (λ kv. kv.1) log.records

abbrev pub order_of : Option QueueEventQuery → QueueEventOrder
order_of none = asc
order_of (some q) = q.order

-- `none`: QueueConfigurationError. With no resolved filters the second filter passes every record.
unfoldable pub query_events :
    (String → String)
    → EventLog
    → Option QueueEventQuery
    → Option (Dict String String)
    → Option OffsetPagination
unfolding validate_event_extra_filter match_event_record event_extra_filter_matches
    sort_event_records paginate_event_records
query_events lower log query extra =
    elim (validate_event_extra_filter lower extra log.extra_columns) [
      | none ↦ none
      | some resolved ↦
          let matched =
            select (λ r. event_extra_filter_matches r resolved)
              (select (λ r. match_event_record r query) (contents log)) in
          some (paginate_event_records (sort_event_records matched (order_of query)) query)
    ]

-- `none`: QueueConfigurationError.
unfoldable pub summarize_stages :
    (String → String)
    → Floats
    → (ℕ → ℕ → ℕ)
    → EventLog
    → Option QueueEventQuery
    → Option (List QueueEventStageSummary)
unfolding is_unpaginated_query match_event_record summarize_event_records
summarize_stages lower fl add log query =
    if not (is_unpaginated_query query)
    then none
    else some (
        summarize_event_records lower fl add
          (select (λ r. match_event_record r query) (contents log)))

-- Whether `cleanup_events` may delete the record.
unfoldable pub is_doomed :
    ℕ → Option QueueEventQuery → List QueueEventQuery → QueueEventLogRecord → Bool
unfolding match_event_record
is_doomed before match exclude r =
    ltb r.occurred_at before
    && match_event_record r match
    && not (any (λ q. match_event_record r (some q)) exclude)

abbrev pub entry_not_after : ℕ × QueueEventLogRecord → ℕ × QueueEventLogRecord → Bool
entry_not_after a b = not_after a.1 b.1

abbrev pub limited {ℓ} : {A : Type ℓ} → Option ℕ → List A → List A
limited none xs = xs
limited (some n) xs = take n xs

-- The second component is the number of deleted records.
unfoldable pub cleanup_events :
    EventLog → ℕ → Option QueueEventQuery → List QueueEventQuery → Option ℕ → EventLog × ℕ
unfolding is_doomed sort not_after
cleanup_events log before match exclude limit =
    let doomed =
      limited limit
        (sort entry_not_after (select (λ kv. is_doomed before match exclude kv.1) log.records)) in
    if length doomed == 0 then (log, 0) else (
      record log { records = select (λ kv. not (any (λ x. kv.0 == x.0) doomed)) log.records },
      length doomed,
    )

-- `clear`.
unfoldable pub clear_events : EventLog → EventLog
clear_events log = record log { records = [] }
