-- ===== src/Events/Query.antt =====
-- src/litestar_queues/events/query.py: queries, filters, order and pages.
use litestar_queues.Base.{
  ℕ, Bool, true, false, not, Option, none, some, List, ◌&&◌, ◌||◌, String, string_eq, option_eq,
  nat_eq, ◌==◌, if◌then◌else◌, none_or, some_and, length, take, drop, sort,
}
use mathlib.Core.List.{reverse}
use litestar_queues.Events.Records.{QueueEventLogRecord, not_after}

pub data QueueEventOrder : Type 0 where
  asc desc : QueueEventOrder

abbrev pub is_desc : QueueEventOrder → Bool
is_desc asc = false
is_desc desc = true

-- A query that has passed `__post_init__`: a limit is positive, the entity is its key.
pub record QueueEventQuery : Type 0 where
  pub task_id : Option String
  pub task_name : Option String
  pub event_type : Option String
  pub scope : Option String
  pub scope_key : Option String
  pub entity : Option String
  pub level : Option String
  pub order : QueueEventOrder
  pub limit : Option ℕ
  pub offset : ℕ

unfoldable pub is_paginated : QueueEventQuery → Bool
is_paginated q = some_and q.limit (λ _. true) || not (q.offset == 0)

-- Whether `require_unpaginated_query` lets the query pass; otherwise it raises QueueConfigurationError.
unfoldable pub is_unpaginated_query : Option QueueEventQuery → Bool
unfolding is_paginated
is_unpaginated_query q = none_or q (λ x. not (is_paginated x || is_desc x.order))

-- `filters()` and `getattr(record, name) == value`.
unfoldable pub match_event_record : QueueEventLogRecord → Option QueueEventQuery → Bool
match_event_record r none = true
match_event_record r (some q) =
    none_or q.task_id (λ x. r.task_id == some x)
    && none_or q.task_name (λ x. r.task_name == some x)
    && none_or q.event_type (λ x. r.event_type == x)
    && none_or q.scope (λ x. r.scope == some x)
    && none_or q.scope_key (λ x. r.scope_key == some x)
    && none_or q.entity (λ x. r.entity == some x)
    && none_or q.level (λ x. r.level == some x)

unfoldable pub sort_event_records :
    List QueueEventLogRecord → QueueEventOrder → List QueueEventLogRecord
unfolding sort not_after
sort_event_records rs order =
    let ordered = sort not_after rs in if is_desc order then reverse ordered else ordered

pub record OffsetPagination : Type 0 where
  pub items : List QueueEventLogRecord
  pub limit : ℕ
  pub offset : ℕ
  pub total : ℕ

abbrev pub page_of : List QueueEventLogRecord → ℕ → Option ℕ → OffsetPagination
page_of rs offset none = record {
  items = drop offset rs;
  limit = length rs;
  offset = offset;
  total = length rs;
}
page_of rs offset (some n) = record {
  items = take n (drop offset rs);
  limit = n;
  offset = offset;
  total = length rs;
}

unfoldable pub paginate_event_records :
    List QueueEventLogRecord → Option QueueEventQuery → OffsetPagination
paginate_event_records rs none = record {
  items = rs;
  limit = length rs;
  offset = 0;
  total = length rs;
}
paginate_event_records rs (some q) = page_of rs q.offset q.limit
