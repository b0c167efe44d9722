-- ===== src/Tests/Events.antt =====
-- A log of two events with room for two.
use litestar_queues.Base.{
  List, All, true, Apart, ℕ, ◌+◌, ◌-◌, ◌≤◌, ◌≡◌, refl, none, some, [], ◌∷◌, ◌++◌, arith, get,
  nat_eq, string_eq, option_eq, length, Apart, drop,
}
use litestar_queues.Events.Query.{paginate_event_records}
use litestar_queues.Events.Summary.{summarize_event_records}
use litestar_queues.Events.Log.{publish_event, cleanup_events}
use litestar_queues.Events.Pages.{IsNumbered, publish_event_bounded, paginate_event_records_tiles}
use litestar_queues.Events.Retention.{cleanup_events_retains, spared}
use litestar_queues.Events.Stages.{sum_by, summarize_event_records_total}
use litestar_queues.Events.Records.{EventHistoryExtraColumn, validate_event_extra_filter}
use litestar_queues.Events.Columns.{
  validate_event_history_extra_columns, validate_columns, is_unquoted_identifier_part,
}
use litestar_queues.Events.Validation.{
  IsDeclarable, folded, validate_event_history_extra_columns_filterable,
}
use litestar_queues.Tests.Data.{whole_floats, event, later_event, event_log, everything}

event_log-Apart : Apart event_log.records
event_log-Apart = ((λ e. omega (arith, e), tt), (tt, tt))

event_log-IsNumbered : IsNumbered event_log
event_log-IsNumbered = record { apart = event_log-Apart; below = (omega arith, (omega arith, tt)) }

publish_event_bounded_example :
    let after = publish_event event_log later_event in
    (length after.records ≤ event_log.memory_capacity)
    × ((lost : ℕ) × (lost ≡ length event_log.records + 1 - event_log.memory_capacity)
        × (after.records
            ≡ drop lost (event_log.records ++ (event_log.next_identity, later_event) ∷ [])))
    × IsNumbered after
publish_event_bounded_example = publish_event_bounded event_log later_event event_log-IsNumbered

paginate_event_records_tiles_example :
    let rs = event ∷ later_event ∷ [] in
    let page = paginate_event_records rs (some (record everything { limit = some 1 })) in
    let rest =
      paginate_event_records rs
        (some (record everything { limit = none; offset = everything.offset + 1 })) in
    let all = paginate_event_records rs (some (record everything { limit = none })) in
    (page.items ++ rest.items ≡ all.items)
    × (length page.items ≤ 1)
    × (page.total ≡ length rs)
    × (rest.total ≡ length rs)
paginate_event_records_tiles_example =
    paginate_event_records_tiles (event ∷ later_event ∷ []) everything 1

cleanup_events_retains_example :
    let (after, deleted) = cleanup_events event_log 15 none [] none in
    (length after.records + deleted ≡ length event_log.records)
    × ((i : ℕ)
        → spared 15 none [] (get i after.records) ≡ spared 15 none [] (get i event_log.records))
cleanup_events_retains_example = cleanup_events_retains event_log 15 none [] none event_log-Apart

summarize_event_records_total_example :
    sum_by
      (λ s. s.event_count)
      (summarize_event_records (λ x. x) whole_floats ◌+◌ (event ∷ later_event ∷ []))
    ≡ length (event ∷ later_event ∷ [])
summarize_event_records_total_example =
    summarize_event_records_total (λ x. x) whole_floats ◌+◌ (event ∷ later_event ∷ [])

abbrev tenant : EventHistoryExtraColumn
tenant = record { name = "tenant_1"; source = "tenant"; indexed = true }

validate_event_history_extra_columns_filterable_example :
    (◌≡◌ {A = List EventHistoryExtraColumn} (tenant ∷ []) (tenant ∷ []))
    × All (IsDeclarable (λ x. x)) (tenant ∷ [])
    × Apart (folded (λ x. x) (tenant ∷ []))
    × All
        (λ c.
          validate_event_extra_filter (λ x. x) (some ((c.name, "acme") ∷ [])) (tenant ∷ [])
          ≡ some ((c.name, "acme") ∷ []))
        (tenant ∷ [])
unfolding validate_event_history_extra_columns validate_columns is_unquoted_identifier_part
validate_event_history_extra_columns_filterable_example =
    validate_event_history_extra_columns_filterable (λ x. x) (tenant ∷ []) (tenant ∷ []) "acme" refl
