-- ===== src/Events/Stages.antt =====
-- The stage summaries count each event once.
use litestar_queues.Base.{
  ℕ, ◌+◌, ◌≡◌, refl, Bool, Option, none, some, List, [], ◌∷◌, String, Dict, arith, length, get,
  insert, string_eq, option_eq, ◌==◌, or_else, sort, insert_sorted, map, length-sort, Bool-cases,
  inl, inr,
}
use litestar_queues.Models.{Floats}
use litestar_queues.Events.Records.{QueueEventLogRecord, QueueEventStageSummary, not_after}
use litestar_queues.Events.Query.{sort_event_records}
use litestar_queues.Events.Summary.{
  StageAccumulator, new_stage, accumulate, group_stages, summary_of, stage_not_after,
  summarize_event_records,
}

abbrev pub sum_by {ℓ} : {A : Type ℓ} → (A → ℕ) → List A → ℕ
sum_by f [] = 0
sum_by f (x ∷ xs) = f x + sum_by f xs

module _ {ℓ} {A : Type ℓ} (f : A → ℕ) (le : A → A → Bool) where
  sum_by-insert_sorted :
      (x : A) (ys : List A) → sum_by f (insert_sorted le x ys) ≡ f x + sum_by f ys
  unfolding insert_sorted
  sum_by-insert_sorted x [] = refl
  sum_by-insert_sorted x (y ∷ ys) = ground (arith, sum_by-insert_sorted x ys)

  sum_by-sort : (xs : List A) → sum_by f (sort le xs) ≡ sum_by f xs
  unfolding sort
  sum_by-sort [] = refl
  sum_by-sort (x ∷ xs) = omega (arith, sum_by-insert_sorted x (sort le xs), sum_by-sort xs)

abbrev entry_count : Option String × StageAccumulator → ℕ
entry_count kv = kv.1.event_count

abbrev counted : Option StageAccumulator → ℕ
counted none = 0
counted (some x) = x.event_count

sum_by-insert :
    (k : Option String) (x : StageAccumulator) (d : Dict (Option String) StageAccumulator)
    → sum_by entry_count (insert k x d) + counted (get k d) ≡ sum_by entry_count d + x.event_count
unfolding insert get
sum_by-insert k x [] = omega arith
sum_by-insert k x ((j, y) ∷ d) = elim (Bool-cases (j == k)) [
  | inl same ↦ rw same (omega arith)
  | inr other ↦ rw other (omega (arith, sum_by-insert k x d))
]

module _ (lower : String → String) (fl : Floats) (add : ℕ → ℕ → ℕ) where
  accumulate-count :
      (r : QueueEventLogRecord) (a : Option StageAccumulator)
      → (accumulate lower fl add r (or_else a (new_stage lower fl add))).event_count ≡ counted a + 1
  unfolding accumulate
  accumulate-count r none = refl
  accumulate-count r (some x) = refl

  group_stages-count :
      (rs : List QueueEventLogRecord) (d : Dict (Option String) StageAccumulator)
      → sum_by entry_count (group_stages lower fl add rs d) ≡ sum_by entry_count d + length rs
  unfolding group_stages
  group_stages-count [] d = omega arith
  group_stages-count (r ∷ rs) d =
      let x = accumulate lower fl add r (or_else (get r.stage d) (new_stage lower fl add)) in
      omega (
        arith,
        group_stages-count rs (insert r.stage x d),
        sum_by-insert r.stage x d,
        accumulate-count r (get r.stage d),
      )

  sum_by-summaries :
      (d : Dict (Option String) StageAccumulator)
      → sum_by (λ s. s.event_count) (map (summary_of lower fl add) d) ≡ sum_by entry_count d
  sum_by-summaries [] = refl
  sum_by-summaries ((k, x) ∷ d) = omega (arith, sum_by-summaries d)

-- The summaries of the stages count every event exactly once: their counts add up to the number of the
-- events that are summarised.
pub summarize_event_records_total :
    (lower : String → String) (fl : Floats) (add : ℕ → ℕ → ℕ) (rs : List QueueEventLogRecord)
    → sum_by (λ s. s.event_count) (summarize_event_records lower fl add rs) ≡ length rs
unfolding summarize_event_records sort_event_records
summarize_event_records_total lower fl add rs =
    let stages = group_stages lower fl add (sort not_after rs) [] in
    omega (
      arith,
      sum_by-sort (λ (s : QueueEventStageSummary). s.event_count)
          (λ a b. stage_not_after lower fl add a.stage b.stage)
          (map (summary_of lower fl add) stages),
      sum_by-summaries lower fl add stages,
      group_stages-count lower fl add (sort not_after rs) [],
      length-sort not_after rs,
    )
