-- ===== src/Events/Retention.antt =====
-- Retention: what `cleanup_events` deletes, keeps and reports.
use litestar_queues.Base.{
  ℕ, suc, ◌+◌, ◌≤◌, ◌≡◌, ◌≢◌, refl, sym, ◌∙◌, ap, subst, Bool, true, false, not, Option, none, some,
  List, [], ◌∷◌, ◌||◌, Dict, arith, length, select, any, get, delete, get-delete, delete-Apart, All,
  All-take, All-sort, All-select_both, Apart, Apart-sort, Apart-select, Apart-take, Stored,
  Stored-self, nat_eq, ◌==◌, sort, eq_self, beq_of_ne, eq_of_beq, Bool-cases, inl, inr, length-take,
  All-mono, if◌then◌else◌,
}
use litestar_queues.Events.Records.{QueueEventLogRecord}
use litestar_queues.Events.Query.{QueueEventQuery}
use litestar_queues.Events.Log.{EventLog, is_doomed, entry_not_after, limited, cleanup_events}

abbrev Entries : Type 0
Entries = Dict ℕ QueueEventLogRecord

-- Dropping a key first.
select-delete :
    (k : ℕ) (q : ℕ → Bool) (d : Entries)
    → select (λ kv. not (kv.0 == k || q kv.0)) d ≡ select (λ kv. not (q kv.0)) (delete k d)
unfolding delete
select-delete k q [] = refl
select-delete k q ((j, r) ∷ d) = elim (Bool-cases (j == k)) [
  | inl same ↦ rw same (select-delete k q d)
  | inr other ↦ rw other (rw (select-delete k q d) refl)
]

delete-absent : (k : ℕ) (d : Entries) → All (λ y. k ≢ y.0) d → delete k d ≡ d
unfolding delete
delete-absent k [] a = refl
delete-absent k ((j, r) ∷ d) a = rw (beq_of_ne j k (λ e. a.0 (sym e)), delete-absent k d a.1) refl

length-delete :
    (k : ℕ) (v : QueueEventLogRecord) (d : Entries)
    → Apart d
    → get k d ≡ some v
    → length (delete k d) + 1 ≡ length d
unfolding delete get
length-delete k v [] a h = cc h
length-delete k v ((j, r) ∷ d) a h = elim (Bool-cases (j == k)) [
  | inl same ↦ rw same (
      rw (delete-absent k d (subst (λ i. All (λ y. i ≢ y.0) d) (eq_of_beq j k same) a.0))
        (omega arith))
  | inr other ↦ rw other (omega (arith, length-delete k v d a.1 (rw other at h)))
]

Stored-delete :
    (k : ℕ) (d xs : Entries) → All (λ y. k ≢ y.0) xs → Stored d xs → Stored (delete k d) xs
Stored-delete k d [] a h = tt
Stored-delete k d ((j, r) ∷ xs) a h =
    (rw (get-delete k j d, beq_of_ne k j a.0) h.0, Stored-delete k d xs a.1 h.1)

is_among : Entries → ℕ → Bool
is_among xs i = any (λ x. i == x.0) xs

length-select_everything : (d : Entries) → length (select (λ kv. true) d) ≡ length d
length-select_everything [] = refl
length-select_everything (x ∷ d) = ap suc (length-select_everything d)

-- Deleting stored entries shortens the store by their number.
length-select :
    (xs d : Entries)
    → Apart xs
    → Apart d
    → Stored d xs
    → length (select (λ kv. not (any (λ x. kv.0 == x.0) xs)) d) + length xs ≡ length d
length-select [] d a b h = omega (arith, length-select_everything d)
length-select ((k, r) ∷ xs) d a b h = rw (select-delete k (λ i. any (λ x. i == x.0) xs) d) (
    omega (
      arith,
      length-select xs (delete k d) a.1 (delete-Apart k d b) (Stored-delete k d xs a.0 h.1),
      length-delete k r d b h.0,
    ))

get-select :
    (q : ℕ → Bool) (i : ℕ) (d : Entries)
    → q i ≡ false
    → get i (select (λ kv. not (q kv.0)) d) ≡ get i d
unfolding get
get-select q i [] h = refl
get-select q i ((j, r) ∷ d) h = elim (Bool-cases (j == i)) [
  | inl same ↦ rw (eq_of_beq j i same, h, eq_self i) refl
  | inr other ↦ elim (Bool-cases (q j)) [
    | inl out ↦ rw (out, other) (get-select q i d h)
    | inr stays ↦ rw (stays, other) (get-select q i d h)
  ]
]

limited-Apart : (n : Option ℕ) (xs : Entries) → Apart xs → Apart (limited n xs)
limited-Apart none xs a = a
limited-Apart (some n) xs a = Apart-take n xs a

limited-All :
    (P : ℕ × QueueEventLogRecord → Type 0) (n : Option ℕ) (xs : Entries)
    → All P xs
    → All P (limited n xs)
limited-All P none xs a = a
limited-All P (some n) xs a = All-take P n xs a

length-limited : (n : ℕ) (xs : Entries) → length (limited (some n) xs) ≤ n
length-limited n xs = omega (arith, length-take n xs)

any-cons :
    (i k : ℕ) (r : QueueEventLogRecord) (xs : Entries)
    → any (λ x. i == x.0) ((k, r) ∷ xs) ≡ ((i == k) || any (λ x. i == x.0) xs)
any-cons i k r xs = refl

get-select_out :
    (q : ℕ → Bool) (i : ℕ) (d : Entries) → q i ≡ true → get i (select (λ kv. not (q kv.0)) d) ≡ none
unfolding get
get-select_out q i [] h = refl
get-select_out q i ((j, r) ∷ d) h = elim (Bool-cases (q j)) [
  | inl out ↦ rw out (get-select_out q i d h)
  | inr stays ↦ elim (Bool-cases (j == i)) [
    | inl same ↦ absurd (cc (stays, h, ap q (eq_of_beq j i same)))
    | inr other ↦ rw (stays, other) (get-select_out q i d h)
  ]
]

-- The record under an id, unless a cleanup may delete it.
abbrev pub spared :
    ℕ
    → Option QueueEventQuery
    → List QueueEventQuery
    → Option QueueEventLogRecord
    → Option QueueEventLogRecord
spared before match exclude none = none
spared before match exclude (some r) = if is_doomed before match exclude r then none else some r

module _ (log : EventLog) (before : ℕ) (match : Option QueueEventQuery)
    (exclude : List QueueEventQuery) (limit : Option ℕ) (apart : Apart log.records) where
  abbrev doomed : Entries
  doomed =
      limited limit
        (sort entry_not_after (select (λ kv. is_doomed before match exclude kv.1) log.records))

  doomed-Apart : Apart doomed
  doomed-Apart =
      limited-Apart limit _ (Apart-sort entry_not_after _ (Apart-select _ log.records apart))

  abbrev Chosen : ℕ × QueueEventLogRecord → Type 0
  Chosen kv = (get kv.0 log.records ≡ some kv.1) × (is_doomed before match exclude kv.1 ≡ true)

  doomed-Chosen : All Chosen doomed
  doomed-Chosen = limited-All Chosen limit _ (
      All-sort Chosen entry_not_after _ (
        All-select_both (λ kv. get kv.0 log.records ≡ some kv.1)
          (λ kv. is_doomed before match exclude kv.1) log.records (Stored-self log.records apart)))

  doomed-Stored : Stored log.records doomed
  doomed-Stored =
      All-mono Chosen (λ kv. get kv.0 log.records ≡ some kv.1) doomed (λ kv h. h.0) doomed-Chosen

  among-spared :
      (i : ℕ) (xs : Entries)
      → All Chosen xs
      → any (λ x. i == x.0) xs ≡ true
      → spared before match exclude (get i log.records) ≡ none
  among-spared i [] h e = absurd (cc e)
  among-spared i ((k, v) ∷ xs) h e = elim (Bool-cases (i == k)) [
    | inl same ↦
        rw (subst (λ j. get j log.records ≡ some v) (sym (eq_of_beq i k same)) h.0.0)
          (rw h.0.1 refl)
    | inr other ↦ among-spared i xs h.1 (rw other at e)
  ]

  -- A cleanup of a log whose objects are told apart reports the number of records by which the log got
  -- shorter; and whatever the log had under an id, if it is not older than the given time, does not match
  -- or is excluded, is what the log has under it afterwards.
  pub cleanup_events_retains :
      let (after, deleted) = cleanup_events log before match exclude limit in
      (length after.records + deleted ≡ length log.records)
      × ((i : ℕ)
          → spared before match exclude (get i after.records)
            ≡ spared before match exclude (get i log.records))
  unfolding cleanup_events
  cleanup_events_retains = elim (Bool-cases (length doomed == 0)) [
    | inl nothing ↦ rw nothing (omega arith, λ i. refl)
    | inr some_of_them ↦ rw some_of_them (
      length-select doomed log.records doomed-Apart apart doomed-Stored,
      λ i. elim (Bool-cases (any (λ x. i == x.0) doomed)) [
        | inl among ↦
            ap (spared before match exclude)
              (get-select_out (λ j. any (λ x. j == x.0) doomed) i log.records among)
            ∙ sym (among-spared i doomed doomed-Chosen among)
        | inr apart_from ↦
            ap (spared before match exclude)
              (get-select (λ j. any (λ x. j == x.0) doomed) i log.records apart_from)
      ],
    )
  ]
