-- ===== src/Ephemeral/Holds.antt =====
-- When the file of the ephemeral backend holds what the in-memory backend has in its dicts, and how the
-- statements act on such a file.
use litestar_queues.Base.{
  ℕ, ◌≡◌, refl, sym, ap, ◌∙◌, subst, Bool, true, false, not, Option, none, some, List, [], ◌∷◌,
  String, ◌&&◌, Dict, get, insert, delete, nat_eq, string_eq, ◌==◌, if◌then◌else◌, some_and, any,
  arith, inl, inr, Bool-cases, Option-cases, eq_of_beq, All, Apart, Stored-self, map, All-mono,
  ne_of_beq, get-insert_self,
}
use litestar_queues.Models.{QueuedTaskRecord, is_terminal, is_terminal_status}
use litestar_queues.Memory.State.{Memory, Effect, keep, write, on_record, apply as apply_record}
use litestar_queues.Memory.Evolution.{Moves, Does}
use litestar_queues.Memory.Consistency.{IsConsistent, active_unique}
use litestar_queues.Ephemeral.Codec.{Library, record_mapping, record_to_payload}
use litestar_queues.Ephemeral.Codec.RoundTrip.{
  IsFaithful, Restores, record_from_payload-record_to_payload,
}
use litestar_queues.Ephemeral.Database.{
  Row, Database, as_row, columns, Storable, is_bindable, write_record-Storable, done, raised, bind,
  Outcome, select_by_id, update_row, violates_active_key, is_indexed_under, apply, on_row_where,
}

-- A record that the codec restores, with numbers that the driver takes.
pub restored-Storable :
    (l : Library) (r : QueuedTaskRecord) (payload : List ℕ)
    → IsFaithful l
    → Restores l (record_mapping l r)
    → record_to_payload l r ≡ some payload
    → is_bindable (as_row r) ≡ true
    → Storable l r
unfolding columns as_row
restored-Storable l r payload f restores written fits = (
  rw (written, columns)
      (rw (record_from_payload-record_to_payload l r payload f restores written) refl),
  fits,
)

-- The table for a dict of records.
abbrev pub rows_of : Dict ℕ QueuedTaskRecord → Dict ℕ Row
rows_of d = map (λ kv. (kv.0, as_row kv.1)) d

-- The file has a row for each record, its as_row those of the record, and the leases and identities.
pub record Holds (d : Database) (s : Memory) : Type 0 where
  pub tasks : d.queue_task ≡ rows_of s.records
  pub reservations : d.queue_reservation ≡ s.reservations
  pub maintenances : d.queue_maintenance ≡ s.maintenances

-- The row of a record, if there is one.
abbrev pub row_of : Option QueuedTaskRecord → Option Row
row_of none = none
row_of (some r) = some (as_row r)

pub get-rows_of : (i : ℕ) (d : Dict ℕ QueuedTaskRecord) → get i (rows_of d) ≡ row_of (get i d)
unfolding get
get-rows_of i [] = refl
get-rows_of i ((k, r) ∷ d) = ground (arith, get-rows_of i d)

pub insert-rows_of :
    (i : ℕ) (r : QueuedTaskRecord) (d : Dict ℕ QueuedTaskRecord)
    → insert i (as_row r) (rows_of d) ≡ rows_of (insert i r d)
unfolding insert
insert-rows_of i r [] = refl
insert-rows_of i r ((k, q) ∷ d) = elim (Bool-cases (k == i)) [
  | inl same ↦ rw same
  | inr other ↦ rw (other, insert-rows_of i r d)
]

pub delete-rows_of :
    (i : ℕ) (d : Dict ℕ QueuedTaskRecord) → delete i (rows_of d) ≡ rows_of (delete i d)
unfolding delete
delete-rows_of i [] = refl
delete-rows_of i ((k, q) ∷ d) = elim (Bool-cases (k == i)) [
  | inl same ↦ rw same (delete-rows_of i d)
  | inr other ↦ rw (other, delete-rows_of i d)
]

any-rows_of :
    (p : ℕ × Row → Bool) (es : List (ℕ × QueuedTaskRecord))
    → All (λ kv. p (kv.0, as_row kv.1) ≡ false) es
    → any p (rows_of es) ≡ false
any-rows_of p [] h = refl
any-rows_of p (kv ∷ es) h = rw (h.0, any-rows_of p es h.1)

-- No unfinished record other than the one at `id` has the key.
abbrev pub Vacant : Memory → ℕ → String → Type 0
Vacant s id key =
    (i : ℕ) (q : QueuedTaskRecord)
    → get i s.records ≡ some q
    → (i == id) ≡ false
    → q.key ≡ some key
    → is_terminal q ≡ false
    → ⊥

some_key : (o : Option String) (key : String) → some_and o (λ k. k == key) ≡ true → o ≡ some key
some_key none key e = cc
some_key (some k) key e = ap some (eq_of_beq k key e)

unindexed :
    (id i : ℕ) (key : String) (q : QueuedTaskRecord)
    → ((i == id) ≡ false → q.key ≡ some key → is_terminal q ≡ false → ⊥)
    → (not (i == id) && is_indexed_under key (as_row q)) ≡ false
unfolding is_indexed_under as_row
unindexed id i key q h = elim (Bool-cases (some_and q.key (λ k. k == key))) [
  | inl same ↦ ground (arith, h, some_key q.key key same)
  | inr other ↦ ground arith
]

pub Vacant-unviolated :
    (s : Memory) (id : ℕ) (r : QueuedTaskRecord)
    → Apart s.records
    → ((key : String) → r.key ≡ some key → is_terminal r ≡ false → Vacant s id key)
    → violates_active_key id (as_row r) (rows_of s.records) ≡ false
unfolding violates_active_key as_row
Vacant-unviolated s id r a h = elim (Bool-cases (is_terminal r)) [
  | inl over ↦ rw over refl
  | inr live ↦ elim (Option-cases r.key) [
    | inl e ↦ rw (live, e) refl
    | inr (key, e) ↦
        rw (live, e)
          (any-rows_of (λ kv. not (kv.0 == id) && is_indexed_under key kv.1) s.records
            (All-mono (λ kv. get kv.0 s.records ≡ some kv.1)
              (λ kv. (not (kv.0 == id) && is_indexed_under key (as_row kv.1)) ≡ false) s.records
              (λ kv here. unindexed id kv.0 key kv.1 (h key e live kv.0 kv.1 here))
              (Stored-self s.records a)))
  ]
]

-- Every record of the state can be written to the file, and is read back as it is.
abbrev pub AllStorable : Library → Memory → Type 0
AllStorable l s = (i : ℕ) (r : QueuedTaskRecord) → get i s.records ≡ some r → Storable l r

-- The operation succeeds with the answer, and leaves a file that holds the state.
abbrev pub Yields : {A : Type 0} → Outcome A → Memory → A → Type 0
Yields (done b d) s a = Holds d s × (b ≡ a)
Yields (raised e) s a = ⊥

abbrev pub put : ℕ → QueuedTaskRecord → Memory → Memory
put i r s = record s { records = insert i r s.records }

-- A record that stays on its lifecycle meets no other entry of the index.
Moves-Vacant :
    (s : Memory) (i : ℕ) (r r' : QueuedTaskRecord)
    → IsConsistent s
    → get i s.records ≡ some r
    → Moves r r'
    → (key : String) → r'.key ≡ some key
    → is_terminal r' ≡ false
    → Vacant s i key
Moves-Vacant s i r r' c here m key hk live j q hj other qk ql = ne_of_beq j i other (
    active_unique s j i q r key c hj here qk (sym m.key ∙ hk) ql
      (elim (Bool-cases (is_terminal r)) [
        | inl over ↦ ap is_terminal_status (sym (m.frozen over)) ∙ live
        | inr fine ↦ fine
      ]))

update_row-done :
    (d : Database) (i : ℕ) (row old : Row)
    → get i d.queue_task ≡ some old
    → is_bindable row ≡ true
    → violates_active_key i row d.queue_task ≡ false
    → update_row i row d ≡ done tt (record d { queue_task = insert i row d.queue_task })
unfolding update_row
update_row-done d i row old here fits fine = rw (fits, update_row) (rw (here, fine) refl)

write-Holds :
    (d : Database) (s : Memory) (i : ℕ) (r r' : QueuedTaskRecord)
    → Holds d s
    → IsConsistent s
    → get i s.records ≡ some r
    → Moves r r'
    → is_bindable (as_row r') ≡ true
    → update_row i (as_row r') d
      ≡ done tt (record d { queue_task = rows_of (insert i r' s.records) })
write-Holds d s i r r' h c here m fits =
    update_row-done d i (as_row r') (as_row r) found fits fine
    ∙ ap (λ rows. done tt (record d { queue_task = rows }))
        (ap (insert i (as_row r')) h.tasks ∙ insert-rows_of i r' s.records)
  where
    found : get i d.queue_task ≡ some (as_row r)
    found = ap (get i) h.tasks ∙ get-rows_of i s.records ∙ ap row_of here

    fine : violates_active_key i (as_row r') d.queue_task ≡ false
    fine =
        ap (violates_active_key i (as_row r')) h.tasks
        ∙ Vacant-unviolated s i r' c.apart (Moves-Vacant s i r r' c here m)

put-Holds :
    (d : Database) (s : Memory) (i : ℕ) (r' : QueuedTaskRecord)
    → Holds d s
    → Holds (record d { queue_task = rows_of (insert i r' s.records) }) (put i r' s)
put-Holds d s i r' h = record {
  tasks = refl;
  reservations = h.reservations;
  maintenances = h.maintenances;
}

-- An effect that follows the record's lifecycle does the same to the file and to the dict.
apply-Yields :
    {A : Type 0} (d : Database) (s : Memory) (i : ℕ) (r : QueuedTaskRecord) (x : Effect A)
    → Holds d s
    → IsConsistent s
    → get i s.records ≡ some r
    → Does Moves r x
    → AllStorable d.library (apply_record s i x).0
    → Yields (apply x d) (apply_record s i x).0 (apply_record s i x).1
apply-Yields d s i r (keep a) h c here m fit = (h, refl)
apply-Yields d s i r (write r' a) h c here m fit =
    let fits : Storable d.library r' = fit i r' (get-insert_self i r' s.records) in
    subst (λ o. Yields (bind o (λ _ e. done a e)) (put i r' s) a)
      (sym (
        write_record-Storable r' d fits.0
        ∙ ap (λ j. update_row j (as_row r') d) (m.id ∙ c.ids i r here)
        ∙ write-Holds d s i r r' h c here m fits.1))
      (put-Holds d s i r' h, refl)

pub row-found :
    (d : Database) (s : Memory) (i : ℕ) → Holds d s → get i d.queue_task ≡ row_of (get i s.records)
row-found d s i h = ap (get i) h.tasks ∙ get-rows_of i s.records

module _ {A : Type 0} (test : Row → Bool) (i : ℕ) (missing : A) (body : QueuedTaskRecord → Effect A)
    (d : Database) where
  on_row_where-missing :
      get i d.queue_task ≡ none → on_row_where test i missing body d ≡ done missing d
  unfolding on_row_where select_by_id
  on_row_where-missing e = rw (e, select_by_id) refl

  on_row_where-found :
      (row : Row)
      → get i d.queue_task ≡ some row
      → on_row_where test i missing body d
        ≡ apply (if test row then body row.payload else keep missing) d
  unfolding on_row_where select_by_id
  on_row_where-found row e = elim (Bool-cases (test row)) [
    | inl passes ↦ rw (e, passes, select_by_id) refl
    | inr fails ↦ rw (e, fails, select_by_id) refl
  ]

-- A method that looks up one record answers the same on the file, and the file holds what it leaves.
pub on_row_where-Yields :
    {A : Type 0} (test : Row → Bool) (i : ℕ) (missing : A)
    (body on_memory : QueuedTaskRecord → Effect A) (d : Database) (s : Memory)
    → Holds d s
    → IsConsistent s
    → ((r : QueuedTaskRecord) → (if test (as_row r) then body r else keep missing) ≡ on_memory r)
    → ((r : QueuedTaskRecord) → Does Moves r (on_memory r))
    → AllStorable d.library (on_record s i missing on_memory).0
    → Yields
        (on_row_where test i missing body d)
        (on_record s i missing on_memory).0
        (on_record s i missing on_memory).1
unfolding on_record as_row
on_row_where-Yields test i missing body on_memory d s h c same m fit =
    elim (Option-cases (get i s.records)) [
      | inl e ↦
          rw
            (
              on_row_where-missing test i missing body d (row-found d s i h ∙ ap row_of e),
              e,
              on_record,
            )
            (h, refl)
      | inr (r, e) ↦
          rw
            (
              on_row_where-found test i missing body d (as_row r) (row-found d s i h ∙ ap row_of e),
              same r,
              e,
              on_record,
            )
            (apply-Yields d s i r (on_memory r) h c e (m r) (rw (e, on_record) at fit))
    ]
