-- ===== src/Ephemeral/Batch/Limits.antt =====
-- Claims with queue limits: the default of base.py awaits the override that awaits it.
use litestar_queues.Base.{
  ℕ, zero, suc, ◌≡◌, refl, sym, ap, ◌∙◌, true, false, Option, none, some, String, List, [], ◌∷◌, ℤ,
  Dict, get, insert, get-insert, nat_eq, ◌==◌, if◌then◌else◌, ◌⊎◌, inl, inr, Option-cases, map,
  or_else, Bool, All, All-sort, All-select_of_All, select, subst,
}
use litestar_queues.Models.{QueuedTaskRecord, is_running}
use litestar_queues.Memory.State.{expire_record}
use litestar_queues.Ephemeral.Database.{
  Row, Database, Failure, recursion_error, EphemeralQueueBackend, Operation, done, bind, commit,
  transaction, as_row, Storable, write_record, write_record-Storable, decode_all, update_row,
  violates_active_key,
}
use litestar_queues.Ephemeral.Codec.{Library}
use litestar_queues.Ephemeral.Enqueue.{payload_of}
use litestar_queues.Ephemeral.Claim.{answer}
use litestar_queues.Ephemeral.Batch.{
  expire_all, is_late_row, expires_before, expire_overdue, overdue_records, claim_many_with_expired,
  claim_many, default_claim_many_with_expired,
}

-- The record under an id.
abbrev stored : ℕ → Database → Option QueuedTaskRecord
stored i d = payload_of (get i d.queue_task)

-- Every task that runs afterwards ran before.
abbrev pub NoneStarted : Database → Database → Type 0
NoneStarted d d' =
    (i : ℕ) (r : QueuedTaskRecord)
    → stored i d' ≡ some r
    → is_running r.status ≡ true
    → stored i d ≡ some r

expired-stored :
    (b : Bool) (q r : QueuedTaskRecord) (now : ℕ) (old : Option Row)
    → payload_of (if b then some (as_row (expire_record q now)) else old) ≡ some r
    → is_running r.status ≡ true
    → payload_of old ≡ some r
unfolding as_row expire_record
expired-stored true q r now old h k =
    absurd (cc (ap (λ (o : Option QueuedTaskRecord). is_running (or_else o r).status) h, k))
expired-stored false q r now old h k = h

abbrev pub Expirable : Library → QueuedTaskRecord → Type 0
Expirable l r = (now : ℕ) → Storable l (expire_record r now)

-- Every stored record can be written back as expired.
abbrev pub IsExpirable : Database → Type 0
IsExpirable d = All (λ kv. Expirable d.library kv.1.payload) d.queue_task

-- What a sweep does to the file.
abbrev Swept : Database → Database → Type 0
Swept d d' = NoneStarted d d' × (d'.library ≡ d.library) × (IsExpirable d → IsExpirable d')

Swept-trans : (a b c : Database) → Swept a b → Swept b c → Swept a c
Swept-trans a b c f g = (λ i r h k. f.0 i r (g.0 i r h k) k, g.1 ∙ f.1, λ h. g.2 (f.2 h))

insert-Expirable :
    (l : Library) (i : ℕ) (row : Row) (rows : Dict ℕ Row)
    → Expirable l row.payload
    → All (λ kv. Expirable l kv.1.payload) rows
    → All (λ kv. Expirable l kv.1.payload) (insert i row rows)
unfolding insert
insert-Expirable l i row [] h a = (h, tt)
insert-Expirable l i row ((j, old) ∷ rows) h a =
    elim (j == i)
      as (λ b.
        All (λ kv. Expirable l kv.1.payload)
          (if b then (j, row) ∷ rows else (j, old) ∷ insert i row rows)) [
            | true ↦ (h, a.1)
            | false ↦ (a.0, insert-Expirable l i row rows h a.1)
          ]

-- An expiry is written, whatever the index holds.
expiry-written :
    (now : ℕ) (q : QueuedTaskRecord) (d : Database)
    → Expirable d.library q
    → (d' : Database) × (write_record (expire_record q now) d ≡ done tt d') × Swept d d'
unfolding as_row expire_record update_row violates_active_key
expiry-written now q d x = elim (Option-cases (get q.id d.queue_task)) [
  | inl e ↦ (
    d,
    write_record-Storable (expire_record q now) d (x now).0
        ∙ rw ((x now).1, update_row) (rw e refl),
    (λ i r h k. h, refl, λ h. h),
  )
  | inr (row, e) ↦ (
    record d { queue_task = insert q.id (as_row (expire_record q now)) d.queue_task },
    write_record-Storable (expire_record q now) d (x now).0
        ∙ rw ((x now).1, update_row) (rw e refl),
    (
      λ i r h k.
          expired-stored (q.id == i) q r now (get i d.queue_task)
            (ap payload_of (sym (get-insert q.id i (as_row (expire_record q now)) d.queue_task))
              ∙ h)
            k,
      refl,
      λ h.
          insert-Expirable d.library q.id (as_row (expire_record q now)) d.queue_task
            (λ later. x later) h,
    ),
  )
]

expire_all-written :
    (now : ℕ) (rs : List QueuedTaskRecord) (d : Database)
    → All (Expirable d.library) rs
    → (d' : Database) × (expire_all now rs d ≡ done (map (λ r. expire_record r now) rs) d')
      × Swept d d'
unfolding expire_all
expire_all-written now [] d x = (d, refl, (λ i r h k. h, refl, λ h. h))
expire_all-written now (r ∷ rs) d x =
    let (d1, first, f) = expiry-written now r d x.0 in
    let (d2, later, g) =
      expire_all-written now rs d1 (subst (λ l. All (Expirable l) rs) (sym f.1) x.1) in
    (
      d2,
      ap (λ o. bind o (λ _. rest)) first
          ∙ ap (λ o. bind o (λ late e. done (expire_record r now ∷ late) e)) later,
      Swept-trans d d1 d2 f g,
    )
  where
    rest : Operation (List QueuedTaskRecord)
    rest d = bind (expire_all now rs d) (λ late e. done (expire_record r now ∷ late) e)

decode_all-Expirable :
    (l : Library) (rows : List (ℕ × Row))
    → All (λ kv. Expirable l kv.1.payload) rows
    → All (Expirable l) (decode_all rows)
unfolding decode_all
decode_all-Expirable l [] h = tt
decode_all-Expirable l (kv ∷ rows) h = (h.0, decode_all-Expirable l rows h.1)

overdue_records-Expirable :
    (now : ℕ) (d : Database)
    → IsExpirable d
    → All (Expirable d.library) (overdue_records now none d)
unfolding overdue_records
overdue_records-Expirable now d h =
    let P : ℕ × Row → Type 0 = λ kv. Expirable d.library kv.1.payload in
    let late = select (λ kv. is_late_row now kv.1) d.queue_task in
    All-select_of_All (Expirable d.library) _ _ (
      decode_all-Expirable d.library _
        (All-sort P expires_before late (All-select_of_All P _ d.queue_task h)))

expire_overdue-Swept :
    (b : EphemeralQueueBackend) (now : ℕ)
    → IsExpirable b.database
    → (b' : EphemeralQueueBackend) × (rs : List QueuedTaskRecord) × (expire_overdue b now none
        ≡ (b', inr rs))
      × Swept b.database b'.database
unfolding expire_overdue transaction
expire_overdue-Swept b now x =
    let (d, e, f) =
      expire_all-written now (overdue_records now none b.database) b.database
        (overdue_records-Expirable now b.database x) in
    (record b { database = d }, _, ap (commit b) e, f)

answer-raised :
    {S A B : Type 0} (f : A → B) (x : S × (Failure ⊎ A)) (e : Failure)
    → x.1 ≡ inl e
    → answer f x ≡ (x.0, inl e)
answer-raised f (b, inl e') e h = ap (λ w. (b, inl (left w e))) h
  where
    left : {A : Type 0} → Failure ⊎ A → Failure → Failure
    left (inl e) d = e
    left (inr a) d = d
answer-raised f (b, inr a) e h = absurd (cc h)

module _ (clock : ℕ → ℕ × ℕ × ℕ) (limit : ℕ) (queues : List String) (backend : Option String)
    (queue_limits : Dict String ℤ) where
  claim_with_limits :
      (depth : ℕ) (b : EphemeralQueueBackend)
      → IsExpirable b.database
      → ((claim_many_with_expired depth b clock limit queues backend (some queue_limits)).1
          ≡ inl recursion_error)
        × NoneStarted b.database
            (claim_many_with_expired depth b clock limit queues backend
              (some queue_limits)).0.database
  unfolding claim_many_with_expired default_claim_many_with_expired
  claim_with_limits zero b x = (refl, λ i r h k. h)
  claim_with_limits (suc depth) b x =
      let (b', rs, swept, f) = expire_overdue-Swept b (clock depth).1 x in
      let cut = claim_many_with_expired depth b' clock limit queues backend (some queue_limits) in
      let (same, g) = claim_with_limits depth b' (f.2 x) in
      rw (swept, answer-raised (λ both. both.0) cut recursion_error same)
        (refl, λ i r h k. f.0 i r (g i r h k) k)

  -- If every stored record can be written back as expired, a claim with queue limits claims nothing and
  -- raises RecursionError, however deep the stack is: the
  -- override of `claim_many` and the inherited `claim_many_with_expired` await each other without end.
  -- Every task that runs after the call ran before it.
  pub claim_many_with_limits_recurses :
      (depth : ℕ) (b : EphemeralQueueBackend)
      → IsExpirable b.database
      → ((claim_many depth b clock limit queues backend (some queue_limits)).1
          ≡ inl recursion_error)
        × NoneStarted b.database
            (claim_many depth b clock limit queues backend (some queue_limits)).0.database
  unfolding claim_many
  claim_many_with_limits_recurses depth b x =
      let (same, f) = claim_with_limits depth b x in
      rw
        (answer-raised (λ both. both.0)
          (claim_many_with_expired depth b clock limit queues backend (some queue_limits))
          recursion_error same)
        (refl, f)
