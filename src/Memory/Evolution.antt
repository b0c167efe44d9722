-- ===== src/Memory/Evolution.antt =====
-- How one call changes the records: the relation between a record before and after, lifted to the
-- whole store.
use litestar_queues.Base.{
  ℕ, ◌≤◌, ◌<◌, ◌≡◌, refl, sym, ◌∙◌, true, false, Option, none, some, ◌∷◌, Dict, get, insert,
  get-insert, nat_eq, ◌==◌, if◌then◌else◌, arith, inl, inr, Option-cases, Bool-cases, eq_of_beq,
  subst,
}
use litestar_queues.Models.{
  QueuedTaskRecord, TaskStatus, pending, scheduled, running, completed, failed, cancelled, expired,
  is_waiting, is_running, is_terminal, is_terminal_status,
}
use litestar_queues.Memory.State.{Memory, Effect, keep, write, apply, on_record}

-- The lifecycle of a record: its identity stays, its retry count never falls, a terminal status is final,
-- and a record leaves `running` for the queue only under a higher retry count.
pub record Moves (r r' : QueuedTaskRecord) : Type 0 where
  pub id : r'.id ≡ r.id
  pub key : r'.key ≡ r.key
  pub retries : r.retry_count ≤ r'.retry_count
  pub frozen : is_terminal r ≡ true → r'.status ≡ r.status
  pub bumped :
      is_running r.status ≡ true → is_waiting r'.status ≡ true → r.retry_count < r'.retry_count

pub Moves-refl : (r : QueuedTaskRecord) → Moves r r
Moves-refl r = record {
  id = refl;
  key = refl;
  retries = omega arith;
  frozen = λ _. refl;
  bumped = λ h k. absurd (running_waits r.status h k);
}
  where
    running_waits : (t : TaskStatus) → is_running t ≡ true → is_waiting t ≡ true → ⊥
    running_waits running h k = cc
    running_waits pending h k = cc
    running_waits _ h k = cc

status_cases :
    (a b c : TaskStatus) (m n k : ℕ)
    → (is_terminal_status b ≡ true → c ≡ b)
    → (is_running a ≡ true → is_waiting b ≡ true → m < n)
    → (is_running b ≡ true → is_waiting c ≡ true → n < k)
    → m ≤ n
    → n ≤ k
    → is_running a ≡ true
    → is_waiting c ≡ true
    → m < k
status_cases a pending c m n k f p q h h' ra wc = omega (arith, p ra refl)
status_cases a scheduled c m n k f p q h h' ra wc = omega (arith, p ra refl)
status_cases a running c m n k f p q h h' ra wc = omega (arith, q refl wc)
status_cases a completed c m n k f p q h h' ra wc = cc (f refl)
status_cases a failed c m n k f p q h h' ra wc = cc (f refl)
status_cases a cancelled c m n k f p q h h' ra wc = cc (f refl)
status_cases a expired c m n k f p q h h' ra wc = cc (f refl)

pub Moves-trans : {r r' r'' : QueuedTaskRecord} → Moves r r' → Moves r' r'' → Moves r r''
Moves-trans {r} {r'} {r''} f g = record {
  id = g.id ∙ f.id;
  key = g.key ∙ f.key;
  retries = omega (arith, f.retries, g.retries);
  frozen =
      λ h. g.frozen (subst (λ t. is_terminal_status t ≡ true) (sym (f.frozen h)) h) ∙ f.frozen h;
  bumped = λ h k.
      status_cases r.status r'.status r''.status r.retry_count r'.retry_count r''.retry_count
        g.frozen f.bumped g.bumped f.retries g.retries h k;
}

-- Two entries of the store, before and after.
abbrev pub Related :
    (QueuedTaskRecord → QueuedTaskRecord → Type 0)
    → Option QueuedTaskRecord
    → Option QueuedTaskRecord
    → Type 0
Related R none none = Unit
Related R (some r) (some r') = R r r'
Related R _ _ = ⊥

-- The store keeps its entries, and each is related to what it was.
abbrev pub Evolves :
    (QueuedTaskRecord → QueuedTaskRecord → Type 0)
    → Dict ℕ QueuedTaskRecord
    → Dict ℕ QueuedTaskRecord
    → Type 0
Evolves R d d' = (i : ℕ) → Related R (get i d) (get i d')

-- What is to show of a method's effect on the record that it looked up.
abbrev pub Does :
    {A : Type 0}
    → (QueuedTaskRecord → QueuedTaskRecord → Type 0)
    → QueuedTaskRecord
    → Effect A
    → Type 0
Does R r (keep a) = Unit
Does R r (write r' a) = R r r'

module _ (R : QueuedTaskRecord → QueuedTaskRecord → Type 0)
    (reflexive : (r : QueuedTaskRecord) → R r r) where
  pub Related-refl : (o : Option QueuedTaskRecord) → Related R o o
  Related-refl none = tt
  Related-refl (some r) = reflexive r

  pub Evolves-refl : (d : Dict ℕ QueuedTaskRecord) → Evolves R d d
  Evolves-refl d i = Related-refl (get i d)

  -- Writing a related record at a key leads to a related store.
  pub insert-Evolves :
      (k : ℕ) (r r' : QueuedTaskRecord) (d : Dict ℕ QueuedTaskRecord)
      → get k d ≡ some r
      → R r r'
      → Evolves R d (insert k r' d)
  insert-Evolves k r r' d e m i = rw (get-insert k i r' d) (elim (Bool-cases (k == i)) [
    | inl same ↦ rw (same, ← eq_of_beq k i same, e) m
    | inr other ↦ rw other (Related-refl (get i d))
  ])

  apply-Evolves :
      {A : Type 0} (s : Memory) (k : ℕ) (r : QueuedTaskRecord) (x : Effect A)
      → get k s.records ≡ some r
      → Does R r x
      → Evolves R s.records (apply s k x).0.records
  apply-Evolves s k r (keep a) e h = Evolves-refl s.records
  apply-Evolves s k r (write r' a) e h = insert-Evolves k r r' s.records e h

  pub on_record-Evolves :
      {A : Type 0} (s : Memory) (k : ℕ) (missing : A) (body : QueuedTaskRecord → Effect A)
      → ((r : QueuedTaskRecord) → Does R r (body r))
      → Evolves R s.records (on_record s k missing body).0.records
  unfolding on_record
  on_record-Evolves s k missing body h = elim (Option-cases (get k s.records)) [
    | inl e ↦ rw (e, on_record) (Evolves-refl s.records)
    | inr (r, e) ↦ rw (e, on_record) (apply-Evolves s k r (body r) e (h r))
  ]

Related-trans :
    {R : QueuedTaskRecord → QueuedTaskRecord → Type 0} (a b c : Option QueuedTaskRecord)
    → ((x y z : QueuedTaskRecord) → R x y → R y z → R x z)
    → Related R a b
    → Related R b c
    → Related R a c
Related-trans none none none t f g = tt
Related-trans none none (some z) t f g = g
Related-trans none (some y) c t f g = absurd f
Related-trans (some x) none c t f g = absurd f
Related-trans (some x) (some y) none t f g = g
Related-trans (some x) (some y) (some z) t f g = t x y z f g

pub Evolves-trans :
    {R : QueuedTaskRecord → QueuedTaskRecord → Type 0} (a b c : Dict ℕ QueuedTaskRecord)
    → ((x y z : QueuedTaskRecord) → R x y → R y z → R x z)
    → Evolves R a b
    → Evolves R b c
    → Evolves R a c
Evolves-trans a b c t f g i = Related-trans (get i a) (get i b) (get i c) t (f i) (g i)

module _ (R : QueuedTaskRecord → QueuedTaskRecord → Type 0) where
  -- A loop over the entries relates the stores if it relates each pair of entries.
  pub cons-Evolves :
      (k : ℕ) (r r' : QueuedTaskRecord) (d d' : Dict ℕ QueuedTaskRecord)
      → R r r'
      → Evolves R d d'
      → Evolves R ((k, r) ∷ d) ((k, r') ∷ d')
  unfolding get
  cons-Evolves k r r' d d' m f i =
      elim (k == i)
        as (λ b. Related R (if b then some r else get i d) (if b then some r' else get i d')) [
          | true ↦ m
          | false ↦ f i
        ]
