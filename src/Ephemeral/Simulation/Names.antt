-- ===== src/Ephemeral/Simulation/Names.antt =====
-- The entries of the keys name stored records.
use litestar_queues.Base.{
  ℕ, ◌≡◌, refl, sym, ap, ◌∙◌, subst, true, false, Option, none, some, String, get, insert, nat_eq,
  string_eq, ◌==◌, or_else, inl, inr, Bool-cases, Option-cases, eq_of_beq, get-insert, Bool, ◌&&◌,
  if◌then◌else◌,
}
use litestar_queues.Models.{QueuedTaskRecord, TaskRequest, is_waiting, is_due}
use litestar_queues.Memory.State.{Memory, new_memory, notify_new_task}
use litestar_queues.Memory.Evolution.{Moves, Related}
use litestar_queues.Memory.Changes.{Changes}
use litestar_queues.Memory.Enqueue.{
  new_record, initial_status, store, claim_key, active_by_key, enqueue,
}
use litestar_queues.Ephemeral.Simulation.{IsNamed}

pub new_memory-IsNamed : IsNamed new_memory
unfolding new_memory get
new_memory-IsNamed key i e = absurd (cc e)

Related-after :
    (a b : Option QueuedTaskRecord) (r : QueuedTaskRecord)
    → Related Moves a b
    → a ≡ some r
    → (r' : QueuedTaskRecord) × (b ≡ some r') × Moves r r'
Related-after none b r h e = absurd (cc e)
Related-after (some q) none r h e = absurd h
Related-after (some q) (some r') r h e = (r', refl, subst (λ o. Moves (or_else o q) r') e h)

pub Changes-IsNamed : {s t : Memory} → Changes s t → IsNamed s → IsNamed t
Changes-IsNamed {s} {t} x n key i e =
    let (r, here, own) = n key i (ap (get key) (sym x.keys) ∙ e) in
    let (r', here', m) = Related-after (get i s.records) (get i t.records) r (x.moves i) here in
    (r', here', m.key ∙ own)

-- An entry that stood before names what it named.
still-named :
    (s : Memory) (r : QueuedTaskRecord) (key : String) (i : ℕ)
    → IsNamed s
    → get r.id s.records ≡ none
    → get key s.keys ≡ some i
    → (q : QueuedTaskRecord) × (get i (insert r.id r s.records) ≡ some q) × (q.key ≡ some key)
still-named s r key i n fresh e =
    let (q, here, own) = n key i e in
    (
      q,
      get-insert r.id i r s.records ∙ elim (Bool-cases (r.id == i)) [
        | inl same ↦ absurd (cc (fresh, here, ap (λ j. get j s.records) (eq_of_beq r.id i same)))
        | inr other ↦ rw other here
      ],
      own,
    )

claim_key-named :
    (s : Memory) (r : QueuedTaskRecord) (own : Option String) (key : String) (i : ℕ)
    → r.key ≡ own
    → IsNamed s
    → get r.id s.records ≡ none
    → get key (claim_key own r.id s.keys) ≡ some i
    → (q : QueuedTaskRecord) × (get i (insert r.id r s.records) ≡ some q) × (q.key ≡ some key)
claim_key-named s r none key i same n fresh e = still-named s r key i n fresh e
claim_key-named s r (some k) key i same n fresh e = elim (Bool-cases (k == key)) [
  | inl hit ↦ (
    r,
    get-insert r.id i r s.records
        ∙ ap (λ (b : Bool). if b then some r else get i s.records)
            ((nat_eq.test_iff r.id i).1 (
              ap (λ (o : Option ℕ). or_else o r.id) (rw (get-insert k key r.id s.keys, hit) at e))),
    same ∙ ap some (eq_of_beq k key hit),
  )
  | inr other ↦ still-named s r key i n fresh (rw (get-insert k key r.id s.keys, other) at e)
]

pub store-IsNamed :
    (s : Memory) (r : QueuedTaskRecord)
    → IsNamed s
    → get r.id s.records ≡ none
    → IsNamed (store r s)
unfolding store
store-IsNamed s r n fresh key i e = claim_key-named s r r.key key i refl n fresh e

notify-IsNamed :
    (s : Memory) (seen : ℕ) (r : QueuedTaskRecord) → IsNamed s → IsNamed (notify_new_task seen r s)
unfolding notify_new_task
notify-IsNamed s seen r n =
    elim (is_waiting r.status && is_due seen r)
      as (λ c. IsNamed (if c then record s { notification_event = true } else s)) [
        | true ↦ n
        | false ↦ n
      ]

pub enqueue-IsNamed :
    (s : Memory) (q : TaskRequest) (given : Option ℕ) (fresh now tested seen : ℕ)
    → IsNamed s
    → get (or_else given fresh) s.records ≡ none
    → IsNamed (enqueue s q given fresh now tested seen).0
unfolding enqueue new_record
enqueue-IsNamed s q given fresh now tested seen n missing =
    elim (Option-cases (active_by_key s q.key)) [
      | inl vacant ↦
          rw (vacant, enqueue) (notify-IsNamed (store r s) seen r (store-IsNamed s r n missing))
      | inr (found, e) ↦ rw (e, enqueue) n
    ]
  where
    r : QueuedTaskRecord
    r = new_record q (or_else given fresh) (initial_status q.scheduled_at tested) now
