-- ===== src/Memory/Claim/Order.antt =====
-- The execution order of `list_pending` and `claim_many` is total and transitive.
use litestar_queues.Base.{ℕ, ℤ, ◌≡◌, ◌⊎◌, Bool, true, ◌&&◌, ◌||◌, ltb, leb, ltb_ℤ, leb_ℤ, arith}
use litestar_queues.Models.{QueuedTaskRecord}
use litestar_queues.Memory.Claim.{before}

-- One component of a tuple's order, and the rest of the tuple.
lex_trans :
    (a b c : ℕ) (p q r : Bool)
    → (ltb a b || (leb a b && p)) ≡ true
    → (ltb b c || (leb b c && q)) ≡ true
    → (p ≡ true → q ≡ true → r ≡ true)
    → (ltb a c || (leb a c && r)) ≡ true
lex_trans a b c p q r h k f = ground arith

falling_trans :
    (a b c : ℤ) (p q r : Bool)
    → (ltb_ℤ b a || (leb_ℤ b a && p)) ≡ true
    → (ltb_ℤ c b || (leb_ℤ c b && q)) ≡ true
    → (p ≡ true → q ≡ true → r ≡ true)
    → (ltb_ℤ c a || (leb_ℤ c a && r)) ≡ true
falling_trans a b c p q r h k f = ground arith

leb_trans : (a b c : ℕ) → leb a b ≡ true → leb b c ≡ true → leb a c ≡ true
leb_trans a b c h k = ground arith

pub before_total : (a b : QueuedTaskRecord) → (before a b ≡ true) ⊎ (before b a ≡ true)
unfolding before
before_total a b = ground arith

abbrev created_first : QueuedTaskRecord → QueuedTaskRecord → Bool
created_first a b =
    ltb a.created_at b.created_at || (leb a.created_at b.created_at && leb a.id b.id)

abbrev queued_first : QueuedTaskRecord → QueuedTaskRecord → Bool
queued_first a b = ltb a.queued_at b.queued_at || (leb a.queued_at b.queued_at && created_first a b)

pub before_trans :
    (a b c : QueuedTaskRecord) → before a b ≡ true → before b c ≡ true → before a c ≡ true
unfolding before
before_trans a b c h k =
    falling_trans a.priority b.priority c.priority (queued_first a b) (queued_first b c)
      (queued_first a c) h k
      (λ h' k'.
        lex_trans a.queued_at b.queued_at c.queued_at (created_first a b) (created_first b c)
          (created_first a c) h' k'
          (λ m n.
            lex_trans a.created_at b.created_at c.created_at (leb a.id b.id) (leb b.id c.id)
              (leb a.id c.id) m n (leb_trans a.id b.id c.id)))
