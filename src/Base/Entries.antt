-- ===== src/Base/Entries.antt =====
-- Lists of entries taken from a dict: sorting, cutting and filtering them keeps them apart and keeps
-- what holds of each.
use mathlib.Core.Logic.{inl, inr, ◌≢◌}
use litestar_queues.Base.Tests.{Bool-cases, if◌then◌else◌}
use litestar_queues.Base.Lists.{All-take, All, take, select}
use Prim.Native.Nat.{ℕ, zero, suc}
use mathlib.Core.Path.{◌≡◌, sym}
use mathlib.Core.Bool.{Bool, true, false}
use mathlib.Core.Option.{some}
use mathlib.Core.List.{List, [], ◌∷◌}
use litestar_queues.Base.Keys.{Eq, eq_self, beq_of_ne}
use litestar_queues.Base.Dicts.{Dict, get, insert, get-insert}
use litestar_queues.Base.Sort.{insert_sorted, sort}

module _ {ℓ κ} {A : Type ℓ} (P : A → Type κ) (le : A → A → Bool) where
  pub All-insert_sorted : (x : A) (ys : List A) → P x → All P ys → All P (insert_sorted le x ys)
  unfolding insert_sorted
  All-insert_sorted x [] h hs = (h, tt)
  All-insert_sorted x (y ∷ ys) h hs =
      elim (le x y) as (λ b. All P (if b then x ∷ y ∷ ys else y ∷ insert_sorted le x ys)) [
        | true ↦ (h, hs)
        | false ↦ (hs.0, All-insert_sorted x ys h hs.1)
      ]

  pub All-sort : (xs : List A) → All P xs → All P (sort le xs)
  unfolding sort
  All-sort [] h = tt
  All-sort (x ∷ xs) h = All-insert_sorted x (sort le xs) h.0 (All-sort xs h.1)

module _ {ℓ κ} {A : Type ℓ} (P : A → Type κ) (p : A → Bool) where
  -- What holds of a list's members holds of those that are selected.
  pub All-select_of_All : (xs : List A) → All P xs → All P (select p xs)
  All-select_of_All [] h = tt
  All-select_of_All (x ∷ xs) h =
      elim (p x) as (λ b. All P (if b then x ∷ select p xs else select p xs)) [
        | true ↦ (h.0, All-select_of_All xs h.1)
        | false ↦ All-select_of_All xs h.1
      ]

module _ {ℓ} {K : Type 0} {V : Type ℓ} where
  -- No two entries have one key.
  abbrev pub Apart : List (K × V) → Type 0
  Apart [] = Unit
  Apart (x ∷ xs) = All (λ y. x.0 ≢ y.0) xs × Apart xs

  Apart-insert_sorted :
      (le : K × V → K × V → Bool) (x : K × V) (ys : List (K × V))
      → All (λ y. x.0 ≢ y.0) ys
      → Apart ys
      → Apart (insert_sorted le x ys)
  unfolding insert_sorted
  Apart-insert_sorted le x [] h a = (tt, tt)
  Apart-insert_sorted le x (y ∷ ys) h a =
      elim (le x y) as (λ b. Apart (if b then x ∷ y ∷ ys else y ∷ insert_sorted le x ys)) [
        | true ↦ (h, a)
        | false ↦ (
          All-insert_sorted (λ z. y.0 ≢ z.0) le x ys (λ e. h.0 (sym e)) a.0,
          Apart-insert_sorted le x ys h.1 a.1,
        )
      ]

  pub Apart-sort : (le : K × V → K × V → Bool) (xs : List (K × V)) → Apart xs → Apart (sort le xs)
  unfolding sort
  Apart-sort le [] a = tt
  Apart-sort le (x ∷ xs) a =
      Apart-insert_sorted le x (sort le xs) (All-sort (λ y. x.0 ≢ y.0) le xs a.0)
        (Apart-sort le xs a.1)

  pub Apart-select : (p : K × V → Bool) (xs : List (K × V)) → Apart xs → Apart (select p xs)
  Apart-select p [] a = tt
  Apart-select p (x ∷ xs) a =
      elim (p x) as (λ b. Apart (if b then x ∷ select p xs else select p xs)) [
        | true ↦ (All-select_of_All (λ y. x.0 ≢ y.0) p xs a.0, Apart-select p xs a.1)
        | false ↦ Apart-select p xs a.1
      ]

module _ {ℓ} {K : Type 0} {V : Type ℓ} ⦃e : Eq K⦄ where
  -- The entries stand in the dict.
  abbrev pub Stored : Dict K V → List (K × V) → Type ℓ
  Stored d = All (λ kv. get kv.0 d ≡ some kv.1)

  Stored-cons :
      (k : K) (v : V) (d xs : Dict K V)
      → All (λ y. k ≢ y.0) xs
      → Stored d xs
      → Stored ((k, v) ∷ d) xs
  unfolding get
  Stored-cons k v d [] a h = tt
  Stored-cons k v d ((j, w) ∷ xs) a h = (rw (beq_of_ne k j a.0) h.0, Stored-cons k v d xs a.1 h.1)

  -- Each entry of a dict without double keys is the one that its key finds.
  pub Stored-self : (d : Dict K V) → Apart d → Stored d d
  unfolding get
  Stored-self [] a = tt
  Stored-self ((k, v) ∷ d) a = (rw (eq_self k), Stored-cons k v d d a.0 (Stored-self d a.1))

  -- A write at another key leaves the entries where they are.
  pub Stored-insert :
      (k : K) (v : V) (d xs : Dict K V)
      → All (λ y. k ≢ y.0) xs
      → Stored d xs
      → Stored (insert k v d) xs
  Stored-insert k v d [] a h = tt
  Stored-insert k v d ((j, w) ∷ xs) a h =
      (rw (get-insert k j v d, beq_of_ne k j a.0) h.0, Stored-insert k v d xs a.1 h.1)

module _ {ℓ} {K : Type 0} {V : Type ℓ} where
  pub Apart-take : (n : ℕ) (xs : List (K × V)) → Apart xs → Apart (take n xs)
  Apart-take zero xs a = tt
  Apart-take (suc n) [] a = tt
  Apart-take (suc n) (x ∷ xs) a = (All-take (λ y. x.0 ≢ y.0) n xs a.0, Apart-take n xs a.1)

module _ {ℓ κ} {A : Type ℓ} (P : A → Type κ) (p : A → Bool) where
  -- The selected members have what all have, and pass the test.
  pub All-select_both : (xs : List A) → All P xs → All (λ x. P x × (p x ≡ true)) (select p xs)
  All-select_both [] h = tt
  All-select_both (x ∷ xs) h = elim (Bool-cases (p x)) [
    | inl e ↦ rw e ((h.0, e), All-select_both xs h.1)
    | inr e ↦ rw e (All-select_both xs h.1)
  ]
