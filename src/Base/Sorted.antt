-- ===== src/Base/Sorted.antt =====
-- A stable sort by a total, transitive order: its result is sorted, and holds the same members.
use Prim.Native.Nat.{ℕ, zero, suc}
use mathlib.Core.Path.{◌≡◌, refl}
use mathlib.Core.Logic.{◌⊎◌, inl, inr}
use mathlib.Core.Bool.{Bool, true, false}
use mathlib.Core.List.{List, [], ◌∷◌, Perm}
use mathlib.Core.List.Perm
use native.Mathlib.Omega.{arith}
use litestar_queues.Base.Tests.{if◌then◌else◌, Bool-cases}
use litestar_queues.Base.Lists.{All, All-mono, take, drop, length}
use litestar_queues.Base.Sort.{insert_sorted, sort}
use litestar_queues.Base.Entries.{All-insert_sorted}

module _ {ℓ} {A : Type ℓ} (le : A → A → Bool) where
  -- Each member comes before all that follow it.
  abbrev pub Ordered : List A → Type 0
  Ordered [] = Unit
  Ordered (x ∷ xs) = All (λ y. le x y ≡ true) xs × Ordered xs

  insert_sorted-perm : (x : A) (ys : List A) → Perm (insert_sorted le x ys) (x ∷ ys)
  unfolding insert_sorted
  insert_sorted-perm x [] = Perm.refl (x ∷ [])
  insert_sorted-perm x (y ∷ ys) =
      elim (le x y)
        as (λ b. Perm (if b then x ∷ y ∷ ys else y ∷ insert_sorted le x ys) (x ∷ y ∷ ys)) [
          | true ↦ Perm.refl (x ∷ y ∷ ys)
          | false ↦ Perm.trans (Perm.cons y (insert_sorted-perm x ys)) (Perm.swap x y ys)
        ]

  -- Sorting loses no member and adds none.
  pub sort-perm : (xs : List A) → Perm (sort le xs) xs
  unfolding sort
  sort-perm [] = Perm.refl []
  sort-perm (x ∷ xs) = Perm.trans (insert_sorted-perm x (sort le xs)) (Perm.cons x (sort-perm xs))

  pub length-insert_sorted :
      (x : A) (ys : List A) → length (insert_sorted le x ys) ≡ suc (length ys)
  unfolding insert_sorted
  length-insert_sorted x [] = refl
  length-insert_sorted x (y ∷ ys) = ground (arith, length-insert_sorted x ys)

  pub length-sort : (xs : List A) → length (sort le xs) ≡ length xs
  unfolding sort
  length-sort [] = refl
  length-sort (x ∷ xs) = omega (arith, length-insert_sorted x (sort le xs), length-sort xs)

  module _ (total : (a b : A) → (le a b ≡ true) ⊎ (le b a ≡ true))
      (trans : (a b c : A) → le a b ≡ true → le b c ≡ true → le a c ≡ true) where
    le_of_not : (a b : A) → le a b ≡ false → le b a ≡ true
    le_of_not a b h = ground (arith, total a b)

    insert_sorted-Ordered : (x : A) (ys : List A) → Ordered ys → Ordered (insert_sorted le x ys)
    unfolding insert_sorted
    insert_sorted-Ordered x [] o = (tt, tt)
    insert_sorted-Ordered x (y ∷ ys) o = elim (Bool-cases (le x y)) [
      | inl e ↦
          rw e
            ((e, All-mono (λ z. le y z ≡ true) (λ z. le x z ≡ true) ys (λ z. trans x y z e) o.0), o)
      | inr e ↦ rw e (
        All-insert_sorted (λ z. le y z ≡ true) le x ys (le_of_not x y e) o.0,
        insert_sorted-Ordered x ys o.1,
      )
    ]

    pub sort-Ordered : (xs : List A) → Ordered (sort le xs)
    unfolding sort
    sort-Ordered [] = tt
    sort-Ordered (x ∷ xs) = insert_sorted-Ordered x (sort le xs) (sort-Ordered xs)

  All-drop : (P : A → Type 0) (n : ℕ) (xs : List A) → All P xs → All P (drop n xs)
  All-drop P zero xs h = h
  All-drop P (suc n) [] h = h
  All-drop P (suc n) (x ∷ xs) h = All-drop P n xs h.1

  -- What is cut off comes after all that is kept.
  pub take-Ordered :
      (n : ℕ) (xs : List A)
      → Ordered xs
      → All (λ x. All (λ y. le x y ≡ true) (drop n xs)) (take n xs)
  take-Ordered zero xs o = tt
  take-Ordered (suc n) [] o = tt
  take-Ordered (suc n) (x ∷ xs) o = (All-drop (λ y. le x y ≡ true) n xs o.0, take-Ordered n xs o.1)
