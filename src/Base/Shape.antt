-- ===== src/Base/Shape.antt =====
-- Loops that change the values of a dict and not its keys.
use mathlib.Core.Path.{◌≡◌, refl, ◌∙◌}
use mathlib.Core.Logic.{◌≢◌, inl, inr}
use mathlib.Core.Bool.{true, false}
use mathlib.Core.List.{[], ◌∷◌}
use litestar_queues.Base.Tests.{if◌then◌else◌, Bool-cases}
use litestar_queues.Base.Keys.{Eq, ◌==◌, ne_of_beq}
use litestar_queues.Base.Lists.{All}
use litestar_queues.Base.Dicts.{Dict, insert, delete}
use litestar_queues.Base.Entries.{Apart}

module _ {ℓ} {K : Type 0} {V : Type ℓ} where
  -- The same keys, in the same order.
  abbrev pub SameKeys : Dict K V → Dict K V → Type 0
  SameKeys [] [] = Unit
  SameKeys ((k, v) ∷ d) ((j, w) ∷ d') = (j ≡ k) × SameKeys d d'
  SameKeys _ _ = ⊥

  pub SameKeys-refl : (d : Dict K V) → SameKeys d d
  SameKeys-refl [] = tt
  SameKeys-refl ((k, v) ∷ d) = (refl, SameKeys-refl d)

  SameKeys-apart :
      (k : K) (d d' : Dict K V) → SameKeys d d' → All (λ y. k ≢ y.0) d → All (λ y. k ≢ y.0) d'
  SameKeys-apart k [] [] s a = tt
  SameKeys-apart k [] ((i, w) ∷ d') s a = absurd s
  SameKeys-apart k ((j, v) ∷ d) [] s a = absurd s
  SameKeys-apart k ((j, v) ∷ d) ((i, w) ∷ d') s a =
      (λ e. a.0 (e ∙ s.0), SameKeys-apart k d d' s.1 a.1)

  pub SameKeys-Apart : (d d' : Dict K V) → SameKeys d d' → Apart d → Apart d'
  SameKeys-Apart [] [] s a = tt
  SameKeys-Apart [] ((i, w) ∷ d') s a = absurd s
  SameKeys-Apart ((j, v) ∷ d) [] s a = absurd s
  SameKeys-Apart ((j, v) ∷ d) ((i, w) ∷ d') s a =
      (rw s.0 (SameKeys-apart j d d' s.1 a.0), SameKeys-Apart d d' s.1 a.1)

module _ {ℓ} {K : Type 0} {V : Type ℓ} ⦃e : Eq K⦄ where
  insert-apart :
      (j k : K) (v : V) (d : Dict K V)
      → j ≢ k
      → All (λ y. j ≢ y.0) d
      → All (λ y. j ≢ y.0) (insert k v d)
  unfolding insert
  insert-apart j k v [] h a = (h, tt)
  insert-apart j k v ((i, w) ∷ d) h a =
      elim (i == k) as (λ b. All (λ y. j ≢ y.0) (if b then (i, v) ∷ d else (i, w) ∷ insert k v d)) [
        | true ↦ a
        | false ↦ (a.0, insert-apart j k v d h a.1)
      ]

  pub insert-Apart : (k : K) (v : V) (d : Dict K V) → Apart d → Apart (insert k v d)
  unfolding insert
  insert-Apart k v [] a = (tt, tt)
  insert-Apart k v ((i, w) ∷ d) a = elim (Bool-cases (i == k)) [
    | inl same ↦ rw same a
    | inr other ↦ rw other (insert-apart i k v d (ne_of_beq i k other) a.0, insert-Apart k v d a.1)
  ]

  delete-apart : (j k : K) (d : Dict K V) → All (λ y. j ≢ y.0) d → All (λ y. j ≢ y.0) (delete k d)
  unfolding delete
  delete-apart j k [] a = tt
  delete-apart j k ((i, w) ∷ d) a =
      elim (i == k) as (λ b. All (λ y. j ≢ y.0) (if b then delete k d else (i, w) ∷ delete k d)) [
        | true ↦ delete-apart j k d a.1
        | false ↦ (a.0, delete-apart j k d a.1)
      ]

  pub delete-Apart : (k : K) (d : Dict K V) → Apart d → Apart (delete k d)
  unfolding delete
  delete-Apart k [] a = tt
  delete-Apart k ((i, w) ∷ d) a =
      elim (i == k) as (λ b. Apart (if b then delete k d else (i, w) ∷ delete k d)) [
        | true ↦ delete-Apart k d a.1
        | false ↦ (delete-apart i k d a.0, delete-Apart k d a.1)
      ]
