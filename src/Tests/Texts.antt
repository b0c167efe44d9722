-- ===== src/Tests/Texts.antt =====
-- Unary texts of the natural numbers.
use Prim.Native.Nat.{ℕ, zero, suc}
use Prim.Native.String.{String, [], ◌∷◌}
use mathlib.Core.Path.{◌≡◌, refl, ap}

unfoldable pub unary : ℕ → String
unary zero = []
unary (suc n) = "x" ∷ unary n

unfoldable pub ticks : String → ℕ
ticks [] = zero
ticks (c ∷ s) = suc (ticks s)

pub ticks-unary : (n : ℕ) → ticks (unary n) ≡ n
unfolding ticks unary
ticks-unary zero = refl
ticks-unary (suc n) = ap suc (ticks-unary n)
