-- ===== src/Models/Values.antt =====
-- The values of `args`, `kwargs`, `metadata` and `result`, and the Python arithmetic on them that
-- the queue uses.
use litestar_queues.Base.{ℕ, Bool, String, ℤ, Option, none, some, ◌==◌, string_eq, if◌then◌else◌}

-- A float is its 64-bit pattern and is finite; a decimal is a coefficient over a power of ten.
mutual
  pub data Value : Type 0 where
    null : Value
    boolean : Bool → Value
    integer : ℤ → Value
    float : ℕ → Value
    decimal : ℤ → ℕ → Value
    string : String → Value
    array : Items → Value
    object : Fields → Value

  pub data Items : Type 0 where
    nil : Items
    cons : Value → Items → Items

  pub data Fields : Type 0 where
    end : Fields
    field : String → Value → Fields → Fields

unfoldable pub get_field : String → Fields → Option Value
get_field k end = none
get_field k (field j v fs) = if j == k then some v else get_field k fs

-- The floating-point arithmetic of the interpreter, on bit patterns. An operation that raises in
-- Python returns `none`.
pub record Floats : Type 0 where
  pub zero_float : ℕ
  pub one_float : ℕ
  -- `int(x)` of a finite float.
  pub truncate : ℕ → ℤ
  -- `float(value)`.
  pub to_float : Value → Option ℕ
  pub multiply : ℕ → ℕ → ℕ
  -- `x ** n`.
  pub power : ℕ → ℤ → Option ℕ
  -- `x < y`.
  pub less : ℕ → ℕ → Bool
  -- `at + timedelta(seconds=x)`.
  pub add_seconds : ℕ → ℕ → Option ℕ
