-- ===== src/Prelude/Float.antt =====
-- The float64 settings of the program, by what the source observes of them. The language's floating
-- arithmetic is not modelled: a value carries the outcome of its comparison with 0, and of its
-- product with a count, truncated to an integer.
use Prim.Native.Nat.{ℕ}

pub data Sign : Type 0 where
  below_zero at_zero above_zero : Sign

pub record Float64 : Type 0 where
  pub sign : Sign
  -- `time.Duration(x * float64(n))`
  pub times_trunc : ℕ → ℕ
