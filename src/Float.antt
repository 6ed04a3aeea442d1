-- ===== src/Float.antt =====
-- The operations on `float64` that the program uses, as an interface: the carrier and the rounding
-- are parameters, and a theorem names the laws of rounding that it needs.
use ai_cv_evaluator.Base.{ℕ, ◌*◌, ◌/◌, ◌^◌, wrap}

pub record Float64 : Type 1 where
  pub Carrier : Type 0
  -- `float64(n)` and `int64(x)`, which truncates towards zero; the integer is a 64-bit word.
  pub of_int : ℕ → Carrier
  pub to_int : Carrier → ℕ
  pub mul : Carrier → Carrier → Carrier
  -- The literal `m / 10^d`.
  pub literal : ℕ → ℕ → Carrier

-- Numbers in tenths stand in for floats where a test runs.
abbrev pub tenths : Float64
tenths = record {
  Carrier = ℕ;
  of_int = λ n. n * 10;
  to_int = λ x. wrap (x / 10);
  mul = λ x y. x * y / 10;
  literal = λ m d. m * 10 / 10 ^ d;
}
