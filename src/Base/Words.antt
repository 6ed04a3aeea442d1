-- ===== src/Base/Words.antt =====
-- Go's `int`, `int64` and `time.Duration` are 64-bit words in two's complement, kept as their bit
-- pattern below 2^64; a sum wraps and a comparison reads the sign. A `time.Time` is the number of
-- nanoseconds since the zero time, so that `time.Time{}` is 0; `Sub` saturates as Go's does.
use Prim.Native.Nat.{ℕ, ◌+◌, ◌-◌, ◌*◌, ◌%◌, ◌<◌, min}
use mathlib.Core.Path.{◌≡◌}
use mathlib.Core.Bool.{Bool}
use native.Mathlib.Omega.{arith}
use ai_cv_evaluator.Base.Tests.{ltb, leb, if◌then◌else◌}

-- 2^64 and 2^63.
abbrev pub modulus : ℕ
modulus = 18_446_744_073_709_551_616

abbrev pub half : ℕ
half = 9_223_372_036_854_775_808

abbrev pub wrap : ℕ → ℕ
wrap n = n % modulus

abbrev pub inc : ℕ → ℕ
inc n = wrap (n + 1)

abbrev pub dec : ℕ → ℕ
dec n = wrap (n + (modulus - 1))

abbrev pub add64 : ℕ → ℕ → ℕ
add64 a b = wrap (a + b)

abbrev pub sub64 : ℕ → ℕ → ℕ
sub64 a b = wrap (a + (modulus - wrap b))

abbrev pub mul64 : ℕ → ℕ → ℕ
mul64 a b = wrap (a * b)

-- Signed orders.
abbrev pub slt : ℕ → ℕ → Bool
slt a b = ltb (wrap (a + half)) (wrap (b + half))

abbrev pub sle : ℕ → ℕ → Bool
sle a b = leb (wrap (a + half)) (wrap (b + half))

-- A value that is not negative: its pattern is the number itself.
abbrev pub IsNat64 : ℕ → Type 0
IsNat64 n = n < half

pub slt-ltb : (a b : ℕ) → IsNat64 a → IsNat64 b → slt a b ≡ ltb a b
slt-ltb a b p q = ground arith

pub sle-leb : (a b : ℕ) → IsNat64 a → IsNat64 b → sle a b ≡ leb a b
sle-leb a b p q = ground arith

-- `t.Sub(u)`, a duration between the least and the greatest 64-bit value.
abbrev pub time_sub : ℕ → ℕ → ℕ
time_sub t u = if leb u t then min (t - u) (half - 1) else modulus - min (u - t) half

-- `t.Add(d)`.
abbrev pub time_add : ℕ → ℕ → ℕ
time_add t d = if ltb d half then t + d else t - (modulus - d)

abbrev pub second : ℕ
second = 1_000_000_000

-- A difference of times is positive exactly when the first is later.
pub time_sub-pos : (t u : ℕ) → slt 0 (time_sub t u) ≡ ltb u t
time_sub-pos t u = ground arith
