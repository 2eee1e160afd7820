-- ===== src/Base/Int.antt =====
-- An `int` as its bit pattern, a number below 2 ^ 32.
use Prim.Native.Nat.{ℕ, ◌+◌, ◌-◌, ◌%◌, ◌^◌}
use mathlib.Core.Bool.{Bool}
use y_f_s.Base.Tests.{ltb}

-- -n, for n from 1 to 2 ^ 31.
abbrev pub minus : ℕ → ℕ
minus n = 2 ^ 32 - n

abbrev pub int_ltb : ℕ → ℕ → Bool
int_ltb a b = ltb ((a + 2 ^ 31) % 2 ^ 32) ((b + 2 ^ 31) % 2 ^ 32)
