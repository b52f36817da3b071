-- ===== src/Base/Words.antt =====
-- The C++ integers. A `size_t` or `unsigned long` is a number below 2 ^ 64. An `int` is its 32-bit
-- pattern, a number below 2 ^ 32: the patterns from 2 ^ 31 on stand for the negative values, so -1
-- is 2 ^ 32 - 1. Signed overflow, which C++ leaves undefined, is taken to wrap round.
use Prim.Native.Nat.{ℕ, ◌+◌, ◌-◌, ◌*◌, ◌%◌, ◌^◌}
use mathlib.Core.Bool.{Bool}
use activebsp.Base.Tests.{ltb, if◌then◌else◌}

abbrev pub int_mod : ℕ
int_mod = 2 ^ 32

abbrev pub size_mod : ℕ
size_mod = 2 ^ 64

-- The least pattern of a negative `int`.
abbrev pub int_min : ℕ
int_min = 2 ^ 31

-- The value -1.
abbrev pub minus_one : ℕ
minus_one = 2 ^ 32 - 1

-- Narrowing an unsigned value to an `int`.
abbrev pub to_int : ℕ → ℕ
to_int n = n % int_mod

-- Converting an `int` to an unsigned 64-bit value extends its sign.
abbrev pub to_size : ℕ → ℕ
to_size w = if ltb w int_min then w else w + (size_mod - int_mod)

abbrev pub int_add : ℕ → ℕ → ℕ
int_add a b = (a + b) % int_mod

abbrev pub int_sub : ℕ → ℕ → ℕ
int_sub a b = (a + int_mod - b) % int_mod

abbrev pub int_mul : ℕ → ℕ → ℕ
int_mul a b = a * b % int_mod

-- `a < b` on signed values.
abbrev pub int_lt : ℕ → ℕ → Bool
int_lt a b = ltb ((a + int_min) % int_mod) ((b + int_min) % int_mod)

abbrev pub size_add : ℕ → ℕ → ℕ
size_add a b = (a + b) % size_mod

abbrev pub size_sub : ℕ → ℕ → ℕ
size_sub a b = (a + size_mod - b) % size_mod

abbrev pub size_mul : ℕ → ℕ → ℕ
size_mul a b = a * b % size_mod
