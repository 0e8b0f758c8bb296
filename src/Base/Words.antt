-- ===== src/Base/Words.antt =====
-- The 64-bit words of the target. The kernel is built in release mode, where the arithmetic of
-- `usize` wraps round; a pointer, an address and a `usize` are natural numbers below 2 ^ 64.
use Prim.Native.Nat.{ℕ, ◌+◌, ◌-◌, ◌*◌, ◌%◌, ◌^◌}
use mathlib.Core.Bool.{Bool}
use queen.Base.Tests.{leb}

abbrev pub add_word : ℕ → ℕ → ℕ
add_word a b = (a + b) % 2 ^ 64

abbrev pub sub_word : ℕ → ℕ → ℕ
sub_word a b = (a + 2 ^ 64 - b) % 2 ^ 64

abbrev pub mul_word : ℕ → ℕ → ℕ
mul_word a b = a * b % 2 ^ 64

-- The sign bit of the word read as an `isize`.
abbrev pub is_negative : ℕ → Bool
is_negative a = leb (2 ^ 63) a
