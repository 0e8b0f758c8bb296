-- ===== src/Base/Bits.antt =====
-- The bits of a number, its bytes, and the bits of `|` and of a shifted 1.
use Prim.Native.Nat.{
  ℕ, zero, suc, ◌+◌, ◌*◌, ◌/◌, ◌%◌, ◌^◌, ◌≤◌, max, digits, bit_or, bit_or-bitwise,
}
use mathlib.Core.Path.{◌≡◌, refl}
use mathlib.Core.Bool.{Bool, false, ◌||◌}
use native.Mathlib.Omega.{arith}
use queen.Base.Tests.{◌==◌}

abbrev pub bit : ℕ → ℕ → Bool
bit v zero = v % 2 == 1
bit v (suc k) = bit (v / 2) k

abbrev pub byte : ℕ → ℕ → ℕ
byte v zero = v % 256
byte v (suc k) = byte (v / 256) k

pub bit-zero : (k : ℕ) → bit 0 k ≡ false
bit-zero zero = refl
bit-zero (suc k) = bit-zero k

pub bit-pow : (k j : ℕ) → bit (2 ^ k) j ≡ (k == j)
bit-pow zero zero = refl
bit-pow zero (suc j) = ground (arith, bit-zero j)
bit-pow (suc k) zero = ground arith
bit-pow (suc k) (suc j) =
    let half : 2 ^ suc k / 2 ≡ 2 ^ k = omega arith in rw half (ground (arith, bit-pow k j))

bit-digits : (n a b k : ℕ) → a ≤ n → bit (digits (λ y. y) max n a b) k ≡ (bit a k || bit b k)
bit-digits zero zero b k h = rw (bit-zero k) refl
bit-digits zero (suc a) b k h = absurd (omega arith)
bit-digits (suc n) zero b k h = rw (bit-zero k) refl
bit-digits (suc n) (suc a) b zero h = ground arith
bit-digits (suc n) (suc a) b (suc k) h =
    let d = digits (λ y. y) max n (suc a / 2) (b / 2) in
    let half : (d * 2 + max (suc a % 2) (b % 2)) / 2 ≡ d = omega arith in
    rw half (bit-digits n (suc a / 2) (b / 2) k (omega arith))

pub bit-bit_or : (a b k : ℕ) → bit (bit_or a b) k ≡ (bit a k || bit b k)
bit-bit_or a b k = rw (bit_or-bitwise a b) (bit-digits a a b k (omega arith))
