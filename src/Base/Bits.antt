-- ===== src/Base/Bits.antt =====
-- The bitwise operations stay within the width of their arguments.
use Prim.Native.Nat.{
  ℕ, zero, suc, ◌/◌, ◌%◌, ◌^◌, ◌<◌, min, differ, max, bit_and, bit_or, bit_xor, bit_and-bitwise,
  bit_or-bitwise, bit_xor-bitwise, digits,
}
use native.Mathlib.Nat.{pow-suc}
use native.Mathlib.Omega.{arith}

module _ (z : ℕ → ℕ) (f : ℕ → ℕ → ℕ) where
  digits-lt :
      ((b k : ℕ) → b < 2 ^ k → z b < 2 ^ k)
      → ((a b : ℕ) → a < 2 → b < 2 → f a b < 2)
      → (n k a b : ℕ) → a < 2 ^ k
      → b < 2 ^ k
      → digits z f n a b < 2 ^ k
  digits-lt hz hf zero k a b ha hb = hz b k hb
  digits-lt hz hf (suc n) k zero b ha hb = hz b k hb
  digits-lt hz hf (suc n) zero (suc a) b ha hb = absurd (omega arith)
  digits-lt hz hf (suc n) (suc k) (suc a) b ha hb = omega (
    arith,
    pow-suc 2 k,
    digits-lt hz hf n k (suc a / 2) (b / 2) (omega (arith, pow-suc 2 k))
        (omega (arith, pow-suc 2 k)),
    hf (suc a % 2) (b % 2) (omega arith) (omega arith),
  )

pub bit_and-lt : (k a b : ℕ) → a < 2 ^ k → b < 2 ^ k → bit_and a b < 2 ^ k
bit_and-lt k a b ha hb =
    rw bit_and-bitwise
      (digits-lt (λ _. 0) min (λ b k h. omega arith) (λ a b h g. omega arith) a k a b ha hb)

pub bit_or-lt : (k a b : ℕ) → a < 2 ^ k → b < 2 ^ k → bit_or a b < 2 ^ k
bit_or-lt k a b ha hb =
    rw bit_or-bitwise (digits-lt (λ y. y) max (λ b k h. h) (λ a b h g. omega arith) a k a b ha hb)

differ-lt : (a b : ℕ) → a < 2 → b < 2 → differ a b < 2
differ-lt zero b h g = g
differ-lt (suc a) zero h g = h
differ-lt (suc a) (suc b) h g = differ-lt a b (omega arith) (omega arith)

pub bit_xor-lt : (k a b : ℕ) → a < 2 ^ k → b < 2 ^ k → bit_xor a b < 2 ^ k
bit_xor-lt k a b ha hb =
    rw bit_xor-bitwise (digits-lt (λ y. y) differ (λ b k h. h) differ-lt a k a b ha hb)
