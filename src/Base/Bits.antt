-- ===== src/Base/Bits.antt =====
-- The two bit operations of the source, as arithmetic: clearing the low nine bits of an address
-- below 2 ^ 48, and joining two numbers that have no bit in common.
use Prim.Native.Nat.{
  ℕ, zero, suc, ◌+◌, ◌-◌, ◌*◌, ◌/◌, ◌%◌, ◌^◌, ◌≤◌, ◌<◌, min, max, digits, bitwise, bit_and, bit_or,
  bit_and-bitwise, bit_or-bitwise,
}
use mathlib.Core.Path.{◌≡◌, refl, sym, ap, ◌∙◌}
use native.Mathlib.Nat.{
  le_refl, pow-suc, one-le-pow, mul_assoc, mul_comm, mul-one, div-one, mod-eq-sub-mul-div,
  div-div-eq-div-mul, mul-div-le,
}
use native.Mathlib.Omega.{arith}

module _ (z : ℕ → ℕ) (f : ℕ → ℕ → ℕ) where
  digits_enough : (n m a b : ℕ) → a ≤ n → a ≤ m → digits z f n a b ≡ digits z f m a b
  digits_enough zero zero a b p q = refl
  digits_enough zero (suc m) zero b p q = refl
  digits_enough zero (suc m) (suc a) b p q = absurd (omega arith)
  digits_enough (suc n) zero zero b p q = refl
  digits_enough (suc n) zero (suc a) b p q = absurd (omega arith)
  digits_enough (suc n) (suc m) zero b p q = refl
  digits_enough (suc n) (suc m) (suc a) b p q =
      rw (digits_enough n m (suc a / 2) (b / 2) (omega arith) (omega arith))

  low_digit :
      (a b : ℕ)
      → bitwise z f (suc a) b ≡ bitwise z f (suc a / 2) (b / 2) * 2 + f (suc a % 2) (b % 2)
  low_digit a b =
      omega (arith, digits_enough a (suc a / 2) (suc a / 2) (b / 2) (omega arith) (le_refl _))

pub bit_or_half : (a b : ℕ) → bit_or a b ≡ bit_or (a / 2) (b / 2) * 2 + max (a % 2) (b % 2)
bit_or_half zero b = simp bit_or-bitwise (omega arith)
bit_or_half (suc a) b = simp bit_or-bitwise (low_digit (λ y. y) max a b)

pub bit_and_half : (a b : ℕ) → bit_and a b ≡ bit_and (a / 2) (b / 2) * 2 + min (a % 2) (b % 2)
bit_and_half zero b = simp bit_and-bitwise (omega arith)
bit_and_half (suc a) b = simp bit_and-bitwise (low_digit (λ y. 0) min a b)

zero-bit_or : (b : ℕ) → bit_or 0 b ≡ b
zero-bit_or b = bit_or-bitwise 0 b

bit_and-zero : (a : ℕ) → bit_and a 0 ≡ 0
bit_and-zero a = go a a (le_refl a)
  where
    go : (n a : ℕ) → a ≤ n → bit_and a 0 ≡ 0
    go n zero h = refl
    go zero (suc a) h = absurd (omega arith)
    go (suc n) (suc a) h = omega (arith, bit_and_half (suc a) 0, go n (suc a / 2) (omega arith))

-- `lo | (hi << k)` with `lo` below 2 ^ k is a sum.
pub bit_or_disjoint : (k lo hi : ℕ) → lo < 2 ^ k → bit_or lo (hi * 2 ^ k) ≡ lo + hi * 2 ^ k
bit_or_disjoint zero zero hi h = omega (arith, zero-bit_or (hi * 2 ^ 0))
bit_or_disjoint zero (suc lo) hi h = absurd (omega arith)
bit_or_disjoint (suc k) lo hi h = rw (double) (
    omega (
      arith,
      bit_or_half lo (hi * 2 ^ k * 2),
      ap (bit_or (lo / 2)) halved,
      bit_or_disjoint k (lo / 2) hi (omega (arith, pow-suc 2 k)),
    ))
  where
    double : hi * 2 ^ suc k ≡ hi * 2 ^ k * 2
    double = rw (pow-suc 2 k) (sym (mul_assoc hi (2 ^ k) 2))

    halved : hi * 2 ^ k * 2 / 2 ≡ hi * 2 ^ k
    halved = omega arith

mod_double : (a p : ℕ) → a % (p * 2) ≡ a / 2 % p * 2 + a % 2
mod_double a p = omega (
  arith,
  mod-eq-sub-mul-div a (p * 2),
  mod-eq-sub-mul-div (a / 2) p,
  regroup,
  mul-div-le (a / 2) p,
)
  where
    regroup : p * 2 * (a / (p * 2)) ≡ p * (a / 2 / p) * 2
    regroup =
        rw (div-div-eq-div-mul a 2 p, mul_comm 2 p)
          (mul_assoc p 2 (a / (p * 2)) ∙ ap (λ n. p * n) (mul_comm 2 _) ∙ sym (mul_assoc p _ 2))

-- A mask of `k` ones.
bit_and_ones : (k a : ℕ) → bit_and a (2 ^ k - 1) ≡ a % 2 ^ k
bit_and_ones zero a = omega (arith, bit_and-zero a)
bit_and_ones (suc k) a = omega (
  arith,
  bit_and_half a (2 ^ suc k - 1),
  pow-suc 2 k,
  one-le-pow k 2 (omega arith),
  ap (bit_and (a / 2)) half,
  bit_and_ones k (a / 2),
  ap (λ n. a % n) (pow-suc 2 k),
  mod_double a (2 ^ k),
)
  where
    half : (2 ^ suc k - 1) / 2 ≡ 2 ^ k - 1
    half = omega (arith, pow-suc 2 k, one-le-pow k 2 (omega arith))

-- A mask that ends in `j` zeros.
bit_and_shifted : (j a m : ℕ) → bit_and a (m * 2 ^ j) ≡ bit_and (a / 2 ^ j) m * 2 ^ j
bit_and_shifted zero a m = rw (mul-one m, div-one) (sym (mul-one _))
bit_and_shifted (suc j) a m =
    rw (pow-suc 2 j, ← mul_assoc m (2 ^ j) 2, ← mul_assoc _ (2 ^ j) 2)
      (omega (
        arith,
        bit_and_half a (m * 2 ^ j * 2),
        ap (bit_and (a / 2)) halved,
        bit_and_shifted j (a / 2) m,
        regroup,
      ))
  where
    halved : m * 2 ^ j * 2 / 2 ≡ m * 2 ^ j
    halved = omega arith

    regroup : bit_and (a / 2 / 2 ^ j) m * 2 ^ j ≡ bit_and (a / (2 ^ j * 2)) m * 2 ^ j
    regroup = rw (div-div-eq-div-mul a 2 (2 ^ j), mul_comm 2 (2 ^ j))

-- `addr & 0xFFFFFFFFFE00`
pub clear_low_nine : (a : ℕ) → bit_and a 0xFFFF_FFFF_FE00 ≡ a / 512 % 2 ^ 39 * 512
clear_low_nine a =
    bit_and_shifted 9 a (2 ^ 39 - 1) ∙ ap (λ n. n * 512) (bit_and_ones 39 (a / 2 ^ 9))
