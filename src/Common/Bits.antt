-- ===== src/Common/Bits.antt =====
-- `|` and `&` of the source on machine words, where they put fields together or cut one out.
use Prim.Native.Nat.{
  ℕ, zero, suc, ◌+◌, ◌-◌, ◌*◌, ◌/◌, ◌%◌, ◌^◌, ◌≤◌, ◌<◌, min, max, digits, bit_and, bit_or,
  bit_and-bitwise, bit_or-bitwise,
}
use mathlib.Core.Path.{◌≡◌, refl, ap}
use mathlib.Core.Bool.{◌&&◌}
use teamy_mft.Common.Tests.{◌==◌}
use native.Mathlib.Omega.{arith}
use native.Mathlib.Nat.{pow-suc, one-le-pow}

-- A digit-wise operation does not depend on its fuel once that covers the first number.
digits-fuel :
    (z : ℕ → ℕ) (f : ℕ → ℕ → ℕ) (fuel more a b : ℕ)
    → a ≤ fuel
    → a ≤ more
    → digits z f fuel a b ≡ digits z f more a b
digits-fuel z f zero zero zero b h k = refl
digits-fuel z f (suc fuel) zero zero b h k = refl
digits-fuel z f fuel zero (suc a) b h k = absurd (omega arith)
digits-fuel z f zero (suc more) zero b h k = refl
digits-fuel z f (suc fuel) (suc more) zero b h k = refl
digits-fuel z f zero (suc more) (suc a) b h k = absurd (omega arith)
digits-fuel z f (suc fuel) (suc more) (suc a) b h k =
    ap (λ t. t * 2 + f (suc a % 2) (b % 2))
      (digits-fuel z f fuel more (suc a / 2) (b / 2) (omega arith) (omega arith))

pub bit_or-halves : (a b : ℕ) → bit_or a b ≡ 2 * bit_or (a / 2) (b / 2) + max (a % 2) (b % 2)
bit_or-halves zero b = omega (arith, bit_or-bitwise 0 b, bit_or-bitwise 0 (b / 2))
bit_or-halves (suc a) b = omega (
  arith,
  bit_or-bitwise (suc a) b,
  bit_or-bitwise (suc a / 2) (b / 2),
  digits-fuel (λ x. x) max a (suc a / 2) (suc a / 2) (b / 2) (omega arith) (omega arith),
)

pub bit_and-halves : (a b : ℕ) → bit_and a b ≡ 2 * bit_and (a / 2) (b / 2) + min (a % 2) (b % 2)
bit_and-halves zero b = omega (arith, bit_and-bitwise 0 b, bit_and-bitwise 0 (b / 2))
bit_and-halves (suc a) b = omega (
  arith,
  bit_and-bitwise (suc a) b,
  bit_and-bitwise (suc a / 2) (b / 2),
  digits-fuel (λ x. 0) min a (suc a / 2) (suc a / 2) (b / 2) (omega arith) (omega arith),
)

halved_shift : (q k : ℕ) → q * 2 ^ suc k ≡ 2 * (q * 2 ^ k)
halved_shift q k = omega (arith, ap (λ t. q * t) (pow-suc 2 k))

-- Words without a common digit: `acc | (q << k)` where `acc` has `k` digits.
pub bit_or-shifted : (k acc q : ℕ) → acc < 2 ^ k → bit_or acc (q * 2 ^ k) ≡ acc + q * 2 ^ k
bit_or-shifted zero zero q h = omega (arith, bit_or-bitwise 0 (q * 1))
bit_or-shifted zero (suc acc) q h = absurd (omega arith)
bit_or-shifted (suc k) acc q h = ground (
  arith,
  bit_or-halves acc (q * 2 ^ suc k),
  halved_shift q k,
  pow-suc 2 k,
  bit_or-shifted k (acc / 2) q (omega (arith, pow-suc 2 k)),
)

bit_and-none : (bound a : ℕ) → a ≤ bound → bit_and a 0 ≡ 0
bit_and-none bound zero h = refl
bit_and-none zero (suc a) h = absurd (omega arith)
bit_and-none (suc bound) (suc a) h =
    omega (arith, bit_and-halves (suc a) 0, bit_and-none bound (suc a / 2) (omega arith))

bit_and-low : (k low q : ℕ) → low < 2 ^ k → bit_and (low + q * 2 ^ k) (2 ^ k - 1) ≡ low
bit_and-low zero low q h =
    omega (arith, bit_and-none (low + q * 2 ^ 0) (low + q * 2 ^ 0) (omega arith))
bit_and-low (suc k) low q h = ground (
  arith,
  bit_and-halves (low + q * 2 ^ suc k) (2 ^ suc k - 1),
  halved_shift q k,
  pow-suc 2 k,
  one-le-pow k 2,
  bit_and-low k (low / 2) q (omega (arith, pow-suc 2 k)),
)

-- A mask of `k` digits cuts out the remainder.
pub bit_and-mask : (k a : ℕ) → bit_and a (2 ^ k - 1) ≡ a % 2 ^ k
bit_and-mask k a = ground (arith, one-le-pow k 2, bit_and-low k (a % 2 ^ k) (a / 2 ^ k))

-- Bits of `a` in a union of masks are in one of them.
bit_and-bit_or-fuel :
    (fuel a b c : ℕ)
    → a ≤ fuel
    → (bit_and a (bit_or b c) == 0) ≡ ((bit_and a b == 0) && (bit_and a c == 0))
bit_and-bit_or-fuel fuel zero b c h =
    ground (arith, bit_and-bitwise 0 b, bit_and-bitwise 0 c, bit_and-bitwise 0 (bit_or b c))
bit_and-bit_or-fuel zero (suc a) b c h = absurd (omega arith)
bit_and-bit_or-fuel (suc fuel) (suc a) b c h =
    let half : bit_or b c / 2 ≡ bit_or (b / 2) (c / 2) = omega (arith, bit_or-halves b c) in
    let low : bit_or b c % 2 ≡ max (b % 2) (c % 2) = omega (arith, bit_or-halves b c) in
    let sum : bit_and (suc a) (bit_or b c)
        ≡ 2 * bit_and (suc a / 2) (bit_or (b / 2) (c / 2)) + min (suc a % 2) (max (b % 2) (c % 2)) =
      rw (← half, ← low) (bit_and-halves (suc a) (bit_or b c)) in
    ground (
      arith,
      sum,
      bit_and-halves (suc a) b,
      bit_and-halves (suc a) c,
      bit_and-bit_or-fuel fuel (suc a / 2) (b / 2) (c / 2) (omega arith),
    )

pub bit_and-bit_or :
    (a b c : ℕ) → (bit_and a (bit_or b c) == 0) ≡ ((bit_and a b == 0) && (bit_and a c == 0))
bit_and-bit_or a b c = bit_and-bit_or-fuel a a b c (omega arith)
