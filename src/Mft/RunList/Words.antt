-- ===== src/Mft/RunList/Words.antt =====
-- The fields of a run as numbers: what the loops over their bytes compute.
use teamy_mft.Common.{
  ℕ, zero, suc, ◌+◌, ◌*◌, ◌^◌, ◌≤◌, ◌<◌, ◌≡◌, ap, ◌∙◌, [], ◌∷◌, get_or, arith, All,
}
use Prim.Native.Nat.{bit_or}
use native.Mathlib.Nat.{pow-suc, mul-le-mul_right}
use teamy_mft.Common.Bits.{bit_or-shifted}
use teamy_mft.Common.Bytes.{Bytes, IsByte}
use teamy_mft.Mft.RunList.{shl64, read_bytes}

-- The number whose `n` bytes stand from `at` on, the lowest one first.
unfoldable pub le_value : ℕ → Bytes → ℕ → ℕ
le_value zero raw at = 0
le_value (suc n) raw at = get_or raw at 0 + 256 * le_value n raw (at + 1)

pub get_or-IsByte : (raw : Bytes) (at : ℕ) → All IsByte raw → get_or raw at 0 < 256
get_or-IsByte [] at h = omega arith
get_or-IsByte (b ∷ raw) zero h = h.0
get_or-IsByte (b ∷ raw) (suc at) h = get_or-IsByte raw at h.1

-- A byte that is moved to place `i` of eight does not wrap around.
shl64-byte : (i b : ℕ) → i < 8 → b < 256 → shl64 b (8 * i) ≡ b * 2 ^ (8 * i)
unfolding shl64
shl64-byte zero b h k = omega arith
shl64-byte (suc zero) b h k = omega arith
shl64-byte (suc (suc zero)) b h k = omega arith
shl64-byte (suc (suc (suc zero))) b h k = omega arith
shl64-byte (suc (suc (suc (suc zero)))) b h k = omega arith
shl64-byte (suc (suc (suc (suc (suc zero))))) b h k = omega arith
shl64-byte (suc (suc (suc (suc (suc (suc zero)))))) b h k = omega arith
shl64-byte (suc (suc (suc (suc (suc (suc (suc zero))))))) b h k = omega arith
shl64-byte (suc (suc (suc (suc (suc (suc (suc (suc i)))))))) b h k = absurd (omega arith)

place_power : (i : ℕ) → 2 ^ (8 * (i + 1)) ≡ 256 * 2 ^ (8 * i)
place_power i =
    let exponent : 8 * (i + 1) ≡ suc (suc (suc (suc (suc (suc (suc (suc (8 * i)))))))) =
      omega arith in
    ap (λ t. 2 ^ t) exponent
    ∙ omega (
      arith,
      pow-suc 2 (8 * i),
      pow-suc 2 (suc (8 * i)),
      pow-suc 2 (suc (suc (8 * i))),
      pow-suc 2 (suc (suc (suc (8 * i)))),
      pow-suc 2 (suc (suc (suc (suc (8 * i))))),
      pow-suc 2 (suc (suc (suc (suc (suc (8 * i)))))),
      pow-suc 2 (suc (suc (suc (suc (suc (suc (8 * i))))))),
      pow-suc 2 (suc (suc (suc (suc (suc (suc (suc (8 * i)))))))),
    )

place_le : (b m : ℕ) → b ≤ 255 → b * m ≤ 255 * m
place_le b m h = mul-le-mul_right m h

place_lt : (acc b m : ℕ) → acc < m → b < 256 → acc + b * m < 256 * m
place_lt acc b m h k = omega (arith, place_le b m (omega arith))

place_sum :
    (acc b m v w m' : ℕ) → w ≡ v → m' ≡ 256 * m → acc + b * m + w * m' ≡ acc + (b + 256 * v) * m
place_sum acc b m v w m' e k = rw (e, k) (omega arith)

-- The loop over the bytes of a field, in the middle: `acc` holds the bytes below place `i`.
pub read_bytes-le_value :
    (n i : ℕ) (raw : Bytes) (pos acc : ℕ)
    → All IsByte raw
    → i + n ≤ 8
    → acc < 2 ^ (8 * i)
    → read_bytes n i raw pos acc ≡ acc + le_value n raw (pos + i) * 2 ^ (8 * i)
unfolding read_bytes le_value
read_bytes-le_value zero i raw pos acc bytes few below = omega arith
read_bytes-le_value (suc n) i raw pos acc bytes few below =
    let b = get_or raw (pos + i) 0 in
    let byte : b < 256 = get_or-IsByte raw (pos + i) bytes in
    let power : 2 ^ (8 * (i + 1)) ≡ 256 * 2 ^ (8 * i) = place_power i in
    let here : bit_or acc (shl64 b (8 * i)) ≡ acc + b * 2 ^ (8 * i) =
      rw (shl64-byte i b (omega arith) byte) (bit_or-shifted (8 * i) acc b below) in
    let room : i + 1 + n ≤ 8 = omega arith in
    rw here (
      read_bytes-le_value n (i + 1) raw pos (acc + b * 2 ^ (8 * i)) bytes room
        (rw power (place_lt acc b (2 ^ (8 * i)) below byte))
      ∙ place_sum acc b (2 ^ (8 * i)) (le_value n raw (pos + i + 1))
          (le_value n raw (pos + (i + 1))) _ (ap (le_value n raw) (omega arith)) power)
