-- ===== src/Common/Bytes.antt =====
-- Bytes, and little-endian words read from them.
use teamy_mft.Common.Lists.{get_or}
use Prim.Native.Nat.{ℕ, ◌+◌, ◌*◌, ◌<◌}
use mathlib.Core.List.{List}

abbrev pub Bytes : Type 0
Bytes = List ℕ

abbrev pub IsByte : ℕ → Type 0
IsByte b = b < 256

-- `u16::from_le_bytes([bytes[at], bytes[at + 1]])`, read where both indices are in range.
abbrev pub u16_le : Bytes → ℕ → ℕ
u16_le bytes at = get_or bytes at 0 + 256 * get_or bytes (at + 1) 0

-- `u32::from_le_bytes` of the four bytes from `at`.
abbrev pub u32_le : Bytes → ℕ → ℕ
u32_le bytes at = u16_le bytes at + 65536 * u16_le bytes (at + 2)

-- `u64::from_le_bytes` of the eight bytes from `at`.
abbrev pub u64_le : Bytes → ℕ → ℕ
u64_le bytes at = u32_le bytes at + 4294967296 * u32_le bytes (at + 4)
