-- ===== src/Mft/Reference.antt =====
-- src/mft/mft_record_reference.rs and mft_record_flags.rs: a record's number and sequence in one
-- 64-bit word, and the flags of a record.
use teamy_mft.Common.{ℕ, ◌+◌, ◌-◌, ◌*◌, ◌/◌, ◌%◌, ◌^◌, ◌<◌, ◌≡◌, refl, Bool, not, ◌==◌, arith}
use Prim.Native.Nat.{bit_and, bit_or}
use teamy_mft.Common.Bits.{bit_or-shifted, bit_and-mask, bit_and-halves}

abbrev pub record_number_mask : ℕ
record_number_mask = 2 ^ 48 - 1

-- `sequence` is a `u16`, so that nothing is shifted out.
unfoldable pub from_parts : ℕ → ℕ → ℕ
from_parts record_number sequence =
    bit_or (bit_and record_number record_number_mask) (sequence * 2 ^ 48 % 2 ^ 64)

unfoldable pub get_record_number : ℕ → ℕ
get_record_number raw = bit_and raw record_number_mask

-- `(self.0 >> 48) as u16`
unfoldable pub get_sequence_number : ℕ → ℕ
get_sequence_number raw = raw / 2 ^ 48 % 2 ^ 16

-- A reference that is composed of a record number and a 16-bit sequence number gives back the
-- number, as far as it has 48 bits, and the sequence number, and is a 64-bit word.
pub from_parts_lem :
    (record_number sequence : ℕ)
    → sequence < 2 ^ 16
    → (get_record_number (from_parts record_number sequence) ≡ record_number % 2 ^ 48)
      × (get_sequence_number (from_parts record_number sequence) ≡ sequence)
      × (from_parts record_number sequence < 2 ^ 64)
unfolding from_parts get_record_number get_sequence_number
from_parts_lem record_number sequence small =
    let low : bit_and record_number record_number_mask ≡ record_number % 2 ^ 48 =
      bit_and-mask 48 record_number in
    let high : sequence * 2 ^ 48 % 2 ^ 64 ≡ sequence * 2 ^ 48 = omega arith in
    let whole : bit_or (record_number % 2 ^ 48) (sequence * 2 ^ 48)
        ≡ record_number % 2 ^ 48 + sequence * 2 ^ 48 =
      bit_or-shifted 48 (record_number % 2 ^ 48) sequence (omega arith) in
    rw (low, high, whole, bit_and-mask 48 (record_number % 2 ^ 48 + sequence * 2 ^ 48))
      (omega arith, omega arith, omega arith)

-- Every 64-bit reference is composed of its own record number and sequence number.
pub from_parts-get :
    (raw : ℕ) → raw < 2 ^ 64 → from_parts (get_record_number raw) (get_sequence_number raw) ≡ raw
unfolding from_parts get_record_number get_sequence_number
from_parts-get raw word =
    let low : bit_and raw record_number_mask ≡ raw % 2 ^ 48 = bit_and-mask 48 raw in
    let again : bit_and (raw % 2 ^ 48) record_number_mask ≡ raw % 2 ^ 48 % 2 ^ 48 =
      bit_and-mask 48 (raw % 2 ^ 48) in
    let same : raw % 2 ^ 48 % 2 ^ 48 ≡ raw % 2 ^ 48 = omega arith in
    let high : raw / 2 ^ 48 % 2 ^ 16 * 2 ^ 48 % 2 ^ 64 ≡ raw / 2 ^ 48 * 2 ^ 48 = omega arith in
    rw (low, again, same, high, bit_or-shifted 48 (raw % 2 ^ 48) (raw / 2 ^ 48) (omega arith))
      (omega arith)

abbrev pub in_use : ℕ
in_use = 1

abbrev pub directory : ℕ
directory = 2

unfoldable pub contains : ℕ → ℕ → Bool
contains flags other = bit_and flags other == other

unfoldable pub is_in_use : ℕ → Bool
unfolding contains
is_in_use flags = contains flags in_use

unfoldable pub is_deleted : ℕ → Bool
unfolding is_in_use
is_deleted flags = not (is_in_use flags)

unfoldable pub is_directory : ℕ → Bool
unfolding contains
is_directory flags = contains flags directory

-- A record is in use exactly when its flags are odd, deleted exactly when they are
-- even, and a directory exactly when the bit above is set.
pub flags_lem :
    (flags : ℕ)
    → (is_in_use flags ≡ (flags % 2 == 1))
      × (is_deleted flags ≡ (flags % 2 == 0))
      × (is_directory flags ≡ (flags / 2 % 2 == 1))
unfolding is_in_use is_deleted is_directory contains
flags_lem flags =
    let one : bit_and flags 1 ≡ flags % 2 = bit_and-mask 1 flags in
    let two : bit_and flags directory ≡ flags / 2 % 2 * 2 =
      omega (arith, bit_and-halves flags 2, bit_and-mask 1 (flags / 2)) in
    (rw one refl, rw one (ground arith), rw two (ground arith))
