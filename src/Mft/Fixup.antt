-- ===== src/Mft/Fixup.antt =====
-- src/mft/fast_fixup.rs: undoing the update sequence of record entries, in place. An entry is the
-- list of its bytes, and a function that writes into it returns the new list.
pub mod Sectors
pub mod Restore
pub mod Buffer
use teamy_mft.Common.{
  ℕ, zero, suc, ◌+◌, ◌-◌, ◌*◌, ◌/◌, ◌%◌, Bool, true, false, ◌&&◌, ◌||◌, Option, none, some, List,
  [], ◌∷◌, ◌++◌, ltb, leb, ◌==◌, if◌then◌else◌, length, get_or, set, take, drop,
}
use teamy_mft.Common.Bytes.{Bytes, u16_le, u32_le}

pub record FixupStats : Type 0 where
  pub applied : ℕ
  pub already_applied : ℕ
  pub invalid : ℕ

pub data FixupState : Type 0 where
  applied already_applied invalid : FixupState

unfoldable pub no_stats : FixupStats
no_stats = record { applied = 0; already_applied = 0; invalid = 0 }

-- `FixupStats::record`
unfoldable pub count_state : FixupState → FixupStats → FixupStats
count_state FixupState.applied stats = record stats { applied = stats.applied + 1 }
count_state FixupState.already_applied stats = record stats {
  already_applied = stats.already_applied + 1;
}
count_state FixupState.invalid stats = record stats { invalid = stats.invalid + 1 }

abbrev pub sector : ℕ
sector = 512

unfoldable pub detect_entry_size : Bytes → Option ℕ
detect_entry_size entry0 =
    if ltb (length entry0) 0x20
    then none
    else if u32_le entry0 0x1C == 0
    then none
    else some (u32_le entry0 0x1C)

-- The offset of the update sequence array and its count of 16-bit words.
unfoldable pub read_update_sequence_array_fields : Bytes → Option (ℕ × ℕ)
read_update_sequence_array_fields entry =
    if ltb (length entry) 8 then none else some (u16_le entry 4, u16_le entry 6)

-- The two bytes at `a` of one list are those at `b` of another.
abbrev pub same_word : Bytes → ℕ → Bytes → ℕ → Bool
same_word xs a ys b = get_or xs a 0 == get_or ys b 0 && get_or xs (a + 1) 0 == get_or ys (b + 1) 0

-- The two bytes at `b` of `ys` are copied to `a`.
abbrev pub copy_word : Bytes → ℕ → Bytes → ℕ → Bytes
copy_word xs a ys b = set (set xs a (get_or ys b 0)) (a + 1) (get_or ys (b + 1) 0)

unfoldable pub needs_fixup : Bytes → Bool
unfolding read_update_sequence_array_fields
needs_fixup entry = elim (read_update_sequence_array_fields entry) [
  | none ↦ false
  | some (usa_offset, usa_size) ↦
      if ltb usa_size 2
      then false
      else if ltb (length entry) (usa_offset + usa_size * 2)
      then false
      else if ltb (length entry) sector
      then false
      else same_word entry (sector - 2) entry usa_offset
]

-- The loop over the sectors that are left, the next one being `i`. `source` is the entry before
-- the loop, from which the update sequence and the original bytes were copied.
unfoldable pub fixup_loop : ℕ → ℕ → Bytes → ℕ → Bytes → Bool → FixupState × Bytes
fixup_loop zero i source usa_offset entry any_applied =
    (if any_applied then FixupState.applied else FixupState.already_applied, entry)
fixup_loop (suc sectors) i source usa_offset entry any_applied =
    let sector_end = (i + 1) * sector in
    let tail_start = sector_end - 2 in
    let original = usa_offset + 2 + i * 2 in
    let fixed =
      fixup_loop sectors (i + 1) source usa_offset (copy_word entry tail_start source original)
        true in
    let unchanged = fixup_loop sectors (i + 1) source usa_offset entry any_applied in
    if ltb (length entry) sector_end || ltb sector_end 2
    then (if any_applied then FixupState.applied else FixupState.invalid, entry)
    else if same_word entry tail_start source usa_offset
    then fixed
    else if same_word entry tail_start source original
    then unchanged
    else (FixupState.invalid, entry)

unfoldable pub apply_with : Option (ℕ × ℕ) → Bytes → FixupState × Bytes
apply_with none entry = (FixupState.invalid, entry)
apply_with (some (usa_offset, usa_size)) entry =
    if ltb usa_size 2
    then (FixupState.already_applied, entry)
    else if ltb (length entry) (usa_offset + usa_size * 2)
    then (FixupState.invalid, entry)
    else fixup_loop (usa_size - 1) 0 entry usa_offset entry false

unfoldable pub apply_fixup_in_place : Bytes → FixupState × Bytes
apply_fixup_in_place entry = apply_with (read_update_sequence_array_fields entry) entry
