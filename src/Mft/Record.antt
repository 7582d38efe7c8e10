-- ===== src/Mft/Record.antt =====
-- src/mft/mft_record.rs, mft_record_attribute.rs, mft_record_attribute_iter.rs,
-- mft_record_attribute_non_resident_header.rs and mft_record_attribute_x80_data_attribute.rs: the
-- fields of a record and its attributes. A record and an attribute are the lists of their bytes.

pub mod Attributes
use teamy_mft.Common.{
  ℕ, zero, suc, ◌+◌, ◌-◌, Bool, true, false, ◌||◌, not, Option, none, some, List, [], ◌∷◌, ltb, leb,
  ◌==◌, if◌then◌else◌, length, get_or, take, drop,
}
use teamy_mft.Common.Bytes.{Bytes, u16_le, u32_le, u64_le}
use teamy_mft.Common.Result.{Result, ok, err}
use teamy_mft.Mft.Reference

-- A record, with fixups applied.
pub record MftRecord : Type 0 where
  pub bytes : Bytes

-- `read_u16` and the others, where the field is inside the record.
abbrev pub read_u16 : MftRecord → ℕ → ℕ
read_u16 r offset = u16_le r.bytes offset

abbrev pub read_u32 : MftRecord → ℕ → ℕ
read_u32 r offset = u32_le r.bytes offset

abbrev pub read_u64 : MftRecord → ℕ → ℕ
read_u64 r offset = u64_le r.bytes offset

abbrev pub get_update_sequence_array_offset : MftRecord → ℕ
get_update_sequence_array_offset r = read_u16 r 0x04

abbrev pub get_update_sequence_array_size_words : MftRecord → ℕ
get_update_sequence_array_size_words r = read_u16 r 0x06

abbrev pub get_dollar_log_file : MftRecord → ℕ
get_dollar_log_file r = read_u64 r 0x08

abbrev pub get_record_sequence_number : MftRecord → ℕ
get_record_sequence_number r = read_u16 r 0x10

abbrev pub get_hard_link_count : MftRecord → ℕ
get_hard_link_count r = read_u16 r 0x12

abbrev pub get_first_attribute_offset : MftRecord → ℕ
get_first_attribute_offset r = read_u16 r 0x14

abbrev pub flags : MftRecord → ℕ
flags r = read_u16 r 0x16

abbrev pub record_is_in_use : MftRecord → Bool
record_is_in_use r = Reference.is_in_use (flags r)

abbrev pub record_is_deleted : MftRecord → Bool
record_is_deleted r = Reference.is_deleted (flags r)

abbrev pub get_used_size : MftRecord → ℕ
get_used_size r = read_u32 r 0x18

abbrev pub get_allocated_size : MftRecord → ℕ
get_allocated_size r = read_u32 r 0x1C

abbrev pub get_base_reference_raw : MftRecord → ℕ
get_base_reference_raw r = read_u64 r 0x20

abbrev pub get_next_attribute_id : MftRecord → ℕ
get_next_attribute_id r = read_u16 r 0x28

abbrev pub get_own_record_number : MftRecord → ℕ
get_own_record_number r = read_u32 r 0x2C

-- `data[start..end]`
abbrev pub slice : Bytes → ℕ → ℕ → Bytes
slice bytes start end = take (end - start) (drop start bytes)

pub record MftRecordAttribute : Type 0 where
  pub mft_record_attribute_data : Bytes

pub data AttributeError : Type 0 where
  slice_too_short not_data no_header runlist_beyond no_run_list : AttributeError

unfoldable pub new_attribute : Bytes → Result AttributeError MftRecordAttribute
new_attribute bytes =
    if ltb (length bytes) 16
    then err slice_too_short
    else ok (record { mft_record_attribute_data = bytes })

abbrev pub get_attr_type : MftRecordAttribute → ℕ
get_attr_type a = u32_le a.mft_record_attribute_data 0

abbrev pub get_total_length : MftRecordAttribute → ℕ
get_total_length a = u32_le a.mft_record_attribute_data 4

abbrev pub get_is_non_resident : MftRecordAttribute → Bool
get_is_non_resident a = not (get_or a.mft_record_attribute_data 8 0 == 0)

abbrev pub get_name_len : MftRecordAttribute → ℕ
get_name_len a = get_or a.mft_record_attribute_data 9 0

abbrev pub get_name_offset : MftRecordAttribute → ℕ
get_name_offset a = u16_le a.mft_record_attribute_data 10

abbrev pub get_flags : MftRecordAttribute → ℕ
get_flags a = u16_le a.mft_record_attribute_data 12

abbrev pub get_attr_id : MftRecordAttribute → ℕ
get_attr_id a = u16_le a.mft_record_attribute_data 14

unfoldable pub get_resident_content : MftRecordAttribute → Option Bytes
get_resident_content a =
    let bytes = a.mft_record_attribute_data in
    let size = u32_le bytes 0x10 in
    let off = u16_le bytes 0x14 in
    if get_is_non_resident a || ltb (length bytes) 0x18
    then none
    else if ltb (length bytes) (off + size)
    then none
    else some (slice bytes off (off + size))

-- The header's fields are those of the attribute that it borrows.
unfoldable pub get_non_resident_header : MftRecordAttribute → Option MftRecordAttribute
get_non_resident_header a =
    if not (get_is_non_resident a) || ltb (length a.mft_record_attribute_data) 0x40
    then none
    else some a

abbrev pub runlist_offset : MftRecordAttribute → ℕ
runlist_offset a = u16_le a.mft_record_attribute_data 0x20

unfoldable pub runlist : MftRecordAttribute → Result AttributeError Bytes
runlist a =
    if leb (length a.mft_record_attribute_data) (runlist_offset a)
    then err runlist_beyond
    else ok (drop (runlist_offset a) a.mft_record_attribute_data)

-- `none` is a resident attribute.
unfoldable pub run_list_of : Option MftRecordAttribute → Result AttributeError (Option Bytes)
run_list_of none = err no_header
run_list_of (some header) = elim (runlist header) [ ok raw ↦ ok (some raw) | err e ↦ err e ]

unfoldable pub get_run_list : MftRecordAttribute → Result AttributeError (Option Bytes)
unfolding run_list_of runlist get_non_resident_header
get_run_list a =
    if not (get_is_non_resident a) then ok none else run_list_of (get_non_resident_header a)

unfoldable pub as_x80 : MftRecordAttribute → Option MftRecordAttribute
as_x80 a = if get_attr_type a == 0x80 then some a else none

unfoldable pub get_data_run_list : MftRecordAttribute → Result AttributeError Bytes
unfolding get_run_list
get_data_run_list a = elim (get_run_list a) [
  | ok none ↦ err no_run_list
  | ok (some raw) ↦ ok raw
  | err e ↦ err e
]

pub record MftRecordAttributeIter : Type 0 where
  pub mft_record : MftRecord
  pub position : ℕ
  pub mft_record_used_size : ℕ

-- `MftRecordAttributeIter::new`, in a release build, where the assertions are left out.
abbrev pub iter_attributes : MftRecord → MftRecordAttributeIter
iter_attributes r = record {
  mft_record = r;
  position = get_first_attribute_offset r;
  mft_record_used_size = get_used_size r;
}

-- `new(raw).ok()`
unfoldable pub attribute_of : Bytes → Option MftRecordAttribute
unfolding new_attribute
attribute_of raw = elim (new_attribute raw) [ ok a ↦ some a | err e ↦ none ]

-- The slices stay inside the record while its used size does.
unfoldable pub next : MftRecordAttributeIter → Option MftRecordAttribute × MftRecordAttributeIter
next it =
    let attr_type = u32_le it.mft_record.bytes it.position in
    let attr_len = u32_le it.mft_record.bytes (it.position + 4) in
    let end = it.position + attr_len in
    if ltb it.mft_record_used_size (it.position + 4)
    then (none, it)
    else if attr_type == 0xFFFFFFFF
    then (none, it)
    else if ltb it.mft_record_used_size (it.position + 8)
    then (none, it)
    else if attr_len == 0 || ltb it.mft_record_used_size end
    then (none, it)
    else (attribute_of (slice it.mft_record.bytes it.position end), record it { position = end })

-- The items of a loop over the iterator, which the first `None` ends.
unfoldable pub collect_attribute :
    Option MftRecordAttribute → Option (List MftRecordAttribute) → Option (List MftRecordAttribute)
collect_attribute none rest = some []
collect_attribute (some a) none = none
collect_attribute (some a) (some more) = some (a ∷ more)

-- An attribute takes 16 bytes at least, so that the used size is enough fuel; `none` is fuel that
-- ran out.
unfoldable pub attributes_from : ℕ → MftRecordAttributeIter → Option (List MftRecordAttribute)
attributes_from zero it = none
attributes_from (suc fuel) it = collect_attribute (next it).0 (attributes_from fuel (next it).1)

unfoldable pub attributes : MftRecord → Option (List MftRecordAttribute)
attributes r = attributes_from (suc (get_used_size r)) (iter_attributes r)
