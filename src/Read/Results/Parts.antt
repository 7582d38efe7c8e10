-- ===== src/Read/Results/Parts.antt =====
-- The parts of a logical file that are on the device, and what an iterator over the file gives of
-- them.
use teamy_mft.Common.{
  ℕ, zero, suc, ◌+◌, ◌-◌, ◌^◌, ◌≤◌, ◌<◌, ◌≡◌, false, Option, none, some, List, [], ◌∷◌, length,
  get_or, leb, ◌==◌, if◌then◌else◌,
}
use teamy_mft.Common.Result.{Result, ok, err}
use teamy_mft.Read.Logical.{LogicalFileSegment, LogicalFileSegmentKind, physical, sparse}
use teamy_mft.Read.Results.{
  PhysicalReadResultEntry, PhysicalReadResultsIterValue, PhysicalReadResultsIter, ReadError, next,
}
use teamy_mft.Read.Results.Steps.{last_begun, reaches}

-- A part of the logical file that is on the device.
pub record Part : Type 0 where
  pub logical_start : ℕ
  pub physical_start : ℕ
  pub size : ℕ

abbrev pub part_of : LogicalFileSegment → LogicalFileSegmentKind → List Part → List Part
part_of segment sparse parts = parts
part_of segment (physical start) parts =
    if segment.length == 0
    then parts
    else record {
      logical_start = segment.logical_offset;
      physical_start = start;
      size = segment.length;
    }
      ∷ parts

-- The parts of a plan: its segments on the device that are not empty.
abbrev pub parts_of : List LogicalFileSegment → List Part
parts_of [] = []
parts_of (segment ∷ segments) = part_of segment segment.kind (parts_of segments)

-- What is left of the parts behind the first `n` bytes of the first one.
abbrev pub parts_behind : ℕ → Part → List Part → List Part
parts_behind n part parts =
    if leb part.size n
    then parts
    else record {
      logical_start = part.logical_start + n;
      physical_start = part.physical_start + n;
      size = part.size - n;
    }
      ∷ parts

abbrev pub FitsFrom : LogicalFileSegment → LogicalFileSegmentKind → Type 0
FitsFrom segment sparse = Unit
FitsFrom segment (physical start) =
    (start + segment.length < 2 ^ 64) × (segment.logical_offset + segment.length < 2 ^ 64)

-- A segment on the device fits the address space, there and in the file.
abbrev pub FitsDevice : LogicalFileSegment → Type 0
FitsDevice segment = FitsFrom segment segment.kind

module _ (device : ℕ → ℕ) (entries : List PhysicalReadResultEntry) where
  -- The value is the beginning of a part, with the device's bytes.
  pub record IsFront (part : Part) (value : PhysicalReadResultsIterValue) : Type 0 where
    pub logical : value.logical_offset ≡ part.logical_start
    pub physical_at : value.physical_offset ≡ part.physical_start
    pub not_empty : 0 < length value.bytes
    pub inside : length value.bytes ≤ part.size
    pub from_device :
        (j : ℕ)
        → j < length value.bytes
        → get_or value.bytes j 0 ≡ device (value.physical_offset + j)

  -- What a call of `next` gives where some parts are left: the end exactly where none is left; else
  -- an error, where the last entry that begins by the first part does not reach it, or the
  -- beginning of that part, where `Then` holds of what is left behind it.
  abbrev pub Consumes :
      List Part
      → Option (Result ReadError PhysicalReadResultsIterValue)
      → (List Part → Type 0)
      → Type 0
  Consumes [] none Then = Unit
  Consumes [] (some item) Then = ⊥
  Consumes (part ∷ parts) none Then = ⊥
  Consumes (part ∷ parts) (some (err e)) Then =
      reaches part.physical_start (last_begun part.physical_start entries) ≡ false
  Consumes (part ∷ parts) (some (ok value)) Then =
      IsFront part value × Then (parts_behind (length value.bytes) part parts)

  -- `k` calls of `next` consume the parts in order, up to the end or the first error.
  abbrev pub Follows : ℕ → List Part → PhysicalReadResultsIter → Type 0
  Follows zero parts it = Unit
  Follows (suc k) parts it = Consumes parts (next it).0 (λ later. Follows k later (next it).1)
