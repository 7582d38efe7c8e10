-- ===== src/Read/Request.antt =====
-- src/read/physical_read_request.rs: one read of a physical device. Sizes are `usize` of 64 bits,
-- as `uom` keeps an `Information` in bytes.
use teamy_mft.Common.{
  ℕ, ◌+◌, ◌-◌, ◌%◌, ◌^◌, ◌≤◌, ◌<◌, ◌≡◌, Bool, ◌&&◌, ◌==◌, leb, ltb, if◌then◌else◌, arith, inl, inr,
  Bool-cases,
}
use Prim.Native.Nat.{compare, Ordering}

-- Addition and subtraction of `usize`, which wrap around.
abbrev pub usize_add : ℕ → ℕ → ℕ
usize_add a b = (a + b) % 2 ^ 64

abbrev pub usize_sub : ℕ → ℕ → ℕ
usize_sub a b = (a + 2 ^ 64 - b) % 2 ^ 64

pub record PhysicalReadRequest : Type 0 where
  pub offset : ℕ
  pub length : ℕ

unfoldable pub physical_end : PhysicalReadRequest → ℕ
physical_end r = usize_add r.offset r.length

unfoldable pub align_to_sector_size : ℕ → PhysicalReadRequest → PhysicalReadRequest
align_to_sector_size sector_size r =
    let past_sector_start = r.offset % sector_size in
    let past_sector_end = usize_add r.offset r.length % sector_size in
    if past_sector_start == 0 && past_sector_end == 0
    then r
    else let aligned_start = usize_sub r.offset past_sector_start in
      let aligned_end =
        if past_sector_end == 0
        then usize_add r.offset r.length
        else usize_add (usize_add r.offset r.length) (usize_sub sector_size past_sector_end) in
      record { offset = aligned_start; length = usize_sub aligned_end aligned_start }

-- `Ord`: by offset, then by length.
unfoldable pub cmp : PhysicalReadRequest → PhysicalReadRequest → Ordering
cmp r q = elim (compare r.offset q.offset) [
  | Ordering.lt ↦ Ordering.lt
  | Ordering.gt ↦ Ordering.gt
  | Ordering.eq ↦ compare r.length q.length
]

-- The read does not run past the end of the address space.
abbrev pub Fits : PhysicalReadRequest → Type 0
Fits r = r.offset + r.length < 2 ^ 64

-- The byte at `p` is among those that are read.
abbrev pub covers_byte : PhysicalReadRequest → ℕ → Bool
covers_byte r p = leb r.offset p && ltb p (r.offset + r.length)

-- Rounding a read that ends 512 bytes or more below 2 ^ 64 to sectors keeps the bytes that it
-- reads, starts and ends at a sector's border, and adds less than a sector on either side.
pub align_512_lem :
    (r : PhysicalReadRequest)
    → r.offset + r.length + 511 < 2 ^ 64
    → let a = align_to_sector_size 512 r in
      (a.offset % 512 ≡ 0)
      × ((a.offset + a.length) % 512 ≡ 0)
      × (a.offset ≤ r.offset)
      × (r.offset < a.offset + 512)
      × (r.offset + r.length ≤ a.offset + a.length)
      × (a.offset + a.length < r.offset + r.length + 512)
unfolding align_to_sector_size
align_512_lem r h = elim (Bool-cases (r.offset % 512 == 0)) [
  | inl starts ↦ elim (Bool-cases (usize_add r.offset r.length % 512 == 0)) [
    | inl ends ↦ ground arith
    | inr past ↦ ground arith
  ]
  | inr past ↦ ground arith
]
