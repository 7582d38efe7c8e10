-- ===== src/Read/Results/Steps.antt =====
-- The chunks that the iterator yields have the device's bytes.
use teamy_mft.Common.{
  Bool, false, ℕ, zero, suc, ◌+◌, ◌-◌, ◌^◌, ◌≤◌, ◌<◌, ◌≡◌, refl, sym, ap, ◌∙◌, Option, none, some,
  List, [], ◌∷◌, length, get_or, take, drop, arith, All, Bool-cases, Option-cases, inl, inr, ltb,
  leb, length-take, length-drop, if◌then◌else◌, ◌⊎◌, ◌&&◌,
}
use teamy_mft.Common.Bytes.{Bytes}
use teamy_mft.Common.Result.{Result, ok, err}
use teamy_mft.Read.Request.{PhysicalReadRequest, usize_add, usize_sub, cmp}
use teamy_mft.Read.Results.{
  PhysicalReadResultEntry, PhysicalReadResultsIterValue, ActivePhysicalSegment, ReadError,
  not_contained, no_entries, not_after, floor, chunk_of, step_of, read_step,
}

get_or-drop : (n j : ℕ) (xs : Bytes) → get_or (drop n xs) j 0 ≡ get_or xs (n + j) 0
get_or-drop zero j xs = ap (λ t. get_or xs t 0) (omega arith)
get_or-drop (suc n) j [] = refl
get_or-drop (suc n) j (x ∷ xs) =
    let e : suc n + j ≡ suc (n + j) = omega arith in rw e (get_or-drop n j xs)

get_or-take : (n j : ℕ) (xs : Bytes) → j < n → get_or (take n xs) j 0 ≡ get_or xs j 0
get_or-take zero j xs h = absurd (omega arith)
get_or-take (suc n) j [] h = refl
get_or-take (suc n) zero (x ∷ xs) h = refl
get_or-take (suc n) (suc j) (x ∷ xs) h = get_or-take n j xs (omega arith)

-- Of entries in order, the last one that begins at an offset or before it.
abbrev pub last_begun : ℕ → List PhysicalReadResultEntry → Option PhysicalReadResultEntry
last_begun p [] = none
last_begun p (e ∷ entries) =
    if leb e.request.offset p
    then elim (last_begun p entries) [ none ↦ some e | some f ↦ some f ]
    else none

-- Whether an entry has the byte at an offset.
abbrev pub reaches : ℕ → Option PhysicalReadResultEntry → Bool
reaches p none = false
reaches p (some e) = leb e.request.offset p && ltb p (e.request.offset + e.request.length)

module _ (device : ℕ → ℕ) where
  -- An entry has the bytes that the device has where its request reads.
  abbrev pub IsRead : PhysicalReadResultEntry → Type 0
  IsRead e =
      (length e.bytes ≡ e.request.length)
      × (e.request.offset + e.request.length < 2 ^ 64)
      × ((j : ℕ) → j < e.request.length → get_or e.bytes j 0 ≡ device (e.request.offset + j))

  -- Somewhere in a segment that fits the address space, in the file and on the device.
  abbrev pub IsActive : ActivePhysicalSegment → Type 0
  IsActive a =
      (a.physical_offset_start ≤ a.physical_offset_current)
      × (a.physical_offset_current < a.physical_offset_end)
      × (a.physical_offset_end < 2 ^ 64)
      × (a.logical_offset_start + (a.physical_offset_end - a.physical_offset_start) < 2 ^ 64)

  -- The value is a part of the segment from the current offset on, and `next` stands behind it.
  pub record IsChunk (a : ActivePhysicalSegment) (value : PhysicalReadResultsIterValue)
      (next : ActivePhysicalSegment) : Type 0 where
    pub not_empty : 0 < length value.bytes
    pub here : value.physical_offset ≡ a.physical_offset_current
    pub placed :
        value.logical_offset + a.physical_offset_start
        ≡ a.logical_offset_start + a.physical_offset_current
    pub from_device :
        (j : ℕ)
        → j < length value.bytes
        → get_or value.bytes j 0 ≡ device (value.physical_offset + j)
    pub moved :
        next ≡ record a { physical_offset_current = a.physical_offset_current + length value.bytes }
    pub inside : a.physical_offset_current + length value.bytes ≤ a.physical_offset_end

  floor-IsRead :
      (probe : PhysicalReadRequest) (entries : List PhysicalReadResultEntry)
      (e : PhysicalReadResultEntry)
      → All IsRead entries
      → floor probe entries ≡ some e
      → IsRead e
  unfolding floor
  floor-IsRead probe [] e h k = cc
  floor-IsRead probe (x ∷ entries) e h k = elim (Bool-cases (not_after x.request probe)) [
    | inl upto ↦ elim (Option-cases (floor probe entries)) [
      | inl nothing ↦ let same : x ≡ e = ground (arith, k, upto, nothing) in rw (← same) h.0
      | inr (f, found) ↦ floor-IsRead probe entries e h.1 (ground (arith, k, upto, found))
    ]
    | inr after ↦ ground (arith, k, after)
  ]

  not_after_probe :
      (e : PhysicalReadResultEntry) (p : ℕ)
      → IsRead e
      → not_after e.request (record { offset = p; length = 2 ^ 64 - 1 }) ≡ leb e.request.offset p
  unfolding not_after cmp
  not_after_probe e p read = ground (arith, read.1)

  floor-last_begun :
      (p : ℕ) (entries : List PhysicalReadResultEntry)
      → All IsRead entries
      → floor (record { offset = p; length = 2 ^ 64 - 1 }) entries ≡ last_begun p entries
  unfolding floor
  floor-last_begun p [] read = refl
  floor-last_begun p (e ∷ entries) read =
      rw (not_after_probe e p read.0, floor-last_begun p entries read.1) refl

  -- No chunk, where the entry does not have the current offset, or one of the entry's bytes.
  abbrev pub Yields :
      Option PhysicalReadResultEntry
      → ActivePhysicalSegment
      → Result ReadError (PhysicalReadResultsIterValue × ActivePhysicalSegment)
      → Type 0
  Yields entry a result =
      ((e : ReadError) × (result ≡ err e) × (reaches a.physical_offset_current entry ≡ false))
      ⊎ ((value : PhysicalReadResultsIterValue) × (next : ActivePhysicalSegment) × (result
            ≡ ok (value, next))
          × IsChunk a value next)

  -- The chunk of `n` bytes at the current offset.
  abbrev value_of :
      PhysicalReadResultEntry → ActivePhysicalSegment → ℕ → PhysicalReadResultsIterValue
  value_of e a n = record {
    logical_offset = a.logical_offset_start + (a.physical_offset_current - a.physical_offset_start);
    physical_offset = a.physical_offset_current;
    bytes = take n (drop (a.physical_offset_current - e.request.offset) e.bytes);
  }

  abbrev behind : ActivePhysicalSegment → ℕ → ActivePhysicalSegment
  behind a n = record a { physical_offset_current = a.physical_offset_current + n }

  value_of-IsChunk :
      (e : PhysicalReadResultEntry) (a : ActivePhysicalSegment) (n : ℕ)
      → IsRead e
      → IsActive a
      → 0 < n
      → e.request.offset ≤ a.physical_offset_current
      → a.physical_offset_current + n ≤ e.request.offset + e.request.length
      → a.physical_offset_current + n ≤ a.physical_offset_end
      → IsChunk a (value_of e a n) (behind a n)
  value_of-IsChunk e a n read active pos from upto room =
      let off = a.physical_offset_current - e.request.offset in
      let size : length (take n (drop off e.bytes)) ≡ n =
        omega (arith, length-take n (drop off e.bytes), length-drop off e.bytes, read.0) in
      record {
        not_empty = omega (arith, size);
        here = refl;
        placed = omega (arith, active.0);
        from_device = λ j h.
            let small : j < n = omega (arith, h, size) in
            let there : e.request.offset + (off + j) ≡ a.physical_offset_current + j =
              omega arith in
            get_or-take n j (drop off e.bytes) small
            ∙ get_or-drop off j e.bytes
            ∙ read.2 (off + j) (omega arith)
            ∙ ap device there;
        moved = ap (behind a) (sym size);
        inside = omega (arith, size, room);
      }

  chunk_of-Yields :
      (e : PhysicalReadResultEntry) (a : ActivePhysicalSegment)
      → IsRead e
      → IsActive a
      → Yields (some e) a (chunk_of e a)
  unfolding chunk_of
  chunk_of-Yields e a read active =
      let current = a.physical_offset_current in
      let off = current - e.request.offset in
      let avail = e.request.length - off in
      let need = a.physical_offset_end - current in
      let n = if ltb avail need then avail else need in
      let inside_test =
        leb e.request.offset current && ltb current (usize_add e.request.offset e.request.length) in
      elim (Bool-cases inside_test) [
        | inr outside ↦ inl (not_contained, rw outside refl, ground (arith, outside, read.1))
        | inl contained ↦
            let from : e.request.offset ≤ current = ground (arith, contained) in
            let upto : current < e.request.offset + e.request.length =
              ground (arith, contained, read.1) in
            let off_is : usize_sub current e.request.offset ≡ off =
              omega (arith, active.1, active.2) in
            let avail_is : usize_sub e.request.length off ≡ avail = omega (arith, read.1) in
            let need_is : usize_sub a.physical_offset_end current ≡ need =
              omega (arith, active.1, active.2) in
            let bounds : (0 < n) × (n ≤ avail) × (n ≤ need) = ground (arith, active.1) in
            let next_is : usize_add current n ≡ current + n =
              omega (arith, bounds.2, active.1, active.2) in
            let gone_is : usize_sub current a.physical_offset_start
                ≡ current - a.physical_offset_start =
              omega (arith, active.0, active.1, active.2) in
            let there_is : usize_add a.logical_offset_start (current - a.physical_offset_start)
                ≡ a.logical_offset_start + (current - a.physical_offset_start) =
              omega (arith, active.0, active.1, active.3) in
            inr (
              value_of e a n,
              behind a n,
              rw (contained, off_is, avail_is, need_is, next_is, gone_is, there_is) refl,
              value_of-IsChunk e a n read active bounds.0 from (omega (arith, bounds.1, upto))
                  (omega (arith, bounds.2, active.1)),
            )
      ]

  step_of-Yields :
      (o : Option PhysicalReadResultEntry) (a : ActivePhysicalSegment)
      → ((e : PhysicalReadResultEntry) → o ≡ some e → IsRead e)
      → IsActive a
      → Yields o a (step_of o a)
  unfolding step_of
  step_of-Yields none a h active = inl (no_entries, refl, refl)
  step_of-Yields (some e) a h active = chunk_of-Yields e a (h e refl) active

  -- Where the entries hold what the device has and the segment fits the address space, a step of
  -- an active segment is a chunk that is not empty, has the device's bytes from the current offset
  -- on, goes where the segment has that offset in the file, and stays inside the segment, and the
  -- segment's offset moves behind it; or an error, where the last entry that begins by the current
  -- offset does not reach beyond it.
  pub read_step_lem :
      (entries : List PhysicalReadResultEntry) (a : ActivePhysicalSegment)
      → All IsRead entries
      → IsActive a
      → Yields (last_begun a.physical_offset_current entries) a (read_step entries a)
  unfolding read_step
  read_step_lem entries a read active =
      let probe : PhysicalReadRequest = record {
        offset = a.physical_offset_current;
        length = 2 ^ 64 - 1;
      } in
      rw (← floor-last_begun a.physical_offset_current entries read) (
        step_of-Yields (floor probe entries) a (λ e found. floor-IsRead probe entries e read found)
          active)
