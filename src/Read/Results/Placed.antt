-- ===== src/Read/Results/Placed.antt =====
-- The iterator over a whole plan: its chunks are the plan's parts on the device, in order, each in
-- its place in the logical file.
use teamy_mft.Common.{
  ℕ, zero, suc, ◌+◌, ◌-◌, ◌^◌, ◌≤◌, ◌<◌, ◌≡◌, refl, ap, ◌∙◌, false, Option, none, some, List, [],
  ◌∷◌, length, arith, All, Bool-cases, Option-cases, inl, inr, leb, ◌==◌, if◌then◌else◌,
}
use teamy_mft.Common.Result.{Result, ok, err}
use teamy_mft.Read.Request.{PhysicalReadRequest, usize_add}
use teamy_mft.Read.Logical.{
  LogicalFileSegment, LogicalFileSegmentKind, physical, sparse, LogicalReadPlan,
  as_physical_read_request, as_request_of,
}
use teamy_mft.Read.Results.{
  PhysicalReadResultEntry, PhysicalReadResultsIterValue, ActivePhysicalSegment,
  PhysicalReadResultsIter, ReadError, iter, read_step, yield_step, active_of, next_segment,
  next_active, next,
}
use teamy_mft.Read.Results.Steps.{IsRead, IsActive, IsChunk, Yields, last_begun, read_step_lem}
use teamy_mft.Read.Results.Parts.{
  Part, part_of, parts_of, parts_behind, FitsFrom, FitsDevice, IsFront, Consumes, Follows,
}

module _ (device : ℕ → ℕ) (entries : List PhysicalReadResultEntry) where
  abbrev rest_of : ActivePhysicalSegment → Part
  rest_of a = record {
    logical_start = a.logical_offset_start + (a.physical_offset_current - a.physical_offset_start);
    physical_start = a.physical_offset_current;
    size = a.physical_offset_end - a.physical_offset_current;
  }

  abbrev active_parts : Option ActivePhysicalSegment → List Part → List Part
  active_parts none parts = parts
  active_parts (some a) parts =
      if leb a.physical_offset_end a.physical_offset_current then parts else rest_of a ∷ parts

  abbrev IsWithin : Option ActivePhysicalSegment → Type 0
  IsWithin none = Unit
  IsWithin (some a) =
      (a.physical_offset_start ≤ a.physical_offset_current)
      × (a.physical_offset_current ≤ a.physical_offset_end)
      × (a.physical_offset_end < 2 ^ 64)
      × (a.logical_offset_start + (a.physical_offset_end - a.physical_offset_start) < 2 ^ 64)

  -- An iterator with these parts left.
  record HasLeft (it : PhysicalReadResultsIter) (parts : List Part) : Type 0 where
    same : it.entries ≡ entries
    fits : All FitsDevice it.logical_segments
    within : IsWithin it.active_segment
    going : it.done ≡ false
    left : active_parts it.active_segment (parts_of it.logical_segments) ≡ parts

  abbrev Steps :
      List Part
      → Option (Result ReadError PhysicalReadResultsIterValue) × PhysicalReadResultsIter
      → Type 0
  Steps parts r = Consumes device entries parts r.0 (HasLeft r.1)

  chunk-IsFront :
      (a later : ActivePhysicalSegment) (value : PhysicalReadResultsIterValue)
      → IsActive device a
      → IsChunk device a value later
      → IsFront device entries (rest_of a) value
  chunk-IsFront a later value active chunk = record {
    logical = omega (arith, chunk.placed, active.0);
    physical_at = chunk.here;
    not_empty = chunk.not_empty;
    inside = omega (arith, chunk.inside);
    from_device = chunk.from_device;
  }

  -- The parts behind a chunk.
  active_parts-moved :
      (a : ActivePhysicalSegment) (n : ℕ) (parts : List Part)
      → IsActive device a
      → a.physical_offset_current + n ≤ a.physical_offset_end
      → active_parts
          (some (record a { physical_offset_current = a.physical_offset_current + n }))
          parts
        ≡ parts_behind n (rest_of a) parts
  active_parts-moved a n parts active upto =
      let moved : a.logical_offset_start + (a.physical_offset_current + n - a.physical_offset_start)
          ≡ a.logical_offset_start + (a.physical_offset_current - a.physical_offset_start) + n =
        omega (arith, active.0) in
      let size : a.physical_offset_end - (a.physical_offset_current + n)
          ≡ a.physical_offset_end - a.physical_offset_current - n =
        omega arith in
      let same : leb a.physical_offset_end (a.physical_offset_current + n)
          ≡ leb (a.physical_offset_end - a.physical_offset_current) n =
        ground (arith, active.1) in
      rw (same, moved, size) refl

  yield_step-Steps :
      (it : PhysicalReadResultsIter) (a : ActivePhysicalSegment)
      (result : Result ReadError (PhysicalReadResultsIterValue × ActivePhysicalSegment))
      → it.entries ≡ entries
      → All FitsDevice it.logical_segments
      → it.done ≡ false
      → IsActive device a
      → Yields device (last_begun a.physical_offset_current entries) a result
      → Steps
          (rest_of a ∷ parts_of it.logical_segments)
          (some (yield_step it result).0, (yield_step it result).1)
  unfolding yield_step
  yield_step-Steps it a result same fits going active (inl (e, failed, missed)) = rw failed missed
  yield_step-Steps it a result same fits going active (inr (value, later, yielded, chunk)) =
      let n = length value.bytes in
      rw yielded (
        chunk-IsFront a later value active chunk,
        record {
          same = same;
          fits = fits;
          within = rw chunk.moved (omega (arith, active.0), chunk.inside, active.2, active.3);
          going = going;
          left =
              ap (λ o. active_parts (some o) (parts_of it.logical_segments)) chunk.moved
              ∙ active_parts-moved a n (parts_of it.logical_segments) active chunk.inside;
        },
      )

  read_active :
      (it it' : PhysicalReadResultsIter) (a : ActivePhysicalSegment)
      → All (IsRead device) entries
      → it.entries ≡ entries
      → it'.entries ≡ entries
      → All FitsDevice it'.logical_segments
      → it'.done ≡ false
      → IsWithin (some a)
      → leb a.physical_offset_end a.physical_offset_current ≡ false
      → Steps (rest_of a ∷ parts_of it'.logical_segments) (
        some (yield_step it' (read_step it.entries a)).0,
        (yield_step it' (read_step it.entries a)).1,
      )
  read_active it it' a read same same' fits going within more =
      let active : IsActive device a = (within.0, ground (arith, more), within.2, within.3) in
      rw same (
        yield_step-Steps it' a (read_step entries a) same' fits going active
          (read_step_lem device entries a read active))

  -- A segment that becomes active is its part, whole.
  active_of-parts :
      (segment : LogicalFileSegment) (kind : LogicalFileSegmentKind) (request : PhysicalReadRequest)
      (parts : List Part)
      → FitsFrom segment kind
      → as_request_of kind segment.length ≡ some request
      → IsWithin (some (active_of segment request))
        × (part_of segment kind parts ≡ active_parts (some (active_of segment request)) parts)
  unfolding active_of as_request_of
  active_of-parts segment sparse request parts fits h = cc
  active_of-parts segment (physical start) request parts fits h =
      let e : record { offset = start; length = segment.length } ≡ request = cc in
      let end : usize_add start segment.length ≡ start + segment.length = omega (arith, fits.0) in
      let same : leb (start + segment.length) start ≡ segment.length == 0 = ground arith in
      let size : start + segment.length - start ≡ segment.length = omega arith in
      let first : segment.logical_offset + (start - start) ≡ segment.logical_offset = omega arith in
      rw (← e) (
        (omega arith, omega (arith, end), omega (arith, end, fits.0), omega (arith, end, fits.1)),
        rw (end, same, size, first) refl,
      )

  part_of-none :
      (segment : LogicalFileSegment) (kind : LogicalFileSegmentKind) (parts : List Part)
      → as_request_of kind segment.length ≡ none
      → part_of segment kind parts ≡ parts
  unfolding as_request_of
  part_of-none segment sparse parts h = refl
  part_of-none segment (physical start) parts h = cc

  next_segment-Steps :
      (it : PhysicalReadResultsIter) (segments : List LogicalFileSegment)
      → All (IsRead device) entries
      → it.entries ≡ entries
      → it.done ≡ false
      → All FitsDevice segments
      → Steps (parts_of segments) (next_segment it segments)
  unfolding next_segment as_physical_read_request
  next_segment-Steps it [] read same going fits = tt
  next_segment-Steps it (segment ∷ segments) read same going fits =
      let onward = next_segment-Steps it segments read same going fits.1 in
      elim (Option-cases (as_request_of segment.kind segment.length)) [
        | inl gone ↦
            rw (gone, next_segment, part_of-none segment segment.kind (parts_of segments) gone)
              onward
        | inr (request, e) ↦
            let a = active_of segment request in
            let (within, part) =
              active_of-parts segment segment.kind request (parts_of segments) fits.0 e in
            let it' = record it { logical_segments = segments; active_segment = some a } in
            elim (Bool-cases (leb a.physical_offset_end a.physical_offset_current)) [
              | inl over ↦ rw (e, next_segment, part, over) onward
              | inr more ↦
                  rw (e, next_segment, part, more)
                    (read_active it it' a read same same fits.1 going within more)
            ]
      ]

  next_active-Steps :
      (it : PhysicalReadResultsIter) (active : Option ActivePhysicalSegment)
      → All (IsRead device) entries
      → it.entries ≡ entries
      → All FitsDevice it.logical_segments
      → it.done ≡ false
      → IsWithin active
      → Steps (active_parts active (parts_of it.logical_segments)) (next_active it active)
  unfolding next_active
  next_active-Steps it none read same fits going within =
      next_segment-Steps it it.logical_segments read same going fits
  next_active-Steps it (some a) read same fits going within =
      elim (Bool-cases (leb a.physical_offset_end a.physical_offset_current)) [
        | inl over ↦ rw over (next_segment-Steps it it.logical_segments read same going fits)
        | inr more ↦ rw more (read_active it it a read same same fits going within more)
      ]

  next-Steps :
      (it : PhysicalReadResultsIter) (parts : List Part)
      → All (IsRead device) entries
      → HasLeft it parts
      → Steps parts (next it)
  unfolding next
  next-Steps it parts read has =
      let step =
        next_active-Steps it it.active_segment read has.same has.fits has.going has.within in
      simp has.going (rw has.left at step)

  Consumes-then :
      (parts : List Part) (item : Option (Result ReadError PhysicalReadResultsIterValue))
      (Then Then' : List Part → Type 0)
      → ((later : List Part) → Then later → Then' later)
      → Consumes device entries parts item Then
      → Consumes device entries parts item Then'
  Consumes-then [] none Then Then' more h = tt
  Consumes-then [] (some item) Then Then' more h = h
  Consumes-then (part ∷ parts) none Then Then' more h = h
  Consumes-then (part ∷ parts) (some (err e)) Then Then' more h = h
  Consumes-then (part ∷ parts) (some (ok value)) Then Then' more h = (h.0, more _ h.1)

  next-Follows :
      (k : ℕ) (it : PhysicalReadResultsIter) (parts : List Part)
      → All (IsRead device) entries
      → HasLeft it parts
      → Follows device entries k parts it
  next-Follows zero it parts read has = tt
  next-Follows (suc k) it parts read has =
      Consumes-then parts (next it).0 (HasLeft (next it).1)
        (λ later. Follows device entries k later (next it).1)
        (λ later has'. next-Follows k (next it).1 later read has') (next-Steps it parts read has)

  -- Where the entries hold what the device has, and the segments on the device fit the address
  -- space, there and in the file, any number of calls of `next` on the iterator of a plan give the
  -- plan's parts on the device in order, up to the first error: each chunk is not empty, begins in
  -- the file and on the device where what is left of the first part begins, has the device's
  -- bytes, and stays inside that part; the next one begins behind it; the iterator ends exactly
  -- where no part is left; and an error is given only where the last entry that begins by the
  -- place of the next chunk on the device does not reach beyond that place.
  pub iter-Follows :
      (plan : LogicalReadPlan) (k : ℕ)
      → All (IsRead device) entries
      → All FitsDevice plan.segments
      → Follows device entries k (parts_of plan.segments) (iter entries plan)
  unfolding iter
  iter-Follows plan k read fits =
      next-Follows k (iter entries plan) (parts_of plan.segments) read
        (record { same = refl; fits = fits; within = tt; going = refl; left = refl })
