-- ===== src/Read/Results.antt =====
-- src/read/physical_read_results.rs: what was read, and the chunks that make the logical file of it.
pub mod Steps
pub mod Parts
pub mod Placed
use teamy_mft.Common.{
  ℕ, zero, suc, ◌+◌, ◌-◌, ◌^◌, Bool, true, false, ◌&&◌, ◌||◌, not, Option, none, some, List, [],
  ◌∷◌, ◌++◌, ltb, leb, ◌==◌, if◌then◌else◌, take, drop, replicate,
}
use teamy_mft.Common
use Prim.Native.Nat.{Ordering}
use teamy_mft.Common.Bytes.{Bytes}
use teamy_mft.Common.Result.{Result, ok, err}
use teamy_mft.Read.Request.{PhysicalReadRequest, cmp, usize_add, usize_sub}
use teamy_mft.Read.Logical.{
  LogicalFileSegment, LogicalReadPlan, as_physical_read_request, total_logical_size,
}

pub record PhysicalReadResultEntry : Type 0 where
  pub request : PhysicalReadRequest
  pub bytes : Bytes

-- A chunk of the logical file, and where the device has it.
pub record PhysicalReadResultsIterValue : Type 0 where
  pub logical_offset : ℕ
  pub physical_offset : ℕ
  pub bytes : Bytes

pub record ActivePhysicalSegment : Type 0 where
  pub logical_offset_start : ℕ
  pub physical_offset_start : ℕ
  pub physical_offset_current : ℕ
  pub physical_offset_end : ℕ

pub record PhysicalReadResultsIter : Type 0 where
  pub entries : List PhysicalReadResultEntry
  pub logical_segments : List LogicalFileSegment
  pub active_segment : Option ActivePhysicalSegment
  pub done : Bool

pub data ReadError : Type 0 where
  no_entries not_contained write_failed : ReadError

unfoldable pub iter : List PhysicalReadResultEntry → LogicalReadPlan → PhysicalReadResultsIter
iter entries logical_plan = record {
  entries = entries;
  logical_segments = logical_plan.segments;
  active_segment = none;
  done = false;
}

-- `cmp r q` is not `Greater`.
unfoldable pub not_after : PhysicalReadRequest → PhysicalReadRequest → Bool
unfolding cmp
not_after r q = elim (cmp r q) [ Ordering.lt ↦ true | Ordering.eq ↦ true | Ordering.gt ↦ false ]

-- `entries.range(..=probe).next_back()` on the set's elements in order.
unfoldable pub floor :
    PhysicalReadRequest → List PhysicalReadResultEntry → Option PhysicalReadResultEntry
unfolding not_after
floor probe [] = none
floor probe (e ∷ entries) =
    if not_after e.request probe
    then elim (floor probe entries) [ none ↦ some e | some f ↦ some f ]
    else none

-- The chunk of an entry at `current`, up to the entry's end or the segment's.
unfoldable pub chunk_of :
    PhysicalReadResultEntry
    → ActivePhysicalSegment
    → Result ReadError (PhysicalReadResultsIterValue × ActivePhysicalSegment)
chunk_of entry active =
    let current = active.physical_offset_current in
    let offset_within_entry = usize_sub current entry.request.offset in
    let bytes_available = usize_sub entry.request.length offset_within_entry in
    let bytes_needed = usize_sub active.physical_offset_end current in
    let bytes_to_write =
      if ltb bytes_available bytes_needed then bytes_available else bytes_needed in
    if leb entry.request.offset current
      && ltb current (usize_add entry.request.offset entry.request.length)
    then ok (
      record {
        logical_offset =
            usize_add active.logical_offset_start (usize_sub current active.physical_offset_start);
        physical_offset = current;
        bytes = take bytes_to_write (drop offset_within_entry entry.bytes);
      },
      record active { physical_offset_current = usize_add current bytes_to_write },
    )
    else err not_contained

unfoldable pub step_of :
    Option PhysicalReadResultEntry
    → ActivePhysicalSegment
    → Result ReadError (PhysicalReadResultsIterValue × ActivePhysicalSegment)
step_of none active = err no_entries
step_of (some entry) active = chunk_of entry active

unfoldable pub read_step :
    List PhysicalReadResultEntry
    → ActivePhysicalSegment
    → Result ReadError (PhysicalReadResultsIterValue × ActivePhysicalSegment)
read_step entries active =
    step_of
      (floor (record { offset = active.physical_offset_current; length = 2 ^ 64 - 1 }) entries)
      active

-- A step of an active segment that is not at its end.
unfoldable pub yield_step :
    PhysicalReadResultsIter
    → Result ReadError (PhysicalReadResultsIterValue × ActivePhysicalSegment)
    → Result ReadError PhysicalReadResultsIterValue × PhysicalReadResultsIter
yield_step it (err e) = (err e, record it { done = true })
yield_step it (ok (value, active)) = (ok value, record it { active_segment = some active })

unfoldable pub active_of : LogicalFileSegment → PhysicalReadRequest → ActivePhysicalSegment
active_of segment request = record {
  logical_offset_start = segment.logical_offset;
  physical_offset_start = request.offset;
  physical_offset_current = request.offset;
  physical_offset_end = usize_add request.offset request.length;
}

-- The loop where no segment is active: it takes segments up to one that is on the device and not
-- empty. An empty one becomes active and is at its end at once.
unfoldable pub next_segment :
    PhysicalReadResultsIter
    → List LogicalFileSegment
    → Option (Result ReadError PhysicalReadResultsIterValue) × PhysicalReadResultsIter
unfolding read_step yield_step active_of as_physical_read_request
next_segment it [] = (none, record it { logical_segments = []; active_segment = none })
next_segment it (segment ∷ segments) =
    let onward = next_segment it segments in
    elim (as_physical_read_request segment) [
      | none ↦ onward
      | some request ↦
          let active = active_of segment request in
          let (item, it') =
            yield_step (record it { logical_segments = segments; active_segment = some active })
              (read_step it.entries active) in
          if leb active.physical_offset_end active.physical_offset_current
          then onward
          else (some item, it')
    ]

unfoldable pub next_active :
    PhysicalReadResultsIter
    → Option ActivePhysicalSegment
    → Option (Result ReadError PhysicalReadResultsIterValue) × PhysicalReadResultsIter
unfolding next_segment read_step yield_step
next_active it none = next_segment it it.logical_segments
next_active it (some active) =
    let (item, it') = yield_step it (read_step it.entries active) in
    let onward = next_segment it it.logical_segments in
    if leb active.physical_offset_end active.physical_offset_current
    then onward
    else (some item, it')

unfoldable pub next :
    PhysicalReadResultsIter
    → Option (Result ReadError PhysicalReadResultsIterValue) × PhysicalReadResultsIter
unfolding next_active
next it = if it.done then (none, it) else next_active it it.active_segment

-- `seek` and `write_all` on a cursor over a vector, which does not grow.
unfoldable pub write_step : Bytes → PhysicalReadResultsIterValue → Result ReadError Bytes
write_step writer step =
    let end = step.logical_offset + Common.length step.bytes in
    if ltb (Common.length writer) end
    then err write_failed
    else ok (take step.logical_offset writer ++ (step.bytes ++ drop end writer))

-- The loop of `write`; `none` is fuel that ran out.
unfoldable pub write_from : ℕ → PhysicalReadResultsIter → Bytes → Option (Result ReadError Bytes)
unfolding next write_step
write_from zero it writer = none
write_from (suc fuel) it writer = elim (next it).0 [
  | none ↦ some (ok writer)
  | some item ↦ elim item [
    | err e ↦ some (err e)
    | ok step ↦ elim (write_step writer step) [
      | err e ↦ some (err e)
      | ok writer' ↦ write_from fuel (next it).1 writer'
    ]
  ]
]

unfoldable pub write :
    ℕ → List PhysicalReadResultEntry → LogicalReadPlan → Bytes → Option (Result ReadError Bytes)
unfolding write_from iter
write fuel entries logical_plan writer = write_from fuel (iter entries logical_plan) writer

-- The vector of the plan's size, zeros where nothing is written. A chunk has a byte at least.
unfoldable pub to_vec :
    List PhysicalReadResultEntry → LogicalReadPlan → Option (Result ReadError Bytes)
unfolding write total_logical_size
to_vec entries logical_plan =
    let size = total_logical_size logical_plan in
    write (suc size) entries logical_plan (replicate size 0)
