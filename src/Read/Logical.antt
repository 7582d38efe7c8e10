-- ===== src/Read/Logical.antt =====
-- src/read/logical_read_plan.rs: a file as segments that are on the device or sparse.
use teamy_mft.Common.{
  ℕ, Bool, true, false, Option, none, some, List, [], ◌∷◌, and_then, if◌then◌else◌,
}
use Prim.Native.Nat.{compare, Ordering}
use teamy_mft.Read.Request.{PhysicalReadRequest, usize_add}
use teamy_mft.Read.Plan
use teamy_mft.Read.Plan.{PhysicalReadPlan}

pub data LogicalFileSegmentKind : Type 0 where
  physical : ℕ → LogicalFileSegmentKind
  sparse : LogicalFileSegmentKind

pub record LogicalFileSegment : Type 0 where
  pub logical_offset : ℕ
  pub length : ℕ
  pub kind : LogicalFileSegmentKind

-- The set's elements in order.
pub record LogicalReadPlan : Type 0 where
  pub segments : List LogicalFileSegment

-- `Ord`: by logical offset alone, so that two segments at one offset are one in a set.
unfoldable pub cmp : LogicalFileSegment → LogicalFileSegment → Ordering
cmp s t = compare s.logical_offset t.logical_offset

-- `BTreeSet::insert`
unfoldable pub insert : LogicalFileSegment → List LogicalFileSegment → List LogicalFileSegment
unfolding cmp
insert s [] = s ∷ []
insert s (t ∷ set) = elim (cmp s t) [
  | Ordering.lt ↦ s ∷ t ∷ set
  | Ordering.eq ↦ t ∷ set
  | Ordering.gt ↦ t ∷ insert s set
]

unfoldable pub is_physical : LogicalFileSegmentKind → Bool
is_physical (physical offset) = true
is_physical sparse = false

unfoldable pub keep_physical : List LogicalFileSegment → List LogicalFileSegment
unfolding is_physical
keep_physical [] = []
keep_physical (s ∷ segments) =
    let rest = keep_physical segments in if is_physical s.kind then s ∷ rest else rest

unfoldable pub physical_segments : LogicalReadPlan → List LogicalFileSegment
unfolding keep_physical
physical_segments plan = keep_physical plan.segments

unfoldable pub as_request_of : LogicalFileSegmentKind → ℕ → Option PhysicalReadRequest
as_request_of (physical offset) length = some (record { offset = offset; length = length })
as_request_of sparse length = none

unfoldable pub as_physical_read_request : LogicalFileSegment → Option PhysicalReadRequest
unfolding as_request_of
as_physical_read_request s = as_request_of s.kind s.length

-- `filter_map` and `collect`, which pushes the requests one by one; `none` is the panic on an
-- empty one.
unfoldable pub push_segments : List LogicalFileSegment → PhysicalReadPlan → Option PhysicalReadPlan
unfolding as_physical_read_request Plan.push Plan.insert
push_segments [] plan = some plan
push_segments (s ∷ segments) plan =
    and_then (elim (as_physical_read_request s) [ none ↦ some plan | some r ↦ Plan.push r plan ])
      (push_segments segments)

unfoldable pub as_physical_read_plan : LogicalReadPlan → Option PhysicalReadPlan
unfolding push_segments Plan.new
as_physical_read_plan plan = push_segments plan.segments Plan.new

unfoldable pub total_from : ℕ → List LogicalFileSegment → ℕ
total_from end [] = end
total_from end (s ∷ segments) = total_from (usize_add s.logical_offset s.length) segments

-- The end of the last segment.
unfoldable pub total_logical_size : LogicalReadPlan → ℕ
unfolding total_from
total_logical_size plan = total_from 0 plan.segments
