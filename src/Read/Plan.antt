-- ===== src/Read/Plan.antt =====
-- src/read/physical_read_plan.rs: a plan is an ordered set of read requests.
pub mod Merge
pub mod Coverage
pub mod Chunks
pub mod Align
use teamy_mft.Common.{
  ℕ, zero, suc, ◌+◌, ◌-◌, ◌<◌, Bool, true, false, Option, none, some, List, [], ◌∷◌, ◌==◌, ltb,
  if◌then◌else◌, and_then,
}
use Prim.Native.Nat.{Ordering}
use teamy_mft.Common
use teamy_mft.Read.Request.{
  PhysicalReadRequest, cmp, physical_end, align_to_sector_size, usize_add, usize_sub,
}

pub data ZeroLengthPushBehaviour : Type 0 where
  panic no_op : ZeroLengthPushBehaviour

pub record PhysicalReadPlan : Type 0 where
  pub requests : List PhysicalReadRequest
  pub zero_length_behavior : ZeroLengthPushBehaviour

unfoldable pub new : PhysicalReadPlan
new = record { requests = []; zero_length_behavior = panic }

-- `BTreeSet::insert` on the set's elements in order: one that is there already stays.
unfoldable pub insert : PhysicalReadRequest → List PhysicalReadRequest → List PhysicalReadRequest
unfolding cmp
insert r [] = r ∷ []
insert r (q ∷ set) = elim (cmp r q) [
  | Ordering.lt ↦ r ∷ q ∷ set
  | Ordering.eq ↦ q ∷ set
  | Ordering.gt ↦ q ∷ insert r set
]

-- `BTreeSet::pop_last`: the greatest element, and the others.
unfoldable pub pop_last :
    List PhysicalReadRequest → Option (PhysicalReadRequest × List PhysicalReadRequest)
pop_last [] = none
pop_last (r ∷ []) = some (r, [])
pop_last (r ∷ q ∷ set) = elim (pop_last (q ∷ set)) [
  | none ↦ none
  | some (last, rest) ↦ some (last, r ∷ rest)
]

-- `none` is the panic on a request of length zero.
unfoldable pub push : PhysicalReadRequest → PhysicalReadPlan → Option PhysicalReadPlan
push request plan =
    if request.length == 0
    then elim plan.zero_length_behavior [ panic ↦ none | no_op ↦ some plan ]
    else some (record plan { requests = insert request plan.requests })

-- One round of the merging loop.
unfoldable pub merge_request :
    PhysicalReadRequest
    → Option (PhysicalReadRequest × List PhysicalReadRequest)
    → List PhysicalReadRequest
unfolding insert physical_end
merge_request req none = insert req []
merge_request req (some (last, merged)) =
    if physical_end last == req.offset
    then insert (record last { length = usize_add last.length req.length }) merged
    else insert req (insert last merged)

unfoldable pub merge_loop :
    List PhysicalReadRequest → List PhysicalReadRequest → List PhysicalReadRequest
unfolding merge_request pop_last
merge_loop [] merged = merged
merge_loop (req ∷ physical_requests) merged =
    merge_loop physical_requests (merge_request req (pop_last merged))

unfoldable pub merge_contiguous_reads : PhysicalReadPlan → PhysicalReadPlan
unfolding merge_loop
merge_contiguous_reads plan = record plan { requests = merge_loop plan.requests [] }

-- The `while` loop over one request. A round takes a byte at least from `remaining`.
unfoldable pub chunk_request : ℕ → ℕ → ℕ → ℕ → PhysicalReadPlan → Option PhysicalReadPlan
chunk_request zero chunk_size offset remaining out = none
chunk_request (suc fuel) chunk_size offset remaining out =
    let segment_size = if ltb chunk_size remaining then chunk_size else remaining in
    let again = and_then (push (record { offset = offset; length = segment_size }) out) (
      chunk_request fuel chunk_size (usize_add offset segment_size)
        (usize_sub remaining segment_size)) in
    if ltb 0 remaining then again else some out

unfoldable pub chunk_requests :
    ℕ → List PhysicalReadRequest → PhysicalReadPlan → Option PhysicalReadPlan
chunk_requests chunk_size [] out = some out
chunk_requests chunk_size (req ∷ requests) out =
    and_then (chunk_request (suc req.length) chunk_size req.offset req.length out)
      (chunk_requests chunk_size requests)

unfoldable pub chunked : ℕ → PhysicalReadPlan → Option PhysicalReadPlan
unfolding chunk_requests chunk_request push insert new
chunked chunk_size plan =
    if chunk_size == 0 then some plan else chunk_requests chunk_size plan.requests new

unfoldable pub align_requests :
    List PhysicalReadRequest → PhysicalReadPlan → Option PhysicalReadPlan
align_requests [] plan = some plan
align_requests (req ∷ requests) plan =
    and_then (push (align_to_sector_size 512 req) plan) (align_requests requests)

unfoldable pub align_512 : PhysicalReadPlan → Option PhysicalReadPlan
unfolding align_requests push insert align_to_sector_size merge_contiguous_reads
align_512 plan =
    if Common.length plan.requests == 0
    then some plan
    else and_then (align_requests plan.requests (record plan { requests = [] }))
        (λ aligned. some (merge_contiguous_reads aligned))

unfoldable pub total_size_from : ℕ → List PhysicalReadRequest → ℕ
total_size_from acc [] = acc
total_size_from acc (r ∷ requests) = total_size_from (usize_add acc r.length) requests

unfoldable pub total_size : PhysicalReadPlan → ℕ
unfolding total_size_from
total_size plan = total_size_from 0 plan.requests

unfoldable pub is_empty : PhysicalReadPlan → Bool
is_empty plan = Common.length plan.requests == 0

unfoldable pub len : PhysicalReadPlan → ℕ
len plan = Common.length plan.requests
