-- ===== src/Read/Plan/Merge.antt =====
-- `merge_contiguous_reads` against the plain recursion of Reference.
pub mod Reference
use teamy_mft.Common.{
  ℕ, zero, suc, ◌+◌, ◌-◌, ◌*◌, ◌≤◌, ◌<◌, ◌^◌, ◌≡◌, ◌≢◌, refl, sym, ap, ◌∙◌, Bool, true, false, ◌&&◌,
  ◌||◌, ◌⊎◌, Option, none, some, List, [], ◌∷◌, ◌++◌, ◌==◌, ltb, leb, if◌then◌else◌, All,
  All-append, arith, Bool-cases, inl, inr, append_assoc,
}
use teamy_mft.Read.Request.{PhysicalReadRequest, Fits, covers_byte, physical_end, usize_add, cmp}
use teamy_mft.Read.Plan.{
  PhysicalReadPlan, insert, pop_last, merge_request, merge_loop, merge_contiguous_reads, total_size,
  total_size_from,
}
use teamy_mft.Read.Plan.Coverage.{covers, pop_last-append}
use Reference.{
  Before, IsOrdered, IsMerged, IsSeparate-IsMerged, grown, merged_from, All-grown-Before,
  covers-merged_from, merged_from-IsOrdered, merged_from-IsSeparate, total-merged_from,
}

pub insert-append :
    (set : List PhysicalReadRequest) (r : PhysicalReadRequest)
    → All (λ q. Before q r) set
    → insert r set ≡ set ++ r ∷ []
unfolding insert cmp
insert-append [] r h = refl
insert-append (q ∷ set) r h = ground (arith, insert-append set r h.1)

All-Before-grown :
    (front : List PhysicalReadRequest) (last req : PhysicalReadRequest)
    → All (λ q. Before q last) front
    → All (λ q. Before q (grown last req)) front
All-Before-grown [] last req h = tt
All-Before-grown (q ∷ front) last req h = (ground arith, All-Before-grown front last req h.1)

All-Before_trans :
    (front : List PhysicalReadRequest) (r q : PhysicalReadRequest)
    → All (λ x. Before x r) front
    → Before r q
    → All (λ x. Before x q) front
All-Before_trans [] r q h k = tt
All-Before_trans (x ∷ front) r q h k = (ground arith, All-Before_trans front r q h.1 k)

-- The bounds that two requests in order share.
physical_end-Fits : (r : PhysicalReadRequest) → Fits r → physical_end r ≡ r.offset + r.length
unfolding physical_end
physical_end-Fits r h = omega arith

merge_step_joined :
    (front : List PhysicalReadRequest) (last req : PhysicalReadRequest)
    → All (λ q. Before q last) front
    → Fits last
    → Fits req
    → last.offset + last.length ≡ req.offset
    → merge_request req (some (last, front)) ≡ front ++ grown last req ∷ []
unfolding merge_request
merge_step_joined front last req below fits fits' e =
    let touches : (physical_end last == req.offset) ≡ true =
      ground (arith, physical_end-Fits last fits) in
    let sum : usize_add last.length req.length ≡ last.length + req.length = omega arith in
    rw (touches, sum) (insert-append front (grown last req) (All-Before-grown front last req below))

merge_step_apart :
    (front : List PhysicalReadRequest) (last req : PhysicalReadRequest)
    → All (λ q. Before q last) front
    → Before last req
    → Fits last
    → last.offset + last.length ≢ req.offset
    → merge_request req (some (last, front)) ≡ (front ++ last ∷ []) ++ req ∷ []
unfolding merge_request
merge_step_apart front last req below before fits e =
    let touches : (physical_end last == req.offset) ≡ false =
      ground (arith, physical_end-Fits last fits) in
    rw (touches, insert-append front last below)
      (insert-append (front ++ last ∷ []) req (
        All-append (λ q. Before q req) front (last ∷ [])
          (All-Before_trans front last req below before) (before, tt)))

merge_loop-merged_from :
    (requests front : List PhysicalReadRequest) (last : PhysicalReadRequest)
    → All (λ q. Before q last) front
    → IsOrdered (last ∷ requests)
    → merge_loop requests (front ++ last ∷ []) ≡ front ++ merged_from last requests
unfolding merge_loop merged_from
merge_loop-merged_from [] front last below ordered = refl
merge_loop-merged_from (req ∷ requests) front last below ordered =
    let (pos, fits, before, (pos', fits', before', rest)) = ordered in
    elim (Bool-cases (last.offset + last.length == req.offset)) [
      | inl touches ↦
          let e : last.offset + last.length ≡ req.offset = ground arith in
          rw
            (
              pop_last-append front last,
              merge_step_joined front last req below fits fits' e,
              touches,
            )
            (merge_loop-merged_from requests front (grown last req)
              (All-Before-grown front last req below)
              (omega arith, omega arith, All-grown-Before last req requests pos e before', rest))
      | inr gap ↦
          let e : last.offset + last.length ≢ req.offset = ground arith in
          rw (
            pop_last-append front last,
            merge_step_apart front last req below before.0 fits e,
            gap,
            merge_loop-merged_from requests (front ++ last ∷ []) req
                (All-append (λ q. Before q req) front (last ∷ [])
                  (All-Before_trans front last req below before.0) (before.0, tt))
                (pos', fits', before', rest),
            append_assoc,
          )
    ]

pub merge_loop-first :
    (r : PhysicalReadRequest) (requests : List PhysicalReadRequest)
    → IsOrdered (r ∷ requests)
    → merge_loop (r ∷ requests) [] ≡ merged_from r requests
merge_loop-first r requests h =
    let first : merge_loop (r ∷ requests) [] ≡ merge_loop requests (r ∷ []) =
      unfold merge_loop pop_last merge_request insert in refl in
    first ∙ merge_loop-merged_from requests [] r tt h

merge_loop_lem :
    (requests : List PhysicalReadRequest)
    → IsOrdered requests
    → ((p : ℕ) → covers (merge_loop requests []) p ≡ covers requests p)
      × (total_size_from 0 (merge_loop requests []) ≡ total_size_from 0 requests)
      × IsOrdered (merge_loop requests [])
      × IsMerged (merge_loop requests [])
merge_loop_lem [] h = unfold merge_loop in (λ p. refl, refl, tt, tt)
merge_loop_lem (r ∷ requests) h = rw (merge_loop-first r requests h) (
  λ p. covers-merged_from requests r p,
  total-merged_from requests r 0,
  merged_from-IsOrdered requests r h,
  IsSeparate-IsMerged (merged_from r requests) (merged_from-IsOrdered requests r h)
      (merged_from-IsSeparate requests r),
)

-- Merging an ordered plan keeps the bytes that it reads and the plan's total size, and leaves an
-- ordered plan in which no request begins where the one before it ends, and none later does
-- either, unless the one right behind it in the order overlaps it.
pub merge_contiguous_lem :
    (plan : PhysicalReadPlan)
    → IsOrdered plan.requests
    → ((p : ℕ) → covers (merge_contiguous_reads plan).requests p ≡ covers plan.requests p)
      × (total_size (merge_contiguous_reads plan) ≡ total_size plan)
      × IsOrdered (merge_contiguous_reads plan).requests
      × IsMerged (merge_contiguous_reads plan).requests
unfolding merge_contiguous_reads total_size
merge_contiguous_lem plan h = merge_loop_lem plan.requests h
