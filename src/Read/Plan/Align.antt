-- ===== src/Read/Plan/Align.antt =====
-- `align_512`: every read is rounded outward to sectors, and the results are merged.
use teamy_mft.Common.{
  ℕ, ◌+◌, ◌%◌, ◌<◌, ◌^◌, ◌≡◌, refl, sym, ◌∙◌, true, ◌||◌, some, List, [], ◌∷◌, ◌==◌, All, arith,
  Bool-cases, inl, inr, length,
}
use mathlib.Core.Path.{subst}
use teamy_mft.Read.Request.{
  PhysicalReadRequest, Fits, covers_byte, cmp, align_to_sector_size, align_512_lem,
}
use teamy_mft.Read.Plan.{
  PhysicalReadPlan, insert, align_requests, align_512, merge_contiguous_reads, merge_loop,
}
use teamy_mft.Read.Plan.Coverage.{covers, covers-insert, All-insert}
use teamy_mft.Read.Plan.Chunks.{push-some}
use teamy_mft.Read.Plan.Merge.{merge_loop-first, merge_contiguous_lem}
use teamy_mft.Read.Plan.Merge.Reference.{Before, IsOrdered, grown, merged_from}

-- Starts and ends at a sector's border.
abbrev pub IsAligned : PhysicalReadRequest → Type 0
IsAligned r = (r.offset % 512 ≡ 0) × (r.length % 512 ≡ 0)

-- Reads something, and can be rounded up to a sector inside the address space.
abbrev pub IsRoundable : PhysicalReadRequest → Type 0
IsRoundable r = (0 < r.length) × (r.offset + r.length + 511 < 2 ^ 64)

All-Before_weaken :
    (r q : PhysicalReadRequest) (set : List PhysicalReadRequest)
    → Before r q
    → All (λ x. Before q x) set
    → All (λ x. Before r x) set
All-Before_weaken r q [] h k = tt
All-Before_weaken r q (x ∷ set) h k = (ground arith, All-Before_weaken r q set h k.1)

pub insert-IsOrdered :
    (r : PhysicalReadRequest) (set : List PhysicalReadRequest)
    → 0 < r.length
    → Fits r
    → IsOrdered set
    → IsOrdered (insert r set)
unfolding insert cmp
insert-IsOrdered r [] pos fits h = (pos, fits, tt, tt)
insert-IsOrdered r (q ∷ set) pos fits h =
    let (pos', fits', before, ordered) = h in
    ground (
      arith,
      insert-IsOrdered r set pos fits ordered,
      All-insert (λ x. Before q x) r set,
      All-Before_weaken r q set,
    )

merged_from-IsAligned :
    (requests : List PhysicalReadRequest) (last : PhysicalReadRequest)
    → IsAligned last
    → All IsAligned requests
    → All IsAligned (merged_from last requests)
unfolding merged_from
merged_from-IsAligned [] last h k = (h, tt)
merged_from-IsAligned (req ∷ requests) last h k = ground (
  arith,
  merged_from-IsAligned requests (grown last req),
  merged_from-IsAligned requests req k.0 k.1,
)

merge_loop-IsAligned :
    (requests : List PhysicalReadRequest)
    → IsOrdered requests
    → All IsAligned requests
    → All IsAligned (merge_loop requests [])
merge_loop-IsAligned [] ordered h = unfold merge_loop in tt
merge_loop-IsAligned (r ∷ requests) ordered h =
    rw (merge_loop-first r requests ordered) (merged_from-IsAligned requests r h.0 h.1)

align-covers :
    (r : PhysicalReadRequest) (p : ℕ)
    → IsRoundable r
    → covers_byte r p ≡ true
    → covers_byte (align_to_sector_size 512 r) p ≡ true
align-covers r p h k = ground (arith, align_512_lem r h.1)

-- The plan that the loop leaves: ordered, aligned, and reading what it read and `requests`.
align_requests_lem :
    (requests : List PhysicalReadRequest) (plan : PhysicalReadPlan)
    → All IsRoundable requests
    → IsOrdered plan.requests
    → All IsAligned plan.requests
    → (out : PhysicalReadPlan) × (align_requests requests plan ≡ some out)
      × IsOrdered out.requests
      × All IsAligned out.requests
      × ((p : ℕ)
          → (covers requests p || covers plan.requests p) ≡ true
          → covers out.requests p ≡ true)
unfolding align_requests
align_requests_lem [] plan roundable ordered aligned = (plan, refl, ordered, aligned, λ p h. h)
align_requests_lem (r ∷ requests) plan roundable ordered aligned =
    let a = align_to_sector_size 512 r in
    let facts = align_512_lem r roundable.0.1 in
    let pos : 0 < a.length = omega (arith, facts, roundable.0.0) in
    let (out, e, ordered', aligned', keeps) =
      align_requests_lem requests (record plan { requests = insert a plan.requests }) roundable.1
        (insert-IsOrdered a plan.requests pos (omega (arith, facts)) ordered)
        (All-insert IsAligned a plan.requests (omega (arith, facts)) aligned) in
    (
      out,
      rw (push-some a plan pos) e,
      ordered',
      aligned',
      λ p h.
          keeps p (ground (arith, align-covers r p roundable.0, covers-insert a plan.requests p)),
    )

nil_of_length :
    (requests : List PhysicalReadRequest) → (length requests == 0) ≡ true → requests ≡ []
nil_of_length [] h = refl
nil_of_length (r ∷ requests) h = ground arith

-- Aligning a plan whose reads are not empty and end 512 bytes or more below 2 ^ 64 never panics.
-- Each read of the new plan starts and ends at a multiple of 512, and the plan reads every byte that
-- the old one reads.
pub align_plan_lem :
    (plan : PhysicalReadPlan)
    → All IsRoundable plan.requests
    → (out : PhysicalReadPlan) × (align_512 plan ≡ some out)
      × All IsAligned out.requests
      × ((p : ℕ) → covers plan.requests p ≡ true → covers out.requests p ≡ true)
align_plan_lem plan roundable =
    let (aligned, e, ordered, all_aligned, keeps) =
      align_requests_lem plan.requests (record plan { requests = [] }) roundable tt tt in
    let (same, _, _, _) = merge_contiguous_lem aligned ordered in
    elim (Bool-cases (length plan.requests == 0)) [
      | inl nothing ↦
          let none_left : plan.requests ≡ [] = nil_of_length plan.requests nothing in
          (plan, unfold align_512 in rw nothing, subst (All IsAligned) (sym none_left) tt, λ p h. h)
      | inr something ↦ (
        merge_contiguous_reads aligned,
        unfold align_512 in rw (something, e),
        unfold merge_contiguous_reads in merge_loop-IsAligned aligned.requests ordered all_aligned,
        λ p h. same p ∙ keeps p (ground arith),
      )
    ]
