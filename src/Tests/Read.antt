-- ===== src/Tests/Read.antt =====
-- src/read: a plan of two neighbouring reads, merged, cut and aligned.
use teamy_mft.Common.{ℕ, ◌≡◌, ◌≤◌, ◌<◌, ◌+◌, ◌%◌, true, some, [], ◌∷◌, All, arith, inl}
use teamy_mft.Read.Request.{PhysicalReadRequest, align_to_sector_size, align_512_lem}
use teamy_mft.Read.Plan.{
  PhysicalReadPlan, panic, merge_contiguous_reads, chunked, align_512, total_size,
}
use teamy_mft.Read.Plan.Coverage.{covers}
use teamy_mft.Read.Plan.Merge.{merge_contiguous_lem}
use teamy_mft.Read.Plan.Merge.Reference.{IsOrdered, IsMerged}
use teamy_mft.Read.Plan.Chunks.{chunked_lem, IsChunk}
use teamy_mft.Read.Plan.Align.{align_plan_lem, IsAligned}

abbrev request : PhysicalReadRequest
request = record { offset = 1000; length = 100 }

abbrev neighbour : PhysicalReadRequest
neighbour = record { offset = 1100; length = 900 }

abbrev plan : PhysicalReadPlan
plan = record { requests = request ∷ neighbour ∷ []; zero_length_behavior = panic }

align_512_lem_example :
    let a = align_to_sector_size 512 request in
    (a.offset % 512 ≡ 0)
    × ((a.offset + a.length) % 512 ≡ 0)
    × (a.offset ≤ 1000)
    × (1000 < a.offset + 512)
    × (1100 ≤ a.offset + a.length)
    × (a.offset + a.length < 1612)
align_512_lem_example = align_512_lem request (omega arith)

plan-IsOrdered : IsOrdered plan.requests
plan-IsOrdered =
    (omega arith, omega arith, (inl (omega arith), tt), (omega arith, omega arith, tt, tt))

merge_contiguous_lem_example :
    ((p : ℕ) → covers (merge_contiguous_reads plan).requests p ≡ covers plan.requests p)
    × (total_size (merge_contiguous_reads plan) ≡ total_size plan)
    × IsOrdered (merge_contiguous_reads plan).requests
    × IsMerged (merge_contiguous_reads plan).requests
merge_contiguous_lem_example = merge_contiguous_lem plan plan-IsOrdered

chunked_lem_example :
    (out : PhysicalReadPlan) × (chunked 512 plan ≡ some out)
    × All (IsChunk 512) out.requests
    × ((p : ℕ) → covers out.requests p ≡ covers plan.requests p)
chunked_lem_example = chunked_lem 512 plan (omega arith) (omega arith, (omega arith, tt))

align_plan_lem_example :
    (out : PhysicalReadPlan) × (align_512 plan ≡ some out)
    × All IsAligned out.requests
    × ((p : ℕ) → covers plan.requests p ≡ true → covers out.requests p ≡ true)
align_plan_lem_example =
    align_plan_lem plan ((omega arith, omega arith), ((omega arith, omega arith), tt))
