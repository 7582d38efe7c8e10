-- ===== src/Mft/RunList/Layout.antt =====
-- `into_logical_read_plan`: the runs of a file laid out one behind the other.
use teamy_mft.Common.{
  ℕ, ◌+◌, ◌*◌, ◌%◌, ◌^◌, ◌≤◌, ◌<◌, ◌≡◌, refl, sym, ap, ◌∙◌, false, Option, none, some, List, [],
  ◌∷◌, ◌++◌, ◌==◌, if◌then◌else◌, arith, All, All-append, Bool-cases, inl, inr,
}
use mathlib.Core.List.{append_assoc, append-nil}
use native.Mathlib.Nat.{mul-pos}
use teamy_mft.Mft.RunList.{RunListEntry}
use teamy_mft.Read.Request.{usize_add}
use teamy_mft.Read.Logical.{
  LogicalFileSegment, LogicalFileSegmentKind, LogicalReadPlan, physical, sparse, insert, cmp,
  total_from, total_logical_size,
}

-- `usize * Information`, which wraps around.
abbrev pub usize_mul : ℕ → ℕ → ℕ
usize_mul a b = a * b % 2 ^ 64

unfoldable pub kind_of : ℕ → Option ℕ → LogicalFileSegmentKind
kind_of cluster_size none = sparse
kind_of cluster_size (some lcn) = physical (usize_mul lcn cluster_size)

-- The loop over the runs, at `logical_offset`, with the segments so far.
unfoldable pub lay_runs :
    ℕ → List RunListEntry → ℕ → List LogicalFileSegment → List LogicalFileSegment
unfolding kind_of insert
lay_runs cluster_size [] logical_offset segments = segments
lay_runs cluster_size (run ∷ runs) logical_offset segments =
    let size = usize_mul run.length_clusters cluster_size in
    let segment : LogicalFileSegment = record {
      logical_offset = logical_offset;
      length = size;
      kind = kind_of cluster_size run.local_cluster_network_start_entry_index;
    } in
    let later =
      lay_runs cluster_size runs (usize_add logical_offset size) (insert segment segments) in
    let without = lay_runs cluster_size runs logical_offset segments in
    if run.length_clusters == 0 then without else later

unfoldable pub into_logical_read_plan : List RunListEntry → ℕ → LogicalReadPlan
unfolding lay_runs
into_logical_read_plan runs cluster_size =
    if cluster_size == 0
    then record { segments = [] }
    else record { segments = lay_runs cluster_size runs 0 [] }

-- The clusters of the runs.
abbrev pub clusters : List RunListEntry → ℕ
clusters [] = 0
clusters (run ∷ runs) = run.length_clusters + clusters runs

-- The segments that are not empty, each where the one before it ends.
abbrev pub laid_out : ℕ → List RunListEntry → ℕ → List LogicalFileSegment
laid_out cluster_size [] logical_offset = []
laid_out cluster_size (run ∷ runs) logical_offset =
    let later = laid_out cluster_size runs (logical_offset + run.length_clusters * cluster_size) in
    let without = laid_out cluster_size runs logical_offset in
    if run.length_clusters == 0
    then without
    else record {
      logical_offset = logical_offset;
      length = run.length_clusters * cluster_size;
      kind = kind_of cluster_size run.local_cluster_network_start_entry_index;
    }
      ∷ later

insert-last :
    (segment : LogicalFileSegment) (segments : List LogicalFileSegment)
    → All (λ t. t.logical_offset < segment.logical_offset) segments
    → insert segment segments ≡ segments ++ segment ∷ []
unfolding insert cmp
insert-last segment [] h = refl
insert-last segment (t ∷ segments) h = ground (arith, insert-last segment segments h.1)

All-offset_weaken :
    (segments : List LogicalFileSegment) (a b : ℕ)
    → a ≤ b
    → All (λ t. t.logical_offset < a) segments
    → All (λ t. t.logical_offset < b) segments
All-offset_weaken [] a b h k = tt
All-offset_weaken (t ∷ segments) a b h k = (omega arith, All-offset_weaken segments a b h k.1)

lay_runs-laid_out :
    (cluster_size : ℕ) (runs : List RunListEntry) (logical_offset : ℕ)
    (segments : List LogicalFileSegment)
    → 0 < cluster_size
    → logical_offset + clusters runs * cluster_size < 2 ^ 64
    → All (λ t. t.logical_offset < logical_offset) segments
    → lay_runs cluster_size runs logical_offset segments
      ≡ segments ++ laid_out cluster_size runs logical_offset
unfolding lay_runs
lay_runs-laid_out cluster_size [] logical_offset segments pos fits below = sym (append-nil _)
lay_runs-laid_out cluster_size (run ∷ runs) logical_offset segments pos fits below =
    let size = run.length_clusters * cluster_size in
    let sum : (run.length_clusters + clusters runs) * cluster_size
        ≡ size + clusters runs * cluster_size =
      omega arith in
    elim (Bool-cases (run.length_clusters == 0)) [
      | inl empty ↦ rw empty (
          lay_runs-laid_out cluster_size runs logical_offset segments pos (omega (arith, fits, sum))
            below)
      | inr full ↦
          let some_bytes : 0 < size =
            mul-pos {m = run.length_clusters} {n = cluster_size} (ground arith) pos in
          let product : usize_mul run.length_clusters cluster_size ≡ size =
            omega (arith, fits, sum) in
          let next : usize_add logical_offset size ≡ logical_offset + size =
            omega (arith, fits, sum) in
          let segment : LogicalFileSegment = record {
            logical_offset = logical_offset;
            length = size;
            kind = kind_of cluster_size run.local_cluster_network_start_entry_index;
          } in
          let all_below : All (λ t. t.logical_offset < logical_offset + size)
              (segments ++ segment ∷ []) =
            All-append _ segments (segment ∷ [])
              (All-offset_weaken segments logical_offset (logical_offset + size) (omega arith)
                below)
              (omega (arith, some_bytes), tt) in
          rw (full, product, next, insert-last segment segments below)
            (lay_runs-laid_out cluster_size runs (logical_offset + size) (segments ++ segment ∷ [])
                pos (omega (arith, fits, sum)) all_below
              ∙ append_assoc segments (segment ∷ []) _)
    ]

total_from-laid_out :
    (cluster_size : ℕ) (runs : List RunListEntry) (logical_offset : ℕ)
    → logical_offset + clusters runs * cluster_size < 2 ^ 64
    → total_from logical_offset (laid_out cluster_size runs logical_offset)
      ≡ logical_offset + clusters runs * cluster_size
unfolding total_from
total_from-laid_out cluster_size [] logical_offset fits = omega arith
total_from-laid_out cluster_size (run ∷ runs) logical_offset fits =
    let size = run.length_clusters * cluster_size in
    let sum : (run.length_clusters + clusters runs) * cluster_size
        ≡ size + clusters runs * cluster_size =
      omega arith in
    elim (Bool-cases (run.length_clusters == 0)) [
      | inl empty ↦
          let nothing : run.length_clusters ≡ 0 = ground (arith, empty) in
          let no_bytes : size ≡ 0 = ap (λ t. t * cluster_size) nothing ∙ omega arith in
          rw empty (
            total_from-laid_out cluster_size runs logical_offset (omega (arith, fits, sum))
            ∙ omega (arith, sum, no_bytes))
      | inr full ↦
          let next : usize_add logical_offset size ≡ logical_offset + size =
            omega (arith, fits, sum) in
          let later = laid_out cluster_size runs (logical_offset + size) in
          rw full (
            ap (λ t. total_from t later) next
            ∙ total_from-laid_out cluster_size runs (logical_offset + size)
                (omega (arith, fits, sum))
            ∙ omega (arith, sum))
    ]

-- The plan of a file that fits the address space has its runs in order, each that is not empty as
-- one segment that starts where the one before it ends, at its cluster's offset on the device
-- (which wraps around) or sparse, and the file's size is that of all its clusters.
pub into_logical_read_plan_lem :
    (runs : List RunListEntry) (cluster_size : ℕ)
    → 0 < cluster_size
    → clusters runs * cluster_size < 2 ^ 64
    → ((into_logical_read_plan runs cluster_size).segments ≡ laid_out cluster_size runs 0)
      × (total_logical_size (into_logical_read_plan runs cluster_size)
          ≡ clusters runs * cluster_size)
unfolding into_logical_read_plan total_logical_size
into_logical_read_plan_lem runs cluster_size pos fits =
    let some_size : (cluster_size == 0) ≡ false = ground (arith, pos) in
    let from_zero : 0 + clusters runs * cluster_size < 2 ^ 64 = omega (arith, fits) in
    let laid : lay_runs cluster_size runs 0 [] ≡ laid_out cluster_size runs 0 =
      lay_runs-laid_out cluster_size runs 0 [] pos from_zero tt in
    rw (some_size, laid) (refl, total_from-laid_out cluster_size runs 0 from_zero ∙ omega arith)
