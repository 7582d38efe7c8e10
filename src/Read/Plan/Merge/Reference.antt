-- ===== src/Read/Plan/Merge/Reference.antt =====
-- Merging as a plain recursion over the requests in order, and what it gives.
use teamy_mft.Common.{
  ℕ, ◌+◌, ◌<◌, ◌≡◌, ◌≢◌, refl, ◌⊎◌, List, [], ◌∷◌, ◌==◌, if◌then◌else◌, All, arith, ltb, Bool-cases,
  inl, inr,
}
use teamy_mft.Read.Request.{PhysicalReadRequest, Fits, usize_add}
use teamy_mft.Read.Plan.{total_size_from}
use teamy_mft.Read.Plan.Coverage.{covers}

-- `cmp r q` answers `Less`.
abbrev pub Before : PhysicalReadRequest → PhysicalReadRequest → Type 0
Before r q = (r.offset < q.offset) ⊎ ((r.offset ≡ q.offset) × (r.length < q.length))

-- A set in order, of requests that read something and fit the address space.
abbrev pub IsOrdered : List PhysicalReadRequest → Type 0
IsOrdered [] = Unit
IsOrdered (r ∷ requests) =
    (0 < r.length) × Fits r × All (λ q. Before r q) requests × IsOrdered requests

-- No request begins where the one before it ends.
abbrev pub IsSeparate : List PhysicalReadRequest → Type 0
IsSeparate [] = Unit
IsSeparate (r ∷ []) = Unit
IsSeparate (r ∷ q ∷ requests) = (r.offset + r.length ≢ q.offset) × IsSeparate (q ∷ requests)

-- No request begins where the one before it ends, and none later does either, unless the one
-- between overlaps the first.
abbrev pub IsMerged : List PhysicalReadRequest → Type 0
IsMerged [] = Unit
IsMerged (r ∷ []) = Unit
IsMerged (r ∷ q ∷ requests) =
    (r.offset + r.length ≢ q.offset)
    × ((q.offset < r.offset + r.length)
        ⊎ All (λ later. r.offset + r.length ≢ later.offset) requests)
    × IsMerged (q ∷ requests)

All-apart :
    (end : ℕ) (q : PhysicalReadRequest) (requests : List PhysicalReadRequest)
    → end < q.offset
    → All (λ later. Before q later) requests
    → All (λ later. end ≢ later.offset) requests
All-apart end q [] far h = tt
All-apart end q (later ∷ requests) far h = (ground (arith, h.0), All-apart end q requests far h.1)

pub IsSeparate-IsMerged :
    (requests : List PhysicalReadRequest)
    → IsOrdered requests
    → IsSeparate requests
    → IsMerged requests
IsSeparate-IsMerged [] ordered apart = tt
IsSeparate-IsMerged (r ∷ []) ordered apart = tt
IsSeparate-IsMerged (r ∷ q ∷ requests) ordered apart =
    let (pos, fits, before, rest) = ordered in
    (
      apart.0,
      elim (Bool-cases (ltb q.offset (r.offset + r.length))) [
        | inl overlaps ↦ inl (ground (arith, overlaps))
        | inr far ↦
            inr (All-apart (r.offset + r.length) q requests (ground (arith, far, apart.0)) rest.2)
      ],
      IsSeparate-IsMerged (q ∷ requests) rest apart.1,
    )

-- The requests in order, the first one growing while the next one follows it without a gap.
abbrev pub grown : PhysicalReadRequest → PhysicalReadRequest → PhysicalReadRequest
grown last req = record last { length = last.length + req.length }

unfoldable pub merged_from :
    PhysicalReadRequest → List PhysicalReadRequest → List PhysicalReadRequest
merged_from last [] = last ∷ []
merged_from last (req ∷ requests) =
    let joined = merged_from (grown last req) requests in
    let apart = last ∷ merged_from req requests in
    if last.offset + last.length == req.offset then joined else apart

pub All-grown-Before :
    (last req : PhysicalReadRequest) (requests : List PhysicalReadRequest)
    → 0 < last.length
    → last.offset + last.length ≡ req.offset
    → All (λ q. Before req q) requests
    → All (λ q. Before (grown last req) q) requests
All-grown-Before last req [] pos e h = tt
All-grown-Before last req (q ∷ requests) pos e h =
    (ground arith, All-grown-Before last req requests pos e h.1)

-- What the plain recursion gives: the same bytes, in order, with no two neighbours to merge.
pub covers-merged_from :
    (requests : List PhysicalReadRequest) (last : PhysicalReadRequest) (p : ℕ)
    → covers (merged_from last requests) p ≡ covers (last ∷ requests) p
unfolding merged_from
covers-merged_from [] last p = refl
covers-merged_from (req ∷ requests) last p =
    ground
      (arith, covers-merged_from requests (grown last req) p, covers-merged_from requests req p)

All-Before-merged_from :
    (requests : List PhysicalReadRequest) (x last : PhysicalReadRequest)
    → Before x last
    → All (λ q. Before x q) requests
    → All (λ q. Before x q) (merged_from last requests)
unfolding merged_from
All-Before-merged_from [] x last h k = (h, tt)
All-Before-merged_from (req ∷ requests) x last h k = ground (
  arith,
  All-Before-merged_from requests x (grown last req),
  All-Before-merged_from requests x req k.0 k.1,
)

pub merged_from-IsOrdered :
    (requests : List PhysicalReadRequest) (last : PhysicalReadRequest)
    → IsOrdered (last ∷ requests)
    → IsOrdered (merged_from last requests)
unfolding merged_from
merged_from-IsOrdered [] last h = h
merged_from-IsOrdered (req ∷ requests) last h =
    let (pos, fits, before, (pos', fits', before', rest)) = h in
    ground (
      arith,
      λ (e : last.offset + last.length ≡ req.offset).
          merged_from-IsOrdered requests (grown last req)
            (omega arith, omega arith, All-grown-Before last req requests pos e before', rest),
      merged_from-IsOrdered requests req (pos', fits', before', rest),
      All-Before-merged_from requests last req before.0 before.1,
    )

-- The first request of the merged ones begins where `last` begins.
merged_from-IsSeparate_after :
    (requests : List PhysicalReadRequest) (x last : PhysicalReadRequest)
    → x.offset + x.length ≢ last.offset
    → IsSeparate (x ∷ merged_from last requests)
unfolding merged_from
merged_from-IsSeparate_after [] x last h = (h, tt)
merged_from-IsSeparate_after (req ∷ requests) x last h = ground (
  arith,
  merged_from-IsSeparate_after requests x (grown last req) h,
  merged_from-IsSeparate_after requests last req,
)

pub merged_from-IsSeparate :
    (requests : List PhysicalReadRequest) (last : PhysicalReadRequest)
    → IsSeparate (merged_from last requests)
unfolding merged_from
merged_from-IsSeparate [] last = tt
merged_from-IsSeparate (req ∷ requests) last = ground (
  arith,
  merged_from-IsSeparate requests (grown last req),
  merged_from-IsSeparate_after requests last req,
)

pub total-merged_from :
    (requests : List PhysicalReadRequest) (last : PhysicalReadRequest) (acc : ℕ)
    → total_size_from acc (merged_from last requests) ≡ total_size_from acc (last ∷ requests)
unfolding merged_from total_size_from
total-merged_from [] last acc = refl
total-merged_from (req ∷ requests) last acc =
    let sum : usize_add acc (last.length + req.length)
        ≡ usize_add (usize_add acc last.length) req.length =
      omega arith in
    ground (
      arith,
      sum,
      total-merged_from requests (grown last req) acc,
      total-merged_from requests req (usize_add acc last.length),
    )
