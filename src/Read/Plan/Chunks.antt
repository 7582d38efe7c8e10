-- ===== src/Read/Plan/Chunks.antt =====
-- `chunked`: requests cut into pieces of at most a given size.
use teamy_mft.Common.{
  ℕ, zero, suc, ◌+◌, ◌-◌, ◌≤◌, ◌<◌, ◌^◌, ◌≡◌, refl, ◌∙◌, Bool, true, false, ◌&&◌, ◌||◌, Option,
  some, List, [], ◌∷◌, ◌==◌, ltb, leb, if◌then◌else◌, All, arith, Bool-cases, ltb→lt, inl, inr,
}
use teamy_mft.Read.Request.{PhysicalReadRequest, Fits, usize_add, usize_sub}
use teamy_mft.Read.Plan.{
  PhysicalReadPlan, new, push, insert, chunk_request, chunk_requests, chunked,
}
use teamy_mft.Read.Plan.Coverage.{covers, covers-insert, All-insert}

-- A piece that `chunked` makes.
abbrev pub IsChunk : ℕ → PhysicalReadRequest → Type 0
IsChunk chunk_size r = (0 < r.length) × (r.length ≤ chunk_size) × Fits r

pub push-some :
    (r : PhysicalReadRequest) (plan : PhysicalReadPlan)
    → 0 < r.length
    → push r plan ≡ some (record plan { requests = insert r plan.requests })
unfolding push
push-some r plan h = let nonzero : (r.length == 0) ≡ false = ground arith in rw nonzero

-- What the cut pieces add to `out`: the bytes from `offset` on, and pieces only.
abbrev Adds : ℕ → PhysicalReadPlan → Option PhysicalReadPlan → (ℕ → Bool) → Type 0
Adds chunk_size out result extra =
    (out' : PhysicalReadPlan) × (result ≡ some out')
    × All (IsChunk chunk_size) out'.requests
    × ((p : ℕ) → covers out'.requests p ≡ (extra p || covers out.requests p))

abbrev pub segment : ℕ → ℕ → ℕ
segment chunk_size remaining = if ltb chunk_size remaining then chunk_size else remaining

segment_bounds :
    (chunk_size remaining : ℕ)
    → 0 < chunk_size
    → 0 < remaining
    → (0 < segment chunk_size remaining)
      × (segment chunk_size remaining ≤ chunk_size)
      × (segment chunk_size remaining ≤ remaining)
segment_bounds chunk_size remaining h k = ground arith

-- One round that pushes a piece.
chunk_round :
    (fuel chunk_size offset remaining s : ℕ) (out : PhysicalReadPlan)
    → 0 < remaining
    → segment chunk_size remaining ≡ s
    → 0 < s
    → s ≤ remaining
    → offset + remaining < 2 ^ 64
    → chunk_request (suc fuel) chunk_size offset remaining out
      ≡ chunk_request fuel chunk_size
          (offset + s)
          (remaining - s)
          (record out { requests = insert (record { offset = offset; length = s }) out.requests })
unfolding chunk_request
chunk_round fuel chunk_size offset remaining s out more cut pos within fits =
    let some_left : ltb 0 remaining ≡ true = ground arith in
    let sum : usize_add offset s ≡ offset + s = omega arith in
    let rest : usize_sub remaining s ≡ remaining - s = omega arith in
    rw (some_left, cut, push-some (record { offset = offset; length = s }) out pos, sum, rest)

-- The bytes of a piece and those behind it.
joined :
    (offset s remaining p : ℕ) (with_piece requests : List PhysicalReadRequest)
    → s ≤ remaining
    → covers with_piece p ≡ (leb offset p && ltb p (offset + s) || covers requests p)
    → (leb (offset + s) p && ltb p (offset + s + (remaining - s)) || covers with_piece p)
      ≡ (leb offset p && ltb p (offset + remaining) || covers requests p)
joined offset s remaining p with_piece requests h e = ground (arith, e)

chunk_request-Adds :
    (fuel chunk_size offset remaining : ℕ) (out : PhysicalReadPlan)
    → remaining < fuel
    → 0 < chunk_size
    → offset + remaining < 2 ^ 64
    → All (IsChunk chunk_size) out.requests
    → Adds chunk_size out
        (chunk_request fuel chunk_size offset remaining out)
        (λ p. leb offset p && ltb p (offset + remaining))
chunk_request-Adds zero chunk_size offset remaining out enough pos fits chunks =
    absurd (omega arith)
chunk_request-Adds (suc fuel) chunk_size offset remaining out enough pos fits chunks =
    elim (Bool-cases (ltb 0 remaining)) [
      | inl more ↦
          let (s_pos, s_chunk, s_within) =
            segment_bounds chunk_size remaining pos (ltb→lt _ _ more) in
          let s = segment chunk_size remaining in
          let piece : PhysicalReadRequest = record { offset = offset; length = s } in
          let (out', e, chunks', same) =
            chunk_request-Adds fuel chunk_size (offset + s) (remaining - s)
              (record out { requests = insert piece out.requests }) (omega arith) pos (omega arith)
              (All-insert (IsChunk chunk_size) piece out.requests (s_pos, s_chunk, omega arith)
                chunks) in
          (
            out',
            chunk_round fuel chunk_size offset remaining s out (ltb→lt _ _ more) refl s_pos s_within
                  fits
                ∙ e,
            chunks',
            λ p.
                same p
                ∙ joined offset s remaining p (insert piece out.requests) out.requests s_within
                    (covers-insert piece out.requests p),
          )
      | inr nothing ↦ (out, unfold chunk_request in rw nothing, chunks, λ p. ground arith)
    ]

chunk_requests-Adds :
    (chunk_size : ℕ) (requests : List PhysicalReadRequest) (out : PhysicalReadPlan)
    → 0 < chunk_size
    → All Fits requests
    → All (IsChunk chunk_size) out.requests
    → Adds chunk_size out (chunk_requests chunk_size requests out) (covers requests)
unfolding chunk_requests
chunk_requests-Adds chunk_size [] out pos fits chunks = (out, refl, chunks, λ p. refl)
chunk_requests-Adds chunk_size (req ∷ requests) out pos fits chunks =
    let (out', e, chunks', same) =
      chunk_request-Adds (suc req.length) chunk_size req.offset req.length out (omega arith) pos
        fits.0 chunks in
    let (out'', e', chunks'', same') =
      chunk_requests-Adds chunk_size requests out' pos fits.1 chunks' in
    (out'', rw e e', chunks'', λ p. ground (arith, same p, same' p))

-- Cutting a plan whose reads fit the address space neither panics nor runs for ever: it gives a
-- plan of pieces that are not empty and at most `chunk_size` long, which read the same bytes.
pub chunked_lem :
    (chunk_size : ℕ) (plan : PhysicalReadPlan)
    → 0 < chunk_size
    → All Fits plan.requests
    → (out : PhysicalReadPlan) × (chunked chunk_size plan ≡ some out)
      × All (IsChunk chunk_size) out.requests
      × ((p : ℕ) → covers out.requests p ≡ covers plan.requests p)
chunked_lem chunk_size plan pos fits =
    let (out, e, chunks, same) =
      chunk_requests-Adds chunk_size plan.requests new pos fits (unfold new in tt) in
    let positive : (chunk_size == 0) ≡ false = ground arith in
    (out, unfold chunked in rw positive e, chunks, λ p. unfold new in ground (arith, same p))
