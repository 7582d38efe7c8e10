-- ===== src/Read/Plan/Coverage.antt =====
-- Which bytes a plan reads: inserting, merging and popping keep them.
use teamy_mft.Common.{ℕ, ◌≡◌, refl, Bool, false, ◌||◌, some, List, [], ◌∷◌, ◌++◌, All, arith}
use teamy_mft.Read.Request.{PhysicalReadRequest, covers_byte}
use teamy_mft.Read.Plan.{insert, pop_last}

-- The byte at `p` is read by one of the requests.
abbrev pub covers : List PhysicalReadRequest → ℕ → Bool
covers [] p = false
covers (r ∷ requests) p = covers_byte r p || covers requests p

pub covers-insert :
    (r : PhysicalReadRequest) (set : List PhysicalReadRequest) (p : ℕ)
    → covers (insert r set) p ≡ (covers_byte r p || covers set p)
unfolding insert
covers-insert r [] p = refl
covers-insert r (q ∷ set) p = ground (arith, covers-insert r set p)

pub covers-append :
    (xs ys : List PhysicalReadRequest) (p : ℕ) → covers (xs ++ ys) p ≡ (covers xs p || covers ys p)
covers-append [] ys p = refl
covers-append (x ∷ xs) ys p = ground (arith, covers-append xs ys p)

pub pop_last-append :
    (rest : List PhysicalReadRequest) (last : PhysicalReadRequest)
    → pop_last (rest ++ last ∷ []) ≡ some (last, rest)
unfolding pop_last
pop_last-append [] last = refl
pop_last-append (r ∷ []) last = refl
pop_last-append (r ∷ q ∷ rest) last = rw (pop_last-append (q ∷ rest) last)

pub All-insert {κ} :
    (P : PhysicalReadRequest → Type κ) (r : PhysicalReadRequest) (set : List PhysicalReadRequest)
    → P r
    → All P set
    → All P (insert r set)
unfolding insert
All-insert P r [] h k = (h, tt)
All-insert P r (q ∷ set) h k = ground (arith, All-insert P r set h k.1)
