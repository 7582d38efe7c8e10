-- ===== src/Mft/RunList/Encode.antt =====
-- The on-disk form of runs, as the NTFS layout describes it, and what its bytes read as.
use teamy_mft.Common.{
  ℕ, zero, suc, ◌+◌, ◌-◌, ◌*◌, ◌/◌, ◌%◌, ◌^◌, ◌≤◌, ◌<◌, ◌≡◌, refl, ap, none, some, List, [], ◌∷◌,
  ◌++◌, length, get_or, arith, All, All-append, ◌⊎◌,
}
use native.Mathlib.Nat.{pow-suc}
use teamy_mft.Common.Bytes.{Bytes, IsByte}
use teamy_mft.Mft.RunList.{RunListEntry}
use teamy_mft.Mft.RunList.Words.{le_value}

-- A run: the number of bytes of its length, its length, and for a run that is not sparse the
-- number of bytes of its offset and the cluster where it starts.
pub data DataRun : Type 0 where
  sparse : ℕ → ℕ → DataRun
  placed : ℕ → ℕ → ℕ → ℕ → DataRun

-- A number in `n` bytes, the lowest one first.
unfoldable pub le_bytes : ℕ → ℕ → Bytes
le_bytes zero x = []
le_bytes (suc n) x = x % 256 ∷ le_bytes n (x / 256)

-- The offset from the cluster of the run before, in two's complement.
abbrev pub offset_from : ℕ → ℕ → ℕ
offset_from last_lcn lcn = (lcn + 2 ^ 64 - last_lcn) % 2 ^ 64

unfoldable pub encode_run : ℕ → DataRun → Bytes
unfolding le_bytes
encode_run last_lcn (sparse length_size run_length) = length_size ∷ le_bytes length_size run_length
encode_run last_lcn (placed length_size run_length offset_size lcn) =
    (offset_size * 16 + length_size)
    ∷ (le_bytes length_size run_length
        ++ le_bytes offset_size (offset_from last_lcn lcn % 256 ^ offset_size))

abbrev pub lcn_after : ℕ → DataRun → ℕ
lcn_after last_lcn (sparse length_size run_length) = last_lcn
lcn_after last_lcn (placed length_size run_length offset_size lcn) = lcn

-- A whole list, with the zero that ends it.
unfoldable pub encode : ℕ → List DataRun → Bytes
unfolding encode_run
encode last_lcn [] = 0 ∷ []
encode last_lcn (run ∷ runs) = encode_run last_lcn run ++ encode (lcn_after last_lcn run) runs

abbrev pub entry_of : DataRun → RunListEntry
entry_of (sparse length_size run_length) = record {
  length_clusters = run_length;
  local_cluster_network_start_entry_index = none;
}
entry_of (placed length_size run_length offset_size lcn) = record {
  length_clusters = run_length;
  local_cluster_network_start_entry_index = some lcn;
}

-- `x` fits `n` bytes, from 1 to 8 of them.
abbrev pub FitsBytes : ℕ → ℕ → Type 0
FitsBytes n x = (0 < n) × (n ≤ 8) × (x < 256 ^ n)

-- The offset fits `n` bytes with its sign, from 1 to 7 of them.
abbrev pub FitsSigned : ℕ → ℕ → Type 0
FitsSigned n delta = (0 < n) × (n ≤ 7) × ((2 * delta < 256 ^ n) ⊎ (2 ^ 65 ≤ 2 * delta + 256 ^ n))

abbrev pub IsRun : ℕ → DataRun → Type 0
IsRun last_lcn (sparse length_size run_length) = FitsBytes length_size run_length
IsRun last_lcn (placed length_size run_length offset_size lcn) =
    FitsBytes length_size run_length
    × FitsSigned offset_size (offset_from last_lcn lcn)
    × (last_lcn < 2 ^ 64)
    × (lcn < 2 ^ 64)

abbrev pub AreRuns : ℕ → List DataRun → Type 0
AreRuns last_lcn [] = Unit
AreRuns last_lcn (run ∷ runs) = IsRun last_lcn run × AreRuns (lcn_after last_lcn run) runs

pub length-le_bytes : (n x : ℕ) → length (le_bytes n x) ≡ n
unfolding le_bytes
length-le_bytes zero x = refl
length-le_bytes (suc n) x = ap suc (length-le_bytes n (x / 256))

pub le_bytes-IsByte : (n x : ℕ) → All IsByte (le_bytes n x)
unfolding le_bytes
le_bytes-IsByte zero x = tt
le_bytes-IsByte (suc n) x = (omega arith, le_bytes-IsByte n (x / 256))

encode_run-IsByte :
    (last_lcn : ℕ) (run : DataRun) → IsRun last_lcn run → All IsByte (encode_run last_lcn run)
unfolding encode_run
encode_run-IsByte last_lcn (sparse length_size run_length) h =
    (omega (arith, h.1), le_bytes-IsByte length_size run_length)
encode_run-IsByte last_lcn (placed length_size run_length offset_size lcn) h = (
  omega (arith, h.0.1, h.1.1),
  All-append IsByte (le_bytes length_size run_length) _ (le_bytes-IsByte length_size run_length)
      (le_bytes-IsByte offset_size (offset_from last_lcn lcn % 256 ^ offset_size)),
)

pub encode-IsByte :
    (last_lcn : ℕ) (runs : List DataRun) → AreRuns last_lcn runs → All IsByte (encode last_lcn runs)
unfolding encode
encode-IsByte last_lcn [] h = (omega arith, tt)
encode-IsByte last_lcn (run ∷ runs) h =
    All-append IsByte (encode_run last_lcn run) _ (encode_run-IsByte last_lcn run h.0)
      (encode-IsByte (lcn_after last_lcn run) runs h.1)

-- Reading behind a front is reading what comes after it.
pub get_or-append :
    (front ys : Bytes) (k : ℕ) → get_or (front ++ ys) (length front + k) 0 ≡ get_or ys k 0
get_or-append [] ys k = ap (λ t. get_or ys t 0) (omega arith)
get_or-append (b ∷ front) ys k =
    let e : suc (length front) + k ≡ suc (length front + k) = omega arith in
    rw e (get_or-append front ys k)

pub le_value-append :
    (n : ℕ) (front ys : Bytes) (k : ℕ)
    → le_value n (front ++ ys) (length front + k) ≡ le_value n ys k
unfolding le_value
le_value-append zero front ys k = refl
le_value-append (suc n) front ys k =
    let e : length front + k + 1 ≡ length front + (k + 1) = omega arith in
    rw e (omega (arith, get_or-append front ys k, le_value-append n front ys (k + 1)))

-- The bytes of a number read as the number again.
pub le_value-le_bytes :
    (n x : ℕ) (rest : Bytes) → x < 256 ^ n → le_value n (le_bytes n x ++ rest) 0 ≡ x
unfolding le_value le_bytes
le_value-le_bytes zero x rest h = omega arith
le_value-le_bytes (suc n) x rest h =
    let next : le_value n (x % 256 ∷ (le_bytes n (x / 256) ++ rest)) 1
        ≡ le_value n (le_bytes n (x / 256) ++ rest) 0 =
      le_value-append n (x % 256 ∷ []) (le_bytes n (x / 256) ++ rest) 0 in
    let small : x / 256 < 256 ^ n = omega (arith, pow-suc 256 n) in
    omega (arith, next, le_value-le_bytes n (x / 256) rest small)
