-- ===== src/Query/Rows/Sets.antt =====
-- `MatchingRowIndices` as the set of row numbers that it selects.
use teamy_mft.Common.{
  ℕ, zero, suc, ◌<◌, ◌≡◌, refl, Bool, true, false, ◌&&◌, ◌||◌, ◌↔◌, List, [], ◌∷◌, All, ltb, arith,
}
use teamy_mft.Common.Sorted.{contains, IsSorted}
use teamy_mft.Query.Rows.{
  MatchingRowIndices, match_all, row_indices, is_empty, intersect, union,
  intersect_sorted_ids_in_place,
}
use teamy_mft.Query.Rows.Loops.{
  contains-intersect_sorted_ids, contains-union_sorted_ids, All-intersect_sorted_ids,
  All-union_sorted_ids, intersect_sorted_ids-IsSorted, union_sorted_ids-IsSorted,
  intersect_in_place-intersect,
}

-- The row `x` is among the selected ones.
abbrev pub selects : MatchingRowIndices → ℕ → Bool
selects (match_all row_count) x = ltb x row_count
selects (row_indices ids) x = contains ids x

-- Over an index of `n` rows: all of them, or strictly increasing row numbers.
abbrev pub IsValid : ℕ → MatchingRowIndices → Type 0
IsValid n (match_all row_count) = row_count ≡ n
IsValid n (row_indices ids) = IsSorted ids × All (λ x. x < n) ids

pub contains-lt :
    (n : ℕ) (ids : List ℕ) (x : ℕ) → All (λ y. y < n) ids → contains ids x ≡ true → x < n
contains-lt n [] x h e = cc
contains-lt n (y ∷ ids) x h e = ground (arith, contains-lt n ids x h.1)

pub in_place-IsValid :
    (n : ℕ) (left right : List ℕ)
    → IsValid n (row_indices left)
    → IsValid n (row_indices right)
    → IsValid n (row_indices (intersect_sorted_ids_in_place left right))
in_place-IsValid n left right (sl, bl) (sr, br) = rw intersect_in_place-intersect (
  intersect_sorted_ids-IsSorted left right sl sr,
  All-intersect_sorted_ids (λ x. x < n) left right bl,
)

pub contains-in_place :
    (left right : List ℕ) (x : ℕ)
    → IsSorted left
    → IsSorted right
    → contains (intersect_sorted_ids_in_place left right) x ≡ (contains left x && contains right x)
contains-in_place left right x sl sr =
    rw intersect_in_place-intersect (contains-intersect_sorted_ids left right x sl sr)

-- Intersecting two valid selections gives a valid one, of exactly the rows that both select.
pub intersect-selects :
    (n : ℕ) (a b : MatchingRowIndices)
    → IsValid n a
    → IsValid n b
    → IsValid n (intersect a b)
      × ((x : ℕ) → selects (intersect a b) x ≡ (selects a x && selects b x))
unfolding intersect
intersect-selects n (match_all l) (match_all r) ha hb = (omega arith, λ x. ground arith)
intersect-selects n (match_all l) (row_indices ids) ha hb =
    (hb, λ x. ground (arith, contains-lt n ids x hb.1))
intersect-selects n (row_indices ids) (match_all r) ha hb =
    (ha, λ x. ground (arith, contains-lt n ids x ha.1))
intersect-selects n (row_indices left) (row_indices right) ha hb = (
  ground (arith, in_place-IsValid n left right ha hb, in_place-IsValid n right left hb ha),
  λ x.
      ground
        (arith, contains-in_place left right x ha.0 hb.0, contains-in_place right left x hb.0 ha.0),
)

-- Uniting two valid selections gives a valid one, of exactly the rows that one of them selects.
pub union-selects :
    (n : ℕ) (a b : MatchingRowIndices)
    → IsValid n a
    → IsValid n b
    → IsValid n (union a b) × ((x : ℕ) → selects (union a b) x ≡ (selects a x || selects b x))
unfolding union
union-selects n (match_all l) (match_all r) ha hb = (omega arith, λ x. ground arith)
union-selects n (match_all l) (row_indices ids) ha hb =
    (ha, λ x. ground (arith, contains-lt n ids x hb.1))
union-selects n (row_indices ids) (match_all r) ha hb =
    (hb, λ x. ground (arith, contains-lt n ids x ha.1))
union-selects n (row_indices left) (row_indices right) ha hb = (
  (
    union_sorted_ids-IsSorted left right ha.0 hb.0,
    All-union_sorted_ids (λ x. x < n) left right ha.1 hb.1,
  ),
  λ x. contains-union_sorted_ids left right x,
)

-- `is_empty` answers true exactly on the selections that select no row.
pub is_empty_iff : (m : MatchingRowIndices) → (is_empty m ≡ true) ↔ ((x : ℕ) → selects m x ≡ false)
unfolding is_empty
is_empty_iff (match_all zero) = (λ e x. ground arith, λ h. refl)
is_empty_iff (match_all (suc n)) = (λ e x. ground arith, λ h. ground (arith, h 0))
is_empty_iff (row_indices []) = (λ e x. refl, λ h. refl)
is_empty_iff (row_indices (y ∷ ids)) = (λ e x. ground arith, λ h. ground (arith, h y))
