-- ===== src/Query/Rows.antt =====
-- src/query/query_index_match.rs: the sets of row numbers that index lookups give, and the
-- loops that intersect and unite them.
pub mod Loops
pub mod Sets
use teamy_mft.Common.{
  ℕ, zero, suc, ◌+◌, min, max, Bool, Option, none, some, List, [], ◌∷◌, ◌++◌, leb, if◌then◌else◌,
  ◌==◌, length, get_elem?, set, take,
}
use Prim.Native.Nat.{compare, Ordering}

pub data MatchingRowIndices : Type 0 where
  match_all : ℕ → MatchingRowIndices
  row_indices : List ℕ → MatchingRowIndices

pub is_empty : MatchingRowIndices → Bool
is_empty (match_all row_count) = row_count == 0
is_empty (row_indices ids) = length ids == 0

-- The arguments are the parts of the two slices from `left_index` and `right_index` on.
pub intersect_sorted_ids : List ℕ → List ℕ → List ℕ
intersect_sorted_ids [] right = []
intersect_sorted_ids (x ∷ left) [] = []
intersect_sorted_ids (x ∷ left) (y ∷ right) = elim (compare x y) [
  | Ordering.lt ↦ intersect_sorted_ids left (y ∷ right)
  | Ordering.gt ↦ intersect_sorted_ids (x ∷ left) right
  | Ordering.eq ↦ x ∷ intersect_sorted_ids left right
]

-- The loop writes into the vector that it reads. `right` is the slice from `right_index` on, and
-- each round takes an element of one of the two.
pub in_place_loop : ℕ → List ℕ → ℕ → ℕ → List ℕ → List ℕ × ℕ
in_place_loop zero left left_index write_index right = (left, write_index)
in_place_loop (suc fuel) left left_index write_index [] = (left, write_index)
in_place_loop (suc fuel) left left_index write_index (y ∷ right) =
    elim (get_elem? left left_index) [
      | none ↦ (left, write_index)
      | some x ↦ elim (compare x y) [
        | Ordering.lt ↦ in_place_loop fuel left (left_index + 1) write_index (y ∷ right)
        | Ordering.gt ↦ in_place_loop fuel left left_index write_index right
        | Ordering.eq ↦
            in_place_loop fuel (set left write_index x) (left_index + 1) (write_index + 1) right
      ]
    ]

pub intersect_sorted_ids_in_place : List ℕ → List ℕ → List ℕ
unfolding in_place_loop
intersect_sorted_ids_in_place left right =
    let (left', write_index) = in_place_loop (length left + length right) left 0 0 right in
    take write_index left'

pub union_sorted_ids : List ℕ → List ℕ → List ℕ
union_sorted_ids [] right = right
union_sorted_ids (x ∷ left) [] = x ∷ left
union_sorted_ids (x ∷ left) (y ∷ right) = elim (compare x y) [
  | Ordering.lt ↦ x ∷ union_sorted_ids left (y ∷ right)
  | Ordering.gt ↦ y ∷ union_sorted_ids (x ∷ left) right
  | Ordering.eq ↦ x ∷ union_sorted_ids left right
]

-- The shorter vector is the one that is written into.
pub intersect : MatchingRowIndices → MatchingRowIndices → MatchingRowIndices
intersect (match_all left) (match_all right) = match_all (min left right)
intersect (match_all row_count) (row_indices ids) = row_indices ids
intersect (row_indices ids) (match_all row_count) = row_indices ids
intersect (row_indices left) (row_indices right) =
    if leb (length left) (length right)
    then row_indices (intersect_sorted_ids_in_place left right)
    else row_indices (intersect_sorted_ids_in_place right left)

pub union : MatchingRowIndices → MatchingRowIndices → MatchingRowIndices
union (match_all left) (match_all right) = match_all (max left right)
union (match_all row_count) (row_indices ids) = match_all row_count
union (row_indices ids) (match_all row_count) = match_all row_count
union (row_indices left) (row_indices right) = row_indices (union_sorted_ids left right)
