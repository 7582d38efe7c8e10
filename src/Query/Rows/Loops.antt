-- ===== src/Query/Rows/Loops.antt =====
-- The loops of query_index_match.rs on strictly increasing vectors.
use teamy_mft.Common.{
  ℕ, zero, suc, ◌+◌, ◌≤◌, ◌<◌, ◌≡◌, refl, sym, ◌∙◌, ap, ◌&&◌, ◌||◌, none, some, List, [], ◌∷◌, ◌++◌,
  length, get_elem?, set, take, drop, All, arith, append_assoc, append-nil,
}
use teamy_mft.Common.Sorted.{contains, IsSorted, contains-below, All-lt_weaken}
use native.Mathlib.Numerals.{add-one}
use teamy_mft.Query.Rows.{
  intersect_sorted_ids, in_place_loop, intersect_sorted_ids_in_place, union_sorted_ids,
}

pub contains-intersect_sorted_ids :
    (left right : List ℕ) (x : ℕ)
    → IsSorted left
    → IsSorted right
    → contains (intersect_sorted_ids left right) x ≡ (contains left x && contains right x)
unfolding intersect_sorted_ids
contains-intersect_sorted_ids [] right x hl hr = refl
contains-intersect_sorted_ids (a ∷ left) [] x hl hr = ground arith
contains-intersect_sorted_ids (a ∷ left) (b ∷ right) x hl hr = ground (
  arith,
  contains-intersect_sorted_ids left (b ∷ right) x hl.1 hr,
  contains-intersect_sorted_ids (a ∷ left) right x hl hr.1,
  contains-intersect_sorted_ids left right x hl.1 hr.1,
  contains-below b x right hr.0,
  contains-below a x left hl.0,
)

pub contains-union_sorted_ids :
    (left right : List ℕ) (x : ℕ)
    → contains (union_sorted_ids left right) x ≡ (contains left x || contains right x)
unfolding union_sorted_ids
contains-union_sorted_ids [] right x = refl
contains-union_sorted_ids (a ∷ left) [] x = ground arith
contains-union_sorted_ids (a ∷ left) (b ∷ right) x = ground (
  arith,
  contains-union_sorted_ids left (b ∷ right) x,
  contains-union_sorted_ids (a ∷ left) right x,
  contains-union_sorted_ids left right x,
)

module _ (P : ℕ → Type 0) where
  pub All-intersect_sorted_ids :
      (left right : List ℕ) → All P left → All P (intersect_sorted_ids left right)
  unfolding intersect_sorted_ids
  All-intersect_sorted_ids [] right h = tt
  All-intersect_sorted_ids (a ∷ left) [] h = tt
  All-intersect_sorted_ids (a ∷ left) (b ∷ right) h = ground (
    arith,
    All-intersect_sorted_ids left (b ∷ right) h.1,
    All-intersect_sorted_ids (a ∷ left) right h,
    All-intersect_sorted_ids left right h.1,
  )

  pub All-union_sorted_ids :
      (left right : List ℕ) → All P left → All P right → All P (union_sorted_ids left right)
  unfolding union_sorted_ids
  All-union_sorted_ids [] right h k = k
  All-union_sorted_ids (a ∷ left) [] h k = h
  All-union_sorted_ids (a ∷ left) (b ∷ right) h k = ground (
    arith,
    All-union_sorted_ids left (b ∷ right) h.1 k,
    All-union_sorted_ids (a ∷ left) right h k.1,
    All-union_sorted_ids left right h.1 k.1,
  )

pub intersect_sorted_ids-IsSorted :
    (left right : List ℕ)
    → IsSorted left
    → IsSorted right
    → IsSorted (intersect_sorted_ids left right)
unfolding intersect_sorted_ids
intersect_sorted_ids-IsSorted [] right hl hr = tt
intersect_sorted_ids-IsSorted (a ∷ left) [] hl hr = tt
intersect_sorted_ids-IsSorted (a ∷ left) (b ∷ right) hl hr = ground (
  arith,
  intersect_sorted_ids-IsSorted left (b ∷ right) hl.1 hr,
  intersect_sorted_ids-IsSorted (a ∷ left) right hl hr.1,
  intersect_sorted_ids-IsSorted left right hl.1 hr.1,
  All-intersect_sorted_ids (λ y. a < y) left right hl.0,
)

pub union_sorted_ids-IsSorted :
    (left right : List ℕ) → IsSorted left → IsSorted right → IsSorted (union_sorted_ids left right)
unfolding union_sorted_ids
union_sorted_ids-IsSorted [] right hl hr = hr
union_sorted_ids-IsSorted (a ∷ left) [] hl hr = hl
union_sorted_ids-IsSorted (a ∷ left) (b ∷ right) hl hr = ground (
  arith,
  union_sorted_ids-IsSorted left (b ∷ right) hl.1 hr,
  union_sorted_ids-IsSorted (a ∷ left) right hl hr.1,
  union_sorted_ids-IsSorted left right hl.1 hr.1,
  All-union_sorted_ids (λ y. a < y) left (b ∷ right) hl.0,
  All-union_sorted_ids (λ y. b < y) (a ∷ left) right,
  All-union_sorted_ids (λ y. a < y) left right hl.0,
  All-lt_weaken a b right,
  All-lt_weaken b a left,
)

-- What the vector holds from `i` on, read and stepped over.
drop-some :
    (left : List ℕ) (i x : ℕ) (rest : List ℕ)
    → drop i left ≡ x ∷ rest
    → (get_elem? left i ≡ some x) × (drop (suc i) left ≡ rest) × (i < length left)
drop-some [] zero x rest e = cc
drop-some [] (suc i) x rest e = cc
drop-some (y ∷ left) zero x rest e = (cc, cc, omega arith)
drop-some (y ∷ left) (suc i) x rest e =
    let (g, d, l) = drop-some left i x rest e in (g, d, omega arith)

drop-none : (left : List ℕ) (i : ℕ) → drop i left ≡ [] → get_elem? left i ≡ none
drop-none [] i e = refl
drop-none (y ∷ left) zero e = cc
drop-none (y ∷ left) (suc i) e = drop-none left i e

drop-set : (left : List ℕ) (w i x : ℕ) → w < i → drop i (set left w x) ≡ drop i left
drop-set [] w i x h = refl
drop-set (y ∷ left) w zero x h = elim h [ ]
drop-set (y ∷ left) zero (suc i) x h = refl
drop-set (y ∷ left) (suc w) (suc i) x h = drop-set left w i x (omega arith)

take-set :
    (left : List ℕ) (w x : ℕ)
    → w < length left
    → take (suc w) (set left w x) ≡ take w left ++ x ∷ []
take-set [] w x h = elim h [ ]
take-set (y ∷ left) zero x h = refl
take-set (y ∷ left) (suc w) x h = ap (λ l. y ∷ l) (take-set left w x (omega arith))

-- The vector's part from `left_index` on is still what it was, and the part before
-- `write_index` is what the loop has found.
in_place_loop-intersect :
    (fuel : ℕ) (left : List ℕ) (li w : ℕ) (rest right : List ℕ)
    → drop li left ≡ rest
    → w ≤ li
    → length rest + length right ≤ fuel
    → take (in_place_loop fuel left li w right).1 (in_place_loop fuel left li w right).0
      ≡ take w left ++ intersect_sorted_ids rest right
unfolding in_place_loop intersect_sorted_ids
in_place_loop-intersect zero left li w [] [] e h f = sym (append-nil _)
in_place_loop-intersect zero left li w [] (y ∷ right) e h f = absurd (omega arith)
in_place_loop-intersect zero left li w (x ∷ rest) right e h f = absurd (omega arith)
in_place_loop-intersect (suc fuel) left li w [] [] e h f = sym (append-nil _)
in_place_loop-intersect (suc fuel) left li w (x ∷ rest) [] e h f = sym (append-nil _)
in_place_loop-intersect (suc fuel) left li w [] (y ∷ right) e h f =
    ground (arith, drop-none left li e, append-nil (take w left))
in_place_loop-intersect (suc fuel) left li w (x ∷ rest) (y ∷ right) e h f =
    let (got, next, inside) = drop-some left li x rest e in
    let next' : drop (li + 1) left ≡ rest = rw add-one next in
    ground (
      arith,
      got,
      in_place_loop-intersect fuel left (li + 1) w rest (y ∷ right) next',
      in_place_loop-intersect fuel left li w (x ∷ rest) right e h,
      in_place_loop-intersect fuel (set left w x) (li + 1) (w + 1) rest right
          (drop-set left w (li + 1) x (omega arith) ∙ next'),
      add-one w,
      take-set left w x (omega arith),
      append_assoc (take w left) (x ∷ []) (intersect_sorted_ids rest right),
    )

-- The in-place loop leaves in the vector what the loop with a vector of its own returns.
pub intersect_in_place-intersect :
    (left right : List ℕ)
    → intersect_sorted_ids_in_place left right ≡ intersect_sorted_ids left right
unfolding intersect_sorted_ids_in_place
intersect_in_place-intersect left right =
    in_place_loop-intersect (length left + length right) left 0 0 left right refl (omega arith)
      (omega arith)
