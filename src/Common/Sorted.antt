-- ===== src/Common/Sorted.antt =====
-- Lists of numbers as sets: membership as a test, strictly increasing lists, and the standard
-- library's `sort_unstable` and `dedup`.
use teamy_mft.Common.Lists.{All}
use teamy_mft.Common.Tests.{leb, ◌==◌, if◌then◌else◌}
use Prim.Native.Nat.{ℕ, ◌<◌, ◌≤◌}
use mathlib.Core.Path.{◌≡◌, refl}
use mathlib.Core.Bool.{Bool, true, false, ◌||◌}
use mathlib.Core.List.{List, [], ◌∷◌, ◌++◌}
use native.Mathlib.Omega.{arith}

-- `slice.contains(&x)`
abbrev pub contains : List ℕ → ℕ → Bool
contains [] x = false
contains (y ∷ ys) x = y == x || contains ys x

abbrev pub IsSorted : List ℕ → Type 0
IsSorted [] = Unit
IsSorted (x ∷ xs) = All (λ y. x < y) xs × IsSorted xs

-- Neighbours in order, equal ones allowed.
abbrev pub IsOrdered : List ℕ → Type 0
IsOrdered [] = Unit
IsOrdered (x ∷ xs) = All (λ y. x ≤ y) xs × IsOrdered xs

pub contains-below : (x y : ℕ) (xs : List ℕ) → All (λ z. x < z) xs → y ≤ x → contains xs y ≡ false
contains-below x y [] h l = refl
contains-below x y (z ∷ xs) h l = ground (arith, contains-below x y xs h.1 l)

pub All-lt_weaken : (x y : ℕ) (xs : List ℕ) → x ≤ y → All (λ z. y < z) xs → All (λ z. x < z) xs
All-lt_weaken x y [] l h = tt
All-lt_weaken x y (z ∷ xs) l h = (omega arith, All-lt_weaken x y xs l h.1)

pub All-le_weaken : (x y : ℕ) (xs : List ℕ) → x ≤ y → All (λ z. y ≤ z) xs → All (λ z. x ≤ z) xs
All-le_weaken x y [] l h = tt
All-le_weaken x y (z ∷ xs) l h = (omega arith, All-le_weaken x y xs l h.1)

pub contains-append :
    (xs ys : List ℕ) (x : ℕ) → contains (xs ++ ys) x ≡ (contains xs x || contains ys x)
contains-append [] ys x = refl
contains-append (z ∷ xs) ys x = ground (arith, contains-append xs ys x)

insert_sorted : ℕ → List ℕ → List ℕ
insert_sorted x [] = x ∷ []
insert_sorted x (y ∷ ys) = if leb x y then x ∷ y ∷ ys else y ∷ insert_sorted x ys

-- `sort_unstable` on numbers: the ordered list of the same elements.
unfoldable pub sort : List ℕ → List ℕ
unfolding insert_sorted
sort [] = []
sort (x ∷ xs) = insert_sorted x (sort xs)

dedup_from : ℕ → List ℕ → List ℕ
dedup_from x [] = x ∷ []
dedup_from x (y ∷ ys) = if x == y then dedup_from x ys else x ∷ dedup_from y ys

-- `Vec::dedup`: of equal neighbours the first stays.
unfoldable pub dedup : List ℕ → List ℕ
unfolding dedup_from
dedup [] = []
dedup (x ∷ xs) = dedup_from x xs

contains-insert_sorted :
    (x y : ℕ) (ys : List ℕ) → contains (insert_sorted x ys) y ≡ (x == y || contains ys y)
unfolding insert_sorted
contains-insert_sorted x y [] = refl
contains-insert_sorted x y (z ∷ ys) = ground (arith, contains-insert_sorted x y ys)

All-insert_sorted :
    (b x : ℕ) (ys : List ℕ) → b ≤ x → All (λ z. b ≤ z) ys → All (λ z. b ≤ z) (insert_sorted x ys)
unfolding insert_sorted
All-insert_sorted b x [] l h = (l, tt)
All-insert_sorted b x (y ∷ ys) l h = ground (arith, All-insert_sorted b x ys l h.1)

insert_sorted-IsOrdered : (x : ℕ) (ys : List ℕ) → IsOrdered ys → IsOrdered (insert_sorted x ys)
unfolding insert_sorted
insert_sorted-IsOrdered x [] h = (tt, tt)
insert_sorted-IsOrdered x (y ∷ ys) h =
    ground (arith, insert_sorted-IsOrdered x ys h.1, All-insert_sorted y x ys, All-le_weaken x y ys)

pub contains-sort : (xs : List ℕ) (y : ℕ) → contains (sort xs) y ≡ contains xs y
unfolding sort
contains-sort [] y = refl
contains-sort (x ∷ xs) y = ground (arith, contains-insert_sorted x y (sort xs), contains-sort xs y)

pub sort-IsOrdered : (xs : List ℕ) → IsOrdered (sort xs)
unfolding sort
sort-IsOrdered [] = tt
sort-IsOrdered (x ∷ xs) = insert_sorted-IsOrdered x (sort xs) (sort-IsOrdered xs)

contains-dedup_from :
    (x : ℕ) (ys : List ℕ) (y : ℕ) → contains (dedup_from x ys) y ≡ (x == y || contains ys y)
unfolding dedup_from
contains-dedup_from x [] y = refl
contains-dedup_from x (z ∷ ys) y =
    ground (arith, contains-dedup_from x ys y, contains-dedup_from z ys y)

All-dedup_from :
    (b x : ℕ) (ys : List ℕ) → b < x → All (λ z. b < z) ys → All (λ z. b < z) (dedup_from x ys)
unfolding dedup_from
All-dedup_from b x [] l h = (l, tt)
All-dedup_from b x (y ∷ ys) l h =
    ground (arith, All-dedup_from b x ys l h.1, All-dedup_from b y ys h.0 h.1)

pub All-lt_of_le : (x y : ℕ) (xs : List ℕ) → x < y → All (λ z. y ≤ z) xs → All (λ z. x < z) xs
All-lt_of_le x y [] l h = tt
All-lt_of_le x y (z ∷ xs) l h = (omega arith, All-lt_of_le x y xs l h.1)

dedup_from-IsSorted : (x : ℕ) (ys : List ℕ) → IsOrdered (x ∷ ys) → IsSorted (dedup_from x ys)
unfolding dedup_from
dedup_from-IsSorted x [] h = (tt, tt)
dedup_from-IsSorted x (y ∷ ys) h = ground (
  arith,
  dedup_from-IsSorted x ys (h.0.1, h.1.1),
  dedup_from-IsSorted y ys h.1,
  All-dedup_from x y ys,
  All-lt_of_le x y ys,
)

pub contains-dedup : (xs : List ℕ) (y : ℕ) → contains (dedup xs) y ≡ contains xs y
unfolding dedup
contains-dedup [] y = refl
contains-dedup (x ∷ xs) y = contains-dedup_from x xs y

pub dedup-IsSorted : (xs : List ℕ) → IsOrdered xs → IsSorted (dedup xs)
unfolding dedup
dedup-IsSorted [] h = tt
dedup-IsSorted (x ∷ xs) h = dedup_from-IsSorted x xs h

-- A property of all elements does not depend on their order or number.
pub All-of_contains :
    (n : ℕ) (xs : List ℕ) → ((x : ℕ) → contains xs x ≡ true → x < n) → All (λ x. x < n) xs
All-of_contains n [] h = tt
All-of_contains n (x ∷ xs) h =
    (h x (ground arith), All-of_contains n xs (λ y e. h y (ground arith)))
