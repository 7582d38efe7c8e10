-- ===== src/Texts.antt =====
-- The order of texts, which src/domain/pathlike.rs derives; lists in the order of their texts, as the
-- `sort_by` of live_drive_state.rs and the `sort_unstable` and `dedup` of trigrams leave them.
use teamy_mft.Common.{
  ℕ, ◌≡◌, ◌≢◌, refl, ap, ◌∙◌, Bool, true, false, Option, none, some, List, [], ◌∷◌, ◌++◌,
  if◌then◌else◌, arith, All, ◌||◌, Bool-cases, inl, inr,
}
use teamy_mft.Common.Dict.{text_eq, text_eq_iff}
use Prim.Native.Nat.{compare, Ordering}

-- The order of texts: a code point is smaller where its encoding is.
unfoldable pub text_lt : List ℕ → List ℕ → Bool
text_lt xs [] = false
text_lt [] (y ∷ ys) = true
text_lt (x ∷ xs) (y ∷ ys) = elim (compare x y) [
  | Ordering.lt ↦ true
  | Ordering.gt ↦ false
  | Ordering.eq ↦ text_lt xs ys
]

abbrev pub override : Option Bool → Option Bool → Option Bool
override none old = old
override (some new) old = some new

text_lt_irrefl : (xs ys : List ℕ) → text_lt xs ys ≡ true → text_eq xs ys ≡ false
unfolding text_lt
text_lt_irrefl xs [] h = cc
text_lt_irrefl [] (y ∷ ys) h = refl
text_lt_irrefl (x ∷ xs) (y ∷ ys) h = ground (arith, text_lt_irrefl xs ys)

text_lt_asymm : (xs ys : List ℕ) → text_lt xs ys ≡ true → text_lt ys xs ≡ false
unfolding text_lt
text_lt_asymm [] [] h = refl
text_lt_asymm (x ∷ xs) [] h = cc
text_lt_asymm [] (y ∷ ys) h = refl
text_lt_asymm (x ∷ xs) (y ∷ ys) h = ground (arith, text_lt_asymm xs ys)

module _ {A : Type 0} (path_of : A → List ℕ) where
  insert_by : A → List A → List A
  insert_by row [] = row ∷ []
  insert_by row (first ∷ rows) =
      if text_lt (path_of first) (path_of row)
      then first ∷ insert_by row rows
      else row ∷ first ∷ rows

  -- `sort_by` on the paths, which is stable.
  unfoldable pub sort_by : List A → List A
  unfolding insert_by
  sort_by [] = []
  sort_by (row ∷ rows) = insert_by row (sort_by rows)

  -- Neighbours are in order.
  abbrev pub IsOrderedBy : List A → Type 0
  IsOrderedBy [] = Unit
  IsOrderedBy (row ∷ []) = Unit
  IsOrderedBy (row ∷ next ∷ rows) =
      (text_lt (path_of next) (path_of row) ≡ false) × IsOrderedBy (next ∷ rows)

  insert_by-IsOrderedBy :
      (row : A) (rows : List A) → IsOrderedBy rows → IsOrderedBy (insert_by row rows)
  unfolding insert_by
  insert_by-IsOrderedBy row [] h = tt
  insert_by-IsOrderedBy row (first ∷ []) h =
      ground (arith, text_lt_asymm (path_of first) (path_of row))
  insert_by-IsOrderedBy row (first ∷ next ∷ rows) h = ground (
    arith,
    text_lt_asymm (path_of first) (path_of row),
    insert_by-IsOrderedBy row (next ∷ rows) h.1,
  )

  pub sort_by-IsOrderedBy : (rows : List A) → IsOrderedBy (sort_by rows)
  unfolding sort_by
  sort_by-IsOrderedBy [] = tt
  sort_by-IsOrderedBy (row ∷ rows) =
      insert_by-IsOrderedBy row (sort_by rows) (sort_by-IsOrderedBy rows)

  All-insert_by :
      (P : A → Type 0) (row : A) (rows : List A) → P row → All P rows → All P (insert_by row rows)
  unfolding insert_by
  All-insert_by P row [] p h = (p, tt)
  All-insert_by P row (first ∷ rows) p h = ground (arith, All-insert_by P row rows p h.1)

  pub All-sort_by : (P : A → Type 0) (rows : List A) → All P rows → All P (sort_by rows)
  unfolding sort_by
  All-sort_by P [] h = tt
  All-sort_by P (row ∷ rows) h = All-insert_by P row (sort_by rows) h.0 (All-sort_by P rows h.1)

module _ {A : Type 0} (path_of : A → List ℕ) (flag_of : A → Bool) where
  -- The flag of the first record of a path.
  unfoldable pub state_by : List ℕ → List A → Option Bool
  state_by path [] = none
  state_by path (row ∷ rows) =
      if text_eq (path_of row) path then some (flag_of row) else state_by path rows

  state_by-insert_by :
      (path : List ℕ) (row : A) (rows : List A)
      → state_by path (insert_by path_of row rows) ≡ state_by path (row ∷ rows)
  unfolding state_by insert_by
  state_by-insert_by path row [] = refl
  state_by-insert_by path row (first ∷ rows) = ground (
    arith,
    state_by-insert_by path row rows,
    text_lt_irrefl (path_of first) (path_of row),
    text_eq_iff (path_of first) path,
    text_eq_iff (path_of row) path,
    text_eq_iff (path_of first) (path_of row),
  )

  pub state_by-sort_by :
      (path : List ℕ) (rows : List A) → state_by path (sort_by path_of rows) ≡ state_by path rows
  unfolding state_by sort_by
  state_by-sort_by path [] = refl
  state_by-sort_by path (row ∷ rows) =
      state_by-insert_by path row (sort_by path_of rows)
      ∙ ap (λ r. if text_eq (path_of row) path then some (flag_of row) else r)
          (state_by-sort_by path rows)

  pub state_by-append :
      (path : List ℕ) (rows more : List A)
      → state_by path (rows ++ more) ≡ override (state_by path rows) (state_by path more)
  unfolding state_by
  state_by-append path [] more = refl
  state_by-append path (row ∷ rows) more = ground (arith, state_by-append path rows more)

dedup_from : List ℕ → List (List ℕ) → List (List ℕ)
dedup_from text [] = text ∷ []
dedup_from text (next ∷ texts) =
    let rest = dedup_from next texts in
    let skipped = dedup_from text texts in if text_eq text next then skipped else text ∷ rest

-- `dedup`: of equal neighbours the first stays.
unfoldable pub dedup_texts : List (List ℕ) → List (List ℕ)
unfolding dedup_from
dedup_texts [] = []
dedup_texts (text ∷ texts) = dedup_from text texts

All-dedup_from :
    (P : List ℕ → Type 0) (text : List ℕ) (texts : List (List ℕ))
    → P text
    → All P texts
    → All P (dedup_from text texts)
unfolding dedup_from
All-dedup_from P text [] p h = (p, tt)
All-dedup_from P text (next ∷ texts) p h =
    ground (arith, All-dedup_from P text texts p h.1, All-dedup_from P next texts h.0 h.1)

pub All-dedup_texts :
    (P : List ℕ → Type 0) (texts : List (List ℕ)) → All P texts → All P (dedup_texts texts)
unfolding dedup_texts
All-dedup_texts P [] h = tt
All-dedup_texts P (text ∷ texts) h = All-dedup_from P text texts h.0 h.1

dedup_from-ne-nil : (text : List ℕ) (texts : List (List ℕ)) → dedup_from text texts ≢ []
unfolding dedup_from
dedup_from-ne-nil text [] e = cc
dedup_from-ne-nil text (next ∷ texts) e = ground (arith, e, dedup_from-ne-nil text texts)

pub dedup_texts-ne-nil : (texts : List (List ℕ)) → texts ≢ [] → dedup_texts texts ≢ []
unfolding dedup_texts
dedup_texts-ne-nil [] given e = given refl
dedup_texts-ne-nil (text ∷ texts) given e = dedup_from-ne-nil text texts e

abbrev pub itself : List ℕ → List ℕ
itself text = text

insert_by-ne-nil : (text : List ℕ) (texts : List (List ℕ)) → insert_by itself text texts ≢ []
unfolding insert_by
insert_by-ne-nil text [] e = cc
insert_by-ne-nil text (next ∷ texts) e = ground (arith, e)

pub sort_by-ne-nil : (texts : List (List ℕ)) → texts ≢ [] → sort_by itself texts ≢ []
unfolding sort_by
sort_by-ne-nil [] given e = given refl
sort_by-ne-nil (text ∷ texts) given e = insert_by-ne-nil text (sort_by itself texts) e

-- Neither changes which texts there are.
abbrev pub has_text : List ℕ → List (List ℕ) → Bool
has_text text [] = false
has_text text (next ∷ texts) = text_eq next text || has_text text texts

has_text-insert_by :
    (text new : List ℕ) (texts : List (List ℕ))
    → has_text text (insert_by itself new texts) ≡ (text_eq new text || has_text text texts)
unfolding insert_by
has_text-insert_by text new [] = refl
has_text-insert_by text new (next ∷ texts) = ground (arith, has_text-insert_by text new texts)

has_text-dedup_from :
    (text first : List ℕ) (texts : List (List ℕ))
    → has_text text (dedup_from first texts) ≡ (text_eq first text || has_text text texts)
unfolding dedup_from
has_text-dedup_from text first [] = refl
has_text-dedup_from text first (next ∷ texts) = elim (Bool-cases (text_eq first next)) [
  | inl same ↦
      let e : first ≡ next = (text_eq_iff first next).0 same in
      rw same (ground (arith, has_text-dedup_from text first texts, ap (λ t. text_eq t text) e))
  | inr apart ↦ rw apart (ground (arith, has_text-dedup_from text next texts))
]

pub has_text-trigrams :
    (text : List ℕ) (texts : List (List ℕ))
    → has_text text (dedup_texts (sort_by itself texts)) ≡ has_text text texts
unfolding dedup_texts sort_by
has_text-trigrams text texts = deduped text (sort_by itself texts) ∙ sorted text texts
  where
    sorted :
        (text : List ℕ) (texts : List (List ℕ))
        → has_text text (sort_by itself texts) ≡ has_text text texts
    sorted text [] = refl
    sorted text (next ∷ texts) =
        has_text-insert_by text next (sort_by itself texts)
        ∙ ap (λ b. text_eq next text || b) (sorted text texts)

    deduped :
        (text : List ℕ) (texts : List (List ℕ))
        → has_text text (dedup_texts texts) ≡ has_text text texts
    deduped text [] = refl
    deduped text (next ∷ texts) = has_text-dedup_from text next texts
