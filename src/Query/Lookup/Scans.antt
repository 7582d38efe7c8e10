-- ===== src/Query/Lookup/Scans.antt =====
-- What the loops of a rule's lookup find.
use teamy_mft.Common.{
  ℕ, zero, suc, ◌+◌, ◌^◌, ◌<◌, ◌≤◌, ◌≡◌, ◌≢◌, refl, ◌∙◌, Bool, true, false, ◌&&◌, Option, none,
  some, List, [], ◌∷◌, ◌==◌, length, get_elem?, All, arith, inl, inr, Bool-cases, Option-cases,
}
use teamy_mft.Common.Bytes.{Bytes}
use teamy_mft.Common.Result.{ok}
use teamy_mft.Common.Sorted.{
  contains, IsSorted, sort, dedup, contains-sort, contains-dedup, sort-IsOrdered, dedup-IsSorted,
  contains-below,
}
use teamy_mft.Index.{ParsedSearchIndex, segment, trigram_postings}
use teamy_mft.Query.Group.{all}
use teamy_mft.Query.Rows.Loops.{contains-intersect_sorted_ids, intersect_sorted_ids-IsSorted}
use teamy_mft.Query.Rule.{QueryRule, matches_normalized}
use teamy_mft.Query.Lookup.{
  u32_try_from, scan_from, narrow, narrow_with, trigram_candidates, option_rows, filter_candidates,
}

-- A test of an item that may be missing.
abbrev pub holds : {A : Type 0} → (A → Bool) → Option A → Bool
holds test none = false
holds test (some a) = test a

-- The loop over numbered items gives, in order, the numbers of those that pass the test.
pub scan_from_lem :
    {A : Type 0} (test : A → Bool) (number : ℕ) (items : List A)
    → number + length items ≤ 2 ^ 32
    → (ids : List ℕ) × (scan_from test number items ≡ ok ids)
      × IsSorted ids
      × All (λ id. number ≤ id) ids
      × ((k : ℕ) → contains ids (number + k) ≡ holds test (get_elem? items k))
unfolding scan_from
scan_from_lem test number [] fits = ([], refl, tt, tt, λ k. refl)
scan_from_lem test number (item ∷ items) fits =
    let (ids, e, sorted, above, found) = scan_from_lem test (number + 1) items (omega arith) in
    let lower : All (λ id. number < id) ids = All-lower number ids above in
    let weak : All (λ id. number ≤ id) ids = All-suc number ids above in
    elim (Bool-cases (test item)) [
      | inl yes_item ↦
          let small : u32_try_from number ≡ ok number = ground arith in
          (
            number ∷ ids,
            rw (yes_item, small, e) refl,
            (lower, sorted),
            (omega arith, weak),
            λ k. here_or_later k ids yes_item found,
          )
      | inr no_item ↦
          (ids, rw (no_item, e) refl, sorted, weak, λ k. later_only k ids no_item lower found)
    ]
  where
    All-suc : (n : ℕ) (ids : List ℕ) → All (λ id. n + 1 ≤ id) ids → All (λ id. n ≤ id) ids
    All-suc n [] h = tt
    All-suc n (id ∷ ids) h = (omega arith, All-suc n ids h.1)

    All-lower : (n : ℕ) (ids : List ℕ) → All (λ id. n + 1 ≤ id) ids → All (λ id. n < id) ids
    All-lower n [] h = tt
    All-lower n (id ∷ ids) h = (omega arith, All-lower n ids h.1)

    here_or_later :
        (k : ℕ) (ids : List ℕ)
        → test item ≡ true
        → ((k : ℕ) → contains ids (number + 1 + k) ≡ holds test (get_elem? items k))
        → contains (number ∷ ids) (number + k) ≡ holds test (get_elem? (item ∷ items) k)
    here_or_later zero ids passed found = ground (arith, passed)
    here_or_later (suc k) ids passed found =
        let shift : number + suc k ≡ number + 1 + k = omega arith in
        let other : number == number + 1 + k ≡ false = ground arith in rw (shift, other) (found k)

    later_only :
        (k : ℕ) (ids : List ℕ)
        → test item ≡ false
        → All (λ id. number < id) ids
        → ((k : ℕ) → contains ids (number + 1 + k) ≡ holds test (get_elem? items k))
        → contains ids (number + k) ≡ holds test (get_elem? (item ∷ items) k)
    later_only zero ids failed above found =
        rw failed (contains-below number (number + 0) ids above (omega arith))
    later_only (suc k) ids failed above found =
        let shift : number + suc k ≡ number + 1 + k = omega arith in rw shift (found k)

abbrev candidate : Option (List ℕ) → ℕ → Bool
candidate none id = true
candidate (some ids) id = contains ids id

abbrev IsSortedCandidates : Option (List ℕ) → Type 0
IsSortedCandidates none = Unit
IsSortedCandidates (some ids) = IsSorted ids

abbrev pub has_trigram : ParsedSearchIndex → ℕ → Bytes → Bool
has_trigram index id trigram = contains (option_rows (trigram_postings index trigram)) id

narrow_lem :
    (candidates : Option (List ℕ)) (ids : List ℕ)
    → IsSortedCandidates candidates
    → IsSorted (narrow candidates (dedup (sort ids)))
      × ((id : ℕ)
          → contains (narrow candidates (dedup (sort ids))) id
            ≡ (candidate candidates id && contains ids id))
unfolding narrow
narrow_lem none ids sorted = (
  dedup-IsSorted (sort ids) (sort-IsOrdered ids),
  λ id. contains-dedup (sort ids) id ∙ contains-sort ids id,
)
narrow_lem (some existing) ids sorted =
    let right = dedup-IsSorted (sort ids) (sort-IsOrdered ids) in
    (
      intersect_sorted_ids-IsSorted existing (dedup (sort ids)) sorted right,
      λ id. ground (
        arith,
        contains-intersect_sorted_ids existing (dedup (sort ids)) id sorted right,
        contains-dedup (sort ids) id,
        contains-sort ids id,
      ),
    )

contains-empty : (ids : List ℕ) (id : ℕ) → length ids == 0 ≡ true → contains ids id ≡ false
contains-empty [] id h = refl
contains-empty (i ∷ ids) id h = absurd (ground (arith, h))

-- The candidates are the segments that have all trigrams, whether or not the loop stops early.
pub trigram_candidates_lem :
    (index : ParsedSearchIndex) (trigrams : List Bytes) (candidates : Option (List ℕ))
    → IsSortedCandidates candidates
    → (candidates ≡ none → trigrams ≢ [])
    → IsSorted (trigram_candidates index trigrams candidates)
      × ((id : ℕ)
          → contains (trigram_candidates index trigrams candidates) id
            ≡ (candidate candidates id && all (has_trigram index id) trigrams))
unfolding trigram_candidates narrow_with all
trigram_candidates_lem index [] none sorted given = absurd (given refl refl)
trigram_candidates_lem index [] (some ids) sorted given = (sorted, λ id. ground arith)
trigram_candidates_lem index (trigram ∷ trigrams) candidates sorted given =
    elim (Option-cases (trigram_postings index trigram)) [
      | inl gone ↦ rw gone (tt, λ id. ground arith)
      | inr (ids, posted) ↦
          let narrowed = narrow candidates (dedup (sort ids)) in
          let (narrow_sorted, narrow_found) = narrow_lem candidates ids sorted in
          elim (Bool-cases (length narrowed == 0)) [
            | inl nothing ↦
                rw (posted, nothing)
                  (tt, λ id. ground (arith, narrow_found id, contains-empty narrowed id nothing))
            | inr something ↦
                let (rest_sorted, rest_found) =
                  trigram_candidates_lem index trigrams (some narrowed) narrow_sorted (λ e. cc) in
                rw (posted, something)
                  (rest_sorted, λ id. ground (arith, narrow_found id, rest_found id))
          ]
    ]

module _ (to_lowercase : Bytes → Bytes) (index : ParsedSearchIndex) (rule : QueryRule) where
  abbrev pub segment_matches : ℕ → Bool
  segment_matches id = holds (matches_normalized to_lowercase rule) (get_elem? index.segments id)

  -- The filter keeps the candidates that match, provided that all of them are segments.
  pub filter_candidates_lem :
      (candidates : List ℕ)
      → All (λ id. id < length index.segments) candidates
      → (ids : List ℕ) × (filter_candidates to_lowercase index rule candidates ≡ ok ids)
        × ((id : ℕ) → contains ids id ≡ (contains candidates id && segment_matches id))
  unfolding filter_candidates segment
  filter_candidates_lem [] below = ([], refl, λ id. refl)
  filter_candidates_lem (first ∷ candidates) below =
      let (ids, e, found) = filter_candidates_lem candidates below.1 in
      let (normalized, known) = get_elem?-some index.segments first below.0 in
      elim (Bool-cases (matches_normalized to_lowercase rule normalized)) [
        | inl passed ↦ (
          first ∷ ids,
          rw (known, e, passed) refl,
          λ id. elim (Bool-cases (first == id)) [
            | inl same ↦
                let eq : first ≡ id = ground arith in
                let known' : get_elem? index.segments id ≡ some normalized = rw (← eq) known in
                rw (same, known', passed) refl
            | inr other ↦ rw other (found id)
          ],
        )
        | inr failed ↦ (
          ids,
          rw (known, e, failed) refl,
          λ id. elim (Bool-cases (first == id)) [
            | inl same ↦
                let eq : first ≡ id = ground arith in
                let known' : get_elem? index.segments id ≡ some normalized = rw (← eq) known in
                ground (arith, found id, known', failed)
            | inr other ↦ rw other (found id)
          ],
        )
      ]
    where
      get_elem?-some :
          (items : List Bytes) (i : ℕ)
          → i < length items
          → (a : Bytes) × (get_elem? items i ≡ some a)
      get_elem?-some [] i h = absurd (omega arith)
      get_elem?-some (a ∷ items) zero h = (a, refl)
      get_elem?-some (a ∷ items) (suc i) h = get_elem?-some items i (omega arith)
