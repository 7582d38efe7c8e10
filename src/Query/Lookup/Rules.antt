-- ===== src/Query/Lookup/Rules.antt =====
-- The rows of a rule, looked up in an index, are the rows that the rule matches.
use teamy_mft.Common.{
  ℕ, zero, suc, ◌+◌, ◌<◌, ◌≤◌, ◌≡◌, ◌≢◌, refl, sym, ◌∙◌, true, false, none, some, List, [], ◌∷◌,
  ◌++◌, length, get_elem?, leb, ltb, All, arith, inl, inr, Bool-cases, Option-cases,
}
use teamy_mft.Common.Bytes.{Bytes}
use teamy_mft.Common.Result.{Result, ok}
use teamy_mft.Common.Sorted.{contains, contains-append, All-of_contains}
use teamy_mft.Index.{ParsedSearchIndex, IndexError, postings}
use teamy_mft.Index.Rows.{IsIndexOf, row_segments}
use teamy_mft.Query.Needle
use teamy_mft.Query.Needle.{
  any, normalized_bytes, QueryNeedle, ascii_lower, unicode_lower, str_contains, str_ends_with,
}
use teamy_mft.Query.Needle.Find.{contains_ascii-str_contains}
use teamy_mft.Query.Group.{all}
use teamy_mft.Query.Rule.{QueryRule, matches_normalized, normalized_contains_trigrams}
use teamy_mft.Query.Lookup.{
  scan_segments, trigram_candidates, filter_candidates, segment_ids_from,
  matching_segment_ids_for_rule, collect_postings,
}
use teamy_mft.Query.Lookup.Scans.{
  scan_from_lem, has_trigram, trigram_candidates_lem, segment_matches, filter_candidates_lem,
}
use teamy_mft.Query.Lookup.Trigrams.{
  IsTrigramOf, normalized_trigrams-IsTrigramOf, normalized_trigrams-ne-nil, str_contains-trigram,
}

pub get_elem?-lt :
    {A : Type 0} (items : List A) (i : ℕ) (a : A) → get_elem? items i ≡ some a → i < length items
get_elem?-lt [] i a h = cc
get_elem?-lt (b ∷ items) zero a h = omega arith
get_elem?-lt (b ∷ items) (suc i) a h = omega (arith, get_elem?-lt items i a h)

module _ (to_lowercase : Bytes → Bytes) (index : ParsedSearchIndex) (rows : List (List ℕ))
    (indexed : IsIndexOf rows index) where
  -- The numbers of the segments that match.
  abbrev pub FindsSegments : QueryRule → Result IndexError (List ℕ) → Type 0
  FindsSegments rule result =
      (ids : List ℕ) × (result ≡ ok ids)
      × ((id : ℕ) → contains ids id ≡ segment_matches to_lowercase index rule id)

  scan_segments-FindsSegments :
      (rule : QueryRule) → FindsSegments rule (scan_segments to_lowercase index rule)
  unfolding scan_segments
  scan_segments-FindsSegments rule =
      let (ids, e, sorted, above, found) =
        scan_from_lem (matches_normalized to_lowercase rule) 0 index.segments
          (omega (arith, indexed.few_segments)) in
      (ids, e, λ id. let start : 0 + id ≡ id = omega arith in rw start at (found id))

  -- A segment that contains a needle has the needle's trigrams.
  all-has_trigram :
      (id : ℕ) (text part : Bytes) (trigrams : List Bytes)
      → get_elem? index.segments id ≡ some text
      → str_contains text part ≡ true
      → All (IsTrigramOf part) trigrams
      → all (has_trigram index id) trigrams ≡ true
  unfolding all
  all-has_trigram id text part [] known found h = refl
  all-has_trigram id text part (trigram ∷ trigrams) known found h =
      let small : ltb id (length index.segments) ≡ true =
        ground (arith, get_elem?-lt index.segments id text known) in
      let here : has_trigram index id trigram ≡ true =
        indexed.trigrams_posted trigram id h.0.0
        ∙ rw (small, known) (str_contains-trigram text part trigram found h.0) in
      rw here (all-has_trigram id text part trigrams known found h.1)

  matches_contains-str_contains :
      (needle : QueryNeedle) (text : Bytes)
      → matches_normalized to_lowercase (QueryRule.contains_case_insensitive needle) text
        ≡ str_contains text (normalized_bytes needle)
  unfolding matches_normalized normalized_bytes
  matches_contains-str_contains (ascii_lower needle) text = contains_ascii-str_contains text needle
  matches_contains-str_contains (unicode_lower needle) text = refl

  has_trigrams-lt :
      (id : ℕ) (part : Bytes) (trigrams : List Bytes)
      → trigrams ≢ []
      → All (IsTrigramOf part) trigrams
      → all (has_trigram index id) trigrams ≡ true
      → id < length index.segments
  unfolding all
  has_trigrams-lt id part [] given h found = absurd (given refl)
  has_trigrams-lt id part (trigram ∷ trigrams) given h found =
      let here : has_trigram index id trigram ≡ true = ground arith in
      ground (arith, here, indexed.trigrams_posted trigram id h.0.0)

  -- A segment that matches is a segment whose text contains the needle.
  segment_matches-known :
      (rule : QueryRule) (id : ℕ)
      → segment_matches to_lowercase index rule id ≡ true
      → (text : Bytes) × (get_elem? index.segments id ≡ some text)
        × (matches_normalized to_lowercase rule text ≡ true)
  segment_matches-known rule id h = elim (Option-cases (get_elem? index.segments id)) [
    | inl gone ↦ let bad : false ≡ true = rw gone at h in cc
    | inr (text, known) ↦ (text, known, rw known at h)
  ]

  -- The trigrams leave all segments that match.
  by_trigrams-FindsSegments :
      (needle : QueryNeedle)
      → 3 ≤ length (normalized_bytes needle)
      → FindsSegments (QueryRule.contains_case_insensitive needle) (
          filter_candidates to_lowercase index
            (QueryRule.contains_case_insensitive needle)
            (trigram_candidates index (Needle.normalized_trigrams needle) none))
  by_trigrams-FindsSegments needle long =
      let rule = QueryRule.contains_case_insensitive needle in
      let part = normalized_bytes needle in
      let trigrams = Needle.normalized_trigrams needle in
      let are = normalized_trigrams-IsTrigramOf needle in
      let given = normalized_trigrams-ne-nil needle long in
      let candidates = trigram_candidates index trigrams none in
      let (sorted, found) = trigram_candidates_lem index trigrams none tt (λ e. given) in
      let below =
        All-of_contains (length index.segments) candidates
          (λ id h. has_trigrams-lt id part trigrams given are (sym (found id) ∙ h)) in
      let (ids, e, kept) = filter_candidates_lem to_lowercase index rule candidates below in
      (
        ids,
        e,
        λ id. elim (Bool-cases (segment_matches to_lowercase index rule id)) [
          | inr failed ↦ ground (arith, kept id, failed)
          | inl passed ↦
              let (text, known, matches) = segment_matches-known rule id passed in
              let contained : str_contains text part ≡ true =
                sym (matches_contains-str_contains needle text) ∙ matches in
              let full = all-has_trigram id text part trigrams known contained are in
              ground (arith, kept id, found id, passed, full)
        ],
      )

  pub matching_segment_ids-FindsSegments :
      (rule : QueryRule)
      → FindsSegments rule (matching_segment_ids_for_rule to_lowercase index rule)
  unfolding matching_segment_ids_for_rule normalized_contains_trigrams segment_ids_from
  matching_segment_ids-FindsSegments QueryRule.match_all =
      scan_segments-FindsSegments QueryRule.match_all
  matching_segment_ids-FindsSegments (QueryRule.prefix_case_insensitive needle) =
      scan_segments-FindsSegments (QueryRule.prefix_case_insensitive needle)
  matching_segment_ids-FindsSegments (QueryRule.ends_with_case_insensitive needle) =
      scan_segments-FindsSegments (QueryRule.ends_with_case_insensitive needle)
  matching_segment_ids-FindsSegments (QueryRule.equals_case_insensitive needle) =
      scan_segments-FindsSegments (QueryRule.equals_case_insensitive needle)
  matching_segment_ids-FindsSegments (QueryRule.contains_case_insensitive needle) =
      elim (Bool-cases (leb 3 (length (normalized_bytes needle)))) [
        | inl long ↦ rw long (by_trigrams-FindsSegments needle (ground (arith, long)))
        | inr short ↦
            rw short (scan_segments-FindsSegments (QueryRule.contains_case_insensitive needle))
      ]

  -- The rows of segments are the rows that have one of them.
  pub collect_postings_lem :
      (ids : List ℕ)
      → All (λ id. id < length index.segments) ids
      → (found : List ℕ) × (collect_postings index ids ≡ ok found)
        × ((x : ℕ) → contains found x ≡ any (contains (row_segments rows x)) ids)
  unfolding collect_postings postings any
  collect_postings_lem [] below = ([], refl, λ x. refl)
  collect_postings_lem (id ∷ ids) below =
      let (here, known, has) = indexed.posted id below.0 in
      let (found, e, later) = collect_postings_lem ids below.1 in
      (
        here ++ found,
        rw (known, e) refl,
        λ x. ground (arith, contains-append here found x, has x, later x),
      )
