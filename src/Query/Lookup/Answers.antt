-- ===== src/Query/Lookup/Answers.antt =====
-- The rows of a rule, looked up in an index, are the rows that the rule matches.
use teamy_mft.Common.{
  ℕ, zero, suc, ◌+◌, ◌<◌, ◌≤◌, ◌≡◌, refl, sym, ap, ◌∙◌, Bool, true, false, ◌&&◌, ◌||◌, Option, none,
  some, List, [], ◌∷◌, ◌==◌, length, get_elem?, get_or, ltb, arith, inl, inr, Bool-cases,
  Option-cases, if◌then◌else◌, and_then,
}
use teamy_mft.Common.Bytes.{Bytes}
use teamy_mft.Common.Result.{ok}
use teamy_mft.Common.Sorted.{
  contains, IsSorted, sort, dedup, contains-sort, contains-dedup, sort-IsOrdered, dedup-IsSorted,
  All-of_contains,
}
use teamy_mft.Index.{
  ParsedSearchIndex, IndexError, extension_postings, node_segment, normalized_extension_suffix,
  row_count,
}
use teamy_mft.Index.Rows.{IsIndexOf, row_segments, terminal_segment}
use teamy_mft.Query.Needle.{
  any, normalized_bytes, QueryNeedle, ascii_lower, unicode_lower, str_ends_with,
}
use teamy_mft.Query.Needle.Find.{ends_with_ascii-str_ends_with}
use teamy_mft.Query.Group.{last}
use teamy_mft.Query.Group.Candidates.{Selects}
use teamy_mft.Query.Rows
use teamy_mft.Query.Rows.{MatchingRowIndices}
use teamy_mft.Query.Rule
use teamy_mft.Query.Rule.{
  QueryRule, is_match_all, matches_only_terminal_segment, matches_normalized,
  normalized_contains_trigrams,
}
use teamy_mft.Query.Lookup.{
  u32_try_from, scan_terminals, option_rows, terminal_matches,
  terminal_matching_row_indices_for_rule, segment_matching_row_indices, row_indices_by_suffix,
  matching_row_indices_for_rule,
}
use teamy_mft.Query.Lookup.Scans.{holds, scan_from_lem, segment_matches}
use teamy_mft.Query.Lookup.Suffixes.{dot, extension_is, extension_is-str_ends_with}
use teamy_mft.Query.Lookup.Rules.{
  matching_segment_ids-FindsSegments, collect_postings_lem, get_elem?-lt,
}

module _ (to_lowercase : Bytes → Bytes) where
  -- Whether a rule matches a row by its segments' texts: any of them, or the last one.
  unfoldable pub row_matches : ParsedSearchIndex → List (List ℕ) → QueryRule → ℕ → Bool
  row_matches index rows rule x =
      if is_match_all rule
      then ltb x (length rows)
      else if matches_only_terminal_segment rule
      then terminal_matches to_lowercase rule (terminal_segment index rows x)
      else any (segment_matches to_lowercase index rule) (row_segments rows x)

-- The suffixes that an index has an entry for at most: one dot and bytes behind it, or no dot in
-- front.
abbrev pub HasPlainSuffix : Option Bytes → Type 0
HasPlainSuffix none = Unit
HasPlainSuffix (some []) = ⊥
HasPlainSuffix (some (b ∷ after)) = (b ≡ dot) × (contains after dot ≡ false) × (0 < length after)

any_or : (p q : ℕ → Bool) (ids : List ℕ) → any (λ id. p id || q id) ids ≡ (any p ids || any q ids)
unfolding any
any_or p q [] = refl
any_or p q (id ∷ ids) = ground (arith, any_or p q ids)

any_eq : (id : ℕ) (ids : List ℕ) → any (λ other. id == other) ids ≡ contains ids id
unfolding any
any_eq id [] = refl
any_eq id (other ∷ ids) = ground (arith, any_eq id ids)

any_none : (ids : List ℕ) → any (λ id. false) ids ≡ false
unfolding any
any_none [] = refl
any_none (id ∷ ids) = any_none ids

-- Two lists have a common number, seen from either of them.
any-contains : (xs ys : List ℕ) → any (contains ys) xs ≡ any (contains xs) ys
unfolding any
any-contains [] ys = sym (any_none ys)
any-contains (x ∷ xs) ys =
    ap (λ b. b || any (contains ys) xs) (sym (any_eq x ys))
    ∙ ap (λ b. any (λ other. x == other) ys || b) (any-contains xs ys)
    ∙ sym (any_or (λ other. x == other) (contains xs) ys)

any_ext : (p q : ℕ → Bool) (ids : List ℕ) → ((id : ℕ) → p id ≡ q id) → any p ids ≡ any q ids
unfolding any
any_ext p q [] h = refl
any_ext p q (id ∷ ids) h = ground (arith, h id, any_ext p q ids h)

get_or-none : (rows : List (List ℕ)) (x : ℕ) → length rows ≤ x → get_or rows x [] ≡ []
get_or-none [] x h = refl
get_or-none (row ∷ rows) zero h = absurd (omega arith)
get_or-none (row ∷ rows) (suc x) h = get_or-none rows x (omega arith)

none-get_elem? : {A : Type 0} (items : List A) (x : ℕ) → get_elem? items x ≡ none → length items ≤ x
none-get_elem? [] x h = omega arith
none-get_elem? (a ∷ items) zero h = cc
none-get_elem? (a ∷ items) (suc x) h = omega (arith, none-get_elem? items x h)

module _ (to_lowercase : Bytes → Bytes) (index : ParsedSearchIndex) (rows : List (List ℕ))
    (indexed : IsIndexOf rows index) where
  -- No row behind the last one has a segment.
  terminal_segment-none : (x : ℕ) → length rows ≤ x → terminal_segment index rows x ≡ none
  unfolding last
  terminal_segment-none x beyond = rw (get_or-none rows x beyond) refl

  -- Row numbers, sorted and each once, with the test that they pass.
  row_indices-Selects :
      (test : ℕ → Bool) (ids : List ℕ)
      → IsSorted ids
      → ((x : ℕ) → contains ids x ≡ test x)
      → ((x : ℕ) → length rows ≤ x → test x ≡ false)
      → Selects {E = IndexError} (length rows) (ok (Rows.row_indices ids)) test
  row_indices-Selects test ids sorted found bounded = (
    Rows.row_indices ids,
    refl,
    (
      sorted,
      All-of_contains (length rows) ids (λ x h. elim (Bool-cases (ltb x (length rows))) [
        | inl below ↦ ground (arith, below)
        | inr beyond ↦
            let none_there : contains ids x ≡ false =
              found x ∙ bounded x (ground (arith, beyond)) in
            absurd (let bad : true ≡ false = sym h ∙ none_there in cc)
      ]),
    ),
    found,
  )

  no_segments : (test : ℕ → Bool) (x : ℕ) → length rows ≤ x → any test (row_segments rows x) ≡ false
  unfolding any
  no_segments test x beyond = rw (get_or-none rows x beyond) refl

  segment_matching-Selects :
      (rule : QueryRule)
      → Selects
          (length rows)
          (segment_matching_row_indices to_lowercase index rule)
          (λ x. any (segment_matches to_lowercase index rule) (row_segments rows x))
  unfolding segment_matching_row_indices
  segment_matching-Selects rule =
      let (ids, e, matched) =
        matching_segment_ids-FindsSegments to_lowercase index rows indexed rule in
      let below =
        All-of_contains (length index.segments) ids (λ id h. below_of id (sym (matched id) ∙ h)) in
      let (found, e', has) = collect_postings_lem to_lowercase index rows indexed ids below in
      rw (e, e')
        (row_indices-Selects
          (λ x. any (segment_matches to_lowercase index rule) (row_segments rows x))
          (dedup (sort found)) (dedup-IsSorted (sort found) (sort-IsOrdered found))
          (λ x.
            contains-dedup (sort found) x
            ∙ contains-sort found x
            ∙ has x
            ∙ any-contains ids (row_segments rows x)
            ∙ any_ext (contains ids) (segment_matches to_lowercase index rule) (row_segments rows x)
                matched)
          (λ x beyond. no_segments _ x beyond))
    where
      below_of :
          (id : ℕ) → segment_matches to_lowercase index rule id ≡ true → id < length index.segments
      below_of id h = elim (Option-cases (get_elem? index.segments id)) [
        | inl gone ↦ let bad : false ≡ true = rw gone at h in cc
        | inr (text, known) ↦ get_elem?-lt index.segments id text known
      ]

  terminal_matching-Selects :
      (rule : QueryRule)
      → Selects
          (length rows)
          (terminal_matching_row_indices_for_rule to_lowercase index rule)
          (λ x. terminal_matches to_lowercase rule (terminal_segment index rows x))
  unfolding terminal_matching_row_indices_for_rule scan_terminals
  terminal_matching-Selects rule =
      let (ids, e, sorted, above, found) =
        scan_from_lem
          (λ (terminal : ℕ × Bool).
            terminal_matches to_lowercase rule (node_segment index terminal.0))
          0 index.terminals (omega (arith, indexed.counted, indexed.few_rows)) in
      rw e (
        row_indices-Selects
          (λ x. terminal_matches to_lowercase rule (terminal_segment index rows x)) ids sorted
          (λ x. let start : 0 + x ≡ x = omega arith in (rw start at (found x)) ∙ at_terminal x)
          (λ x beyond. rw (terminal_segment-none x beyond) refl))
    where
      at_terminal :
          (x : ℕ)
          → holds
              (λ (terminal : ℕ × Bool).
                terminal_matches to_lowercase rule (node_segment index terminal.0))
              (get_elem? index.terminals x)
            ≡ terminal_matches to_lowercase rule (terminal_segment index rows x)
      at_terminal x = elim (Option-cases (get_elem? index.terminals x)) [
        | inl gone ↦
            let beyond : length rows ≤ x =
              omega (arith, none-get_elem? index.terminals x gone, indexed.counted) in
            rw (gone, terminal_segment-none x beyond) refl
        | inr (entry, known) ↦ rw (known, indexed.terminal x entry known) refl
      ]

  matches_suffix-str_ends_with :
      (needle : QueryNeedle) (text : Bytes)
      → matches_normalized to_lowercase (QueryRule.ends_with_case_insensitive needle) text
        ≡ str_ends_with text (normalized_bytes needle)
  unfolding matches_normalized normalized_bytes
  matches_suffix-str_ends_with (ascii_lower needle) text = ends_with_ascii-str_ends_with text needle
  matches_suffix-str_ends_with (unicode_lower needle) text = refl

  extension_found :
      (needle : QueryNeedle) (suffix : Bytes) (terminal : Option Bytes)
      → suffix ≡ normalized_bytes needle
      → HasPlainSuffix (some suffix)
      → extension_is suffix (and_then terminal normalized_extension_suffix)
        ≡ terminal_matches to_lowercase (QueryRule.ends_with_case_insensitive needle) terminal
  extension_found needle suffix none asked plain = refl
  extension_found needle [] (some text) asked plain = absurd plain
  extension_found needle (b ∷ after) (some text) asked plain =
      let ends : extension_is (dot ∷ after) (normalized_extension_suffix text)
          ≡ str_ends_with text (dot ∷ after) =
        extension_is-str_ends_with text after plain.1 plain.2 in
      let ends' : extension_is (b ∷ after) (normalized_extension_suffix text)
          ≡ str_ends_with text (b ∷ after) =
        rw plain.0 ends in
      ends' ∙ rw asked (sym (matches_suffix-str_ends_with needle text))

  extension-Selects :
      (needle : QueryNeedle) (suffix : Bytes)
      → suffix ≡ normalized_bytes needle
      → HasPlainSuffix (some suffix)
      → Selects {E = IndexError}
          (length rows)
          (ok (Rows.row_indices (option_rows (extension_postings index suffix))))
          (λ x.
            terminal_matches to_lowercase
              (QueryRule.ends_with_case_insensitive needle)
              (terminal_segment index rows x))
  extension-Selects needle suffix asked plain =
      row_indices-Selects
        (λ x.
          terminal_matches to_lowercase (QueryRule.ends_with_case_insensitive needle)
            (terminal_segment index rows x))
        (option_rows (extension_postings index suffix)) (indexed.extension_sorted suffix)
        (λ x.
          indexed.extended suffix x
          ∙ extension_found needle suffix (terminal_segment index rows x) asked plain)
        (λ x beyond. rw (terminal_segment-none x beyond) refl)

  -- Looking a rule up in an index of rows ends without an error, with a valid selection of exactly
  -- the rows that the rule matches by the texts of their segments, through trigrams or extensions
  -- where there are such; provided that a suffix that is looked up among the extensions, one that
  -- starts with a dot, has no other dot.
  pub matching_row_indices_for_rule-Selects :
      (rule : QueryRule)
      → HasPlainSuffix (Rule.normalized_extension_suffix rule)
      → Selects
          (length rows)
          (matching_row_indices_for_rule to_lowercase index rule)
          (row_matches to_lowercase index rows rule)
  unfolding matching_row_indices_for_rule row_matches is_match_all matches_only_terminal_segment
      Rule.normalized_extension_suffix row_indices_by_suffix
  matching_row_indices_for_rule-Selects QueryRule.match_all plain =
      let counted : u32_try_from (row_count index) ≡ ok (length rows) =
        rw indexed.counted (ground (arith, indexed.few_rows)) in
      (Rows.match_all (length rows), rw counted refl, refl, λ x. refl)
  matching_row_indices_for_rule-Selects (QueryRule.prefix_case_insensitive needle) plain =
      segment_matching-Selects (QueryRule.prefix_case_insensitive needle)
  matching_row_indices_for_rule-Selects (QueryRule.contains_case_insensitive needle) plain =
      segment_matching-Selects (QueryRule.contains_case_insensitive needle)
  matching_row_indices_for_rule-Selects (QueryRule.equals_case_insensitive needle) plain =
      terminal_matching-Selects (QueryRule.equals_case_insensitive needle)
  matching_row_indices_for_rule-Selects (QueryRule.ends_with_case_insensitive needle) plain =
      elim (Bool-cases (asks needle)) [
        | inl asked ↦
            rw asked (extension-Selects needle (normalized_bytes needle) refl (rw asked at plain))
        | inr other ↦
            rw other (terminal_matching-Selects (QueryRule.ends_with_case_insensitive needle))
      ]
    where
      asks : QueryNeedle → Bool
      asks needle =
          Rule.starts_with_dot (normalized_bytes needle) && ltb 1 (length (normalized_bytes needle))
