-- ===== src/Query/Lookup.antt =====
-- src/query/query_index_match.rs: the rows of one rule, from the tables of an index.
pub mod Scans
pub mod Trigrams
pub mod Suffixes
pub mod Rules
pub mod Answers
pub mod Paths
use teamy_mft.Common.{
  ℕ, zero, suc, ◌+◌, ◌^◌, Bool, true, false, ◌&&◌, not, Option, none, some, List, [], ◌∷◌, ◌++◌,
  ltb, ◌==◌, length, if◌then◌else◌,
}
use teamy_mft.Common.Bytes.{Bytes}
use teamy_mft.Common.Result.{Result, ok, err, ◌>>=◌}
use teamy_mft.Common.Sorted.{sort, dedup}
use teamy_mft.Index.{
  ParsedSearchIndex, IndexError, too_many, no_node, row_count, segment, postings,
  extension_postings, trigram_postings, node_segment,
}
use teamy_mft.Query.Rows
use teamy_mft.Query.Rows.{MatchingRowIndices, intersect_sorted_ids}
use teamy_mft.Query.Rule
use teamy_mft.Query.Rule.{
  QueryRule, is_match_all, matches_only_terminal_segment, matches_normalized,
  normalized_contains_trigrams,
}

-- `u32::try_from`
abbrev pub u32_try_from : ℕ → Result IndexError ℕ
u32_try_from n = if ltb n (2 ^ 32) then ok n else err too_many

-- `for (number, item) in items.enumerate()`, which skips an item that fails the test and pushes the
-- number of each other one, from number `number` on.
unfoldable pub scan_from : {A : Type 0} → (A → Bool) → ℕ → List A → Result IndexError (List ℕ)
scan_from test number [] = ok []
scan_from test number (item ∷ items) =
    let rest = scan_from test (number + 1) items in
    if test item then (u32_try_from number >>= λ id. rest >>= λ ids. ok (id ∷ ids)) else rest

-- The candidates after one more trigram.
unfoldable pub narrow : Option (List ℕ) → List ℕ → List ℕ
narrow none ids = ids
narrow (some existing) ids = intersect_sorted_ids existing ids

abbrev pub unwrap_or_default : Option (List ℕ) → List ℕ
unwrap_or_default none = []
unwrap_or_default (some ids) = ids

abbrev pub option_rows : Option (List ℕ) → List ℕ
option_rows none = []
option_rows (some ids) = ids

-- What a trigram's postings do to the candidates; the rest of the loop is `rest`. Without
-- candidates the loop returns.
unfoldable pub narrow_with : Option (List ℕ) → Option (List ℕ) → (List ℕ → List ℕ) → List ℕ
unfolding narrow
narrow_with candidates none rest = []
narrow_with candidates (some ids) rest =
    let narrowed = narrow candidates (dedup (sort ids)) in
    if length narrowed == 0 then [] else rest narrowed

-- The loop over the trigrams.
unfoldable pub trigram_candidates : ParsedSearchIndex → List Bytes → Option (List ℕ) → List ℕ
unfolding narrow_with
trigram_candidates index [] candidates = unwrap_or_default candidates
trigram_candidates index (trigram ∷ trigrams) candidates =
    narrow_with candidates (trigram_postings index trigram)
      (λ narrowed. trigram_candidates index trigrams (some narrowed))

-- The rows of the segments, one after the other.
unfoldable pub collect_postings : ParsedSearchIndex → List ℕ → Result IndexError (List ℕ)
collect_postings index [] = ok []
collect_postings index (segment_id ∷ segment_ids) =
    let rest = collect_postings index segment_ids in
    postings index segment_id >>= λ rows. rest >>= λ more. ok (rows ++ more)

module _ (to_lowercase : Bytes → Bytes) where
  -- The filter over the candidates.
  unfoldable pub filter_candidates :
      ParsedSearchIndex → QueryRule → List ℕ → Result IndexError (List ℕ)
  filter_candidates index rule [] = ok []
  filter_candidates index rule (segment_id ∷ candidates) =
      let rest = filter_candidates index rule candidates in
      segment index segment_id >>= λ normalized. rest >>= λ ids.
      ok (if matches_normalized to_lowercase rule normalized then segment_id ∷ ids else ids)

  -- The loop over all segments.
  unfoldable pub scan_segments : ParsedSearchIndex → QueryRule → Result IndexError (List ℕ)
  scan_segments index rule = scan_from (matches_normalized to_lowercase rule) 0 index.segments

  unfoldable pub segment_ids_from :
      ParsedSearchIndex → QueryRule → Option (List Bytes) → Result IndexError (List ℕ)
  unfolding filter_candidates scan_segments trigram_candidates
  segment_ids_from index rule (some trigrams) =
      filter_candidates index rule (trigram_candidates index trigrams none)
  segment_ids_from index rule none = scan_segments index rule

  unfoldable pub matching_segment_ids_for_rule :
      ParsedSearchIndex → QueryRule → Result IndexError (List ℕ)
  unfolding segment_ids_from
  matching_segment_ids_for_rule index rule =
      segment_ids_from index rule (normalized_contains_trigrams rule)

  abbrev pub terminal_matches : QueryRule → Option Bytes → Bool
  terminal_matches rule none = false
  terminal_matches rule (some normalized) = matches_normalized to_lowercase rule normalized

  -- The loop over the rows.
  unfoldable pub scan_terminals : ParsedSearchIndex → QueryRule → Result IndexError (List ℕ)
  scan_terminals index rule =
      scan_from (λ (terminal : ℕ × Bool). terminal_matches rule (node_segment index terminal.0)) 0
        index.terminals

  unfoldable pub terminal_matching_row_indices_for_rule :
      ParsedSearchIndex → QueryRule → Result IndexError MatchingRowIndices
  unfolding scan_terminals
  terminal_matching_row_indices_for_rule index rule =
      scan_terminals index rule >>= λ rows. ok (Rows.row_indices rows)

  unfoldable pub segment_matching_row_indices :
      ParsedSearchIndex → QueryRule → Result IndexError MatchingRowIndices
  unfolding matching_segment_ids_for_rule collect_postings
  segment_matching_row_indices index rule =
      matching_segment_ids_for_rule index rule >>= collect_postings index >>= λ rows.
      ok (Rows.row_indices (dedup (sort rows)))

  -- By the extension suffix that the rule asks for.
  unfoldable pub row_indices_by_suffix :
      ParsedSearchIndex → QueryRule → Option Bytes → Result IndexError MatchingRowIndices
  unfolding terminal_matching_row_indices_for_rule segment_matching_row_indices
  row_indices_by_suffix index rule (some suffix) =
      ok (Rows.row_indices (option_rows (extension_postings index suffix)))
  row_indices_by_suffix index rule none =
      if matches_only_terminal_segment rule
      then terminal_matching_row_indices_for_rule index rule
      else segment_matching_row_indices index rule

  unfoldable pub matching_row_indices_for_rule :
      ParsedSearchIndex → QueryRule → Result IndexError MatchingRowIndices
  unfolding row_indices_by_suffix
  matching_row_indices_for_rule index rule =
      if is_match_all rule
      then (u32_try_from (row_count index) >>= λ n. ok (Rows.match_all n))
      else row_indices_by_suffix index rule (Rule.normalized_extension_suffix rule)
