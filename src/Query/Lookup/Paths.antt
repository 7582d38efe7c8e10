-- ===== src/Query/Lookup/Paths.antt =====
-- The rows of a rule in an index that is built from paths are the paths that the rule matches.
use teamy_mft.Common.{
  ℕ, zero, suc, ◌^◌, ◌<◌, ◌≡◌, refl, ap, ◌∙◌, Bool, false, ◌||◌, Option, none, some, List, [], ◌∷◌,
  map, length, get_elem?, ltb, and_then, arith, if◌then◌else◌,
}
use teamy_mft.Common.Bytes.{Bytes}
use teamy_mft.Common.Result.{ok}
use teamy_mft.Index.{ParsedSearchIndex}
use teamy_mft.Index.Build.{PathRow, collect_search_index_tables}
use teamy_mft.Index.Build.Collected.{row_texts, path_texts, collect_search_index_tables-IsIndexOf}
use teamy_mft.Query.Needle.{any}
use teamy_mft.Query.Group.{last, path_segments}
use teamy_mft.Query.Group.Candidates.{Selects}
use teamy_mft.Query.Rule
use teamy_mft.Query.Rule.{
  QueryRule, is_match_all, matches_only_terminal_segment, matches_normalized,
}
use teamy_mft.Query.Lookup.{terminal_matches, matching_row_indices_for_rule}
use teamy_mft.Query.Lookup.Scans.{segment_matches}
use teamy_mft.Query.Lookup.Answers.{
  row_matches, HasPlainSuffix, matching_row_indices_for_rule-Selects,
}

module _ (to_lowercase : Bytes → Bytes) where
  -- A rule against the segments of a path, in lower case: all paths match the rule for all, the
  -- last segment decides for a rule on it, and any segment for the others.
  abbrev pub segments_match : QueryRule → List Bytes → Bool
  segments_match rule texts =
      is_match_all rule
      || (if matches_only_terminal_segment rule
          then terminal_matches to_lowercase rule (last texts)
          else any (matches_normalized to_lowercase rule) texts)

  abbrev pub path_matches : QueryRule → Option PathRow → Bool
  path_matches rule none = false
  path_matches rule (some row) = segments_match rule (map to_lowercase (path_segments row.path))

  module _ (index : ParsedSearchIndex) (rule : QueryRule) where
    any-line :
        (ids : List ℕ) (segments : List Bytes)
        → map (get_elem? index.segments) ids ≡ map (λ s. some (to_lowercase s)) segments
        → any (segment_matches to_lowercase index rule) ids
          ≡ any (matches_normalized to_lowercase rule) (map to_lowercase segments)
    unfolding any
    any-line [] [] h = refl
    any-line [] (s ∷ segments) h = cc
    any-line (id ∷ ids) [] h = cc
    any-line (id ∷ ids) (s ∷ segments) h =
        let first : get_elem? index.segments id ≡ some (to_lowercase s) = cc in
        rw (first, any-line ids segments (cc)) refl

    last-line :
        (ids : List ℕ) (segments : List Bytes)
        → map (get_elem? index.segments) ids ≡ map (λ s. some (to_lowercase s)) segments
        → and_then (last ids) (λ id. get_elem? index.segments id) ≡ last (map to_lowercase segments)
    unfolding last
    last-line [] [] h = refl
    last-line [] (s ∷ segments) h = cc
    last-line (id ∷ ids) [] h = cc
    last-line (id ∷ []) (s ∷ []) h = cc
    last-line (id ∷ []) (s ∷ r ∷ segments) h = cc
    last-line (id ∷ j ∷ ids) (s ∷ []) h = cc
    last-line (id ∷ j ∷ ids) (s ∷ r ∷ segments) h = last-line (j ∷ ids) (r ∷ segments) (cc)

    row_matches-path_matches :
        (numbers : List (List ℕ)) (rows : List PathRow) (x : ℕ)
        → row_texts index numbers ≡ map (path_texts to_lowercase) rows
        → row_matches to_lowercase index numbers rule x ≡ path_matches rule (get_elem? rows x)
    unfolding row_matches any last
    row_matches-path_matches [] [] x h = ground arith
    row_matches-path_matches [] (row ∷ rows) x h = cc
    row_matches-path_matches (ids ∷ numbers) [] x h = cc
    row_matches-path_matches (ids ∷ numbers) (row ∷ rows) zero h =
        let line : map (get_elem? index.segments) ids ≡ path_texts to_lowercase row = cc in
        rw (any-line ids (path_segments row.path) line, last-line ids (path_segments row.path) line)
          (ground arith)
    row_matches-path_matches (ids ∷ numbers) (row ∷ rows) (suc x) h =
        let same : ltb (suc x) (suc (length numbers)) ≡ ltb x (length numbers) = ground arith in
        rw same (row_matches-path_matches numbers rows x (cc))

row_texts-length :
    (to_lowercase : Bytes → Bytes) (index : ParsedSearchIndex) (numbers : List (List ℕ))
    (rows : List PathRow)
    → row_texts index numbers ≡ map (path_texts to_lowercase) rows
    → length numbers ≡ length rows
row_texts-length to_lowercase index [] [] h = refl
row_texts-length to_lowercase index [] (row ∷ rows) h = cc
row_texts-length to_lowercase index (ids ∷ numbers) [] h = cc
row_texts-length to_lowercase index (ids ∷ numbers) (row ∷ rows) h =
    ap suc (row_texts-length to_lowercase index numbers rows (cc))

-- Where there are fewer than 2 ^ 32 rows, their tables are collected without an error, and a rule's
-- suffix that is looked up among the extensions has one dot only, looking the rule up in the tables
-- ends without an error, with a valid selection of exactly the rows whose paths the rule matches by
-- their segments in lower case.
pub matching_row_indices_for_rule-collect_search_index_tables :
    (to_lowercase : Bytes → Bytes) (rows : List PathRow) (index : ParsedSearchIndex)
    (rule : QueryRule)
    → length rows < 2 ^ 32
    → collect_search_index_tables to_lowercase rows ≡ ok index
    → HasPlainSuffix (Rule.normalized_extension_suffix rule)
    → Selects
        (length rows)
        (matching_row_indices_for_rule to_lowercase index rule)
        (λ x. path_matches to_lowercase rule (get_elem? rows x))
matching_row_indices_for_rule-collect_search_index_tables to_lowercase rows index rule few h plain =
    let (numbers, indexed, texts, flags) =
      collect_search_index_tables-IsIndexOf to_lowercase rows index few h in
    let count = row_texts-length to_lowercase index numbers rows texts in
    let (found, e, valid, selected) =
      matching_row_indices_for_rule-Selects to_lowercase index numbers indexed rule plain in
    (
      found,
      e,
      rw (← count) valid,
      λ x. selected x ∙ row_matches-path_matches to_lowercase index rule numbers rows x texts,
    )
