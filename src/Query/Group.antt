-- ===== src/Query/Group.antt =====
-- src/query/query_group.rs and query_string.rs: groups of rules that are ANDed, and queries of
-- groups that are ORed. Texts are lists of bytes.
pub mod Candidates
use teamy_mft.Common.{
  ℕ, zero, suc, ◌+◌, ◌-◌, Bool, true, false, ◌&&◌, ◌||◌, not, Option, none, some, List, [], ◌∷◌,
  ◌++◌, ltb, leb, ◌==◌, map, if◌then◌else◌, length, get_elem?,
}
use teamy_mft.Common.Bytes.{Bytes}
use teamy_mft.Common.Result.{Result, ok, err, ◌>>=◌}
use teamy_mft.Common.Sorted.{sort, dedup}
use teamy_mft.Query.Needle.{any}
use teamy_mft.Query.Rows
use teamy_mft.Query.Rows.{MatchingRowIndices, intersect}
use teamy_mft.Query.Rule
use teamy_mft.Query.Rule.{
  QueryRule, is_match_all, matches, matches_preprocessed, matches_only_terminal_segment, from_str,
  RuleError,
}

pub record QueryGroup : Type 0 where
  pub rules : List QueryRule

pub record QueryString : Type 0 where
  pub groups : List QueryGroup

-- `iter.all(test)`
unfoldable pub all {ℓ} : {A : Type ℓ} → (A → Bool) → List A → Bool
all test [] = true
all test (x ∷ xs) = test x && all test xs

-- `path.split(['/', '\\'])`: the bytes up to a separator, and what the rest splits into.
unfoldable pub is_separator : ℕ → Bool
is_separator b = b == b'/' || b == 92

unfoldable pub split_from : Bytes → Bytes → List Bytes
unfolding is_separator
split_from piece [] = piece ∷ []
split_from piece (b ∷ path) =
    let rest = split_from [] path in
    let longer = split_from (piece ++ b ∷ []) path in
    if is_separator b then piece ∷ rest else longer

unfoldable pub non_empty : List Bytes → List Bytes
non_empty [] = []
non_empty ([] ∷ pieces) = non_empty pieces
non_empty ((b ∷ piece) ∷ pieces) = (b ∷ piece) ∷ non_empty pieces

unfoldable pub path_segments : Bytes → List Bytes
unfolding split_from non_empty
path_segments path = non_empty (split_from [] path)

unfoldable pub last {ℓ} : {A : Type ℓ} → List A → Option A
last [] = none
last (x ∷ []) = some x
last (x ∷ y ∷ xs) = last (y ∷ xs)

unfoldable pub terminal_path_segment : Bytes → Option Bytes
unfolding path_segments last
terminal_path_segment path = last (path_segments path)

unfoldable pub zip {ℓ κ} : {A : Type ℓ} {B : Type κ} → List A → List B → List (A × B)
zip [] ys = []
zip (x ∷ xs) [] = []
zip (x ∷ xs) (y ∷ ys) = (x, y) ∷ zip xs ys

module _ (to_lowercase : Bytes → Bytes) where
  -- A rule against a path, with its normalized form at hand or without.
  unfoldable pub terminal_matches : QueryRule → Option Bytes → Option (Option Bytes) → Bool
  terminal_matches rule none normalized = false
  terminal_matches rule (some segment) none = matches to_lowercase rule segment
  terminal_matches rule (some segment) (some none) = false
  terminal_matches rule (some segment) (some (some normalized)) =
      matches_preprocessed to_lowercase rule segment (some normalized)

  unfoldable pub rule_matches_path : QueryRule → Bytes → Option Bytes → Bool
  unfolding is_match_all matches_only_terminal_segment terminal_matches
  rule_matches_path rule haystack (some normalized) =
      if is_match_all rule
      then true
      else if matches_only_terminal_segment rule
      then terminal_matches rule (terminal_path_segment haystack)
          (some (terminal_path_segment normalized))
      else any (λ (segment, lower). matches_preprocessed to_lowercase rule segment (some lower))
          (zip (path_segments haystack) (path_segments normalized))
  rule_matches_path rule haystack none =
      if is_match_all rule
      then true
      else if matches_only_terminal_segment rule
      then terminal_matches rule (terminal_path_segment haystack) none
      else any (matches to_lowercase rule) (path_segments haystack)

  unfoldable pub group_matches_preprocessed : QueryGroup → Bytes → Option Bytes → Bool
  group_matches_preprocessed group haystack normalized =
      all (λ rule. rule_matches_path rule haystack normalized) group.rules

  -- `QueryString::matches_preprocessed`
  unfoldable pub matches_preprocessed_query : QueryString → Bytes → Option Bytes → Bool
  matches_preprocessed_query query haystack normalized =
      any (λ group. group_matches_preprocessed group haystack normalized) query.groups

  unfoldable pub segments_match : QueryRule → List (Bytes × Bytes) → Bool
  segments_match rule segments =
      if is_match_all rule
      then true
      else any (λ (segment, lower). matches_preprocessed to_lowercase rule segment (some lower))
          segments

  -- `QueryString::matches_segments_preprocessed` and the group's
  unfoldable pub matches_segments_preprocessed : QueryString → List (Bytes × Bytes) → Bool
  matches_segments_preprocessed query segments =
      any (λ group. all (λ rule. segments_match rule segments) group.rules) query.groups

module _ {E : Type 0} (row_indices_for_rule : QueryRule → Result E MatchingRowIndices) where
  -- The loop over the rules behind the first: it stops as soon as nothing is selected.
  unfoldable pub intersect_rules : List QueryRule → MatchingRowIndices → Result E MatchingRowIndices
  intersect_rules [] found = ok found
  intersect_rules (rule ∷ rules) found = row_indices_for_rule rule >>= λ rows.
      let narrowed = intersect found rows in
      let onward = intersect_rules rules narrowed in
      if Rows.is_empty narrowed then ok narrowed else onward

  unfoldable pub group_candidates : List QueryRule → Result E MatchingRowIndices
  unfolding intersect_rules
  group_candidates [] = ok (Rows.row_indices [])
  group_candidates (first ∷ remaining) =
      row_indices_for_rule first >>= λ found. intersect_rules remaining found

  -- The loop over the groups, with the rows collected so far. A group that selects every row
  -- ends it.
  unfoldable pub query_candidates_from : List QueryGroup → List ℕ → Result E MatchingRowIndices
  query_candidates_from [] found = ok (Rows.row_indices (dedup (sort found)))
  query_candidates_from (group ∷ groups) found = group_candidates group.rules >>= λ rows.
      elim rows [
        | Rows.match_all row_count ↦ ok (Rows.match_all row_count)
        | Rows.row_indices ids ↦ query_candidates_from groups (found ++ ids)
      ]

  unfoldable pub matching_row_index_candidates : QueryString → Result E MatchingRowIndices
  unfolding query_candidates_from group_candidates
  matching_row_index_candidates query = query_candidates_from query.groups []
