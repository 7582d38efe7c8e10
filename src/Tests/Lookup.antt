-- ===== src/Tests/Lookup.antt =====
-- src/query/query_index_match.rs, src/search_index/search_index_bytes.rs: an index of a folder `d` with a file `x.y`, which is in the root
-- too.
use teamy_mft.Common.{
  ℕ, zero, suc, ◌≡◌, ◌<◌, refl, Bool, true, false, Option, none, some, List, [], ◌∷◌, arith, length,
  get_elem?, ltb, ◌&&◌, and_then, map,
}
use teamy_mft.Common.Bytes.{Bytes}
use teamy_mft.Common.Dict.{get, entry, string_eq}
use teamy_mft.Common.Sorted.{contains, IsSorted, sort, dedup}
use teamy_mft.Common.Text.{codes}
use teamy_mft.Index.{
  ParsedSearchIndex, SearchIndexNodeRecord, node_segment, extension_postings, trigram_postings,
  normalized_extension_suffix, from_last_dot,
}
use teamy_mft.Index.Rows.{IsIndexOf, row_segments, terminal_segment, segment_text}
use teamy_mft.Index.Build.{PathRow, collect_search_index_tables}
use teamy_mft.Index.Build.Collected.{row_texts, path_texts, collect_search_index_tables-IsIndexOf}
use teamy_mft.Common.Result.{ok}
use teamy_mft.Query.Group.{last, path_segments}
use teamy_mft.Query.Group.Candidates.{Selects}
use teamy_mft.Texts.{sort_by, dedup_texts}
use teamy_mft.Query.Needle.{ascii_lower, str_contains, str_starts_with, normalized_bytes, windows}
use teamy_mft.Query.Rule
use teamy_mft.Query.Rule.{QueryRule}
use teamy_mft.Query.Lookup.{option_rows, matching_row_indices_for_rule}
use teamy_mft.Query.Lookup.Paths.{
  path_matches, matching_row_indices_for_rule-collect_search_index_tables,
}
use teamy_mft.Query.Lookup.Suffixes.{extension_is}
use teamy_mft.Query.Lookup.Answers.{
  row_matches, HasPlainSuffix, matching_row_indices_for_rule-Selects,
}

abbrev file : Bytes
file = codes "x.y"

abbrev rows : List (List ℕ)
rows = (1 ∷ 0 ∷ []) ∷ (0 ∷ []) ∷ []

abbrev node : ℕ → Option ℕ → SearchIndexNodeRecord
node segment parent = record { segment_id = segment; parent_node_index = parent }

abbrev index : ParsedSearchIndex
index = record {
  segments = file ∷ codes "d" ∷ [];
  posting_rows = (0 ∷ 1 ∷ []) ∷ (0 ∷ []) ∷ [];
  extension_rows = (codes ".y", 0 ∷ 1 ∷ []) ∷ [];
  trigram_segments = (file, 0 ∷ []) ∷ [];
  path_nodes = node 1 none ∷ node 0 (some 0) ∷ node 0 none ∷ [];
  terminals = (1, false) ∷ (2, false) ∷ [];
}

index-known : (x id : ℕ) → contains (row_segments rows x) id ≡ true → id < 2
index-known zero id h = ground arith
index-known (suc zero) id h = ground arith
index-known (suc (suc x)) id h = cc

index-posted :
    (id : ℕ)
    → id < 2
    → (ids : List ℕ) × (get_elem? index.posting_rows id ≡ some ids)
      × ((x : ℕ) → contains ids x ≡ contains (row_segments rows x) id)
index-posted zero h = (0 ∷ 1 ∷ [], refl, first)
  where
    first : (x : ℕ) → contains (0 ∷ 1 ∷ []) x ≡ contains (row_segments rows x) 0
    first zero = refl
    first (suc zero) = refl
    first (suc (suc x)) = ground arith
index-posted (suc zero) h = (0 ∷ [], refl, second)
  where
    second : (x : ℕ) → contains (0 ∷ []) x ≡ contains (row_segments rows x) 1
    second zero = refl
    second (suc zero) = refl
    second (suc (suc x)) = ground arith
index-posted (suc (suc id)) h = absurd (omega arith)

index-terminal :
    (x : ℕ) (entry : ℕ × Bool)
    → get_elem? index.terminals x ≡ some entry
    → node_segment index entry.0 ≡ terminal_segment index rows x
unfolding node_segment last
index-terminal zero entry h = ground (arith, h)
index-terminal (suc zero) entry h = ground (arith, h)
index-terminal (suc (suc x)) entry h = cc

index-extension-IsSorted :
    (suffix : Bytes) → IsSorted (option_rows (extension_postings index suffix))
unfolding extension_postings get
index-extension-IsSorted suffix = ground arith

index-extended :
    (suffix : Bytes) (x : ℕ)
    → contains (option_rows (extension_postings index suffix)) x
      ≡ extension_is suffix (and_then (terminal_segment index rows x) normalized_extension_suffix)
unfolding extension_postings get last normalized_extension_suffix from_last_dot
index-extended suffix zero = ground arith
index-extended suffix (suc zero) = ground arith
index-extended suffix (suc (suc x)) = ground arith

index-trigrams :
    (trigram : Bytes) (id : ℕ)
    → length trigram ≡ 3
    → contains (option_rows (trigram_postings index trigram)) id
      ≡ (ltb id 2 && str_contains (segment_text (get_elem? index.segments id)) trigram)
unfolding trigram_postings get str_contains str_starts_with
index-trigrams (a ∷ b ∷ c ∷ []) zero h = ground arith
index-trigrams (a ∷ b ∷ c ∷ []) (suc zero) h = ground arith
index-trigrams (a ∷ b ∷ c ∷ []) (suc (suc id)) h = ground arith
index-trigrams [] id h = absurd (omega arith)
index-trigrams (a ∷ []) id h = absurd (omega arith)
index-trigrams (a ∷ b ∷ []) id h = absurd (omega arith)
index-trigrams (a ∷ b ∷ c ∷ d ∷ t) id h = absurd (omega arith)

index-IsIndexOf : IsIndexOf rows index
index-IsIndexOf = record {
  counted = refl;
  few_rows = omega arith;
  few_segments = omega arith;
  known = index-known;
  posted = index-posted;
  terminal = index-terminal;
  extension_sorted = index-extension-IsSorted;
  extended = index-extended;
  trigrams_posted = index-trigrams;
}

abbrev suffix_rule : QueryRule
suffix_rule = QueryRule.ends_with_case_insensitive (ascii_lower (codes ".y"))

suffix_rule-HasPlainSuffix : HasPlainSuffix (Rule.normalized_extension_suffix suffix_rule)
unfolding Rule.normalized_extension_suffix normalized_bytes Rule.starts_with_dot
suffix_rule-HasPlainSuffix = (refl, refl, omega arith)

matching_row_indices_for_rule-Selects_example :
    Selects 2
      (matching_row_indices_for_rule (λ text. text) index suffix_rule)
      (row_matches (λ text. text) index rows suffix_rule)
matching_row_indices_for_rule-Selects_example =
    matching_row_indices_for_rule-Selects (λ text. text) index rows index-IsIndexOf suffix_rule
      suffix_rule-HasPlainSuffix

-- The same index, built from the two paths.
abbrev path_rows : List PathRow
path_rows =
    record { path = codes "d\\x.y"; has_deleted_entries = false }
    ∷ record { path = codes "x.y"; has_deleted_entries = true }
    ∷ []

abbrev built : ParsedSearchIndex
built = record {
  segments = codes "d" ∷ file ∷ [];
  posting_rows = (0 ∷ []) ∷ (0 ∷ 1 ∷ []) ∷ [];
  extension_rows = (codes ".y", 0 ∷ 1 ∷ []) ∷ [];
  trigram_segments = (file, 1 ∷ []) ∷ [];
  path_nodes = node 0 none ∷ node 1 (some 0) ∷ node 1 none ∷ [];
  terminals = (1, false) ∷ (2, true) ∷ [];
}

path_rows_collected : collect_search_index_tables (λ text. text) path_rows ≡ ok built
unfolding collect_search_index_tables get path_segments entry dedup last dedup_texts sort
    normalized_extension_suffix sort_by windows
path_rows_collected = refl

collect_search_index_tables-IsIndexOf_example :
    (numbers : List (List ℕ)) × IsIndexOf numbers built
    × (row_texts built numbers ≡ map (path_texts (λ text. text)) path_rows)
    × (map (λ e. e.1) built.terminals ≡ map (λ r. r.has_deleted_entries) path_rows)
collect_search_index_tables-IsIndexOf_example =
    collect_search_index_tables-IsIndexOf (λ text. text) path_rows built (omega arith)
      path_rows_collected

matching_row_indices_for_rule-collect_search_index_tables_example :
    Selects 2
      (matching_row_indices_for_rule (λ text. text) built suffix_rule)
      (λ x. path_matches (λ text. text) suffix_rule (get_elem? path_rows x))
matching_row_indices_for_rule-collect_search_index_tables_example =
    matching_row_indices_for_rule-collect_search_index_tables (λ text. text) path_rows built
      suffix_rule (omega arith) path_rows_collected suffix_rule-HasPlainSuffix
