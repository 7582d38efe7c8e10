-- ===== src/Index/Rows.antt =====
-- What an index says of the rows that it was built from: the contract between the code that
-- serializes an index and the code that looks rows up in it. A row is the list of the numbers of
-- its segments, from the root on.
use teamy_mft.Common.{
  ℕ, ◌^◌, ◌<◌, ◌≤◌, ◌≡◌, Bool, true, ◌&&◌, Option, none, some, List, [], length, ltb, get_elem?,
  get_or, and_then,
}
use teamy_mft.Common.Bytes.{Bytes}
use teamy_mft.Common.Sorted.{contains, IsSorted}
use teamy_mft.Query.Needle.{str_contains}
use teamy_mft.Query.Group.{last}
use teamy_mft.Query.Lookup.{option_rows}
use teamy_mft.Query.Lookup.Suffixes.{extension_is}
use teamy_mft.Index.{
  ParsedSearchIndex, node_segment, extension_postings, trigram_postings,
  normalized_extension_suffix,
}

-- The numbers of a row's segments; none where there is no such row.
abbrev pub row_segments : List (List ℕ) → ℕ → List ℕ
row_segments rows x = get_or rows x []

-- The text of a row's last segment.
abbrev pub terminal_segment : ParsedSearchIndex → List (List ℕ) → ℕ → Option Bytes
terminal_segment index rows x =
    and_then (last (row_segments rows x)) (λ id. get_elem? index.segments id)

abbrev pub segment_text : Option Bytes → Bytes
segment_text none = []
segment_text (some text) = text

pub record IsIndexOf (rows : List (List ℕ)) (index : ParsedSearchIndex) : Type 0 where
  pub counted : length index.terminals ≡ length rows
  pub few_rows : length rows < 2 ^ 32
  pub few_segments : length index.segments ≤ 2 ^ 32
  pub known : (x id : ℕ) → contains (row_segments rows x) id ≡ true → id < length index.segments
  -- Each segment's rows.
  pub posted :
      (id : ℕ)
      → id < length index.segments
      → (ids : List ℕ) × (get_elem? index.posting_rows id ≡ some ids)
        × ((x : ℕ) → contains ids x ≡ contains (row_segments rows x) id)
  -- Each row's terminal node.
  pub terminal :
      (x : ℕ) (entry : ℕ × Bool)
      → get_elem? index.terminals x ≡ some entry
      → node_segment index entry.0 ≡ terminal_segment index rows x
  -- Each extension's rows, in order.
  pub extension_sorted : (suffix : Bytes) → IsSorted (option_rows (extension_postings index suffix))
  pub extended :
      (suffix : Bytes) (x : ℕ)
      → contains (option_rows (extension_postings index suffix)) x
        ≡ extension_is suffix (and_then (terminal_segment index rows x) normalized_extension_suffix)
  -- Each trigram's segments.
  pub trigrams_posted :
      (trigram : Bytes) (id : ℕ)
      → length trigram ≡ 3
      → contains (option_rows (trigram_postings index trigram)) id ≡ (
          ltb id (length index.segments)
          && str_contains (segment_text (get_elem? index.segments id)) trigram)
