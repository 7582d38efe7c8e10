-- ===== src/Index.antt =====
-- src/search_index/search_index_bytes.rs: the tables of a parsed search index, and the lookups in
-- them. A table is the list of its entries as they are read from the bytes; the layout of the bytes
-- is left out. Texts are lists of bytes.
pub mod Rows
pub mod Build
use teamy_mft.Common.{
  ℕ, zero, suc, ◌+◌, Bool, true, false, Option, none, some, List, [], ◌∷◌, ltb, ◌==◌, length,
  get_elem?, if◌then◌else◌, and_then,
}
use teamy_mft.Common.Bytes.{Bytes}
use teamy_mft.Common.Dict.{Dict, string_eq, get}
use teamy_mft.Common.Result.{Result, ok, err}

-- `NO_PARENT_NODE` is `none`.
pub record SearchIndexNodeRecord : Type 0 where
  pub segment_id : ℕ
  pub parent_node_index : Option ℕ

-- The segments by their normalized texts; the row numbers of each segment; those of each extension
-- suffix; the segment numbers of each trigram; the nodes; and each row's terminal node with its
-- flag. The keys of the two dictionaries are sorted in the bytes, for a binary search.
pub record ParsedSearchIndex : Type 0 where
  pub segments : List Bytes
  pub posting_rows : List (List ℕ)
  pub extension_rows : Dict Bytes (List ℕ)
  pub trigram_segments : Dict Bytes (List ℕ)
  pub path_nodes : List SearchIndexNodeRecord
  pub terminals : List (ℕ × Bool)

pub data IndexError : Type 0 where
  no_segment no_row no_node too_many empty_path : IndexError

abbrev pub row_count : ParsedSearchIndex → ℕ
row_count index = length index.terminals

abbrev pub found_or : {A : Type 0} → Option A → IndexError → Result IndexError A
found_or none e = err e
found_or (some a) e = ok a

unfoldable pub segment : ParsedSearchIndex → ℕ → Result IndexError Bytes
segment index segment_id = found_or (get_elem? index.segments segment_id) no_segment

unfoldable pub postings : ParsedSearchIndex → ℕ → Result IndexError (List ℕ)
postings index segment_id = found_or (get_elem? index.posting_rows segment_id) no_segment

-- `none` is a suffix that no row has.
unfoldable pub extension_postings : ParsedSearchIndex → Bytes → Option (List ℕ)
extension_postings index suffix = get suffix index.extension_rows

unfoldable pub trigram_postings : ParsedSearchIndex → Bytes → Option (List ℕ)
trigram_postings index trigram = get trigram index.trigram_segments

-- `segment_views().next()` of a row: the segment of its terminal node; `none` is a read out of
-- bounds, which a validated index does not have.
unfoldable pub node_segment : ParsedSearchIndex → ℕ → Option Bytes
node_segment index node_index =
    and_then (get_elem? index.path_nodes node_index)
      (λ node. get_elem? index.segments node.segment_id)

-- The part of a segment from its last dot on.
unfoldable pub from_last_dot : Bytes → Option Bytes
from_last_dot [] = none
from_last_dot (b ∷ bytes) = elim (from_last_dot bytes) [
  | some suffix ↦ some suffix
  | none ↦ if b == b'.' then some (b ∷ bytes) else none
]

abbrev pub longer_than_dot : Bytes → Option Bytes
longer_than_dot suffix = if ltb 1 (length suffix) then some suffix else none

unfoldable pub normalized_extension_suffix : Bytes → Option Bytes
unfolding from_last_dot
normalized_extension_suffix segment = and_then (from_last_dot segment) longer_than_dot
