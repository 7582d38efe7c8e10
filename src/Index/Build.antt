-- ===== src/Index/Build.antt =====
-- src/search_index/search_index_bytes.rs: the tables of an index, from its rows. The trie over the
-- segments is left out. A `BTreeMap` is the list of its entries, which are written in the order of
-- their keys.
pub mod Tables
pub mod Segments
pub mod Lines
pub mod Trigrams
pub mod Finish
pub mod Loop
pub mod Collected
use teamy_mft.Common.{
  ℕ, zero, suc, ◌+◌, ◌^◌, Bool, true, false, Option, none, some, List, [], ◌∷◌, ◌++◌, map, length,
  get_elem?, get_or, set, and_then, ◌==◌, if◌then◌else◌,
}
use teamy_mft.Common.Bytes.{Bytes}
use teamy_mft.Common.Dict.{Dict, string_eq, get, entry}
use teamy_mft.Common.Result.{Result, ok, err, ◌>>=◌}
use teamy_mft.Common.Sorted.{sort, dedup}
use teamy_mft.Texts.{sort_by, dedup_texts, itself}
use teamy_mft.Query.Needle.{windows}
use teamy_mft.Query.Group.{path_segments, last}
use teamy_mft.Query.Lookup.{u32_try_from, option_rows}
use teamy_mft.Index.{
  SearchIndexNodeRecord, ParsedSearchIndex, IndexError, empty_path, normalized_extension_suffix,
}

-- `SearchIndexPathRow`, with its path as bytes.
pub record PathRow : Type 0 where
  pub path : Bytes
  pub has_deleted_entries : Bool

-- A segment's entry has its text and its normalized text.
pub record SearchIndexSerializationTables : Type 0 where
  pub segment_ids_by_display : Dict Bytes ℕ
  pub segment_entries : List (Bytes × Bytes)
  pub postings_by_segment : List (List ℕ)
  pub extension_postings_by_suffix : Dict Bytes (List ℕ)
  pub trigram_postings_by_trigram : Dict Bytes (List ℕ)
  pub path_nodes : List SearchIndexNodeRecord
  pub terminals : List (ℕ × Bool)

abbrev pub no_tables : SearchIndexSerializationTables
no_tables = record {
  segment_ids_by_display = [];
  segment_entries = [];
  postings_by_segment = [];
  extension_postings_by_suffix = [];
  trigram_postings_by_trigram = [];
  path_nodes = [];
  terminals = [];
}

unfoldable pub text_trigrams : Bytes → List Bytes
text_trigrams normalized = dedup_texts (sort_by itself (windows 3 normalized))

-- `entry(key).or_default().push(number)`
unfoldable pub push_posting : Bytes → ℕ → Dict Bytes (List ℕ) → Dict Bytes (List ℕ)
push_posting key number = entry key (λ old. option_rows old ++ number ∷ [])

unfoldable pub push_trigrams : ℕ → List Bytes → Dict Bytes (List ℕ) → Dict Bytes (List ℕ)
unfolding push_posting
push_trigrams segment_id [] postings = postings
push_trigrams segment_id (trigram ∷ trigrams) postings =
    push_trigrams segment_id trigrams (push_posting trigram segment_id postings)

-- `postings_by_segment[id].push(row_index)` for each number.
unfoldable pub post_row : ℕ → List ℕ → List (List ℕ) → List (List ℕ)
post_row row_index [] postings = postings
post_row row_index (id ∷ ids) postings =
    post_row row_index ids (set postings id (get_or postings id [] ++ row_index ∷ []))

-- The suffix of the last segment, if it has one, gets the row.
unfoldable pub post_extension : ℕ → Option Bytes → Dict Bytes (List ℕ) → Dict Bytes (List ℕ)
unfolding push_posting
post_extension row_index none postings = postings
post_extension row_index (some suffix) postings = push_posting suffix row_index postings

-- The normalized text of a segment's entry.
abbrev pub entry_text : List (Bytes × Bytes) → ℕ → Option Bytes
entry_text entries id = and_then (get_elem? entries id) (λ e. some e.1)

abbrev pub terminal_suffix : List (Bytes × Bytes) → List ℕ → Option Bytes
terminal_suffix entries ids =
    and_then (and_then (last ids) (entry_text entries)) normalized_extension_suffix

-- What a row adds behind its segments: its postings, its extension and its terminal node.
unfoldable pub finish_row :
    ℕ
    → Bool
    → SearchIndexSerializationTables × Option ℕ × List ℕ
    → Result IndexError SearchIndexSerializationTables
unfolding post_row post_extension
finish_row row_index has_deleted_entries (t, none, ids) = err empty_path
finish_row row_index has_deleted_entries (t, some node, ids) = ok (record t {
  postings_by_segment = post_row row_index (dedup (sort ids)) t.postings_by_segment;
  extension_postings_by_suffix =
      post_extension row_index (terminal_suffix t.segment_entries ids)
        t.extension_postings_by_suffix;
  terminals = t.terminals ++ (node, has_deleted_entries) ∷ [];
})

-- The number of a node as a parent; `u32::MAX` is `NO_PARENT_NODE`.
abbrev pub node_reference : ℕ → Option ℕ
node_reference node_index = if node_index == 4294967295 then none else some node_index

module _ (to_lowercase : Bytes → Bytes) where
  abbrev pub with_segment :
      Bytes → ℕ → SearchIndexSerializationTables → SearchIndexSerializationTables
  with_segment segment segment_id t = record t {
    segment_ids_by_display = entry segment (λ _. segment_id) t.segment_ids_by_display;
    segment_entries = t.segment_entries ++ (segment, to_lowercase segment) ∷ [];
    postings_by_segment = t.postings_by_segment ++ [] ∷ [];
    trigram_postings_by_trigram =
        push_trigrams segment_id (text_trigrams (to_lowercase segment))
          t.trigram_postings_by_trigram;
  }

  -- The number of a segment, by the number that it has already.
  unfoldable pub add_segment :
      Bytes
      → Option ℕ
      → SearchIndexSerializationTables
      → Result IndexError (SearchIndexSerializationTables × ℕ)
  unfolding push_trigrams text_trigrams
  add_segment segment (some existing_id) t = ok (t, existing_id)
  add_segment segment none t = u32_try_from (length t.segment_entries) >>= λ segment_id.
      ok (with_segment segment segment_id t, segment_id)

  abbrev pub with_node :
      ℕ → Option ℕ → SearchIndexSerializationTables → SearchIndexSerializationTables
  with_node segment_id parent t = record t {
    path_nodes =
        t.path_nodes ++ record { segment_id = segment_id; parent_node_index = parent } ∷ [];
  }

  -- The loop over a path's segments: the tables, the last node, and the numbers in order.
  unfoldable pub add_segments :
      List Bytes
      → SearchIndexSerializationTables
      → Option ℕ
      → List ℕ
      → Result IndexError (SearchIndexSerializationTables × Option ℕ × List ℕ)
  unfolding add_segment
  add_segments [] t parent row_segment_ids = ok (t, parent, row_segment_ids)
  add_segments (segment ∷ segments) t parent row_segment_ids =
      add_segment segment (get segment t.segment_ids_by_display) t >>= λ r.
      u32_try_from (length r.0.path_nodes) >>= λ node_index.
      add_segments segments (with_node r.1 parent r.0) (node_reference node_index)
        (row_segment_ids ++ r.1 ∷ [])

  unfoldable pub add_row :
      PathRow → SearchIndexSerializationTables → Result IndexError SearchIndexSerializationTables
  unfolding add_segments finish_row
  add_row row t = u32_try_from (length t.terminals) >>= λ row_index.
      add_segments (path_segments row.path) t none []
      >>= finish_row row_index row.has_deleted_entries

  -- The loop over the rows.
  unfoldable pub add_rows :
      List PathRow
      → SearchIndexSerializationTables
      → Result IndexError SearchIndexSerializationTables
  unfolding add_row
  add_rows [] t = ok t
  add_rows (row ∷ rows) t = add_row row t >>= add_rows rows

abbrev pub sorted_rows : Bytes × List ℕ → Bytes × List ℕ
sorted_rows (suffix, row_ids) = (suffix, dedup (sort row_ids))

-- The tables as they are read again.
unfoldable pub parsed : SearchIndexSerializationTables → ParsedSearchIndex
parsed t = record {
  segments = map (λ e. e.1) t.segment_entries;
  posting_rows = t.postings_by_segment;
  extension_rows = map sorted_rows t.extension_postings_by_suffix;
  trigram_segments = t.trigram_postings_by_trigram;
  path_nodes = t.path_nodes;
  terminals = t.terminals;
}

unfoldable pub collect_search_index_tables :
    (Bytes → Bytes) → List PathRow → Result IndexError ParsedSearchIndex
unfolding add_rows parsed
collect_search_index_tables to_lowercase rows =
    add_rows to_lowercase rows no_tables >>= λ t. ok (parsed t)
