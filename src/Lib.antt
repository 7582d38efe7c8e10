-- ===== src/Lib.antt =====
-- The core of teamy-mft, a tool that reads the Master File Table (MFT) of NTFS drives and answers
-- queries over the paths in it: `src/mft` reads and repairs records, `src/read` plans the reads of
-- the device, `src/search_index` builds an index of paths, `src/query` parses queries and answers
-- them from it, and `src/machine` keeps a drive's paths up to date.
--
-- Files:
--   Query/Rows: src/query/query_index_match.rs. `MatchingRowIndices` and the loops over sorted row
--     numbers; the in-place loop writes through an index into the vector that it reads, and has the
--     lengths of both vectors as its fuel, of which a round uses one.
--   Query/Needle: src/query/query_needle.rs. Needles and the `matches_*_preprocessed` functions. A
--     text is the list of its UTF-8 bytes; `str::to_lowercase` is the parameter `to_lowercase`, of
--     which only `LowersAscii`, its behaviour on ASCII text, is used.
--   Query/Rule: src/query/query_rule.rs. `from_str`, `Display` (`to_string`) and the matches.
--   Query/Group: src/query/query_group.rs and src/query/query_string.rs. Paths against groups of
--     rules, and `matching_row_index_candidates`, whose lookup of one rule's rows is a parameter as
--     in the source.
--   Query/Lookup: the lookup of one rule's rows of src/query/query_index_match.rs, with the trigrams of
--     src/query/query_needle.rs. It is for the tables of Index.
--   Index: src/search_index/search_index_bytes.rs, the tables of a parsed index as lists, without the
--     layout of their bytes. Index/Rows is what an index says of its rows.
--   Index/Build: `collect_search_index_tables` of that file, the tables from the rows, without the
--     trie over the segments; the numbers of nodes, rows and segments are of 32 bits, and more of
--     them are an error. A row is the segments of its path.
--   Texts: texts in order, by the derived order of src/domain/pathlike.rs.
--   Read/Request, Read/Plan: src/read/physical_read_request.rs and src/read/physical_read_plan.rs. An
--     `Information` of `usize` is a number of bytes below 2 ^ 64, and its sums and differences wrap
--     around. A `BTreeSet` is the list of its elements in order. `none` is a panic. The loop that
--     cuts a request has the request's length and one more as its fuel, as a round takes a byte at
--     least.
--   Mft/Fixup: src/mft/fast_fixup.rs. An entry is the list of its bytes, and a function that writes
--     into it returns the new list. The thread pool's split of the entries is a parameter.
--   Mft/RunList: src/mft/mft_record_attribute_run_list.rs. A word of 64 bits is a number below 2 ^ 64,
--     signed ones in two's complement, and a shift takes its amount modulo 64, as in a release
--     build. A run takes two bytes at least, so that the length of the bytes and one more is enough
--     fuel. RunList/Encode is the on-disk form by the NTFS layout, RunList/Layout the
--     `into_logical_read_plan`.
--   Mft/Reference: src/mft/mft_record_reference.rs and src/mft/mft_record_flags.rs.
--   Mft/Record: src/mft/mft_record.rs and the src/mft/mft_record_attribute*.rs. An attribute takes 16
--     bytes at least, so that the used size and one more is enough fuel for the iterator.
--   Query/Input: `parse_inputs` and `validate_query_input` of src/query/query_string.rs and `parse` of
--     src/query/query_group.rs. A text is the list of its code points; the tables of control
--     characters and white space are parameters, and so is the parsing of one rule, which Query/Rule
--     models.
--   Live/Graph, Live/Project, Live/Overlay, Live/State, Live/Observe, Live/Publish:
--     src/machine/live_drive_state.rs, with events and cursors of src/machine/usn.rs. Hash maps are
--     association lists (Common/Dict). What the journal gives, the outcomes of file operations, the
--     answers of the polls of a cancellation, the encoding of an index and the constants of Windows
--     are arguments; so is what a failed write of the checkpoint leaves of the file. Projecting a path
--     has the number of files and one more as its fuel, as a file
--     under way is not entered again.
--   Read/Logical, Read/Results: src/read/logical_read_plan.rs and src/read/physical_read_results.rs.
--     A writer is the vector behind its cursor; Results/Parts has the parts of a plan that the
--     iterator's chunks are compared with. The fuel of `to_vec` is the size of the plan and one
--     more, as a chunk takes a byte at least; that it is enough is not proved.
--   Common: Boolean tests, lists with lengths in native numbers, little-endian reads, sorted lists,
--     results.
--
-- The rows of paths become the tables of an index, in which the rows of a rule are looked up. Rules
-- are parsed into needles, groups of rules select row sets, and a query unites its groups.
-- Plans of reads bring the MFT into memory, where fixups restore its records;
-- attributes hold run lists, which become the plan of a file, and the results of the reads become its
-- bytes. A live drive applies the journal's events to the graph of the MFT's links, projects it into
-- rows and publishes their difference to the base index.
--
-- Not modelled: Windows handles and overlapped I/O, the daemon, its RPC and the tray, the command
-- line and logging, as they call the system and hold no logic of this kind; the layout of a
-- search index's bytes and its trie, and the resolution of paths of the MFT. Of the live drive state, building the graph
-- from the MFT and the query over the cached index are not.
pub mod Common
pub mod Texts
pub mod Index
pub mod Query
pub mod Read
pub mod Mft
pub mod Live
mod Tests
