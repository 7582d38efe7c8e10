-- ===== src/Live/Publish.antt =====
-- src/machine/live_drive_state.rs: the caches of a live drive's rows, and their publication. What
-- the polls of a cancellation answer, the encoding of rows as an index, and the outcomes of the
-- writes to files are arguments.
pub mod Invariant
pub mod Fresh
pub mod Flush
pub mod Steps
pub mod Runs
use teamy_mft.Common.{
  ℕ, zero, suc, ◌+◌, Bool, true, false, ◌&&◌, not, Option, none, some, List, [], ◌∷◌, map, ◌==◌,
  if◌then◌else◌, length,
}
use teamy_mft.Common.Bytes.{Bytes}
use teamy_mft.Common.Result.{Result, ok, err, ◌>>=◌}
use teamy_mft.Live.Graph.{
  UsnConstants, UsnEvent, UsnReadBatch, JournalCursor, LiveDriveGraph, affects_topology,
  apply_event, event_is_directory,
}
use teamy_mft.Texts.{sort_by}
use teamy_mft.Live.Project.{ProjectedPath, Memo, projected_paths_for, project_all}
use teamy_mft.Live.Overlay.{path_of, diff_overlay_rows}
use teamy_mft.Live.State.{
  SearchIndexPathRow, LiveDriveState, PublishedCheckpoint, LiveError, cancelled, missing_cache,
  no_fuel, validate_active_cursor,
}

abbrev pub is_some : {A : Type 0} → Option A → Bool
is_some none = false
is_some (some a) = true

abbrev pub to_row : List ℕ × Bool → SearchIndexPathRow
to_row (path, is_live) = record { path = path; has_deleted_entries = not is_live }

-- The map of `projected_rows` is read in the order of its keys.
unfoldable pub rows_of : Option (List (List ℕ × Bool)) → Result LiveError (List SearchIndexPathRow)
rows_of none = err no_fuel
rows_of (some states) = ok (sort_by path_of (map to_row states))

-- `project_rows`, with fuel for all files and one more.
unfoldable pub project_rows : Bool → LiveDriveGraph → Result LiveError (List SearchIndexPathRow)
unfolding rows_of
project_rows is_cancelled graph =
    if is_cancelled
    then err cancelled
    else rows_of (project_all (suc (length graph.nodes)) graph graph.nodes [] [])

abbrev pub guard : Bool → LiveError → Result LiveError (Unit {0})
guard true e = err e
guard false e = ok tt

-- The answers of the polls: in the projection, after it, and before the overlay is made.
pub record Polls : Type 0 where
  pub while_projecting : Bool
  pub after_projecting : Bool
  pub before_overlay : Bool

-- The files that a drive publishes besides its base, as they are read: `none` is a file that is
-- missing or cannot be read.
pub record Published : Type 0 where
  pub overlay_index : Option Bytes
  pub checkpoint : Option PublishedCheckpoint

-- What `save_checkpoint` gave. It writes into the file itself: where that fails, the file is what
-- the write has left of it, the second argument.
pub data CheckpointWrite : Type 0 where
  written : CheckpointWrite
  not_written : LiveError → Option PublishedCheckpoint → CheckpointWrite

abbrev pub Outcome : Type 0
Outcome = Result LiveError (Unit {0}) × LiveDriveState

unfoldable pub store_current :
    LiveDriveState → Result LiveError (List SearchIndexPathRow × Bytes) → Outcome
store_current s (err error) = (err error, s)
store_current s (ok (rows, bytes)) = (
  ok tt,
  record s {
    current_rows_cache = some rows;
    current_index_bytes_cache = some bytes;
    overlay_rows_cache = none;
    overlay_index_bytes_cache = none;
    query_cache_dirty = false;
  },
)

unfoldable pub store_overlay :
    LiveDriveState → List SearchIndexPathRow → Result LiveError Bytes → Outcome
store_overlay s rows (err error) = (err error, s)
store_overlay s rows (ok bytes) =
    (ok tt, record s { overlay_rows_cache = some rows; overlay_index_bytes_cache = some bytes })

abbrev pub checkpoint_of : LiveDriveState → List SearchIndexPathRow → PublishedCheckpoint
checkpoint_of s rows = record {
  checkpoint_journal_id = some s.journal_id;
  checkpoint_snapshot_usn = some s.snapshot_usn;
  last_usn = some s.current_next_usn;
  overlay_row_count = length rows;
}

-- The writes: the index first, which replaces its file as a whole or not at all, and then the
-- checkpoint.
unfoldable pub write_published :
    Result LiveError (Unit {0})
    → CheckpointWrite
    → List SearchIndexPathRow
    → Bytes
    → LiveDriveState
    → Published
    → Outcome × Published
write_published (err error) wrote_checkpoint rows bytes s files = ((err error, s), files)
write_published (ok _) (not_written error left) rows bytes s files =
    ((err error, s), record { overlay_index = some bytes; checkpoint = left })
write_published (ok _) written rows bytes s files = (
  (ok tt, record s { published_last_usn = s.current_next_usn; published_dirty = false }),
  record { overlay_index = some bytes; checkpoint = some (checkpoint_of s rows) },
)

unfoldable pub flush_caches :
    Option (List SearchIndexPathRow)
    → Option Bytes
    → Result LiveError (Unit {0})
    → CheckpointWrite
    → LiveDriveState
    → Published
    → Outcome × Published
unfolding write_published
flush_caches none bytes wrote_index wrote_checkpoint s files = ((err missing_cache, s), files)
flush_caches (some rows) none wrote_index wrote_checkpoint s files = ((err missing_cache, s), files)
flush_caches (some rows) (some bytes) wrote_index wrote_checkpoint s files =
    write_published wrote_index wrote_checkpoint rows bytes s files

unfoldable pub flush_ensured :
    Result LiveError (Unit {0}) → CheckpointWrite → Published → Outcome → Outcome × Published
unfolding flush_caches
flush_ensured wrote_index wrote_checkpoint files (err error, s) = ((err error, s), files)
flush_ensured wrote_index wrote_checkpoint files (ok _, s) =
    flush_caches s.overlay_rows_cache s.overlay_index_bytes_cache wrote_index wrote_checkpoint s
      files

module _ (polls : Polls) (index_bytes : List SearchIndexPathRow → Result LiveError Bytes) where
  -- The rows and their index, from the projection.
  unfoldable pub rebuild :
      Result LiveError (List SearchIndexPathRow)
      → Result LiveError (List SearchIndexPathRow × Bytes)
  rebuild projected = projected >>= λ rows.
      guard polls.after_projecting cancelled >>= λ _. index_bytes rows >>= λ bytes. ok (rows, bytes)

  unfoldable pub ensure_current_query_cache : LiveDriveState → Outcome
  unfolding store_current rebuild
  ensure_current_query_cache s =
      if not s.query_cache_dirty
        && (is_some s.current_rows_cache && is_some s.current_index_bytes_cache)
      then (ok tt, s)
      else store_current s (rebuild (project_rows polls.while_projecting s.current_graph))

  unfoldable pub build_overlay : Option (List SearchIndexPathRow) → LiveDriveState → Outcome
  unfolding store_overlay
  build_overlay none s = (err missing_cache, s)
  build_overlay (some current_rows) s =
      store_overlay s (diff_overlay_rows s.base_rows current_rows)
        (index_bytes (diff_overlay_rows s.base_rows current_rows))

  unfoldable pub ensure_overlay : Outcome → Outcome
  unfolding build_overlay
  ensure_overlay (err error, s) = (err error, s)
  ensure_overlay (ok _, s) =
      if is_some s.overlay_rows_cache && is_some s.overlay_index_bytes_cache
      then (ok tt, s)
      else if polls.before_overlay
      then (err cancelled, s)
      else build_overlay s.current_rows_cache s

  unfoldable pub ensure_full_query_cache : LiveDriveState → Outcome
  unfolding ensure_current_query_cache ensure_overlay
  ensure_full_query_cache s = ensure_overlay (ensure_current_query_cache s)

  -- With what the two writes gave.
  unfoldable pub flush_published :
      Result LiveError (Unit {0})
      → CheckpointWrite
      → LiveDriveState
      → Published
      → Outcome × Published
  unfolding ensure_full_query_cache flush_ensured
  flush_published wrote_index wrote_checkpoint s files =
      flush_ensured wrote_index wrote_checkpoint files (ensure_full_query_cache s)
