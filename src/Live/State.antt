-- ===== src/Live/State.antt =====
-- src/machine/live_drive_state.rs and usn.rs: the state of a live drive, and the operations that
-- refresh it from the change journal, rebuild its caches and publish it. What the journal gives
-- and the writes' outcomes are arguments, and a cancellation is the answer of each poll.
pub mod Replay
pub mod Continuity
use teamy_mft.Common.{
  ℕ, ◌+◌, ◌≡◌, Bool, true, false, ◌&&◌, ◌||◌, not, Option, none, some, List, [], ◌∷◌, ltb, ◌==◌,
  if◌then◌else◌,
}
use teamy_mft.Common.Bytes.{Bytes}
use teamy_mft.Common.Result.{Result, ok, err, ◌>>=◌}
use teamy_mft.Live.Graph.{
  UsnConstants, UsnEvent, UsnReadBatch, JournalCursor, LiveDriveGraph, affects_topology,
  apply_event,
}

pub record SearchIndexPathRow : Type 0 where
  pub path : List ℕ
  pub has_deleted_entries : Bool

-- The state, less the drive's names and sizes, which no operation changes.
pub record LiveDriveState : Type 0 where
  pub snapshot_usn : ℕ
  pub published_last_usn : ℕ
  pub current_next_usn : ℕ
  pub journal_id : ℕ
  pub base_rows : List SearchIndexPathRow
  pub current_graph : LiveDriveGraph
  pub current_rows_cache : Option (List SearchIndexPathRow)
  pub current_index_bytes_cache : Option Bytes
  pub overlay_rows_cache : Option (List SearchIndexPathRow)
  pub overlay_index_bytes_cache : Option Bytes
  pub published_dirty : Bool
  pub query_cache_dirty : Bool

-- The fields of the checkpoint that the live state reads and writes.
pub record PublishedCheckpoint : Type 0 where
  pub checkpoint_journal_id : Option ℕ
  pub checkpoint_snapshot_usn : Option ℕ
  pub last_usn : Option ℕ
  pub overlay_row_count : ℕ

pub data LiveError : Type 0 where
  missing_replay_cursor missing_journal_id journal_reset replay_gap ahead_of_journal : LiveError
  journal_failed cancelled missing_cache index_failed write_failed : LiveError
  -- Fuel of the model that ran out, which no operation reports.
  no_fuel : LiveError

unfoldable pub validate_active_cursor : ℕ → ℕ → ℕ → JournalCursor → Result LiveError (Unit {0})
validate_active_cursor snapshot_usn journal_id current_usn cursor =
    if not (cursor.journal_id == journal_id)
    then err journal_reset
    else if ltb snapshot_usn cursor.lowest_valid_usn
    then err replay_gap
    else if ltb cursor.next_usn current_usn
    then err ahead_of_journal
    else ok tt

abbrev pub option_or : Option ℕ → Option ℕ → Option ℕ
option_or none other = other
option_or (some a) other = some a

abbrev pub unwrap_or : Option ℕ → ℕ → ℕ
unwrap_or none d = d
unwrap_or (some a) d = a

-- `wrap_err_with` on an `Option`
abbrev pub wrap_err : Option ℕ → LiveError → Result LiveError ℕ
wrap_err none e = err e
wrap_err (some a) e = ok a

unfoldable pub validate_journal_continuity :
    PublishedCheckpoint → JournalCursor → Result LiveError (Unit {0})
unfolding validate_active_cursor
validate_journal_continuity checkpoint cursor =
    wrap_err (option_or checkpoint.checkpoint_snapshot_usn checkpoint.last_usn)
      missing_replay_cursor
    >>= λ snapshot_usn.
        wrap_err checkpoint.checkpoint_journal_id missing_journal_id >>= λ journal_id.
        validate_active_cursor snapshot_usn journal_id (unwrap_or checkpoint.last_usn snapshot_usn)
          cursor

-- The state that `load` makes of a checkpoint and the published files, before the first refresh.
unfoldable pub loaded :
    PublishedCheckpoint → LiveDriveGraph → List SearchIndexPathRow → ℕ → ℕ → LiveDriveState
loaded checkpoint base_graph base_rows snapshot_usn journal_id = record {
  snapshot_usn = snapshot_usn;
  published_last_usn = unwrap_or checkpoint.last_usn snapshot_usn;
  current_next_usn = snapshot_usn;
  journal_id = journal_id;
  base_rows = base_rows;
  current_graph = base_graph;
  current_rows_cache = none;
  current_index_bytes_cache = none;
  overlay_rows_cache = none;
  overlay_index_bytes_cache = none;
  published_dirty = false;
  query_cache_dirty = true;
}

-- The state of an observation, which starts at the journal's end.
unfoldable pub load_for_observation : LiveDriveGraph → JournalCursor → LiveDriveState
load_for_observation base_graph cursor = record {
  snapshot_usn = cursor.next_usn;
  published_last_usn = cursor.next_usn;
  current_next_usn = cursor.next_usn;
  journal_id = cursor.journal_id;
  base_rows = [];
  current_graph = base_graph;
  current_rows_cache = none;
  current_index_bytes_cache = none;
  overlay_rows_cache = none;
  overlay_index_bytes_cache = none;
  published_dirty = false;
  query_cache_dirty = true;
}

unfoldable pub finish_refresh :
    ℕ → LiveDriveState → Option ℕ × LiveDriveGraph → Result LiveError (Unit {0}) × LiveDriveState
finish_refresh next_usn s (none, graph) = (err cancelled, record s { current_graph = graph })
finish_refresh next_usn s (some applied, graph) = (
  ok tt,
  record s {
    current_graph = graph;
    current_next_usn = next_usn;
    published_dirty = not (next_usn == s.published_last_usn);
    query_cache_dirty = if ltb 0 applied then true else s.query_cache_dirty;
  },
)

abbrev pub state_of : Result LiveError (Unit {0}) × LiveDriveState → Result LiveError LiveDriveState
state_of (result, s) = result >>= λ _. ok s

module _ (w : UsnConstants) (is_cancelled : ℕ → Bool) where
  -- The loop over the events, which counts those applied; `none` is a cancellation.
  unfoldable pub apply_events : ℕ → List UsnEvent → LiveDriveGraph → ℕ → Option ℕ × LiveDriveGraph
  apply_events polls [] graph applied = (some applied, graph)
  apply_events polls (event ∷ events) graph applied =
      if is_cancelled polls
      then (none, graph)
      else apply_events (polls + 1) events
          (if affects_topology w event then apply_event w event graph else graph)
          (if affects_topology w event then applied + 1 else applied)

  unfoldable pub refresh_from_journal :
      Result LiveError UsnReadBatch → LiveDriveState → Result LiveError (Unit {0}) × LiveDriveState
  unfolding finish_refresh
  refresh_from_journal (err error) s = (err error, s)
  refresh_from_journal (ok batch) s =
      if batch.next_usn == s.current_next_usn
      then (ok tt, record s { published_dirty = not (s.current_next_usn == s.published_last_usn) })
      else finish_refresh batch.next_usn s (apply_events 0 batch.events s.current_graph 0)

  unfoldable pub refresh_validated :
      Result LiveError (Unit {0})
      → Result LiveError UsnReadBatch
      → LiveDriveState
      → Result LiveError (Unit {0}) × LiveDriveState
  unfolding refresh_from_journal
  refresh_validated (err error) batch s = (err error, s)
  refresh_validated (ok _) batch s = refresh_from_journal batch s

  -- `refresh`, with what opening and querying the journal gave.
  unfoldable pub refresh :
      Result LiveError JournalCursor
      → Result LiveError UsnReadBatch
      → LiveDriveState
      → Result LiveError (Unit {0}) × LiveDriveState
  unfolding validate_active_cursor refresh_validated
  refresh queried batch s =
      refresh_validated
        (queried >>= validate_active_cursor s.snapshot_usn s.journal_id s.current_next_usn) batch s

  -- `load`, with what the files and the journal gave.
  unfoldable pub load :
      PublishedCheckpoint
      → Result LiveError JournalCursor
      → Result LiveError LiveDriveGraph
      → Result LiveError (List SearchIndexPathRow)
      → Result LiveError UsnReadBatch
      → Result LiveError LiveDriveState
  unfolding validate_journal_continuity refresh_from_journal loaded
  load checkpoint queried graph rows batch =
      wrap_err (option_or checkpoint.checkpoint_snapshot_usn checkpoint.last_usn)
        missing_replay_cursor
      >>= λ snapshot_usn.
          wrap_err checkpoint.checkpoint_journal_id missing_journal_id >>= λ journal_id.
          queried >>= λ cursor. validate_journal_continuity checkpoint cursor >>= λ _.
          graph >>= λ base_graph. rows >>= λ base_rows. state_of (
            refresh_from_journal batch
              (loaded checkpoint base_graph base_rows snapshot_usn journal_id))
