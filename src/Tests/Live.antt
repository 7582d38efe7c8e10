-- ===== src/Tests/Live.antt =====
-- src/machine/live_drive_state.rs: a drive with a folder and a file in it and in the root, and a
-- batch that renames the file.
use teamy_mft.Common.{
  ℕ, ◌≡◌, ◌||◌, refl, ◌==◌, Bool, true, false, none, some, List, [], ◌∷◌, arith, length,
}
use teamy_mft.Common.Bytes.{Bytes}
use teamy_mft.Common.Dict.{get, AllEntries, string_eq, nat_eq}
use teamy_mft.Common.Result.{Result, ok, err}
use teamy_mft.Common.Text.{codes}
use teamy_mft.Live.Graph.{
  UsnConstants, UsnEvent, UsnReadBatch, JournalCursor, LiveNodeLink, LiveNode, LiveDriveGraph,
}
use teamy_mft.Live.Graph.Batches.{after_events, last_link_effect, link_state-after_events}
use teamy_mft.Live.Graph.Effects.{link_state}
use teamy_mft.Texts.{override}
use teamy_mft.Live.Project.{ProjectedPath, Memo, projected_paths_for, project_all}
use teamy_mft.Live.Project.Chains.{Chain, AllChains}
use teamy_mft.Live.Project.Complete.{Shows}
use teamy_mft.Live.Project.Acyclic.{Descends, IsComplete}
use teamy_mft.Live.Project.Rows.{
  projected_paths_for_lem, projected_paths_for-IsComplete, project_all_lem, SomeChain,
}
use teamy_mft.Live.Overlay.{path_of, diff_overlay_rows}
use teamy_mft.Live.Overlay.Difference.{row_state, last_state, overlay_state, diff_overlay_rows_lem}
use teamy_mft.Texts.{IsOrderedBy}
use teamy_mft.Live.State.{
  SearchIndexPathRow, LiveDriveState, PublishedCheckpoint, LiveError, cancelled, write_failed,
  refresh_from_journal, finish_refresh, apply_events, refresh, load_for_observation,
  validate_journal_continuity,
}
use teamy_mft.Live.State.Replay.{cancelled-refresh_from_journal, SameState, extended}
use teamy_mft.Live.State.Continuity.{
  ExplainsCheckpoint, validate_journal_continuity-ExplainsCheckpoint,
}
use teamy_mft.Live.Observe.{observe_batch}
use teamy_mft.Live.Observe.Agreement.{observe_batch-refresh_from_journal}
use teamy_mft.Live.Publish.{
  Polls, Published, not_written, ensure_current_query_cache, flush_published,
}
use teamy_mft.Live.Publish.Fresh.{IsFresh, is_interrupted}
use teamy_mft.Live.Publish.Steps.{Step}
use teamy_mft.Live.Publish.Invariant.{IsCoherent}
use teamy_mft.Live.Publish.Flush.{IsFlushed, flush_published-IsFlushed}
use teamy_mft.Live.Publish.Runs.{Reachable, Reachable-IsCoherent}

abbrev windows : UsnConstants
windows = record {
  file_create = 0x100;
  file_delete = 0x200;
  rename_old_name = 0x1000;
  rename_new_name = 0x2000;
  hard_link_change = 0x10000;
  file_attribute_directory = 0x10;
}

abbrev link : ℕ → List ℕ → Bool → LiveNodeLink
link parent name deleted = record { parent_frn = parent; name = name; is_deleted = deleted }

abbrev docs : LiveNode
docs = record { is_directory = true; links = link 5 (codes "docs") false ∷ [] }

abbrev file : LiveNode
file = record {
  is_directory = false;
  links = link 7 (codes "a.txt") false ∷ link 5 (codes "b.txt") true ∷ [];
}

abbrev drive : LiveDriveGraph
drive = record {
  drive_letter = 67;
  root_frn = 5;
  nodes = (5, record { is_directory = true; links = [] }) ∷ (7, docs) ∷ (9, file) ∷ [];
}

abbrev renamed : ℕ → ℕ → List ℕ → UsnEvent
renamed usn reason name = record {
  frn = 9;
  parent_frn = 7;
  usn = usn;
  reason = reason;
  file_attributes = 0x20;
  name = name;
}

abbrev batch : UsnReadBatch
batch = record {
  next_usn = 300;
  events = renamed 100 0x1000 (codes "a.txt") ∷ renamed 200 0x2000 (codes "c.txt") ∷ [];
}

abbrev journal : JournalCursor
journal = record {
  journal_id = 1;
  first_usn = 0;
  next_usn = 100;
  lowest_valid_usn = 0;
  max_usn = 1000;
}

abbrev watched : LiveDriveState
watched = load_for_observation drive journal

-- The second poll answers that the refresh is cancelled.
abbrev second : ℕ → Bool
second polls = polls == 1

cut_short : refresh_from_journal windows second (ok batch) watched ≡ (
  err cancelled,
  record watched {
    current_graph = after_events windows (renamed 100 0x1000 (codes "a.txt") ∷ []) drive;
  },
)
unfolding refresh_from_journal finish_refresh apply_events load_for_observation after_events
cut_short = refl

cancelled-refresh_from_journal_example :
    (t : LiveDriveState) × (t' : LiveDriveState) × (refresh_from_journal windows
        (λ _. false)
        (ok (extended batch [] 300))
        watched
      ≡ (ok tt, t))
    × (refresh_from_journal windows
          (λ _. false)
          (ok (extended batch [] 300))
          (record watched {
            current_graph = after_events windows (renamed 100 0x1000 (codes "a.txt") ∷ []) drive;
          })
        ≡ (ok tt, t'))
    × SameState t' t
unfolding load_for_observation
cancelled-refresh_from_journal_example =
    cancelled-refresh_from_journal windows second batch [] 300 watched
      (record watched {
        current_graph = after_events windows (renamed 100 0x1000 (codes "a.txt") ∷ []) drive;
      })
      cut_short (omega arith)

link_state-after_events_example :
    link_state (after_events windows batch.events drive) 9 7 (codes "a.txt")
    ≡ override
        (last_link_effect windows batch.events 9 7 (codes "a.txt"))
        (link_state drive 9 7 (codes "a.txt"))
link_state-after_events_example =
    link_state-after_events windows batch.events drive 9 7 (codes "a.txt")

observe_batch-refresh_from_journal_example :
    (observe_batch windows second (ok batch) watched).1
    ≡ (refresh_from_journal windows second (ok batch) watched).1
unfolding load_for_observation
observe_batch-refresh_from_journal_example =
    observe_batch-refresh_from_journal windows second batch watched (omega arith)

projected_paths_for_lem_example :
    (r : List ProjectedPath × Memo) × (projected_paths_for 4 drive [] 9 [] ≡ some r)
    × AllChains drive 9 r.0
projected_paths_for_lem_example = projected_paths_for_lem drive 4 9 (omega arith)

drive-Descends : Descends drive (λ frn. frn)
unfolding get
drive-Descends frn via below has = ground (arith, has)

projected_paths_for-IsComplete_example :
    (r : List ProjectedPath × Memo) × (projected_paths_for 4 drive [] 9 [] ≡ some r)
    × AllChains drive 9 r.0
    × IsComplete drive 9 r.0
projected_paths_for-IsComplete_example =
    projected_paths_for-IsComplete drive (λ frn. frn) 4 9 drive-Descends (omega arith)

project_all_lem_example :
    (states : List (List ℕ × Bool)) × (project_all 4 drive drive.nodes [] [] ≡ some states)
    × AllEntries (SomeChain drive) states
    × ((frn : ℕ) (node : LiveNode) (path : List ℕ) (is_live : Bool)
        → get frn drive.nodes ≡ some node
        → Chain drive frn path is_live
        → Shows (get path states) is_live)
project_all_lem_example = project_all_lem drive (λ frn. frn) 4 drive-Descends (omega arith)

abbrev row : List ℕ → Bool → SearchIndexPathRow
row path deleted = record { path = path; has_deleted_entries = deleted }

abbrev base : List SearchIndexPathRow
base = row (codes "b") false ∷ row (codes "a") false ∷ []

abbrev current : List SearchIndexPathRow
current = row (codes "a") false ∷ row (codes "c") true ∷ []

diff_overlay_rows_lem_example :
    IsOrderedBy path_of (diff_overlay_rows base current)
    × ((path : List ℕ)
        → row_state path (diff_overlay_rows base current)
          ≡ overlay_state (last_state path base) (last_state path current))
diff_overlay_rows_lem_example = diff_overlay_rows_lem base current

abbrev checkpoint : PublishedCheckpoint
checkpoint = record {
  checkpoint_journal_id = some 1;
  checkpoint_snapshot_usn = some 50;
  last_usn = some 120;
  overlay_row_count = 0;
}

validate_journal_continuity-ExplainsCheckpoint_example :
    ExplainsCheckpoint
      (some 1)
      (some 50)
      (some 120)
      journal
      (validate_journal_continuity checkpoint journal)
validate_journal_continuity-ExplainsCheckpoint_example =
    validate_journal_continuity-ExplainsCheckpoint checkpoint journal

-- An index that is the lengths of the paths.
abbrev lengths : List SearchIndexPathRow → Result LiveError Bytes
lengths [] = ok []
lengths (r ∷ rows) = ok (length r.path ∷ [])

abbrev never : Polls
never = record { while_projecting = false; after_projecting = false; before_overlay = false }

abbrev files : Published
files = record { overlay_index = none; checkpoint = some checkpoint }

watched-IsCoherent : IsCoherent lengths watched
watched-IsCoherent = (Reachable-IsCoherent lengths (Reachable.observing drive journal)).0

-- The write of the checkpoint leaves a file that cannot be read.
flush_published-IsFlushed_example :
    IsFlushed lengths watched files
      (ok tt)
      (not_written write_failed none)
      (flush_published never lengths (ok tt) (not_written write_failed none) watched files)
unfolding load_for_observation
flush_published-IsFlushed_example =
    flush_published-IsFlushed lengths never (ok tt) (not_written write_failed none) watched files
      watched-IsCoherent tt

-- The rows of a refreshed drive.
abbrev refreshed_drive : Result LiveError (Unit {0}) × LiveDriveState
refreshed_drive = refresh windows (λ _. false) (ok journal) (ok batch) watched

abbrev cached_drive : LiveDriveState
cached_drive = (ensure_current_query_cache never lengths refreshed_drive.1).1

Reachable-IsCoherent_example :
    IsCoherent lengths cached_drive
    × IsFresh
        (((false || is_interrupted refreshed_drive.0) || false) || cached_drive.query_cache_dirty)
        cached_drive.current_rows_cache
        cached_drive.current_graph
Reachable-IsCoherent_example = Reachable-IsCoherent lengths (
    Reachable.next
      (Reachable.next (Reachable.observing drive journal)
        (Step.refreshed windows (λ _. false) (ok journal) (ok batch) watched))
      (Step.cached never refreshed_drive.1))
