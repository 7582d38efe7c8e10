-- ===== src/Live/Observe.antt =====
-- src/machine/live_drive_state.rs: the diagnostic that applies the journal's events one by one and
-- reports the paths of each record that they touch.
pub mod Agreement
use teamy_mft.Common.{
  ℕ, zero, suc, ◌+◌, Bool, true, false, not, Option, none, some, List, [], ◌∷◌, map, ◌==◌,
  if◌then◌else◌, length,
}
use teamy_mft.Common.Result.{Result, ok, err, ◌>>=◌}
use teamy_mft.Live.Graph.{
  UsnConstants, UsnEvent, UsnReadBatch, JournalCursor, LiveDriveGraph, affects_topology,
  apply_event, event_is_directory,
}
use teamy_mft.Live.Project.{ProjectedPath, Memo, projected_paths_for}
use teamy_mft.Live.State.{LiveDriveState, LiveError, cancelled, validate_active_cursor}

-- An event with its record's paths, less the names of its reasons.
pub record ObservedUsnEvent : Type 0 where
  pub drive_letter : ℕ
  pub frn : ℕ
  pub parent_frn : ℕ
  pub usn : ℕ
  pub reason : ℕ
  pub is_directory : Bool
  pub name : List ℕ
  pub projected_paths : List (List ℕ)

-- The projection has fuel for all files and one more, so that it does not run out.
unfoldable pub paths_of : Option (List ProjectedPath × Memo) → List (List ℕ)
paths_of none = []
paths_of (some (projected, memo)) = map (λ p. p.path) projected

abbrev pub push_front :
    ObservedUsnEvent → Option (List ObservedUsnEvent) → Option (List ObservedUsnEvent)
push_front event none = none
push_front event (some observed) = some (event ∷ observed)

abbrev pub is_empty : List ObservedUsnEvent → Bool
is_empty [] = true
is_empty (event ∷ observed) = false

unfoldable pub finish_observation :
    ℕ
    → LiveDriveState
    → Option (List ObservedUsnEvent) × LiveDriveGraph
    → Result LiveError (List ObservedUsnEvent) × LiveDriveState
finish_observation next_usn s (none, graph) = (err cancelled, record s { current_graph = graph })
finish_observation next_usn s (some observed, graph) = (
  ok observed,
  record s {
    current_graph = graph;
    current_next_usn = next_usn;
    published_dirty = not (next_usn == s.published_last_usn);
    query_cache_dirty = if is_empty observed then s.query_cache_dirty else true;
  },
)

module _ (w : UsnConstants) where
  unfoldable pub observed_event : UsnEvent → LiveDriveGraph → ObservedUsnEvent
  unfolding paths_of
  observed_event event graph = record {
    drive_letter = graph.drive_letter;
    frn = event.frn;
    parent_frn = event.parent_frn;
    usn = event.usn;
    reason = event.reason;
    is_directory = event_is_directory w event;
    name = event.name;
    projected_paths =
        paths_of (projected_paths_for (suc (length graph.nodes)) graph [] event.frn []);
  }

  -- The loop over the events; `none` is a cancellation, which gives no events.
  unfoldable pub observe_events :
      (ℕ → Bool)
      → ℕ
      → List UsnEvent
      → LiveDriveGraph
      → Option (List ObservedUsnEvent) × LiveDriveGraph
  unfolding observed_event
  observe_events is_cancelled polls [] graph = (some [], graph)
  observe_events is_cancelled polls (event ∷ events) graph =
      let next = if affects_topology w event then apply_event w event graph else graph in
      let (observed, last) = observe_events is_cancelled (polls + 1) events next in
      if is_cancelled polls then (none, graph) else (
        if affects_topology w event
            then push_front (observed_event event next) observed
            else observed,
        last,
      )

  unfoldable pub observe_batch :
      (ℕ → Bool)
      → Result LiveError UsnReadBatch
      → LiveDriveState
      → Result LiveError (List ObservedUsnEvent) × LiveDriveState
  unfolding observe_events finish_observation
  observe_batch is_cancelled (err error) s = (err error, s)
  observe_batch is_cancelled (ok batch) s =
      if batch.next_usn == s.current_next_usn
      then (ok [], s)
      else finish_observation batch.next_usn s
          (observe_events is_cancelled 0 batch.events s.current_graph)

  unfoldable pub observe_validated :
      Result LiveError (Unit {0})
      → (ℕ → Bool)
      → Result LiveError UsnReadBatch
      → LiveDriveState
      → Result LiveError (List ObservedUsnEvent) × LiveDriveState
  unfolding observe_batch
  observe_validated (err error) is_cancelled batch s = (err error, s)
  observe_validated (ok _) is_cancelled batch s = observe_batch is_cancelled batch s

  -- `observe_usn_events_with_cancel`, with what opening and querying the journal gave.
  unfoldable pub observe_usn_events :
      (ℕ → Bool)
      → Result LiveError JournalCursor
      → Result LiveError UsnReadBatch
      → LiveDriveState
      → Result LiveError (List ObservedUsnEvent) × LiveDriveState
  unfolding observe_validated validate_active_cursor
  observe_usn_events is_cancelled queried batch s =
      observe_validated
        (queried >>= validate_active_cursor s.snapshot_usn s.journal_id s.current_next_usn)
        is_cancelled batch s
