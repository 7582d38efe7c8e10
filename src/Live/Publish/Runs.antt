-- ===== src/Live/Publish/Runs.antt =====
-- What holds of a live drive after any run of its operations.
use teamy_mft.Common.{
  ℕ, ◌≡◌, ◌||◌, refl, Bool, true, false, not, Option, none, some, List, ◌==◌, arith, inl, inr,
  Bool-cases,
}
use teamy_mft.Common.Bytes.{Bytes}
use teamy_mft.Common.Result.{Result, ok, err}
use teamy_mft.Live.Graph.{UsnConstants, UsnReadBatch, JournalCursor, LiveDriveGraph}
use teamy_mft.Live.State.{
  SearchIndexPathRow, LiveDriveState, PublishedCheckpoint, LiveError, loaded, finish_refresh,
  refresh_from_journal, load_for_observation, apply_events,
}
use teamy_mft.Live.Publish.Invariant.{IsCoherent}
use teamy_mft.Live.Publish.Fresh.{IsFresh, refresh_from_journal-IsFresh}
use teamy_mft.Live.Publish.Steps.{Step, Step-IsCoherent, after_cut}

module _ (index_bytes : List SearchIndexPathRow → Result LiveError Bytes) where
  -- The states that a drive comes to from one that `load`'s refresh left, or an observation's, and
  -- whether a refresh or an observation was cancelled on the way.
  pub data Reachable : Bool → LiveDriveState → Type 0 where
    started :
        (w : UsnConstants) (is_cancelled : ℕ → Bool) (checkpoint : PublishedCheckpoint)
        (graph : LiveDriveGraph) (base_rows : List SearchIndexPathRow) (snapshot_usn journal_id : ℕ)
        (batch : Result LiveError UsnReadBatch) (s : LiveDriveState)
        → refresh_from_journal w is_cancelled batch
            (loaded checkpoint graph base_rows snapshot_usn journal_id)
          ≡ (ok tt, s)
        → Reachable false s
    observing :
        (graph : LiveDriveGraph) (cursor : JournalCursor)
        → Reachable false (load_for_observation graph cursor)
    next :
        {interrupted cut : Bool} {s t : LiveDriveState}
        → Reachable interrupted s
        → Step index_bytes cut s t
        → Reachable (interrupted || cut) t

  fresh-IsCoherent :
      (s : LiveDriveState)
      → s.published_dirty ≡ not (s.current_next_usn == s.published_last_usn)
      → s.overlay_rows_cache ≡ none
      → s.overlay_index_bytes_cache ≡ none
      → s.current_rows_cache ≡ none
      → s.current_index_bytes_cache ≡ none
      → s.query_cache_dirty ≡ true
      → IsCoherent index_bytes s
  fresh-IsCoherent s dirty rows bytes current index stale = record {
    dirty = dirty;
    overlay = rw (rows) tt;
    current_index = rw (current, index) tt;
    overlay_index = rw (rows, bytes) tt;
    cached = λ clean. ground (arith, clean, stale);
  }

  finished-IsCoherent :
      (next_usn : ℕ) (checkpoint : PublishedCheckpoint) (graph : LiveDriveGraph)
      (base_rows : List SearchIndexPathRow) (snapshot_usn journal_id : ℕ)
      (applied : Option ℕ × LiveDriveGraph) (s : LiveDriveState)
      → finish_refresh next_usn (loaded checkpoint graph base_rows snapshot_usn journal_id) applied
        ≡ (ok tt, s)
      → IsCoherent index_bytes s
  unfolding finish_refresh loaded
  finished-IsCoherent next_usn checkpoint graph base_rows snapshot_usn journal_id (none, g) s h = cc
  finished-IsCoherent next_usn checkpoint graph base_rows snapshot_usn journal_id (some applied, g)
        s h =
      fresh-IsCoherent s (ground (arith, h)) (ground (arith, h)) (ground (arith, h))
        (ground (arith, h)) (ground (arith, h)) (ground (arith, h))

  started-IsCoherent :
      (w : UsnConstants) (is_cancelled : ℕ → Bool) (checkpoint : PublishedCheckpoint)
      (graph : LiveDriveGraph) (base_rows : List SearchIndexPathRow) (snapshot_usn journal_id : ℕ)
      (batch : Result LiveError UsnReadBatch) (s : LiveDriveState)
      → refresh_from_journal w is_cancelled batch
          (loaded checkpoint graph base_rows snapshot_usn journal_id)
        ≡ (ok tt, s)
      → IsCoherent index_bytes s
  unfolding refresh_from_journal loaded
  started-IsCoherent w is_cancelled checkpoint graph base_rows snapshot_usn journal_id (err error) s
        h =
      cc
  started-IsCoherent w is_cancelled checkpoint graph base_rows snapshot_usn journal_id (ok batch) s
        h =
      elim (Bool-cases (batch.next_usn == snapshot_usn)) [
        | inl same ↦
            fresh-IsCoherent s (ground (arith, h, same)) (ground (arith, h, same))
              (ground (arith, h, same)) (ground (arith, h, same)) (ground (arith, h, same))
              (ground (arith, h, same))
        | inr new ↦
            finished-IsCoherent batch.next_usn checkpoint graph base_rows snapshot_usn journal_id
              (apply_events w is_cancelled 0 batch.events graph 0) s (rw new at h)
      ]

  started-dirty :
      (w : UsnConstants) (is_cancelled : ℕ → Bool) (checkpoint : PublishedCheckpoint)
      (graph : LiveDriveGraph) (base_rows : List SearchIndexPathRow) (snapshot_usn journal_id : ℕ)
      (batch : Result LiveError UsnReadBatch) (s : LiveDriveState)
      → refresh_from_journal w is_cancelled batch
          (loaded checkpoint graph base_rows snapshot_usn journal_id)
        ≡ (ok tt, s)
      → IsFresh s.query_cache_dirty s.current_rows_cache s.current_graph
  unfolding loaded
  started-dirty w is_cancelled checkpoint graph base_rows snapshot_usn journal_id batch s h =
      let first = loaded checkpoint graph base_rows snapshot_usn journal_id in
      let fresh = refresh_from_journal-IsFresh w is_cancelled batch first tt in rw h at fresh

  -- After any run of refreshes, observations, queries and flushes, failed or cancelled ones
  -- included, from a loaded drive: the published state counts as dirty exactly if its position is
  -- not the current one; a cached overlay is the difference between the base and the cached rows;
  -- a cached index is the index of the cached rows; rows that count as clean are cached; and,
  -- where no refresh and no observation of the run was cancelled, rows that count as clean are the
  -- projection of the current graph.
  pub Reachable-IsCoherent :
      {interrupted : Bool} {s : LiveDriveState}
      → Reachable interrupted s
      → IsCoherent index_bytes s
        × IsFresh (interrupted || s.query_cache_dirty) s.current_rows_cache s.current_graph
  unfolding load_for_observation
  Reachable-IsCoherent
        (started w is_cancelled checkpoint graph base_rows snapshot_usn journal_id batch s e) =
      (
        started-IsCoherent w is_cancelled checkpoint graph base_rows snapshot_usn journal_id batch s
            e,
        started-dirty w is_cancelled checkpoint graph base_rows snapshot_usn journal_id batch s e,
      )
  Reachable-IsCoherent (observing graph cursor) = (
    fresh-IsCoherent (load_for_observation graph cursor) (ground arith) refl refl refl refl refl,
    tt,
  )
  Reachable-IsCoherent (next {interrupted} {cut} {s} {t} r step) =
      let (coherent, fresh) = Reachable-IsCoherent r in
      (
        Step-IsCoherent index_bytes step coherent,
        after_cut index_bytes interrupted cut s t step fresh,
      )
