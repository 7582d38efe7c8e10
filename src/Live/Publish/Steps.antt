-- ===== src/Live/Publish/Steps.antt =====
-- The operations of a live drive as steps, each of which keeps what its flags and caches say.
use teamy_mft.Common.{
  ℕ, ◌≡◌, ◌⊎◌, ◌||◌, refl, Bool, true, false, Option, none, some, List, ◌==◌, arith, inl, inr,
  Bool-cases,
}
use teamy_mft.Common.Bytes.{Bytes}
use teamy_mft.Common.Result.{Result, ok, err, ◌>>=◌}
use teamy_mft.Live.Graph.{UsnConstants, UsnReadBatch, JournalCursor}
use teamy_mft.Live.State.{
  SearchIndexPathRow, LiveDriveState, LiveError, refresh_validated, refresh, validate_active_cursor,
}
use teamy_mft.Live.Observe.{observe_batch, observe_validated, observe_usn_events}
use teamy_mft.Live.Observe.Agreement.{observe_batch-refresh_from_journal}
use teamy_mft.Live.Publish.{
  Polls, Published, Outcome, CheckpointWrite, written, not_written, write_published, flush_caches,
  flush_ensured, ensure_current_query_cache, ensure_full_query_cache, flush_published,
}
use teamy_mft.Live.Publish.Invariant.{
  IsCoherent, refresh_from_journal-IsCoherent, ensure_current_query_cache-IsCoherent,
  ensure_full_query_cache-IsCoherent,
}
use teamy_mft.Live.Publish.Fresh.{
  IsFresh, HasFreshRows, EnsuresFresh-HasFreshRows, IsFresh-or, is_interrupted, is_cancellation,
  refresh_from_journal-IsFresh, observe_batch-IsFresh, ensure_current_query_cache-EnsuresFresh,
  ensure_full_query_cache-EnsuresFresh,
}

-- A flush leaves the state with the ensured caches, or marks it as published.
abbrev published : LiveDriveState → LiveDriveState
published s = record s { published_last_usn = s.current_next_usn; published_dirty = false }

abbrev IsEnsuredOrPublished : LiveDriveState → LiveDriveState → Type 0
IsEnsuredOrPublished s t = (t ≡ s) ⊎ (t ≡ published s)

flush_caches-state :
    (rows : Option (List SearchIndexPathRow)) (bytes : Option Bytes)
    (wrote_index : Result LiveError (Unit {0})) (wrote_checkpoint : CheckpointWrite)
    (s : LiveDriveState) (files : Published)
    → IsEnsuredOrPublished s (flush_caches rows bytes wrote_index wrote_checkpoint s files).0.1
unfolding flush_caches write_published
flush_caches-state none bytes wrote_index wrote_checkpoint s files = inl refl
flush_caches-state (some rows) none wrote_index wrote_checkpoint s files = inl refl
flush_caches-state (some rows) (some bytes) (err e) wrote_checkpoint s files = inl refl
flush_caches-state (some rows) (some bytes) (ok _) (not_written e left) s files = inl refl
flush_caches-state (some rows) (some bytes) (ok _) written s files = inr refl

flush_ensured-state :
    (wrote_index : Result LiveError (Unit {0})) (wrote_checkpoint : CheckpointWrite)
    (files : Published) (ensured : Outcome)
    → IsEnsuredOrPublished ensured.1 (flush_ensured wrote_index wrote_checkpoint files ensured).0.1
unfolding flush_ensured
flush_ensured-state wrote_index wrote_checkpoint files (err error, s) = inl refl
flush_ensured-state wrote_index wrote_checkpoint files (ok _, s) =
    flush_caches-state s.overlay_rows_cache s.overlay_index_bytes_cache wrote_index wrote_checkpoint
      s files

module _ (index_bytes : List SearchIndexPathRow → Result LiveError Bytes) where
  -- An operation, with whatever the journal, the polls and the files gave, and whether it was
  -- cancelled while it read or applied the journal's events; a query's first step is the cache of
  -- the current rows, and its others change nothing.
  pub data Step : Bool → LiveDriveState → LiveDriveState → Type 0 where
    refreshed :
        (w : UsnConstants) (is_cancelled : ℕ → Bool) (queried : Result LiveError JournalCursor)
        (batch : Result LiveError UsnReadBatch) (s : LiveDriveState)
        → Step
            (is_interrupted (refresh w is_cancelled queried batch s).0)
            s
            (refresh w is_cancelled queried batch s).1
    observed :
        (w : UsnConstants) (is_cancelled : ℕ → Bool) (queried : Result LiveError JournalCursor)
        (batch : Result LiveError UsnReadBatch) (s : LiveDriveState)
        → Step
            (is_interrupted (observe_usn_events w is_cancelled queried batch s).0)
            s
            (observe_usn_events w is_cancelled queried batch s).1
    cached :
        (polls : Polls) (s : LiveDriveState)
        → Step false s (ensure_current_query_cache polls index_bytes s).1
    flushed :
        (polls : Polls) (wrote_index : Result LiveError (Unit {0}))
        (wrote_checkpoint : CheckpointWrite) (files : Published) (s : LiveDriveState)
        → Step false s (flush_published polls index_bytes wrote_index wrote_checkpoint s files).0.1

  published-IsCoherent :
      (s t : LiveDriveState)
      → IsEnsuredOrPublished s t
      → IsCoherent index_bytes s
      → IsCoherent index_bytes t
  published-IsCoherent s t (inl same) c = rw same c
  published-IsCoherent s t (inr done) c = rw done (record {
    dirty = ground arith;
    overlay = c.overlay;
    current_index = c.current_index;
    overlay_index = c.overlay_index;
    cached = c.cached;
  })

  published-HasFreshRows :
      (s t : LiveDriveState) → IsEnsuredOrPublished s t → HasFreshRows s → HasFreshRows t
  published-HasFreshRows s t (inl same) fresh = rw same fresh
  published-HasFreshRows s t (inr done) fresh = rw done fresh

  refresh_validated-IsCoherent :
      (w : UsnConstants) (is_cancelled : ℕ → Bool) (verdict : Result LiveError (Unit {0}))
      (batch : Result LiveError UsnReadBatch) (s : LiveDriveState)
      → IsCoherent index_bytes s
      → IsCoherent index_bytes (refresh_validated w is_cancelled verdict batch s).1
  unfolding refresh_validated
  refresh_validated-IsCoherent w is_cancelled (err error) batch s c = c
  refresh_validated-IsCoherent w is_cancelled (ok _) batch s c =
      refresh_from_journal-IsCoherent index_bytes w is_cancelled batch s c

  observe_batch-IsCoherent :
      (w : UsnConstants) (is_cancelled : ℕ → Bool) (batch : Result LiveError UsnReadBatch)
      (s : LiveDriveState)
      → IsCoherent index_bytes s
      → IsCoherent index_bytes (observe_batch w is_cancelled batch s).1
  unfolding observe_batch
  observe_batch-IsCoherent w is_cancelled (err error) s c = c
  observe_batch-IsCoherent w is_cancelled (ok batch) s c =
      elim (Bool-cases (batch.next_usn == s.current_next_usn)) [
        | inl same ↦ rw same c
        | inr new ↦
            rw (observe_batch-refresh_from_journal w is_cancelled batch s (ground (arith, new)))
              (refresh_from_journal-IsCoherent index_bytes w is_cancelled (ok batch) s c)
      ]

  observe_validated-IsCoherent :
      (w : UsnConstants) (is_cancelled : ℕ → Bool) (verdict : Result LiveError (Unit {0}))
      (batch : Result LiveError UsnReadBatch) (s : LiveDriveState)
      → IsCoherent index_bytes s
      → IsCoherent index_bytes (observe_validated w verdict is_cancelled batch s).1
  unfolding observe_validated
  observe_validated-IsCoherent w is_cancelled (err error) batch s c = c
  observe_validated-IsCoherent w is_cancelled (ok _) batch s c =
      observe_batch-IsCoherent w is_cancelled batch s c

  flush_published-state :
      (polls : Polls) (wrote_index : Result LiveError (Unit {0}))
      (wrote_checkpoint : CheckpointWrite) (files : Published) (s : LiveDriveState)
      → IsEnsuredOrPublished
          (ensure_full_query_cache polls index_bytes s).1
          (flush_published polls index_bytes wrote_index wrote_checkpoint s files).0.1
  unfolding flush_published
  flush_published-state polls wrote_index wrote_checkpoint files s =
      flush_ensured-state wrote_index wrote_checkpoint files
        (ensure_full_query_cache polls index_bytes s)

  pub Step-IsCoherent :
      {cut : Bool} {s t : LiveDriveState}
      → Step cut s t
      → IsCoherent index_bytes s
      → IsCoherent index_bytes t
  unfolding refresh observe_usn_events
  Step-IsCoherent (refreshed w is_cancelled queried batch s) c =
      refresh_validated-IsCoherent w is_cancelled
        (queried >>= validate_active_cursor s.snapshot_usn s.journal_id s.current_next_usn) batch s
        c
  Step-IsCoherent (observed w is_cancelled queried batch s) c =
      observe_validated-IsCoherent w is_cancelled
        (queried >>= validate_active_cursor s.snapshot_usn s.journal_id s.current_next_usn) batch s
        c
  Step-IsCoherent (cached polls s) c = ensure_current_query_cache-IsCoherent index_bytes polls s c
  Step-IsCoherent (flushed polls wrote_index wrote_checkpoint files s) c =
      published-IsCoherent (ensure_full_query_cache polls index_bytes s).1
        (flush_published polls index_bytes wrote_index wrote_checkpoint s files).0.1
        (flush_published-state polls wrote_index wrote_checkpoint files s)
        (ensure_full_query_cache-IsCoherent index_bytes polls s c)

  refresh_validated-IsFresh :
      (w : UsnConstants) (is_cancelled : ℕ → Bool) (verdict : Result LiveError (Unit {0}))
      (batch : Result LiveError UsnReadBatch) (s : LiveDriveState)
      → HasFreshRows s
      → let r = refresh_validated w is_cancelled verdict batch s in
        IsFresh
          (is_interrupted r.0 || r.1.query_cache_dirty)
          r.1.current_rows_cache
          r.1.current_graph
  unfolding refresh_validated
  refresh_validated-IsFresh w is_cancelled (err error) batch s fresh =
      IsFresh-or (is_cancellation error) s.query_cache_dirty s.current_rows_cache s.current_graph
        fresh
  refresh_validated-IsFresh w is_cancelled (ok _) batch s fresh =
      refresh_from_journal-IsFresh w is_cancelled batch s fresh

  observe_validated-IsFresh :
      (w : UsnConstants) (is_cancelled : ℕ → Bool) (verdict : Result LiveError (Unit {0}))
      (batch : Result LiveError UsnReadBatch) (s : LiveDriveState)
      → HasFreshRows s
      → let r = observe_validated w verdict is_cancelled batch s in
        IsFresh
          (is_interrupted r.0 || r.1.query_cache_dirty)
          r.1.current_rows_cache
          r.1.current_graph
  unfolding observe_validated
  observe_validated-IsFresh w is_cancelled (err error) batch s fresh =
      IsFresh-or (is_cancellation error) s.query_cache_dirty s.current_rows_cache s.current_graph
        fresh
  observe_validated-IsFresh w is_cancelled (ok _) batch s fresh =
      observe_batch-IsFresh w is_cancelled batch s fresh

  Step-IsFresh :
      {cut : Bool} {s t : LiveDriveState}
      → Step cut s t
      → HasFreshRows s
      → IsFresh (cut || t.query_cache_dirty) t.current_rows_cache t.current_graph
  unfolding refresh observe_usn_events
  Step-IsFresh (refreshed w is_cancelled queried batch s) fresh =
      refresh_validated-IsFresh w is_cancelled
        (queried >>= validate_active_cursor s.snapshot_usn s.journal_id s.current_next_usn) batch s
        fresh
  Step-IsFresh (observed w is_cancelled queried batch s) fresh =
      observe_validated-IsFresh w is_cancelled
        (queried >>= validate_active_cursor s.snapshot_usn s.journal_id s.current_next_usn) batch s
        fresh
  Step-IsFresh (cached polls s) fresh =
      EnsuresFresh-HasFreshRows (ensure_current_query_cache polls index_bytes s)
        (ensure_current_query_cache-EnsuresFresh polls index_bytes s fresh)
  Step-IsFresh (flushed polls wrote_index wrote_checkpoint files s) fresh =
      published-HasFreshRows (ensure_full_query_cache polls index_bytes s).1
        (flush_published polls index_bytes wrote_index wrote_checkpoint s files).0.1
        (flush_published-state polls wrote_index wrote_checkpoint files s)
        (EnsuresFresh-HasFreshRows (ensure_full_query_cache polls index_bytes s)
          (ensure_full_query_cache-EnsuresFresh polls index_bytes s fresh))

  -- Nothing is said of rows behind a cancellation.
  pub after_cut :
      (interrupted cut : Bool) (s t : LiveDriveState)
      → Step cut s t
      → IsFresh (interrupted || s.query_cache_dirty) s.current_rows_cache s.current_graph
      → IsFresh ((interrupted || cut) || t.query_cache_dirty) t.current_rows_cache t.current_graph
  after_cut true cut s t step fresh = tt
  after_cut false cut s t step fresh = Step-IsFresh step fresh
