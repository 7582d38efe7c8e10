-- ===== src/Live/Publish/Flush.antt =====
-- What a flush publishes, and that every operation keeps the state coherent.
use teamy_mft.Common.{◌≡◌, ◌⊎◌, inl, inr, refl, false, Option, none, some, List, arith}
use teamy_mft.Common.Bytes.{Bytes}
use teamy_mft.Common.Result.{Result, ok, err}
use teamy_mft.Live.Overlay.{diff_overlay_rows}
use teamy_mft.Live.State.{SearchIndexPathRow, LiveDriveState, LiveError, PublishedCheckpoint}
use teamy_mft.Live.Publish.Fresh.{
  IsFresh, HasFreshRows, EnsuresFresh, IsFresh-any, EnsuresFresh-HasFreshRows,
  ensure_full_query_cache-EnsuresFresh,
}
use teamy_mft.Live.Publish.{
  CheckpointWrite, written, not_written, Polls, Published, Outcome, project_rows, store_current,
  store_overlay, rebuild, ensure_current_query_cache, build_overlay, ensure_overlay,
  ensure_full_query_cache, checkpoint_of, write_published, flush_caches, flush_ensured,
  flush_published,
}
use teamy_mft.Live.Publish.Invariant.{IsOverlayOf, IsCoherent, ensure_full_query_cache-IsCoherent}

-- The positions in the journal, the base and the graph are those of another state.
abbrev pub HasCursors : LiveDriveState → LiveDriveState → Type 0
HasCursors s t =
    (t.snapshot_usn ≡ s.snapshot_usn)
    × (t.published_last_usn ≡ s.published_last_usn)
    × (t.current_next_usn ≡ s.current_next_usn)
    × (t.journal_id ≡ s.journal_id)
    × (t.base_rows ≡ s.base_rows)
    × (t.current_graph ≡ s.current_graph)

store_current-HasCursors :
    (s : LiveDriveState) (rebuilt : Result LiveError (List SearchIndexPathRow × Bytes))
    → HasCursors s (store_current s rebuilt).1
unfolding store_current
store_current-HasCursors s (err error) = ground arith
store_current-HasCursors s (ok (rows, bytes)) = ground arith

store_overlay-HasCursors :
    (s : LiveDriveState) (rows : List SearchIndexPathRow) (built : Result LiveError Bytes)
    → HasCursors s (store_overlay s rows built).1
unfolding store_overlay
store_overlay-HasCursors s rows (err error) = ground arith
store_overlay-HasCursors s rows (ok bytes) = ground arith

module _ (polls : Polls) (index_bytes : List SearchIndexPathRow → Result LiveError Bytes) where
  ensure_current_query_cache-HasCursors :
      (s : LiveDriveState) → HasCursors s (ensure_current_query_cache polls index_bytes s).1
  unfolding ensure_current_query_cache
  ensure_current_query_cache-HasCursors s = ground (
    arith,
    store_current-HasCursors s
        (rebuild polls index_bytes (project_rows polls.while_projecting s.current_graph)),
  )

  build_overlay-HasCursors :
      (cache : Option (List SearchIndexPathRow)) (s : LiveDriveState)
      → HasCursors s (build_overlay polls index_bytes cache s).1
  unfolding build_overlay
  build_overlay-HasCursors none s = ground arith
  build_overlay-HasCursors (some rows) s =
      store_overlay-HasCursors s (diff_overlay_rows s.base_rows rows)
        (index_bytes (diff_overlay_rows s.base_rows rows))

  ensure_overlay-HasCursors :
      (s : LiveDriveState) (ensured : Outcome)
      → HasCursors s ensured.1
      → HasCursors s (ensure_overlay polls index_bytes ensured).1
  unfolding ensure_overlay
  ensure_overlay-HasCursors s (err error, t) h = h
  ensure_overlay-HasCursors s (ok _, t) h =
      ground (arith, build_overlay-HasCursors t.current_rows_cache t)

  ensure_full_query_cache-HasCursors :
      (s : LiveDriveState) → HasCursors s (ensure_full_query_cache polls index_bytes s).1
  unfolding ensure_full_query_cache
  ensure_full_query_cache-HasCursors s =
      ensure_overlay-HasCursors s (ensure_current_query_cache polls index_bytes s)
        (ensure_current_query_cache-HasCursors s)

module _ (index_bytes : List SearchIndexPathRow → Result LiveError Bytes) where
  -- The rows are the projection of the graph, and the bytes are the index of their difference to
  -- the base.
  abbrev pub IsOverlayIndex : LiveDriveState → List SearchIndexPathRow → Bytes → Type 0
  IsOverlayIndex s rows bytes =
      (project_rows false s.current_graph ≡ ok rows)
      × (index_bytes (diff_overlay_rows s.base_rows rows) ≡ ok bytes)

  -- What a failure leaves of the files: all of them, or the new index and what the write of the
  -- checkpoint has left of it.
  abbrev pub IsLeft : LiveDriveState → Published → CheckpointWrite → LiveError → Published → Type 0
  IsLeft s files wrote_checkpoint error files' =
      (files' ≡ files)
      ⊎ ((left : Option PublishedCheckpoint) × (rows : List SearchIndexPathRow) × (bytes : Bytes)
          × (wrote_checkpoint ≡ not_written error left)
          × IsOverlayIndex s rows bytes
          × (files' ≡ record { overlay_index = some bytes; checkpoint = left }))

  -- What a flush does to the state and the files, from the outcomes of the two writes.
  abbrev pub IsFlushed :
      LiveDriveState
      → Published
      → Result LiveError (Unit {0})
      → CheckpointWrite
      → Outcome × Published
      → Type 0
  IsFlushed s files wrote_index wrote_checkpoint ((err error, s'), files') =
      IsCoherent index_bytes s'
      × HasFreshRows s'
      × HasCursors s s'
      × IsLeft s files wrote_checkpoint error files'
  IsFlushed s files wrote_index wrote_checkpoint ((ok _, s'), files') =
      IsCoherent index_bytes s'
      × HasFreshRows s'
      × (s'.published_dirty ≡ false)
      × (s'.published_last_usn ≡ s.current_next_usn)
      × (wrote_index ≡ ok tt)
      × (wrote_checkpoint ≡ written)
      × ((rows : List SearchIndexPathRow) × (bytes : Bytes) × IsOverlayIndex s rows bytes
          × (files' ≡ record {
            overlay_index = some bytes;
            checkpoint = some (checkpoint_of s (diff_overlay_rows s.base_rows rows));
          }))

  cached_overlay :
      (base_rows : List SearchIndexPathRow) (cache : Option (List SearchIndexPathRow))
      (overlay : List SearchIndexPathRow)
      → IsOverlayOf base_rows cache (some overlay)
      → (rows : List SearchIndexPathRow) × (cache ≡ some rows)
        × (overlay ≡ diff_overlay_rows base_rows rows)
  cached_overlay base_rows none overlay h = absurd h
  cached_overlay base_rows (some rows) overlay h = (rows, refl, h)

  -- The caches of a state that is coherent and fresh.
  cached-IsOverlayIndex :
      (overlay : List SearchIndexPathRow) (bytes : Bytes) (s t : LiveDriveState)
      → HasCursors s t
      → IsCoherent index_bytes t
      → IsFresh false t.current_rows_cache t.current_graph
      → t.overlay_rows_cache ≡ some overlay
      → t.overlay_index_bytes_cache ≡ some bytes
      → (rows : List SearchIndexPathRow) × (overlay ≡ diff_overlay_rows s.base_rows rows)
        × IsOverlayIndex s rows bytes
  cached-IsOverlayIndex overlay bytes s t keeps c fresh has has' =
      let of_overlay : IsOverlayOf t.base_rows t.current_rows_cache (some overlay) =
        rw has at c.overlay in
      let indexed : index_bytes overlay ≡ ok bytes = rw (has, has') at c.overlay_index in
      let (rows, cached, e) = cached_overlay t.base_rows t.current_rows_cache overlay of_overlay in
      let (projected, cached', projects) = fresh in
      let same : projected ≡ rows = cc in
      let diff : overlay ≡ diff_overlay_rows s.base_rows rows = rw (← keeps.4) e in
      (rows, diff, (rw (← same, ← keeps.5) projects, rw (← diff) indexed))

  write_published-IsFlushed :
      (wrote_index : Result LiveError (Unit {0})) (wrote_checkpoint : CheckpointWrite)
      (overlay : List SearchIndexPathRow) (bytes : Bytes) (s t : LiveDriveState) (files : Published)
      → HasCursors s t
      → IsCoherent index_bytes t
      → IsFresh false t.current_rows_cache t.current_graph
      → t.overlay_rows_cache ≡ some overlay
      → t.overlay_index_bytes_cache ≡ some bytes
      → IsFlushed s files wrote_index wrote_checkpoint
          (write_published wrote_index wrote_checkpoint overlay bytes t files)
  unfolding write_published
  write_published-IsFlushed (err error) wrote_checkpoint overlay bytes s t files keeps c fresh has
        has' =
      (
        c,
        IsFresh-any t.query_cache_dirty t.current_rows_cache t.current_graph fresh,
        keeps,
        inl refl,
      )
  write_published-IsFlushed (ok _) (not_written error left) overlay bytes s t files keeps c fresh
        has has' =
      let (rows, diff, indexed) = cached-IsOverlayIndex overlay bytes s t keeps c fresh has has' in
      (
        c,
        IsFresh-any t.query_cache_dirty t.current_rows_cache t.current_graph fresh,
        keeps,
        inr (left, rows, bytes, refl, indexed, refl),
      )
  write_published-IsFlushed (ok _) written overlay bytes s t files keeps c fresh has has' =
      let (rows, diff, indexed) = cached-IsOverlayIndex overlay bytes s t keeps c fresh has has' in
      (
        record {
          dirty = ground arith;
          overlay = c.overlay;
          current_index = c.current_index;
          overlay_index = c.overlay_index;
          cached = c.cached;
        },
        IsFresh-any t.query_cache_dirty t.current_rows_cache t.current_graph fresh,
        refl,
        keeps.2,
        refl,
        refl,
        (rows, bytes, indexed, rw (← diff) (ground arith)),
      )

  flush_caches-IsFlushed :
      (overlay : Option (List SearchIndexPathRow)) (bytes : Option Bytes)
      (wrote_index : Result LiveError (Unit {0})) (wrote_checkpoint : CheckpointWrite)
      (s t : LiveDriveState) (files : Published)
      → HasCursors s t
      → IsCoherent index_bytes t
      → IsFresh false t.current_rows_cache t.current_graph
      → t.overlay_rows_cache ≡ overlay
      → t.overlay_index_bytes_cache ≡ bytes
      → IsFlushed s files wrote_index wrote_checkpoint
          (flush_caches overlay bytes wrote_index wrote_checkpoint t files)
  unfolding flush_caches
  flush_caches-IsFlushed none bytes wrote_index wrote_checkpoint s t files keeps c fresh has has' =
      (c, EnsuresFresh-HasFreshRows (ok tt, t) fresh, keeps, inl refl)
  flush_caches-IsFlushed (some overlay) none wrote_index wrote_checkpoint s t files keeps c fresh
        has has' =
      (c, EnsuresFresh-HasFreshRows (ok tt, t) fresh, keeps, inl refl)
  flush_caches-IsFlushed (some overlay) (some bytes) wrote_index wrote_checkpoint s t files keeps c
        fresh has has' =
      write_published-IsFlushed wrote_index wrote_checkpoint overlay bytes s t files keeps c fresh
        has has'

  flush_ensured-IsFlushed :
      (wrote_index : Result LiveError (Unit {0})) (wrote_checkpoint : CheckpointWrite)
      (s : LiveDriveState) (files : Published) (ensured : Outcome)
      → HasCursors s ensured.1
      → IsCoherent index_bytes ensured.1
      → EnsuresFresh ensured
      → IsFlushed s files wrote_index wrote_checkpoint
          (flush_ensured wrote_index wrote_checkpoint files ensured)
  unfolding flush_ensured
  flush_ensured-IsFlushed wrote_index wrote_checkpoint s files (err error, t) keeps c fresh =
      (c, fresh, keeps, inl refl)
  flush_ensured-IsFlushed wrote_index wrote_checkpoint s files (ok _, t) keeps c fresh =
      flush_caches-IsFlushed t.overlay_rows_cache t.overlay_index_bytes_cache wrote_index
        wrote_checkpoint s t files keeps c fresh refl refl

  -- From a coherent state whose rows are the projection of its graph where they count as clean,
  -- a flush that succeeds has made both writes, and leaves on disk the index of the difference
  -- between the base and the projection of the graph, with a checkpoint of the state's position in
  -- the journal; the state is not dirty, and the published position is the current one. A flush
  -- that fails keeps the positions, the base and the graph of the state; it leaves both files as
  -- they were, or, where the write of the checkpoint failed, that index and whatever the write has
  -- left of the checkpoint. The state is coherent after either, and its clean rows are the
  -- projection.
  pub flush_published-IsFlushed :
      (polls : Polls) (wrote_index : Result LiveError (Unit {0}))
      (wrote_checkpoint : CheckpointWrite) (s : LiveDriveState) (files : Published)
      → IsCoherent index_bytes s
      → HasFreshRows s
      → IsFlushed s files wrote_index wrote_checkpoint
          (flush_published polls index_bytes wrote_index wrote_checkpoint s files)
  unfolding flush_published
  flush_published-IsFlushed polls wrote_index wrote_checkpoint s files c fresh =
      flush_ensured-IsFlushed wrote_index wrote_checkpoint s files
        (ensure_full_query_cache polls index_bytes s)
        (ensure_full_query_cache-HasCursors polls index_bytes s)
        (ensure_full_query_cache-IsCoherent index_bytes polls s c)
        (ensure_full_query_cache-EnsuresFresh polls index_bytes s fresh)
