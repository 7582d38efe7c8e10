-- ===== src/Live/Publish/Invariant.antt =====
-- What the caches and flags of a live drive say at all times, and what a flush publishes.
use teamy_mft.Common.{
  ℕ, ◌≡◌, refl, Bool, true, false, ◌&&◌, not, Option, none, some, List, ◌==◌, arith, inl, inr,
  Bool-cases,
}
use teamy_mft.Common.Bytes.{Bytes}
use teamy_mft.Common.Result.{Result, ok, err}
use teamy_mft.Live.Graph.{UsnConstants, UsnReadBatch, LiveDriveGraph}
use teamy_mft.Live.Overlay.{diff_overlay_rows}
use teamy_mft.Live.State.{
  SearchIndexPathRow, LiveDriveState, LiveError, apply_events, finish_refresh, refresh_from_journal,
}
use teamy_mft.Live.Publish.{
  Polls, rebuild, Outcome, is_some, project_rows, store_current, store_overlay,
  ensure_current_query_cache, build_overlay, ensure_overlay, ensure_full_query_cache,
}

-- The overlay that is cached is that of the rows that are cached.
abbrev pub IsOverlayOf :
    List SearchIndexPathRow
    → Option (List SearchIndexPathRow)
    → Option (List SearchIndexPathRow)
    → Type 0
IsOverlayOf base_rows current none = Unit
IsOverlayOf base_rows none (some overlay) = ⊥
IsOverlayOf base_rows (some rows) (some overlay) = overlay ≡ diff_overlay_rows base_rows rows

-- The index that is cached is that of the rows that are cached.
abbrev pub IsIndexOf :
    (List SearchIndexPathRow → Result LiveError Bytes)
    → Option (List SearchIndexPathRow)
    → Option Bytes
    → Type 0
IsIndexOf index_bytes none none = Unit
IsIndexOf index_bytes none (some bytes) = ⊥
IsIndexOf index_bytes (some rows) none = ⊥
IsIndexOf index_bytes (some rows) (some bytes) = index_bytes rows ≡ ok bytes

pub record IsCoherent (index_bytes : List SearchIndexPathRow → Result LiveError Bytes)
    (s : LiveDriveState) : Type 0 where
  pub dirty : s.published_dirty ≡ not (s.current_next_usn == s.published_last_usn)
  pub overlay : IsOverlayOf s.base_rows s.current_rows_cache s.overlay_rows_cache
  pub current_index : IsIndexOf index_bytes s.current_rows_cache s.current_index_bytes_cache
  pub overlay_index : IsIndexOf index_bytes s.overlay_rows_cache s.overlay_index_bytes_cache
  pub cached : s.query_cache_dirty ≡ false → is_some s.current_rows_cache ≡ true

module _ (index_bytes : List SearchIndexPathRow → Result LiveError Bytes) where
  finish_refresh-IsCoherent :
      (next_usn : ℕ) (s : LiveDriveState) (applied : Option ℕ × LiveDriveGraph)
      → IsCoherent index_bytes s
      → IsCoherent index_bytes (finish_refresh next_usn s applied).1
  unfolding finish_refresh
  finish_refresh-IsCoherent next_usn s (none, graph) c = record {
    dirty = c.dirty;
    overlay = c.overlay;
    current_index = c.current_index;
    overlay_index = c.overlay_index;
    cached = c.cached;
  }
  finish_refresh-IsCoherent next_usn s (some applied, graph) c = record {
    dirty = refl;
    overlay = c.overlay;
    current_index = c.current_index;
    overlay_index = c.overlay_index;
    cached = λ clean. c.cached (ground (arith, clean));
  }

  pub refresh_from_journal-IsCoherent :
      (w : UsnConstants) (is_cancelled : ℕ → Bool) (batch : Result LiveError UsnReadBatch)
      (s : LiveDriveState)
      → IsCoherent index_bytes s
      → IsCoherent index_bytes (refresh_from_journal w is_cancelled batch s).1
  unfolding refresh_from_journal
  refresh_from_journal-IsCoherent w is_cancelled (err error) s c = c
  refresh_from_journal-IsCoherent w is_cancelled (ok batch) s c =
      elim (Bool-cases (batch.next_usn == s.current_next_usn)) [
        | inl same ↦ rw same (record {
          dirty = refl;
          overlay = c.overlay;
          current_index = c.current_index;
          overlay_index = c.overlay_index;
          cached = c.cached;
        })
        | inr new ↦ rw new (
            finish_refresh-IsCoherent batch.next_usn s
              (apply_events w is_cancelled 0 batch.events s.current_graph 0) c)
      ]

  -- What a rebuild stores is an index of the rows that it stores.
  rebuild_lem :
      (polls : Polls) (found : Result LiveError (List SearchIndexPathRow))
      (rows : List SearchIndexPathRow) (bytes : Bytes)
      → rebuild polls index_bytes found ≡ ok (rows, bytes)
      → index_bytes rows ≡ ok bytes
  unfolding rebuild
  rebuild_lem polls (err error) rows bytes h = cc
  rebuild_lem polls (ok found) rows bytes h = ground (arith, h)

  store_current-IsCoherent :
      (s : LiveDriveState) (rebuilt : Result LiveError (List SearchIndexPathRow × Bytes))
      → ((rows : List SearchIndexPathRow) (bytes : Bytes)
          → rebuilt ≡ ok (rows, bytes)
          → index_bytes rows ≡ ok bytes)
      → IsCoherent index_bytes s
      → IsCoherent index_bytes (store_current s rebuilt).1
  unfolding store_current
  store_current-IsCoherent s (err error) indexed c = c
  store_current-IsCoherent s (ok (rows, bytes)) indexed c = record {
    dirty = c.dirty;
    overlay = tt;
    current_index = indexed rows bytes refl;
    overlay_index = tt;
    cached = λ clean. refl;
  }

  pub ensure_current_query_cache-IsCoherent :
      (polls : Polls) (s : LiveDriveState)
      → IsCoherent index_bytes s
      → IsCoherent index_bytes (ensure_current_query_cache polls index_bytes s).1
  unfolding ensure_current_query_cache
  ensure_current_query_cache-IsCoherent polls s c =
      elim (Bool-cases (
        not s.query_cache_dirty
        && (is_some s.current_rows_cache && is_some s.current_index_bytes_cache))) [
          | inl clean ↦ rw clean c
          | inr stale ↦ rw stale (
              store_current-IsCoherent s _
                (rebuild_lem polls (project_rows polls.while_projecting s.current_graph)) c)
        ]

  store_overlay-IsCoherent :
      (s : LiveDriveState) (rows current_rows : List SearchIndexPathRow)
      (built : Result LiveError Bytes)
      → s.current_rows_cache ≡ some current_rows
      → rows ≡ diff_overlay_rows s.base_rows current_rows
      → built ≡ index_bytes rows
      → IsCoherent index_bytes s
      → IsCoherent index_bytes (store_overlay s rows built).1
  unfolding store_overlay
  store_overlay-IsCoherent s rows current_rows (err error) has diff indexed c = c
  store_overlay-IsCoherent s rows current_rows (ok bytes) has diff indexed c = record {
    dirty = c.dirty;
    overlay = rw has diff;
    current_index = c.current_index;
    overlay_index = ground (arith, indexed);
    cached = c.cached;
  }

  build_overlay-IsCoherent :
      (polls : Polls) (cache : Option (List SearchIndexPathRow)) (s : LiveDriveState)
      → s.current_rows_cache ≡ cache
      → IsCoherent index_bytes s
      → IsCoherent index_bytes (build_overlay polls index_bytes cache s).1
  unfolding build_overlay
  build_overlay-IsCoherent polls none s has c = c
  build_overlay-IsCoherent polls (some rows) s has c =
      store_overlay-IsCoherent s (diff_overlay_rows s.base_rows rows) rows
        (index_bytes (diff_overlay_rows s.base_rows rows)) has refl refl c

  ensure_overlay-IsCoherent :
      (polls : Polls) (ensured : Outcome)
      → IsCoherent index_bytes ensured.1
      → IsCoherent index_bytes (ensure_overlay polls index_bytes ensured).1
  unfolding ensure_overlay
  ensure_overlay-IsCoherent polls (err error, s) c = c
  ensure_overlay-IsCoherent polls (ok _, s) c =
      elim (Bool-cases (is_some s.overlay_rows_cache && is_some s.overlay_index_bytes_cache)) [
        | inl there ↦ simp there c
        | inr gone ↦ elim (Bool-cases polls.before_overlay) [
          | inl stop ↦ simp (gone, stop) c
          | inr go ↦ simp (gone, go) (build_overlay-IsCoherent polls s.current_rows_cache s refl c)
        ]
      ]

  pub ensure_full_query_cache-IsCoherent :
      (polls : Polls) (s : LiveDriveState)
      → IsCoherent index_bytes s
      → IsCoherent index_bytes (ensure_full_query_cache polls index_bytes s).1
  unfolding ensure_full_query_cache
  ensure_full_query_cache-IsCoherent polls s c =
      ensure_overlay-IsCoherent polls (ensure_current_query_cache polls index_bytes s)
        (ensure_current_query_cache-IsCoherent polls s c)
