-- ===== src/Live/Publish/Fresh.antt =====
-- That rows which count as clean are the projection of the graph.
use teamy_mft.Common.{
  ℕ, ◌+◌, ◌≤◌, ◌≡◌, refl, Bool, true, false, ◌&&◌, ◌||◌, not, Option, none, some, List, [], ◌∷◌,
  ◌==◌, ltb, arith, inl, inr, Bool-cases,
}
use teamy_mft.Common.Bytes.{Bytes}
use teamy_mft.Common.Result.{Result, ok, err}
use teamy_mft.Live.Graph.{
  UsnConstants, UsnEvent, UsnReadBatch, LiveDriveGraph, affects_topology, apply_event,
}
use teamy_mft.Live.Overlay.{diff_overlay_rows}
use teamy_mft.Live.State.{
  SearchIndexPathRow, LiveDriveState, LiveError, cancelled, apply_events, finish_refresh,
  refresh_from_journal,
}
use teamy_mft.Live.Observe.{ObservedUsnEvent, observe_events, finish_observation, observe_batch}
use teamy_mft.Live.Observe.Agreement.{Agrees, events-Agrees, observe_batch-refresh_from_journal}
use teamy_mft.Live.Publish.{
  Polls, rebuild, Outcome, is_some, project_rows, store_current, store_overlay,
  ensure_current_query_cache, build_overlay, ensure_overlay, ensure_full_query_cache,
}

-- Rows that do not count as stale are cached, and are the projection of the graph.
abbrev pub IsFresh : Bool → Option (List SearchIndexPathRow) → LiveDriveGraph → Type 0
IsFresh true cache graph = Unit
IsFresh false cache graph =
    (rows : List SearchIndexPathRow) × (cache ≡ some rows) × (project_rows false graph ≡ ok rows)

abbrev pub HasFreshRows : LiveDriveState → Type 0
HasFreshRows s = IsFresh s.query_cache_dirty s.current_rows_cache s.current_graph

abbrev pub is_cancellation : LiveError → Bool
is_cancellation cancelled = true
is_cancellation _ = false

-- An operation that was cut short.
abbrev pub is_interrupted : {A : Type 0} → Result LiveError A → Bool
is_interrupted (ok a) = false
is_interrupted (err e) = is_cancellation e

pub IsFresh-or :
    (b dirty : Bool) (cache : Option (List SearchIndexPathRow)) (graph : LiveDriveGraph)
    → IsFresh dirty cache graph
    → IsFresh (b || dirty) cache graph
IsFresh-or true dirty cache graph h = tt
IsFresh-or false dirty cache graph h = h

-- Events that are all skipped leave the graph.
abbrev Counts : ℕ → LiveDriveGraph → Option ℕ × LiveDriveGraph → Type 0
Counts before graph (none, g) = Unit
Counts before graph (some applied, g) = (before ≤ applied) × ((applied ≡ before) → g ≡ graph)

apply_events-Counts :
    (w : UsnConstants) (is_cancelled : ℕ → Bool) (polls : ℕ) (events : List UsnEvent)
    (graph : LiveDriveGraph) (applied : ℕ)
    → Counts applied graph (apply_events w is_cancelled polls events graph applied)
unfolding apply_events
apply_events-Counts w is_cancelled polls [] graph applied = (omega arith, λ e. refl)
apply_events-Counts w is_cancelled polls (event ∷ events) graph applied =
    elim (Bool-cases (is_cancelled polls)) [
      | inl stop ↦ rw stop tt
      | inr go ↦ elim (Bool-cases (affects_topology w event)) [
        | inl affects ↦
            rw (go, affects)
              (later
                (apply_events w is_cancelled (polls + 1) events (apply_event w event graph)
                  (applied + 1))
                (apply_event w event graph)
                (apply_events-Counts w is_cancelled (polls + 1) events (apply_event w event graph)
                  (applied + 1)))
        | inr skipped ↦
            rw (go, skipped) (apply_events-Counts w is_cancelled (polls + 1) events graph applied)
      ]
    ]
  where
    later :
        (result : Option ℕ × LiveDriveGraph) (next : LiveDriveGraph)
        → Counts (applied + 1) next result
        → Counts applied graph result
    later (none, g) next h = tt
    later (some n, g) next h = (omega (arith, h.0), λ e. absurd (omega (arith, h.0, e)))

finish_refresh-IsFresh :
    (next_usn : ℕ) (s : LiveDriveState) (applied : Option ℕ × LiveDriveGraph)
    → Counts 0 s.current_graph applied
    → HasFreshRows s
    → let r = finish_refresh next_usn s applied in
      IsFresh (is_interrupted r.0 || r.1.query_cache_dirty) r.1.current_rows_cache r.1.current_graph
unfolding finish_refresh
finish_refresh-IsFresh next_usn s (none, graph) counts fresh = tt
finish_refresh-IsFresh next_usn s (some applied, graph) counts fresh =
    elim (Bool-cases (ltb 0 applied)) [
      | inl some_applied ↦ rw some_applied tt
      | inr skipped ↦
          let same : graph ≡ s.current_graph = counts.1 (ground (arith, skipped)) in
          rw (skipped, same) fresh
    ]

-- A refresh keeps it, unless it is cancelled.
pub refresh_from_journal-IsFresh :
    (w : UsnConstants) (is_cancelled : ℕ → Bool) (batch : Result LiveError UsnReadBatch)
    (s : LiveDriveState)
    → HasFreshRows s
    → let r = refresh_from_journal w is_cancelled batch s in
      IsFresh (is_interrupted r.0 || r.1.query_cache_dirty) r.1.current_rows_cache r.1.current_graph
unfolding refresh_from_journal
refresh_from_journal-IsFresh w is_cancelled (err error) s fresh =
    IsFresh-or (is_cancellation error) s.query_cache_dirty s.current_rows_cache s.current_graph
      fresh
refresh_from_journal-IsFresh w is_cancelled (ok batch) s fresh =
    elim (Bool-cases (batch.next_usn == s.current_next_usn)) [
      | inl same ↦ rw same fresh
      | inr new ↦ rw new (
          finish_refresh-IsFresh batch.next_usn s
            (apply_events w is_cancelled 0 batch.events s.current_graph 0)
            (apply_events-Counts w is_cancelled 0 batch.events s.current_graph 0) fresh)
    ]

finish-interrupted :
    (next_usn : ℕ) (s : LiveDriveState) (a : Option ℕ × LiveDriveGraph)
    (o : Option (List ObservedUsnEvent) × LiveDriveGraph)
    → Agrees 0 a o
    → is_interrupted (finish_observation next_usn s o).0
      ≡ is_interrupted (finish_refresh next_usn s a).0
unfolding finish_observation finish_refresh
finish-interrupted next_usn s (none, g) (none, h) same = refl
finish-interrupted next_usn s (some applied, g) (some observed, h) same = refl
finish-interrupted next_usn s (none, g) (some observed, h) same = absurd same
finish-interrupted next_usn s (some applied, g) (none, h) same = absurd same

pub observe_batch-IsFresh :
    (w : UsnConstants) (is_cancelled : ℕ → Bool) (batch : Result LiveError UsnReadBatch)
    (s : LiveDriveState)
    → HasFreshRows s
    → let r = observe_batch w is_cancelled batch s in
      IsFresh (is_interrupted r.0 || r.1.query_cache_dirty) r.1.current_rows_cache r.1.current_graph
unfolding observe_batch refresh_from_journal
observe_batch-IsFresh w is_cancelled (err error) s fresh =
    IsFresh-or (is_cancellation error) s.query_cache_dirty s.current_rows_cache s.current_graph
      fresh
observe_batch-IsFresh w is_cancelled (ok batch) s fresh =
    elim (Bool-cases (batch.next_usn == s.current_next_usn)) [
      | inl same ↦ rw same fresh
      | inr new ↦
          let applied = apply_events w is_cancelled 0 batch.events s.current_graph 0 in
          let observed = observe_events w is_cancelled 0 batch.events s.current_graph in
          let agrees = events-Agrees w is_cancelled 0 batch.events s.current_graph 0 in
          let state =
            observe_batch-refresh_from_journal w is_cancelled batch s (ground (arith, new)) in
          let state' : (finish_observation batch.next_usn s observed).1
              ≡ (finish_refresh batch.next_usn s applied).1 =
            rw new at state in
          rw (new, finish-interrupted batch.next_usn s applied observed agrees, state')
            (finish_refresh-IsFresh batch.next_usn s applied
              (apply_events-Counts w is_cancelled 0 batch.events s.current_graph 0) fresh)
    ]

-- Where the rows are ensured, they are fresh whether they counted as stale or not.
abbrev pub EnsuresFresh : Outcome → Type 0
EnsuresFresh (err error, t) = HasFreshRows t
EnsuresFresh (ok _, t) = IsFresh false t.current_rows_cache t.current_graph

pub IsFresh-any :
    (dirty : Bool) (cache : Option (List SearchIndexPathRow)) (graph : LiveDriveGraph)
    → IsFresh false cache graph
    → IsFresh dirty cache graph
IsFresh-any true cache graph h = tt
IsFresh-any false cache graph h = h

pub EnsuresFresh-HasFreshRows : (o : Outcome) → EnsuresFresh o → HasFreshRows o.1
EnsuresFresh-HasFreshRows (err error, t) h = h
EnsuresFresh-HasFreshRows (ok _, t) h =
    IsFresh-any t.query_cache_dirty t.current_rows_cache t.current_graph h

project_rows_answered :
    (is_cancelled : Bool) (graph : LiveDriveGraph) (rows : List SearchIndexPathRow)
    → project_rows is_cancelled graph ≡ ok rows
    → project_rows false graph ≡ ok rows
unfolding project_rows
project_rows_answered true graph rows h = cc
project_rows_answered false graph rows h = h

module _ (polls : Polls) (index_bytes : List SearchIndexPathRow → Result LiveError Bytes) where
  rebuild_projected :
      (found : Result LiveError (List SearchIndexPathRow)) (rows : List SearchIndexPathRow)
      (bytes : Bytes)
      → rebuild polls index_bytes found ≡ ok (rows, bytes)
      → found ≡ ok rows
  unfolding rebuild
  rebuild_projected (err error) rows bytes h = cc
  rebuild_projected (ok found) rows bytes h = ground (arith, h)

  store_current-EnsuresFresh :
      (s : LiveDriveState) (rebuilt : Result LiveError (List SearchIndexPathRow × Bytes))
      → ((rows : List SearchIndexPathRow) (bytes : Bytes)
          → rebuilt ≡ ok (rows, bytes)
          → project_rows false s.current_graph ≡ ok rows)
      → HasFreshRows s
      → EnsuresFresh (store_current s rebuilt)
  unfolding store_current
  store_current-EnsuresFresh s (err error) projected fresh = fresh
  store_current-EnsuresFresh s (ok (rows, bytes)) projected fresh =
      (rows, refl, projected rows bytes refl)

  pub ensure_current_query_cache-EnsuresFresh :
      (s : LiveDriveState)
      → HasFreshRows s
      → EnsuresFresh (ensure_current_query_cache polls index_bytes s)
  unfolding ensure_current_query_cache
  ensure_current_query_cache-EnsuresFresh s fresh =
      let projected = project_rows polls.while_projecting s.current_graph in
      elim (Bool-cases (
        not s.query_cache_dirty
        && (is_some s.current_rows_cache && is_some s.current_index_bytes_cache))) [
          | inl there ↦
              let clean : s.query_cache_dirty ≡ false = ground (arith, there) in
              rw there (rw clean at fresh)
          | inr gone ↦ rw gone (
              store_current-EnsuresFresh s (rebuild polls index_bytes projected)
                (λ rows bytes h.
                  project_rows_answered polls.while_projecting s.current_graph rows
                    (rebuild_projected projected rows bytes h))
                fresh)
        ]

  store_overlay-EnsuresFresh :
      (s : LiveDriveState) (rows : List SearchIndexPathRow) (built : Result LiveError Bytes)
      → IsFresh false s.current_rows_cache s.current_graph
      → EnsuresFresh (store_overlay s rows built)
  unfolding store_overlay
  store_overlay-EnsuresFresh s rows (err error) fresh =
      IsFresh-any s.query_cache_dirty s.current_rows_cache s.current_graph fresh
  store_overlay-EnsuresFresh s rows (ok bytes) fresh = fresh

  build_overlay-EnsuresFresh :
      (cache : Option (List SearchIndexPathRow)) (s : LiveDriveState)
      → IsFresh false s.current_rows_cache s.current_graph
      → EnsuresFresh (build_overlay polls index_bytes cache s)
  unfolding build_overlay
  build_overlay-EnsuresFresh none s fresh =
      IsFresh-any s.query_cache_dirty s.current_rows_cache s.current_graph fresh
  build_overlay-EnsuresFresh (some rows) s fresh =
      store_overlay-EnsuresFresh s (diff_overlay_rows s.base_rows rows)
        (index_bytes (diff_overlay_rows s.base_rows rows)) fresh

  ensure_overlay-EnsuresFresh :
      (ensured : Outcome)
      → EnsuresFresh ensured
      → EnsuresFresh (ensure_overlay polls index_bytes ensured)
  unfolding ensure_overlay
  ensure_overlay-EnsuresFresh (err error, s) fresh = fresh
  ensure_overlay-EnsuresFresh (ok _, s) fresh =
      elim (Bool-cases (is_some s.overlay_rows_cache && is_some s.overlay_index_bytes_cache)) [
        | inl there ↦ rw there fresh
        | inr gone ↦ elim (Bool-cases polls.before_overlay) [
          | inl stop ↦
              rw (gone, stop)
                (IsFresh-any s.query_cache_dirty s.current_rows_cache s.current_graph fresh)
          | inr go ↦ rw (gone, go) (build_overlay-EnsuresFresh s.current_rows_cache s fresh)
        ]
      ]

  pub ensure_full_query_cache-EnsuresFresh :
      (s : LiveDriveState)
      → HasFreshRows s
      → EnsuresFresh (ensure_full_query_cache polls index_bytes s)
  unfolding ensure_full_query_cache
  ensure_full_query_cache-EnsuresFresh s fresh =
      ensure_overlay-EnsuresFresh (ensure_current_query_cache polls index_bytes s)
        (ensure_current_query_cache-EnsuresFresh s fresh)
