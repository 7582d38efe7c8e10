-- ===== src/Live/State/Replay.antt =====
-- What a refresh does that a cancellation cuts short, and the refresh that follows it.
use teamy_mft.Common.{
  ℕ, ◌+◌, ◌≡◌, ◌≢◌, refl, ap, Bool, false, none, some, List, [], ◌∷◌, ◌++◌, ◌==◌, if◌then◌else◌,
  arith, Bool-cases, inl, inr, ◌⊎◌, append_assoc,
}
use teamy_mft.Common.Result.{ok, err}
use teamy_mft.Live.Graph.{UsnConstants, UsnEvent, UsnReadBatch, LiveDriveGraph, affects_topology}
use teamy_mft.Live.Graph.Batches.{SameGraph, step, after_events, after_events-again}
use teamy_mft.Live.State.{
  LiveDriveState, cancelled, apply_events, finish_refresh, refresh_from_journal,
}

module _ (w : UsnConstants) where
  unfoldable pub applied_count : List UsnEvent → ℕ → ℕ
  applied_count [] applied = applied
  applied_count (event ∷ events) applied =
      applied_count events (if affects_topology w event then applied + 1 else applied)

  -- The loop ends with the whole batch applied, or is cancelled with a part of it applied.
  pub apply_events_lem :
      (is_cancelled : ℕ → Bool) (polls : ℕ) (events : List UsnEvent) (graph : LiveDriveGraph)
      (applied : ℕ)
      → ((started : List UsnEvent) × (rest : List UsnEvent) × (events ≡ started ++ rest)
          × (apply_events w is_cancelled polls events graph applied
              ≡ (none, after_events w started graph)))
        ⊎ (apply_events w is_cancelled polls events graph applied
            ≡ (some (applied_count events applied), after_events w events graph))
  unfolding apply_events after_events applied_count
  apply_events_lem is_cancelled polls [] graph applied = inr refl
  apply_events_lem is_cancelled polls (event ∷ events) graph applied =
      elim (Bool-cases (is_cancelled polls)) [
        | inl stop ↦ inl ([], event ∷ events, refl, rw stop refl)
        | inr go ↦
            elim (apply_events_lem is_cancelled (polls + 1) events (step w event graph)
              (if affects_topology w event then applied + 1 else applied)) [
                | inl (started, rest, split, e) ↦
                    inl (event ∷ started, rest, ap (λ l. event ∷ l) split, rw go e)
                | inr e ↦ inr (rw go e)
              ]
      ]

  apply_events-uncancelled :
      (polls : ℕ) (events : List UsnEvent) (graph : LiveDriveGraph) (applied : ℕ)
      → apply_events w (λ _. false) polls events graph applied
        ≡ (some (applied_count events applied), after_events w events graph)
  unfolding apply_events after_events applied_count
  apply_events-uncancelled polls [] graph applied = refl
  apply_events-uncancelled polls (event ∷ events) graph applied =
      apply_events-uncancelled (polls + 1) events (step w event graph)
        (if affects_topology w event then applied + 1 else applied)

-- Two states that differ in nothing but the order of the graph's nodes and links.
pub record SameState (s t : LiveDriveState) : Type 0 where
  pub same_graph : SameGraph s.current_graph t.current_graph
  pub same_rest : record s { current_graph = t.current_graph } ≡ t

module _ (w : UsnConstants) where
  cancelled_lem :
      (is_cancelled : ℕ → Bool) (batch : UsnReadBatch) (s s' : LiveDriveState)
      → refresh_from_journal w is_cancelled (ok batch) s ≡ (err cancelled, s')
      → (started : List UsnEvent) × (rest : List UsnEvent) × (batch.events ≡ started ++ rest)
        × (record s { current_graph = after_events w started s.current_graph } ≡ s')
  unfolding refresh_from_journal
  cancelled_lem is_cancelled batch s s' h =
      elim (Bool-cases (batch.next_usn == s.current_next_usn)) [
        | inl same ↦ absurd (ground (arith, h, same))
        | inr new ↦ elim (apply_events_lem w is_cancelled 0 batch.events s.current_graph 0) [
          | inl (started, rest, split, e) ↦ (started, rest, split, ground (arith, h, new, e))
          | inr e ↦ absurd (ground (arith, h, new, e))
        ]
      ]

  refresh-uncancelled :
      (batch : UsnReadBatch) (s : LiveDriveState)
      → batch.next_usn == s.current_next_usn ≡ false
      → refresh_from_journal w (λ _. false) (ok batch) s
        ≡ finish_refresh batch.next_usn s
            (some (applied_count w batch.events 0), after_events w batch.events s.current_graph)
  unfolding refresh_from_journal
  refresh-uncancelled batch s h =
      rw (h, apply_events-uncancelled w 0 batch.events s.current_graph 0) refl

-- A later read of the journal, which gives the events of an earlier one and perhaps more.
abbrev pub extended : UsnReadBatch → List UsnEvent → ℕ → UsnReadBatch
extended batch more next_usn = record { next_usn = next_usn; events = batch.events ++ more }

-- A refresh that is cancelled, wherever in the batch, reports so; a later refresh that reads the
-- same events, perhaps with more behind them, and is not cancelled then gives the same state as if
-- there had been no cancelled one, up to the order of the graph's nodes and links, provided that
-- the later read moves the position in the journal.
pub cancelled-refresh_from_journal :
    (w : UsnConstants) (is_cancelled : ℕ → Bool) (batch : UsnReadBatch) (more : List UsnEvent)
    (next_usn : ℕ) (s s' : LiveDriveState)
    → refresh_from_journal w is_cancelled (ok batch) s ≡ (err cancelled, s')
    → next_usn ≢ s.current_next_usn
    → (t : LiveDriveState) × (t' : LiveDriveState) × (refresh_from_journal w
          (λ _. false)
          (ok (extended batch more next_usn))
          s
        ≡ (ok tt, t))
      × (refresh_from_journal w (λ _. false) (ok (extended batch more next_usn)) s' ≡ (ok tt, t'))
      × SameState t' t
unfolding finish_refresh
cancelled-refresh_from_journal w is_cancelled batch more next_usn s s' h moved =
    let (started, rest, split, e) = cancelled_lem w is_cancelled batch s s' h in
    let retry = extended batch more next_usn in
    let whole : batch.events ++ more ≡ started ++ (rest ++ more) =
      rw split (append_assoc started rest more) in
    let again : SameGraph
        (after_events w (batch.events ++ more) (after_events w started s.current_graph))
        (after_events w (batch.events ++ more) s.current_graph) =
      rw whole (after_events-again w started (rest ++ more) s.current_graph) in
    let fresh : next_usn == s.current_next_usn ≡ false = ground arith in
    let partial : LiveDriveState = record s {
      current_graph = after_events w started s.current_graph;
    } in
    (
      _,
      _,
      refresh-uncancelled w retry s fresh,
      rw (← e) (refresh-uncancelled w retry partial fresh),
      record { same_graph = again; same_rest = refl },
    )
