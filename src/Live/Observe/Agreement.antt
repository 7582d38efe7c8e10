-- ===== src/Live/Observe/Agreement.antt =====
-- An observation and a refresh leave the same state.
use teamy_mft.Common.{
  ℕ, ◌+◌, ◌≤◌, ◌≡◌, ◌≢◌, refl, Bool, false, Option, none, some, List, [], ◌∷◌, ◌==◌, arith, inl,
  inr, Bool-cases,
}
use teamy_mft.Common.Result.{ok}
use teamy_mft.Live.Graph.{
  UsnConstants, UsnEvent, UsnReadBatch, LiveDriveGraph, affects_topology, apply_event,
}
use teamy_mft.Live.State.{LiveDriveState, apply_events, finish_refresh, refresh_from_journal}
use teamy_mft.Live.Observe.{
  ObservedUsnEvent, is_empty, push_front, observed_event, observe_events, finish_observation,
  observe_batch,
}

-- The loops agree: on the graph, on whether they were cancelled, and on whether any event was
-- applied, where some were applied before.
abbrev pub Agrees :
    ℕ → Option ℕ × LiveDriveGraph → Option (List ObservedUsnEvent) × LiveDriveGraph → Type 0
Agrees before (none, g) (none, h) = g ≡ h
Agrees before (some applied, g) (some observed, h) =
    (g ≡ h) × (before ≤ applied) × ((applied == before) ≡ is_empty observed)
Agrees before (none, g) (some observed, h) = ⊥
Agrees before (some applied, g) (none, h) = ⊥

module _ (w : UsnConstants) (is_cancelled : ℕ → Bool) where
  Agrees-push :
      (before : ℕ) (event : ObservedUsnEvent) (a : Option ℕ × LiveDriveGraph)
      (o : Option (List ObservedUsnEvent) × LiveDriveGraph)
      → Agrees (before + 1) a o
      → Agrees before a (push_front event o.0, o.1)
  Agrees-push before event (none, g) (none, h) same = same
  Agrees-push before event (some applied, g) (some observed, h) same = ground arith
  Agrees-push before event (none, g) (some observed, h) same = same
  Agrees-push before event (some applied, g) (none, h) same = same

  pub events-Agrees :
      (polls : ℕ) (events : List UsnEvent) (graph : LiveDriveGraph) (applied : ℕ)
      → Agrees applied
          (apply_events w is_cancelled polls events graph applied)
          (observe_events w is_cancelled polls events graph)
  unfolding apply_events observe_events
  events-Agrees polls [] graph applied = ground arith
  events-Agrees polls (event ∷ events) graph applied = elim (Bool-cases (is_cancelled polls)) [
    | inl stop ↦ rw stop refl
    | inr go ↦ elim (Bool-cases (affects_topology w event)) [
      | inl affects ↦
          let next = apply_event w event graph in
          rw (go, affects)
            (Agrees-push applied (observed_event w event next)
              (apply_events w is_cancelled (polls + 1) events next (applied + 1))
              (observe_events w is_cancelled (polls + 1) events next)
              (events-Agrees (polls + 1) events next (applied + 1)))
      | inr skipped ↦ rw (go, skipped) (events-Agrees (polls + 1) events graph applied)
    ]
  ]

  finish-Agrees :
      (next_usn : ℕ) (s : LiveDriveState) (a : Option ℕ × LiveDriveGraph)
      (o : Option (List ObservedUsnEvent) × LiveDriveGraph)
      → Agrees 0 a o
      → (finish_observation next_usn s o).1 ≡ (finish_refresh next_usn s a).1
  unfolding finish_observation finish_refresh
  finish-Agrees next_usn s (none, g) (none, h) same = ground arith
  finish-Agrees next_usn s (some applied, g) (some observed, h) same = ground arith
  finish-Agrees next_usn s (none, g) (some observed, h) same = absurd same
  finish-Agrees next_usn s (some applied, g) (none, h) same = absurd same

  -- Where a batch of events moves the position in the journal, and with the same answers of the
  -- polls, an observation leaves exactly the state that a refresh leaves, cancelled or not.
  pub observe_batch-refresh_from_journal :
      (batch : UsnReadBatch) (s : LiveDriveState)
      → batch.next_usn ≢ s.current_next_usn
      → (observe_batch w is_cancelled (ok batch) s).1
        ≡ (refresh_from_journal w is_cancelled (ok batch) s).1
  unfolding observe_batch refresh_from_journal
  observe_batch-refresh_from_journal batch s moved =
      let new : batch.next_usn == s.current_next_usn ≡ false = ground arith in
      rw new (
        finish-Agrees batch.next_usn s
          (apply_events w is_cancelled 0 batch.events s.current_graph 0)
          (observe_events w is_cancelled 0 batch.events s.current_graph)
          (events-Agrees 0 batch.events s.current_graph 0))
