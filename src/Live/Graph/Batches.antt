-- ===== src/Live/Graph/Batches.antt =====
-- What a batch of events does to the graph, also to one that has a part of the batch already.
use teamy_mft.Common.{
  ℕ, ◌≡◌, refl, sym, ap, ◌∙◌, Bool, Option, none, some, List, [], ◌∷◌, ◌++◌, if◌then◌else◌, arith,
}
use teamy_mft.Live.Graph.{UsnConstants, UsnEvent, LiveDriveGraph, affects_topology, apply_event}
use teamy_mft.Texts.{override}
use teamy_mft.Live.Graph.Effects.{
  link_state, directory_state, link_effect, directory_effect, link_state-apply_event,
  directory_state-apply_event, link_effect-skipped,
}

-- Two graphs that hold the same files with the same links.
pub record SameGraph (g h : LiveDriveGraph) : Type 0 where
  pub same_letter : g.drive_letter ≡ h.drive_letter
  pub same_root : g.root_frn ≡ h.root_frn
  pub same_links :
      (frn parent : ℕ) (name : List ℕ) → link_state g frn parent name ≡ link_state h frn parent name
  pub same_directories : (frn : ℕ) → directory_state g frn ≡ directory_state h frn

module _ (w : UsnConstants) where
  abbrev pub step : UsnEvent → LiveDriveGraph → LiveDriveGraph
  step event graph = if affects_topology w event then apply_event w event graph else graph

  -- The graph after a batch.
  unfoldable pub after_events : List UsnEvent → LiveDriveGraph → LiveDriveGraph
  after_events [] graph = graph
  after_events (event ∷ events) graph = after_events events (step event graph)

  -- What the last event that speaks of a link says.
  pub last_link_effect : List UsnEvent → ℕ → ℕ → List ℕ → Option Bool
  last_link_effect [] frn parent name = none
  last_link_effect (event ∷ events) frn parent name =
      override (last_link_effect events frn parent name) (link_effect w event frn parent name)

  abbrev topology_effect : UsnEvent → ℕ → Option Bool
  topology_effect event frn =
      if affects_topology w event then directory_effect w event frn else none

  pub last_directory_effect : List UsnEvent → ℕ → Option Bool
  last_directory_effect [] frn = none
  last_directory_effect (event ∷ events) frn =
      override (last_directory_effect events frn) (topology_effect event frn)

override_assoc : (a b c : Option Bool) → override (override a b) c ≡ override a (override b c)
override_assoc none b c = refl
override_assoc (some a) b c = refl

-- A value that was overridden by a part of a run is overridden by the whole run.
override_again :
    (a b c : Option Bool) → override (override a b) (override b c) ≡ override (override a b) c
override_again none none c = refl
override_again none (some b) c = refl
override_again (some a) b c = refl

module _ (w : UsnConstants) where
  link_state-step :
      (event : UsnEvent) (graph : LiveDriveGraph) (frn parent : ℕ) (name : List ℕ)
      → link_state (step w event graph) frn parent name
        ≡ override (link_effect w event frn parent name) (link_state graph frn parent name)
  link_state-step event graph frn parent name = ground (
    arith,
    link_state-apply_event w event graph frn parent name,
    link_effect-skipped w event frn parent name,
  )

  -- After a batch a link has the flag that the last event about it gives, or the one it had.
  pub link_state-after_events :
      (events : List UsnEvent) (graph : LiveDriveGraph) (frn parent : ℕ) (name : List ℕ)
      → link_state (after_events w events graph) frn parent name
        ≡ override (last_link_effect w events frn parent name) (link_state graph frn parent name)
  unfolding after_events last_link_effect
  link_state-after_events [] graph frn parent name = refl
  link_state-after_events (event ∷ events) graph frn parent name =
      link_state-after_events events (step w event graph) frn parent name
      ∙ ap (override (last_link_effect w events frn parent name))
          (link_state-step event graph frn parent name)
      ∙ sym (override_assoc (last_link_effect w events frn parent name) _ _)

  directory_state-after_events :
      (events : List UsnEvent) (graph : LiveDriveGraph) (frn : ℕ)
      → directory_state (after_events w events graph) frn
        ≡ override (last_directory_effect w events frn) (directory_state graph frn)
  unfolding after_events last_directory_effect
  directory_state-after_events [] graph frn = refl
  directory_state-after_events (event ∷ events) graph frn =
      let stepped : directory_state (step w event graph) frn
          ≡ override (topology_effect w event frn) (directory_state graph frn) =
        ground (arith, directory_state-apply_event w event graph frn) in
      directory_state-after_events events (step w event graph) frn
      ∙ ap (override (last_directory_effect w events frn)) stepped
      ∙ sym (override_assoc (last_directory_effect w events frn) _ _)

  after_events-append :
      (events more : List UsnEvent) (graph : LiveDriveGraph)
      → after_events w (events ++ more) graph ≡ after_events w more (after_events w events graph)
  unfolding after_events
  after_events-append [] more graph = refl
  after_events-append (event ∷ events) more graph =
      after_events-append events more (step w event graph)

  last_link_effect-append :
      (events more : List UsnEvent) (frn parent : ℕ) (name : List ℕ)
      → last_link_effect w (events ++ more) frn parent name
        ≡ override
            (last_link_effect w more frn parent name)
            (last_link_effect w events frn parent name)
  unfolding last_link_effect
  last_link_effect-append [] more frn parent name =
      elim (last_link_effect w more frn parent name) as (λ a. a ≡ override a none) [
        | none ↦ refl
        | some a ↦ refl
      ]
  last_link_effect-append (event ∷ events) more frn parent name =
      ap (λ a. override a (link_effect w event frn parent name))
        (last_link_effect-append events more frn parent name)
      ∙ override_assoc (last_link_effect w more frn parent name) _ _

  last_directory_effect-append :
      (events more : List UsnEvent) (frn : ℕ)
      → last_directory_effect w (events ++ more) frn
        ≡ override (last_directory_effect w more frn) (last_directory_effect w events frn)
  unfolding last_directory_effect
  last_directory_effect-append [] more frn =
      elim (last_directory_effect w more frn) as (λ a. a ≡ override a none) [
        | none ↦ refl
        | some a ↦ refl
      ]
  last_directory_effect-append (event ∷ events) more frn =
      ap (λ a. override a (topology_effect w event frn))
        (last_directory_effect-append events more frn)
      ∙ override_assoc (last_directory_effect w more frn) _ _

  after_events-keeps :
      (events : List UsnEvent) (graph : LiveDriveGraph)
      → ((after_events w events graph).drive_letter ≡ graph.drive_letter)
        × ((after_events w events graph).root_frn ≡ graph.root_frn)
  unfolding after_events apply_event
  after_events-keeps [] graph = (refl, refl)
  after_events-keeps (event ∷ events) graph =
      ground (arith, after_events-keeps events (step w event graph))

  -- Applying a batch, or more, to a graph that has a part of the batch gives the same graph.
  pub after_events-again :
      (events more : List UsnEvent) (graph : LiveDriveGraph)
      → SameGraph
          (after_events w (events ++ more) (after_events w events graph))
          (after_events w (events ++ more) graph)
  after_events-again events more graph =
      let started = after_events w events graph in
      let whole = events ++ more in
      record {
        same_letter = ground (
          arith,
          after_events-keeps whole started,
          after_events-keeps events graph,
          after_events-keeps whole graph,
        );
        same_root = ground (
          arith,
          after_events-keeps whole started,
          after_events-keeps events graph,
          after_events-keeps whole graph,
        );
        same_links = λ frn parent name.
            rw
              (
                link_state-after_events whole started frn parent name,
                link_state-after_events events graph frn parent name,
                link_state-after_events whole graph frn parent name,
                last_link_effect-append events more frn parent name,
              )
              (override_again (last_link_effect w more frn parent name)
                (last_link_effect w events frn parent name) (link_state graph frn parent name));
        same_directories = λ frn.
            rw
              (
                directory_state-after_events whole started frn,
                directory_state-after_events events graph frn,
                directory_state-after_events whole graph frn,
                last_directory_effect-append events more frn,
              )
              (override_again (last_directory_effect w more frn)
                (last_directory_effect w events frn) (directory_state graph frn));
      }
