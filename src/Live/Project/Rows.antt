-- ===== src/Live/Project/Rows.antt =====
-- The paths of one file, and those of all files.
use teamy_mft.Common.{
  ℕ, zero, suc, ◌<◌, ◌≡◌, refl, Bool, true, ◌||◌, some, List, [], ◌∷◌, ◌==◌, arith, inl, inr,
  Bool-cases, Option-cases, length,
}
use teamy_mft.Common.Sorted.{contains}
use teamy_mft.Common.Dict.{
  Dict, nat_eq, string_eq, get, entry, get-entry, text_eq, text_eq_iff, AllEntries,
  AllEntries-entry, get-cons, get_nil,
}
use teamy_mft.Texts.{state_by}
use teamy_mft.Live.Graph.{LiveNode, LiveDriveGraph}
use teamy_mft.Live.Project.{
  ProjectedPath, Memo, or_live, root_path, projected_paths_for, add_states, project_all,
}
use teamy_mft.Live.Project.Chains.{Chain, AllChains, unvisited}
use teamy_mft.Live.Project.Sound.{IsSound, projected_paths_for-Sound}
use teamy_mft.Live.Project.Complete.{path_flag, Shows, Shows-entry, Shows-weaken, Shows-or_live}
use teamy_mft.Live.Project.Acyclic.{
  Descends, IsComplete, AreComplete, Complete, remember-Complete, root-IsComplete,
  unknown-IsComplete, project_node-Complete,
}

module _ (graph : LiveDriveGraph) (rank : ℕ → ℕ) (descends : Descends graph rank) where
  -- The files under way are of greater rank.
  abbrev IsAbove : List ℕ → ℕ → Type 0
  IsAbove visiting frn = (x : ℕ) → contains visiting x ≡ true → rank frn < rank x

  projected_paths_for-Complete :
      (fuel : ℕ) (visiting : List ℕ) (frn : ℕ) (memo : Memo)
      → IsAbove visiting frn
      → AreComplete graph memo
      → Complete graph frn (projected_paths_for fuel graph visiting frn memo)
  unfolding projected_paths_for
  projected_paths_for-Complete zero visiting frn memo above all r got = absurd (cc)
  projected_paths_for-Complete (suc fuel) visiting frn memo above all r got =
      elim (Option-cases (get frn memo)) [
        | inr (cached, e) ↦
            let got' : some (cached, memo) ≡ some r = rw e at got in
            let same_paths : cached ≡ r.0 = cc in
            let same_memo : memo ≡ r.1 = cc in
            (rw (← same_paths) (all frn cached e), rw (← same_memo) all)
        | inl new ↦ elim (Bool-cases (contains visiting frn)) [
          | inl cycle ↦ absurd (omega (arith, above frn cycle))
          | inr fresh ↦ elim (Bool-cases (frn == graph.root_frn)) [
            | inl at_root ↦
                remember-Complete graph frn (record { path = root_path graph; is_live = true } ∷ [])
                  memo (root-IsComplete graph frn (ground arith)) all r
                  (rw (new, fresh, at_root) at got)
            | inr below ↦ elim (Option-cases (get frn graph.nodes)) [
              | inl unknown ↦
                  let got' : some ([], memo) ≡ some r = rw (new, fresh, below, unknown) at got in
                  let same_paths : [] ≡ r.0 = cc in
                  let same_memo : memo ≡ r.1 = cc in
                  (
                    rw (← same_paths) (unknown-IsComplete graph frn (ground arith) unknown),
                    rw (← same_memo) all,
                  )
              | inr (node, known) ↦
                  project_node-Complete graph (projected_paths_for fuel graph (frn ∷ visiting)) frn
                    node
                    (λ via memo' has all'.
                      let lower : rank via.parent_frn < rank frn =
                        descends frn via (ground arith) (rw known has) in
                      projected_paths_for-Complete fuel (frn ∷ visiting) via.parent_frn memo'
                        (λ x under. elim (Bool-cases (frn == x)) [
                          | inl same ↦ let e : frn ≡ x = ground arith in rw (← e) lower
                          | inr other ↦ omega (arith, above x (ground (arith, under, other)))
                        ])
                        all')
                    memo (ground arith) known all r (rw (new, fresh, below, known) at got)
            ]
          ]
        ]
      ]

unvisited_none : (nodes : Dict ℕ LiveNode) → unvisited [] nodes ≡ length nodes
unfolding unvisited
unvisited_none [] = refl
unvisited_none ((frn, node) ∷ nodes) = omega (arith, unvisited_none nodes)

-- Projecting a file of any graph, also of one with cycles, ends with fuel for all files and one
-- more, and gives paths of chains of links only, live ones where the path is live.
pub projected_paths_for_lem :
    (graph : LiveDriveGraph) (fuel frn : ℕ)
    → length graph.nodes < fuel
    → (r : List ProjectedPath × Memo) × (projected_paths_for fuel graph [] frn [] ≡ some r)
      × AllChains graph frn r.0
projected_paths_for_lem graph fuel frn enough =
    let (r, e, chains, sound) =
      projected_paths_for-Sound graph fuel [] frn [] (omega (arith, unvisited_none graph.nodes))
        (λ other paths found. absurd (get_nil other paths found)) in
    (r, e, chains)

-- Where every link leads to a file of smaller rank, so that there is no cycle, projecting a file
-- ends and gives exactly the paths of its chains of links; a path is live exactly if one of its
-- chains is.
pub projected_paths_for-IsComplete :
    (graph : LiveDriveGraph) (rank : ℕ → ℕ) (fuel frn : ℕ)
    → Descends graph rank
    → length graph.nodes < fuel
    → (r : List ProjectedPath × Memo) × (projected_paths_for fuel graph [] frn [] ≡ some r)
      × AllChains graph frn r.0
      × IsComplete graph frn r.0
projected_paths_for-IsComplete graph rank fuel frn descends enough =
    let (r, e, chains) = projected_paths_for_lem graph fuel frn enough in
    let (complete, all) =
      projected_paths_for-Complete graph rank descends fuel [] frn [] (λ x under. cc)
        (λ other paths found. absurd (get_nil other paths found)) r e in
    (r, e, chains, complete)

-- A path of some file.
abbrev pub SomeChain : LiveDriveGraph → List ℕ → Bool → Type 0
SomeChain graph path is_live = (frn : ℕ) × Chain graph frn path is_live

add_states_sound :
    (graph : LiveDriveGraph) (frn : ℕ) (paths : List ProjectedPath) (states : Dict (List ℕ) Bool)
    → AllChains graph frn paths
    → AllEntries (SomeChain graph) states
    → AllEntries (SomeChain graph) (add_states paths states)
unfolding add_states
add_states_sound graph frn [] states chains h = h
add_states_sound graph frn (p ∷ paths) states chains h =
    let or_chain : (existing : Bool)
        → SomeChain graph p.path existing
        → SomeChain graph p.path (existing || p.is_live) =
      λ existing old. elim (Bool-cases existing) [
        | inl live ↦ rw live (rw live at old)
        | inr dead ↦ rw dead (frn, chains.0)
      ] in
    add_states_sound graph frn paths (entry p.path (or_live p.is_live) states) chains.1 (
      AllEntries-entry (SomeChain graph) p.path (or_live p.is_live) states (frn, chains.0) or_chain
        h)

Shows-add_states :
    (paths : List ProjectedPath) (states : Dict (List ℕ) Bool) (path : List ℕ) (old : Bool)
    → Shows (get path states) old
    → Shows (get path (add_states paths states)) old
unfolding add_states
Shows-add_states [] states path old h = h
Shows-add_states (p ∷ paths) states path old h =
    Shows-add_states paths (entry p.path (or_live p.is_live) states) path old
      (Shows-entry path p.path old p.is_live states h)

add_states-Shows :
    (paths : List ProjectedPath) (states : Dict (List ℕ) Bool) (path : List ℕ) (is_live : Bool)
    → Shows (path_flag path paths) is_live
    → Shows (get path (add_states paths states)) is_live
unfolding add_states state_by
add_states-Shows [] states path is_live h = absurd h
add_states-Shows (p ∷ paths) states path is_live h = elim (Bool-cases (text_eq p.path path)) [
  | inl same ↦
      let e : p.path ≡ path = (text_eq_iff p.path path).0 same in
      let shown : is_live ≡ true → p.is_live ≡ true = rw same at h in
      let here : Shows (get p.path (entry p.path (or_live p.is_live) states)) p.is_live =
        rw (get-entry p.path p.path (or_live p.is_live) states, (text_eq_iff p.path p.path).1 refl)
          (Shows-or_live (get p.path states) p.is_live) in
      let there : Shows (get path (entry p.path (or_live p.is_live) states)) p.is_live =
        rw (← e) here in
      Shows-add_states paths (entry p.path (or_live p.is_live) states) path is_live (
        Shows-weaken (get path (entry p.path (or_live p.is_live) states)) p.is_live is_live shown
          there)
  | inr other ↦
      add_states-Shows paths (entry p.path (or_live p.is_live) states) path is_live (rw other at h)
]

module _ (graph : LiveDriveGraph) (rank : ℕ → ℕ) (descends : Descends graph rank) (fuel : ℕ)
    (enough : length graph.nodes < fuel) where
  abbrev Covers : Dict ℕ LiveNode → Dict (List ℕ) Bool → Type 0
  Covers nodes states =
      (frn : ℕ) (node : LiveNode) (path : List ℕ) (is_live : Bool)
      → get frn nodes ≡ some node
      → Chain graph frn path is_live
      → Shows (get path states) is_live

  project_all-Covers :
      (nodes : Dict ℕ LiveNode) (memo : Memo) (before : Dict (List ℕ) Bool)
      → IsSound graph memo
      → AreComplete graph memo
      → AllEntries (SomeChain graph) before
      → (states : Dict (List ℕ) Bool) × (project_all fuel graph nodes memo before ≡ some states)
        × AllEntries (SomeChain graph) states
        × Covers nodes states
        × ((path : List ℕ) (old : Bool) → Shows (get path before) old → Shows (get path states) old)
  unfolding project_all
  project_all-Covers [] memo before sound all h =
      (before, refl, h, λ frn node path is_live e up. absurd (get_nil frn node e), λ path old s. s)
  project_all-Covers ((frn, node) ∷ nodes) memo before sound all h =
      let (r, e, chains, sound') =
        projected_paths_for-Sound graph fuel [] frn memo (omega (arith, unvisited_none graph.nodes))
          sound in
      let (complete, all') =
        projected_paths_for-Complete graph rank descends fuel [] frn memo (λ x under. cc) all r e in
      let (states, e', h', covers, keeps) =
        project_all-Covers nodes r.1 (add_states r.0 before) sound' all'
          (add_states_sound graph frn r.0 before chains h) in
      (
        states,
        rw e e',
        h',
        λ other found path is_live known up. elim (get-cons frn other node found nodes known) [
          | inl same ↦
              let up' : Chain graph frn path is_live = rw same up in
              keeps path is_live
                (add_states-Shows r.0 before path is_live (complete path is_live up'))
          | inr later ↦ covers other found path is_live later up
        ],
        λ path old s. keeps path old (Shows-add_states r.0 before path old s),
      )

-- Where every link leads to a file of smaller rank, the loop over all files ends with fuel for all
-- of them and one more, and its map holds exactly the paths of the chains of links of the known
-- files; a path is live exactly if one of the chains that give it is.
pub project_all_lem :
    (graph : LiveDriveGraph) (rank : ℕ → ℕ) (fuel : ℕ)
    → Descends graph rank
    → length graph.nodes < fuel
    → (states : Dict (List ℕ) Bool) × (project_all fuel graph graph.nodes [] [] ≡ some states)
      × AllEntries (SomeChain graph) states
      × ((frn : ℕ) (node : LiveNode) (path : List ℕ) (is_live : Bool)
          → get frn graph.nodes ≡ some node
          → Chain graph frn path is_live
          → Shows (get path states) is_live)
project_all_lem graph rank fuel descends enough =
    let (states, e, h, covers, keeps) =
      project_all-Covers graph rank descends fuel enough graph.nodes [] []
        (λ frn paths found. absurd (get_nil frn paths found))
        (λ frn paths found. absurd (get_nil frn paths found)) tt in
    (states, e, h, covers)
