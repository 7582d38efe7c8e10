-- ===== src/Live/Project/Acyclic.antt =====
-- Projecting a file of a graph without cycles gives exactly the paths of its chains of links.
use teamy_mft.Common.{
  ℕ, ◌<◌, ◌≡◌, ◌≢◌, refl, Bool, true, ◌&&◌, not, Option, none, some, List, [], ◌∷◌, ◌==◌, arith,
  inl, inr, Bool-cases, Option-cases,
}
use teamy_mft.Common.Dict.{Dict, nat_eq, string_eq, get, entry, get-entry, text_eq_iff}
use teamy_mft.Texts.{state_by}
use teamy_mft.Live.Graph.{LiveNodeLink, LiveNode, LiveDriveGraph, links_of}
use teamy_mft.Live.Project.{
  ProjectedPath, Memo, join_windows_path, root_path, add_parents, sorted_paths, remember, add_links,
  project_node,
}
use teamy_mft.Live.Project.Chains.{Has, Chain}
use teamy_mft.Live.Project.Complete.{
  path_flag, Shows, add_parents-Shows, Shows-add_parents, path_flag-sorted_paths,
}

-- Every link leads to a smaller rank.
abbrev pub Descends : LiveDriveGraph → (ℕ → ℕ) → Type 0
Descends graph rank =
    (frn : ℕ) (via : LiveNodeLink)
    → frn ≢ graph.root_frn
    → Has via (links_of (get frn graph.nodes))
    → rank via.parent_frn < rank frn

module _ (graph : LiveDriveGraph) where
  -- All paths of the file are shown.
  abbrev pub IsComplete : ℕ → List ProjectedPath → Type 0
  IsComplete frn paths =
      (path : List ℕ) (is_live : Bool)
      → Chain graph frn path is_live
      → Shows (path_flag path paths) is_live

  abbrev pub AreComplete : Memo → Type 0
  AreComplete memo =
      (frn : ℕ) (paths : List ProjectedPath) → get frn memo ≡ some paths → IsComplete frn paths

  abbrev pub Complete : ℕ → Option (List ProjectedPath × Memo) → Type 0
  Complete frn result =
      (r : List ProjectedPath × Memo) → result ≡ some r → IsComplete frn r.0 × AreComplete r.1

  -- The paths over the links of a list.
  abbrev CoversLinks : List LiveNodeLink → Dict (List ℕ) Bool → Type 0
  CoversLinks links by_path =
      (via : LiveNodeLink) (above : List ℕ) (above_live : Bool)
      → Has via links
      → Chain graph via.parent_frn above above_live
      → Shows (get (join_windows_path above via.name) by_path) (above_live && not via.is_deleted)

  pub remember-Complete :
      (frn : ℕ) (paths : List ProjectedPath) (memo : Memo)
      → IsComplete frn paths
      → AreComplete memo
      → Complete frn (remember frn paths memo)
  remember-Complete frn paths memo complete all r got =
      let same_paths : paths ≡ r.0 = cc in
      let same_memo : entry frn (λ _. paths) memo ≡ r.1 = cc in
      (
        rw (← same_paths) complete,
        rw (← same_memo) (λ other found e. elim (Bool-cases (frn == other)) [
          | inl same ↦
              let eq : frn ≡ other = ground arith in
              let e' : some paths ≡ some found =
                rw (get-entry frn other (λ _. paths) memo, same) at e in
              let eq' : paths ≡ found = cc in rw (← eq, ← eq') complete
          | inr different ↦
              all other found (rw (get-entry frn other (λ _. paths) memo, different) at e)
        ]),
      )

  pub root-IsComplete :
      (frn : ℕ)
      → frn ≡ graph.root_frn
      → IsComplete frn (record { path = root_path graph; is_live = true } ∷ [])
  unfolding state_by
  root-IsComplete frn at_root path is_live (Chain.root _ here live) =
      rw (here, (text_eq_iff (root_path graph) (root_path graph)).1 refl) (λ _. refl)
  root-IsComplete frn at_root path is_live
        (Chain.link via above above_live below has up here live) =
      absurd (below at_root)

  pub unknown-IsComplete :
      (frn : ℕ) → frn ≢ graph.root_frn → get frn graph.nodes ≡ none → IsComplete frn []
  unknown-IsComplete frn below unknown path is_live (Chain.root at_root here live) =
      absurd (below at_root)
  unknown-IsComplete frn below unknown path is_live
        (Chain.link via above above_live _ has up here live) =
      absurd (rw unknown at has)

  -- The loop over the links covers the links, and keeps what the map showed.
  add_links-CoversLinks :
      (paths_of : ℕ → Memo → Option (List ProjectedPath × Memo)) (links : List LiveNodeLink)
      (calls : (via : LiveNodeLink) (memo : Memo)
        → Has via links
        → AreComplete memo
        → Complete via.parent_frn (paths_of via.parent_frn memo))
      (by_path : Dict (List ℕ) Bool) (memo : Memo) (r : Dict (List ℕ) Bool × Memo)
      → AreComplete memo
      → add_links paths_of links by_path memo ≡ some r
      → CoversLinks links r.0
        × AreComplete r.1
        × ((path : List ℕ) (old : Bool) → Shows (get path by_path) old → Shows (get path r.0) old)
  unfolding add_links
  add_links-CoversLinks paths_of [] calls by_path memo r all got =
      let same_map : by_path ≡ r.0 = cc in
      let same_memo : memo ≡ r.1 = cc in
      (
        λ via above above_live has up. absurd has,
        rw (← same_memo) all,
        λ path old h. rw (← same_map) h,
      )
  add_links-CoversLinks paths_of (via ∷ links) calls by_path memo r all got =
      elim (Option-cases (paths_of via.parent_frn memo)) [
        | inl out ↦ absurd (let bad : none ≡ some r = rw out at got in cc)
        | inr (found, e) ↦
            let (complete, all') = calls via memo (inl refl) all found e in
            let (covers, all'', keeps) =
              add_links-CoversLinks paths_of links (λ v m has. calls v m (inr has))
                (add_parents via found.0 by_path) found.1 r all' (rw e at got) in
            (
              λ v above above_live has up. elim has [
                | inl same ↦
                    let up' : Chain graph via.parent_frn above above_live = rw same up in
                    let shown =
                      add_parents-Shows via found.0 by_path above above_live
                        (complete above above_live up') in
                    rw (← same) (
                      keeps (join_windows_path above via.name) (above_live && not via.is_deleted)
                        shown)
                | inr later ↦ covers v above above_live later up
              ],
              all'',
              λ path old h. keeps path old (Shows-add_parents via found.0 by_path path old h),
            )
      ]

  pub project_node-Complete :
      (paths_of : ℕ → Memo → Option (List ProjectedPath × Memo)) (frn : ℕ) (node : LiveNode)
      (calls : (via : LiveNodeLink) (memo : Memo)
        → Has via node.links
        → AreComplete memo
        → Complete via.parent_frn (paths_of via.parent_frn memo))
      (memo : Memo)
      → frn ≢ graph.root_frn
      → get frn graph.nodes ≡ some node
      → AreComplete memo
      → Complete frn (project_node paths_of frn (some node) memo)
  unfolding project_node
  project_node-Complete paths_of frn node calls memo below known all r got =
      elim (Option-cases (add_links paths_of node.links [] memo)) [
        | inl out ↦ absurd (let bad : none ≡ some r = rw out at got in cc)
        | inr (found, e) ↦
            let (covers, all', keeps) =
              add_links-CoversLinks paths_of node.links calls [] memo found all e in
            remember-Complete frn (sorted_paths found.0) found.1
              (node-IsComplete frn node found.0 below known covers) all' r (rw e at got)
      ]
    where
      node-IsComplete :
          (frn : ℕ) (node : LiveNode) (by_path : Dict (List ℕ) Bool)
          → frn ≢ graph.root_frn
          → get frn graph.nodes ≡ some node
          → CoversLinks node.links by_path
          → IsComplete frn (sorted_paths by_path)
      node-IsComplete frn node by_path below known covers path is_live
            (Chain.root at_root here live) =
          absurd (below at_root)
      node-IsComplete frn node by_path below known covers path is_live
            (Chain.link via above above_live _ has up here live) =
          rw (path_flag-sorted_paths path by_path, here, live)
            (covers via above above_live (rw known at has) up)
