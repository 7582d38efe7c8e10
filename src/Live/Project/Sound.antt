-- ===== src/Live/Project/Sound.antt =====
-- Projecting a file ends, and every path that it gives is the path of a chain of links.
use teamy_mft.Common.{
  ℕ, zero, suc, ◌<◌, ◌≡◌, ◌≢◌, refl, Bool, true, ◌&&◌, ◌||◌, not, Option, some, List, [], ◌∷◌, map,
  ◌==◌, arith, inl, inr, Bool-cases, Option-cases,
}
use teamy_mft.Common.Sorted.{contains}
use teamy_mft.Common.Dict.{
  Dict, nat_eq, string_eq, get, entry, get-entry, AllEntries, AllEntries-entry,
}
use teamy_mft.Texts.{All-sort_by}
use teamy_mft.Live.Graph.{LiveNodeLink, LiveNode, LiveDriveGraph, links_of}
use teamy_mft.Live.Project.{
  ProjectedPath, Memo, join_windows_path, root_path, or_live, add_parents, to_projected,
  projected_path, sorted_paths, remember, add_links, project_node, projected_paths_for,
}
use teamy_mft.Live.Project.Chains.{Has, Chain, AllChains, unvisited, unvisited-lt}

module _ (graph : LiveDriveGraph) where
  abbrev pub IsSound : Memo → Type 0
  IsSound memo =
      (frn : ℕ) (paths : List ProjectedPath) → get frn memo ≡ some paths → AllChains graph frn paths

  abbrev pub Sound : ℕ → Option (List ProjectedPath × Memo) → Type 0
  Sound frn result =
      (r : List ProjectedPath × Memo) × (result ≡ some r) × AllChains graph frn r.0 × IsSound r.1

  add_parents_sound :
      (frn : ℕ) (via : LiveNodeLink) (parents : List ProjectedPath) (by_path : Dict (List ℕ) Bool)
      → frn ≢ graph.root_frn
      → Has via (links_of (get frn graph.nodes))
      → AllChains graph via.parent_frn parents
      → AllEntries (Chain graph frn) by_path
      → AllEntries (Chain graph frn) (add_parents via parents by_path)
  unfolding add_parents
  add_parents_sound frn via [] by_path below has above h = h
  add_parents_sound frn via (parent ∷ parents) by_path below has above h =
      let is_live = parent.is_live && not via.is_deleted in
      let path = join_windows_path parent.path via.name in
      let chain : Chain graph frn path is_live =
        Chain.link via parent.path parent.is_live below has above.0 refl refl in
      let or_chain : (existing : Bool)
          → Chain graph frn path existing
          → Chain graph frn path (existing || is_live) =
        λ existing old. elim (Bool-cases existing) [
          | inl live ↦ rw live (rw live at old)
          | inr dead ↦ rw dead chain
        ] in
      add_parents_sound frn via parents (entry path (or_live is_live) by_path) below has above.1
        (AllEntries-entry (Chain graph frn) path (or_live is_live) by_path chain or_chain h)

  sorted_paths_sound :
      (frn : ℕ) (by_path : Dict (List ℕ) Bool)
      → AllEntries (Chain graph frn) by_path
      → AllChains graph frn (sorted_paths by_path)
  unfolding sorted_paths
  sorted_paths_sound frn by_path h =
      All-sort_by projected_path (λ p. Chain graph frn p.path p.is_live) (map to_projected by_path)
        (all by_path h)
    where
      all :
          (by_path : Dict (List ℕ) Bool)
          → AllEntries (Chain graph frn) by_path
          → AllChains graph frn (map to_projected by_path)
      all [] h = tt
      all ((path, is_live) ∷ by_path) h = (h.0, all by_path h.1)

  remember-Sound :
      (frn : ℕ) (paths : List ProjectedPath) (memo : Memo)
      → AllChains graph frn paths
      → IsSound memo
      → Sound frn (remember frn paths memo)
  remember-Sound frn paths memo chains sound = (
    (paths, entry frn (λ _. paths) memo),
    refl,
    chains,
    λ other found e. elim (Bool-cases (frn == other)) [
      | inl same ↦
          let eq : frn ≡ other = ground arith in
          let e' : some paths ≡ some found =
            rw (get-entry frn other (λ _. paths) memo, same) at e in
          let eq' : paths ≡ found = cc in rw (← eq, ← eq') chains
      | inr different ↦
          sound other found (rw (get-entry frn other (λ _. paths) memo, different) at e)
    ],
  )

  add_links-Sound :
      (paths_of : ℕ → Memo → Option (List ProjectedPath × Memo))
      (calls : (frn : ℕ) (memo : Memo) → IsSound memo → Sound frn (paths_of frn memo)) (frn : ℕ)
      (links : List LiveNodeLink) (by_path : Dict (List ℕ) Bool) (memo : Memo)
      → frn ≢ graph.root_frn
      → ((via : LiveNodeLink) → Has via links → Has via (links_of (get frn graph.nodes)))
      → AllEntries (Chain graph frn) by_path
      → IsSound memo
      → (r : Dict (List ℕ) Bool × Memo) × (add_links paths_of links by_path memo ≡ some r)
        × AllEntries (Chain graph frn) r.0
        × IsSound r.1
  unfolding add_links
  add_links-Sound paths_of calls frn [] by_path memo below has h sound =
      ((by_path, memo), refl, h, sound)
  add_links-Sound paths_of calls frn (via ∷ links) by_path memo below has h sound =
      let (r, e, chains, sound') = calls via.parent_frn memo sound in
      let (r', e', h', sound'') =
        add_links-Sound paths_of calls frn links (add_parents via r.0 by_path) r.1 below
          (λ v m. has v (inr m))
          (add_parents_sound frn via r.0 by_path below (has via (inl refl)) chains h) sound' in
      (r', rw e e', h', sound'')

  project_node-Sound :
      (paths_of : ℕ → Memo → Option (List ProjectedPath × Memo))
      (calls : (frn : ℕ) (memo : Memo) → IsSound memo → Sound frn (paths_of frn memo)) (frn : ℕ)
      (node : LiveNode) (memo : Memo)
      → frn ≢ graph.root_frn
      → get frn graph.nodes ≡ some node
      → IsSound memo
      → Sound frn (project_node paths_of frn (some node) memo)
  unfolding project_node
  project_node-Sound paths_of calls frn node memo below known sound =
      let (r, e, h, sound') =
        add_links-Sound paths_of calls frn node.links [] memo below (λ v m. rw known m) tt sound in
      rw e (remember-Sound frn (sorted_paths r.0) r.1 (sorted_paths_sound frn r.0 h) sound')

  -- Projecting a file ends, with fuel for the files that are not under way; the paths that it gives
  -- are those of chains of links, live ones where a path is live, and so are those it remembers.
  pub projected_paths_for-Sound :
      (fuel : ℕ) (visiting : List ℕ) (frn : ℕ) (memo : Memo)
      → unvisited visiting graph.nodes < fuel
      → IsSound memo
      → Sound frn (projected_paths_for fuel graph visiting frn memo)
  unfolding projected_paths_for
  projected_paths_for-Sound zero visiting frn memo enough sound = absurd (omega arith)
  projected_paths_for-Sound (suc fuel) visiting frn memo enough sound =
      elim (Option-cases (get frn memo)) [
        | inr (cached, e) ↦ rw e ((cached, memo), refl, sound frn cached e, sound)
        | inl new ↦ rw new (elim (Bool-cases (contains visiting frn)) [
          | inl cycle ↦ rw cycle (([], memo), refl, tt, sound)
          | inr fresh ↦ rw fresh (elim (Bool-cases (frn == graph.root_frn)) [
            | inl at_root ↦ rw at_root (
                remember-Sound frn (record { path = root_path graph; is_live = true } ∷ []) memo
                  (Chain.root (ground arith) refl refl, tt) sound)
            | inr below ↦ rw below (elim (Option-cases (get frn graph.nodes)) [
              | inl unknown ↦ rw unknown (([], memo), refl, tt, sound)
              | inr (node, known) ↦ rw known (
                  project_node-Sound (projected_paths_for fuel graph (frn ∷ visiting))
                    (λ parent memo' sound'.
                      projected_paths_for-Sound fuel (frn ∷ visiting) parent memo'
                        (omega (arith, unvisited-lt visiting frn graph.nodes node fresh known))
                        sound')
                    frn node memo (ground arith) known sound)
            ])
          ])
        ])
      ]
