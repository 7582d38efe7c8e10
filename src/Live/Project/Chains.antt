-- ===== src/Live/Project/Chains.antt =====
-- What a path of a file is: a chain of links from the file up to the root.
use teamy_mft.Common.{
  ℕ, suc, ◌<◌, ◌≡◌, ◌≢◌, ◌⊎◌, Bool, true, false, ◌&&◌, not, some, List, [], ◌∷◌, if◌then◌else◌,
  arith, All,
}
use teamy_mft.Common.Sorted.{contains}
use teamy_mft.Common.Dict.{Dict, nat_eq, get}
use teamy_mft.Live.Graph.{LiveNodeLink, LiveNode, LiveDriveGraph, links_of}
use teamy_mft.Live.Project.{ProjectedPath, join_windows_path, root_path}

abbrev pub Has : LiveNodeLink → List LiveNodeLink → Type 0
Has link [] = ⊥
Has link (first ∷ links) = (first ≡ link) ⊎ Has link links

-- A chain is live where all its links are.
pub data Chain (graph : LiveDriveGraph) : ℕ → List ℕ → Bool → Type 0 where
  root :
      {frn : ℕ} {path : List ℕ} {is_live : Bool}
      → frn ≡ graph.root_frn
      → path ≡ root_path graph
      → is_live ≡ true
      → Chain graph frn path is_live
  link :
      {frn : ℕ} {path : List ℕ} {is_live : Bool} (via : LiveNodeLink) (above : List ℕ)
      (above_live : Bool)
      → frn ≢ graph.root_frn
      → Has via (links_of (get frn graph.nodes))
      → Chain graph via.parent_frn above above_live
      → path ≡ join_windows_path above via.name
      → is_live ≡ (above_live && not via.is_deleted)
      → Chain graph frn path is_live

abbrev pub AllChains : LiveDriveGraph → ℕ → List ProjectedPath → Type 0
AllChains graph frn = All (λ p. Chain graph frn p.path p.is_live)

-- The files that are not under way.
unfoldable pub unvisited : List ℕ → Dict ℕ LiveNode → ℕ
unvisited visiting [] = 0
unvisited visiting ((frn, node) ∷ nodes) =
    let rest = unvisited visiting nodes in if contains visiting frn then rest else suc rest

unvisited-le :
    (visiting : List ℕ) (frn : ℕ) (nodes : Dict ℕ LiveNode)
    → unvisited (frn ∷ visiting) nodes < suc (unvisited visiting nodes)
unfolding unvisited
unvisited-le visiting frn [] = omega arith
unvisited-le visiting frn ((k, node) ∷ nodes) = ground (arith, unvisited-le visiting frn nodes)

-- A file that comes under way leaves fewer.
pub unvisited-lt :
    (visiting : List ℕ) (frn : ℕ) (nodes : Dict ℕ LiveNode) (node : LiveNode)
    → contains visiting frn ≡ false
    → get frn nodes ≡ some node
    → unvisited (frn ∷ visiting) nodes < unvisited visiting nodes
unfolding unvisited get
unvisited-lt visiting frn [] node fresh known = cc
unvisited-lt visiting frn ((k, other) ∷ nodes) node fresh known =
    ground (arith, unvisited-lt visiting frn nodes node fresh, unvisited-le visiting frn nodes)
