-- ===== src/Live/Project.antt =====
-- src/machine/live_drive_state.rs: the paths of the files of a live drive, from the links of its
-- graph up to the root. The map of the results, `memo`, is threaded through; the set of the files
-- under way holds the same again when a call returns, so that it is an argument only.
pub mod Chains
pub mod Sound
pub mod Complete
pub mod Acyclic
pub mod Rows
use teamy_mft.Common.{
  ℕ, zero, suc, ◌+◌, Bool, true, false, ◌&&◌, ◌||◌, not, Option, none, some, List, [], ◌∷◌, ◌++◌,
  map, ◌==◌, if◌then◌else◌, and_then,
}
use teamy_mft.Common.Sorted.{contains}
use teamy_mft.Common.Dict.{Dict, nat_eq, string_eq, get, entry}
use teamy_mft.Texts.{sort_by}
use teamy_mft.Live.Graph.{LiveNodeLink, LiveNode, LiveDriveGraph}

pub record ProjectedPath : Type 0 where
  pub path : List ℕ
  pub is_live : Bool

abbrev pub Memo : Type 0
Memo = Dict ℕ (List ProjectedPath)

abbrev pub backslash : ℕ
backslash = 0x5C

unfoldable pub ends_with_backslash : List ℕ → Bool
ends_with_backslash [] = false
ends_with_backslash (c ∷ []) = c == backslash
ends_with_backslash (c ∷ d ∷ text) = ends_with_backslash (d ∷ text)

unfoldable pub join_windows_path : List ℕ → List ℕ → List ℕ
join_windows_path parent child =
    if ends_with_backslash parent then parent ++ child else parent ++ (backslash ∷ child)

-- `format!("{}:\\", drive_letter)`
abbrev pub root_path : LiveDriveGraph → List ℕ
root_path graph = graph.drive_letter ∷ 0x3A ∷ backslash ∷ []

-- `*existing |= is_live`, or the value of a new entry.
abbrev pub or_live : Bool → Option Bool → Bool
or_live is_live none = is_live
or_live is_live (some existing) = existing || is_live

-- The loop over the paths of a link's parent.
unfoldable pub add_parents :
    LiveNodeLink → List ProjectedPath → Dict (List ℕ) Bool → Dict (List ℕ) Bool
add_parents link [] by_path = by_path
add_parents link (parent ∷ parents) by_path = add_parents link parents (
    entry (join_windows_path parent.path link.name)
      (or_live (parent.is_live && not link.is_deleted)) by_path)

abbrev pub to_projected : List ℕ × Bool → ProjectedPath
to_projected (path, is_live) = record { path = path; is_live = is_live }

abbrev pub projected_path : ProjectedPath → List ℕ
projected_path p = p.path

unfoldable pub sorted_paths : Dict (List ℕ) Bool → List ProjectedPath
sorted_paths by_path = sort_by projected_path (map to_projected by_path)

abbrev pub remember : ℕ → List ProjectedPath → Memo → Option (List ProjectedPath × Memo)
remember frn projected memo = some (projected, entry frn (λ _. projected) memo)

-- What the calls of a function on its callees' fuel share: `paths_of` is the recursive call.
module _ (paths_of : ℕ → Memo → Option (List ProjectedPath × Memo)) where
  -- The loop over the links.
  unfoldable pub add_links :
      List LiveNodeLink → Dict (List ℕ) Bool → Memo → Option (Dict (List ℕ) Bool × Memo)
  add_links [] by_path memo = some (by_path, memo)
  add_links (link ∷ links) by_path memo =
      and_then (paths_of link.parent_frn memo)
        (λ r. add_links links (add_parents link r.0 by_path) r.1)

  unfoldable pub project_node : ℕ → Option LiveNode → Memo → Option (List ProjectedPath × Memo)
  unfolding add_links
  project_node frn none memo = some ([], memo)
  project_node frn (some node) memo =
      and_then (add_links node.links [] memo) (λ r. remember frn (sorted_paths r.0) r.1)

abbrev pub cached_or :
    Option (List ProjectedPath)
    → Memo
    → Option (List ProjectedPath × Memo)
    → Option (List ProjectedPath × Memo)
cached_or (some cached) memo otherwise = some (cached, memo)
cached_or none memo otherwise = otherwise

-- `none` is fuel that ran out.
unfoldable pub projected_paths_for :
    ℕ → LiveDriveGraph → List ℕ → ℕ → Memo → Option (List ProjectedPath × Memo)
unfolding project_node
projected_paths_for zero graph visiting frn memo = none
projected_paths_for (suc fuel) graph visiting frn memo =
    let node = project_node (projected_paths_for fuel graph (frn ∷ visiting)) in
    cached_or (get frn memo) memo (
      if contains visiting frn
      then some ([], memo)
      else if frn == graph.root_frn
      then remember frn (record { path = root_path graph; is_live = true } ∷ []) memo
      else node frn (get frn graph.nodes) memo)

-- The loop over a file's paths in `projected_rows`.
unfoldable pub add_states : List ProjectedPath → Dict (List ℕ) Bool → Dict (List ℕ) Bool
add_states [] path_states = path_states
add_states (projected ∷ more) path_states =
    add_states more (entry projected.path (or_live projected.is_live) path_states)

-- The loop over the files; `none` is fuel that ran out.
unfoldable pub project_all :
    ℕ → LiveDriveGraph → Dict ℕ LiveNode → Memo → Dict (List ℕ) Bool → Option (Dict (List ℕ) Bool)
unfolding projected_paths_for add_states
project_all fuel graph [] memo path_states = some path_states
project_all fuel graph ((frn, node) ∷ nodes) memo path_states =
    and_then (projected_paths_for fuel graph [] frn memo)
      (λ r. project_all fuel graph nodes r.1 (add_states r.0 path_states))
