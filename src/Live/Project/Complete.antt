-- ===== src/Live/Project/Complete.antt =====
-- Where the links have no cycle, projecting a file gives the path of every chain of links.
use teamy_mft.Common.{
  ℕ, ◌≡◌, refl, ◌∙◌, Bool, true, ◌&&◌, not, Option, none, some, List, [], ◌∷◌, map, arith, inl, inr,
  Bool-cases,
}
use teamy_mft.Common.Dict.{Dict, nat_eq, string_eq, get, entry, get-entry, text_eq, text_eq_iff}
use teamy_mft.Texts.{state_by, state_by-sort_by}
use teamy_mft.Live.Graph.{LiveNodeLink}
use teamy_mft.Live.Project.{
  ProjectedPath, join_windows_path, or_live, add_parents, to_projected, projected_path,
  sorted_paths,
}

abbrev pub path_flag : List ℕ → List ProjectedPath → Option Bool
path_flag = state_by projected_path (λ p. p.is_live)

-- The path is shown, and shown live if it is to be live.
abbrev pub Shows : Option Bool → Bool → Type 0
Shows none is_live = ⊥
Shows (some shown) is_live = is_live ≡ true → shown ≡ true

pub Shows-weaken : (o : Option Bool) (a b : Bool) → (b ≡ true → a ≡ true) → Shows o a → Shows o b
Shows-weaken none a b h s = s
Shows-weaken (some shown) a b h s = λ e. s (h e)

pub Shows-or_live : (o : Option Bool) (is_live : Bool) → Shows (some (or_live is_live o)) is_live
Shows-or_live none is_live = λ e. e
Shows-or_live (some existing) is_live = λ e. ground arith

Shows-or_old :
    (o : Option Bool) (is_live old : Bool) → Shows o old → Shows (some (or_live is_live o)) old
Shows-or_old none is_live old s = absurd s
Shows-or_old (some existing) is_live old s = λ e. rw (s e) refl

-- An entry that the map shows stays shown when another is added.
pub Shows-entry :
    (path added : List ℕ) (old is_live : Bool) (by_path : Dict (List ℕ) Bool)
    → Shows (get path by_path) old
    → Shows (get path (entry added (or_live is_live) by_path)) old
Shows-entry path added old is_live by_path h =
    rw (get-entry added path (or_live is_live) by_path) (elim (Bool-cases (text_eq added path)) [
      | inl same ↦
          let e : added ≡ path = (text_eq_iff added path).0 same in
          rw same (rw e (Shows-or_old (get path by_path) is_live old h))
      | inr other ↦ rw other h
    ])

pub Shows-add_parents :
    (via : LiveNodeLink) (parents : List ProjectedPath) (by_path : Dict (List ℕ) Bool)
    (path : List ℕ) (old : Bool)
    → Shows (get path by_path) old
    → Shows (get path (add_parents via parents by_path)) old
unfolding add_parents
Shows-add_parents via [] by_path path old h = h
Shows-add_parents via (parent ∷ parents) by_path path old h =
    let is_live = parent.is_live && not via.is_deleted in
    let added = join_windows_path parent.path via.name in
    Shows-add_parents via parents (entry added (or_live is_live) by_path) path old
      (Shows-entry path added old is_live by_path h)

-- The paths of a parent give paths of the child.
pub add_parents-Shows :
    (via : LiveNodeLink) (parents : List ProjectedPath) (by_path : Dict (List ℕ) Bool)
    (above : List ℕ) (above_live : Bool)
    → Shows (path_flag above parents) above_live
    → Shows
        (get (join_windows_path above via.name) (add_parents via parents by_path))
        (above_live && not via.is_deleted)
unfolding add_parents state_by
add_parents-Shows via [] by_path above above_live h = absurd h
add_parents-Shows via (parent ∷ parents) by_path above above_live h =
    let is_live = parent.is_live && not via.is_deleted in
    let added = join_windows_path parent.path via.name in
    elim (Bool-cases (text_eq parent.path above)) [
      | inl same ↦
          let e : parent.path ≡ above = (text_eq_iff parent.path above).0 same in
          let shown : above_live ≡ true → parent.is_live ≡ true = rw same at h in
          let here : Shows (get added (entry added (or_live is_live) by_path)) is_live =
            rw (get-entry added added (or_live is_live) by_path, (text_eq_iff added added).1 refl)
              (Shows-or_live (get added by_path) is_live) in
          let whole : Shows
              (get (join_windows_path above via.name) (entry added (or_live is_live) by_path))
              is_live =
            rw (← e) here in
          Shows-add_parents via parents (entry added (or_live is_live) by_path)
            (join_windows_path above via.name) (above_live && not via.is_deleted)
            (Shows-weaken
              (get (join_windows_path above via.name) (entry added (or_live is_live) by_path))
              is_live (above_live && not via.is_deleted) (λ live. ground (arith, shown)) whole)
      | inr other ↦
          add_parents-Shows via parents (entry added (or_live is_live) by_path) above above_live
            (rw other at h)
    ]

path_flag-map :
    (path : List ℕ) (by_path : Dict (List ℕ) Bool)
    → path_flag path (map to_projected by_path) ≡ get path by_path
unfolding state_by get
path_flag-map path [] = refl
path_flag-map path ((key, is_live) ∷ by_path) = ground (arith, path_flag-map path by_path)

pub path_flag-sorted_paths :
    (path : List ℕ) (by_path : Dict (List ℕ) Bool)
    → path_flag path (sorted_paths by_path) ≡ get path by_path
unfolding sorted_paths
path_flag-sorted_paths path by_path =
    state_by-sort_by projected_path (λ p. p.is_live) path (map to_projected by_path)
    ∙ path_flag-map path by_path
