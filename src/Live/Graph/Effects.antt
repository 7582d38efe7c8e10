-- ===== src/Live/Graph/Effects.antt =====
-- What an event does to the flag of every link, and to the kind of every node.
use teamy_mft.Common.{
  ℕ, ◌≡◌, refl, Bool, true, false, ◌&&◌, ◌||◌, Option, none, some, List, [], ◌∷◌, ◌==◌,
  if◌then◌else◌, arith, Bool-cases, inl, inr,
}
use Prim.Native.Nat.{bit_or}
use teamy_mft.Common.Bits.{bit_and-bit_or}
use teamy_mft.Common.Dict.{nat_eq, text_eq, text_eq_iff, get, get-entry}
use teamy_mft.Texts.{override}
use teamy_mft.Live.Graph.{
  UsnConstants, UsnEvent, LiveNodeLink, LiveNode, LiveDriveGraph, is_link, set_link,
  event_is_directory, affects_topology, is_live_reason, is_deleted_reason, live_links, event_node,
  links_of, apply_event,
}

-- Whether the first link of that parent and name is deleted; `none` where there is no such link.
pub link_flag : ℕ → List ℕ → List LiveNodeLink → Option Bool
link_flag parent name [] = none
link_flag parent name (link ∷ links) =
    if is_link parent name link then some link.is_deleted else link_flag parent name links

-- The graph seen from outside: the links of every file, without their order.
pub link_state : LiveDriveGraph → ℕ → ℕ → List ℕ → Option Bool
unfolding link_flag
link_state graph frn parent name = link_flag parent name (links_of (get frn graph.nodes))

abbrev node_kind : Option LiveNode → Option Bool
node_kind none = none
node_kind (some node) = some node.is_directory

-- Whether a known file is a directory.
pub directory_state : LiveDriveGraph → ℕ → Option Bool
directory_state graph frn = node_kind (get frn graph.nodes)

abbrev pub names_link : UsnEvent → ℕ → ℕ → List ℕ → Bool
names_link event frn parent name =
    event.frn == frn && (event.parent_frn == parent && text_eq event.name name)

module _ (w : UsnConstants) where
  -- The flag that an event gives to a link; a deletion wins over a creation.
  pub link_effect : UsnEvent → ℕ → ℕ → List ℕ → Option Bool
  link_effect event frn parent name =
      if names_link event frn parent name
      then if is_deleted_reason w event
        then some true
        else if is_live_reason w event
        then some false
        else none
      else none

  pub directory_effect : UsnEvent → ℕ → Option Bool
  directory_effect event frn = if event.frn == frn then some (event_is_directory w event) else none

link_flag-set_link :
    (parent parent' : ℕ) (name name' : List ℕ) (deleted : Bool) (links : List LiveNodeLink)
    → link_flag parent' name' (set_link parent name deleted links) ≡ (
        if parent == parent' && text_eq name name'
        then some deleted
        else link_flag parent' name' links)
unfolding link_flag set_link
link_flag-set_link parent parent' name name' deleted [] = refl
link_flag-set_link parent parent' name name' deleted (link ∷ links) = ground (
  arith,
  text_eq_iff name name',
  text_eq_iff link.name name,
  text_eq_iff link.name name',
  link_flag-set_link parent parent' name name' deleted links,
)

module _ (w : UsnConstants) where
  link_flag-event_node :
      (event : UsnEvent) (parent : ℕ) (name : List ℕ) (links : List LiveNodeLink)
      → link_flag parent name (event_node w event links).links
        ≡ override (link_effect w event event.frn parent name) (link_flag parent name links)
  unfolding link_effect
  link_flag-event_node event parent name links = ground (
    arith,
    link_flag-set_link event.parent_frn parent event.name name true (live_links w event links),
    link_flag-set_link event.parent_frn parent event.name name false links,
  )

  link_effect-other :
      (event : UsnEvent) (frn parent : ℕ) (name : List ℕ)
      → event.frn == frn ≡ false
      → link_effect w event frn parent name ≡ none
  unfolding link_effect
  link_effect-other event frn parent name h = rw h refl

  pub link_state-apply_event :
      (event : UsnEvent) (graph : LiveDriveGraph) (frn parent : ℕ) (name : List ℕ)
      → link_state (apply_event w event graph) frn parent name
        ≡ override (link_effect w event frn parent name) (link_state graph frn parent name)
  unfolding link_state apply_event
  link_state-apply_event event graph frn parent name =
      let after : get frn (apply_event w event graph).nodes ≡ (
          if event.frn == frn
          then some (event_node w event (links_of (get event.frn graph.nodes)))
          else get frn graph.nodes) =
        get-entry event.frn frn (λ node. event_node w event (links_of node)) graph.nodes in
      elim (Bool-cases (event.frn == frn)) [
        | inl same ↦
            let e : event.frn ≡ frn = ground arith in
            rw (after, same)
              (rw (← e)
                (link_flag-event_node event parent name (links_of (get event.frn graph.nodes))))
        | inr other ↦ rw (after, other, link_effect-other event frn parent name other) refl
      ]

  pub directory_state-apply_event :
      (event : UsnEvent) (graph : LiveDriveGraph) (frn : ℕ)
      → directory_state (apply_event w event graph) frn
        ≡ override (directory_effect w event frn) (directory_state graph frn)
  unfolding directory_state directory_effect apply_event
  directory_state-apply_event event graph frn =
      ground
        (arith, get-entry event.frn frn (λ node. event_node w event (links_of node)) graph.nodes)

  -- An event affects the topology exactly if it makes or removes a name.
  affects_topology_iff :
      (event : UsnEvent)
      → affects_topology w event ≡ (is_live_reason w event || is_deleted_reason w event)
  unfolding affects_topology is_live_reason is_deleted_reason
  affects_topology_iff event = ground (
    arith,
    bit_and-bit_or event.reason w.file_create w.file_delete,
    bit_and-bit_or event.reason (bit_or w.file_create w.file_delete) w.rename_old_name,
    bit_and-bit_or event.reason (bit_or (bit_or w.file_create w.file_delete) w.rename_old_name)
        w.rename_new_name,
    bit_and-bit_or event.reason
        (bit_or (bit_or (bit_or w.file_create w.file_delete) w.rename_old_name) w.rename_new_name)
        w.hard_link_change,
    bit_and-bit_or event.reason w.file_create w.rename_new_name,
    bit_and-bit_or event.reason (bit_or w.file_create w.rename_new_name) w.hard_link_change,
    bit_and-bit_or event.reason w.file_delete w.rename_old_name,
  )

  -- An event that is skipped would have changed no link.
  pub link_effect-skipped :
      (event : UsnEvent) (frn parent : ℕ) (name : List ℕ)
      → affects_topology w event ≡ false
      → link_effect w event frn parent name ≡ none
  unfolding link_effect
  link_effect-skipped event frn parent name h = ground (arith, affects_topology_iff event)
