-- ===== src/Live/Graph.antt =====
-- src/machine/live_drive_state.rs and usn.rs: the nodes of a drive with their links, and what an
-- event of the change journal does to them. Names are lists of code points.
pub mod Effects
pub mod Batches
use teamy_mft.Common.{
  ℕ, ◌+◌, Bool, true, false, ◌&&◌, not, Option, none, some, List, [], ◌∷◌, ◌==◌, if◌then◌else◌,
}
use teamy_mft.Common.Dict.{Dict, nat_eq, text_eq, get, entry}
use Prim.Native.Nat.{bit_and, bit_or}

-- The constants of the operating system that the code imports.
pub record UsnConstants : Type 0 where
  pub file_create : ℕ
  pub file_delete : ℕ
  pub rename_old_name : ℕ
  pub rename_new_name : ℕ
  pub hard_link_change : ℕ
  pub file_attribute_directory : ℕ

pub record UsnEvent : Type 0 where
  pub frn : ℕ
  pub parent_frn : ℕ
  pub usn : ℕ
  pub reason : ℕ
  pub file_attributes : ℕ
  pub name : List ℕ

pub record UsnReadBatch : Type 0 where
  pub next_usn : ℕ
  pub events : List UsnEvent

pub record JournalCursor : Type 0 where
  pub journal_id : ℕ
  pub first_usn : ℕ
  pub next_usn : ℕ
  pub lowest_valid_usn : ℕ
  pub max_usn : ℕ

pub record LiveNodeLink : Type 0 where
  pub parent_frn : ℕ
  pub name : List ℕ
  pub is_deleted : Bool

pub record LiveNode : Type 0 where
  pub is_directory : Bool
  pub links : List LiveNodeLink

pub record LiveDriveGraph : Type 0 where
  pub drive_letter : ℕ
  pub root_frn : ℕ
  pub nodes : Dict ℕ LiveNode

abbrev pub is_link : ℕ → List ℕ → LiveNodeLink → Bool
is_link parent name link = link.parent_frn == parent && text_eq link.name name

-- `iter_mut().find(..)`, and the write or the push that follows.
unfoldable pub set_link : ℕ → List ℕ → Bool → List LiveNodeLink → List LiveNodeLink
set_link parent name deleted [] =
    record { parent_frn = parent; name = name; is_deleted = deleted } ∷ []
set_link parent name deleted (link ∷ links) =
    if is_link parent name link
    then record link { is_deleted = deleted } ∷ links
    else link ∷ set_link parent name deleted links

-- The links of an entry of the map.
abbrev pub links_of : Option LiveNode → List LiveNodeLink
links_of none = []
links_of (some node) = node.links

module _ (w : UsnConstants) where
  unfoldable pub event_is_directory : UsnEvent → Bool
  event_is_directory event = not (bit_and event.file_attributes w.file_attribute_directory == 0)

  unfoldable pub affects_topology : UsnEvent → Bool
  affects_topology event = not (
      bit_and event.reason (
        bit_or
          (bit_or (bit_or (bit_or w.file_create w.file_delete) w.rename_old_name) w.rename_new_name)
          w.hard_link_change)
      == 0)

  unfoldable pub is_live_reason : UsnEvent → Bool
  is_live_reason event = not (
      bit_and event.reason (bit_or (bit_or w.file_create w.rename_new_name) w.hard_link_change)
      == 0)

  unfoldable pub is_deleted_reason : UsnEvent → Bool
  is_deleted_reason event = not (bit_and event.reason (bit_or w.file_delete w.rename_old_name) == 0)

  abbrev pub live_links : UsnEvent → List LiveNodeLink → List LiveNodeLink
  live_links event links =
      if is_live_reason event then set_link event.parent_frn event.name false links else links

  abbrev pub deleted_links : UsnEvent → List LiveNodeLink → List LiveNodeLink
  deleted_links event links =
      if is_deleted_reason event then set_link event.parent_frn event.name true links else links

  -- The node, or the one that `or_insert_with` makes, after the event.
  abbrev pub event_node : UsnEvent → List LiveNodeLink → LiveNode
  event_node event links = record {
    is_directory = event_is_directory event;
    links = deleted_links event (live_links event links);
  }

  unfoldable pub apply_event : UsnEvent → LiveDriveGraph → LiveDriveGraph
  apply_event event graph = record graph {
    nodes = entry event.frn (λ node. event_node event (links_of node)) graph.nodes;
  }
