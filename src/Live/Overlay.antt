-- ===== src/Live/Overlay.antt =====
-- src/machine/live_drive_state.rs: the rows by which the current state of a drive differs from its
-- published index. A hash map is the list of its entries in the order of their first insertion;
-- the sort at the end makes the order of no account.
pub mod Difference
use teamy_mft.Common.{
  ℕ, Bool, true, false, not, Option, none, some, List, [], ◌∷◌, ◌++◌, ltb, if◌then◌else◌,
}
use teamy_mft.Common.Dict.{Dict, string_eq, get, entry}
use teamy_mft.Live.State.{SearchIndexPathRow}
use teamy_mft.Texts.{sort_by}

abbrev pub path_of : SearchIndexPathRow → List ℕ
path_of row = row.path

-- `rows.map(..).collect::<FxHashMap<_, _>>()`: the last row of a path stays.
unfoldable pub collect_from : List SearchIndexPathRow → Dict (List ℕ) Bool → Dict (List ℕ) Bool
collect_from [] map = map
collect_from (row ∷ rows) map =
    collect_from rows (entry row.path (λ _. row.has_deleted_entries) map)

unfoldable pub by_path : List SearchIndexPathRow → Dict (List ℕ) Bool
unfolding collect_from
by_path rows = collect_from rows []

abbrev pub is_same : Option Bool → Bool → Bool
is_same none deleted = false
is_same (some true) deleted = deleted
is_same (some false) deleted = not deleted

abbrev pub is_none : Option Bool → Bool
is_none none = true
is_none (some deleted) = false

-- The entries of the current state that the base does not have like that.
unfoldable pub changed_rows : Dict (List ℕ) Bool → Dict (List ℕ) Bool → List SearchIndexPathRow
changed_rows base [] = []
changed_rows base ((path, deleted) ∷ current) =
    let rest = changed_rows base current in
    if is_same (get path base) deleted
    then rest
    else record { path = path; has_deleted_entries = deleted } ∷ rest

-- The entries of the base that the current state does not have.
unfoldable pub missing_rows : Dict (List ℕ) Bool → Dict (List ℕ) Bool → List SearchIndexPathRow
missing_rows current [] = []
missing_rows current ((path, deleted) ∷ base) =
    let rest = missing_rows current base in
    if is_none (get path current)
    then record { path = path; has_deleted_entries = true } ∷ rest
    else rest

unfoldable pub diff_overlay_rows :
    List SearchIndexPathRow → List SearchIndexPathRow → List SearchIndexPathRow
unfolding by_path changed_rows missing_rows
diff_overlay_rows base_rows current_rows =
    let base_by_path = by_path base_rows in
    let current_by_path = by_path current_rows in
    sort_by path_of
      (changed_rows base_by_path current_by_path ++ missing_rows current_by_path base_by_path)
