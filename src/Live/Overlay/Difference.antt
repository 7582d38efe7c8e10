-- ===== src/Live/Overlay/Difference.antt =====
-- The overlay, laid over the published rows, shows the current state of every path.
use teamy_mft.Common.{
  ℕ, ◌≡◌, refl, ◌∙◌, Bool, true, false, Option, none, some, List, [], ◌∷◌, ◌++◌, if◌then◌else◌,
  arith, Bool-cases, inl, inr,
}
use teamy_mft.Common.Dict.{
  Dict, string_eq, get, entry, get-entry, text_eq, text_eq_iff, IsDistinct, entry-IsDistinct,
}
use teamy_mft.Live.State.{SearchIndexPathRow}
use teamy_mft.Texts.{
  override, IsOrderedBy, sort_by-IsOrderedBy, state_by, state_by-sort_by, state_by-append,
}
use teamy_mft.Live.Overlay.{
  path_of, collect_from, by_path, is_same, is_none, changed_rows, missing_rows, diff_overlay_rows,
}

-- What rows say of a path: the first one in an index, and the last one where a map is made of them.
abbrev pub row_state : List ℕ → List SearchIndexPathRow → Option Bool
row_state = state_by path_of (λ row. row.has_deleted_entries)

pub last_state : List ℕ → List SearchIndexPathRow → Option Bool
last_state path [] = none
last_state path (row ∷ rows) =
    override (last_state path rows)
      (if text_eq row.path path then some row.has_deleted_entries else none)

-- A path that is gone is shown as deleted.
abbrev pub overlay_state : Option Bool → Option Bool → Option Bool
overlay_state base (some deleted) = if is_same base deleted then none else some deleted
overlay_state none none = none
overlay_state (some old) none = some true

get-collect_from :
    (path : List ℕ) (rows : List SearchIndexPathRow) (map : Dict (List ℕ) Bool)
    → get path (collect_from rows map) ≡ override (last_state path rows) (get path map)
unfolding collect_from last_state
get-collect_from path [] map = refl
get-collect_from path (row ∷ rows) map = ground (
  arith,
  get-collect_from path rows (entry row.path (λ _. row.has_deleted_entries) map),
  get-entry row.path path (λ _. row.has_deleted_entries) map,
)

collect_from-IsDistinct :
    (rows : List SearchIndexPathRow) (map : Dict (List ℕ) Bool)
    → IsDistinct map
    → IsDistinct (collect_from rows map)
unfolding collect_from
collect_from-IsDistinct [] map d = d
collect_from-IsDistinct (row ∷ rows) map d =
    collect_from-IsDistinct rows (entry row.path (λ _. row.has_deleted_entries) map)
      (entry-IsDistinct row.path (λ _. row.has_deleted_entries) map d)

get-by_path :
    (path : List ℕ) (rows : List SearchIndexPathRow)
    → get path (by_path rows) ≡ last_state path rows
unfolding by_path get
get-by_path path rows =
    get-collect_from path rows []
    ∙ elim (last_state path rows) as (λ a. override a none ≡ a) [ none ↦ refl | some a ↦ refl ]

abbrev changed : Option Bool → Option Bool → Option Bool
changed base none = none
changed base (some deleted) = if is_same base deleted then none else some deleted

row_state-changed_rows :
    (path : List ℕ) (base current : Dict (List ℕ) Bool)
    → IsDistinct current
    → row_state path (changed_rows base current) ≡ changed (get path base) (get path current)
unfolding state_by changed_rows get
row_state-changed_rows path base [] d = refl
row_state-changed_rows path base ((key, deleted) ∷ current) d =
    elim (Bool-cases (text_eq key path)) [
      | inl same ↦
          let e : key ≡ path = (text_eq_iff key path).0 same in
          let rest : row_state key (changed_rows base current) ≡ none =
            rw d.0 at (row_state-changed_rows key base current d.1) in
          rw (same, ← e)
            (elim (Bool-cases (is_same (get key base) deleted)) [
              | inl unchanged ↦ rw unchanged rest
              | inr new ↦ rw (new, (text_eq_iff key key).1 refl) refl
            ])
      | inr other ↦
          let rest = row_state-changed_rows path base current d.1 in
          rw other (elim (Bool-cases (is_same (get key base) deleted)) [
            | inl unchanged ↦ rw unchanged rest
            | inr new ↦ rw (new, other) rest
          ])
    ]

abbrev missing : Option Bool → Option Bool → Option Bool
missing current none = none
missing current (some old) = if is_none current then some true else none

missing_kept : (current base : Option Bool) → is_none current ≡ false → missing current base ≡ none
missing_kept current none h = refl
missing_kept current (some old) h = rw h refl

row_state-missing_rows :
    (path : List ℕ) (current base : Dict (List ℕ) Bool)
    → row_state path (missing_rows current base) ≡ missing (get path current) (get path base)
unfolding state_by missing_rows get
row_state-missing_rows path current [] = refl
row_state-missing_rows path current ((key, old) ∷ base) =
    let rest = row_state-missing_rows path current base in
    elim (Bool-cases (text_eq key path)) [
      | inl same ↦
          let e : key ≡ path = (text_eq_iff key path).0 same in
          rw same (elim (Bool-cases (is_none (get key current))) [
            | inl gone ↦
                let gone' : is_none (get path current) ≡ true = rw (← e) gone in
                rw (gone, gone', same) refl
            | inr kept ↦
                let kept' : is_none (get path current) ≡ false = rw (← e) kept in
                rw (kept, kept') (rest ∙ missing_kept (get path current) (get path base) kept')
          ])
      | inr other ↦ rw other (elim (Bool-cases (is_none (get key current))) [
        | inl gone ↦ rw (gone, other) rest
        | inr kept ↦ rw kept rest
      ])
    ]

override-missing :
    (base current : Option Bool)
    → override (changed base current) (missing current base) ≡ overlay_state base current
override-missing base current = ground arith

-- The rows of the overlay are in the order of their paths. A path has a row exactly if the current
-- state of the path is not the base's, and the row has the current state; a path that is in the
-- base and no more in the current rows has a row that says deleted. Of several rows of one path
-- in the base or the current rows the last one counts.
pub diff_overlay_rows_lem :
    (base_rows current_rows : List SearchIndexPathRow)
    → IsOrderedBy path_of (diff_overlay_rows base_rows current_rows)
      × ((path : List ℕ)
          → row_state path (diff_overlay_rows base_rows current_rows)
            ≡ overlay_state (last_state path base_rows) (last_state path current_rows))
unfolding diff_overlay_rows
diff_overlay_rows_lem base_rows current_rows =
    let base = by_path base_rows in
    let current = by_path current_rows in
    (
      sort_by-IsOrderedBy path_of (changed_rows base current ++ missing_rows current base),
      λ path.
          state_by-sort_by path_of (λ row. row.has_deleted_entries) path
            (changed_rows base current ++ missing_rows current base)
          ∙ state_by-append path_of (λ row. row.has_deleted_entries) path
              (changed_rows base current) (missing_rows current base)
          ∙ rw
              (
                row_state-changed_rows path base current
                    (collect_from-IsDistinct current_rows [] tt),
                row_state-missing_rows path current base,
                get-by_path path base_rows,
                get-by_path path current_rows,
              )
              (override-missing (last_state path base_rows) (last_state path current_rows)),
    )
