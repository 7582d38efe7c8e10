-- ===== src/Index/Build/Loop.antt =====
-- The loop over the rows: what the tables hold of them.
use teamy_mft.Common.{
  ℕ, ◌≡◌, refl, sym, ap, ◌∙◌, Option, none, List, [], ◌∷◌, ◌++◌, map, append-nil, append_assoc,
  map-append, length, arith,
}
use teamy_mft.Common.Bytes.{Bytes}
use teamy_mft.Common.Dict.{string_eq, get}
use teamy_mft.Common.Result.{Result, ok, ◌>>=◌}
use teamy_mft.Query.Group.{path_segments, last}
use teamy_mft.Query.Lookup.{u32_try_from}
use teamy_mft.Index.{IndexError}
use teamy_mft.Index.Build.{
  PathRow, SearchIndexSerializationTables, no_tables, add_segments, finish_row, add_row, add_rows,
}
use teamy_mft.Index.Build.Segments.{IsBuilt}
use teamy_mft.Index.Build.Lines.{
  bind_ok, u32_try_from_ok, Extends, IsLine, IsLine-Extends, add_segments_lem,
}
use teamy_mft.Index.Build.Finish.{finish_row-IsBuilt}

module _ (to_lowercase : Bytes → Bytes) where
  -- Each row's numbers are those of its path's segments, and each row has its flag.
  abbrev pub AreLines : SearchIndexSerializationTables → List (List ℕ) → List PathRow → Type 0
  AreLines t [] [] = Unit
  AreLines t [] (row ∷ path_rows) = ⊥
  AreLines t (ids ∷ rows) [] = ⊥
  AreLines t (ids ∷ rows) (row ∷ path_rows) =
      IsLine to_lowercase t ids (path_segments row.path) × AreLines t rows path_rows

  AreLines-append_one :
      (t later : SearchIndexSerializationTables) (rows : List (List ℕ)) (past : List PathRow)
      (ids : List ℕ) (row : PathRow)
      → Extends t later
      → AreLines t rows past
      → IsLine to_lowercase later ids (path_segments row.path)
      → AreLines later (rows ++ ids ∷ []) (past ++ row ∷ [])
  AreLines-append_one t later [] [] ids row more h new = (new, tt)
  AreLines-append_one t later [] (r ∷ past) ids row more h new = absurd h
  AreLines-append_one t later (l ∷ rows) [] ids row more h new = absurd h
  AreLines-append_one t later (l ∷ rows) (r ∷ past) ids row more h new = (
    IsLine-Extends to_lowercase t later l (path_segments r.path) more h.0,
    AreLines-append_one t later rows past ids row more h.1 new,
  )

  pub no_tables-IsBuilt : IsBuilt to_lowercase [] no_tables
  unfolding last get
  no_tables-IsBuilt = record {
    sized = refl;
    few = omega arith;
    counted = refl;
    known = λ x id h. cc;
    rows_posted = λ id x. refl;
    terminal = λ x end h. cc;
    extended = λ suffix x. refl;
    trigrams_posted = λ trigram id. refl;
    named = λ segment id h. cc;
  }

  abbrev pub HaveFlags : SearchIndexSerializationTables → List PathRow → Type 0
  HaveFlags t past = map (λ e. e.1) t.terminals ≡ map (λ r. r.has_deleted_entries) past

  add_row_lem :
      (rows : List (List ℕ)) (past : List PathRow) (row : PathRow)
      (t later : SearchIndexSerializationTables)
      → IsBuilt to_lowercase rows t
      → AreLines t rows past
      → HaveFlags t past
      → add_row to_lowercase row t ≡ ok later
      → (ids : List ℕ) × IsBuilt to_lowercase (rows ++ ids ∷ []) later
        × AreLines later (rows ++ ids ∷ []) (past ++ row ∷ [])
        × HaveFlags later (past ++ row ∷ [])
  unfolding add_row
  add_row_lem rows past row t later built lines flags h =
      let rest : ℕ
          → SearchIndexSerializationTables × Option ℕ × List ℕ
          → Result IndexError SearchIndexSerializationTables =
        λ n. finish_row n row.has_deleted_entries in
      let segments = path_segments row.path in
      let (row_index, fits, h1) =
        bind_ok (u32_try_from (length t.terminals))
          (λ n. add_segments to_lowercase segments t none [] >>= rest n) later h in
      let (p, added, h2) =
        bind_ok (add_segments to_lowercase segments t none []) (rest row_index) later h1 in
      let (now, more, line, ends, same) =
        add_segments_lem to_lowercase rows segments [] t p.0 none p.1 [] p.2 built refl
          (λ node e. cc) added in
      let en : length rows ≡ row_index =
        sym built.counted ∙ (u32_try_from_ok (length t.terminals) row_index fits).0 in
      let h3 : rest (length rows) p ≡ ok later = rw en h2 in
      let (done, entries, flags') =
        finish_row-IsBuilt to_lowercase rows row.has_deleted_entries p.0 later p.1 p.2 segments now
          line ends h3 in
      let kept : Extends p.0 later = λ i e g. rw entries g in
      (
        p.2,
        done,
        AreLines-append_one t later rows past p.2 row (λ i e g. kept i e (more i e g)) lines
            (IsLine-Extends to_lowercase p.0 later p.2 segments kept line),
        flags'
            ∙ ap (λ f. f ++ row.has_deleted_entries ∷ []) (ap (map (λ e. e.1)) same ∙ flags)
            ∙ sym (map-append (λ r. r.has_deleted_entries) past (row ∷ [])),
      )

  pub add_rows_lem :
      (rows : List (List ℕ)) (past path_rows : List PathRow)
      (t later : SearchIndexSerializationTables)
      → IsBuilt to_lowercase rows t
      → AreLines t rows past
      → HaveFlags t past
      → add_rows to_lowercase path_rows t ≡ ok later
      → (all : List (List ℕ)) × IsBuilt to_lowercase all later
        × AreLines later all (past ++ path_rows)
        × HaveFlags later (past ++ path_rows)
  unfolding add_rows
  add_rows_lem rows past [] t later built lines flags h =
      let e : t ≡ later = cc in rw (← e, append-nil past) (rows, built, lines, flags)
  add_rows_lem rows past (row ∷ path_rows) t later built lines flags h =
      let (next, added, h1) =
        bind_ok (add_row to_lowercase row t) (add_rows to_lowercase path_rows) later h in
      let (ids, now, lines', flags'') = add_row_lem rows past row t next built lines flags added in
      let (all, done, lines'', flags3) =
        add_rows_lem (rows ++ ids ∷ []) (past ++ row ∷ []) path_rows next later now lines' flags''
          h1 in
      (
        all,
        done,
        rw (append_assoc past (row ∷ []) path_rows) at lines'',
        rw (append_assoc past (row ∷ []) path_rows) at flags3,
      )
