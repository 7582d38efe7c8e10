-- ===== src/Index/Build/Collected.antt =====
-- The index of some rows: its tables fulfil the contract of an index.
use teamy_mft.Common.{
  ℕ, zero, suc, ◌^◌, ◌<◌, ◌≡◌, refl, sym, ap, ◌∙◌, ◌&&◌, Option, none, some, List, [], ◌∷◌, map,
  length, ltb, get_elem?, get_or, and_then, arith, inl, inr, Option-cases, Bool-cases,
}
use teamy_mft.Common.Bytes.{Bytes}
use teamy_mft.Common.Dict.{string_eq}
use teamy_mft.Common.Result.{ok}
use teamy_mft.Query.Needle.{str_contains}
use teamy_mft.Query.Group.{path_segments, last}
use teamy_mft.Query.Lookup.Scans.{holds}
use teamy_mft.Query.Lookup.Suffixes.{extension_is}
use teamy_mft.Index.{
  ParsedSearchIndex, node_segment, extension_postings, trigram_postings,
  normalized_extension_suffix,
}
use teamy_mft.Index.Rows.{IsIndexOf, row_segments, segment_text}
use teamy_mft.Index.Build.{
  PathRow, SearchIndexSerializationTables, no_tables, add_rows, entry_text, parsed,
  collect_search_index_tables,
}
use teamy_mft.Index.Build.Tables.{posted-sorted_rows, sorted_rows-IsSorted}
use teamy_mft.Index.Build.Segments.{IsBuilt, has_text_trigram, get_elem?_below}
use teamy_mft.Index.Build.Trigrams.{has_text_trigram_lem}
use teamy_mft.Index.Build.Lines.{bind_ok, IsLine}
use teamy_mft.Index.Build.Loop.{AreLines, no_tables-IsBuilt, add_rows_lem}

get_elem?-map :
    {A B : Type 0} (f : A → B) (xs : List A) (i : ℕ)
    → get_elem? (map f xs) i ≡ and_then (get_elem? xs i) (λ a. some (f a))
get_elem?-map f [] i = refl
get_elem?-map f (x ∷ xs) zero = refl
get_elem?-map f (x ∷ xs) (suc i) = get_elem?-map f xs i

length-map : {A B : Type 0} (f : A → B) (xs : List A) → length (map f xs) ≡ length xs
length-map f [] = refl
length-map f (x ∷ xs) = ap suc (length-map f xs)

get_elem?_known :
    {A : Type 0} (xs : List A) (i : ℕ) (d : A)
    → i < length xs
    → get_elem? xs i ≡ some (get_or xs i d)
get_elem?_known [] i d h = absurd (omega (arith, h))
get_elem?_known (x ∷ xs) zero d h = refl
get_elem?_known (x ∷ xs) (suc i) d h = get_elem?_known xs i d (omega (arith, h))

-- A text holds a trigram, for a number of a segment or of none.
trigram_text :
    (entries : List (Bytes × Bytes)) (trigram : Bytes) (id : ℕ)
    → length trigram ≡ 3
    → holds (has_text_trigram trigram) (entry_text entries id)
      ≡ (ltb id (length entries) && str_contains (segment_text (entry_text entries id)) trigram)
trigram_text entries trigram id three = elim (Bool-cases (ltb id (length entries))) [
  | inl below ↦
      rw (get_elem?_known entries id ([], []) (ground (arith, below)), below)
        (has_text_trigram_lem trigram (get_or entries id ([], [])).1 three)
  | inr past ↦ elim (Option-cases (get_elem? entries id)) [
    | inl gone ↦ rw (gone, past) refl
    | inr (e, found) ↦ absurd (ground (arith, past, get_elem?_below entries id e found))
  ]
]

-- The tables fulfil the contract when they are read again.
parsed-IsIndexOf :
    (to_lowercase : Bytes → Bytes) (rows : List (List ℕ)) (t : SearchIndexSerializationTables)
    → length rows < 2 ^ 32
    → IsBuilt to_lowercase rows t
    → IsIndexOf rows (parsed t)
unfolding parsed node_segment extension_postings trigram_postings
parsed-IsIndexOf to_lowercase rows t few built =
    let entries = t.segment_entries in
    let count = length-map (λ e. e.1) entries in
    let text : (id : ℕ) → get_elem? (map (λ e. e.1) entries) id ≡ entry_text entries id =
      get_elem?-map (λ e. e.1) entries in
    record {
      counted = built.counted;
      few_rows = few;
      few_segments = omega (arith, count, built.few);
      known = λ x id c. omega (arith, count, built.known x id c);
      posted = λ id below. (
        get_or t.postings_by_segment id [],
        get_elem?_known t.postings_by_segment id [] (omega (arith, count, built.sized)),
        λ x. built.rows_posted id x,
      );
      terminal = λ x end found.
          let (node, there, line_end) = built.terminal x end found in rw (there, line_end) refl;
      extension_sorted = λ suffix. sorted_rows-IsSorted suffix t.extension_postings_by_suffix;
      extended = λ suffix x.
          posted-sorted_rows suffix t.extension_postings_by_suffix x
          ∙ built.extended suffix x
          ∙ ap (λ o. extension_is suffix (and_then o normalized_extension_suffix))
              (last_text entries text (last (row_segments rows x)));
      trigrams_posted = λ trigram id three.
          built.trigrams_posted trigram id
          ∙ rw (count, text id) (trigram_text entries trigram id three);
    }
  where
    last_text :
        (entries : List (Bytes × Bytes))
        → ((id : ℕ) → get_elem? (map (λ e. e.1) entries) id ≡ entry_text entries id)
        → (id : Option ℕ)
        → and_then id (entry_text entries) ≡ and_then id (λ n. get_elem? (map (λ e. e.1) entries) n)
    last_text entries text none = refl
    last_text entries text (some id) = sym (text id)

-- The normalized texts of the numbers of each row.
abbrev pub row_texts : ParsedSearchIndex → List (List ℕ) → List (List (Option Bytes))
row_texts index rows = map (map (get_elem? index.segments)) rows

abbrev pub path_texts : (Bytes → Bytes) → PathRow → List (Option Bytes)
path_texts to_lowercase row = map (λ s. some (to_lowercase s)) (path_segments row.path)

line_texts :
    (to_lowercase : Bytes → Bytes) (t : SearchIndexSerializationTables) (ids : List ℕ)
    (segments : List Bytes)
    → IsLine to_lowercase t ids segments
    → map (get_elem? (parsed t).segments) ids ≡ map (λ s. some (to_lowercase s)) segments
unfolding parsed
line_texts to_lowercase t [] [] h = refl
line_texts to_lowercase t [] (s ∷ segments) h = cc
line_texts to_lowercase t (id ∷ ids) [] h = cc
line_texts to_lowercase t (id ∷ ids) (s ∷ segments) h =
    let first : get_elem? t.segment_entries id ≡ some (s, to_lowercase s) = cc in
    let first' : get_elem? (map (λ e. e.1) t.segment_entries) id ≡ some (to_lowercase s) =
      get_elem?-map (λ e. e.1) t.segment_entries id ∙ rw first refl in
    let rest = line_texts to_lowercase t ids segments (cc) in rw (first', rest) refl

lines_texts :
    (to_lowercase : Bytes → Bytes) (t : SearchIndexSerializationTables) (numbers : List (List ℕ))
    (rows : List PathRow)
    → AreLines to_lowercase t numbers rows
    → (row_texts (parsed t) numbers ≡ map (path_texts to_lowercase) rows)
      × (length numbers ≡ length rows)
lines_texts to_lowercase t [] [] h = (refl, refl)
lines_texts to_lowercase t [] (row ∷ rows) h = absurd h
lines_texts to_lowercase t (ids ∷ numbers) [] h = absurd h
lines_texts to_lowercase t (ids ∷ numbers) (row ∷ rows) h =
    let (texts, count) = lines_texts to_lowercase t numbers rows h.1 in
    let first = line_texts to_lowercase t ids (path_segments row.path) h.0 in
    (rw (first, texts) refl, ap suc count)

-- Where there are fewer than 2 ^ 32 rows and their tables are collected without an error, the
-- tables, read as an index, fulfil the contract of an index of the rows' segment numbers; the
-- numbers of each row have the lower-case texts of its path's segments, in order; and the
-- terminals have the rows' flags, in order.
pub collect_search_index_tables-IsIndexOf :
    (to_lowercase : Bytes → Bytes) (rows : List PathRow) (index : ParsedSearchIndex)
    → length rows < 2 ^ 32
    → collect_search_index_tables to_lowercase rows ≡ ok index
    → (numbers : List (List ℕ)) × IsIndexOf numbers index
      × (row_texts index numbers ≡ map (path_texts to_lowercase) rows)
      × (map (λ e. e.1) index.terminals ≡ map (λ r. r.has_deleted_entries) rows)
unfolding collect_search_index_tables
collect_search_index_tables-IsIndexOf to_lowercase rows index few h =
    let (t, added, read) =
      bind_ok (add_rows to_lowercase rows no_tables) (λ t. ok (parsed t)) index h in
    let (numbers, built, lines, flags) =
      add_rows_lem to_lowercase [] [] rows no_tables t (no_tables-IsBuilt to_lowercase) tt refl
        added in
    let e : parsed t ≡ index = cc in
    let (texts, count) = lines_texts to_lowercase t numbers rows lines in
    rw (← e) (
      numbers,
      parsed-IsIndexOf to_lowercase numbers t (omega (arith, count, few)) built,
      texts,
      unfold parsed in flags,
    )
