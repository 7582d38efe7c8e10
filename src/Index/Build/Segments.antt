-- ===== src/Index/Build/Segments.antt =====
-- What the tables say of the rows so far, and that adding a segment keeps it.
use teamy_mft.Common.{
  ℕ, zero, suc, ◌^◌, ◌<◌, ◌≤◌, ◌≡◌, refl, sym, ap, ◌∙◌, Bool, true, false, Option, none, some, List,
  [], ◌∷◌, ◌++◌, ◌==◌, length, get_elem?, get_or, if◌then◌else◌, arith, inl, inr, Bool-cases,
  Option-cases, length-append, and_then,
}
use teamy_mft.Common.Bytes.{Bytes}
use teamy_mft.Common.Dict.{string_eq, get, get-entry, text_eq, text_eq_iff}
use teamy_mft.Common.Sorted.{contains}
use teamy_mft.Query.Needle.{any}
use teamy_mft.Query.Group.{last}
use teamy_mft.Query.Lookup.Scans.{holds}
use teamy_mft.Query.Lookup.Suffixes.{extension_is}
use teamy_mft.Index.{SearchIndexNodeRecord, normalized_extension_suffix}
use teamy_mft.Index.Rows.{row_segments}
use teamy_mft.Index.Build.{
  SearchIndexSerializationTables, text_trigrams, entry_text, terminal_suffix, with_segment,
  with_node,
}
use teamy_mft.Index.Build.Tables.{posted, posted-push_trigrams}

module _ {A : Type 0} where
  pub get_elem?-append_one :
      (xs : List A) (a : A) (i : ℕ)
      → get_elem? (xs ++ a ∷ []) i ≡ (if i == length xs then some a else get_elem? xs i)
  get_elem?-append_one [] a zero = refl
  get_elem?-append_one [] a (suc i) = ground arith
  get_elem?-append_one (x ∷ xs) a zero = ground arith
  get_elem?-append_one (x ∷ xs) a (suc i) = ground (arith, get_elem?-append_one xs a i)

  pub get_or-append_one :
      (xs : List A) (a d : A) (i : ℕ)
      → get_or (xs ++ a ∷ []) i d ≡ (if i == length xs then a else get_or xs i d)
  get_or-append_one [] a d zero = refl
  get_or-append_one [] a d (suc i) = ground arith
  get_or-append_one (x ∷ xs) a d zero = ground arith
  get_or-append_one (x ∷ xs) a d (suc i) = ground (arith, get_or-append_one xs a d i)

  pub get_elem?_below : (xs : List A) (i : ℕ) (a : A) → get_elem? xs i ≡ some a → i < length xs
  get_elem?_below [] i a h = cc
  get_elem?_below (x ∷ xs) zero a h = omega arith
  get_elem?_below (x ∷ xs) (suc i) a h = omega (arith, get_elem?_below xs i a h)

  pub get_elem?_end : (xs : List A) → get_elem? xs (length xs) ≡ none
  get_elem?_end [] = refl
  get_elem?_end (x ∷ xs) = get_elem?_end xs

  pub get_elem?-append_some :
      (xs : List A) (a b : A) (i : ℕ)
      → get_elem? xs i ≡ some b
      → get_elem? (xs ++ a ∷ []) i ≡ some b
  get_elem?-append_some xs a b i h =
      let below = get_elem?_below xs i b h in ground (arith, get_elem?-append_one xs a i)

pub contains-last : (ids : List ℕ) (id : ℕ) → last ids ≡ some id → contains ids id ≡ true
unfolding last
contains-last [] id h = cc
contains-last (x ∷ []) id h = ground (arith, h)
contains-last (x ∷ y ∷ ids) id h = ground (arith, contains-last (y ∷ ids) id h)

-- A text has a trigram among those of its segment.
abbrev pub has_text_trigram : Bytes → Bytes → Bool
has_text_trigram trigram text = any (λ t. text_eq t trigram) (text_trigrams text)

-- A node is that of the last of the numbers.
abbrev pub HasTerminal : List SearchIndexNodeRecord → ℕ → List ℕ → Type 0
HasTerminal nodes node ids =
    (r : SearchIndexNodeRecord) × (get_elem? nodes node ≡ some r) × (last ids ≡ some r.segment_id)

pub record IsBuilt (to_lowercase : Bytes → Bytes) (rows : List (List ℕ))
    (t : SearchIndexSerializationTables) : Type 0 where
  pub sized : length t.postings_by_segment ≡ length t.segment_entries
  pub few : length t.segment_entries ≤ 2 ^ 32
  pub counted : length t.terminals ≡ length rows
  pub known : (x id : ℕ) → contains (row_segments rows x) id ≡ true → id < length t.segment_entries
  pub rows_posted :
      (id x : ℕ)
      → contains (get_or t.postings_by_segment id []) x ≡ contains (row_segments rows x) id
  pub terminal :
      (x : ℕ) (end : ℕ × Bool)
      → get_elem? t.terminals x ≡ some end
      → HasTerminal t.path_nodes end.0 (row_segments rows x)
  pub extended :
      (suffix : Bytes) (x : ℕ)
      → posted suffix t.extension_postings_by_suffix x
        ≡ extension_is suffix (terminal_suffix t.segment_entries (row_segments rows x))
  pub trigrams_posted :
      (trigram : Bytes) (id : ℕ)
      → posted trigram t.trigram_postings_by_trigram id
        ≡ holds (has_text_trigram trigram) (entry_text t.segment_entries id)
  pub named :
      (segment : Bytes) (id : ℕ)
      → get segment t.segment_ids_by_display ≡ some id
      → get_elem? t.segment_entries id ≡ some (segment, to_lowercase segment)

entry_text-append :
    (entries : List (Bytes × Bytes)) (segment text : Bytes) (id : ℕ)
    → entry_text (entries ++ (segment, text) ∷ []) id
      ≡ (if id == length entries then some text else entry_text entries id)
entry_text-append entries segment text id =
    rw (get_elem?-append_one entries (segment, text) id) (elim (Bool-cases (id == length entries)) [
      | inl same ↦ rw same refl
      | inr other ↦ rw other refl
    ])

-- A later segment does not change the extension of a row.
terminal_suffix-append :
    (entries : List (Bytes × Bytes)) (segment text : Bytes) (ids : List ℕ)
    → ((id : ℕ) → contains ids id ≡ true → id < length entries)
    → terminal_suffix (entries ++ (segment, text) ∷ []) ids ≡ terminal_suffix entries ids
terminal_suffix-append entries segment text ids known = elim (Option-cases (last ids)) [
  | inl gone ↦ rw gone refl
  | inr (id, e) ↦
      let below = known id (contains-last ids id e) in
      let other : id == length entries ≡ false = ground arith in
      rw e (
        ap (λ o. and_then o normalized_extension_suffix)
          (entry_text-append entries segment text id ∙ rw other refl))
]

module _ (to_lowercase : Bytes → Bytes) where
  pub with_segment-IsBuilt :
      (rows : List (List ℕ)) (segment : Bytes) (t : SearchIndexSerializationTables)
      → length t.segment_entries < 2 ^ 32
      → IsBuilt to_lowercase rows t
      → IsBuilt to_lowercase rows (with_segment to_lowercase segment (length t.segment_entries) t)
  with_segment-IsBuilt rows segment t small built =
      let text = to_lowercase segment in
      let entries = t.segment_entries in
      record {
        sized = ground (
          arith,
          built.sized,
          length-append entries ((segment, text) ∷ []),
          length-append t.postings_by_segment ([] ∷ []),
        );
        few = ground (arith, length-append entries ((segment, text) ∷ []));
        counted = built.counted;
        known = λ x id h.
            omega (arith, built.known x id h, length-append entries ((segment, text) ∷ []));
        rows_posted = λ id x. elim (Bool-cases (id == length t.postings_by_segment)) [
          | inr other ↦
              rw (get_or-append_one t.postings_by_segment [] [] id, other) (built.rows_posted id x)
          | inl same ↦
              rw (get_or-append_one t.postings_by_segment [] [] id, same)
                (elim (Bool-cases (contains (row_segments rows x) id)) [
                  | inr gone ↦ sym gone
                  | inl there ↦ absurd (ground (arith, built.known x id there, same, built.sized))
                ])
        ];
        terminal = built.terminal;
        extended = λ suffix x.
            built.extended suffix x
            ∙ ap (extension_is suffix) (
                sym (
                  terminal_suffix-append entries segment text (row_segments rows x)
                    (built.known x)));
        trigrams_posted = λ trigram id.
            posted-push_trigrams (length entries) (text_trigrams text) t.trigram_postings_by_trigram
              trigram id
            ∙ rw (built.trigrams_posted trigram id, entry_text-append entries segment text id)
                (elim (Bool-cases (id == length entries)) [
                  | inl same ↦
                      let e : id ≡ length entries = ground arith in
                      let end : get_elem? entries id ≡ none = rw e (get_elem?_end entries) in
                      let turned : length entries == id ≡ true = ground arith in
                      rw (same, end, turned) (ground arith)
                  | inr other ↦
                      let turned : length entries == id ≡ false = ground (arith, other) in
                      rw (other, turned) (ground arith)
                ]);
        named = λ other id h. elim (Bool-cases (text_eq segment other)) [
          | inl same ↦
              let e : segment ≡ other = (text_eq_iff segment other).0 same in
              let found : some (length entries) ≡ some id =
                rw (get-entry segment other (λ _. length entries) t.segment_ids_by_display, same) at
                  h in
              let e' : length entries ≡ id = cc in
              let here : length entries == length entries ≡ true = ground arith in
              rw (← e', ← e)
                (get_elem?-append_one entries (segment, text) (length entries) ∙ rw here refl)
          | inr apart ↦
              let found : get other t.segment_ids_by_display ≡ some id =
                rw (get-entry segment other (λ _. length entries) t.segment_ids_by_display, apart)
                  at h in
              get_elem?-append_some entries (segment, text) (other, to_lowercase other) id
                (built.named other id found)
        ];
      }

  pub with_node-IsBuilt :
      (rows : List (List ℕ)) (id : ℕ) (parent : Option ℕ) (t : SearchIndexSerializationTables)
      → IsBuilt to_lowercase rows t
      → IsBuilt to_lowercase rows (with_node to_lowercase id parent t)
  with_node-IsBuilt rows id parent t built = record {
    sized = built.sized;
    few = built.few;
    counted = built.counted;
    known = built.known;
    rows_posted = built.rows_posted;
    terminal = λ x end h.
        let (node, found, ends) = built.terminal x end h in
        (
          node,
          get_elem?-append_some t.path_nodes
              (record { segment_id = id; parent_node_index = parent }) node end.0 found,
          ends,
        );
    extended = built.extended;
    trigrams_posted = built.trigrams_posted;
    named = built.named;
  }
