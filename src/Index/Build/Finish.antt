-- ===== src/Index/Build/Finish.antt =====
-- What the tables hold when a row is finished.
use teamy_mft.Common.{
  ℕ, zero, suc, ◌<◌, ◌≤◌, ◌≡◌, refl, sym, ap, ◌∙◌, Bool, true, false, ◌||◌, ◌&&◌, Option, none,
  some, List, [], ◌∷◌, ◌++◌, ◌==◌, ltb, length, get_elem?, get_or, if◌then◌else◌, arith, inl, inr,
  Bool-cases, length-append, map, map-append,
}
use teamy_mft.Common.Bytes.{Bytes}
use teamy_mft.Common.Dict.{Dict}
use teamy_mft.Common.Result.{ok}
use teamy_mft.Common.Sorted.{contains, sort, dedup, contains-sort, contains-dedup}
use teamy_mft.Query.Group.{last}
use teamy_mft.Query.Lookup.Suffixes.{extension_is}
use teamy_mft.Index.{SearchIndexNodeRecord}
use teamy_mft.Index.Rows.{row_segments}
use teamy_mft.Index.Build.{
  SearchIndexSerializationTables, finish_row, post_row, post_extension, terminal_suffix,
}
use teamy_mft.Index.Build.Tables.{posted, posted-push_posting, length-post_row, contains-post_row}
use teamy_mft.Index.Build.Segments.{
  HasTerminal, IsBuilt, get_elem?-append_one, get_or-append_one, get_elem?_below,
}
use teamy_mft.Index.Build.Lines.{Ends, IsLine}

get_or_past : {A : Type 0} (xs : List A) (i : ℕ) (d : A) → length xs ≤ i → get_or xs i d ≡ d
get_or_past [] i d h = refl
get_or_past (x ∷ xs) zero d h = absurd (omega (arith, h))
get_or_past (x ∷ xs) (suc i) d h = get_or_past xs i d (omega (arith, h))

posted-post_extension :
    (number : ℕ) (suffix : Bytes) (added : Option Bytes) (postings : Dict Bytes (List ℕ)) (x : ℕ)
    → posted suffix (post_extension number added postings) x
      ≡ (posted suffix postings x || (extension_is suffix added && (number == x)))
unfolding post_extension
posted-post_extension number suffix none postings x = ground arith
posted-post_extension number suffix (some added) postings x =
    posted-push_posting added suffix number x postings

row_segments-append_one :
    (rows : List (List ℕ)) (ids : List ℕ) (x : ℕ)
    → row_segments (rows ++ ids ∷ []) x ≡ (if x == length rows then ids else row_segments rows x)
row_segments-append_one rows ids x = get_or-append_one rows ids [] x

-- The rows of a segment once the postings of row `n` are there.
finish_postings :
    (postings rows : List (List ℕ)) (ids : List ℕ) (id x : ℕ)
    → ((other : ℕ) → contains ids other ≡ true → other < length postings)
    → ((y other : ℕ) → contains (row_segments rows y) other ≡ true → other < length postings)
    → ((y : ℕ) → contains (get_or postings id []) y ≡ contains (row_segments rows y) id)
    → contains (get_or (post_row (length rows) (dedup (sort ids)) postings) id []) x
      ≡ contains (row_segments (rows ++ ids ∷ []) x) id
finish_postings postings rows ids id x known old h =
    let sorted = contains-dedup (sort ids) id ∙ contains-sort ids id in
    let none_yet : contains (row_segments rows (length rows)) id ≡ false =
      rw (get_or_past rows (length rows) [] (omega arith)) refl in
    let longer : contains (row_segments (rows ++ ids ∷ []) x) id
        ≡ (if x == length rows then contains ids id else contains (row_segments rows x) id) =
      rw (row_segments-append_one rows ids x)
        (elim (Bool-cases (x == length rows)) [ inl s ↦ rw s refl | inr s ↦ rw s refl ]) in
    elim (Bool-cases (ltb id (length postings))) [
      | inl below ↦
          let now =
            contains-post_row (length rows) (dedup (sort ids)) postings id x
              (ground (arith, below)) in
          elim (Bool-cases (x == length rows)) [
            | inl same ↦
                let e : x ≡ length rows = ground (arith, same) in
                let e' : contains (row_segments rows x) id ≡ false = rw e none_yet in
                ground (arith, now, sorted, longer, same, e', h x)
            | inr apart ↦ ground (arith, now, sorted, longer, apart, h x)
          ]
      | inr past ↦
          let gone : get_or (post_row (length rows) (dedup (sort ids)) postings) id [] ≡ [] =
            get_or_past (post_row (length rows) (dedup (sort ids)) postings) id []
              (ground (arith, past, length-post_row (length rows) (dedup (sort ids)) postings)) in
          rw gone (sym (longer ∙ ground (arith, past, known id, old x id)))
    ]

line_known :
    (to_lowercase : Bytes → Bytes) (t : SearchIndexSerializationTables) (ids : List ℕ)
    (segments : List Bytes)
    → IsLine to_lowercase t ids segments
    → (id : ℕ) → contains ids id ≡ true
    → id < length t.segment_entries
line_known to_lowercase t [] segments line id h = cc
line_known to_lowercase t (i ∷ ids) [] line id h = cc
line_known to_lowercase t (i ∷ ids) (s ∷ segments) line id h =
    let first : get_elem? t.segment_entries i ≡ some (s, to_lowercase s) = cc in
    let below = get_elem?_below t.segment_entries i (s, to_lowercase s) first in
    ground (arith, h, below, line_known to_lowercase t ids segments (cc) id)

-- The suffix of row `x` once the row behind the others is there.
finish_suffix :
    (entries : List (Bytes × Bytes)) (rows : List (List ℕ)) (ids : List ℕ) (suffix : Bytes) (x : ℕ)
    → (extension_is suffix (terminal_suffix entries (row_segments rows x))
        || (extension_is suffix (terminal_suffix entries ids) && (length rows == x)))
      ≡ extension_is suffix (terminal_suffix entries (row_segments (rows ++ ids ∷ []) x))
unfolding last
finish_suffix entries rows ids suffix x = elim (Bool-cases (x == length rows)) [
  | inl same ↦
      let e : x ≡ length rows = ground (arith, same) in
      let gone : row_segments rows x ≡ [] =
        rw e (get_or_past rows (length rows) [] (omega arith)) in
      let turned : length rows == x ≡ true = ground (arith, e) in
      rw (row_segments-append_one rows ids x, same, gone, turned) (ground arith)
  | inr apart ↦
      let turned : length rows == x ≡ false = ground (arith, apart) in
      rw (row_segments-append_one rows ids x, apart, turned) (ground arith)
]

finish_known :
    (n : ℕ) (rows : List (List ℕ)) (ids : List ℕ) (x id : ℕ)
    → ((other : ℕ) → contains ids other ≡ true → other < n)
    → ((y other : ℕ) → contains (row_segments rows y) other ≡ true → other < n)
    → contains (row_segments (rows ++ ids ∷ []) x) id ≡ true
    → id < n
finish_known n rows ids x id new old c = elim (Bool-cases (x == length rows)) [
  | inl same ↦
      new id (sym (ap (λ l. contains l id) (row_segments-append_one rows ids x ∙ rw same refl)) ∙ c)
  | inr apart ↦
      old x id
        (sym (ap (λ l. contains l id) (row_segments-append_one rows ids x ∙ rw apart refl)) ∙ c)
]

-- The terminal node of row `x` once the row behind the others is there.
finish_terminal :
    (nodes : List SearchIndexNodeRecord) (terminals : List (ℕ × Bool)) (rows : List (List ℕ))
    (node : ℕ) (deleted : Bool) (ids : List ℕ)
    → length terminals ≡ length rows
    → ((x : ℕ) (end : ℕ × Bool)
        → get_elem? terminals x ≡ some end
        → HasTerminal nodes end.0 (row_segments rows x))
    → HasTerminal nodes node ids
    → (x : ℕ) → (end : ℕ × Bool) → get_elem? (terminals ++ (node, deleted) ∷ []) x ≡ some end
    → HasTerminal nodes end.0 (row_segments (rows ++ ids ∷ []) x)
finish_terminal nodes terminals rows node deleted ids counted old new x end found =
    let appended = get_elem?-append_one terminals (node, deleted) x in
    elim (Bool-cases (x == length terminals)) [
      | inl same ↦
          let here : node ≡ end.0 =
            let e : get_elem? (terminals ++ (node, deleted) ∷ []) x ≡ some (node, deleted) =
              appended ∙ rw same refl in
            cc in
          let (r, node_there, line_end) = new in
          let same' : x == length rows ≡ true = ground (arith, same, counted) in
          (
            r,
            rw (← here) node_there,
            ap last (row_segments-append_one rows ids x ∙ rw same' refl) ∙ line_end,
          )
      | inr apart ↦
          let e : get_elem? (terminals ++ (node, deleted) ∷ []) x ≡ get_elem? terminals x =
            appended ∙ rw apart refl in
          let (r, node_there, line_end) = old x end (sym e ∙ found) in
          let apart' : x == length rows ≡ false = ground (arith, apart, counted) in
          (r, node_there, ap last (row_segments-append_one rows ids x ∙ rw apart' refl) ∙ line_end)
    ]

module _ (to_lowercase : Bytes → Bytes) where
  -- Every table keeps what it says, of one row more.
  pub finish_row-IsBuilt :
      (rows : List (List ℕ)) (deleted : Bool) (t later : SearchIndexSerializationTables)
      (end : Option ℕ) (ids : List ℕ) (segments : List Bytes)
      → IsBuilt to_lowercase rows t
      → IsLine to_lowercase t ids segments
      → Ends t end ids
      → finish_row (length rows) deleted (t, end, ids) ≡ ok later
      → IsBuilt to_lowercase (rows ++ ids ∷ []) later
        × (later.segment_entries ≡ t.segment_entries)
        × (map (λ e. e.1) later.terminals ≡ map (λ e. e.1) t.terminals ++ deleted ∷ [])
  unfolding finish_row
  finish_row-IsBuilt rows deleted t later none ids segments built line ends h = cc
  finish_row-IsBuilt rows deleted t later (some node) ids segments built line ends h =
      let known = line_known to_lowercase t ids segments line in
      let postings = t.postings_by_segment in
      let e : record t {
        postings_by_segment = post_row (length rows) (dedup (sort ids)) t.postings_by_segment;
        extension_postings_by_suffix =
            post_extension (length rows) (terminal_suffix t.segment_entries ids)
              t.extension_postings_by_suffix;
        terminals = t.terminals ++ (node, deleted) ∷ [];
      }
          ≡ later =
        cc in
      rw (← e) (
        record {
          sized = length-post_row (length rows) (dedup (sort ids)) postings ∙ built.sized;
          few = built.few;
          counted = ground (
            arith,
            length-append t.terminals ((node, deleted) ∷ []),
            length-append rows (ids ∷ []),
            built.counted,
          );
          known =
              λ x id c. finish_known (length t.segment_entries) rows ids x id known built.known c;
          rows_posted = λ id x.
              finish_postings postings rows ids id x
                (λ other c. omega (arith, known other c, built.sized))
                (λ y other c. omega (arith, built.known y other c, built.sized))
                (λ y. built.rows_posted id y);
          terminal =
              finish_terminal t.path_nodes t.terminals rows node deleted ids built.counted
                built.terminal (ends node refl);
          extended = λ suffix x.
              posted-post_extension (length rows) suffix (terminal_suffix t.segment_entries ids)
                t.extension_postings_by_suffix x
              ∙ ap
                  (λ b.
                    b
                    || (extension_is suffix (terminal_suffix t.segment_entries ids)
                        && (length rows == x)))
                  (built.extended suffix x)
              ∙ finish_suffix t.segment_entries rows ids suffix x;
          trigrams_posted = built.trigrams_posted;
          named = built.named;
        },
        refl,
        map-append (λ e. e.1) t.terminals ((node, deleted) ∷ []),
      )
