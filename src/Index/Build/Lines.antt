-- ===== src/Index/Build/Lines.antt =====
-- The segments of a path as the tables hold them after the loop over the path.
use teamy_mft.Common.{
  ℕ, ◌^◌, ◌<◌, ◌≡◌, refl, sym, ◌∙◌, true, Option, some, List, [], ◌∷◌, ◌++◌, ◌==◌, ltb, length,
  get_elem?, arith, inl, inr, Bool-cases, Option-cases, map, append-nil, append_assoc,
}
use teamy_mft.Common.Bytes.{Bytes}
use teamy_mft.Common.Dict.{string_eq, get}
use teamy_mft.Common.Result.{Result, ok, err, ◌>>=◌}
use teamy_mft.Query.Group.{last}
use teamy_mft.Query.Lookup.{u32_try_from}
use teamy_mft.Index.{SearchIndexNodeRecord, IndexError}
use teamy_mft.Index.Build.{
  SearchIndexSerializationTables, add_segment, add_segments, node_reference, with_segment,
  with_node,
}
use teamy_mft.Index.Build.Segments.{
  HasTerminal, IsBuilt, with_segment-IsBuilt, with_node-IsBuilt, get_elem?-append_one,
  get_elem?-append_some,
}

pub bind_ok :
    {A B : Type 0} (r : Result IndexError A) (f : A → Result IndexError B) (b : B)
    → (r >>= f) ≡ ok b
    → (a : A) × (r ≡ ok a) × (f a ≡ ok b)
bind_ok (err e) f b h = cc
bind_ok (ok a) f b h = (a, refl, h)

pub u32_try_from_ok : (n m : ℕ) → u32_try_from n ≡ ok m → (n ≡ m) × (n < 2 ^ 32)
u32_try_from_ok n m h = elim (Bool-cases (ltb n (2 ^ 32))) [
  | inl small ↦ let e : ok n ≡ ok m = rw small at h in (cc, ground (arith, small))
  | inr large ↦ let e : err IndexError.too_many ≡ ok m = rw large at h in cc
]

last-append_one : (ids : List ℕ) (id : ℕ) → last (ids ++ id ∷ []) ≡ some id
unfolding last
last-append_one [] id = refl
last-append_one (x ∷ []) id = refl
last-append_one (x ∷ y ∷ ids) id = last-append_one (y ∷ ids) id

-- The entries are there still.
abbrev pub Extends : SearchIndexSerializationTables → SearchIndexSerializationTables → Type 0
Extends t later =
    (i : ℕ) (e : Bytes × Bytes)
    → get_elem? t.segment_entries i ≡ some e
    → get_elem? later.segment_entries i ≡ some e

-- The last node is that of the last segment.
abbrev pub Ends : SearchIndexSerializationTables → Option ℕ → List ℕ → Type 0
Ends t parent ids = (node : ℕ) → parent ≡ some node → HasTerminal t.path_nodes node ids

module _ (to_lowercase : Bytes → Bytes) where
  -- The segments are the entries of the numbers.
  abbrev pub IsLine : SearchIndexSerializationTables → List ℕ → List Bytes → Type 0
  IsLine t ids segments =
      map (get_elem? t.segment_entries) ids ≡ map (λ s. some (s, to_lowercase s)) segments

  pub IsLine-Extends :
      (t later : SearchIndexSerializationTables) (ids : List ℕ) (segments : List Bytes)
      → Extends t later
      → IsLine t ids segments
      → IsLine later ids segments
  IsLine-Extends t later [] [] more h = refl
  IsLine-Extends t later [] (s ∷ segments) more h = cc
  IsLine-Extends t later (id ∷ ids) [] more h = cc
  IsLine-Extends t later (id ∷ ids) (s ∷ segments) more h =
      let first : get_elem? t.segment_entries id ≡ some (s, to_lowercase s) = cc in
      let rest = IsLine-Extends t later ids segments more (cc) in
      let first' = more id (s, to_lowercase s) first in cc

  IsLine-append_one :
      (t : SearchIndexSerializationTables) (ids : List ℕ) (segments : List Bytes) (id : ℕ)
      (s : Bytes)
      → IsLine t ids segments
      → get_elem? t.segment_entries id ≡ some (s, to_lowercase s)
      → IsLine t (ids ++ id ∷ []) (segments ++ s ∷ [])
  IsLine-append_one t [] [] id s h new = cc
  IsLine-append_one t [] (x ∷ segments) id s h new = cc
  IsLine-append_one t (i ∷ ids) [] id s h new = cc
  IsLine-append_one t (i ∷ ids) (x ∷ segments) id s h new =
      let rest = IsLine-append_one t ids segments id s (cc) new in cc

  add_segment_lem :
      (rows : List (List ℕ)) (segment : Bytes) (t later : SearchIndexSerializationTables) (id : ℕ)
      → IsBuilt to_lowercase rows t
      → add_segment to_lowercase segment (get segment t.segment_ids_by_display) t ≡ ok (later, id)
      → IsBuilt to_lowercase rows later
        × Extends t later
        × (get_elem? later.segment_entries id ≡ some (segment, to_lowercase segment))
        × (later.terminals ≡ t.terminals)
  unfolding add_segment
  add_segment_lem rows segment t later id built h =
      elim (Option-cases (get segment t.segment_ids_by_display)) [
        | inr (old, e) ↦
            let same = rw e at h in
            let et : t ≡ later = cc in
            let ei : old ≡ id = cc in
            rw (← et, ← ei) (built, λ i e' g. g, built.named segment old e, refl)
        | inl gone ↦
            let new = rw gone at h in
            let (number, fits, done) =
              bind_ok (u32_try_from (length t.segment_entries))
                (λ n. ok (with_segment to_lowercase segment n t, n)) (later, id) new in
            let (en, small) = u32_try_from_ok (length t.segment_entries) number fits in
            let et : with_segment to_lowercase segment (length t.segment_entries) t ≡ later =
              rw en (cc) in
            let ei : length t.segment_entries ≡ id = cc in
            let here : length t.segment_entries == length t.segment_entries ≡ true = ground arith in
            rw (← et, ← ei)
              (
                with_segment-IsBuilt to_lowercase rows segment t small built,
                λ i e g.
                    get_elem?-append_some t.segment_entries (segment, to_lowercase segment) e i g,
                get_elem?-append_one t.segment_entries (segment, to_lowercase segment)
                      (length t.segment_entries)
                    ∙ rw here refl,
                refl,
              )
      ]

  pub add_segments_lem :
      (rows : List (List ℕ)) (segments past : List Bytes) (t later : SearchIndexSerializationTables)
      (parent end : Option ℕ) (ids line : List ℕ)
      → IsBuilt to_lowercase rows t
      → IsLine t ids past
      → Ends t parent ids
      → add_segments to_lowercase segments t parent ids ≡ ok (later, end, line)
      → IsBuilt to_lowercase rows later
        × Extends t later
        × IsLine later line (past ++ segments)
        × Ends later end line
        × (later.terminals ≡ t.terminals)
  unfolding add_segments
  add_segments_lem rows [] past t later parent end ids line built known ends h =
      let et : t ≡ later = cc in
      let ep : parent ≡ end = cc in
      let ei : ids ≡ line = cc in
      rw (← et, ← ep, ← ei, append-nil past) (built, λ i e g. g, known, ends, refl)
  add_segments_lem rows (segment ∷ segments) past t later parent end ids line built known ends h =
      let (r, added, h1) =
        bind_ok (add_segment to_lowercase segment (get segment t.segment_ids_by_display) t)
          (λ r. u32_try_from (length r.0.path_nodes) >>= λ node_index.
            add_segments to_lowercase segments (with_node to_lowercase r.1 parent r.0)
              (node_reference node_index) (ids ++ r.1 ∷ []))
          (later, end, line) h in
      let (node_index, fits, h2) =
        bind_ok (u32_try_from (length r.0.path_nodes))
          (λ node_index.
            add_segments to_lowercase segments (with_node to_lowercase r.1 parent r.0)
              (node_reference node_index) (ids ++ r.1 ∷ []))
          (later, end, line) h1 in
      let (now, more, new, same_ends) = add_segment_lem rows segment t r.0 r.1 built added in
      let next = with_node to_lowercase r.1 parent r.0 in
      let (en, small) = u32_try_from_ok (length r.0.path_nodes) node_index fits in
      let (done, more', line', ends', same_ends') =
        add_segments_lem rows segments (past ++ segment ∷ []) next later (node_reference node_index)
          end (ids ++ r.1 ∷ []) line (with_node-IsBuilt to_lowercase rows r.1 parent r.0 now)
          (IsLine-append_one r.0 ids past r.1 segment (IsLine-Extends t r.0 ids past more known)
            new)
          (λ node e. node_ends r.0 r.1 parent ids node_index node (sym en) e) h2 in
      (
        done,
        λ i e g. more' i e (more i e g),
        rw (append_assoc past (segment ∷ []) segments) at line',
        ends',
        same_ends' ∙ same_ends,
      )
    where
      node_ends :
          (t : SearchIndexSerializationTables) (id : ℕ) (parent : Option ℕ) (ids : List ℕ)
          (node_index node : ℕ)
          → node_index ≡ length t.path_nodes
          → node_reference node_index ≡ some node
          → (r : SearchIndexNodeRecord) × (get_elem?
                (with_node to_lowercase id parent t).path_nodes
                node
              ≡ some r)
            × (last (ids ++ id ∷ []) ≡ some r.segment_id)
      node_ends t id parent ids node_index node en e =
          let new : SearchIndexNodeRecord = record {
            segment_id = id;
            parent_node_index = parent;
          } in
          let same : node_index ≡ node = ground (arith, e) in
          let here : node == length t.path_nodes ≡ true = ground (arith, en, same) in
          (new, get_elem?-append_one t.path_nodes new node ∙ rw here refl, last-append_one ids id)
