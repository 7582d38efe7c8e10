-- ===== src/Index/Build/Tables.antt =====
-- What the posting tables hold after an entry is added to them.
use teamy_mft.Common.{
  ℕ, ◌<◌, ◌≡◌, refl, ap, ◌∙◌, Bool, ◌&&◌, ◌||◌, List, [], ◌∷◌, ◌++◌, ◌==◌, length, get_or, set,
  arith, inl, inr, Bool-cases, length-set, get_or-set_self, get_or-set_ne, map,
}
use teamy_mft.Common.Bytes.{Bytes}
use teamy_mft.Common.Dict.{Dict, string_eq, get, get-entry, text_eq, text_eq_iff}
use teamy_mft.Common.Sorted.{
  contains, contains-append, sort, dedup, contains-sort, contains-dedup, IsSorted, sort-IsOrdered,
  dedup-IsSorted,
}
use teamy_mft.Query.Needle.{any}
use teamy_mft.Query.Lookup.{option_rows}
use teamy_mft.Index.Build.{push_posting, push_trigrams, post_row, sorted_rows}

abbrev pub posted : Bytes → Dict Bytes (List ℕ) → ℕ → Bool
posted key postings number = contains (option_rows (get key postings)) number

pub posted-push_posting :
    (key other : Bytes) (number x : ℕ) (postings : Dict Bytes (List ℕ))
    → posted other (push_posting key number postings) x
      ≡ (posted other postings x || (text_eq key other && (number == x)))
unfolding push_posting
posted-push_posting key other number x postings =
    rw (get-entry key other (λ old. option_rows old ++ number ∷ []) postings)
      (elim (Bool-cases (text_eq key other)) [
        | inl same ↦
            let e : key ≡ other = (text_eq_iff key other).0 same in
            rw (same, e)
              (ground (arith, contains-append (option_rows (get other postings)) (number ∷ []) x))
        | inr apart ↦ rw apart (ground arith)
      ])

pub posted-push_trigrams :
    (id : ℕ) (trigrams : List Bytes) (postings : Dict Bytes (List ℕ)) (other : Bytes) (x : ℕ)
    → posted other (push_trigrams id trigrams postings) x
      ≡ (posted other postings x || (any (λ t. text_eq t other) trigrams && (id == x)))
unfolding push_trigrams any
posted-push_trigrams id [] postings other x = ground arith
posted-push_trigrams id (trigram ∷ trigrams) postings other x = ground (
  arith,
  posted-push_trigrams id trigrams (push_posting trigram id postings) other x,
  posted-push_posting trigram other id x postings,
)

pub length-post_row :
    (x : ℕ) (ids : List ℕ) (postings : List (List ℕ))
    → length (post_row x ids postings) ≡ length postings
unfolding post_row
length-post_row x [] postings = refl
length-post_row x (id ∷ ids) postings =
    length-post_row x ids (set postings id (get_or postings id [] ++ x ∷ []))
    ∙ length-set postings id (get_or postings id [] ++ x ∷ [])

-- Row `x` is added to the postings of its segments, and to no others.
pub contains-post_row :
    (x : ℕ) (ids : List ℕ) (postings : List (List ℕ)) (id y : ℕ)
    → id < length postings
    → contains (get_or (post_row x ids postings) id []) y
      ≡ (contains (get_or postings id []) y || (contains ids id && (x == y)))
unfolding post_row
contains-post_row x [] postings id y known = ground arith
contains-post_row x (first ∷ ids) postings id y known =
    let longer = get_or postings first [] ++ x ∷ [] in
    let rest =
      contains-post_row x ids (set postings first longer) id y
        (omega (arith, length-set postings first longer)) in
    elim (Bool-cases (first == id)) [
      | inl same ↦
          let e : first ≡ id = ground arith in
          let now : get_or (set postings first longer) id [] ≡ longer =
            rw (← e) (get_or-set_self postings first longer [] (omega arith)) in
          let now' : contains (get_or (set postings first longer) id []) y
              ≡ (contains (get_or postings id []) y || (x == y)) =
            rw (now, e) (ground (arith, contains-append (get_or postings id []) (x ∷ []) y)) in
          ground (arith, rest, now', same)
      | inr apart ↦
          let now : get_or (set postings first longer) id [] ≡ get_or postings id [] =
            get_or-set_ne postings first id longer [] (ground (arith, apart)) in
          let now' = ap (λ l. contains l y) now in ground (arith, rest, now', apart)
    ]

-- The postings are sorted at the end.
get-sorted_rows :
    (key : Bytes) (postings : Dict Bytes (List ℕ))
    → option_rows (get key (map sorted_rows postings))
      ≡ dedup (sort (option_rows (get key postings)))
unfolding get sort dedup
get-sorted_rows key [] = refl
get-sorted_rows key ((other, rows) ∷ postings) = elim (Bool-cases (text_eq other key)) [
  | inl same ↦ rw same refl
  | inr apart ↦ rw apart (get-sorted_rows key postings)
]

pub posted-sorted_rows :
    (key : Bytes) (postings : Dict Bytes (List ℕ)) (x : ℕ)
    → posted key (map sorted_rows postings) x ≡ posted key postings x
posted-sorted_rows key postings x = rw (get-sorted_rows key postings) (
    contains-dedup (sort (option_rows (get key postings))) x
    ∙ contains-sort (option_rows (get key postings)) x)

pub sorted_rows-IsSorted :
    (key : Bytes) (postings : Dict Bytes (List ℕ))
    → IsSorted (option_rows (get key (map sorted_rows postings)))
sorted_rows-IsSorted key postings = rw (get-sorted_rows key postings) (
    dedup-IsSorted (sort (option_rows (get key postings)))
      (sort-IsOrdered (option_rows (get key postings))))
