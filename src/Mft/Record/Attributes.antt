-- ===== src/Mft/Record/Attributes.antt =====
-- The attributes of a record tile a part of it.
use teamy_mft.Common.{
  ℕ, zero, suc, ◌+◌, ◌-◌, ◌≤◌, ◌<◌, ◌≡◌, refl, sym, ap, ◌∙◌, Option, none, some, List, [], ◌∷◌,
  ◌++◌, length, take, drop, arith, inl, inr, Bool-cases, ltb, length-take, All,
}
use teamy_mft.Common.Bytes.{Bytes, u32_le}
use teamy_mft.Mft.Record.{
  MftRecord, MftRecordAttribute, MftRecordAttributeIter, new_attribute, attribute_of, slice, next,
  collect_attribute, attributes_from, attributes, get_first_attribute_offset, get_used_size,
  iter_attributes,
}

-- The bytes of the attributes, one behind the other.
abbrev pub flat : List MftRecordAttribute → Bytes
flat [] = []
flat (a ∷ more) = a.mft_record_attribute_data ++ flat more

-- Long enough for the fields that every attribute has.
abbrev pub IsWhole : MftRecordAttribute → Type 0
IsWhole a = 16 ≤ length a.mft_record_attribute_data

attribute_of-some :
    (raw : Bytes) (a : MftRecordAttribute)
    → attribute_of raw ≡ some a
    → (a.mft_record_attribute_data ≡ raw) × (16 ≤ length raw)
unfolding attribute_of new_attribute
attribute_of-some raw a h = elim (Bool-cases (ltb (length raw) 16)) [
  | inl short ↦ ground (arith, h, short)
  | inr long ↦ ground (arith, h, long)
]

length-slice_le : (bytes : Bytes) (start end : ℕ) → length (slice bytes start end) ≤ end - start
length-slice_le bytes start end = omega (arith, length-take (end - start) (drop start bytes))

-- An item is the slice up to the new position, which is inside the used part.
next-some :
    (it : MftRecordAttributeIter) (a : MftRecordAttribute)
    → (next it).0 ≡ some a
    → (a.mft_record_attribute_data ≡ slice it.mft_record.bytes it.position (next it).1.position)
      × (16 ≤ length a.mft_record_attribute_data)
      × (it.position + 16 ≤ (next it).1.position)
      × ((next it).1.position ≤ it.mft_record_used_size)
      × ((next it).1.mft_record ≡ it.mft_record)
      × ((next it).1.mft_record_used_size ≡ it.mft_record_used_size)
unfolding next
next-some it a h =
    let end = it.position + u32_le it.mft_record.bytes (it.position + 4) in
    ground (
      arith,
      attribute_of-some (slice it.mft_record.bytes it.position end) a,
      length-slice_le it.mft_record.bytes it.position end,
    )

drop_nil : (n : ℕ) → drop {A = ℕ} n [] ≡ []
drop_nil zero = refl
drop_nil (suc n) = refl

take_nil : (n : ℕ) → take {A = ℕ} n [] ≡ []
take_nil zero = refl
take_nil (suc n) = refl

drop-drop : (m n : ℕ) (xs : Bytes) → drop n (drop m xs) ≡ drop (m + n) xs
drop-drop zero n xs = ap (λ t. drop t xs) (omega arith)
drop-drop (suc m) n [] = drop_nil n ∙ sym (drop_nil (suc m + n))
drop-drop (suc m) n (x ∷ xs) =
    let e : suc m + n ≡ suc (m + n) = omega arith in rw e (drop-drop m n xs)

take-append-take : (m n : ℕ) (xs : Bytes) → take m xs ++ take n (drop m xs) ≡ take (m + n) xs
take-append-take zero n xs = ap (λ t. take t xs) (omega arith)
take-append-take (suc m) n [] = take_nil n ∙ sym (take_nil (suc m + n))
take-append-take (suc m) n (x ∷ xs) =
    let e : suc m + n ≡ suc (m + n) = omega arith in
    rw e (ap (λ t. x ∷ t) (take-append-take m n xs))

slice-append-slice :
    (bytes : Bytes) (start middle end : ℕ)
    → start ≤ middle
    → middle ≤ end
    → slice bytes start middle ++ slice bytes middle end ≡ slice bytes start end
slice-append-slice bytes start middle end h k =
    let from : middle ≡ start + (middle - start) = omega arith in
    let sum : middle - start + (end - middle) ≡ end - start = omega arith in
    let behind : drop middle bytes ≡ drop (middle - start) (drop start bytes) =
      ap (λ t. drop t bytes) from ∙ sym (drop-drop start (middle - start) bytes) in
    ap (λ t. slice bytes start middle ++ take (end - middle) t) behind
    ∙ take-append-take (middle - start) (end - middle) (drop start bytes)
    ∙ ap (λ t. take t (drop start bytes)) sum

-- The attributes are whole, and are the bytes of the record from `start` to some place before
-- `used_size`.
abbrev pub Tiles : Bytes → ℕ → ℕ → List MftRecordAttribute → Type 0
Tiles bytes start used_size attrs =
    All IsWhole attrs
    × ((end : ℕ) × (start ≤ end) × (end ≤ used_size) × (flat attrs ≡ slice bytes start end))

collect_attribute-Tiles :
    (bytes : Bytes) (start used_size : ℕ) (item : Option MftRecordAttribute)
    (rest : Option (List MftRecordAttribute))
    → start ≤ used_size
    → ((a : MftRecordAttribute)
        → item ≡ some a
        → (attrs : List MftRecordAttribute) × (rest ≡ some attrs)
          × Tiles bytes start used_size (a ∷ attrs))
    → (attrs : List MftRecordAttribute) × (collect_attribute item rest ≡ some attrs)
      × Tiles bytes start used_size attrs
unfolding collect_attribute
collect_attribute-Tiles bytes start used_size none rest below h =
    let nothing : start - start ≡ 0 = omega arith in
    ([], refl, (tt, (start, omega arith, below, rw nothing refl)))
collect_attribute-Tiles bytes start used_size (some a) rest below h =
    let (attrs, e, tiles) = h a refl in (a ∷ attrs, rw e refl, tiles)

flat-cons :
    (it : MftRecordAttributeIter) (a : MftRecordAttribute) (attrs : List MftRecordAttribute)
    (end middle : ℕ) (bytes : Bytes)
    → a.mft_record_attribute_data ≡ slice it.mft_record.bytes it.position middle
    → bytes ≡ it.mft_record.bytes
    → flat attrs ≡ slice bytes middle end
    → it.position ≤ middle
    → middle ≤ end
    → flat (a ∷ attrs) ≡ slice it.mft_record.bytes it.position end
flat-cons it a attrs end middle bytes raw same tiled h k =
    rw (raw, tiled, same) (slice-append-slice it.mft_record.bytes it.position middle end h k)

attributes_from-Tiles :
    (fuel : ℕ) (it : MftRecordAttributeIter)
    → it.position ≤ it.mft_record_used_size
    → it.mft_record_used_size < fuel + it.position
    → (attrs : List MftRecordAttribute) × (attributes_from fuel it ≡ some attrs)
      × Tiles it.mft_record.bytes it.position it.mft_record_used_size attrs
unfolding attributes_from
attributes_from-Tiles zero it below enough = absurd (omega arith)
attributes_from-Tiles (suc fuel) it below enough =
    collect_attribute-Tiles it.mft_record.bytes it.position it.mft_record_used_size (next it).0
      (attributes_from fuel (next it).1) below
      (λ a h.
        let (raw, whole, on, inside, same, same_size) = next-some it a h in
        let (attrs, e, (all_whole, (end, after, before, tiled))) =
          attributes_from-Tiles fuel (next it).1 (omega arith) (omega arith) in
        (
          attrs,
          e,
          (
            (whole, all_whole),
            (
              end,
              omega arith,
              omega arith,
              flat-cons it a attrs end (next it).1.position (next it).1.mft_record.bytes raw
                  (ap (λ r. r.bytes) same) tiled (omega arith) after,
            ),
          ),
        ))

-- Iterating over a record's attributes ends. The attributes are whole, and one behind the other
-- they are the bytes of the record from the first attribute's offset to some place inside the
-- used size, provided that the offset is not behind the used size, nor that behind the record.
pub attributes-Tiles :
    (r : MftRecord)
    → get_first_attribute_offset r ≤ get_used_size r
    → get_used_size r ≤ length r.bytes
    → (attrs : List MftRecordAttribute) × (attributes r ≡ some attrs)
      × Tiles r.bytes (get_first_attribute_offset r) (get_used_size r) attrs
unfolding attributes
attributes-Tiles r below inside =
    attributes_from-Tiles (suc (get_used_size r)) (iter_attributes r) below (omega arith)
