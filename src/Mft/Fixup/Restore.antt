-- ===== src/Mft/Fixup/Restore.antt =====
-- Fixups undo the protection that NTFS puts on a record when it writes it.
use teamy_mft.Common.{
  ℕ, zero, suc, ◌+◌, ◌-◌, ◌*◌, ◌%◌, ◌≤◌, ◌<◌, ◌≡◌, refl, ◌∙◌, Bool, true, false, ◌||◌, some, ltb,
  length, get_or, arith, inl, inr, ◌⊎◌,
}
use mathlib.Core.Path.{subst}
use native.Mathlib.Decide.{ℕ_discrete, dec_lt}
use teamy_mft.Common.Bytes.{Bytes}
use teamy_mft.Mft.Fixup.{
  sector, copy_word, same_word, fixup_loop, apply_with, apply_fixup_in_place,
  read_update_sequence_array_fields, applied,
}
use teamy_mft.Mft.Fixup.Sectors.{
  length-copy_word, get_or-copy_word_ne, get_or-copy_word, eq_of_get_or, tail_start,
}

-- The two bytes at `a` are those at `b` of another list.
abbrev pub SameWord : Bytes → ℕ → Bytes → ℕ → Type 0
SameWord xs a ys b = (get_or xs a 0 ≡ get_or ys b 0) × (get_or xs (a + 1) 0 ≡ get_or ys (b + 1) 0)

-- `written` is the record `plain` of `n` sectors as it stands on disk: every sector ends in the
-- update sequence number, and the bytes that stood there are in the update sequence array.
pub record IsProtected (written plain : Bytes) (usa n : ℕ) : Type 0 where
  pub same_length : length written ≡ length plain
  pub sectors_fit : n * 512 ≤ length written
  pub stamped : (i : ℕ) → i < n → SameWord written (tail_start i) written usa
  pub saved : (i : ℕ) → i < n → SameWord written (usa + 2 + i * 2) plain (tail_start i)
  pub inside_sectors : (j : ℕ) → j < n * 512 → j % 512 < 510 → get_or written j 0 ≡ get_or plain j 0
  pub behind_sectors : (j : ℕ) → n * 512 ≤ j → get_or written j 0 ≡ get_or plain j 0

same_word-true : (xs ys : Bytes) (a b : ℕ) → SameWord xs a ys b → same_word xs a ys b ≡ true
same_word-true xs ys a b h = ground arith

-- Up to sector `i` the bytes are the plain record's, and from there on those on disk.
module _ (written plain : Bytes) (usa n : ℕ) (prot : IsProtected written plain usa n) where
  abbrev Halfway : ℕ → Bytes → Type 0
  Halfway i entry =
      (length entry ≡ length written)
      × ((j : ℕ) → j < i * 512 → get_or entry j 0 ≡ get_or plain j 0)
      × ((j : ℕ) → i * 512 ≤ j → get_or entry j 0 ≡ get_or written j 0)

  Halfway-before :
      (i j : ℕ) (entry : Bytes)
      → i < n
      → Halfway i entry
      → j < (i + 1) * 512
      → get_or (copy_word entry (tail_start i) written (usa + 2 + i * 2)) j 0 ≡ get_or plain j 0
  Halfway-before i j entry h (size, before, behind) k =
      let room : tail_start i + 1 < length entry = omega (arith, prot.sectors_fit, size) in
      let copied = get_or-copy_word entry (tail_start i) written (usa + 2 + i * 2) room in
      let saved = prot.saved i h in
      elim (ℕ_discrete j (tail_start i)) [
        | yes e ↦ rw e (copied.0 ∙ saved.0)
        | no ne ↦ elim (ℕ_discrete j (tail_start i + 1)) [
          | yes e ↦ rw e (copied.1 ∙ saved.1)
          | no ne' ↦
              get_or-copy_word_ne entry (tail_start i) written (usa + 2 + i * 2) j ne ne'
              ∙ elim (dec_lt j (i * 512)) [
                | yes early ↦ before j early
                | no late ↦
                    behind j (omega arith) ∙ prot.inside_sectors j (omega arith) (omega arith)
              ]
        ]
      ]

  Halfway-step :
      (i : ℕ) (entry : Bytes)
      → i < n
      → Halfway i entry
      → Halfway (i + 1) (copy_word entry (tail_start i) written (usa + 2 + i * 2))
  Halfway-step i entry h (size, before, behind) = (
    length-copy_word entry (tail_start i) written (usa + 2 + i * 2) ∙ size,
    λ j k. Halfway-before i j entry h (size, before, behind) k,
    λ j k.
        get_or-copy_word_ne entry (tail_start i) written (usa + 2 + i * 2) j (omega arith)
          (omega arith)
        ∙ behind j (omega arith),
  )

  Halfway-end : (entry : Bytes) → Halfway n entry → entry ≡ plain
  Halfway-end entry (size, before, behind) =
      eq_of_get_or entry plain (size ∙ prot.same_length) (λ j. elim (dec_lt j (n * 512)) [
        | yes early ↦ before j early
        | no late ↦ behind j (omega arith) ∙ prot.behind_sectors j (omega arith)
      ])

  fixup_loop-restores :
      (sectors i : ℕ) (entry : Bytes) (any_applied : Bool)
      → i + sectors ≡ n
      → (any_applied ≡ true) ⊎ (0 < sectors)
      → Halfway i entry
      → fixup_loop sectors i written usa entry any_applied ≡ (applied, plain)
  unfolding fixup_loop
  fixup_loop-restores zero i entry any_applied e some_left h =
      let at_end : i ≡ n = omega arith in
      let whole = Halfway-end entry (subst (λ k. Halfway k entry) at_end h) in ground (arith, whole)
  fixup_loop-restores (suc sectors) i entry any_applied e some_left h =
      let inside : i < n = omega arith in
      let (size, before, behind) = h in
      let stamp = prot.stamped i inside in
      let fits : (ltb (length entry) ((i + 1) * sector) || ltb ((i + 1) * sector) 2) ≡ false =
        ground (arith, prot.sectors_fit, size) in
      let torn : same_word entry (tail_start i) written usa ≡ true =
        same_word-true entry written (tail_start i) usa (
          behind (tail_start i) (omega arith) ∙ stamp.0,
          behind (tail_start i + 1) (omega arith) ∙ stamp.1,
        ) in
      rw (fits, torn)
        (fixup_loop-restores sectors (i + 1) _ true (omega arith) (inl refl)
          (Halfway-step i entry inside h))

-- Applying fixups to a record as it stands on disk gives back the record that was written,
-- provided that its header says where the update sequence array is, that the array is inside the
-- record, and that there is a sector.
pub apply_fixup-restores :
    (written plain : Bytes) (usa n : ℕ)
    → IsProtected written plain usa n
    → read_update_sequence_array_fields written ≡ some (usa, n + 1)
    → 0 < n
    → usa + (n + 1) * 2 ≤ length written
    → apply_fixup_in_place written ≡ (applied, plain)
unfolding apply_fixup_in_place apply_with
apply_fixup-restores written plain usa n prot fields some_sector fits =
    let enough : ltb (n + 1) 2 ≡ false = ground arith in
    let room : ltb (length written) (usa + (n + 1) * 2) ≡ false = ground arith in
    let count : n + 1 - 1 ≡ n = omega arith in
    rw (fields, enough, room, count)
      (fixup_loop-restores written plain usa n prot n 0 written false (omega arith)
        (inr some_sector) (refl, λ j h. absurd (omega arith), λ j h. refl))
