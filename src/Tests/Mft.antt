-- ===== src/Tests/Mft.antt =====
-- src/mft: a record of one sector on disk, and a buffer of it.
use teamy_mft.Common.{
  ℕ, ◌≡◌, ◌<◌, ◌+◌, ◌%◌, refl, List, [], ◌∷◌, ◌++◌, length, get_or, map, arith, replicate, zero,
  suc, some, ◌*◌,
}
use teamy_mft.Common.Bytes.{Bytes}
use teamy_mft.Mft.Fixup.{
  FixupState, applied, no_stats, copy_word, apply_fixup_in_place, read_update_sequence_array_fields,
}
use teamy_mft.Mft.Fixup.Sectors.{
  apply_fixup-keeps, get_or-copy_word_ne, length-copy_word, tail_start,
}
use teamy_mft.Mft.Fixup.Restore.{IsProtected, SameWord, apply_fixup-restores}
use teamy_mft.Mft.Fixup.Buffer.{
  Split, states_of, run, fold_states, entry_chunks, apply_fixups_parallel,
  apply_fixups_parallel_lem, total,
}

-- A record of one sector, whose array of two words stands at 8: the sequence number 1, 0 and the
-- bytes 7, 9 that the sector ended in.
abbrev head_bytes : Bytes
head_bytes = 70 ∷ 73 ∷ 76 ∷ 69 ∷ 8 ∷ 0 ∷ 2 ∷ 0 ∷ 1 ∷ 0 ∷ 7 ∷ 9 ∷ []

abbrev plain : Bytes
plain = head_bytes ++ (replicate 498 0 ++ 7 ∷ 9 ∷ [])

abbrev written : Bytes
written = copy_word plain 510 (1 ∷ 0 ∷ []) 0

written-stamped : (i : ℕ) → i < 1 → SameWord written (tail_start i) written 8
written-stamped zero h = (refl, refl)
written-stamped (suc i) h = absurd (omega arith)

written-saved : (i : ℕ) → i < 1 → SameWord written (10 + i * 2) plain (tail_start i)
written-saved zero h = (refl, refl)
written-saved (suc i) h = absurd (omega arith)

written-IsProtected : IsProtected written plain 8 1
written-IsProtected = record {
  same_length = length-copy_word plain 510 (1 ∷ 0 ∷ []) 0;
  sectors_fit = omega arith;
  stamped = written-stamped;
  saved = written-saved;
  inside_sectors =
      λ j h k. get_or-copy_word_ne plain 510 (1 ∷ 0 ∷ []) 0 j (omega arith) (omega arith);
  behind_sectors =
      λ j h. get_or-copy_word_ne plain 510 (1 ∷ 0 ∷ []) 0 j (omega arith) (omega arith);
}

written-fields : read_update_sequence_array_fields written ≡ some (8, 2)
unfolding read_update_sequence_array_fields
written-fields = refl

apply_fixup-restores_example : apply_fixup_in_place written ≡ (applied, plain)
apply_fixup-restores_example =
    apply_fixup-restores written plain 8 1 written-IsProtected written-fields (omega arith)
      (omega arith)

apply_fixup-keeps_example :
    (length (apply_fixup_in_place written).1 ≡ length written)
    × ((j : ℕ) → j % 512 < 510 → get_or (apply_fixup_in_place written).1 j 0 ≡ get_or written j 0)
apply_fixup-keeps_example = apply_fixup-keeps written

-- One worker that folds everything.
abbrev one_run : List FixupState → Split
one_run states = run states

apply_fixups_parallel_lem_example :
    ((apply_fixups_parallel one_run written 512).0
      ≡ fold_states no_stats
          (map (λ f. f.0) (map apply_fixup_in_place (entry_chunks 1 512 written))))
    × (total (apply_fixups_parallel one_run written 512).0 ≡ 1)
    × (length (apply_fixups_parallel one_run written 512).1 ≡ 512)
apply_fixups_parallel_lem_example =
    apply_fixups_parallel_lem one_run written 512 (λ states. unfold states_of in refl) (omega arith)
      refl
