-- ===== src/Mft/Fixup/Sectors.antt =====
-- One sector of an entry: what the copy of a word changes.
use teamy_mft.Common.{
  ℕ, zero, suc, ◌+◌, ◌-◌, ◌*◌, ◌%◌, ◌<◌, ◌≡◌, ◌≢◌, refl, sym, ◌∙◌, Bool, true, false, Option, none,
  some, [], ◌∷◌, length, get_or, set, length-set, get_or-set_self, get_or-set_ne, arith,
}
use teamy_mft.Common.Bytes.{Bytes}
use teamy_mft.Mft.Fixup.{
  sector, copy_word, fixup_loop, apply_with, apply_fixup_in_place,
  read_update_sequence_array_fields,
}

pub length-copy_word :
    (xs : Bytes) (a : ℕ) (ys : Bytes) (b : ℕ) → length (copy_word xs a ys b) ≡ length xs
length-copy_word xs a ys b = omega (
  arith,
  length-set (set xs a (get_or ys b 0)) (a + 1) (get_or ys (b + 1) 0),
  length-set xs a (get_or ys b 0),
)

pub get_or-copy_word_ne :
    (xs : Bytes) (a : ℕ) (ys : Bytes) (b j : ℕ)
    → j ≢ a
    → j ≢ a + 1
    → get_or (copy_word xs a ys b) j 0 ≡ get_or xs j 0
get_or-copy_word_ne xs a ys b j h k =
    get_or-set_ne (set xs a (get_or ys b 0)) (a + 1) j _ 0 (λ e. k (sym e))
    ∙ get_or-set_ne xs a j _ 0 (λ e. h (sym e))

pub get_or-copy_word :
    (xs : Bytes) (a : ℕ) (ys : Bytes) (b : ℕ)
    → a + 1 < length xs
    → (get_or (copy_word xs a ys b) a 0 ≡ get_or ys b 0)
      × (get_or (copy_word xs a ys b) (a + 1) 0 ≡ get_or ys (b + 1) 0)
get_or-copy_word xs a ys b h = (
  get_or-set_ne (set xs a (get_or ys b 0)) (a + 1) a _ 0 (omega arith)
      ∙ get_or-set_self xs a _ 0 (omega arith),
  get_or-set_self (set xs a (get_or ys b 0)) (a + 1) _ 0
      (omega (arith, length-set xs a (get_or ys b 0))),
)

-- Two lists of one length with the same bytes are the same.
pub eq_of_get_or :
    (xs ys : Bytes) → length xs ≡ length ys → ((j : ℕ) → get_or xs j 0 ≡ get_or ys j 0) → xs ≡ ys
eq_of_get_or [] [] e h = refl
eq_of_get_or [] (y ∷ ys) e h = absurd (omega arith)
eq_of_get_or (x ∷ xs) [] e h = absurd (omega arith)
eq_of_get_or (x ∷ xs) (y ∷ ys) e h = cc (h 0, eq_of_get_or xs ys (omega arith) (λ j. h (suc j)))

-- The last two bytes of sector `i` are no others.
abbrev pub tail_start : ℕ → ℕ
tail_start i = (i + 1) * sector - 2

tail_ne : (i j : ℕ) → j % 512 < 510 → (j ≢ (i + 1) * 512 - 2) × (j ≢ (i + 1) * 512 - 2 + 1)
tail_ne i j h = omega arith

-- Whatever the loop answers, it writes the last two bytes of sectors only.
fixup_loop-keeps :
    (sectors i : ℕ) (source : Bytes) (usa : ℕ) (entry : Bytes) (any_applied : Bool)
    → (length (fixup_loop sectors i source usa entry any_applied).1 ≡ length entry)
      × ((j : ℕ)
          → j % 512 < 510
          → get_or (fixup_loop sectors i source usa entry any_applied).1 j 0 ≡ get_or entry j 0)
unfolding fixup_loop
fixup_loop-keeps zero i source usa entry any_applied = (refl, λ j h. refl)
fixup_loop-keeps (suc sectors) i source usa entry any_applied =
    let original = usa + 2 + i * 2 in
    let fixed =
      fixup_loop-keeps sectors (i + 1) source usa (copy_word entry (tail_start i) source original)
        true in
    let same = fixup_loop-keeps sectors (i + 1) source usa entry any_applied in
    let size = length-copy_word entry (tail_start i) source original in
    (
      ground (arith, fixed.0, same.0, size),
      λ j h.
          let kept =
            get_or-copy_word_ne entry (tail_start i) source original j (tail_ne i j h).0
              (tail_ne i j h).1 in
          ground (arith, fixed.1 j h, same.1 j h, kept),
    )

apply_with-keeps :
    (entry : Bytes) (fields : Option (ℕ × ℕ))
    → (length (apply_with fields entry).1 ≡ length entry)
      × ((j : ℕ) → j % 512 < 510 → get_or (apply_with fields entry).1 j 0 ≡ get_or entry j 0)
unfolding apply_with
apply_with-keeps entry none = (refl, λ j h. refl)
apply_with-keeps entry (some (usa, size)) =
    let loop = fixup_loop-keeps (size - 1) 0 entry usa entry false in
    (ground (arith, loop.0), λ j h. ground (arith, loop.1 j h))

-- Applying fixups keeps an entry's length and every byte that is not among the last two of a
-- sector, on every branch, the invalid ones included.
pub apply_fixup-keeps :
    (entry : Bytes)
    → (length (apply_fixup_in_place entry).1 ≡ length entry)
      × ((j : ℕ) → j % 512 < 510 → get_or (apply_fixup_in_place entry).1 j 0 ≡ get_or entry j 0)
unfolding apply_fixup_in_place
apply_fixup-keeps entry = apply_with-keeps entry (read_update_sequence_array_fields entry)
