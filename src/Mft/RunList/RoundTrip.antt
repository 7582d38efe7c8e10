-- ===== src/Mft/RunList/RoundTrip.antt =====
-- Decoding the on-disk form of runs gives the runs.
use teamy_mft.Common.{
  ℕ, zero, suc, ◌+◌, ◌-◌, ◌*◌, ◌/◌, ◌%◌, ◌^◌, ◌≤◌, ◌<◌, ◌≡◌, refl, sym, ◌∙◌, false, some, [], ◌∷◌,
  ◌++◌, ◌==◌, length, get_or, arith, leb, ltb, All, length-append,
}
use mathlib.Core.List.{append_assoc}
use teamy_mft.Common.Bits.{bit_or-shifted}
use teamy_mft.Common.Bytes.{Bytes, IsByte}
use teamy_mft.Common.Result.{ok}
use teamy_mft.Mft.RunList.{shl64, sign_extend, read_bytes, next, next_offset}
use teamy_mft.Mft.RunList.Encode.{
  sparse, placed, le_bytes, offset_from, entry_of, FitsBytes, FitsSigned, IsRun, length-le_bytes,
  le_value-append, le_value-le_bytes, get_or-append,
}
use teamy_mft.Mft.RunList.Words.{le_value, read_bytes-le_value}

-- A field's number, with its sign spread to 64 bits, is the offset again.
sign_extend-FitsSigned :
    (n delta : ℕ) → delta < 2 ^ 64 → FitsSigned n delta → sign_extend n (delta % 256 ^ n) ≡ delta
unfolding sign_extend shl64
sign_extend-FitsSigned zero delta h fits = absurd (omega (arith, fits.0))
sign_extend-FitsSigned (suc zero) delta h fits =
    ground (arith, fits.2, bit_or-shifted 8 (delta % 256 ^ 1) (2 ^ 56 - 1))
sign_extend-FitsSigned (suc (suc zero)) delta h fits =
    ground (arith, fits.2, bit_or-shifted 16 (delta % 256 ^ 2) (2 ^ 48 - 1))
sign_extend-FitsSigned (suc (suc (suc zero))) delta h fits =
    ground (arith, fits.2, bit_or-shifted 24 (delta % 256 ^ 3) (2 ^ 40 - 1))
sign_extend-FitsSigned (suc (suc (suc (suc zero)))) delta h fits =
    ground (arith, fits.2, bit_or-shifted 32 (delta % 256 ^ 4) (2 ^ 32 - 1))
sign_extend-FitsSigned (suc (suc (suc (suc (suc zero))))) delta h fits =
    ground (arith, fits.2, bit_or-shifted 40 (delta % 256 ^ 5) (2 ^ 24 - 1))
sign_extend-FitsSigned (suc (suc (suc (suc (suc (suc zero)))))) delta h fits =
    ground (arith, fits.2, bit_or-shifted 48 (delta % 256 ^ 6) (2 ^ 16 - 1))
sign_extend-FitsSigned (suc (suc (suc (suc (suc (suc (suc zero))))))) delta h fits =
    ground (arith, fits.2, bit_or-shifted 56 (delta % 256 ^ 7) (2 ^ 8 - 1))
sign_extend-FitsSigned (suc (suc (suc (suc (suc (suc (suc (suc n)))))))) delta h fits =
    absurd (omega (arith, fits.1))

-- A field that stands behind `front` reads as its number.
pub read_field :
    (raw front rest : Bytes) (n x at : ℕ)
    → All IsByte raw
    → raw ≡ front ++ (le_bytes n x ++ rest)
    → at ≡ length front
    → n ≤ 8
    → x < 256 ^ n
    → read_bytes n 0 raw at 0 ≡ x
read_field raw front rest n x at bytes split here few fits =
    let start : at + 0 ≡ length front + 0 = omega arith in
    let value : le_value n raw (at + 0) ≡ x =
      rw (start, split) (le_value-append n front _ 0 ∙ le_value-le_bytes n x rest fits) in
    let few_left : 0 + n ≤ 8 = omega arith in
    let empty : 0 < 2 ^ (8 * 0) = omega arith in
    omega (arith, read_bytes-le_value n 0 raw at 0 bytes few_left empty, value)

-- The header and the length of a run that stands behind `front`, and the room that they take.
pub record StandsAt (raw : Bytes) (at header length_size run_length : ℕ) : Type 0 where
  pub head_byte : get_or raw at 0 ≡ header
  pub run_field : read_bytes length_size 0 raw (at + 1) 0 ≡ run_length
  pub room : at + 1 + length_size < length raw

pub stands_at :
    (raw front rest : Bytes) (header length_size run_length : ℕ)
    → All IsByte raw
    → raw ≡ front ++ (header ∷ (le_bytes length_size run_length ++ rest))
    → 0 < length rest
    → FitsBytes length_size run_length
    → StandsAt raw (length front) header length_size run_length
stands_at raw front rest header length_size run_length bytes split more fits =
    let behind : raw ≡ (front ++ header ∷ []) ++ (le_bytes length_size run_length ++ rest) =
      split ∙ sym (append_assoc front (header ∷ []) _) in
    let at_zero : length front ≡ length front + 0 = omega arith in
    let next_byte : length front + 1 ≡ length (front ++ header ∷ []) =
      omega (arith, length-append front (header ∷ [])) in
    record {
      head_byte = rw (split, at_zero) (get_or-append front _ 0);
      run_field =
          read_field raw (front ++ header ∷ []) rest length_size run_length (length front + 1) bytes
            behind next_byte fits.1 fits.2;
      room = rw split (
          omega (
            arith,
            length-append front (header ∷ (le_bytes length_size run_length ++ rest)),
            length-append (le_bytes length_size run_length) rest,
            length-le_bytes length_size run_length,
            more,
          ));
    }

pub next-sparse :
    (raw : Bytes) (at last_lcn length_size run_length : ℕ)
    → StandsAt raw at length_size length_size run_length
    → FitsBytes length_size run_length
    → next (record { raw = raw; pos = at; last_lcn = last_lcn }) ≡ (
      some (ok (entry_of (sparse length_size run_length))),
      record { raw = raw; pos = at + 1 + length_size; last_lcn = last_lcn },
    )
unfolding next next_offset
next-sparse raw at last_lcn length_size run_length stands fits =
    let inside : leb (length raw) at ≡ false = ground (arith, stands.room) in
    let nonzero : (length_size == 0) ≡ false = ground (arith, fits.0) in
    let few : length_size % 16 ≡ length_size = omega (arith, fits.1) in
    let none_left : length_size / 16 % 16 ≡ 0 = omega (arith, fits.1) in
    let whole : ltb (length raw) (at + 1 + length_size) ≡ false = ground (arith, stands.room) in
    rw (stands.head_byte, few, none_left, stands.run_field, inside, nonzero, whole) refl

pub next-placed :
    (raw : Bytes) (at last_lcn length_size run_length offset_size lcn : ℕ)
    → StandsAt raw at (offset_size * 16 + length_size) length_size run_length
    → IsRun last_lcn (placed length_size run_length offset_size lcn)
    → read_bytes offset_size 0 raw (at + 1 + length_size) 0
      ≡ offset_from last_lcn lcn % 256 ^ offset_size
    → at + 1 + length_size + offset_size ≤ length raw
    → next (record { raw = raw; pos = at; last_lcn = last_lcn }) ≡ (
      some (ok (entry_of (placed length_size run_length offset_size lcn))),
      record { raw = raw; pos = at + 1 + length_size + offset_size; last_lcn = lcn },
    )
unfolding next next_offset
next-placed raw at last_lcn length_size run_length offset_size lcn stands h offset_field room =
    let inside : leb (length raw) at ≡ false = ground (arith, stands.room) in
    let nonzero : (offset_size * 16 + length_size == 0) ≡ false = ground (arith, h.0.0) in
    let length_nonzero : (length_size == 0) ≡ false = ground (arith, h.0.0) in
    let few : (offset_size * 16 + length_size) % 16 ≡ length_size = omega (arith, h.0.1) in
    let offset_nibble : (offset_size * 16 + length_size) / 16 % 16 ≡ offset_size =
      omega (arith, h.0.1, h.1.1) in
    let offset_nonzero : (offset_size == 0) ≡ false = ground (arith, h.1.0) in
    let whole : ltb (length raw) (at + 1 + length_size) ≡ false = ground (arith, stands.room) in
    let offset_whole : ltb (length raw) (at + 1 + length_size + offset_size) ≡ false =
      ground (arith, room) in
    let extended : sign_extend offset_size (offset_from last_lcn lcn % 256 ^ offset_size)
        ≡ offset_from last_lcn lcn =
      sign_extend-FitsSigned offset_size (offset_from last_lcn lcn) (omega arith) h.1 in
    let back : (last_lcn + offset_from last_lcn lcn) % 2 ^ 64 ≡ lcn = omega (arith, h.2, h.3) in
    rw
      (
        stands.head_byte, few, offset_nibble, stands.run_field, inside, nonzero, length_nonzero,
        whole, offset_nonzero, offset_whole, offset_field, extended, back,
      )
      refl
