-- ===== src/Mft/RunList/Inverse.antt =====
-- A whole encoded run list, decoded.
use teamy_mft.Common.{
  ℕ, zero, suc, ◌+◌, ◌*◌, ◌%◌, ◌^◌, ◌≤◌, ◌<◌, ◌≡◌, refl, sym, ap, ◌∙◌, none, some, List, [], ◌∷◌,
  ◌++◌, length, get_or, arith, All, All-append, length-append, map,
}
use mathlib.Core.List.{append_assoc}
use native.Mathlib.Nat.{mod-lt, one-le-pow}
use teamy_mft.Common.Bytes.{Bytes, IsByte}
use teamy_mft.Common.Result.{ok}
use teamy_mft.Mft.RunList.{read_bytes, next, collect, collect_item, decode_all, iter}
use teamy_mft.Mft.RunList.Encode.{
  DataRun, sparse, placed, le_bytes, offset_from, encode_run, lcn_after, encode, entry_of, IsRun,
  AreRuns, length-le_bytes, encode-IsByte, get_or-append,
}
use teamy_mft.Mft.RunList.RoundTrip.{StandsAt, stands_at, read_field, next-sparse, next-placed}

length-encode_run_pos : (last_lcn : ℕ) (run : DataRun) → 0 < length (encode_run last_lcn run)
unfolding encode_run
length-encode_run_pos last_lcn (sparse length_size run_length) = omega arith
length-encode_run_pos last_lcn (placed length_size run_length offset_size lcn) = omega arith

-- A zero in place of a header ends the list.
next-end :
    (raw : Bytes) (at last_lcn : ℕ)
    → at < length raw
    → get_or raw at 0 ≡ 0
    → (next (record { raw = raw; pos = at; last_lcn = last_lcn })).0 ≡ none
unfolding next
next-end raw at last_lcn inside zero_byte = ground (arith, inside, zero_byte)

length-encode_pos :
    (last_lcn : ℕ) (runs : List DataRun) → length runs < length (encode last_lcn runs)
unfolding encode
length-encode_pos last_lcn [] = omega arith
length-encode_pos last_lcn (run ∷ runs) = omega (
  arith,
  length-append (encode_run last_lcn run) (encode (lcn_after last_lcn run) runs),
  length-encode_run_pos last_lcn run,
  length-encode_pos (lcn_after last_lcn run) runs,
)

-- The run that stands behind `front` is the next item, and the iterator moves behind it.
next-encode_run :
    (raw front rest : Bytes) (last_lcn : ℕ) (run : DataRun)
    → All IsByte raw
    → raw ≡ front ++ (encode_run last_lcn run ++ rest)
    → 0 < length rest
    → IsRun last_lcn run
    → next (record { raw = raw; pos = length front; last_lcn = last_lcn }) ≡ (
      some (ok (entry_of run)),
      record {
        raw = raw;
        pos = length (front ++ encode_run last_lcn run);
        last_lcn = lcn_after last_lcn run;
      },
    )
unfolding encode_run
next-encode_run raw front rest last_lcn (sparse length_size run_length) bytes split more h =
    let stands : StandsAt raw (length front) length_size length_size run_length =
      stands_at raw front rest length_size length_size run_length bytes split more h in
    let behind : length (front ++ (length_size ∷ le_bytes length_size run_length))
        ≡ length front + 1 + length_size =
      omega (
        arith,
        length-append front (length_size ∷ le_bytes length_size run_length),
        length-le_bytes length_size run_length,
      ) in
    rw behind (next-sparse raw (length front) last_lcn length_size run_length stands h)
next-encode_run raw front rest last_lcn (placed length_size run_length offset_size lcn) bytes split
      more h =
    let header = offset_size * 16 + length_size in
    let lengths = le_bytes length_size run_length in
    let field = le_bytes offset_size (offset_from last_lcn lcn % 256 ^ offset_size) in
    let parts : raw ≡ front ++ (header ∷ (lengths ++ (field ++ rest))) =
      split ∙ ap (λ t. front ++ (header ∷ t)) (append_assoc lengths field rest) in
    let stands : StandsAt raw (length front) header length_size run_length =
      stands_at raw front (field ++ rest) header length_size run_length bytes parts
        (omega (arith, length-append field rest, more)) h.0 in
    let behind_lengths : raw ≡ (front ++ (header ∷ lengths)) ++ (field ++ rest) =
      parts ∙ sym (append_assoc front (header ∷ lengths) (field ++ rest)) in
    let at_field : length front + 1 + length_size ≡ length (front ++ (header ∷ lengths)) =
      omega
        (arith, length-append front (header ∷ lengths), length-le_bytes length_size run_length) in
    let small : offset_from last_lcn lcn % 256 ^ offset_size < 256 ^ offset_size =
      mod-lt (offset_from last_lcn lcn) {m = 256 ^ offset_size}
        (one-le-pow offset_size 256 (omega arith)) in
    let few : offset_size ≤ 8 = omega (arith, h.1.1) in
    let offset_field : read_bytes offset_size 0 raw (length front + 1 + length_size) 0
        ≡ offset_from last_lcn lcn % 256 ^ offset_size =
      read_field raw (front ++ (header ∷ lengths)) rest offset_size
        (offset_from last_lcn lcn % 256 ^ offset_size) (length front + 1 + length_size) bytes
        behind_lengths at_field few small in
    let room : length front + 1 + length_size + offset_size ≤ length raw =
      rw (at_field, behind_lengths)
        (omega (
          arith,
          length-append (front ++ (header ∷ lengths)) (field ++ rest),
          length-append field rest,
          length-le_bytes offset_size (offset_from last_lcn lcn % 256 ^ offset_size),
        )) in
    let behind : length (front ++ (header ∷ (lengths ++ field)))
        ≡ length front + 1 + length_size + offset_size =
      omega (
        arith,
        length-append front (header ∷ (lengths ++ field)),
        length-append lengths field,
        length-le_bytes length_size run_length,
        length-le_bytes offset_size (offset_from last_lcn lcn % 256 ^ offset_size),
      ) in
    rw behind (
      next-placed raw (length front) last_lcn length_size run_length offset_size lcn stands h
        offset_field room)

collect-encode :
    (runs : List DataRun) (fuel last_lcn : ℕ) (raw front rest : Bytes)
    → All IsByte raw
    → raw ≡ front ++ (encode last_lcn runs ++ rest)
    → AreRuns last_lcn runs
    → length runs < fuel
    → collect fuel (record { raw = raw; pos = length front; last_lcn = last_lcn })
      ≡ some (ok (map entry_of runs))
unfolding collect collect_item encode
collect-encode runs zero last_lcn raw front rest bytes split h enough = absurd (omega arith)
collect-encode [] (suc fuel) last_lcn raw front rest bytes split h enough =
    let at_zero : length front ≡ length front + 0 = omega arith in
    let zero_byte : get_or raw (length front) 0 ≡ 0 =
      rw (split, at_zero) (get_or-append front (0 ∷ rest) 0) in
    let inside : length front < length raw =
      rw split (omega (arith, length-append front (0 ∷ rest))) in
    rw (next-end raw (length front) last_lcn inside zero_byte) refl
collect-encode (run ∷ runs) (suc fuel) last_lcn raw front rest bytes split h enough =
    let parts : raw
        ≡ front ++ (encode_run last_lcn run ++ (encode (lcn_after last_lcn run) runs ++ rest)) =
      split ∙ ap (λ t. front ++ t) (append_assoc (encode_run last_lcn run) _ rest) in
    let behind : raw
        ≡ (front ++ encode_run last_lcn run) ++ (encode (lcn_after last_lcn run) runs ++ rest) =
      parts ∙ sym (append_assoc front (encode_run last_lcn run) _) in
    rw
      (next-encode_run raw front (encode (lcn_after last_lcn run) runs ++ rest) last_lcn run bytes
        parts
        (omega (
          arith,
          length-append (encode (lcn_after last_lcn run) runs) rest,
          length-encode_pos (lcn_after last_lcn run) runs,
        ))
        h.0)
      (rw
        (collect-encode runs fuel (lcn_after last_lcn run) raw (front ++ encode_run last_lcn run)
          rest bytes behind h.1 (omega arith))
        refl)

-- Decoding the on-disk form of a run list, with any bytes behind the zero that ends it, gives its
-- runs, the sparse ones without a cluster. Lengths take up to 8 bytes, offsets up to 7.
pub decode_all-encode :
    (runs : List DataRun) (rest : Bytes)
    → AreRuns 0 runs
    → All IsByte rest
    → decode_all (encode 0 runs ++ rest) ≡ some (ok (map entry_of runs))
unfolding decode_all iter
decode_all-encode runs rest h bytes =
    collect-encode runs _ 0 (encode 0 runs ++ rest) [] rest
      (All-append IsByte (encode 0 runs) rest (encode-IsByte 0 runs h) bytes) refl h
      (omega (arith, length-append (encode 0 runs) rest, length-encode_pos 0 runs))
