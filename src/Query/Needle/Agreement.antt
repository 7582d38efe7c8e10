-- ===== src/Query/Needle/Agreement.antt =====
-- The matches on a raw haystack agree with those on its lowercased copy.
use teamy_mft.Common.{
  ◌-◌, ◌≡◌, refl, sym, ap, true, none, some, map, length, drop, ltb, ◌==◌, if◌then◌else◌, arith,
  length-take, length-drop, Bool-cases, inl, inr, ltb→le,
}
use teamy_mft.Common.Bytes.{Bytes}
use teamy_mft.Query.Needle.{
  to_ascii_lowercase, is_ascii, QueryNeedle, ascii_lower, unicode_lower,
  contains_case_insensitive_ascii, contains_ascii_in_normalized_haystack,
  starts_with_case_insensitive_ascii, starts_with_ascii_in_normalized_haystack,
  ends_with_case_insensitive_ascii, ends_with_ascii_in_normalized_haystack,
  equals_case_insensitive_ascii, equals_ascii_in_normalized_haystack, matches_contains_preprocessed,
  matches_prefix_preprocessed, matches_suffix_preprocessed, matches_exact_preprocessed,
}
use teamy_mft.Query.Needle.Windows.{
  zip_all_lowercase-bytes_eq, any-windows_lowercase, length-map, take-map, drop-map,
  bytes_eq_lengths,
}

-- `str::to_lowercase` changes ASCII text letter by letter.
abbrev pub LowersAscii : (Bytes → Bytes) → Type 0
LowersAscii to_lowercase =
    (text : Bytes) → is_ascii text ≡ true → to_lowercase text ≡ map to_ascii_lowercase text

abbrev lowered : Bytes → Bytes
lowered = map to_ascii_lowercase

contains_agrees :
    (haystack needle : Bytes)
    → contains_case_insensitive_ascii haystack needle
      ≡ contains_ascii_in_normalized_haystack (lowered haystack) needle
unfolding contains_case_insensitive_ascii contains_ascii_in_normalized_haystack
contains_agrees haystack needle = rw (length-map, any-windows_lowercase)

starts_with_agrees :
    (haystack needle : Bytes)
    → starts_with_case_insensitive_ascii haystack needle
      ≡ starts_with_ascii_in_normalized_haystack (lowered haystack) needle
unfolding starts_with_case_insensitive_ascii starts_with_ascii_in_normalized_haystack
starts_with_agrees haystack needle =
    rw (length-map, take-map)
      (elim (Bool-cases (ltb (length haystack) (length needle))) [
        | inl short ↦ rw short
        | inr fits ↦ rw fits (
            zip_all_lowercase-bytes_eq _ needle
              (omega (arith, length-take (length needle) haystack, ltb→le _ _ fits)))
      ])

ends_with_agrees :
    (haystack needle : Bytes)
    → ends_with_case_insensitive_ascii haystack needle
      ≡ ends_with_ascii_in_normalized_haystack (lowered haystack) needle
unfolding ends_with_case_insensitive_ascii ends_with_ascii_in_normalized_haystack
ends_with_agrees haystack needle =
    let n = length haystack - length needle in
    rw (length-map, drop-map)
      (elim (Bool-cases (ltb (length haystack) (length needle))) [
        | inl short ↦ rw short
        | inr fits ↦ rw fits (
            ap (λ t. if length needle == 0 then true else t)
              (zip_all_lowercase-bytes_eq (drop n haystack) needle
                (omega (arith, length-drop n haystack, ltb→le _ _ fits))))
      ])

equals_agrees :
    (haystack needle : Bytes)
    → equals_case_insensitive_ascii haystack needle
      ≡ equals_ascii_in_normalized_haystack (lowered haystack) needle
unfolding equals_case_insensitive_ascii equals_ascii_in_normalized_haystack
equals_agrees haystack needle = elim (Bool-cases (length needle == length haystack)) [
  | inl same ↦ rw same (zip_all_lowercase-bytes_eq haystack needle (ground arith))
  | inr differ ↦ rw differ (
      sym (
        bytes_eq_lengths (lowered haystack) needle
          (λ e. ground (arith, length-map to_ascii_lowercase haystack))))
]

module _ (to_lowercase : Bytes → Bytes) (lowers : LowersAscii to_lowercase) where
  -- Where `to_lowercase` changes ASCII text letter by letter, on an ASCII haystack each of the four
  -- matches gives the same answer with the lowercased
  -- haystack at hand as without it, for every needle.
  pub preprocessed_agrees :
      (needle : QueryNeedle) (haystack : Bytes)
      → is_ascii haystack ≡ true
      → (matches_contains_preprocessed to_lowercase needle haystack none
          ≡ matches_contains_preprocessed to_lowercase needle haystack
              (some (to_lowercase haystack)))
        × (matches_prefix_preprocessed to_lowercase needle haystack none
            ≡ matches_prefix_preprocessed to_lowercase needle haystack
                (some (to_lowercase haystack)))
        × (matches_suffix_preprocessed to_lowercase needle haystack none
            ≡ matches_suffix_preprocessed to_lowercase needle haystack
                (some (to_lowercase haystack)))
        × (matches_exact_preprocessed to_lowercase needle haystack none
            ≡ matches_exact_preprocessed to_lowercase needle haystack
                (some (to_lowercase haystack)))
  unfolding matches_contains_preprocessed matches_prefix_preprocessed matches_suffix_preprocessed
      matches_exact_preprocessed
  preprocessed_agrees (ascii_lower needle) haystack plain = rw (lowers haystack plain) (
    contains_agrees haystack needle,
    starts_with_agrees haystack needle,
    ends_with_agrees haystack needle,
    equals_agrees haystack needle,
  )
  preprocessed_agrees (unicode_lower needle) haystack plain = (refl, refl, refl, refl)
