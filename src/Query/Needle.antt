-- ===== src/Query/Needle.antt =====
-- src/query/query_needle.rs: needles, and the four ways in which a text matches one. A text is the
-- list of its UTF-8 bytes. `str::to_lowercase` on text that is not ASCII is a parameter.
pub mod Windows
pub mod Find
pub mod Agreement
use teamy_mft.Common.{
  ℕ, zero, suc, ◌+◌, ◌-◌, Bool, true, false, ◌&&◌, ◌||◌, Option, none, some, List, [], ◌∷◌, map,
  ltb, leb, ◌==◌, if◌then◌else◌, length, take, drop,
}
use teamy_mft.Common.Bytes.{Bytes}
use teamy_mft.Texts.{sort_by, dedup_texts, itself}

-- `u8::to_ascii_lowercase`
unfoldable pub to_ascii_lowercase : ℕ → ℕ
to_ascii_lowercase b = if leb b'A' b && leb b b'Z' then b + 32 else b

-- `str::is_ascii`
unfoldable pub is_ascii : Bytes → Bool
is_ascii [] = true
is_ascii (b ∷ bytes) = ltb b 128 && is_ascii bytes

-- `==` on slices of bytes
unfoldable pub bytes_eq : Bytes → Bytes → Bool
bytes_eq [] [] = true
bytes_eq [] (y ∷ ys) = false
bytes_eq (x ∷ xs) [] = false
bytes_eq (x ∷ xs) (y ∷ ys) = x == y && bytes_eq xs ys

-- `slice.windows(size)`, for a size above 0
unfoldable pub windows : ℕ → Bytes → List Bytes
windows size [] = []
windows size (b ∷ bytes) =
    let later = windows size bytes in
    if leb size (length (b ∷ bytes)) then take size (b ∷ bytes) ∷ later else []

-- `iter.any(test)`
unfoldable pub any {ℓ} : {A : Type ℓ} → (A → Bool) → List A → Bool
any test [] = false
any test (x ∷ xs) = test x || any test xs

-- `actual.iter().zip(expected.iter()).all(|(a, e)| a.to_ascii_lowercase() == *e)`
unfoldable pub zip_all_lowercase : Bytes → Bytes → Bool
unfolding to_ascii_lowercase
zip_all_lowercase [] expected = true
zip_all_lowercase (a ∷ actual) [] = true
zip_all_lowercase (a ∷ actual) (e ∷ expected) =
    to_ascii_lowercase a == e && zip_all_lowercase actual expected

pub data QueryNeedle : Type 0 where
  ascii_lower : Bytes → QueryNeedle
  unicode_lower : Bytes → QueryNeedle

module _ (to_lowercase : Bytes → Bytes) where
  unfoldable pub new : Bytes → QueryNeedle
  unfolding is_ascii to_ascii_lowercase
  new value =
      if is_ascii value
      then ascii_lower (map to_ascii_lowercase value)
      else unicode_lower (to_lowercase value)

-- `normalized_str` and `normalized_bytes` are the same bytes.
unfoldable pub normalized_bytes : QueryNeedle → Bytes
normalized_bytes (ascii_lower needle) = needle
normalized_bytes (unicode_lower needle) = needle

-- The arrays of three bytes are in the order of texts.
unfoldable pub normalized_trigrams : QueryNeedle → List Bytes
unfolding normalized_bytes windows
normalized_trigrams needle = dedup_texts (sort_by itself (windows 3 (normalized_bytes needle)))

unfoldable pub is_empty : QueryNeedle → Bool
is_empty (ascii_lower needle) = length needle == 0
is_empty (unicode_lower needle) = length needle == 0

-- `str::contains`, `starts_with` and `ends_with` on the bytes
unfoldable pub str_starts_with : Bytes → Bytes → Bool
str_starts_with haystack [] = true
str_starts_with [] (n ∷ needle) = false
str_starts_with (h ∷ haystack) (n ∷ needle) = h == n && str_starts_with haystack needle

unfoldable pub str_contains : Bytes → Bytes → Bool
unfolding str_starts_with
str_contains [] needle = str_starts_with [] needle
str_contains (h ∷ haystack) needle =
    str_starts_with (h ∷ haystack) needle || str_contains haystack needle

unfoldable pub str_ends_with : Bytes → Bytes → Bool
unfolding bytes_eq
str_ends_with haystack needle =
    leb (length needle) (length haystack)
    && bytes_eq (drop (length haystack - length needle) haystack) needle

unfoldable pub contains_ascii_in_normalized_haystack : Bytes → Bytes → Bool
unfolding any windows bytes_eq
contains_ascii_in_normalized_haystack haystack needle =
    if length needle == 0
    then true
    else if ltb (length haystack) (length needle)
    then false
    else any (λ window. bytes_eq window needle) (windows (length needle) haystack)

unfoldable pub starts_with_ascii_in_normalized_haystack : Bytes → Bytes → Bool
unfolding bytes_eq
starts_with_ascii_in_normalized_haystack haystack needle =
    if ltb (length haystack) (length needle)
    then false
    else bytes_eq (take (length needle) haystack) needle

unfoldable pub ends_with_ascii_in_normalized_haystack : Bytes → Bytes → Bool
unfolding bytes_eq
ends_with_ascii_in_normalized_haystack haystack needle =
    if length needle == 0
    then true
    else if ltb (length haystack) (length needle)
    then false
    else bytes_eq (drop (length haystack - length needle) haystack) needle

unfoldable pub equals_ascii_in_normalized_haystack : Bytes → Bytes → Bool
unfolding bytes_eq
equals_ascii_in_normalized_haystack haystack needle = bytes_eq haystack needle

unfoldable pub contains_case_insensitive_ascii : Bytes → Bytes → Bool
unfolding any windows zip_all_lowercase
contains_case_insensitive_ascii haystack needle =
    if length needle == 0
    then true
    else if ltb (length haystack) (length needle)
    then false
    else any (λ window. zip_all_lowercase window needle) (windows (length needle) haystack)

unfoldable pub starts_with_case_insensitive_ascii : Bytes → Bytes → Bool
unfolding zip_all_lowercase
starts_with_case_insensitive_ascii haystack needle =
    if ltb (length haystack) (length needle)
    then false
    else zip_all_lowercase (take (length needle) haystack) needle

unfoldable pub ends_with_case_insensitive_ascii : Bytes → Bytes → Bool
unfolding zip_all_lowercase
ends_with_case_insensitive_ascii haystack needle =
    if length needle == 0
    then true
    else if ltb (length haystack) (length needle)
    then false
    else zip_all_lowercase (drop (length haystack - length needle) haystack) needle

unfoldable pub equals_case_insensitive_ascii : Bytes → Bytes → Bool
unfolding zip_all_lowercase
equals_case_insensitive_ascii haystack needle =
    if length needle == length haystack then zip_all_lowercase haystack needle else false

-- The four `matches_*_preprocessed`: with a normalized haystack, or without one.
module _ (to_lowercase : Bytes → Bytes) where
  unfoldable pub matches_contains_preprocessed : QueryNeedle → Bytes → Option Bytes → Bool
  unfolding contains_case_insensitive_ascii contains_ascii_in_normalized_haystack str_contains
  matches_contains_preprocessed (ascii_lower needle) haystack none =
      contains_case_insensitive_ascii haystack needle
  matches_contains_preprocessed (ascii_lower needle) haystack (some normalized) =
      contains_ascii_in_normalized_haystack normalized needle
  matches_contains_preprocessed (unicode_lower needle) haystack none =
      str_contains (to_lowercase haystack) needle
  matches_contains_preprocessed (unicode_lower needle) haystack (some normalized) =
      str_contains normalized needle

  unfoldable pub matches_prefix_preprocessed : QueryNeedle → Bytes → Option Bytes → Bool
  unfolding starts_with_case_insensitive_ascii starts_with_ascii_in_normalized_haystack
      str_starts_with
  matches_prefix_preprocessed (ascii_lower needle) haystack none =
      starts_with_case_insensitive_ascii haystack needle
  matches_prefix_preprocessed (ascii_lower needle) haystack (some normalized) =
      starts_with_ascii_in_normalized_haystack normalized needle
  matches_prefix_preprocessed (unicode_lower needle) haystack none =
      str_starts_with (to_lowercase haystack) needle
  matches_prefix_preprocessed (unicode_lower needle) haystack (some normalized) =
      str_starts_with normalized needle

  unfoldable pub matches_suffix_preprocessed : QueryNeedle → Bytes → Option Bytes → Bool
  unfolding ends_with_case_insensitive_ascii ends_with_ascii_in_normalized_haystack str_ends_with
  matches_suffix_preprocessed (ascii_lower needle) haystack none =
      ends_with_case_insensitive_ascii haystack needle
  matches_suffix_preprocessed (ascii_lower needle) haystack (some normalized) =
      ends_with_ascii_in_normalized_haystack normalized needle
  matches_suffix_preprocessed (unicode_lower needle) haystack none =
      str_ends_with (to_lowercase haystack) needle
  matches_suffix_preprocessed (unicode_lower needle) haystack (some normalized) =
      str_ends_with normalized needle

  unfoldable pub matches_exact_preprocessed : QueryNeedle → Bytes → Option Bytes → Bool
  unfolding equals_case_insensitive_ascii equals_ascii_in_normalized_haystack bytes_eq
  matches_exact_preprocessed (ascii_lower needle) haystack none =
      equals_case_insensitive_ascii haystack needle
  matches_exact_preprocessed (ascii_lower needle) haystack (some normalized) =
      equals_ascii_in_normalized_haystack normalized needle
  matches_exact_preprocessed (unicode_lower needle) haystack none =
      bytes_eq (to_lowercase haystack) needle
  matches_exact_preprocessed (unicode_lower needle) haystack (some normalized) =
      bytes_eq normalized needle
