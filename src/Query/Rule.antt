-- ===== src/Query/Rule.antt =====
-- src/query/query_rule.rs: one query term. A text is the list of its bytes.
pub mod Print
use teamy_mft.Common.{
  ℕ, zero, suc, ◌+◌, ◌-◌, Bool, true, false, ◌&&◌, ◌||◌, not, Option, none, some, List, [], ◌∷◌,
  ◌++◌, ltb, leb, ◌==◌, map, if◌then◌else◌, length,
}
use teamy_mft.Common.Bytes.{Bytes}
use teamy_mft.Common.Result.{Result, ok, err}
use teamy_mft.Query.Needle
use teamy_mft.Query.Needle.{
  QueryNeedle, normalized_bytes, is_ascii, to_ascii_lowercase, bytes_eq,
  matches_contains_preprocessed, matches_prefix_preprocessed, matches_suffix_preprocessed,
  matches_exact_preprocessed,
}

pub data QueryRule : Type 0 where
  match_all : QueryRule
  prefix_case_insensitive : QueryNeedle → QueryRule
  contains_case_insensitive : QueryNeedle → QueryRule
  ends_with_case_insensitive : QueryNeedle → QueryRule
  equals_case_insensitive : QueryNeedle → QueryRule

-- The messages of `from_str`.
pub data RuleError : Type 0 where
  empty_rule empty_exact empty_prefix empty_suffix : RuleError

unfoldable pub is_empty : QueryRule → Bool
unfolding Needle.is_empty
is_empty match_all = false
is_empty (prefix_case_insensitive needle) = Needle.is_empty needle
is_empty (contains_case_insensitive needle) = Needle.is_empty needle
is_empty (ends_with_case_insensitive needle) = Needle.is_empty needle
is_empty (equals_case_insensitive needle) = Needle.is_empty needle

unfoldable pub is_match_all : QueryRule → Bool
is_match_all match_all = true
is_match_all _ = false

unfoldable pub matches_only_terminal_segment : QueryRule → Bool
matches_only_terminal_segment (ends_with_case_insensitive needle) = true
matches_only_terminal_segment (equals_case_insensitive needle) = true
matches_only_terminal_segment _ = false

unfoldable pub starts_with_dot : Bytes → Bool
starts_with_dot [] = false
starts_with_dot (b ∷ bytes) = b == b'.'

unfoldable pub normalized_extension_suffix : QueryRule → Option Bytes
unfolding normalized_bytes starts_with_dot
normalized_extension_suffix (ends_with_case_insensitive needle) =
    let suffix = normalized_bytes needle in
    if starts_with_dot suffix && ltb 1 (length suffix) then some suffix else none
normalized_extension_suffix _ = none

unfoldable pub normalized_contains_trigrams : QueryRule → Option (List Bytes)
unfolding normalized_bytes Needle.normalized_trigrams
normalized_contains_trigrams (contains_case_insensitive needle) =
    if leb 3 (length (normalized_bytes needle))
    then some (Needle.normalized_trigrams needle)
    else none
normalized_contains_trigrams _ = none

-- `strip_suffix('>')`
unfoldable pub strip_last : ℕ → Bytes → Option Bytes
strip_last c [] = none
strip_last c (b ∷ []) = if b == c then some [] else none
strip_last c (b ∷ d ∷ bytes) = elim (strip_last c (d ∷ bytes)) [
  | none ↦ none
  | some front ↦ some (b ∷ front)
]

module _ (to_lowercase : Bytes → Bytes) where
  unfoldable pub matches_preprocessed : QueryRule → Bytes → Option Bytes → Bool
  unfolding matches_contains_preprocessed matches_prefix_preprocessed matches_suffix_preprocessed
      matches_exact_preprocessed
  matches_preprocessed match_all haystack normalized = true
  matches_preprocessed (prefix_case_insensitive needle) haystack normalized =
      matches_prefix_preprocessed to_lowercase needle haystack normalized
  matches_preprocessed (contains_case_insensitive needle) haystack normalized =
      matches_contains_preprocessed to_lowercase needle haystack normalized
  matches_preprocessed (ends_with_case_insensitive needle) haystack normalized =
      matches_suffix_preprocessed to_lowercase needle haystack normalized
  matches_preprocessed (equals_case_insensitive needle) haystack normalized =
      matches_exact_preprocessed to_lowercase needle haystack normalized

  unfoldable pub matches : QueryRule → Bytes → Bool
  unfolding matches_preprocessed
  matches rule haystack = matches_preprocessed rule haystack none

  unfoldable pub matches_normalized : QueryRule → Bytes → Bool
  unfolding matches_preprocessed
  matches_normalized rule normalized = matches_preprocessed rule normalized (some normalized)

  -- After a leading `<`, by what `strip_suffix('>')` gives for the rest.
  unfoldable pub exact_or_prefix : Option Bytes → Bytes → Result RuleError QueryRule
  exact_or_prefix (some []) inner = err empty_exact
  exact_or_prefix (some (b ∷ exact)) inner =
      ok (equals_case_insensitive (Needle.new to_lowercase (b ∷ exact)))
  exact_or_prefix none inner =
      if length inner == 0
      then err empty_prefix
      else ok (prefix_case_insensitive (Needle.new to_lowercase inner))

  -- Without a leading `<`, by what `strip_suffix('>')` gives for the term.
  unfoldable pub suffix_or_contains : Option Bytes → Bytes → Result RuleError QueryRule
  suffix_or_contains (some []) raw_term = err empty_suffix
  suffix_or_contains (some (b ∷ suffix)) raw_term =
      ok (ends_with_case_insensitive (Needle.new to_lowercase (b ∷ suffix)))
  suffix_or_contains none raw_term =
      ok (contains_case_insensitive (Needle.new to_lowercase raw_term))

  unfoldable pub from_str : Bytes → Result RuleError QueryRule
  from_str [] = err empty_rule
  from_str (b ∷ rest) =
      if bytes_eq (b ∷ rest) (b'<' ∷ b'>' ∷ [])
      then ok match_all
      else if b == b'<'
      then exact_or_prefix (strip_last b'>' rest) rest
      else suffix_or_contains (strip_last b'>' (b ∷ rest)) (b ∷ rest)

-- `Display`
unfoldable pub to_string : QueryRule → Bytes
unfolding normalized_bytes
to_string match_all = b'<' ∷ b'>' ∷ []
to_string (prefix_case_insensitive needle) = b'<' ∷ normalized_bytes needle
to_string (contains_case_insensitive needle) = normalized_bytes needle
to_string (ends_with_case_insensitive needle) = normalized_bytes needle ++ b'>' ∷ []
to_string (equals_case_insensitive needle) = b'<' ∷ (normalized_bytes needle ++ b'>' ∷ [])
