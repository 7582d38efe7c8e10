-- ===== src/Tests/Query.antt =====
-- src/query: a query over an index of three rows, needles, and rules in print.
use teamy_mft.Common.{
  ℕ, ◌≡◌, refl, Bool, true, false, ◌&&◌, none, some, [], ◌∷◌, map, arith, ◌↔◌, ◌||◌,
}
use teamy_mft.Common.Bytes.{Bytes}
use teamy_mft.Common.Result.{Result, ok}
use teamy_mft.Common.Text.{codes}
use teamy_mft.Query.Needle
use teamy_mft.Query.Needle.{
  QueryNeedle, ascii_lower, is_ascii, starts_with_ascii_in_normalized_haystack,
  ends_with_ascii_in_normalized_haystack, to_ascii_lowercase, any,
  contains_ascii_in_normalized_haystack, str_contains, matches_contains_preprocessed,
  matches_prefix_preprocessed, matches_suffix_preprocessed, matches_exact_preprocessed,
}
use teamy_mft.Query.Needle.Agreement.{preprocessed_agrees}
use teamy_mft.Query.Needle.Find.{Occurs, HasPrefix, HasSuffix, ascii_in_normalized_iff}
use teamy_mft.Query.Rows
use teamy_mft.Query.Rows.{
  MatchingRowIndices, intersect, union, intersect_sorted_ids, intersect_sorted_ids_in_place,
}
use teamy_mft.Query.Rows.Sets.{selects, IsValid, intersect-selects, union-selects, is_empty_iff}
use teamy_mft.Query.Rows.Loops.{intersect_in_place-intersect}
use teamy_mft.Query.Rule
use teamy_mft.Query.Rule.{QueryRule, RuleError, from_str, to_string, ends_with_case_insensitive}
use teamy_mft.Query.Rule.Print.{from_str-lowered, to_string-from_str, from_str-to_string}
use teamy_mft.Query.Group.{QueryString, matching_row_index_candidates}
use teamy_mft.Query.Group.Candidates.{Selects, group_selects, candidates-Selects}

abbrev even_rows : MatchingRowIndices
even_rows = Rows.row_indices (0 ∷ 2 ∷ [])

abbrev late_rows : MatchingRowIndices
late_rows = Rows.row_indices (1 ∷ 2 ∷ [])

abbrev rows_of : QueryRule → MatchingRowIndices
rows_of Rule.match_all = Rows.match_all 3
rows_of (Rule.contains_case_insensitive needle) = even_rows
rows_of _ = late_rows

even_rows-IsValid : IsValid 3 even_rows
even_rows-IsValid = (((omega arith, tt), (tt, tt)), (omega arith, (omega arith, tt)))

late_rows-IsValid : IsValid 3 late_rows
late_rows-IsValid = (((omega arith, tt), (tt, tt)), (omega arith, (omega arith, tt)))

rows_of-IsValid : (rule : QueryRule) → IsValid 3 (rows_of rule)
rows_of-IsValid Rule.match_all = refl
rows_of-IsValid (Rule.contains_case_insensitive needle) = even_rows-IsValid
rows_of-IsValid (Rule.prefix_case_insensitive needle) = late_rows-IsValid
rows_of-IsValid (Rule.ends_with_case_insensitive needle) = late_rows-IsValid
rows_of-IsValid (Rule.equals_case_insensitive needle) = late_rows-IsValid

abbrev lookup : QueryRule → Result RuleError MatchingRowIndices
lookup rule = ok (rows_of rule)

abbrev sem : QueryRule → ℕ → Bool
sem rule x = selects (rows_of rule) x

abbrev flower : QueryNeedle
flower = ascii_lower (codes "flower")

-- `flower .jar>` or nothing else
abbrev query : QueryString
query = record {
  groups =
      record {
        rules =
            Rule.contains_case_insensitive flower
            ∷ Rule.ends_with_case_insensitive (ascii_lower (codes ".jar"))
            ∷ [];
      }
      ∷ [];
}

candidates-Selects_example :
    Selects 3
      (matching_row_index_candidates lookup query)
      (λ x. any (λ g. group_selects sem g.rules x) query.groups)
candidates-Selects_example =
    candidates-Selects lookup 3 sem (λ rule. (rows_of rule, refl, rows_of-IsValid rule, λ x. refl))
      query

intersect-selects_example :
    IsValid 3 (intersect even_rows late_rows)
    × ((x : ℕ)
        → selects (intersect even_rows late_rows) x ≡ (selects even_rows x && selects late_rows x))
intersect-selects_example =
    intersect-selects 3 even_rows late_rows even_rows-IsValid late_rows-IsValid

union-selects_example :
    IsValid 3 (union even_rows late_rows)
    × ((x : ℕ)
        → selects (union even_rows late_rows) x ≡ (selects even_rows x || selects late_rows x))
union-selects_example = union-selects 3 even_rows late_rows even_rows-IsValid late_rows-IsValid

is_empty_iff_example :
    (Rows.is_empty (Rows.row_indices []) ≡ true)
    ↔ ((x : ℕ) → selects (Rows.row_indices []) x ≡ false)
is_empty_iff_example = is_empty_iff (Rows.row_indices [])

intersect_in_place-intersect_example :
    intersect_sorted_ids_in_place (1 ∷ 4 ∷ 9 ∷ []) (4 ∷ 9 ∷ 11 ∷ [])
    ≡ intersect_sorted_ids (1 ∷ 4 ∷ 9 ∷ []) (4 ∷ 9 ∷ 11 ∷ [])
intersect_in_place-intersect_example =
    intersect_in_place-intersect (1 ∷ 4 ∷ 9 ∷ []) (4 ∷ 9 ∷ 11 ∷ [])

-- A lowercase for texts in which only ASCII letters have one.
abbrev ascii_lowercase : Bytes → Bytes
ascii_lowercase = map to_ascii_lowercase

abbrev path : Bytes
path = codes "C:/Temp/FLOWER.jar"

abbrev term : Bytes
term = codes "Flower>"

path-is_ascii : is_ascii path ≡ true
unfolding is_ascii
path-is_ascii = refl

preprocessed_agrees_example :
    (matches_contains_preprocessed ascii_lowercase flower path none
      ≡ matches_contains_preprocessed ascii_lowercase flower path (some (ascii_lowercase path)))
    × (matches_prefix_preprocessed ascii_lowercase flower path none
        ≡ matches_prefix_preprocessed ascii_lowercase flower path (some (ascii_lowercase path)))
    × (matches_suffix_preprocessed ascii_lowercase flower path none
        ≡ matches_suffix_preprocessed ascii_lowercase flower path (some (ascii_lowercase path)))
    × (matches_exact_preprocessed ascii_lowercase flower path none
        ≡ matches_exact_preprocessed ascii_lowercase flower path (some (ascii_lowercase path)))
preprocessed_agrees_example =
    preprocessed_agrees ascii_lowercase (λ text h. refl) flower path path-is_ascii

ascii_in_normalized_iff_example :
    ((contains_ascii_in_normalized_haystack path (codes "LOW") ≡ true) ↔ Occurs path (codes "LOW"))
    × ((starts_with_ascii_in_normalized_haystack path (codes "LOW") ≡ true)
        ↔ HasPrefix path (codes "LOW"))
    × ((ends_with_ascii_in_normalized_haystack path (codes "LOW") ≡ true)
        ↔ HasSuffix path (codes "LOW"))
ascii_in_normalized_iff_example = ascii_in_normalized_iff path (codes "LOW")

term-is_ascii : is_ascii term ≡ true
unfolding is_ascii
term-is_ascii = refl

abbrev term_rule : QueryRule
term_rule = ends_with_case_insensitive (Needle.new ascii_lowercase (codes "Flower"))

term-from_str : from_str ascii_lowercase term ≡ ok term_rule
unfolding from_str Needle.bytes_eq Rule.suffix_or_contains Rule.strip_last
term-from_str = refl

from_str-lowered_example :
    from_str ascii_lowercase (ascii_lowercase term) ≡ from_str ascii_lowercase term
from_str-lowered_example = from_str-lowered ascii_lowercase term term-is_ascii

to_string-from_str_example : to_string term_rule ≡ ascii_lowercase term
to_string-from_str_example =
    to_string-from_str ascii_lowercase term term_rule term-is_ascii term-from_str

from_str-to_string_example : from_str ascii_lowercase (to_string term_rule) ≡ ok term_rule
from_str-to_string_example =
    from_str-to_string ascii_lowercase term term_rule term-is_ascii term-from_str
