-- ===== src/Tests/Input.antt =====
-- src/query/query_string.rs: `jar|zip flower`, and the same as two inputs.
use teamy_mft.Common.{ℕ, ◌≡◌, ◌<◌, refl, Bool, none, [], ◌∷◌, ltb, ◌==◌, map, length, All}
use teamy_mft.Common.Result.{Result, ok}
use teamy_mft.Common.Text.{codes}
use teamy_mft.Query.Needle.{to_ascii_lowercase, ascii_lower, bytes_eq, new}
use teamy_mft.Query.Rule
use teamy_mft.Query.Rule.{QueryRule, RuleError, from_str}
use teamy_mft.Query.Group.{QueryString, all}
use teamy_mft.Query.Input.{
  Chars, validate_all, validate_query_input, parse_inputs, parse_valid, parse_groups, raw_groups_of,
  parse_group, require_groups,
}
use teamy_mft.Query.Input.Groups.{parse_inputs-pipe, parse_inputs-HasRules, HasRules}

abbrev is_control : ℕ → Bool
is_control c = ltb c 32

abbrev is_whitespace : ℕ → Bool
is_whitespace c = c == 32

abbrev rule_of : Chars → Result RuleError QueryRule
rule_of = from_str (map to_ascii_lowercase)

joined-valid :
    validate_all {E = RuleError} is_control is_whitespace rule_of (codes "jar|zip flower" ∷ [])
    ≡ none
unfolding validate_all validate_query_input
joined-valid = refl

apart-valid :
    validate_all {E = RuleError} is_control is_whitespace rule_of
      (codes "jar" ∷ codes "zip flower" ∷ [])
    ≡ none
unfolding validate_all validate_query_input
apart-valid = refl

parse_inputs-pipe_example :
    parse_inputs is_control is_whitespace rule_of (codes "jar|zip flower" ∷ [])
    ≡ parse_inputs is_control is_whitespace rule_of (codes "jar" ∷ codes "zip flower" ∷ [])
parse_inputs-pipe_example =
    parse_inputs-pipe is_control is_whitespace rule_of (codes "jar") (codes "zip flower") []
      joined-valid apart-valid

abbrev jar_query : QueryString
jar_query = record {
  groups =
      record { rules = Rule.contains_case_insensitive (ascii_lower (codes "jar")) ∷ [] }
      ∷ record {
        rules =
            Rule.contains_case_insensitive (ascii_lower (codes "zip"))
            ∷ Rule.ends_with_case_insensitive (ascii_lower (codes ".md"))
            ∷ [];
      }
      ∷ [];
}

jar_query-parse_inputs :
    parse_inputs is_control is_whitespace rule_of (codes "Jar|zip .md>" ∷ []) ≡ ok jar_query
unfolding parse_inputs parse_valid validate_query_input parse_groups raw_groups_of parse_group all
    from_str bytes_eq Rule.suffix_or_contains Rule.strip_last require_groups new
jar_query-parse_inputs = refl

parse_inputs-HasRules_example : (0 < length jar_query.groups) × All HasRules jar_query.groups
parse_inputs-HasRules_example =
    parse_inputs-HasRules is_whitespace rule_of is_control (codes "Jar|zip .md>" ∷ []) jar_query
      jar_query-parse_inputs
