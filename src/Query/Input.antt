-- ===== src/Query/Input.antt =====
-- src/query/query_string.rs and query_group.rs: from the command line's inputs to groups. A text is
-- the list of its characters' code points here; which of them are control characters or white
-- space is a table of the standard library, and a parameter.
pub mod Groups
use teamy_mft.Common.{
  ℕ, zero, suc, ◌+◌, ◌-◌, Bool, true, false, ◌&&◌, ◌||◌, not, Option, none, some, List, [], ◌∷◌,
  ◌++◌, ltb, leb, ◌==◌, map, if◌then◌else◌, length, get_elem?,
}
use teamy_mft.Common.Result.{Result, ok, err, ◌>>=◌}
use teamy_mft.Query.Rule.{QueryRule}
use teamy_mft.Query.Group.{QueryGroup, QueryString, all}

abbrev pub Chars : Type 0
Chars = List ℕ

-- The messages of `validate_query_input`, `parse_inputs` and those of a rule.
pub data InputError (E : Type 0) : Type 0 where
  control_character invalid_character colon_outside_drive : ℕ → InputError E
  query_required : InputError E
  bad_rule : E → InputError E

unfoldable pub is_ascii_alphabetic : ℕ → Bool
is_ascii_alphabetic c = leb b'A' c && leb c b'Z' || leb b'a' c && leb c b'z'

-- `checked_sub(2)` and `get`
unfoldable pub two_before : Chars → ℕ → Option ℕ
two_before chars zero = none
two_before chars (suc zero) = none
two_before chars (suc (suc i)) = get_elem? chars i

module _ (is_control is_whitespace : ℕ → Bool) where
  unfoldable pub is_query_boundary : ℕ → Bool
  is_query_boundary c = is_whitespace c || (c == b'|' || c == b'/' || c == 92 || c == 39)

  unfoldable pub is_boundary_at : Option ℕ → Bool
  is_boundary_at none = true
  is_boundary_at (some c) = is_query_boundary c

  unfoldable pub is_letter_at : Option ℕ → Bool
  is_letter_at none = false
  is_letter_at (some c) = is_ascii_alphabetic c

  unfoldable pub is_drive_designator : Chars → ℕ → Bool
  is_drive_designator chars colon_index =
      if colon_index == 0 || not (is_letter_at (get_elem? chars (colon_index - 1)))
      then false
      else is_boundary_at (two_before chars colon_index)
        && is_boundary_at (get_elem? chars (colon_index + 1))

  -- One round of the loop over the characters: `none` lets the character pass.
  unfoldable pub check_char : {E : Type 0} → Chars → ℕ → ℕ → Option (InputError E)
  unfolding is_drive_designator
  check_char chars index c =
      if is_control c
      then some (control_character c)
      else if c == b'"' || c == b'?' || c == b'*'
      then some (invalid_character c)
      else if c == b':' && not (is_drive_designator chars index)
      then some (colon_outside_drive index)
      else none

  unfoldable pub validate_from : {E : Type 0} → Chars → ℕ → Chars → Option (InputError E)
  validate_from chars index [] = none
  validate_from chars index (c ∷ later) = elim (check_char chars index c) [
    | none ↦ validate_from chars (index + 1) later
    | some e ↦ some e
  ]

  -- The first error, where there is one.
  unfoldable pub validate_query_input : {E : Type 0} → Chars → Option (InputError E)
  unfolding validate_from check_char
  validate_query_input query_input = validate_from query_input 0 query_input

-- `text.split(pred)`: the piece so far, and what the rest splits into.
unfoldable pub split_on : (ℕ → Bool) → Chars → Chars → List Chars
split_on is_border piece [] = piece ∷ []
split_on is_border piece (c ∷ chars) =
    let rest = split_on is_border [] chars in
    let longer = split_on is_border (piece ++ c ∷ []) chars in
    if is_border c then piece ∷ rest else longer

unfoldable pub is_pipe : ℕ → Bool
is_pipe c = c == b'|'

unfoldable pub non_empty : List Chars → List Chars
non_empty [] = []
non_empty (piece ∷ pieces) =
    let rest = non_empty pieces in if length piece == 0 then rest else piece ∷ rest

unfoldable pub group_of : List QueryRule → Option QueryGroup
group_of [] = none
group_of (rule ∷ rules) = some (record { rules = rule ∷ rules })

unfoldable pub push_group : Option QueryGroup → List QueryGroup → List QueryGroup
push_group none groups = groups
push_group (some group) groups = group ∷ groups

-- `map(QueryRule::from_str).collect::<Result<Vec<_>>>()`
module _ {E : Type 0} (rule_of : Chars → Result E QueryRule) where
  unfoldable pub collect_rules : List Chars → Result E (List QueryRule)
  collect_rules [] = ok []
  collect_rules (term ∷ terms) =
      rule_of term >>= λ rule. collect_rules terms >>= λ rules. ok (rule ∷ rules)

  -- `QueryGroup::parse`
  unfoldable pub parse_group : (ℕ → Bool) → Chars → Result E (Option QueryGroup)
  unfolding collect_rules split_on non_empty group_of
  parse_group is_whitespace raw_group =
      if length raw_group == 0
      then ok none
      else if all is_whitespace raw_group
      then (rule_of raw_group >>= λ rule. ok (some (record { rules = rule ∷ [] })))
      else (collect_rules (non_empty (split_on is_whitespace [] raw_group)) >>= λ rules.
          ok (group_of rules))

  -- The groups of the raw groups, in order.
  unfoldable pub parse_groups : (ℕ → Bool) → List Chars → Result E (List QueryGroup)
  unfolding push_group
  parse_groups is_whitespace [] = ok []
  parse_groups is_whitespace (raw_group ∷ raw_groups) =
      parse_group is_whitespace raw_group >>= λ group.
      parse_groups is_whitespace raw_groups >>= λ groups. ok (push_group group groups)

-- `flat_map(|query_input| query_input.split('|'))`
unfoldable pub raw_groups_of : List Chars → List Chars
unfolding split_on is_pipe
raw_groups_of [] = []
raw_groups_of (query_input ∷ query_inputs) =
    split_on is_pipe [] query_input ++ raw_groups_of query_inputs

abbrev pub bad_rules : {A E : Type 0} → Result E A → Result (InputError E) A
bad_rules (ok a) = ok a
bad_rules (err e) = err (bad_rule e)

module _ {E : Type 0} (is_control is_whitespace : ℕ → Bool)
    (rule_of : Chars → Result E QueryRule) where
  unfoldable pub validate_all : List Chars → Option (InputError E)
  validate_all [] = none
  validate_all (query_input ∷ query_inputs) =
      elim (validate_query_input is_control is_whitespace query_input) [
        | none ↦ validate_all query_inputs
        | some e ↦ some e
      ]

  unfoldable pub require_groups : List QueryGroup → Result (InputError E) QueryString
  require_groups [] = err query_required
  require_groups (group ∷ groups) = ok (record { groups = group ∷ groups })

  unfoldable pub parse_valid :
      Option (InputError E) → List Chars → Result (InputError E) QueryString
  parse_valid (some e) query_inputs = err e
  parse_valid none query_inputs =
      bad_rules (parse_groups rule_of is_whitespace (raw_groups_of query_inputs)) >>= require_groups

  unfoldable pub parse_inputs : List Chars → Result (InputError E) QueryString
  unfolding validate_all
  parse_inputs query_inputs = parse_valid (validate_all query_inputs) query_inputs
