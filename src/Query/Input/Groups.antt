-- ===== src/Query/Input/Groups.antt =====
-- What parsing the inputs of the command line gives.
use teamy_mft.Common.{
  ℕ, ◌<◌, ◌≡◌, refl, ap, Bool, Option, none, some, List, [], ◌∷◌, ◌++◌, ◌==◌, length, arith, All,
  Bool-cases, inl, inr,
}
use mathlib.Core.List.{append_assoc}
use teamy_mft.Common.Result.{Result, ok, err, ◌>>=◌}
use teamy_mft.Query.Rule.{QueryRule}
use teamy_mft.Query.Group.{QueryGroup, QueryString, all}
use teamy_mft.Query.Input.{
  Chars, InputError, split_on, is_pipe, group_of, collect_rules, parse_group, push_group,
  parse_groups, raw_groups_of, validate_all, parse_valid, parse_inputs, bad_rules, require_groups,
  non_empty,
}

-- A pipe inside a text splits it as the two texts around it are split.
split_on-pipe :
    (piece x y : Chars)
    → split_on is_pipe piece (x ++ (b'|' ∷ y)) ≡ split_on is_pipe piece x ++ split_on is_pipe [] y
unfolding split_on is_pipe
split_on-pipe piece [] y = refl
split_on-pipe piece (c ∷ x) y = elim (Bool-cases (c == b'|')) [
  | inl pipe ↦ rw pipe (ap (λ t. piece ∷ t) (split_on-pipe [] x y))
  | inr other ↦ rw other (split_on-pipe (piece ++ c ∷ []) x y)
]

raw_groups_of-pipe :
    (x y : Chars) (query_inputs : List Chars)
    → raw_groups_of ((x ++ (b'|' ∷ y)) ∷ query_inputs) ≡ raw_groups_of (x ∷ y ∷ query_inputs)
unfolding raw_groups_of
raw_groups_of-pipe x y query_inputs =
    rw (split_on-pipe [] x y) (append_assoc (split_on is_pipe [] x) _ _)

module _ {E : Type 0} (is_control is_whitespace : ℕ → Bool)
    (rule_of : Chars → Result E QueryRule) where
  -- Where the inputs pass validation, a `|` inside an input means the same as giving the parts on
  -- its two sides as inputs of their own: the same groups, or the same error.
  pub parse_inputs-pipe :
      (x y : Chars) (query_inputs : List Chars)
      → validate_all {E = E} is_control is_whitespace rule_of ((x ++ (b'|' ∷ y)) ∷ query_inputs)
        ≡ none
      → validate_all {E = E} is_control is_whitespace rule_of (x ∷ y ∷ query_inputs) ≡ none
      → parse_inputs is_control is_whitespace rule_of ((x ++ (b'|' ∷ y)) ∷ query_inputs)
        ≡ parse_inputs is_control is_whitespace rule_of (x ∷ y ∷ query_inputs)
  unfolding parse_inputs parse_valid
  parse_inputs-pipe x y query_inputs joined apart =
      rw (joined, apart)
        (ap
          (λ raw.
            bad_rules (parse_groups rule_of is_whitespace raw)
            >>= require_groups is_control is_whitespace rule_of)
          (raw_groups_of-pipe x y query_inputs))

abbrev pub HasRules : QueryGroup → Type 0
HasRules group = 0 < length group.rules

one_rule-HasRules :
    {E : Type 0} (r : Result E QueryRule) (group : QueryGroup)
    → (r >>= λ rule. ok (some (record { rules = rule ∷ [] }))) ≡ ok (some group)
    → HasRules group
one_rule-HasRules (err e) group h = cc
one_rule-HasRules (ok rule) group h = ground (arith, h)

group_of-HasRules :
    {E : Type 0} (r : Result E (List QueryRule)) (group : QueryGroup)
    → (r >>= λ rules. ok (group_of rules)) ≡ ok (some group)
    → HasRules group
unfolding group_of
group_of-HasRules (err e) group h = cc
group_of-HasRules (ok []) group h = cc
group_of-HasRules (ok (rule ∷ rules)) group h = ground (arith, h)

push_group-HasRules :
    {E : Type 0} (r : Result E (Option QueryGroup)) (rs : Result E (List QueryGroup))
    (groups : List QueryGroup)
    → ((group : QueryGroup) → r ≡ ok (some group) → HasRules group)
    → ((later : List QueryGroup) → rs ≡ ok later → All HasRules later)
    → (r >>= λ group. rs >>= λ later. ok (push_group group later)) ≡ ok groups
    → All HasRules groups
unfolding push_group
push_group-HasRules (err e) rs groups h k q = cc
push_group-HasRules (ok o) (err e) groups h k q = cc
push_group-HasRules (ok none) (ok later) groups h k q = k groups q
push_group-HasRules (ok (some group)) (ok later) groups h k q =
    let e : group ∷ later ≡ groups = cc in rw (← e) (h group refl, k later refl)

module _ {E : Type 0} (is_whitespace : ℕ → Bool) (rule_of : Chars → Result E QueryRule) where
  parse_group-HasRules :
      (raw : Chars) (group : QueryGroup)
      → parse_group rule_of is_whitespace raw ≡ ok (some group)
      → HasRules group
  unfolding parse_group
  parse_group-HasRules raw group h = elim (Bool-cases (length raw == 0)) [
    | inl empty ↦ ground (arith, h, empty)
    | inr some_text ↦ elim (Bool-cases (all is_whitespace raw)) [
      | inl blank ↦ one_rule-HasRules (rule_of raw) group (rw (some_text, blank) at h)
      | inr terms ↦
          group_of-HasRules (collect_rules rule_of (non_empty (split_on is_whitespace [] raw)))
            group (rw (some_text, terms) at h)
    ]
  ]

  parse_groups-HasRules :
      (raws : List Chars) (groups : List QueryGroup)
      → parse_groups rule_of is_whitespace raws ≡ ok groups
      → All HasRules groups
  unfolding parse_groups
  parse_groups-HasRules [] groups h = let e : [] ≡ groups = cc in rw (← e) tt
  parse_groups-HasRules (raw ∷ raws) groups h =
      push_group-HasRules (parse_group rule_of is_whitespace raw)
        (parse_groups rule_of is_whitespace raws) groups (parse_group-HasRules raw)
        (parse_groups-HasRules raws) h

  require_groups-HasRules :
      (is_control : ℕ → Bool) (r : Result E (List QueryGroup)) (query : QueryString)
      → ((groups : List QueryGroup) → r ≡ ok groups → All HasRules groups)
      → (bad_rules r >>= require_groups is_control is_whitespace rule_of) ≡ ok query
      → (0 < length query.groups) × All HasRules query.groups
  unfolding require_groups
  require_groups-HasRules is_control (err e) query h q = cc
  require_groups-HasRules is_control (ok []) query h q = cc
  require_groups-HasRules is_control (ok (group ∷ groups)) query h q =
      let e : (record { groups = group ∷ groups }) ≡ query = cc in
      rw (← e) (omega arith, h (group ∷ groups) refl)

  parse_valid-HasRules :
      (is_control : ℕ → Bool) (o : Option (InputError E)) (query_inputs : List Chars)
      (query : QueryString)
      → parse_valid is_control is_whitespace rule_of o query_inputs ≡ ok query
      → (0 < length query.groups) × All HasRules query.groups
  unfolding parse_valid
  parse_valid-HasRules is_control (some e) query_inputs query q = cc
  parse_valid-HasRules is_control none query_inputs query q =
      require_groups-HasRules is_control
        (parse_groups rule_of is_whitespace (raw_groups_of query_inputs)) query
        (parse_groups-HasRules (raw_groups_of query_inputs)) q

  -- A query that is parsed has a group at least, and each of its groups has a rule at least.
  pub parse_inputs-HasRules :
      (is_control : ℕ → Bool) (query_inputs : List Chars) (query : QueryString)
      → parse_inputs is_control is_whitespace rule_of query_inputs ≡ ok query
      → (0 < length query.groups) × All HasRules query.groups
  unfolding parse_inputs
  parse_inputs-HasRules is_control query_inputs query q =
      parse_valid-HasRules is_control (validate_all is_control is_whitespace rule_of query_inputs)
        query_inputs query q
