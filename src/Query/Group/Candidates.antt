-- ===== src/Query/Group/Candidates.antt =====
-- The candidate rows of a query, from a lookup that gives the rows of one rule.
use teamy_mft.Common.{
  ℕ, ◌<◌, ◌≡◌, refl, sym, ◌∙◌, Bool, true, false, ◌&&◌, ◌||◌, List, [], ◌∷◌, ◌++◌, All, arith,
  Bool-cases, inl, inr, All-append,
}
use teamy_mft.Common.Result.{Result, ok}
use teamy_mft.Common.Sorted.{
  contains, sort, dedup, contains-append, contains-sort, contains-dedup, sort-IsOrdered,
  dedup-IsSorted, All-of_contains,
}
use teamy_mft.Query.Needle.{any}
use teamy_mft.Query.Rows
use teamy_mft.Query.Rows.{MatchingRowIndices, intersect}
use teamy_mft.Query.Rows.Sets.{selects, IsValid, intersect-selects, is_empty_iff, contains-lt}
use teamy_mft.Query.Rule.{QueryRule}
use teamy_mft.Query.Group.{
  QueryGroup, QueryString, all, intersect_rules, group_candidates, query_candidates_from,
  matching_row_index_candidates,
}

-- The result is a valid selection over `n` rows, of exactly the rows that pass the test.
abbrev pub Selects : {E : Type 0} → ℕ → Result E MatchingRowIndices → (ℕ → Bool) → Type 0
Selects n result test =
    (rows : MatchingRowIndices) × (result ≡ ok rows)
    × IsValid n rows
    × ((x : ℕ) → selects rows x ≡ test x)

-- A group without rules selects nothing; the others AND their rules.
abbrev pub group_selects : (QueryRule → ℕ → Bool) → List QueryRule → ℕ → Bool
group_selects sem [] x = false
group_selects sem (rule ∷ rules) x = sem rule x && all (λ r. sem r x) rules

selects-lt :
    (n : ℕ) (rows : MatchingRowIndices) (x : ℕ) → IsValid n rows → selects rows x ≡ true → x < n
selects-lt n (Rows.match_all row_count) x valid h = ground (arith, valid)
selects-lt n (Rows.row_indices ids) x valid h = contains-lt n ids x valid.1 h

module _ {E : Type 0} (row_indices_for_rule : QueryRule → Result E MatchingRowIndices) (n : ℕ)
    (sem : QueryRule → ℕ → Bool)
    (looks_up : (rule : QueryRule) → Selects n (row_indices_for_rule rule) (sem rule)) where
  intersect_rules-Selects :
      (rules : List QueryRule) (found : MatchingRowIndices)
      → IsValid n found
      → Selects n
          (intersect_rules row_indices_for_rule rules found)
          (λ x. selects found x && all (λ r. sem r x) rules)
  unfolding intersect_rules all
  intersect_rules-Selects [] found valid = (found, refl, valid, λ x. ground arith)
  intersect_rules-Selects (rule ∷ rules) found valid =
      let (rows, got, rows_valid, rows_select) = looks_up rule in
      let (narrowed_valid, narrowed_select) = intersect-selects n found rows valid rows_valid in
      elim (Bool-cases (Rows.is_empty (intersect found rows))) [
        | inl nothing ↦ (
          intersect found rows,
          rw (got, nothing),
          narrowed_valid,
          λ x. ground (
            arith,
            (is_empty_iff (intersect found rows)).0 nothing x,
            narrowed_select x,
            rows_select x,
          ),
        )
        | inr something ↦
            let (m, e, m_valid, m_select) =
              intersect_rules-Selects rules (intersect found rows) narrowed_valid in
            (
              m,
              rw (got, something) e,
              m_valid,
              λ x. ground (arith, m_select x, narrowed_select x, rows_select x),
            )
      ]

  group_candidates-Selects :
      (rules : List QueryRule)
      → Selects n (group_candidates row_indices_for_rule rules) (group_selects sem rules)
  unfolding group_candidates
  group_candidates-Selects [] = (Rows.row_indices [], refl, (tt, tt), λ x. refl)
  group_candidates-Selects (first ∷ remaining) =
      let (rows, got, rows_valid, rows_select) = looks_up first in
      let (m, e, m_valid, m_select) = intersect_rules-Selects remaining rows rows_valid in
      (m, rw got e, m_valid, λ x. ground (arith, m_select x, rows_select x))

  group_selects-lt : (rules : List QueryRule) (x : ℕ) → group_selects sem rules x ≡ true → x < n
  group_selects-lt rules x h =
      let (rows, got, valid, select) = group_candidates-Selects rules in
      selects-lt n rows x valid (select x ∙ h)

  any-group_selects-lt :
      (groups : List QueryGroup) (x : ℕ)
      → any (λ g. group_selects sem g.rules x) groups ≡ true
      → x < n
  unfolding any
  any-group_selects-lt [] x h = cc
  any-group_selects-lt (group ∷ groups) x h = elim (Bool-cases (group_selects sem group.rules x)) [
    | inl here ↦ group_selects-lt group.rules x here
    | inr there ↦ any-group_selects-lt groups x (ground arith)
  ]

  -- The loop over the groups, by what the first group's candidates are.
  query_from-Selects :
      (groups : List QueryGroup) (found : List ℕ)
      → All (λ y. y < n) found
      → Selects n
          (query_candidates_from row_indices_for_rule groups found)
          (λ x. contains found x || any (λ g. group_selects sem g.rules x) groups)
  unfolding query_candidates_from any
  query_from-Selects [] found below = (
    Rows.row_indices (dedup (sort found)),
    refl,
    (
      dedup-IsSorted (sort found) (sort-IsOrdered found),
      All-of_contains n (dedup (sort found)) (λ x e.
          contains-lt n found x below
            (sym (contains-dedup (sort found) x ∙ contains-sort found x) ∙ e)),
    ),
    λ x. ground (arith, contains-dedup (sort found) x, contains-sort found x),
  )
  query_from-Selects (group ∷ groups) found below =
      step (group_candidates-Selects group.rules) (λ ids valid.
        query_from-Selects groups (found ++ ids) (All-append _ found ids below valid.1))
    where
      step :
          Selects n
            (group_candidates row_indices_for_rule group.rules)
            (group_selects sem group.rules)
          → ((ids : List ℕ)
              → IsValid n (Rows.row_indices ids)
              → Selects n
                  (query_candidates_from row_indices_for_rule groups (found ++ ids))
                  (λ x. contains (found ++ ids) x || any (λ g. group_selects sem g.rules x) groups))
          → Selects n
              (query_candidates_from row_indices_for_rule (group ∷ groups) found)
              (λ x. contains found x || any (λ g. group_selects sem g.rules x) (group ∷ groups))
      step (Rows.match_all row_count, got, valid, select) later = (
        Rows.match_all row_count,
        rw got,
        valid,
        λ x.
            ground
              (arith, select x, valid, contains-lt n found x below, any-group_selects-lt groups x),
      )
      step (Rows.row_indices ids, got, valid, select) later =
          let (m, e, m_valid, m_select) = later ids valid in
          (
            m,
            rw got e,
            m_valid,
            λ x. ground (arith, select x, m_select x, contains-append found ids x),
          )

  -- Where the lookup of each rule gives a valid selection of the rule's rows, the candidates of a
  -- query are a valid selection of the rows that all rules of one of its groups select, where a
  -- group without rules selects none: stopping early changes nothing.
  pub candidates-Selects :
      (query : QueryString)
      → Selects n
          (matching_row_index_candidates row_indices_for_rule query)
          (λ x. any (λ g. group_selects sem g.rules x) query.groups)
  unfolding matching_row_index_candidates
  candidates-Selects query = query_from-Selects query.groups [] tt
