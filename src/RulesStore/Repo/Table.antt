-- ===== src/RulesStore/Repo/Table.antt =====
-- The operations that write the table `rule_override` keep one row for an id and one for a rule id.
use avvalo.Prelude.{ℕ, false, not, List, ◌≡◌, refl, arith}
use avvalo.Stdlib.{Stdlib}
use avvalo.Raises.Ensures.{Ensures, Ensures-then, Ensures-require}
use avvalo.Overrides.Table.{is_used, is_taken}
use avvalo.Overrides.Table.Unique.{
  IsTable, append-IsTable, is_taken-fresh, replaced-IsTable, keep-IsTable,
}
use avvalo.RulesStore.Draft.{RuleOverrideDraft, normalized}
use avvalo.RulesStore.Repo.{
  RuleOverride, row_of, row_id, row_name, create_override, update_override, delete_override,
}

abbrev pub IsRuleTable : List RuleOverride → Type 0
IsRuleTable = IsTable row_id row_name

pub create_override-IsRuleTable :
    (py : Stdlib) (draft : RuleOverrideDraft) (id now : ℕ) (rows : List RuleOverride)
    → is_used row_id id rows ≡ false
    → IsRuleTable rows
    → Ensures IsRuleTable (create_override py draft id now rows)
unfolding create_override
create_override-IsRuleTable py draft id now rows u t =
    Ensures-then (normalized py draft) _ λ values.
      Ensures-require (not (is_taken row_id row_name id values.rule_id rows)) _ _ λ h.
        Ensures.returns (
          append-IsTable row_id row_name rows (row_of values id now now) t u
            (ground (arith, is_taken-fresh row_id row_name id values.rule_id rows u)))

pub update_override-IsRuleTable :
    (py : Stdlib) (draft : RuleOverrideDraft) (id now : ℕ) (rows : List RuleOverride)
    → IsRuleTable rows
    → Ensures IsRuleTable (update_override py draft id now rows)
unfolding update_override
update_override-IsRuleTable py draft id now rows t = Ensures-then (normalized py draft) _ λ values.
    Ensures-require (not (is_taken row_id row_name id values.rule_id rows)) _ _ λ h.
      Ensures.returns (
        replaced-IsTable row_id row_name
          (λ (row : RuleOverride). row_of values row.id row.created_ts now) values.rule_id
          (λ row. refl) (λ row. refl) id rows t (ground arith))

pub delete_override-IsRuleTable :
    (id : ℕ) (rows : List RuleOverride) → IsRuleTable rows → IsRuleTable (delete_override id rows)
delete_override-IsRuleTable id rows t = keep-IsTable row_id row_name _ rows t
