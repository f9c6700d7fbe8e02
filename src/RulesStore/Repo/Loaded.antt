-- ===== src/RulesStore/Repo/Loaded.antt =====
-- What the rows of `rule_override` say of a rule id.
use avvalo.Prelude.{String, List, [], ◌∷◌, Option, none, some, ◌≡◌, refl, arith, if◌then◌else◌}
use avvalo.Stdlib.{Stdlib}
use avvalo.Raises.{Raises, ok, raised}
use avvalo.Raises.Ensures.{Ensures, Ensures-then, Ensures-require, Ensures-ok}
use avvalo.Engine.Rules.Pack.{RuleDefinition, id_of_rule}
use avvalo.Engine.Rules.Loader.{has_entries}
use avvalo.Overrides.Table.{row_named}
use avvalo.Overrides.Collected.{in_force, reading, IsAbout, AreAbout}
use avvalo.RulesStore.Draft.{
  validate_patterns, validate_exclude, validate_match_mode, validate_requires,
}
use avvalo.RulesStore.Repo.{RuleOverride, row_name, definition_of, read_result, reading_of}

-- The row of a rule id
abbrev pub row_of_rule : String → List RuleOverride → Option RuleOverride
row_of_rule = row_named row_name

definition_of_id :
    (py : Stdlib) (row : RuleOverride)
    → Ensures (λ rule. rule.id ≡ row.rule_id) (definition_of py row)
unfolding definition_of
definition_of_id py row = Ensures-then (validate_patterns py row.patterns) _ λ patterns.
    Ensures-then (validate_exclude py row.exclude) _ λ exclude.
      Ensures-then (validate_match_mode py row.match_mode) _ λ match_mode.
        Ensures-then (validate_requires py row.requires) _
          λ requires. Ensures-require (has_entries patterns) _ _ λ h. Ensures.returns refl

read_result-IsAbout :
    (py : Stdlib) (id : String) (result : Raises RuleDefinition)
    → Ensures (λ rule. rule.id ≡ id) result
    → IsAbout id_of_rule id (read_result py result)
read_result-IsAbout py id (ok rule) e = Ensures-ok _ rule e refl
read_result-IsAbout py id (raised error) e = tt

reading_of-IsAbout :
    (py : Stdlib) (row : RuleOverride) → IsAbout id_of_rule row.rule_id (reading_of py row)
unfolding reading_of
reading_of-IsAbout py row =
    ground
      (arith, read_result-IsAbout py row.rule_id (definition_of py row) (definition_of_id py row))

pub rows-AreAbout :
    (py : Stdlib) (rows : List RuleOverride) → AreAbout id_of_rule row_name (reading_of py) rows
rows-AreAbout py [] = tt
rows-AreAbout py (row ∷ rows) = (reading_of-IsAbout py row, rows-AreAbout py rows)

abbrev pub or_shipped : Raises RuleDefinition → Option RuleDefinition → Option RuleDefinition
or_shipped (raised error) shipped = shipped
or_shipped (ok rule) shipped = some rule

-- The specification: the row of a rule id decides, and without a row, or with one that does not
-- validate, the shipped rule stays.
abbrev pub rule_by_row :
    Stdlib → Option RuleOverride → Option RuleDefinition → Option RuleDefinition
rule_by_row py none shipped = shipped
rule_by_row py (some row) shipped =
    if row.disabled then none else or_shipped (definition_of py row) shipped

in_force-read_result :
    (py : Stdlib) (result : Raises RuleDefinition) (shipped : Option RuleDefinition)
    → in_force (some (read_result py result)) shipped ≡ or_shipped result shipped
in_force-read_result py (ok rule) shipped = refl
in_force-read_result py (raised error) shipped = refl

pub in_force-rule_by_row :
    (py : Stdlib) (row : Option RuleOverride) (shipped : Option RuleDefinition)
    → in_force (reading (reading_of py) row) shipped ≡ rule_by_row py row shipped
unfolding reading_of
in_force-rule_by_row py none shipped = refl
in_force-rule_by_row py (some row) shipped =
    ground (arith, in_force-read_result py (definition_of py row) shipped)
