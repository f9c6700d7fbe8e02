-- ===== src/RulesStore/Merge/Overlay.antt =====
-- Which rule the merged pack holds under an id.
use avvalo.Prelude.{String, List, [], ◌∷◌, ◌≡◌, refl, ap, ◌∙◌, arith, Distinct}
use avvalo.Raises.{ok}
use avvalo.Raises.Ensures.{Ensures, Ensures-ok}
use avvalo.Engine.Rules.Pack.{RuleDefinition, RulePack, id_of_rule, find_rule, ids}
use avvalo.Engine.Rules.Loader.Sound.{IsPack, make_pack-IsPack, make_pack_rules}
use avvalo.Overrides.Merge.{find, merged_entries}
use avvalo.Overrides.Merge.Ids.{merged_entries-Distinct}
use avvalo.Overrides.Merge.Found.{entry_in_force, find-merged_entries}
use avvalo.RulesStore.Merge.{merge_rule_pack}

pub find_rule-eq-find :
    (id : String) (rules : List RuleDefinition) → find_rule id rules ≡ find id_of_rule id rules
unfolding find_rule
find_rule-eq-find id [] = refl
find_rule-eq-find id (rule ∷ rules) = ground (arith, find_rule-eq-find id rules)

-- A merge with a base of distinct ids gives a pack that the rules engine can rely on.
pub merge_rule_pack-IsPack :
    (base : RulePack) (overrides : List RuleDefinition) (disabled : List String)
    → Distinct (ids base.rules)
    → Ensures IsPack (merge_rule_pack base overrides disabled)
unfolding merge_rule_pack
merge_rule_pack-IsPack base overrides disabled d =
    make_pack-IsPack _ (merged_entries-Distinct id_of_rule base.rules overrides disabled d)

-- Under every id, a merged pack holds the rule that the overlay names.
pub merge_rule_pack_lem :
    (base pack : RulePack) (overrides : List RuleDefinition) (disabled : List String) (id : String)
    → Distinct (ids overrides)
    → merge_rule_pack base overrides disabled ≡ ok pack
    → find_rule id pack.rules ≡ entry_in_force id_of_rule id base.rules overrides disabled
unfolding merge_rule_pack
merge_rule_pack_lem base pack overrides disabled id d h =
    find_rule-eq-find id pack.rules
    ∙ ap (find id_of_rule id) (
        Ensures-ok _ pack
          (make_pack_rules (merged_entries id_of_rule base.rules overrides disabled)) h)
    ∙ find-merged_entries id_of_rule id base.rules overrides disabled d
