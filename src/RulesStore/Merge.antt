-- ===== src/RulesStore/Merge.antt =====
-- `merge_rule_pack` and `preview_rule` of app/rules_store/apply.py.
pub mod Overlay
use avvalo.Prelude.{String, List}
use avvalo.Stdlib.{Stdlib}
use avvalo.Raises.{Raises, ok, ◌>>=◌}
use avvalo.Engine.Url.{OfficialDomainCatalog}
use avvalo.Engine.Rules.Pack.{RuleDefinition, RulePack, id_of_rule}
use avvalo.Engine.Rules.Loader.{make_pack, from_mapping}
use avvalo.Engine.Rules.Passes.{matching_patterns}
use avvalo.Overrides.Merge.{merged_entries}
use avvalo.RulesStore.Draft.{RuleOverrideDraft, normalized}
use avvalo.RulesStore.Repo.{requirement_groups}

unfoldable pub merge_rule_pack : RulePack → List RuleDefinition → List String → Raises RulePack
merge_rule_pack base overrides disabled =
    make_pack (merged_entries id_of_rule base.rules overrides disabled)

-- `preview_rule`: the patterns of a draft that would fire on the sample, with the pack in force.
preview_rule :
    Stdlib → OfficialDomainCatalog → RulePack → RuleOverrideDraft → String → Raises (List String)
preview_rule py catalog pack draft sample = do
  values ← normalized py draft
  let rule : RuleDefinition = record {
    id = values.rule_id;
    family = values.family;
    desc = values.description;
    message_key = values.message_key;
    severity = values.severity;
    match = values.patterns;
    emits_signal = values.emits_signal;
    exclude = values.exclude;
    match_mode = values.match_mode;
    requires = from_mapping (requirement_groups values.requires);
  }
  ok (matching_patterns py catalog pack rule sample)
