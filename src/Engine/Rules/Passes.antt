-- ===== src/Engine/Rules/Passes.antt =====
-- `run_rules` of app/engine/rules/engine.py: the base pass, and the pass over the gated rules.
pub mod Fired
pub mod Preview
pub mod Once
use avvalo.Prelude.{
  String, Bool, true, false, ◌&&◌, ◌||◌, not, List, [], ◌∷◌, Option, none, some, ◌==◌,
  if◌then◌else◌, map, keep, contains, is_disjoint, is_superset, insert, keys, values, is_blank,
  is_empty,
}
use avvalo.Stdlib.{Stdlib}
use avvalo.Engine.Types.{Signal, RuleHit}
use avvalo.Engine.Url.{OfficialDomainCatalog}
use avvalo.Engine.Rules.Pack.{RuleDefinition, RuleRequirement, RulePack, is_gated}
use avvalo.Engine.Rules.Matching.{normalize_text, rule_matches, pattern_matches, all_patterns}
use avvalo.Engine.Rules.Signals.{Signals, no_signals, add_signal, extract_structural_signals}

-- `hits_by_id`, `signals` and `signal_keys`
pub record Pass : Type 0 where
  pub hits_by_id : List (String × RuleHit)
  pub found : Signals

abbrev pub no_pass : Pass
no_pass = record { hits_by_id = []; found = no_signals }

abbrev pub hit_of : RuleDefinition → RuleHit
hit_of rule = record {
  rule_id = rule.id;
  family = rule.family;
  message_key = rule.message_key;
  severity = rule.severity;
}

-- `if rule.emits_signal: _add_signal(…)`
emit : Option String → String → Signals → Signals
emit none family found = found
emit (some kind) family found = if is_blank kind then found else add_signal kind (some family) found

-- `_record_hit`
pub record_hit : RuleDefinition → Pass → Pass
unfolding emit
record_hit rule pass = record {
  hits_by_id = insert rule.id (hit_of rule) pass.hits_by_id;
  found = emit rule.emits_signal rule.family pass.found;
}

-- `_requirements_met`
pub requirements_met : RuleRequirement → List String → List String → Bool
requirements_met requires fired_rule_ids signal_kinds =
    if not (is_empty requires.any_of) && is_disjoint fired_rule_ids requires.any_of
    then false
    else if not (is_superset fired_rule_ids requires.all_of)
    then false
    else is_superset signal_kinds requires.signals

-- The gate of a rule that carries one; a rule without a gate is not asked.
abbrev pub gate_met : Option RuleRequirement → List String → List String → Bool
gate_met none fired kinds = true
gate_met (some requires) fired kinds = requirements_met requires fired kinds

abbrev pub kinds : List Signal → List String
kinds = map (λ signal. signal.kind)

-- `rule.id == ignore_rule_id`
abbrev pub is_ignored : Option String → RuleDefinition → Bool
is_ignored none rule = false
is_ignored (some id) rule = rule.id == id

add_all : List Signal → Signals → Signals
add_all [] found = found
add_all (signal ∷ signals) found = add_all signals (add_signal signal.kind signal.note found)

module _ (py : Stdlib) (catalog : OfficialDomainCatalog) where
  -- The loop of `_base_pass` over the rules.
  pub base_rules : Option String → String → List RuleDefinition → Pass → Pass
  base_rules ignore normalized_text [] pass = pass
  base_rules ignore normalized_text (rule ∷ rules) pass = base_rules ignore normalized_text rules (
      if is_gated rule || is_ignored ignore rule
      then pass
      else if rule_matches py rule normalized_text
      then record_hit rule pass
      else pass)

  -- `_base_pass`
  pub base_pass : RulePack → String → String → Option String → Pass
  unfolding base_rules add_all
  base_pass pack text normalized_text ignore =
      let matched = base_rules ignore normalized_text pack.rules no_pass in
      record matched { found = add_all (extract_structural_signals py catalog text) matched.found }

  -- The loop of `run_rules` over the gated rules.
  pub gated_rules : List String → List String → String → List RuleDefinition → Pass → Pass
  gated_rules fired kinds normalized [] pass = pass
  gated_rules fired kinds normalized (rule ∷ rules) pass =
      gated_rules fired kinds normalized rules (
        if not (gate_met rule.requires fired kinds)
        then pass
        else if rule_matches py rule normalized
        then record_hit rule pass
        else pass)

  -- The dictionary and the signals with which `run_rules` ends.
  pub final_pass : RulePack → String → Pass
  unfolding gated_rules
  final_pass pack text =
      let normalized = normalize_text py text in
      let base = base_pass pack text normalized none in
      gated_rules (keys base.hits_by_id) (kinds base.found.signals) normalized
        (keep is_gated pack.rules) base

  pub run_rules : RulePack → String → List RuleHit × List Signal
  run_rules pack text =
      let pass = final_pass pack text in (values pass.hits_by_id, pass.found.signals)

  -- `_gate_open`
  pub gate_open : RulePack → RuleDefinition → String → String → Bool
  gate_open pack rule text normalized_text =
      let base = base_pass pack text normalized_text (some rule.id) in
      gate_met rule.requires (keys base.hits_by_id) (kinds base.found.signals)

  -- `matching_patterns`
  pub matching_patterns : RulePack → RuleDefinition → String → List String
  unfolding gate_open
  matching_patterns pack rule text =
      let normalized_text = normalize_text py text in
      if not (rule_matches py rule normalized_text)
      then []
      else if not (gate_open pack rule text normalized_text)
      then []
      else keep
          (λ pattern.
            pattern_matches py (normalize_text py pattern) normalized_text rule.match_mode)
          (all_patterns rule.match)
