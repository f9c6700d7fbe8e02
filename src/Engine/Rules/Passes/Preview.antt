-- ===== src/Engine/Rules/Passes/Preview.antt =====
-- Which rules `run_rules` reports, and that the operator's dry run agrees with it.
use avvalo.Prelude.{
  String, true, false, ◌&&◌, not, List, [], ◌∷◌, Option, none, some, ◌==◌, eq_iff, ◌≡◌, refl, ◌∙◌,
  ap, arith, any, keep, contains, insert, keys, values, is_empty-keep, is_empty, Distinct, map,
  is_some, Option-cases, inl, inr, Bool-cases,
}
use avvalo.Stdlib.{Stdlib}
use avvalo.Engine.Types.{RuleHit}
use avvalo.Engine.Url.{OfficialDomainCatalog}
use avvalo.Engine.Rules.Pack.{RuleDefinition, RulePack, is_gated, ids, find_rule}
use avvalo.Engine.Rules.Matching.{
  normalize_text, rule_matches, rule_matches-any, pattern_matches, all_patterns,
}
use avvalo.Engine.Rules.Passes.{
  Pass, no_pass, hit_of, record_hit, gate_met, kinds, base_rules, base_pass, gated_rules,
  final_pass, run_rules, gate_open, matching_patterns,
}
use avvalo.Engine.Rules.Passes.Fired.{
  base_fires, gated_fires, any_id, contains-base_rules, contains-gated_rules,
}

-- The ids that `run_rules` reports.
abbrev pub hit_ids : List RuleHit → List String
hit_ids = map (λ hit. hit.rule_id)

-- Every hit stands under its own id.
abbrev IsKeyed : List (String × RuleHit) → Type 0
IsKeyed hits = hit_ids (values hits) ≡ keys hits

insert-IsKeyed :
    (r : RuleDefinition) (hits : List (String × RuleHit))
    → IsKeyed hits
    → IsKeyed (insert r.id (hit_of r) hits)
insert-IsKeyed r [] h = refl
insert-IsKeyed r ((k, hit) ∷ hits) h = ground (arith, eq_iff k r.id, insert-IsKeyed r hits)

find_rule-id :
    (id : String) (rule : RuleDefinition) (rules : List RuleDefinition)
    → find_rule id rules ≡ some rule
    → rule.id ≡ id
unfolding find_rule
find_rule-id id rule [] h = cc
find_rule-id id rule (r ∷ rules) h = ground (arith, eq_iff r.id id, find_rule-id id rule rules)

module _ (py : Stdlib) (catalog : OfficialDomainCatalog) where
  base_rules-IsKeyed :
      (ignore : Option String) (normalized : String) (rules : List RuleDefinition) (pass : Pass)
      → IsKeyed pass.hits_by_id
      → IsKeyed (base_rules py catalog ignore normalized rules pass).hits_by_id
  unfolding base_rules record_hit
  base_rules-IsKeyed ignore normalized [] pass h = h
  base_rules-IsKeyed ignore normalized (r ∷ rules) pass h = ground (
    arith,
    insert-IsKeyed r pass.hits_by_id,
    base_rules-IsKeyed ignore normalized rules pass,
    base_rules-IsKeyed ignore normalized rules (record_hit r pass),
  )

  gated_rules-IsKeyed :
      (fired signal_kinds : List String) (normalized : String) (rules : List RuleDefinition)
      (pass : Pass)
      → IsKeyed pass.hits_by_id
      → IsKeyed (gated_rules py catalog fired signal_kinds normalized rules pass).hits_by_id
  unfolding gated_rules record_hit
  gated_rules-IsKeyed fired signal_kinds normalized [] pass h = h
  gated_rules-IsKeyed fired signal_kinds normalized (r ∷ rules) pass h = ground (
    arith,
    insert-IsKeyed r pass.hits_by_id,
    gated_rules-IsKeyed fired signal_kinds normalized rules pass,
    gated_rules-IsKeyed fired signal_kinds normalized rules (record_hit r pass),
  )

  -- Leaving out an id that no ungated rule has changes nothing.
  base_rules_ignore :
      (id normalized : String) (rules : List RuleDefinition) (pass : Pass)
      → any (λ r. not (is_gated r) && (r.id == id)) rules ≡ false
      → base_rules py catalog (some id) normalized rules pass
        ≡ base_rules py catalog none normalized rules pass
  unfolding base_rules
  base_rules_ignore id normalized [] pass h = refl
  base_rules_ignore id normalized (r ∷ rules) pass h = ground (
    arith,
    base_rules_ignore id normalized rules pass,
    base_rules_ignore id normalized rules (record_hit r pass),
  )

  module _ (pack : RulePack) (text : String) where
    abbrev normalized : String
    normalized = normalize_text py text

    abbrev pub base : Pass
    base = base_pass py catalog pack text (normalize_text py text) none

    pub hit_ids-run_rules :
        hit_ids (run_rules py catalog pack text).0
        ≡ keys (final_pass py catalog pack text).hits_by_id
    unfolding run_rules final_pass base_pass
    hit_ids-run_rules =
        gated_rules-IsKeyed (keys base.hits_by_id) (kinds base.found.signals) normalized
          (keep is_gated pack.rules) base
          (base_rules-IsKeyed none normalized pack.rules no_pass refl)

    module _ (id : String) (rule : RuleDefinition) (distinct : Distinct (ids pack.rules))
        (found : find_rule id pack.rules ≡ some rule) where
      -- A rule of the pack is reported exactly when it matches the normalized text, exclusions
      -- applied, and the hits and signals of the base pass meet its gate, if it has one.
      pub run_rules_fires : contains id (hit_ids (run_rules py catalog pack text).0) ≡ (
          rule_matches py rule (normalize_text py text)
          && gate_met rule.requires (keys base.hits_by_id) (kinds base.found.signals))
      unfolding final_pass base_pass
      run_rules_fires = rw hit_ids-run_rules (
          ground (
            arith,
            contains-gated_rules py catalog (keys base.hits_by_id) (kinds base.found.signals)
                normalized id pack.rules base,
            any_id (gated_fires py (keys base.hits_by_id) (kinds base.found.signals) normalized) id
                rule pack.rules distinct found,
            contains-base_rules py catalog none normalized id pack.rules no_pass,
            any_id (base_fires py none normalized) id rule pack.rules distinct found,
          ))

      -- The base pass without the rule itself is the whole base pass, where the rule has a gate.
      base_pass_ignore :
          is_gated rule ≡ true
          → base_pass py catalog pack text (normalize_text py text) (some id) ≡ base
      unfolding base_pass
      base_pass_ignore gated =
          let same : base_rules py catalog (some id) normalized pack.rules no_pass
              ≡ base_rules py catalog none normalized pack.rules no_pass =
            base_rules_ignore id normalized pack.rules no_pass
              (any_id (λ r. not (is_gated r)) id rule pack.rules distinct found ∙ ap not gated) in
          rw same

      gate_open-eq :
          gate_open py catalog pack rule text (normalize_text py text)
          ≡ gate_met rule.requires (keys base.hits_by_id) (kinds base.found.signals)
      unfolding gate_open
      gate_open-eq = elim (Bool-cases (is_gated rule)) [
        | inl gated ↦ rw (find_rule-id id rule pack.rules found, base_pass_ignore gated)
        | inr free ↦ elim (Option-cases rule.requires) [
          | inl none_there ↦ rw none_there
          | inr (q, there) ↦ absurd (cc (ap is_some there))
        ]
      ]

      -- The operator's dry run finds some pattern of a rule exactly when production reports the rule.
      pub matching_patterns-run_rules :
          is_empty (matching_patterns py catalog pack rule text)
          ≡ not (contains id (hit_ids (run_rules py catalog pack text).0))
      unfolding matching_patterns
      matching_patterns-run_rules =
          rw (run_rules_fires, gate_open-eq)
            (ground (
              arith,
              rule_matches-any py rule normalized,
              is_empty-keep
                  (λ pattern.
                    pattern_matches py (normalize_text py pattern) normalized rule.match_mode)
                  (all_patterns rule.match),
            ))
