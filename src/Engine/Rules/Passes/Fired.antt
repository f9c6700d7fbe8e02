-- ===== src/Engine/Rules/Passes/Fired.antt =====
-- Which rules `run_rules` reports: the passes as predicates over the pack.
use avvalo.Prelude.{
  String, Bool, false, ◌&&◌, ◌||◌, not, List, [], ◌∷◌, Option, some, ◌==◌, eq_iff, ◌≡◌, refl, arith,
  any, keep, contains, keys, contains-insert, Distinct,
}
use avvalo.Stdlib.{Stdlib}
use avvalo.Engine.Url.{OfficialDomainCatalog}
use avvalo.Engine.Rules.Pack.{RuleDefinition, is_gated, ids, find_rule}
use avvalo.Engine.Rules.Matching.{rule_matches}
use avvalo.Engine.Rules.Passes.{
  Pass, hit_of, record_hit, gate_met, is_ignored, base_rules, gated_rules,
}

module _ (p : RuleDefinition → Bool) where
  any_id_absent :
      (id : String) (rules : List RuleDefinition)
      → contains id (ids rules) ≡ false
      → any (λ r. p r && (r.id == id)) rules ≡ false
  any_id_absent id [] h = refl
  any_id_absent id (r ∷ rules) h = ground (arith, any_id_absent id rules)

  -- Where no id stands twice, a rule of the pack is the only one that can speak for its id.
  pub any_id :
      (id : String) (rule : RuleDefinition) (rules : List RuleDefinition)
      → Distinct (ids rules)
      → find_rule id rules ≡ some rule
      → any (λ r. p r && (r.id == id)) rules ≡ p rule
  unfolding find_rule
  any_id id rule [] d h = cc
  any_id id rule (r ∷ rules) d h =
      ground (arith, eq_iff r.id id, any_id_absent id rules, any_id id rule rules)

module _ (py : Stdlib) where
  -- A rule fires in the base pass.
  abbrev pub base_fires : Option String → String → RuleDefinition → Bool
  base_fires ignore normalized r =
      not (is_gated r || is_ignored ignore r) && rule_matches py r normalized

  -- A gated rule fires in the second pass.
  abbrev pub gated_fires : List String → List String → String → RuleDefinition → Bool
  gated_fires fired signal_kinds normalized r =
      is_gated r && (gate_met r.requires fired signal_kinds && rule_matches py r normalized)

module _ (py : Stdlib) (catalog : OfficialDomainCatalog) where
  pub contains-base_rules :
      (ignore : Option String) (normalized id : String) (rules : List RuleDefinition) (pass : Pass)
      → contains id (keys (base_rules py catalog ignore normalized rules pass).hits_by_id) ≡ (
          contains id (keys pass.hits_by_id)
          || any (λ r. base_fires py ignore normalized r && (r.id == id)) rules)
  unfolding base_rules record_hit
  contains-base_rules ignore normalized id [] pass = ground arith
  contains-base_rules ignore normalized id (r ∷ rules) pass = ground (
    arith,
    contains-insert r.id id (hit_of r) pass.hits_by_id,
    contains-base_rules ignore normalized id rules pass,
    contains-base_rules ignore normalized id rules (record_hit r pass),
  )

  pub contains-gated_rules :
      (fired signal_kinds : List String) (normalized id : String) (rules : List RuleDefinition)
      (pass : Pass)
      → contains id (
          keys
            (gated_rules py catalog fired signal_kinds normalized
              (keep is_gated rules)
              pass).hits_by_id)
        ≡ (contains id (keys pass.hits_by_id)
            || any (λ r. gated_fires py fired signal_kinds normalized r && (r.id == id)) rules)
  unfolding gated_rules record_hit
  contains-gated_rules fired signal_kinds normalized id [] pass = ground arith
  contains-gated_rules fired signal_kinds normalized id (r ∷ rules) pass = ground (
    arith,
    contains-insert r.id id (hit_of r) pass.hits_by_id,
    contains-gated_rules fired signal_kinds normalized id rules pass,
    contains-gated_rules fired signal_kinds normalized id rules (record_hit r pass),
  )
