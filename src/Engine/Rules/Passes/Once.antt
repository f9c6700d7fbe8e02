-- ===== src/Engine/Rules/Passes/Once.antt =====
-- What the hits of `run_rules` look like.
use avvalo.Prelude.{
  String, List, [], ◌∷◌, Option, none, arith, keep, keys, insert-Distinct, Distinct,
}
use avvalo.Stdlib.{Stdlib}
use avvalo.Engine.Url.{OfficialDomainCatalog}
use avvalo.Engine.Rules.Pack.{RuleDefinition, RulePack, is_gated}
use avvalo.Engine.Rules.Matching.{normalize_text}
use avvalo.Engine.Rules.Passes.{
  Pass, no_pass, hit_of, record_hit, base_rules, base_pass, gated_rules, final_pass, run_rules,
}
use avvalo.Engine.Rules.Passes.Preview.{hit_ids, hit_ids-run_rules}

abbrev IsOnce : Pass → Type 0
IsOnce pass = Distinct (keys pass.hits_by_id)

module _ (py : Stdlib) (catalog : OfficialDomainCatalog) where
  base_rules-IsOnce :
      (ignore : Option String) (normalized : String) (rules : List RuleDefinition) (pass : Pass)
      → IsOnce pass
      → IsOnce (base_rules py catalog ignore normalized rules pass)
  unfolding base_rules record_hit
  base_rules-IsOnce ignore normalized [] pass h = h
  base_rules-IsOnce ignore normalized (r ∷ rules) pass h = ground (
    arith,
    insert-Distinct r.id (hit_of r) pass.hits_by_id,
    base_rules-IsOnce ignore normalized rules pass,
    base_rules-IsOnce ignore normalized rules (record_hit r pass),
  )

  gated_rules-IsOnce :
      (fired signal_kinds : List String) (normalized : String) (rules : List RuleDefinition)
      (pass : Pass)
      → IsOnce pass
      → IsOnce (gated_rules py catalog fired signal_kinds normalized rules pass)
  unfolding gated_rules record_hit
  gated_rules-IsOnce fired signal_kinds normalized [] pass h = h
  gated_rules-IsOnce fired signal_kinds normalized (r ∷ rules) pass h = ground (
    arith,
    insert-Distinct r.id (hit_of r) pass.hits_by_id,
    gated_rules-IsOnce fired signal_kinds normalized rules pass,
    gated_rules-IsOnce fired signal_kinds normalized rules (record_hit r pass),
  )

  final_pass-IsOnce : (pack : RulePack) (text : String) → IsOnce (final_pass py catalog pack text)
  unfolding final_pass base_pass
  final_pass-IsOnce pack text =
      gated_rules-IsOnce _ _ (normalize_text py text) (keep is_gated pack.rules)
        (base_pass py catalog pack text (normalize_text py text) none)
        (base_rules-IsOnce none (normalize_text py text) pack.rules no_pass tt)

  -- No rule is reported twice, whatever the pack and the text.
  run_rules-Distinct :
      (pack : RulePack) (text : String) → Distinct (hit_ids (run_rules py catalog pack text).0)
  run_rules-Distinct pack text =
      rw (hit_ids-run_rules py catalog pack text) (final_pass-IsOnce pack text)
