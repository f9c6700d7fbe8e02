-- ===== src/RulesStore/Publish/Reached.antt =====
-- What holds of the stored rows and the pack in force after any steps.
use avvalo.Prelude.{List, Option, none, some, ◌≡◌, refl}
use avvalo.Stdlib.{Stdlib}
use avvalo.Raises.{Raises, ok, raised}
use avvalo.Raises.Ensures.{Ensures, Ensures-bind, Ensures-then, Ensures-ok}
use avvalo.Engine.Rules.Pack.{RulePack}
use avvalo.Engine.Rules.Yaml.{Yaml}
use avvalo.Engine.Rules.Loader.Sound.{IsPack, loaded-IsPack}
use avvalo.Engine.Rules.Loader.{load_yaml_rule_pack}
use avvalo.RulesStore.Repo.{RuleOverride}
use avvalo.RulesStore.Repo.Table.{
  IsRuleTable, create_override-IsRuleTable, update_override-IsRuleTable,
  delete_override-IsRuleTable,
}
use avvalo.RulesStore.Merge.Overlay.{merge_rule_pack-IsPack}
use avvalo.RulesStore.Publish.{
  load_rule_pack, publish, merged, refresh_rule_pack, run_rule_pack_refresh_job, RuleStore, Step,
  Reachable,
}

-- The pack in force, where there is one
abbrev IsServing : Option RulePack → Type 0
IsServing none = Unit
IsServing (some pack) = IsPack pack

publish-IsServing :
    (result : Raises RulePack) (active : Option RulePack)
    → Ensures IsPack result
    → IsServing active
    → IsServing (publish result active).1
publish-IsServing (ok pack) active e s = Ensures-ok (ok pack) pack e refl
publish-IsServing (raised error) active e s = s

merged-IsPack :
    (py : Stdlib) (files : Option (List (Raises Yaml))) (session : Raises (List RuleOverride))
    → Ensures IsPack (merged py files session)
unfolding merged
merged-IsPack py files session =
    Ensures-bind (loaded-IsPack files)
      λ base b. Ensures-then session _ λ rows. merge_rule_pack-IsPack base _ _ b.distinct

run-IsServing :
    (py : Stdlib) (files : Option (List (Raises Yaml))) (session : Raises (List RuleOverride))
    (active : Option RulePack)
    → IsServing active
    → IsServing (run_rule_pack_refresh_job py files session active)
unfolding run_rule_pack_refresh_job refresh_rule_pack
run-IsServing py files session active s =
    publish-IsServing (merged py files session) active (merged-IsPack py files session) s

record IsStore (store : RuleStore) : Type 0 where
  pub table : IsRuleTable store.rows
  pub serving : IsServing store.active

Step-IsStore :
    (py : Stdlib) (files : Option (List (Raises Yaml))) {store next : RuleStore}
    → Step py files store next
    → IsStore store
    → IsStore next
Step-IsStore py files (Step.created {store} {rows} draft id now u h) s = record {
  table = Ensures-ok _ rows (create_override-IsRuleTable py draft id now store.rows u s.table) h;
  serving = s.serving;
}
Step-IsStore py files (Step.updated {store} {rows} draft id now h) s = record {
  table = Ensures-ok _ rows (update_override-IsRuleTable py draft id now store.rows s.table) h;
  serving = s.serving;
}
Step-IsStore py files (Step.deleted {store} id) s = record {
  table = delete_override-IsRuleTable id store.rows s.table;
  serving = s.serving;
}
Step-IsStore py files (Step.refreshed {store}) s = record {
  table = s.table;
  serving = run-IsServing py files (ok store.rows) store.active s.serving;
}
Step-IsStore py files (Step.unreachable {store} error) s = record {
  table = s.table;
  serving = run-IsServing py files (raised error) store.active s.serving;
}
Step-IsStore py files Step.cleared s = record { table = s.table; serving = tt }

Reachable-IsStore :
    (py : Stdlib) (files : Option (List (Raises Yaml))) {store : RuleStore}
    → Reachable py files store
    → IsStore store
Reachable-IsStore py files Reachable.started = record { table = tt; serving = tt }
Reachable-IsStore py files (Reachable.stepped r step) =
    Step-IsStore py files step (Reachable-IsStore py files r)

serving-load_rule_pack :
    (files : Option (List (Raises Yaml))) (active : Option RulePack) (base : RulePack)
    → load_yaml_rule_pack files ≡ ok base
    → IsServing active
    → (pack : RulePack) × (load_rule_pack files active ≡ ok pack) × IsPack pack
serving-load_rule_pack files none base h s = (base, h, Ensures-ok _ base (loaded-IsPack files) h)
serving-load_rule_pack files (some pack) base h s = (pack, refl, s)

-- Where the shipped files load, then after any edits and refreshes, whether they succeed or fail, the
-- table has one row for an id and for a rule id, and there is a pack in force, whose ids are distinct,
-- whose gates name no gated rule, and whose descriptions are those of its rules.
pub load_rule_pack-IsPack :
    (py : Stdlib) (files : Option (List (Raises Yaml))) (base : RulePack) (store : RuleStore)
    → load_yaml_rule_pack files ≡ ok base
    → Reachable py files store
    → IsRuleTable store.rows
      × ((pack : RulePack) × (load_rule_pack files store.active ≡ ok pack) × IsPack pack)
load_rule_pack-IsPack py files base store h r =
    let s = Reachable-IsStore py files r in
    (s.table, serving-load_rule_pack files store.active base h s.serving)
