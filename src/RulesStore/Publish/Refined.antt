-- ===== src/RulesStore/Publish/Refined.antt =====
-- What a refresh publishes, from the rows of the table.
use avvalo.Prelude.{String, List, Option, ◌≡◌, refl, sym, ap, ◌∙◌, arith}
use avvalo.Stdlib.{Stdlib}
use avvalo.Raises.{Raises, ok, raised}
use avvalo.Engine.Rules.Pack.{RulePack, id_of_rule, find_rule}
use avvalo.Engine.Rules.Yaml.{Yaml}
use avvalo.Engine.Rules.Loader.{load_yaml_rule_pack}
use avvalo.Overrides.Merge.{find}
use avvalo.Overrides.Table.Newest.{newest-IsTable, row_named-newest}
use avvalo.Overrides.Collected.{
  in_force, collect, reading, entries-Distinct, IsTable-NamedOnce, entry_in_force-collect,
}
use avvalo.RulesStore.Repo.{
  RuleOverride, row_id, row_name, row_time, list_overrides, reading_of, load_overrides,
}
use avvalo.RulesStore.Repo.Table.{IsRuleTable}
use avvalo.RulesStore.Repo.Loaded.{row_of_rule, rows-AreAbout, rule_by_row, in_force-rule_by_row}
use avvalo.RulesStore.Merge.Overlay.{find_rule-eq-find, merge_rule_pack_lem}
use avvalo.RulesStore.Publish.{
  load_rule_pack, publish, merged, refresh_rule_pack, RuleStore, Reachable,
}
use avvalo.RulesStore.Publish.Reached.{load_rule_pack-IsPack}

find_rule-merged :
    (py : Stdlib) (files : Option (List (Raises Yaml))) (rows : List RuleOverride)
    (base pack : RulePack) (id : String)
    → IsRuleTable rows
    → load_yaml_rule_pack files ≡ ok base
    → merged py files (ok rows) ≡ ok pack
    → find_rule id pack.rules ≡ rule_by_row py (row_of_rule id rows) (find_rule id base.rules)
unfolding merged load_overrides list_overrides
find_rule-merged py files rows base pack id t h e =
    let listed = list_overrides rows in
    let about = rows-AreAbout py listed in
    let table = newest-IsTable row_id row_name row_time rows t in
    let once = IsTable-NamedOnce id_of_rule row_name (reading_of py) row_id listed table in
    merge_rule_pack_lem base pack (collect (reading_of py) listed).entries
      (collect (reading_of py) listed).suppressed id
      (entries-Distinct id_of_rule row_name (reading_of py) listed about once) (cc)
    ∙ entry_in_force-collect id_of_rule row_name (reading_of py) id base.rules listed about once
    ∙ ap (λ row. in_force (reading (reading_of py) row) (find id_of_rule id base.rules))
        (row_named-newest row_id row_name row_time id rows t)
    ∙ in_force-rule_by_row py (row_of_rule id rows) (find id_of_rule id base.rules)
    ∙ ap (rule_by_row py (row_of_rule id rows)) (sym (find_rule-eq-find id base.rules))

published :
    (files : Option (List (Raises Yaml))) (result : Raises RulePack) (active : Option RulePack)
    (pack : RulePack)
    → (publish result active).0 ≡ ok pack
    → load_rule_pack files (publish result active).1 ≡ ok pack
published files (ok made) active pack h = h
published files (raised error) active pack h = ground arith

result-publish :
    (result : Raises RulePack) (active : Option RulePack) → (publish result active).0 ≡ result
result-publish (ok pack) active = refl
result-publish (raised error) active = refl

unpublished :
    (result : Raises RulePack) (active : Option RulePack) (error : String)
    → (publish result active).0 ≡ raised error
    → (publish result active).1 ≡ active
unpublished (ok pack) active error h = ground arith
unpublished (raised e) active error h = refl

pub refresh_refused :
    (py : Stdlib) (files : Option (List (Raises Yaml))) (session : Raises (List RuleOverride))
    (active : Option RulePack) (error : String)
    → (refresh_rule_pack py files session active).0 ≡ raised error
    → (refresh_rule_pack py files session active).1 ≡ active
unfolding refresh_rule_pack
refresh_refused py files session active error h =
    unpublished (merged py files session) active error h

-- After any edits and refreshes, a refresh that returns a pack puts it in force, and that pack holds
-- under every id the rule that the row of this id decides: no rule where the row is disabled, its
-- definition where it validates, and the shipped rule where it does not or where there is no row.
pub refresh_rule_pack_lem :
    (py : Stdlib) (files : Option (List (Raises Yaml))) (store : RuleStore) (base pack : RulePack)
    (id : String)
    → Reachable py files store
    → load_yaml_rule_pack files ≡ ok base
    → (refresh_rule_pack py files (ok store.rows) store.active).0 ≡ ok pack
    → (load_rule_pack files (refresh_rule_pack py files (ok store.rows) store.active).1 ≡ ok pack)
      × (find_rule id pack.rules
          ≡ rule_by_row py (row_of_rule id store.rows) (find_rule id base.rules))
unfolding refresh_rule_pack
refresh_rule_pack_lem py files store base pack id r h e =
    let result = merged py files (ok store.rows) in
    (
      published files result store.active pack e,
      find_rule-merged py files store.rows base pack id
          (load_rule_pack-IsPack py files base store h r).0 h
          (sym (result-publish result store.active) ∙ e),
    )
