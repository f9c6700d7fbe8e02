-- ===== src/RulesStore/Publish.antt =====
-- The rule pack in force: `load_rule_pack`, `set_active_rule_pack` and `clear_active_rule_pack` of
-- app/engine/rules/loader.py, and the refresh of app/rules_store/apply.py.
pub mod Reached
pub mod Refined
use avvalo.Prelude.{ℕ, String, false, List, [], Option, none, some, ◌≡◌}
use avvalo.Stdlib.{Stdlib}
use avvalo.Raises.{Raises, ok, raised, ◌>>=◌}
use avvalo.Engine.Rules.Pack.{RulePack}
use avvalo.Engine.Rules.Yaml.{Yaml}
use avvalo.Engine.Rules.Loader.{load_yaml_rule_pack}
use avvalo.RulesStore.Draft.{RuleOverrideDraft}
use avvalo.RulesStore.Repo.{
  RuleOverride, row_id, create_override, update_override, delete_override, load_overrides,
}
use avvalo.Overrides.Table.{is_used}
use avvalo.RulesStore.Merge.{merge_rule_pack}

-- `_ACTIVE_PACK[0] or load_yaml_rule_pack()`
abbrev pub load_rule_pack : Option (List (Raises Yaml)) → Option RulePack → Raises RulePack
load_rule_pack files none = load_yaml_rule_pack files
load_rule_pack files (some pack) = ok pack

abbrev set_active_rule_pack : RulePack → Option RulePack
set_active_rule_pack pack = some pack

abbrev clear_active_rule_pack : Option RulePack
clear_active_rule_pack = none

abbrev publish : Raises RulePack → Option RulePack → Raises RulePack × Option RulePack
publish (ok pack) active = (ok pack, set_active_rule_pack pack)
publish (raised error) active = (raised error, active)

-- The merge that `refresh_rule_pack` publishes; the session gives the rows, or an error.
merged : Stdlib → Option (List (Raises Yaml)) → Raises (List RuleOverride) → Raises RulePack
merged py files session = do
  base ← load_yaml_rule_pack files
  rows ← session
  let stored = load_overrides py rows
  merge_rule_pack base stored.entries stored.suppressed

-- The returned pack or the exception, and the pack in force afterwards.
unfoldable pub refresh_rule_pack :
    Stdlib
    → Option (List (Raises Yaml))
    → Raises (List RuleOverride)
    → Option RulePack
    → Raises RulePack × Option RulePack
unfolding merged
refresh_rule_pack py files session active = publish (merged py files session) active

unfoldable pub run_rule_pack_refresh_job :
    Stdlib
    → Option (List (Raises Yaml))
    → Raises (List RuleOverride)
    → Option RulePack
    → Option RulePack
unfolding refresh_rule_pack
run_rule_pack_refresh_job py files session active = (refresh_rule_pack py files session active).1

-- The stored rows and the pack in force.
pub record RuleStore : Type 0 where
  pub rows : List RuleOverride
  pub active : Option RulePack

-- What an operator and the scheduler do; the database gives a new row an id of its own.
pub data Step (py : Stdlib) (files : Option (List (Raises Yaml)))
    : RuleStore → RuleStore → Type 0 where
  created :
      {store : RuleStore} {rows : List RuleOverride} (draft : RuleOverrideDraft) (id now : ℕ)
      → is_used row_id id store.rows ≡ false
      → create_override py draft id now store.rows ≡ ok rows
      → Step py files store (record store { rows = rows })
  updated :
      {store : RuleStore} {rows : List RuleOverride} (draft : RuleOverrideDraft) (id now : ℕ)
      → update_override py draft id now store.rows ≡ ok rows
      → Step py files store (record store { rows = rows })
  deleted :
      {store : RuleStore} (id : ℕ)
      → Step py files store (record store { rows = delete_override id store.rows })
  refreshed :
      {store : RuleStore}
      → Step py files store (record store {
        active = run_rule_pack_refresh_job py files (ok store.rows) store.active;
      })
  unreachable :
      {store : RuleStore} (error : String)
      → Step py files store
          (record store { active = run_rule_pack_refresh_job py files (raised error) store.active })
  cleared :
      {store : RuleStore} → Step py files store (record store { active = clear_active_rule_pack })

pub data Reachable (py : Stdlib) (files : Option (List (Raises Yaml))) : RuleStore → Type 0 where
  started : Reachable py files (record { rows = []; active = none })
  stepped :
      {store next : RuleStore}
      → Reachable py files store
      → Step py files store next
      → Reachable py files next
