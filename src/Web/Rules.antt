-- ===== src/Web/Rules.antt =====
-- `admin_rule_save` and `admin_rule_delete` of app/web/rules_admin.py, behind the gate: what they do
-- with the stored rows and the pack in force. The session commits the edit before it refreshes.
pub mod Saved
use avvalo.Prelude.{ℕ, String, List, Option, none, some}
use avvalo.Stdlib.{Stdlib}
use avvalo.Raises.{Raises, ok, raised}
use avvalo.Engine.Rules.Pack.{RulePack}
use avvalo.Engine.Rules.Yaml.{Yaml}
use avvalo.RulesStore.Draft.{RuleOverrideDraft}
use avvalo.RulesStore.Repo.{
  RuleOverride, create_override, update_override, get_override, delete_override,
}
use avvalo.RulesStore.Publish.{RuleStore, refresh_rule_pack}

-- The redirect to the list of rules, or the error that the form or the status tells.
pub data Answer : Type 0 where
  redirected : Answer
  failed : String → Answer

abbrev pub answer_of : Raises RulePack → Answer
answer_of (ok pack) = Answer.redirected
answer_of (raised error) = Answer.failed error

module _ (py : Stdlib) (files : Option (List (Raises Yaml))) where
  -- `refresh_rule_pack`, after the commit of the rows
  abbrev refreshed_answer :
      List RuleOverride → Option RulePack → Raises RulePack × Option RulePack → Answer × RuleStore
  refreshed_answer rows active (result, published) =
      (answer_of result, record { rows = rows; active = published })

  -- An edit that raises is not committed.
  abbrev pub committed : Raises (List RuleOverride) → RuleStore → Answer × RuleStore
  committed (raised error) store = (Answer.failed error, store)
  committed (ok rows) store =
      refreshed_answer rows store.active (refresh_rule_pack py files (ok rows) store.active)

  abbrev pub updated_rows :
      Option RuleOverride
      → RuleOverrideDraft
      → ℕ
      → ℕ
      → List RuleOverride
      → Raises (List RuleOverride)
  updated_rows none draft id now rows = raised "404"
  updated_rows (some existing) draft id now rows = update_override py draft id now rows

  -- The edit of `admin_rule_save`: of the row that the form names, or a new one.
  abbrev pub edited :
      Option ℕ → RuleOverrideDraft → ℕ → ℕ → List RuleOverride → Raises (List RuleOverride)
  edited none draft fresh now rows = create_override py draft fresh now rows
  edited (some id) draft fresh now rows = updated_rows (get_override id rows) draft id now rows

  -- `admin_rule_save`; a new row takes the id that is given.
  unfoldable pub admin_rule_save :
      Option ℕ → RuleOverrideDraft → ℕ → ℕ → RuleStore → Answer × RuleStore
  admin_rule_save override_id draft fresh now store =
      committed (edited override_id draft fresh now store.rows) store

  abbrev pub remaining : Option RuleOverride → ℕ → List RuleOverride → Raises (List RuleOverride)
  remaining none id rows = raised "404"
  remaining (some existing) id rows = ok (delete_override id rows)

  -- `admin_rule_delete`
  pub admin_rule_delete : ℕ → RuleStore → Answer × RuleStore
  admin_rule_delete id store =
      committed (remaining (get_override id store.rows) id store.rows) store
