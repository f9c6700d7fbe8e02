-- ===== src/Web/Rules/Saved.antt =====
-- What a save or a deletion leaves behind.
use avvalo.Prelude.{
  ℕ, zero, suc, String, false, List, Option, none, some, ◌≡◌, refl, ap, subst, ◌∙◌, arith,
}
use avvalo.Stdlib.{Stdlib}
use avvalo.Raises.{Raises, ok, raised}
use avvalo.Engine.Rules.Pack.{RulePack, find_rule}
use avvalo.Engine.Rules.Yaml.{Yaml}
use avvalo.Engine.Rules.Loader.{load_yaml_rule_pack}
use avvalo.RulesStore.Draft.{RuleOverrideDraft}
use avvalo.RulesStore.Repo.{RuleOverride, row_id, get_override}
use avvalo.Overrides.Table.{is_used}
use avvalo.RulesStore.Repo.Loaded.{row_of_rule, rule_by_row}
use avvalo.RulesStore.Publish.{
  RuleStore, Step, Reachable, load_rule_pack, refresh_rule_pack, run_rule_pack_refresh_job,
}
use avvalo.RulesStore.Publish.Refined.{refresh_rule_pack_lem, refresh_refused}
use avvalo.Web.Rules.{
  Answer, answer_of, committed, updated_rows, edited, admin_rule_save, remaining, admin_rule_delete,
}

abbrev or_rows : Raises (List RuleOverride) → List RuleOverride → List RuleOverride
or_rows (ok rows) other = rows
or_rows (raised error) other = other

packed :
    (result : Raises RulePack)
    → answer_of result ≡ Answer.redirected
    → (pack : RulePack) × (result ≡ ok pack)
packed (ok pack) h = (pack, refl)
packed (raised error) h = ground arith

module _ (py : Stdlib) (files : Option (List (Raises Yaml))) where
  committed-Reachable :
      (result : Raises (List RuleOverride)) (store : RuleStore)
      → Reachable py files store
      → ((rows : List RuleOverride)
          → result ≡ ok rows
          → Step py files store (record store { rows = rows }))
      → Reachable py files (committed py files result store).1
  unfolding run_rule_pack_refresh_job
  committed-Reachable (raised error) store r step = r
  committed-Reachable (ok rows) store r step =
      Reachable.stepped (Reachable.stepped r (step rows refl)) Step.refreshed

  updated-Step :
      (found : Option RuleOverride) (draft : RuleOverrideDraft) (id now : ℕ) (store : RuleStore)
      (rows : List RuleOverride)
      → updated_rows py files found draft id now store.rows ≡ ok rows
      → Step py files store (record store { rows = rows })
  updated-Step none draft id now store rows h = ground arith
  updated-Step (some existing) draft id now store rows h = Step.updated draft id now h

  edited-Step :
      (override_id : Option ℕ) (draft : RuleOverrideDraft) (fresh now : ℕ) (store : RuleStore)
      → is_used row_id fresh store.rows ≡ false
      → (rows : List RuleOverride)
      → edited py files override_id draft fresh now store.rows ≡ ok rows
      → Step py files store (record store { rows = rows })
  edited-Step none draft fresh now store u rows h = Step.created draft fresh now u h
  edited-Step (some id) draft fresh now store u rows h =
      updated-Step (get_override id store.rows) draft id now store rows h

  remaining-Step :
      (found : Option RuleOverride) (id : ℕ) (store : RuleStore) (rows : List RuleOverride)
      → remaining py files found id store.rows ≡ ok rows
      → Step py files store (record store { rows = rows })
  remaining-Step none id store rows h = ground arith
  remaining-Step (some existing) id store rows h =
      subst
        (λ (r : Raises (List RuleOverride)).
          Step py files store (record store { rows = or_rows r rows }))
        h (Step.deleted id)

  -- Whatever a save or a deletion answers, it leaves the stored rows and the pack in force in a state
  -- that edits and refreshes reach.
  admin_rule_save-Reachable :
      (override_id : Option ℕ) (draft : RuleOverrideDraft) (fresh now id : ℕ) (store : RuleStore)
      → is_used row_id fresh store.rows ≡ false
      → Reachable py files store
      → Reachable py files (admin_rule_save py files override_id draft fresh now store).1
        × Reachable py files (admin_rule_delete py files id store).1
  unfolding admin_rule_save admin_rule_delete
  admin_rule_save-Reachable override_id draft fresh now id store u r = (
    committed-Reachable (edited py files override_id draft fresh now store.rows) store r
        (edited-Step override_id draft fresh now store u),
    committed-Reachable (remaining py files (get_override id store.rows) id store.rows) store r
        (remaining-Step (get_override id store.rows) id store),
  )

  abbrev pub InForce : RuleStore → RulePack → String → Type 0
  InForce store base id =
      (pack : RulePack) × (load_rule_pack files store.active ≡ ok pack)
      × (find_rule id pack.rules
          ≡ rule_by_row py (row_of_rule id store.rows) (find_rule id base.rules))

  committed-InForce :
      (result : Raises (List RuleOverride)) (store : RuleStore) (base : RulePack) (id : String)
      → Reachable py files store
      → ((rows : List RuleOverride)
          → result ≡ ok rows
          → Step py files store (record store { rows = rows }))
      → load_yaml_rule_pack files ≡ ok base
      → (committed py files result store).0 ≡ Answer.redirected
      → InForce (committed py files result store).1 base id
  committed-InForce (raised error) store base id r step h e = ground arith
  committed-InForce (ok rows) store base id r step h e =
      let p = packed (refresh_rule_pack py files (ok rows) store.active).0 e in
      let reached = Reachable.stepped r (step rows refl) in
      let both =
        refresh_rule_pack_lem py files (record store { rows = rows }) base p.0 id reached h p.1 in
      (p.0, both.0, both.1)

  -- A save that answers with the list of rules has put a pack in force that holds, under every id, the
  -- rule that the row of this id decides.
  pub admin_rule_save-InForce :
      (override_id : Option ℕ) (draft : RuleOverrideDraft) (fresh now : ℕ) (store : RuleStore)
      (base : RulePack) (id : String)
      → is_used row_id fresh store.rows ≡ false
      → Reachable py files store
      → load_yaml_rule_pack files ≡ ok base
      → (admin_rule_save py files override_id draft fresh now store).0 ≡ Answer.redirected
      → InForce (admin_rule_save py files override_id draft fresh now store).1 base id
  unfolding admin_rule_save
  admin_rule_save-InForce override_id draft fresh now store base id u r h e =
      committed-InForce (edited py files override_id draft fresh now store.rows) store base id r
        (edited-Step override_id draft fresh now store u) h e

  -- The refresh job, run again and again
  abbrev pub refreshes : ℕ → List RuleOverride → Option RulePack → Option RulePack
  refreshes zero rows active = active
  refreshes (suc n) rows active =
      run_rule_pack_refresh_job py files (ok rows) (refreshes n rows active)

  stuck :
      (n : ℕ) (rows : List RuleOverride) (active : Option RulePack) (error : String)
      → (refresh_rule_pack py files (ok rows) active).0 ≡ raised error
      → refreshes n rows active ≡ active
  unfolding run_rule_pack_refresh_job
  stuck zero rows active error h = refl
  stuck (suc n) rows active error h =
      ap (λ a. (refresh_rule_pack py files (ok rows) a).1) (stuck n rows active error h)
      ∙ refresh_refused py files (ok rows) active error h

  committed-refused :
      (result : Raises (List RuleOverride)) (rows : List RuleOverride) (store : RuleStore)
      (error : String)
      → result ≡ ok rows
      → (refresh_rule_pack py files (ok rows) store.active).0 ≡ raised error
      → committed py files result store
        ≡ (Answer.failed error, record { rows = rows; active = store.active })
  committed-refused result rows store error k h =
      ap (λ r. committed py files r store) k
      ∙ ap
          (λ (r : Raises RulePack). (
            answer_of r,
            record { rows = rows; active = (refresh_rule_pack py files (ok rows) store.active).1 },
          ))
          h
      ∙ ap (λ (a : Option RulePack). (Answer.failed error, record { rows = rows; active = a }))
          (refresh_refused py files (ok rows) store.active error h)

  -- An edit whose merge is refused is stored all the same: the save answers with the error, the row is
  -- in the table, and no later refresh of these rows changes the pack in force.
  pub admin_rule_save_stuck :
      (override_id : Option ℕ) (draft : RuleOverrideDraft) (fresh now n : ℕ) (store : RuleStore)
      (rows : List RuleOverride) (error : String)
      → edited py files override_id draft fresh now store.rows ≡ ok rows
      → (refresh_rule_pack py files (ok rows) store.active).0 ≡ raised error
      → (admin_rule_save py files override_id draft fresh now store
          ≡ (Answer.failed error, record { rows = rows; active = store.active }))
        × (refreshes n rows store.active ≡ store.active)
  unfolding admin_rule_save
  admin_rule_save_stuck override_id draft fresh now n store rows error k h = (
    committed-refused (edited py files override_id draft fresh now store.rows) rows store error k h,
    stuck n rows store.active error h,
  )
