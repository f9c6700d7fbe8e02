-- ===== src/Examples/Stores.antt =====
-- Rule packs: app/engine/rules/loader.py, app/rules_store and the rule editor.
use avvalo.Prelude.{
  true, false, has_sub, List, [], ◌∷◌, Option, none, some, All, strip, ◌≡◌, refl, ap, ◌∙◌,
}
use avvalo.Raises.{Raises, ok, raised}
use avvalo.Engine.Rules.Pack.{RuleDefinition, RulePack, find_rule, validate_requires_graph}
use avvalo.Engine.Rules.Yaml.{
  Yaml, Yamls, Entries, document, texts, as_mapping, require_dict, require_list, require_str,
  require_int, optional_str,
}
use avvalo.Engine.Rules.Loader.{
  from_mapping, load_yaml_rule_pack, load_files, load_rule_file, load_families, load_rules,
  add_rule, parse_rule, parse_match, parse_pattern_groups, parse_exclude, parse_match_mode,
  parse_requires, make_pack,
}
use avvalo.Engine.Rules.Loader.Sound.{IsPack, HasPattern, load_yaml_rule_pack-IsPack}
use avvalo.Stdlib.{Stdlib}
use avvalo.RulesStore.Draft.{
  RuleOverrideDraft, normalized, validate_patterns, validate_pattern, validate_exclude,
  validate_match_mode, validate_requires,
}
use avvalo.RulesStore.Repo.{
  RuleOverride, create_override, load_overrides, list_overrides, definition_of, reading_of,
}
use avvalo.Overrides.Table.{newest}
use avvalo.Overrides.Collected.{collect}
use avvalo.Overrides.Merge.{merged_entries, overlay, by_id, put_entry}
use avvalo.RulesStore.Merge.{merge_rule_pack}
use avvalo.RulesStore.Publish.{RuleStore, Step, Reachable, refresh_rule_pack, load_rule_pack}
use avvalo.RulesStore.Repo.Table.{IsRuleTable}
use avvalo.RulesStore.Repo.Loaded.{rule_by_row}
use avvalo.RulesStore.Publish.Reached.{load_rule_pack-IsPack}
use avvalo.RulesStore.Publish.Refined.{refresh_rule_pack_lem}
use avvalo.Web.Rules.{Answer, answer_of, committed, admin_rule_save}
use avvalo.Web.Rules.Saved.{InForce, refreshes, admin_rule_save-InForce, admin_rule_save_stuck}
use avvalo.Examples.Fixtures.{py}

abbrev one : Yaml → Yaml
one value = Yaml.sequence (Yamls.cons value Yamls.nil)

abbrev rule_entry : Yaml
rule_entry = Yaml.mapping (
    Entries.entry (some "id") (Yaml.text "otp_request") (
      Entries.entry (some "desc") (Yaml.text "asks for a code") (
        Entries.entry (some "message_key") (Yaml.text "otp_request") (
          Entries.entry (some "severity") (Yaml.number 3) (
            Entries.entry (some "match")
              (Yaml.mapping (Entries.entry (some "uz_latn") (one (Yaml.text "kod")) Entries.empty))
              Entries.empty)))))

abbrev files : Option (List (Raises Yaml))
files = some (
    ok (
      Yaml.mapping (
        Entries.entry (some "families")
          (one (
            Yaml.mapping (
              Entries.entry (some "family") (Yaml.text "otp")
                (Entries.entry (some "rules") (one rule_entry) Entries.empty))))
          Entries.empty))
    ∷ [])

abbrev shipped_rule : RuleDefinition
shipped_rule = record {
  id = "otp_request";
  family = "otp";
  desc = "asks for a code";
  message_key = "otp_request";
  severity = 3;
  match = ("uz_latn", "kod" ∷ []) ∷ [];
  emits_signal = none;
  exclude = [];
  match_mode = "substring";
  requires = none;
}

abbrev shipped : RulePack
shipped = record {
  rules = shipped_rule ∷ [];
  descriptions = ("otp_request", "asks for a code") ∷ [];
}

files_load : load_yaml_rule_pack files ≡ ok shipped
unfolding load_yaml_rule_pack load_files load_rule_file load_families load_rules add_rule parse_rule
    parse_match parse_pattern_groups parse_exclude parse_match_mode parse_requires make_pack
    validate_requires_graph document texts as_mapping require_dict require_list require_str
    require_int optional_str strip
files_load = refl

load_yaml_rule_pack-IsPack_example : IsPack shipped × All HasPattern (shipped_rule ∷ [])
load_yaml_rule_pack-IsPack_example = load_yaml_rule_pack-IsPack files shipped files_load

-- Here every text fits the formats of the editor.
abbrev lenient : Stdlib
lenient = record py { re_fullmatch = λ p s. true }

abbrev draft : RuleOverrideDraft
draft = record {
  rule_id = "otp_request";
  family = "otp";
  description = "asks for the code";
  message_key = "otp_request";
  severity = 2;
  emits_signal = none;
  patterns = ("ru", "пароль" ∷ []) ∷ [];
  exclude = [];
  match_mode = "substring";
  requires = none;
  disabled = false;
}

abbrev row : RuleOverride
row = record {
  id = 1;
  rule_id = "otp_request";
  family = "otp";
  description = "asks for the code";
  message_key = "otp_request";
  severity = 2;
  emits_signal = none;
  patterns = ("ru", "пароль" ∷ []) ∷ [];
  exclude = some [];
  match_mode = some "substring";
  requires = none;
  disabled = false;
  created_ts = 5;
  updated_ts = 5;
}

abbrev edited_rule : RuleDefinition
edited_rule = record shipped_rule {
  desc = "asks for the code";
  severity = 2;
  match = ("ru", "пароль" ∷ []) ∷ [];
}

abbrev edited_pack : RulePack
edited_pack = record {
  rules = edited_rule ∷ [];
  descriptions = ("otp_request", "asks for the code") ∷ [];
}

abbrev empty_store : RuleStore
empty_store = record { rows = []; active = none }

abbrev store : RuleStore
store = record { rows = row ∷ []; active = none }

row_created : create_override lenient draft 1 5 [] ≡ ok (row ∷ [])
unfolding create_override normalized validate_patterns validate_pattern validate_exclude
    validate_match_mode validate_requires strip has_sub
row_created = refl

store-Reachable : Reachable lenient files store
store-Reachable = Reachable.stepped Reachable.started (Step.created draft 1 5 refl row_created)

store_refreshed : (refresh_rule_pack lenient files (ok (row ∷ [])) none).0 ≡ ok edited_pack
unfolding refresh_rule_pack load_overrides list_overrides newest collect reading_of definition_of
    validate_patterns validate_pattern validate_exclude validate_match_mode validate_requires
    merge_rule_pack merged_entries overlay by_id put_entry from_mapping load_yaml_rule_pack
    load_files load_rule_file load_families load_rules add_rule parse_rule parse_match
    parse_pattern_groups parse_exclude parse_match_mode parse_requires make_pack
    validate_requires_graph document texts as_mapping require_dict require_list require_str
    require_int optional_str strip find_rule
store_refreshed = refl

refresh_rule_pack_lem_example :
    (load_rule_pack files (refresh_rule_pack lenient files (ok (row ∷ [])) none).1 ≡ ok edited_pack)
    × (find_rule "otp_request" (edited_rule ∷ [])
        ≡ rule_by_row lenient (some row) (find_rule "otp_request" (shipped_rule ∷ [])))
refresh_rule_pack_lem_example =
    refresh_rule_pack_lem lenient files store shipped edited_pack "otp_request" store-Reachable
      files_load store_refreshed

load_rule_pack-IsPack_example :
    IsRuleTable (row ∷ [])
    × ((found : RulePack) × (load_rule_pack files none ≡ ok found) × IsPack found)
load_rule_pack-IsPack_example =
    load_rule_pack-IsPack lenient files shipped store files_load store-Reachable

saved : (admin_rule_save lenient files none draft 1 5 empty_store).0 ≡ Answer.redirected
unfolding admin_rule_save
saved =
    ap (λ r. (committed lenient files r empty_store).0) row_created ∙ ap answer_of store_refreshed

admin_rule_save-InForce_example :
    InForce lenient files
      (admin_rule_save lenient files none draft 1 5 empty_store).1
      shipped
      "otp_request"
admin_rule_save-InForce_example =
    admin_rule_save-InForce lenient files none draft 1 5 empty_store shipped "otp_request" refl
      Reachable.started files_load saved

-- A rule whose gate names the rule itself.
abbrev gated_draft : RuleOverrideDraft
gated_draft = record draft { requires = some (("any_of", "otp_request" ∷ []) ∷ []) }

abbrev gated_row : RuleOverride
gated_row = record row { requires = some (("any_of", "otp_request" ∷ []) ∷ []) }

gated_created : create_override lenient gated_draft 1 5 [] ≡ ok (gated_row ∷ [])
unfolding create_override normalized validate_patterns validate_pattern validate_exclude
    validate_match_mode validate_requires strip has_sub
gated_created = refl

gated_refused : (refresh_rule_pack lenient files (ok (gated_row ∷ [])) none).0 ≡ raised "ValueError"
unfolding refresh_rule_pack load_overrides list_overrides newest collect reading_of definition_of
    validate_patterns validate_pattern validate_exclude validate_match_mode validate_requires
    merge_rule_pack merged_entries overlay by_id put_entry from_mapping load_yaml_rule_pack
    load_files load_rule_file load_families load_rules add_rule parse_rule parse_match
    parse_pattern_groups parse_exclude parse_match_mode parse_requires make_pack
    validate_requires_graph document texts as_mapping require_dict require_list require_str
    require_int optional_str strip find_rule
gated_refused = refl

admin_rule_save_stuck_example :
    (admin_rule_save lenient files none gated_draft 1 5 empty_store
      ≡ (Answer.failed "ValueError", record { rows = gated_row ∷ []; active = none }))
    × (refreshes lenient files 2 (gated_row ∷ []) none ≡ none)
admin_rule_save_stuck_example =
    admin_rule_save_stuck lenient files none gated_draft 1 5 2 empty_store (gated_row ∷ [])
      "ValueError" gated_created gated_refused
