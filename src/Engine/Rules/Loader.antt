-- ===== src/Engine/Rules/Loader.antt =====
-- The loading of the rule pack in app/engine/rules/loader.py, from the values of its YAML files on.
pub mod Sound
use avvalo.Prelude.{
  ℕ, String, Bool, true, false, not, List, [], ◌∷◌, ◌++◌, Option, none, some, if◌then◌else◌, map,
  any, keep, contains, is_empty, is_blank, strip, lookup,
}
use avvalo.Raises.{Raises, ok, raised, ◌>>=◌, ◌>>◌, require}
use avvalo.Engine.Rules.Pack.{
  RuleRequirement, RuleDefinition, RulePack, match_mode_substring, match_mode_word_prefix,
  validate_requires_graph,
}
use avvalo.Engine.Rules.Yaml.{
  Yaml, Yamls, Entries, get, texts, document, as_mapping, require_dict, require_list, require_str,
  require_int, optional_str,
}

abbrev pub Groups : Type 0
Groups = List (String × List String)

-- `any(groups.values())`
abbrev pub has_entries : Groups → Bool
has_entries groups = any (λ (group : String × List String). not (is_empty group.1)) groups

-- `raw.get(key) or ()`
abbrev or_nothing : Option (List String) → List String
or_nothing none = []
or_nothing (some entries) = entries

-- `RuleRequirement.from_mapping`
unfoldable pub from_mapping : Groups → Option RuleRequirement
from_mapping [] = none
from_mapping (group ∷ groups) =
    let raw = group ∷ groups in
    some (record {
      any_of = or_nothing (lookup "any_of" raw);
      all_of = or_nothing (lookup "all_of" raw);
      signals = or_nothing (lookup "signals" raw);
    })

-- `isinstance(language, str)`, and the list of texts
abbrev as_group : Option String → Option (List String) → Raises (String × List String)
as_group (some key) (some entries) = ok (key, entries)
as_group _ _ = raised "ValueError"

-- `_parse_pattern_groups`
unfoldable pub parse_pattern_groups : Entries → Raises Groups
parse_pattern_groups Entries.empty = ok []
parse_pattern_groups (Entries.entry key value rest) = do
  group ← as_group key (texts value)
  groups ← parse_pattern_groups rest
  ok ((group.0, keep (λ pattern. not (is_blank (strip pattern))) group.1) ∷ groups)

-- `_parse_match`
unfoldable pub parse_match : Entries → Raises Groups
parse_match entries = do
  groups ← parse_pattern_groups entries
  require (has_entries groups) "ValueError"
  ok groups

-- `_parse_exclude`
unfoldable pub parse_exclude : Yaml → Raises Groups
parse_exclude Yaml.null = ok []
parse_exclude (Yaml.mapping entries) = parse_match entries
parse_exclude _ = raised "ValueError"

-- `_parse_match_mode`
unfoldable pub parse_match_mode : Yaml → Raises String
parse_match_mode Yaml.null = ok match_mode_substring
parse_match_mode (Yaml.text mode) =
    if contains mode (match_mode_substring ∷ match_mode_word_prefix ∷ [])
    then ok mode
    else raised "ValueError"
parse_match_mode _ = raised "ValueError"

abbrev requires_keys : List String
requires_keys = "any_of" ∷ "all_of" ∷ "signals" ∷ []

-- The loop of `_parse_requires`
pub parse_clauses : Entries → Raises Groups
parse_clauses Entries.empty = ok []
parse_clauses (Entries.entry key value rest) = do
  group ← as_group key (texts value)
  require (contains group.0 requires_keys) "ValueError"
  groups ← parse_clauses rest
  ok ((group.0, keep (λ entry. not (is_blank entry)) (map strip group.1)) ∷ groups)

-- `_parse_requires`
unfoldable pub parse_requires : Yaml → Raises (Option RuleRequirement)
parse_requires Yaml.null = ok none
parse_requires (Yaml.mapping entries) = do
  groups ← parse_clauses entries
  require (has_entries groups) "ValueError"
  ok (from_mapping groups)
parse_requires _ = raised "ValueError"

-- `_parse_rule`
unfoldable pub parse_rule : Yaml → String → Raises RuleDefinition
unfolding parse_match parse_exclude parse_match_mode parse_requires
parse_rule value family = do
  entries ← as_mapping value
  match ← require_dict value "match"
  id ← require_str value "id"
  desc ← require_str value "desc"
  message_key ← require_str value "message_key"
  severity ← require_int value "severity"
  groups ← parse_match match
  emits_signal ← optional_str entries "emits_signal"
  exclude ← parse_exclude (get "exclude" entries)
  match_mode ← parse_match_mode (get "match_mode" entries)
  requires ← parse_requires (get "requires" entries)
  ok (record {
    id = id;
    family = family;
    desc = desc;
    message_key = message_key;
    severity = severity;
    match = groups;
    emits_signal = emits_signal;
    exclude = exclude;
    match_mode = match_mode;
    requires = requires;
  })

-- The rules so far, with `seen_rule_ids`.
pub record Loaded : Type 0 where
  pub seen : List String
  pub rules : List RuleDefinition

-- A rule whose id was seen before is an error.
unfoldable pub add_rule : RuleDefinition → Loaded → Raises Loaded
add_rule rule loaded = do
  require (not (contains rule.id loaded.seen)) "ValueError"
  ok (record { seen = rule.id ∷ loaded.seen; rules = loaded.rules ++ rule ∷ [] })

-- The inner loop of `_load_rule_file`
unfoldable pub load_rules : Yamls → String → Loaded → Raises Loaded
unfolding add_rule parse_rule
load_rules Yamls.nil family loaded = ok loaded
load_rules (Yamls.cons value rest) family loaded = do
  rule ← parse_rule value family
  next ← add_rule rule loaded
  load_rules rest family next

-- The outer loop
unfoldable pub load_families : Yamls → Loaded → Raises Loaded
unfolding load_rules
load_families Yamls.nil loaded = ok loaded
load_families (Yamls.cons value rest) loaded = do
  family ← require_str value "family"
  items ← require_list value "rules"
  next ← load_rules items family loaded
  load_families rest next

-- `_load_rule_file`, behind `yaml.safe_load`
unfoldable pub load_rule_file : Yaml → Loaded → Raises Loaded
unfolding load_families
load_rule_file value loaded = do
  families ← require_list (document value) "families"
  load_families families loaded

unfoldable pub load_files : List (Raises Yaml) → Loaded → Raises Loaded
unfolding load_rule_file
load_files [] loaded = ok loaded
load_files (file ∷ files) loaded = do
  value ← file
  next ← load_rule_file value loaded
  load_files files next

abbrev pub descriptions_of : List RuleDefinition → List (String × String)
descriptions_of rules = map (λ (rule : RuleDefinition). (rule.id, rule.desc)) rules

-- `RulePack(…)`, with its `__post_init__`
unfoldable pub make_pack : List RuleDefinition → Raises RulePack
make_pack rules = do
  require (validate_requires_graph rules) "ValueError"
  ok (record { rules = rules; descriptions = descriptions_of rules })

-- `load_yaml_rule_pack`: the sorted files of the directory, or `none` where it is missing.
unfoldable pub load_yaml_rule_pack : Option (List (Raises Yaml)) → Raises RulePack
unfolding load_files make_pack
load_yaml_rule_pack none = raised "FileNotFoundError"
load_yaml_rule_pack (some files) = do
  loaded ← load_files files (record { seen = []; rules = [] })
  make_pack loaded.rules
