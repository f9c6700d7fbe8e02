-- ===== src/Engine/Rules/Pack.antt =====
-- The contracts of app/engine/rules/loader.py and its check of the gates. A severity is a whole
-- number that is not negative.
use avvalo.Prelude.{
  ℕ, String, Bool, true, false, List, [], ◌∷◌, ◌++◌, ◌==◌, Option, none, some, map, any, keep,
  contains, is_some, if◌then◌else◌,
}

abbrev pub match_mode_substring : String
match_mode_substring = "substring"

abbrev pub match_mode_word_prefix : String
match_mode_word_prefix = "word_prefix"

pub record RuleRequirement : Type 0 where
  pub any_of : List String
  pub all_of : List String
  pub signals : List String

-- `RuleRequirement.rule_ids`
abbrev pub rule_ids : RuleRequirement → List String
rule_ids requires = requires.any_of ++ requires.all_of

pub record RuleDefinition : Type 0 where
  pub id : String
  pub family : String
  pub desc : String
  pub message_key : String
  pub severity : ℕ
  pub match : List (String × List String)
  pub emits_signal : Option String
  pub exclude : List (String × List String)
  pub match_mode : String
  pub requires : Option RuleRequirement

-- `rule.requires is not None`
abbrev pub is_gated : RuleDefinition → Bool
is_gated rule = is_some rule.requires

abbrev pub id_of_rule : RuleDefinition → String
id_of_rule rule = rule.id

abbrev pub ids : List RuleDefinition → List String
ids = map id_of_rule

conflicts : List String → Option RuleRequirement → Bool
conflicts gated none = false
conflicts gated (some requires) = any (λ id. contains id gated) (rule_ids requires)

-- `validate_requires_graph`: true where the source raises no `ValueError`.
unfoldable pub validate_requires_graph : List RuleDefinition → Bool
unfolding conflicts
validate_requires_graph rules =
    let gated = ids (keep is_gated rules) in
    if any (λ rule. conflicts gated rule.requires) rules then false else true

pub record RulePack : Type 0 where
  pub rules : List RuleDefinition
  pub descriptions : List (String × String)

-- `{rule.id: rule for rule in rules}.get(id)` where no id stands twice
unfoldable pub find_rule : String → List RuleDefinition → Option RuleDefinition
find_rule id [] = none
find_rule id (rule ∷ rules) = if rule.id == id then some rule else find_rule id rules
