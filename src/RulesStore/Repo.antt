-- ===== src/RulesStore/Repo.antt =====
-- The table `rule_override` and its operations in app/rules_store/repo.py. The id and the time of a
-- write are given; the database refuses a second row with one rule id.
pub mod Table
pub mod Loaded
use avvalo.Prelude.{
  ℕ, String, Bool, not, List, [], ◌∷◌, ◌++◌, Option, none, some, if◌then◌else◌, map,
}
use avvalo.Stdlib.{Stdlib}
use avvalo.Raises.{Raises, ok, raised, ◌>>=◌, ◌>>◌, require}
use avvalo.Engine.Rules.Pack.{RuleDefinition}
use avvalo.Engine.Rules.Loader.{Groups, has_entries, from_mapping}
use avvalo.Overrides.Table.{is_taken, replaced, get_row, delete_row, newest}
use avvalo.Overrides.Collected.{Reading, Collected, collect}
use avvalo.RulesStore.Draft.{
  RuleOverrideDraft, normalized, validate_patterns, validate_exclude, validate_match_mode,
  validate_requires,
}

-- A column that is NULL is `none`.
pub record RuleOverride : Type 0 where
  pub id : ℕ
  pub rule_id : String
  pub family : String
  pub description : String
  pub message_key : String
  pub severity : ℕ
  pub emits_signal : Option String
  pub patterns : Groups
  pub exclude : Option Groups
  pub match_mode : Option String
  pub requires : Option Groups
  pub disabled : Bool
  pub created_ts : ℕ
  pub updated_ts : ℕ

abbrev pub row_of : RuleOverrideDraft → ℕ → ℕ → ℕ → RuleOverride
row_of values id created updated = record {
  id = id;
  rule_id = values.rule_id;
  family = values.family;
  description = values.description;
  message_key = values.message_key;
  severity = values.severity;
  emits_signal = values.emits_signal;
  patterns = values.patterns;
  exclude = some values.exclude;
  match_mode = some values.match_mode;
  requires = values.requires;
  disabled = values.disabled;
  created_ts = created;
  updated_ts = updated;
}

abbrev pub row_id : RuleOverride → ℕ
row_id row = row.id

abbrev pub row_name : RuleOverride → String
row_name row = row.rule_id

abbrev pub row_time : RuleOverride → ℕ
row_time row = row.updated_ts

module _ (py : Stdlib) where
  -- `create_override`
  unfoldable pub create_override :
      RuleOverrideDraft → ℕ → ℕ → List RuleOverride → Raises (List RuleOverride)
  create_override draft id now rows = do
    values ← normalized py draft
    require (not (is_taken row_id row_name id values.rule_id rows)) "IntegrityError"
    ok (rows ++ row_of values id now now ∷ [])

  -- `update_override`, of the row with the id
  pub update_override : RuleOverrideDraft → ℕ → ℕ → List RuleOverride → Raises (List RuleOverride)
  update_override draft id now rows = do
    values ← normalized py draft
    require (not (is_taken row_id row_name id values.rule_id rows)) "IntegrityError"
    ok (
        map (replaced row_id id (λ (row : RuleOverride). row_of values row.id row.created_ts now))
          rows)

-- `get_override`
abbrev pub get_override : ℕ → List RuleOverride → Option RuleOverride
get_override = get_row row_id

-- `delete_override`
abbrev pub delete_override : ℕ → List RuleOverride → List RuleOverride
delete_override = delete_row row_id

-- `list_overrides`: the newest change first
unfoldable pub list_overrides : List RuleOverride → List RuleOverride
list_overrides rows = newest row_time rows

abbrev pub requirement_groups : Option Groups → Groups
requirement_groups none = []
requirement_groups (some groups) = groups

module _ (py : Stdlib) where
  -- The definition of one row, where it validates.
  unfoldable pub definition_of : RuleOverride → Raises RuleDefinition
  definition_of row = do
    patterns ← validate_patterns py row.patterns
    exclude ← validate_exclude py row.exclude
    match_mode ← validate_match_mode py row.match_mode
    requires ← validate_requires py row.requires
    require (has_entries patterns) "no_patterns"
    ok (record {
      id = row.rule_id;
      family = row.family;
      desc = row.description;
      message_key = row.message_key;
      severity = row.severity;
      match = patterns;
      emits_signal = row.emits_signal;
      exclude = exclude;
      match_mode = match_mode;
      requires = from_mapping (requirement_groups requires);
    })

  -- A row that does not validate is skipped.
  abbrev pub read_result : Raises RuleDefinition → Reading RuleDefinition
  read_result (raised error) = Reading.skipped
  read_result (ok rule) = Reading.gives rule

  -- The body of the loop of `load_overrides`
  unfoldable pub reading_of : RuleOverride → Reading RuleDefinition
  unfolding definition_of
  reading_of row =
      if row.disabled then Reading.suppresses row.rule_id else read_result (definition_of row)

  unfoldable pub load_overrides : List RuleOverride → Collected RuleDefinition
  unfolding reading_of list_overrides
  load_overrides rows = collect reading_of (list_overrides rows)
