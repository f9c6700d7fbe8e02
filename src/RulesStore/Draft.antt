-- ===== src/RulesStore/Draft.antt =====
-- `RuleOverrideDraft.normalized` and its validators in app/rules_store/repo.py. An error is raised with
-- its message. A severity is not negative.
use Prim.Native.String.{◌++◌}
use avvalo.Prelude.{
  ℕ, zero, suc, String, Bool, true, not, ◌&&◌, ◌||◌, List, [], ◌∷◌, Option, none, some, ◌==◌, leb,
  ltb, if◌then◌else◌, map, all, keep, contains, is_blank, strip, len, length, starts_with,
}
use avvalo.Stdlib.{Stdlib}
use avvalo.Raises.{Raises, ok, raised, ◌>>=◌, ◌>>◌, require}
use avvalo.Engine.Rules.Pack.{match_mode_substring, match_mode_word_prefix}
use avvalo.Engine.Rules.Loader.{Groups, has_entries}

abbrev languages : List String
languages = "uz_latn" ∷ "uz_cyrl" ∷ "ru" ∷ []

abbrev rule_id_re : String
rule_id_re = "^[a-z][a-z0-9]*(?:\\.[a-z0-9_]+)+$"

abbrev family_re : String
family_re = "^[a-z][a-z0-9_]*$"

abbrev message_key_re : String
message_key_re = "^[a-z][a-z0-9_]*$"

abbrev description_max_chars : ℕ
description_max_chars = 400

abbrev pattern_max_chars : ℕ
pattern_max_chars = 120

abbrev max_patterns_per_language : ℕ
max_patterns_per_language = 60

abbrev regex_prefix : String
regex_prefix = "regex:"

abbrev min_literal_chars : ℕ
min_literal_chars = 3

abbrev requires_keys : List String
requires_keys = "any_of" ∷ "all_of" ∷ "signals" ∷ []

abbrev max_requires_entries : ℕ
max_requires_entries = 20

pub record RuleOverrideDraft : Type 0 where
  pub rule_id : String
  pub family : String
  pub description : String
  pub message_key : String
  pub severity : ℕ
  pub emits_signal : Option String
  pub patterns : Groups
  pub exclude : Groups
  pub match_mode : String
  pub requires : Option Groups
  pub disabled : Bool

-- `s[n:]`
abbrev drop_chars : ℕ → String → String
drop_chars zero s = s
drop_chars (suc n) String.[] = ""
drop_chars (suc n) (String.◌∷◌ c s) = drop_chars n s

abbrev or_blank : Option String → String
or_blank none = ""
or_blank (some s) = s

abbrev non_blank : List String → List String
non_blank entries = keep (λ entry. not (is_blank entry)) (map strip entries)

module _ (py : Stdlib) where
  -- `_validate_pattern`
  unfoldable pub validate_pattern : String → Raises String
  validate_pattern pattern =
      let expression = strip (drop_chars 6 pattern) in
      if ltb pattern_max_chars (len pattern)
      then raised "pattern_too_long"
      else if starts_with regex_prefix (py.casefold pattern)
      then if is_blank expression
        then raised "empty_regex"
        else if py.re_compiles expression
        then ok (regex_prefix ++ expression)
        else raised "invalid_regex"
      else if ltb (len pattern) min_literal_chars
      then raised "pattern_too_short"
      else ok pattern

  validate_all : List String → Raises (List String)
  validate_all [] = ok []
  validate_all (pattern ∷ patterns) = do
    valid ← validate_pattern pattern
    rest ← validate_all patterns
    ok (valid ∷ rest)

  -- The loop of `_validate_patterns`
  validate_groups : Groups → Raises Groups
  unfolding validate_all
  validate_groups [] = ok []
  validate_groups ((language, values) ∷ groups) = do
    require (contains language languages) "invalid_pattern_language"
    require (leb (length values) max_patterns_per_language) "invalid_patterns"
    entries ← validate_all (non_blank values)
    rest ← validate_groups groups
    ok ((language, entries) ∷ rest)

  -- `_validate_patterns`
  unfoldable pub validate_patterns : Groups → Raises Groups
  unfolding validate_groups
  validate_patterns [] = raised "invalid_patterns"
  validate_patterns (group ∷ groups) = validate_groups (group ∷ groups)

  -- `_validate_exclude`
  unfoldable pub validate_exclude : Option Groups → Raises Groups
  validate_exclude none = ok []
  validate_exclude (some []) = ok []
  validate_exclude (some (group ∷ groups)) = validate_patterns (group ∷ groups)

  -- `_validate_match_mode`
  unfoldable pub validate_match_mode : Option String → Raises String
  validate_match_mode raw =
      let given = py.casefold (strip (or_blank raw)) in
      let mode = if is_blank given then match_mode_substring else given in
      if contains mode (match_mode_substring ∷ match_mode_word_prefix ∷ [])
      then ok mode
      else raised "invalid_match_mode"

  -- The loop of `_validate_requires`
  validate_clauses : Groups → Raises Groups
  validate_clauses [] = ok []
  validate_clauses ((key, values) ∷ groups) = do
    require (contains key requires_keys) "invalid_requires"
    require (leb (length values) max_requires_entries) "invalid_requires"
    let expected : String = if key == "signals" then message_key_re else rule_id_re
    let folded : List String = map (λ value. py.casefold (strip value)) values
    let entries : List String = keep (λ entry. not (is_blank entry)) folded
    require (all (py.re_fullmatch expected) entries) "invalid_requires"
    rest ← validate_clauses groups
    ok ((key, entries) ∷ rest)

  -- `_validate_requires`
  unfoldable pub validate_requires : Option Groups → Raises (Option Groups)
  unfolding validate_clauses
  validate_requires none = ok none
  validate_requires (some []) = ok none
  validate_requires (some (group ∷ groups)) = do
    cleaned ← validate_clauses (group ∷ groups)
    require (has_entries cleaned) "invalid_requires"
    ok (some cleaned)

  abbrev signal_fits : Option String → Bool
  signal_fits none = true
  signal_fits (some signal) = py.re_fullmatch message_key_re signal

  abbrev folded_signal : Option String → Option String
  folded_signal raw =
      let signal = py.casefold (strip (or_blank raw)) in
      if is_blank signal then none else some signal

  -- `normalized`
  unfoldable pub normalized : RuleOverrideDraft → Raises RuleOverrideDraft
  unfolding validate_patterns validate_exclude validate_match_mode validate_requires
  normalized draft = do
    let rule_id : String = py.casefold (strip draft.rule_id)
    require (py.re_fullmatch rule_id_re rule_id) "invalid_rule_id"
    let family : String = py.casefold (strip draft.family)
    require (py.re_fullmatch family_re family) "invalid_family"
    let message_key : String = py.casefold (strip draft.message_key)
    require (py.re_fullmatch message_key_re message_key) "invalid_message_key"
    let description : String = strip draft.description
    require (not (is_blank description) && leb (len description) description_max_chars)
        "invalid_description"
    require (leb 1 draft.severity && leb draft.severity 3) "invalid_severity"
    let emits_signal : Option String = folded_signal draft.emits_signal
    require (signal_fits emits_signal) "invalid_emits_signal"
    patterns ← validate_patterns draft.patterns
    require (draft.disabled || has_entries patterns) "no_patterns"
    exclude ← validate_exclude (some draft.exclude)
    match_mode ← validate_match_mode (some draft.match_mode)
    requires ← validate_requires draft.requires
    ok (record {
      rule_id = rule_id;
      family = family;
      description = description;
      message_key = message_key;
      severity = draft.severity;
      emits_signal = emits_signal;
      patterns = patterns;
      exclude = exclude;
      match_mode = match_mode;
      requires = requires;
      disabled = draft.disabled;
    })
