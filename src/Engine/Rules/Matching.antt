-- ===== src/Engine/Rules/Matching.antt =====
-- Text normalisation and pattern matching of app/engine/rules/engine.py.
use Prim.Native.String.{◌++◌}
use avvalo.Prelude.{
  Char, code, String, Bool, true, false, ◌≡◌, arith, ◌&&◌, ◌||◌, List, [], ◌∷◌, ◌==◌, nat_eq,
  if◌then◌else◌, any, strip, starts_with, remove_prefix, has_sub, translate,
}
use avvalo.Stdlib.{Stdlib}
use avvalo.Engine.Rules.Pack.{RuleDefinition, match_mode_word_prefix}
use avvalo.Engine.Rules.Tables.{apostrophes}

-- `s.translate(table)` of one character
unfoldable pub translate_char : List (Char × Char) → Char → Char
translate_char [] c = c
translate_char ((from, to) ∷ table) c =
    if nat_eq (code from) (code c) then to else translate_char table c

-- Both letters "io", small and capital, become the small "ie".
unfoldable pub fold_io : Char → Char
fold_io c = if nat_eq (code c) 0x451 || nat_eq (code c) 0x401 then "е" else c

abbrev append : List String → List String → List String
append = mathlib.Core.List.◌++◌

-- The patterns of all groups, in the order in which the source goes through them.
abbrev pub all_patterns : List (String × List String) → List String
all_patterns [] = []
all_patterns ((language, patterns) ∷ groups) = append patterns (all_patterns groups)

module _ (py : Stdlib) where
  unfoldable pub normalize_text : String → String
  unfolding translate_char fold_io
  normalize_text text =
      let normalized = translate fold_io (translate (translate_char apostrophes) (py.nfkc text)) in
      strip (py.re_sub "\\s+" " " (py.casefold normalized))

  -- `_word_prefix_matcher(literal).search(text)`
  word_prefix_search : String → String → Bool
  word_prefix_search literal text = py.re_search ("(?<!\\w)" ++ py.re_escape literal) text

  -- A pattern that does not compile matches nothing.
  pub pattern_matches : String → String → String → Bool
  unfolding word_prefix_search
  pattern_matches normalized_pattern normalized_text match_mode =
      let pattern = remove_prefix "regex:" normalized_pattern in
      if starts_with "regex:" normalized_pattern
      then py.re_compiles pattern && py.re_search pattern normalized_text
      else if match_mode == match_mode_word_prefix
      then word_prefix_search normalized_pattern normalized_text
      else has_sub normalized_pattern normalized_text

  pub any_pattern_matches : List (String × List String) → String → String → Bool
  any_pattern_matches groups match_mode normalized_text =
      any (λ pattern. pattern_matches (normalize_text pattern) normalized_text match_mode)
        (all_patterns groups)

  -- An excluded pattern wins over whatever the match groups found.
  pub rule_matches : RuleDefinition → String → Bool
  rule_matches rule normalized_text =
      if any_pattern_matches rule.exclude rule.match_mode normalized_text
      then false
      else any_pattern_matches rule.match rule.match_mode normalized_text

  -- A rule that matches has a pattern that matches.
  pub rule_matches-any :
      (rule : RuleDefinition) (text : String)
      → rule_matches rule text ≡ true
      → any
          (λ pattern. pattern_matches (normalize_text pattern) text rule.match_mode)
          (all_patterns rule.match)
        ≡ true
  unfolding rule_matches any_pattern_matches
  rule_matches-any rule text h = ground arith
