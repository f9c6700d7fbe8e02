-- ===== src/Engine/Format/Share.antt =====
-- `share_summary` of app/engine/format.py: a summary from stored rule ids alone. `none` for the pack
-- is a pack that could not be loaded.
use Prim.Native.String.{◌++◌}
use avvalo.Prelude.{
  ℕ, ◌+◌, String, Bool, ◌&&◌, ◌||◌, List, [], ◌∷◌, Option, none, some, ◌==◌, ltb, nat_eq,
  if◌then◌else◌, map, take, is_empty, join, lookup, insert, keys, replace,
}
use avvalo.Engine.Types.{Language}
use avvalo.Engine.Rules.Pack.{RuleDefinition, find_rule}
use avvalo.Engine.Knowledge.Ranking.{sorted, text_lt}
use avvalo.Engine.Format.Copy.{
  family_labels, share_lead, share_generic, share_caution, share_cta, share_families_before,
  share_families_after,
}

-- `(severity, index)` of the first rule of the highest severity in each family
abbrev Ranked : Type 0
Ranked = List (String × (ℕ × ℕ))

rank : RuleDefinition → ℕ → Option (ℕ × ℕ) → Ranked → Ranked
rank rule index none ranked = insert rule.family (rule.severity, index) ranked
rank rule index (some (severity, first)) ranked =
    if ltb severity rule.severity then insert rule.family (rule.severity, index) ranked else ranked

rank_found : Option RuleDefinition → ℕ → Ranked → Ranked
unfolding rank
rank_found none index ranked = ranked
rank_found (some rule) index ranked = rank rule index (lookup rule.family ranked) ranked

rank_all : List RuleDefinition → ℕ → List String → Ranked → Ranked
unfolding rank_found
rank_all rules index [] ranked = ranked
rank_all rules index (id ∷ ids) ranked =
    rank_all rules (index + 1) ids (rank_found (find_rule id rules) index ranked)

abbrev place : Option (ℕ × ℕ) → ℕ × ℕ
place none = (0, 0)
place (some p) = p

-- The key `(-severity, index, family)`.
family_before : Ranked → String → String → Bool
family_before ranked a b =
    let (s, i) = place (lookup a ranked) in
    let (t, j) = place (lookup b ranked) in
    ltb t s || nat_eq s t && (ltb i j || nat_eq i j && text_lt a b)

label_in : Language → String × String → String
label_in Language.uz_latn (uz, ru) = uz
label_in Language.ru (uz, ru) = ru

find_labels : String → List (String × String × String) → Option (String × String)
find_labels family [] = none
find_labels family ((name, uz, ru) ∷ table) =
    if name == family then some (uz, ru) else find_labels family table

or_words : String → Language → Option (String × String) → String
unfolding label_in
or_words family language none = replace "_" " " family
or_words family language (some labels) = label_in language labels

-- `_family_label`
family_label : Language → String → String
unfolding find_labels or_words
family_label language family = or_words family language (find_labels family family_labels)

-- `_top_family_labels`
unfoldable pub top_family_labels : List RuleDefinition → List String → Language → List String
unfolding rank_all family_before family_label
top_family_labels rules rule_ids language =
    let ranked = rank_all rules 0 rule_ids [] in
    map (family_label language) (take 3 (sorted (family_before ranked) (keys ranked)))

rules_of : Option (List RuleDefinition) → List RuleDefinition
rules_of none = []
rules_of (some rules) = rules

-- `_coerce_language` of a stored text
unfoldable pub coerce_language : String → Language
coerce_language language = if language == "ru" then Language.ru else Language.uz_latn

unfoldable pub share_summary : Option (List RuleDefinition) → List String → Language → String
unfolding rules_of top_family_labels
share_summary pack rule_ids language =
    let labels = top_family_labels (rules_of pack) rule_ids language in
    let families =
      share_families_before language ++ (join ", " labels ++ share_families_after language) in
    if is_empty labels
    then join "\n" (share_generic language ∷ share_cta language ∷ [])
    else join "\n"
        (share_lead language ∷ families ∷ share_caution language ∷ share_cta language ∷ [])
