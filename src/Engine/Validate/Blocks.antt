-- ===== src/Engine/Validate/Blocks.antt =====
-- The per-bullet filters of app/engine/validate.py, and the tests of the blocks.
pub mod Filler
pub mod Rules
use avvalo.Prelude.{
  ℕ, ◌+◌, ◌-◌, String, Bool, true, false, not, ◌&&◌, List, [], ◌∷◌, Option, none, some, leb, nat_eq,
  if◌then◌else◌, any, keep, take, length, map, contains, is_empty, is_blank, join, strip, translate,
}
use avvalo.Stdlib.{Stdlib}
use avvalo.Engine.Types.{DraftOutput, Evidence, RuleHit, Signal}
use avvalo.Engine.Rules.Matching.{translate_char}
use avvalo.Engine.Validate.Reason.{ValidationReason}
use avvalo.Engine.Validate.Tables.Filler.{filler_patterns, bullet_edge_re, uz_apostrophes}

abbrev append : List String → List String → List String
append = mathlib.Core.List.◌++◌

-- `_MAX_BULLETS`, `_RED_FLAG_MIN_SEVERITY`
abbrev pub max_bullets : ℕ
max_bullets = 3

abbrev pub red_flag_min_severity : ℕ
red_flag_min_severity = 2

-- What `_partition_red_flags` returns.
pub record Partition : Type 0 where
  pub kept : List Evidence
  pub dropped : ℕ
  pub unsupported : Bool

-- The facts that a red flag may rest on.
abbrev pub evidence_ids : List RuleHit → List Signal → List String → List String
evidence_ids rule_hits signals knowledge_card_ids =
    append (map (λ hit. hit.rule_id) rule_hits)
      (append (map (λ signal. signal.kind) signals) knowledge_card_ids)

-- `_partition_red_flags`, the evidence ids given
unfoldable pub partition_red_flags : List Evidence → List String → Partition
partition_red_flags [] ids = record { kept = []; dropped = 0; unsupported = false }
partition_red_flags (flag ∷ flags) ids =
    let red_flags = flag ∷ flags in
    let grounded = keep (λ f. contains f.source_id ids) red_flags in
    let cited = keep (λ f. not (is_blank f.source_id)) red_flags in
    if is_empty cited
    then record { kept = red_flags; dropped = 0; unsupported = true }
    else record {
      kept = grounded;
      dropped = length red_flags - length grounded;
      unsupported = false;
    }

module _ (py : Stdlib) where
  -- `_is_filler`
  unfoldable pub is_filler : String → Bool
  is_filler bullet =
      let folded = py.casefold (translate (translate_char uz_apostrophes) (py.nfkc bullet)) in
      let collapsed = py.re_sub "\\s+" " " (py.re_sub bullet_edge_re "" folded) in
      any (λ pattern. py.re_fullmatch pattern collapsed) filler_patterns

  -- `kept`, or the first bullet where none is left
  unfoldable pub or_first : List String → List String → List String
  or_first [] [] = []
  or_first [] (bullet ∷ bullets) = bullet ∷ []
  or_first (k ∷ kept) bullets = k ∷ kept

  -- `_filtered_or_last`
  unfoldable pub filtered_or_last : List String → List String
  unfolding or_first
  filtered_or_last bullets = or_first (keep (λ bullet. not (is_filler bullet)) bullets) bullets

  -- The number of bullets that `_drop_filler` removes.
  unfoldable pub filler_count : DraftOutput → ℕ
  filler_count draft =
      (length draft.red_flags - length (keep (λ f. not (is_filler f.text)) draft.red_flags))
      + (length draft.verify - length (filtered_or_last draft.verify))
      + (length draft.ask - length (filtered_or_last draft.ask))

  -- `_drop_filler`
  unfoldable pub drop_filler : DraftOutput → DraftOutput × ℕ
  drop_filler draft = if nat_eq (filler_count draft) 0 then (draft, 0) else (
    record draft {
      red_flags = keep (λ f. not (is_filler f.text)) draft.red_flags;
      verify = filtered_or_last draft.verify;
      ask = filtered_or_last draft.ask;
    },
    filler_count draft,
  )

-- `_truncate_blocks`
unfoldable pub truncate_blocks : DraftOutput → DraftOutput
truncate_blocks draft = record draft {
  red_flags = take max_bullets draft.red_flags;
  verify = take max_bullets draft.verify;
  ask = take max_bullets draft.ask;
}

abbrev pattern_text : Option String → String
pattern_text none = ""
pattern_text (some text) = text

-- `_joined_text`
unfoldable pub joined_text : DraftOutput → String
joined_text draft =
    let parts =
      append (map (λ flag. flag.text) draft.red_flags)
        (pattern_text draft.pattern ∷ append draft.verify draft.ask) in
    strip (join "\n" (keep (λ part. not (is_blank part)) parts))

abbrev pub is_severe : RuleHit → Bool
is_severe hit = leb red_flag_min_severity hit.severity

abbrev pub hit_ids : List RuleHit → List String
hit_ids = map (λ hit. hit.rule_id)

-- The tests of the blocks that end `_first_rejection_reason`; `left - right` is a set difference.
abbrev pub difference : List String → List String → List String
difference left right = keep (λ id. not (contains id right)) left

unfoldable pub block_reason : DraftOutput → Bool → List RuleHit → Option ValidationReason
block_reason draft requires_red_flag rule_hits =
    if is_empty draft.verify
    then some ValidationReason.verify_block_empty
    else if is_empty draft.ask
    then some ValidationReason.ask_block_empty
    else if requires_red_flag && is_empty draft.red_flags
    then some ValidationReason.required_red_flags_empty
    else if not (is_empty (difference draft.addressed_rule_ids (hit_ids rule_hits)))
    then some ValidationReason.unknown_rule_ids
    else if not
        (is_empty (difference (hit_ids (keep is_severe rule_hits)) draft.addressed_rule_ids))
    then some ValidationReason.missing_rule_ids
    else none
