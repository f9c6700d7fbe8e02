-- ===== src/Engine/Validate/Run.antt =====
-- `validate` of app/engine/validate.py.
pub mod Accepted
pub mod Grounded
pub mod Again
use avvalo.Prelude.{
  ℕ, String, Bool, true, false, not, ◌&&◌, List, [], ◌∷◌, Option, none, some, leb, nat_eq,
  if◌then◌else◌, any, is_empty,
}
use avvalo.Stdlib.{Stdlib}
use avvalo.Engine.Types.{DraftOutput, Evidence, RuleHit, Signal, Language}
use avvalo.Engine.Validate.Reason.{ValidationReason}
use avvalo.Engine.Validate.Content.{normalize_for_matching, content_reason}
use avvalo.Engine.Validate.Blocks.{
  Partition, evidence_ids, partition_red_flags, drop_filler, truncate_blocks, joined_text,
  is_severe, block_reason,
}

pub record ValidationResult : Type 0 where
  pub ok : Bool
  pub draft : DraftOutput
  pub reason : Option ValidationReason
  pub no_signal : Bool
  pub dropped_ungrounded : ℕ
  pub dropped_filler : ℕ
  pub grounding_unsupported : Bool

unfoldable pub or_else : Option ValidationReason → Option ValidationReason → Option ValidationReason
or_else none other = other
or_else (some reason) other = some reason

-- An empty block that grounding emptied is reported as ungrounded.
unfoldable pub refine : ℕ → Option ValidationReason → Option ValidationReason
refine dropped (some ValidationReason.required_red_flags_empty) =
    if nat_eq dropped 0
    then some ValidationReason.required_red_flags_empty
    else some ValidationReason.ungrounded_red_flag
refine dropped reason = reason

abbrev is_none : Option ValidationReason → Bool
is_none none = true
is_none (some reason) = false

module _ (py : Stdlib) where
  -- `_first_rejection_reason`
  unfoldable pub first_rejection_reason :
      DraftOutput → List RuleHit → Language → List String → Option ValidationReason
  unfolding or_else
  first_rejection_reason draft rule_hits language knowledge_card_ids =
      let scan_text = normalize_for_matching py (joined_text draft) in
      or_else (content_reason py scan_text (py.casefold scan_text) language knowledge_card_ids)
        (block_reason draft (any is_severe rule_hits) rule_hits)

  -- The red flags that grounding keeps, where it is required.
  unfoldable pub ground_flags : Bool → List Evidence → List String → Partition
  ground_flags require_grounding red_flags ids =
      if require_grounding
      then partition_red_flags red_flags ids
      else record { kept = red_flags; dropped = 0; unsupported = false }

  -- The draft after the filters and the truncation.
  unfoldable pub normalize_draft : DraftOutput → Partition → DraftOutput
  normalize_draft draft partition =
      truncate_blocks (drop_filler py (record draft { red_flags = partition.kept })).0

  unfoldable pub validate :
      DraftOutput → List Signal → List RuleHit → Language → List String → Bool → ValidationResult
  unfolding refine first_rejection_reason ground_flags normalize_draft
  validate draft signals rule_hits language knowledge_card_ids require_grounding =
      let ids = evidence_ids rule_hits signals knowledge_card_ids in
      let partition = ground_flags require_grounding draft.red_flags ids in
      let normalized = normalize_draft draft partition in
      let reason =
        refine partition.dropped
          (first_rejection_reason normalized rule_hits language knowledge_card_ids) in
      record {
        ok = is_none reason;
        draft = normalized;
        reason = reason;
        no_signal = is_empty rule_hits && is_empty normalized.red_flags;
        dropped_ungrounded = partition.dropped;
        dropped_filler = (drop_filler py (record draft { red_flags = partition.kept })).1;
        grounding_unsupported = partition.unsupported;
      }
