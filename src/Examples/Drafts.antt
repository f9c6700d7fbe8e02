-- ===== src/Examples/Drafts.antt =====
-- Drafts: app/engine/validate.py and app/engine/knowledge/compose.py.
use avvalo.Prelude.{true, false, [], ◌∷◌, ◌≡◌, ◌⊎◌, refl, has_sub, keep_chars, strip}
use avvalo.Engine.Types.{Language, DraftOutput}
use avvalo.Engine.Validate.Blocks.{
  evidence_ids, drop_filler, is_filler, partition_red_flags, or_first, filtered_or_last,
  filler_count, truncate_blocks, joined_text, block_reason,
}
use avvalo.Engine.Validate.Content.{
  all_banned_words, uses_wrong_script, normalize_for_matching, has_banned_word, matches_any,
  claims_payment_confirmed, content_reason,
}
use avvalo.Engine.Validate.Run.{
  validate, or_else, refine, first_rejection_reason, ground_flags, normalize_draft,
}
use avvalo.Engine.Validate.Run.Accepted.{IsSafe, validate-IsSafe}
use avvalo.Engine.Validate.Run.Grounded.{Cites, Uncited, validate-Cites}
use avvalo.Examples.Fixtures.{py, draft, otp_hit}

abbrev uz : Language
uz = Language.uz_latn

draft_ok : (validate py draft [] (otp_hit ∷ []) uz [] true).ok ≡ true
unfolding validate or_else refine first_rejection_reason ground_flags normalize_draft
    all_banned_words uses_wrong_script normalize_for_matching has_banned_word matches_any
    claims_payment_confirmed content_reason partition_red_flags is_filler or_first filtered_or_last
    filler_count drop_filler truncate_blocks joined_text block_reason has_sub keep_chars strip
draft_ok = refl

validate-IsSafe_example :
    IsSafe py (validate py draft [] (otp_hit ∷ []) uz [] true).draft (otp_hit ∷ []) uz []
validate-IsSafe_example = validate-IsSafe py draft [] (otp_hit ∷ []) uz [] true draft_ok

validate-Cites_example :
    (let v = validate py draft [] (otp_hit ∷ []) uz [] true in
      ((v.grounding_unsupported ≡ false)
        × Cites (evidence_ids (otp_hit ∷ []) [] []) v.draft.red_flags)
      ⊎ ((v.grounding_unsupported ≡ true) × Uncited draft.red_flags))
validate-Cites_example = validate-Cites py draft [] (otp_hit ∷ []) uz []

abbrev once : DraftOutput
once = (validate py draft [] (otp_hit ∷ []) uz [] true).draft
