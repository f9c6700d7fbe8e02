-- ===== src/Engine/Validate/Run/Accepted.antt =====
-- What an accepted draft satisfies.
use avvalo.Prelude.{
  ℕ, ◌≤◌, String, Bool, true, List, ◌≡◌, none, some, Option, refl, arith, length, length-take-le,
}
use avvalo.Stdlib.{Stdlib}
use avvalo.Engine.Types.{DraftOutput, RuleHit, Signal, Language}
use avvalo.Engine.Validate.Reason.{ValidationReason}
use avvalo.Engine.Validate.Content.{IsClean, content_reason-IsClean, normalize_for_matching}
use avvalo.Engine.Validate.Blocks.{evidence_ids, truncate_blocks, joined_text, max_bullets}
use avvalo.Engine.Validate.Blocks.Rules.{IsComplete, block_reason-IsComplete}
use avvalo.Engine.Validate.Run.{
  or_else, refine, is_none, first_rejection_reason, ground_flags, normalize_draft, validate,
}

-- No block is longer than three bullets.
pub record IsShort (draft : DraftOutput) : Type 0 where
  pub red_flags : length draft.red_flags ≤ max_bullets
  pub verify : length draft.verify ≤ max_bullets
  pub ask : length draft.ask ≤ max_bullets

pub truncate_blocks-IsShort : (draft : DraftOutput) → IsShort (truncate_blocks draft)
unfolding truncate_blocks
truncate_blocks-IsShort draft = record {
  red_flags = length-take-le max_bullets draft.red_flags;
  verify = length-take-le max_bullets draft.verify;
  ask = length-take-le max_bullets draft.ask;
}

or_else-none : (a b : Option ValidationReason) → or_else a b ≡ none → (a ≡ none) × (b ≡ none)
unfolding or_else
or_else-none none b h = (refl, h)
or_else-none (some a) b h = cc

refine-none :
    (dropped : ℕ) (reason : Option ValidationReason)
    → is_none (refine dropped reason) ≡ true
    → reason ≡ none
unfolding refine
refine-none dropped none h = refl
refine-none dropped (some ValidationReason.required_red_flags_empty) h = ground arith
refine-none dropped (some _) h = cc

-- What can be shown to a user.
pub record IsSafe (py : Stdlib) (draft : DraftOutput) (rule_hits : List RuleHit)
    (language : Language) (card_ids : List String) : Type 0 where
  pub short : IsShort draft
  pub complete : IsComplete draft rule_hits
  pub clean : IsClean py (normalize_for_matching py (joined_text draft)) language card_ids

module _ (py : Stdlib) (draft : DraftOutput) (signals : List Signal) (rule_hits : List RuleHit)
    (language : Language) (card_ids : List String) (grounding : Bool) where
  -- A draft that `validate` accepts has at most three bullets in each block, instructions in both
  -- instruction blocks, a red flag for a severe rule hit, exactly the ids that it may and must
  -- declare, and a visible text in which no banned word and none of the forbidden patterns is found.
  pub validate-IsSafe :
      (validate py draft signals rule_hits language card_ids grounding).ok ≡ true
      → IsSafe py
          (validate py draft signals rule_hits language card_ids grounding).draft
          rule_hits
          language
          card_ids
  unfolding validate
  validate-IsSafe accepted =
      let partition =
        ground_flags py grounding draft.red_flags (evidence_ids rule_hits signals card_ids) in
      let normal = normalize_draft py draft partition in
      let (text_ok, blocks_ok) = or_else-none _ _ (
        refine-none partition.dropped (first_rejection_reason py normal rule_hits language card_ids)
          accepted) in
      record {
        short = truncate_blocks-IsShort _;
        complete = block_reason-IsComplete normal rule_hits blocks_ok;
        clean = content_reason-IsClean py _ language card_ids text_ok;
      }
