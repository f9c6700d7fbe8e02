-- ===== src/Engine/Validate/Blocks/Rules.antt =====
-- What the block tests of app/engine/validate.py establish.
use avvalo.Prelude.{
  String, true, false, not, List, ◌≡◌, none, arith, any, keep, contains, is_empty, All,
  All-of_keep_empty, All-mono,
}
use avvalo.Engine.Types.{DraftOutput, RuleHit}
use avvalo.Engine.Validate.Blocks.{is_severe, hit_ids, difference, block_reason}

pub All-contains_of_difference :
    (left right : List String)
    → is_empty (difference left right) ≡ true
    → All (λ id. contains id right ≡ true) left
All-contains_of_difference left right h =
    All-mono (λ id. not (contains id right) ≡ false) (λ id. contains id right ≡ true) left
      (λ id e. ground arith) (All-of_keep_empty (λ id. not (contains id right)) left h)

-- A draft whose blocks pass: both instruction blocks are filled, a severe rule hit has a red flag,
-- and the declared ids are the reported ones, with every severe one among them.
pub record IsComplete (draft : DraftOutput) (rule_hits : List RuleHit) : Type 0 where
  pub verify : is_empty draft.verify ≡ false
  pub ask : is_empty draft.ask ≡ false
  pub red_flags : any is_severe rule_hits ≡ true → is_empty draft.red_flags ≡ false
  pub known : All (λ id. contains id (hit_ids rule_hits) ≡ true) draft.addressed_rule_ids
  pub addressed :
      All (λ id. contains id draft.addressed_rule_ids ≡ true) (hit_ids (keep is_severe rule_hits))

pub block_reason-IsComplete :
    (draft : DraftOutput) (rule_hits : List RuleHit)
    → block_reason draft (any is_severe rule_hits) rule_hits ≡ none
    → IsComplete draft rule_hits
unfolding block_reason
block_reason-IsComplete draft rule_hits h = record {
  verify = ground arith;
  ask = ground arith;
  red_flags = λ severe. ground arith;
  known = All-contains_of_difference draft.addressed_rule_ids (hit_ids rule_hits) (ground arith);
  addressed =
      All-contains_of_difference (hit_ids (keep is_severe rule_hits)) draft.addressed_rule_ids
        (ground arith);
}
