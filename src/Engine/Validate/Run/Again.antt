-- ===== src/Engine/Validate/Run/Again.antt =====
-- Validation brings a draft to a form that it leaves alone.
use avvalo.Prelude.{
  String, Bool, true, false, not, List, [], ◌∷◌, ◌≡◌, inl, inr, refl, ap, ◌∙◌, sym, arith, keep,
  take, contains, is_blank, is_empty, All-take, All-keep_of_All, keep_self, keep-take-keep,
  take-take,
}
use avvalo.Stdlib.{Stdlib}
use avvalo.Engine.Types.{DraftOutput, Evidence, RuleHit, Signal, Language}
use avvalo.Engine.Validate.Blocks.{
  Partition, evidence_ids, partition_red_flags, truncate_blocks, is_filler, filtered_or_last,
  max_bullets,
}
use avvalo.Engine.Validate.Blocks.Filler.{drop_filler-eq, filtered_or_last_again}
use avvalo.Engine.Validate.Run.{ground_flags, normalize_draft, validate}
use avvalo.Engine.Validate.Run.Grounded.{Cites, Uncited, partition_red_flags-Grounds}

-- Grounding keeps a list whose members all cite, and one whose members cite nothing.
kept_if_Cites :
    (flags : List Evidence) (ids : List String)
    → Cites ids flags
    → (partition_red_flags flags ids).kept ≡ flags
unfolding partition_red_flags
kept_if_Cites [] ids h = refl
kept_if_Cites (flag ∷ flags) ids h =
    ground (arith, keep_self (λ (f : Evidence). contains f.source_id ids) (flag ∷ flags) h)

keep-Uncited :
    (flags : List Evidence)
    → Uncited flags
    → is_empty (keep (λ (f : Evidence). not (is_blank f.source_id)) flags) ≡ true
keep-Uncited [] h = refl
keep-Uncited (flag ∷ flags) h = ground (arith, keep-Uncited flags h.1, h.0)

kept_if_Uncited :
    (flags : List Evidence) (ids : List String)
    → Uncited flags
    → (partition_red_flags flags ids).kept ≡ flags
unfolding partition_red_flags
kept_if_Uncited [] ids h = refl
kept_if_Uncited (flag ∷ flags) ids h = rw (keep-Uncited (flag ∷ flags) h)

abbrev no_filler : Stdlib → Evidence → Bool
no_filler py f = not (is_filler py f.text)

module _ (py : Stdlib) (ids : List String) where
  -- The flags that a first validation leaves pass grounding again.
  ground_again :
      (grounding : Bool) (flags : List Evidence)
      → (let p = ground_flags py grounding flags ids in
          let left = take max_bullets (keep (no_filler py) p.kept) in
          (ground_flags py grounding left ids).kept ≡ left)
  unfolding ground_flags
  ground_again false flags = refl
  ground_again true flags = elim (partition_red_flags-Grounds flags ids) [
    | inl (supported, cites) ↦ kept_if_Cites _ ids (
        All-take (λ (f : Evidence). contains f.source_id ids ≡ true) max_bullets _
          (All-keep_of_All _ (no_filler py) _ cites))
    | inr (unsupported, uncited, same) ↦ kept_if_Uncited _ ids (
        All-take (λ (f : Evidence). is_blank f.source_id ≡ true) max_bullets _
          (All-keep_of_All _ (no_filler py) _ (rw same uncited)))
  ]

module _ (py : Stdlib) (draft : DraftOutput) where
  abbrev normal_form : Partition → DraftOutput
  normal_form p = record draft {
    red_flags = take max_bullets (keep (no_filler py) p.kept);
    verify = take max_bullets (filtered_or_last py draft.verify);
    ask = take max_bullets (filtered_or_last py draft.ask);
  }

normalize_draft-eq :
    (py : Stdlib) (draft : DraftOutput) (p : Partition)
    → normalize_draft py draft p ≡ normal_form py draft p
unfolding normalize_draft truncate_blocks
normalize_draft-eq py draft p =
    ap truncate_blocks (drop_filler-eq py (record draft { red_flags = p.kept }))

module _ (py : Stdlib) (ids : List String) (grounding : Bool) where
  abbrev grounded : DraftOutput → Partition
  grounded d = ground_flags py grounding d.red_flags ids

  normal_form_again :
      (draft : DraftOutput)
      → (let d = normal_form py draft (grounded draft) in normal_form py d (grounded d) ≡ d)
  normal_form_again draft i =
      let p = grounded draft in
      let flags : take max_bullets (keep (no_filler py) (grounded (normal_form py draft p)).kept)
          ≡ take max_bullets (keep (no_filler py) p.kept) =
        rw
          (
            ground_again py ids grounding draft.red_flags,
            keep-take-keep (no_filler py) max_bullets p.kept,
          )
          (take-take max_bullets (keep (no_filler py) p.kept)) in
      record (normal_form py draft p) {
        red_flags = flags i;
        verify = filtered_or_last_again py draft.verify i;
        ask = filtered_or_last_again py draft.ask i;
      }

module _ (py : Stdlib) (draft : DraftOutput) (signals : List Signal) (rule_hits : List RuleHit)
    (language : Language) (card_ids : List String) (grounding : Bool) where
  abbrev round : DraftOutput → DraftOutput
  round d = (validate py d signals rule_hits language card_ids grounding).draft

  -- The draft that a validation returns is left unchanged by a second validation with the same
  -- facts: the filters and the truncation are stable.
  validate_again : round (round draft) ≡ round draft
  unfolding validate
  validate_again =
      let ids = evidence_ids rule_hits signals card_ids in
      let normal = normalize_draft-eq py draft (grounded py ids grounding draft) in
      let d = normal_form py draft (grounded py ids grounding draft) in
      ap (λ x. normalize_draft py x (grounded py ids grounding x)) normal
      ∙ normalize_draft-eq py d (grounded py ids grounding d)
      ∙ normal_form_again py ids grounding draft
      ∙ sym normal
