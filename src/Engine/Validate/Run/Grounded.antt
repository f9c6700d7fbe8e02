-- ===== src/Engine/Validate/Run/Grounded.antt =====
-- What grounding leaves of the red flags.
use avvalo.Prelude.{
  String, Bool, true, false, not, List, [], ◌∷◌, ◌≡◌, ◌⊎◌, inl, inr, refl, ap, arith, keep, take,
  contains, is_blank, is_empty, All, All-keep, All-take, All-mono, All-keep_of_All,
  All-of_keep_empty, Bool-cases,
}
use avvalo.Stdlib.{Stdlib}
use avvalo.Engine.Types.{DraftOutput, Evidence, RuleHit, Signal, Language}
use avvalo.Engine.Validate.Blocks.{
  Partition, evidence_ids, partition_red_flags, truncate_blocks, is_filler, max_bullets,
}
use avvalo.Engine.Validate.Blocks.Filler.{drop_filler-eq}
use avvalo.Engine.Validate.Run.{ground_flags, normalize_draft, validate}

-- Every red flag names one of the ids.
abbrev pub Cites : List String → List Evidence → Type 0
Cites ids flags = All (λ flag. contains flag.source_id ids ≡ true) flags

-- No red flag names anything.
abbrev pub Uncited : List Evidence → Type 0
Uncited flags = All (λ flag. is_blank flag.source_id ≡ true) flags

abbrev pub Grounds : List Evidence → List String → Partition → Type 0
Grounds flags ids p =
    ((p.unsupported ≡ false) × Cites ids p.kept)
    ⊎ ((p.unsupported ≡ true) × Uncited flags × (p.kept ≡ flags))

Uncited-of_empty :
    (flags : List Evidence)
    → is_empty (keep (λ (f : Evidence). not (is_blank f.source_id)) flags) ≡ true
    → Uncited flags
Uncited-of_empty flags h =
    All-mono (λ (f : Evidence). not (is_blank f.source_id) ≡ false)
      (λ f. is_blank f.source_id ≡ true) flags (λ f e. ground arith)
      (All-of_keep_empty (λ f. not (is_blank f.source_id)) flags h)

pub partition_red_flags-Grounds :
    (flags : List Evidence) (ids : List String) → Grounds flags ids (partition_red_flags flags ids)
unfolding partition_red_flags
partition_red_flags-Grounds [] ids = inl (refl, tt)
partition_red_flags-Grounds (flag ∷ flags) ids =
    elim (Bool-cases
      (is_empty (keep (λ (f : Evidence). not (is_blank f.source_id)) (flag ∷ flags)))) [
        | inl uncited ↦ rw uncited (inr (refl, Uncited-of_empty (flag ∷ flags) uncited, refl))
        | inr cited ↦ rw cited (inl (refl, All-keep (λ f. contains f.source_id ids) (flag ∷ flags)))
      ]

module _ (py : Stdlib) (draft : DraftOutput) (signals : List Signal) (rule_hits : List RuleHit)
    (language : Language) (card_ids : List String) where
  abbrev ids : List String
  ids = evidence_ids rule_hits signals card_ids

  -- The filters behind grounding only take red flags away, and leave no stock phrase.
  pub red_flags-normalize_draft :
      (p : Partition)
      → (normalize_draft py draft p).red_flags
        ≡ take max_bullets (keep (λ f. not (is_filler py f.text)) p.kept)
  unfolding normalize_draft truncate_blocks
  red_flags-normalize_draft p =
      ap (λ (d : DraftOutput). take max_bullets d.red_flags)
        (drop_filler-eq py (record draft { red_flags = p.kept }))

  -- With grounding required, every red flag of the validated draft names a reported rule, a signal
  -- or a selected card; or no red flag of the model's draft names anything, and that is reported.
  pub validate-Cites :
      (let v = validate py draft signals rule_hits language card_ids true in
        ((v.grounding_unsupported ≡ false)
          × Cites (evidence_ids rule_hits signals card_ids) v.draft.red_flags)
        ⊎ ((v.grounding_unsupported ≡ true) × Uncited draft.red_flags))
  unfolding validate ground_flags
  validate-Cites =
      let p = partition_red_flags draft.red_flags ids in
      elim (partition_red_flags-Grounds draft.red_flags ids) [
        | inl (supported, cites) ↦ inl (
          supported,
          rw (red_flags-normalize_draft p) (
              All-take (λ (f : Evidence). contains f.source_id ids ≡ true) max_bullets _
                (All-keep_of_All _ (λ f. not (is_filler py f.text)) p.kept cites)),
        )
        | inr (unsupported, uncited, same) ↦ inr (unsupported, uncited)
      ]

  -- No red flag of the validated draft is a stock phrase.
  pub validate_no_filler :
      (grounding : Bool)
      → All
          (λ (f : Evidence). is_filler py f.text ≡ false)
          (validate py draft signals rule_hits language card_ids grounding).draft.red_flags
  unfolding validate
  validate_no_filler grounding =
      let p = ground_flags py grounding draft.red_flags ids in
      rw (red_flags-normalize_draft p) (
        All-take (λ (f : Evidence). is_filler py f.text ≡ false) max_bullets _
          (All-mono (λ f. not (is_filler py f.text) ≡ true) _ _ (λ f e. ground arith)
            (All-keep (λ f. not (is_filler py f.text)) p.kept)))
