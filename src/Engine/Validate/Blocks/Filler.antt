-- ===== src/Engine/Validate/Blocks/Filler.antt =====
-- What `_drop_filler` of app/engine/validate.py leaves and counts.
use avvalo.Prelude.{
  ◌+◌, ◌≤◌, String, Bool, true, not, List, [], ◌∷◌, ◌≡◌, refl, arith, keep, take, length, is_empty,
  length-keep-le, keep-eq_of_length, All, All-keep, All-take, keep_self, take-take,
}
use avvalo.Stdlib.{Stdlib}
use avvalo.Engine.Types.{DraftOutput, Evidence}
use avvalo.Engine.Validate.Blocks.{
  is_filler, or_first, filtered_or_last, filler_count, drop_filler, max_bullets,
}

module _ (py : Stdlib) where
  length-filtered_or_last :
      (bullets : List String) → length (filtered_or_last py bullets) ≤ length bullets
  unfolding filtered_or_last
  length-filtered_or_last [] = omega arith
  length-filtered_or_last (b ∷ bullets) =
      ground (arith, length-keep-le (λ x. not (is_filler py x)) bullets)

  or_first_short :
      (bullets kept : List String)
      → length bullets ≤ length (or_first py kept bullets)
      → (length bullets ≤ length kept → kept ≡ bullets)
      → or_first py kept bullets ≡ bullets
  unfolding or_first
  or_first_short [] [] h same = refl
  or_first_short (b ∷ []) [] h same = refl
  or_first_short (b ∷ c ∷ bullets) [] h same = absurd (omega arith)
  or_first_short bullets (k ∷ kept) h same = same h

  filtered_or_last_short :
      (bullets : List String)
      → length bullets ≤ length (filtered_or_last py bullets)
      → filtered_or_last py bullets ≡ bullets
  unfolding filtered_or_last
  filtered_or_last_short bullets h =
      or_first_short bullets (keep (λ b. not (is_filler py b)) bullets) h
        (keep-eq_of_length (λ b. not (is_filler py b)) bullets)

  -- The block is empty only if it was.
  pub is_empty-filtered_or_last :
      (bullets : List String) → is_empty (filtered_or_last py bullets) ≡ is_empty bullets
  unfolding filtered_or_last
  is_empty-filtered_or_last [] = refl
  is_empty-filtered_or_last (b ∷ bullets) = ground arith

  pub drop_filler-eq :
      (draft : DraftOutput)
      → (drop_filler py draft).0 ≡ record draft {
        red_flags = keep (λ f. not (is_filler py f.text)) draft.red_flags;
        verify = filtered_or_last py draft.verify;
        ask = filtered_or_last py draft.ask;
      }
  unfolding drop_filler filler_count
  drop_filler-eq draft = ground (
    arith,
    keep-eq_of_length (λ (f : Evidence). not (is_filler py f.text)) draft.red_flags,
    filtered_or_last_short draft.verify,
    filtered_or_last_short draft.ask,
    length-keep-le (λ (f : Evidence). not (is_filler py f.text)) draft.red_flags,
    length-filtered_or_last draft.verify,
    length-filtered_or_last draft.ask,
  )

  -- Every bullet is either kept or counted as dropped.
  pub drop_filler_counts :
      (draft : DraftOutput)
      → (let (kept, dropped) = drop_filler py draft in
          length kept.red_flags + length kept.verify + length kept.ask + dropped
          ≡ length draft.red_flags + length draft.verify + length draft.ask)
  unfolding drop_filler filler_count
  drop_filler_counts draft = ground (
    arith,
    length-keep-le (λ (f : Evidence). not (is_filler py f.text)) draft.red_flags,
    length-filtered_or_last draft.verify,
    length-filtered_or_last draft.ask,
  )

  abbrev says_something : String → Bool
  says_something bullet = not (is_filler py bullet)

  or_first_again :
      (bullets kept : List String)
      → All (λ b. says_something b ≡ true) kept
      → take max_bullets (filtered_or_last py (take max_bullets (or_first py kept bullets)))
        ≡ take max_bullets (or_first py kept bullets)
  unfolding filtered_or_last or_first
  or_first_again [] [] h = refl
  or_first_again (b ∷ bullets) [] h = ground arith
  or_first_again bullets (k ∷ kept) h =
      rw
        (keep_self says_something (k ∷ take 2 kept)
          (h.0, All-take (λ b. says_something b ≡ true) 2 kept h.1))
        (take-take max_bullets (k ∷ kept))

  -- A block that was filtered and cut is left alone by a second round.
  pub filtered_or_last_again :
      (bullets : List String)
      → take max_bullets (filtered_or_last py (take max_bullets (filtered_or_last py bullets)))
        ≡ take max_bullets (filtered_or_last py bullets)
  unfolding filtered_or_last
  filtered_or_last_again bullets =
      or_first_again bullets (keep says_something bullets) (All-keep says_something bullets)
