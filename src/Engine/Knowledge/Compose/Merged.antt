-- ===== src/Engine/Knowledge/Compose/Merged.antt =====
-- What composition adds to a draft, and what it keeps.
use avvalo.Prelude.{
  String, true, ◌&&◌, List, [], ◌∷◌, Option, none, some, ◌≡◌, inl, inr, refl, arith, map, contains,
  is_empty, All, All-append, All-mono, All-keep, All-keep_of_All, take, length, take-append,
  is_empty-eq, ℕ, zero, suc, ap, ◌≤◌, is_some, lookup, Bool-cases,
}
use avvalo.Stdlib.{Stdlib}
use avvalo.Engine.Types.{DraftOutput, Evidence, Language, language_value}
use avvalo.Engine.Knowledge.Types.{KnowledgeCard, LocalizedCardText}
use avvalo.Engine.Knowledge.Compose.{
  Composed, add_text, composed, contributing, merge_evidence, merge, compose_card_text,
}

module _ (P : Evidence → Type 0) where
  All-map :
      (id : String) (texts : List String)
      → ((text : String) → P (record { text = text; source_id = id }))
      → All P (map (λ text. record { text = text; source_id = id }) texts)
  All-map id [] h = tt
  All-map id (t ∷ texts) h = (h t, All-map id texts h)

  All-add_text :
      (id : String) (text : Option LocalizedCardText) (rest : Composed)
      → ((t : String) → P (record { text = t; source_id = id }))
      → All P rest.flags
      → All P (add_text id text rest).flags
  unfolding add_text
  All-add_text id none rest h all = all
  All-add_text id (some text) rest h all =
      All-append P _ rest.flags (All-map id text.red_flags h) all

-- Every composed red flag names one of the cards.
All-composed :
    (P : Evidence → Type 0) (language : Language) (cards : List KnowledgeCard)
    → All (λ (c : KnowledgeCard). (t : String) → P (record { text = t; source_id = c.id })) cards
    → All P (composed cards language).flags
unfolding composed
All-composed P language [] h = tt
All-composed P language (card ∷ cards) h =
    All-add_text P card.id (lookup (language_value language) card.localized)
      (composed cards language) h.0 (All-composed P language cards h.1)

contributing-mandatory :
    (cards : List KnowledgeCard) (mandatory : List String) (language : Language)
    → All
        (λ (c : KnowledgeCard). contains c.id mandatory ≡ true)
        (contributing cards mandatory language)
unfolding contributing
contributing-mandatory cards mandatory language =
    All-mono
      (λ (c : KnowledgeCard).
        contains c.id mandatory && is_some (lookup (language_value language) c.localized) ≡ true)
      (λ c. contains c.id mandatory ≡ true) _ (λ c h. ground arith) (All-keep _ cards)

take_none {ℓ} :
    {A : Type ℓ} (n : ℕ) (xs ys : List A) → n ≤ length ys → ys ≡ [] → take n xs ≡ take n ys
take_none zero xs ys h e = refl
take_none (suc n) xs ys h e = absurd (omega (arith, ap length e))

module _ (py : Stdlib) (draft : DraftOutput) (cards : List KnowledgeCard) (mandatory : List String)
    (language : Language) where
  abbrev result : DraftOutput
  result = compose_card_text py draft cards mandatory language

  abbrev pub reviewed : Composed
  reviewed = composed (contributing cards mandatory language) language

  -- Whatever holds of every red flag of the model, and of every red flag that names a mandatory card,
  -- holds of every red flag behind the composition.
  All-compose_card_text :
      (P : Evidence → Type 0)
      → All P draft.red_flags
      → ((f : Evidence) → contains f.source_id mandatory ≡ true → P f)
      → All P result.red_flags
  unfolding compose_card_text merge_evidence
  All-compose_card_text P model card =
      elim (Bool-cases (is_empty (contributing cards mandatory language))) [
        | inl none_there ↦ rw none_there model
        | inr some_there ↦ rw some_there (
            All-append P _ _
              (All-composed P language _ (
                All-mono (λ (c : KnowledgeCard). contains c.id mandatory ≡ true)
                  (λ (c : KnowledgeCard). (t : String) → P (record { text = t; source_id = c.id }))
                  _ (λ c h t. card _ h) (contributing-mandatory cards mandatory language)))
              (All-keep_of_All P _ draft.red_flags model))
      ]

  -- A prefix that the reviewed wording fills holds reviewed wording alone, in every block: the model
  -- cannot displace it.
  reviewed_first :
      (n : ℕ)
      → (n ≤ length reviewed.flags → take n result.red_flags ≡ take n reviewed.flags)
        × (n ≤ length reviewed.verify → take n result.verify ≡ take n reviewed.verify)
        × (n ≤ length reviewed.ask → take n result.ask ≡ take n reviewed.ask)
  unfolding compose_card_text merge_evidence merge composed
  reviewed_first n = elim (Bool-cases (is_empty (contributing cards mandatory language))) [
    | inl none_there ↦
        let empty : reviewed ≡ composed [] language =
          ap (λ (cs : List KnowledgeCard). composed cs language)
            (is_empty-eq (contributing cards mandatory language) none_there) in
        (
          λ h. take_none n _ reviewed.flags h (ap (λ (c : Composed). c.flags) empty),
          λ h. take_none n _ reviewed.verify h (ap (λ (c : Composed). c.verify) empty),
          λ h. take_none n _ reviewed.ask h (ap (λ (c : Composed). c.ask) empty),
        )
    | inr some_there ↦ rw some_there (
      take-append n reviewed.flags _,
      take-append n reviewed.verify _,
      take-append n reviewed.ask _,
    )
  ]
