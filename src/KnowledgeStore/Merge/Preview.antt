-- ===== src/KnowledgeStore/Merge/Preview.antt =====
-- What the preview of a card draft retrieves from.
use avvalo.Prelude.{
  String, Bool, true, false, not, ◌&&◌, List, [], ◌∷◌, ◌++◌, Option, none, some, ◌==◌, eq_iff, ◌≡◌,
  refl, ap, ◌∙◌, arith, if◌then◌else◌, contains, keep, All, lookup, insert, lookup-insert,
  Bool-cases, inl, inr, is_some, length, ◌≤◌, length-keep-le,
}
use avvalo.Stdlib.{Stdlib}
use avvalo.Raises.{Raises, ok, raised, ◌>>=◌}
use avvalo.Raises.Ensures.{Ensures, Ensures-ok}
use avvalo.Engine.Url.{OfficialDomainCatalog}
use avvalo.Engine.Rules.Pack.{RulePack}
use avvalo.Engine.Knowledge.Types.{KnowledgeCard, KnowledgeBase, card_ids}
use avvalo.Engine.Knowledge.Retrieve.{max_cards, insert_cards, cards_by_id}
use avvalo.Engine.Knowledge.Retrieve.Selection.{retrieve_knowledge-IsAllowed}
use avvalo.KnowledgeStore.Draft.{KnowledgeCardDraft, as_card}
use avvalo.KnowledgeStore.Merge.{CardPreview, candidate, preview_of, retrieved, preview_card}

abbrev without : String → List KnowledgeCard → List KnowledgeCard
without id cards = keep (λ (existing : KnowledgeCard). not (existing.id == id)) cards

insert_cards-append :
    (cards : List KnowledgeCard) (card : KnowledgeCard) (d : List (String × KnowledgeCard))
    → insert_cards (cards ++ card ∷ []) d ≡ insert card.id card (insert_cards cards d)
unfolding insert_cards
insert_cards-append [] card d = refl
insert_cards-append (c ∷ cards) card d = insert_cards-append cards card (insert c.id c d)

lookup_dropped :
    (id : String) (cards : List KnowledgeCard) (d : List (String × KnowledgeCard))
    → lookup id (insert_cards (without id cards) d) ≡ lookup id d
unfolding insert_cards
lookup_dropped id [] d = refl
lookup_dropped id (c ∷ cards) d = elim (Bool-cases (c.id == id)) [
  | inl same ↦ rw same (lookup_dropped id cards d)
  | inr other ↦
      rw other
        (lookup_dropped id cards (insert c.id c d) ∙ lookup-insert c.id id c d ∙ rw other refl)
]

lookup_kept :
    (id k : String) (cards : List KnowledgeCard) (left right : List (String × KnowledgeCard))
    → id == k ≡ false
    → lookup k left ≡ lookup k right
    → lookup k (insert_cards (without id cards) left) ≡ lookup k (insert_cards cards right)
unfolding insert_cards
lookup_kept id k [] left right h e = e
lookup_kept id k (c ∷ cards) left right h e = elim (Bool-cases (c.id == id)) [
  | inl same ↦ rw same (
      lookup_kept id k cards left (insert c.id c right) h (
        ground
          (arith, e, lookup-insert c.id k c right, eq_iff c.id id, eq_iff c.id k, eq_iff id k)))
  | inr other ↦ rw other (
      lookup_kept id k cards (insert c.id c left) (insert c.id c right) h
        (ground (arith, e, lookup-insert c.id k c left, lookup-insert c.id k c right)))
]

-- The specification of the cards that the preview tries
abbrev pub tried_card : KnowledgeCard → List KnowledgeCard → String → Option KnowledgeCard
tried_card card cards id =
    if card.id == id
    then if card.status == "approved" then some card else none
    else lookup id (cards_by_id cards)

lookup-without :
    (card : KnowledgeCard) (cards : List KnowledgeCard) (id : String)
    → lookup id (cards_by_id (without card.id cards))
      ≡ (if card.id == id then none else lookup id (cards_by_id cards))
unfolding cards_by_id
lookup-without card cards id = elim (Bool-cases (card.id == id)) [
  | inl same ↦ rw same (
      ap (λ k. lookup k (insert_cards (without card.id cards) []))
        (ground (arith, eq_iff card.id id))
      ∙ lookup_dropped card.id cards [])
  | inr other ↦ rw other (lookup_kept card.id id cards [] [] other refl)
]

lookup-candidate :
    (card : KnowledgeCard) (cards : List KnowledgeCard) (id : String)
    → lookup id (cards_by_id (candidate card cards)) ≡ tried_card card cards id
unfolding cards_by_id
lookup-candidate card cards id = elim (Bool-cases (card.status == "approved")) [
  | inl approved ↦ rw approved (
      ap (lookup id) (insert_cards-append (without card.id cards) card [])
      ∙ lookup-insert card.id id card (insert_cards (without card.id cards) [])
      ∙ ground (arith, lookup-without card cards id))
  | inr other ↦ rw other (lookup-without card cards id)
]

contains-known :
    (d : List (String × KnowledgeCard)) (cards : List KnowledgeCard) (k : String)
    → All (λ c. lookup c.id d ≡ some c) cards
    → contains k (card_ids cards) ≡ true
    → is_some (lookup k d) ≡ true
contains-known d [] k known h = ground arith
contains-known d (c ∷ cards) k known h =
    ground (arith, known.0, eq_iff c.id k, contains-known d cards k known.1)

length-card_ids : (cards : List KnowledgeCard) → length (card_ids cards) ≡ length cards
length-card_ids [] = refl
length-card_ids (c ∷ cards) = omega (arith, length-card_ids cards)

kept_few :
    (cards : List KnowledgeCard) (test : String → Bool)
    → length cards ≤ max_cards
    → length (keep test (card_ids cards)) ≤ max_cards
kept_few cards test h = ground (arith, length-card_ids cards, length-keep-le test (card_ids cards))

module _ (py : Stdlib) (catalog : OfficialDomainCatalog) (pack : RulePack) where
  -- What an operator may take from a preview
  pub record IsPreview (card : KnowledgeCard) (base : KnowledgeBase) (preview : CardPreview)
      : Type 0 where
    -- Only an approved card is selected.
    pub honest : (preview.selected && not (card.status == "approved")) ≡ false
    pub told : preview.not_approved ≡ not (card.status == "approved")
    -- The other cards are the base's, at most three.
    pub few : length preview.other_card_ids ≤ max_cards
    pub others :
        All
          (λ id. (card.id == id ≡ false) × (is_some (lookup id (cards_by_id base.cards)) ≡ true))
          preview.other_card_ids

  others-All :
      (card : KnowledgeCard) (base : KnowledgeBase) (cards : List KnowledgeCard)
      → All (λ c. lookup c.id (cards_by_id (candidate card base.cards)) ≡ some c) cards
      → All
          (λ id. (card.id == id ≡ false) × (is_some (lookup id (cards_by_id base.cards)) ≡ true))
          (keep (λ other. not (other == card.id)) (card_ids cards))
  others-All card base [] known = tt
  others-All card base (c ∷ cards) known = ground (
    arith,
    known.0,
    eq_iff c.id card.id,
    eq_iff card.id c.id,
    lookup-candidate card base.cards c.id,
    others-All card base cards known.1,
  )

  preview_of-IsPreview :
      (card : KnowledgeCard) (base : KnowledgeBase) (sample : String)
      → let tried : KnowledgeBase = record {
        version = base.version;
        cards = candidate card base.cards;
      } in
        IsPreview card base (preview_of card (retrieved py catalog pack tried sample))
  unfolding retrieved
  preview_of-IsPreview card base sample =
      let tried : KnowledgeBase = record {
        version = base.version;
        cards = candidate card base.cards;
      } in
      let allowed = retrieve_knowledge-IsAllowed py tried _ _ _ none in
      let result = retrieved py catalog pack tried sample in
      record {
        honest = ground (
          arith,
          contains-known (cards_by_id tried.cards) result.cards card.id allowed.known,
          lookup-candidate card base.cards card.id,
          eq_iff card.id card.id,
        );
        told = refl;
        few = kept_few result.cards (λ other. not (other == card.id)) allowed.few;
        others = others-All card base result.cards allowed.known;
      }

  tried-IsPreview :
      (found : Raises KnowledgeCard) (base : KnowledgeBase) (sample : String)
      (preview : CardPreview)
      → (found >>= λ card.
          let tried : KnowledgeBase = record {
            version = base.version;
            cards = candidate card base.cards;
          } in
          ok (preview_of card (retrieved py catalog pack tried sample)))
        ≡ ok preview
      → (card : KnowledgeCard) × (found ≡ ok card) × IsPreview card base preview
  tried-IsPreview (ok card) base sample preview h = (
    card,
    refl,
    Ensures-ok {P = IsPreview card base} _ preview
        (Ensures.returns (preview_of-IsPreview card base sample)) h,
  )
  tried-IsPreview (raised error) base sample preview h = ground arith

  -- A preview comes from a draft that validates. It reports the card as selected only where the card is
  -- approved, and besides it reports at most three ids, each of another card that the base in force holds.
  pub preview_card_lem :
      (draft : KnowledgeCardDraft) (sample : String) (base : KnowledgeBase) (preview : CardPreview)
      → preview_card py catalog pack draft sample base ≡ ok preview
      → (card : KnowledgeCard) × (as_card py draft ≡ ok card) × IsPreview card base preview
  unfolding preview_card
  preview_card_lem draft sample base preview h =
      tried-IsPreview (as_card py draft) base sample preview h
