-- ===== src/Engine/Knowledge/Retrieve/Selection.antt =====
-- What `retrieve_knowledge` can select, whatever a router proposes.
use avvalo.Prelude.{
  ℕ, ◌≤◌, String, true, false, List, [], ◌∷◌, Option, none, some, ◌≡◌, refl, ap, ◌∙◌, eq_iff, arith,
  length, contains, lookup, insert, lookup-insert, All, Distinct, fresh_from-Distinct,
  take-Distinct, length-take-le, Option-cases, inl, inr,
}
use native.Mathlib.Nat.{le_trans}
use avvalo.Stdlib.{Stdlib}
use avvalo.Engine.Types.{RuleHit, Signal}
use avvalo.Engine.Knowledge.Types.{KnowledgeCard, KnowledgeBase, RetrievalResult, Router, card_ids}
use avvalo.Engine.Knowledge.Retrieve.{
  max_cards, add_found, insert_cards, cards_by_id, cards_of, select, retrieve_knowledge,
}

-- Every card of a dictionary stands under its own id.
abbrev pub IsKeyed : List (String × KnowledgeCard) → Type 0
IsKeyed d = (id : String) (card : KnowledgeCard) → lookup id d ≡ some card → card.id ≡ id

insert_cards-IsKeyed :
    (cards : List KnowledgeCard) (d : List (String × KnowledgeCard))
    → IsKeyed d
    → IsKeyed (insert_cards cards d)
unfolding insert_cards
insert_cards-IsKeyed [] d h = h
insert_cards-IsKeyed (c ∷ cards) d h =
    insert_cards-IsKeyed cards (insert c.id c d)
      λ id card found. ground (arith, lookup-insert c.id id c d, eq_iff c.id id, h id card)

pub cards_by_id-IsKeyed : (cards : List KnowledgeCard) → IsKeyed (cards_by_id cards)
unfolding cards_by_id
cards_by_id-IsKeyed cards = insert_cards-IsKeyed cards [] (λ id card found. cc)

module _ (d : List (String × KnowledgeCard)) (keyed : IsKeyed d) where
  length-cards_of : (ids : List String) → length (cards_of d ids) ≤ length ids
  unfolding cards_of
  length-cards_of [] = omega arith
  length-cards_of (id ∷ ids) = ground (arith, length-cards_of ids)

  found_known :
      (id : String) (o : Option KnowledgeCard) (cards : List KnowledgeCard)
      → lookup id d ≡ o
      → All (λ c. lookup c.id d ≡ some c) cards
      → All (λ c. lookup c.id d ≡ some c) (add_found o cards)
  found_known id none cards found h = h
  found_known id (some c) cards found h = (ap (λ k. lookup k d) (keyed id c found) ∙ found, h)

  -- Every selected card is the one that the dictionary holds under its id.
  cards_of_known : (ids : List String) → All (λ c. lookup c.id d ≡ some c) (cards_of d ids)
  unfolding cards_of
  cards_of_known [] = tt
  cards_of_known (id ∷ ids) =
      found_known id (lookup id d) (cards_of d ids) refl (cards_of_known ids)

  contains-cards_of :
      (k : String) (ids : List String)
      → contains k (card_ids (cards_of d ids)) ≡ true
      → contains k ids ≡ true
  unfolding cards_of
  contains-cards_of k [] h = h
  contains-cards_of k (id ∷ ids) h = elim (Option-cases (lookup id d)) [
    | inl missing ↦ ground (arith, contains-cards_of k ids)
    | inr (c, found) ↦ ground (arith, contains-cards_of k ids, keyed id c found)
  ]

  found-Distinct :
      (id : String) (o : Option KnowledgeCard) (ids : List String)
      → lookup id d ≡ o
      → contains id ids ≡ false
      → Distinct (card_ids (cards_of d ids))
      → Distinct (card_ids (add_found o (cards_of d ids)))
  found-Distinct id none ids found fresh h = h
  found-Distinct id (some c) ids found fresh h =
      (ground (arith, contains-cards_of id ids, keyed id c found), h)

  cards_of-Distinct : (ids : List String) → Distinct ids → Distinct (card_ids (cards_of d ids))
  unfolding cards_of
  cards_of-Distinct [] h = tt
  cards_of-Distinct (id ∷ ids) h =
      found-Distinct id (lookup id d) ids refl h.0 (cards_of-Distinct ids h.1)

-- What a retrieval may hand on: at most three cards, no card twice, each of them the card of the
-- store under its id.
pub record IsAllowed (base : KnowledgeBase) (result : RetrievalResult) : Type 0 where
  pub few : length result.cards ≤ max_cards
  pub once : Distinct (card_ids result.cards)
  pub known : All (λ c. lookup c.id (cards_by_id base.cards) ≡ some c) result.cards

cards_of-IsAllowed :
    (base : KnowledgeBase) (mandatory : List String) (scores : List (String × ℕ))
    (router_ids : List String)
    → (let d = cards_by_id base.cards in
        let cards = cards_of d (select mandatory scores router_ids) in
        (length cards ≤ max_cards)
        × Distinct (card_ids cards)
        × All (λ c. lookup c.id d ≡ some c) cards)
unfolding select
cards_of-IsAllowed base mandatory scores router_ids =
    let d = cards_by_id base.cards in
    let keyed = cards_by_id-IsKeyed base.cards in
    let selected = select mandatory scores router_ids in
    (
      le_trans (length-cards_of d keyed selected) (length-take-le max_cards _),
      cards_of-Distinct d keyed selected (take-Distinct max_cards _ (fresh_from-Distinct [] _)),
      cards_of_known d keyed selected,
    )

module _ (py : Stdlib) (base : KnowledgeBase) (text : String) (rule_hits : List RuleHit)
    (signals : List Signal) (router : Option Router) where
  -- Whatever the router answers, at most three cards are selected, none of them twice, and each is
  -- the store's own card under its id.
  pub retrieve_knowledge-IsAllowed :
      IsAllowed base (retrieve_knowledge py (some base) text rule_hits signals router)
  unfolding retrieve_knowledge
  retrieve_knowledge-IsAllowed =
      let (few, once, known) = cards_of-IsAllowed base _ _ _ in
      record { few = few; once = once; known = known }
