-- ===== src/Engine/Knowledge/Retrieve/Routers.antt =====
-- When the router matters, and that mandatory cards come before all others.
use avvalo.Prelude.{
  ℕ, String, Bool, true, false, not, List, [], ◌∷◌, ◌++◌, Option, none, some, ◌≡◌, refl, ap, sym,
  ◌∙◌, eq_iff, arith, any, keep, take, map, contains, from_keys, lookup, keys, is_empty,
  fresh_from-Distinct, from_keys_self, contains-fresh_from-eq, contains-append, Option-cases,
  Bool-cases, inl, inr,
}
use mathlib.Core.List.{append-nil}
use mathlib.Core.Path.{subst}
use avvalo.Stdlib.{Stdlib}
use avvalo.Engine.Types.{RuleHit, Signal}
use avvalo.Engine.Rules.Matching.{normalize_text}
use avvalo.Engine.Knowledge.Types.{
  KnowledgeCard, KnowledgeBase, RetrievalResult, Router, RouterStatus,
}
use avvalo.Engine.Knowledge.Ranking.{
  sorted, ranks_before, contains-sorted, sorted-Distinct, sorted-MandatoryFirst,
  take-MandatoryFirst,
}
use avvalo.Engine.Knowledge.Retrieve.Selection.{IsKeyed, cards_by_id-IsKeyed}
use avvalo.Engine.Knowledge.Retrieve.{
  max_cards, is_found, assemble, cards_by_id, cards_of, select, score_of, mandatory_ids,
  rule_triggered, cue_scores, unrouted, ask_router, retrieve_knowledge,
}

not_asked :
    (router : Option Router) (known : List String) (text : String)
    → ask_router router true known text ≡ unrouted RouterStatus.not_used
unfolding ask_router
not_asked none known text = refl
not_asked (some route) known text = refl

-- Where the store's own triggers or cues find something, the ranked ids are those found.
ranked : List String → List (String × ℕ) → List String
ranked mandatory scores =
    sorted (ranks_before (λ id. contains id mandatory) (λ id. score_of (lookup id scores)))
      (from_keys (mandatory ++ keys scores))

select-ranked :
    (mandatory : List String) (scores : List (String × ℕ))
    → select mandatory scores [] ≡ take max_cards (ranked mandatory scores)
unfolding select ranked
select-ranked mandatory scores = ap (take max_cards) (
    ap from_keys (append-nil (ranked mandatory scores))
    ∙ from_keys_self (ranked mandatory scores)
        (sorted-Distinct _ (from_keys (mandatory ++ keys scores)) (fresh_from-Distinct [] _)))

-- A selection with an optional id holds every mandatory one.
select_mandatory :
    (mandatory : List String) (scores : List (String × ℕ)) (k : String)
    → any (λ id. not (contains id mandatory)) (select mandatory scores []) ≡ true
    → contains k mandatory ≡ true
    → contains k (select mandatory scores []) ≡ true
select_mandatory mandatory scores k optional m = rw (select-ranked mandatory scores) (
    take-MandatoryFirst (λ id. contains id mandatory) (λ id. score_of (lookup id scores)) max_cards
      (ranked mandatory scores) k (unfold ranked in sorted-MandatoryFirst _ _ _)
      (rw (select-ranked mandatory scores) at optional)
      (unfold ranked in
        (contains-sorted _ k (from_keys (mandatory ++ keys scores))
          ∙ ground (
            arith,
            contains-fresh_from-eq k [] (mandatory ++ keys scores),
            contains-append k mandatory (keys scores),
          )))
      m)

select_nothing :
    (mandatory : List String) (scores : List (String × ℕ))
    → is_found mandatory scores ≡ false
    → select mandatory scores [] ≡ []
unfolding select sorted
select_nothing [] [] h = refl
select_nothing [] (s ∷ scores) h = cc
select_nothing (m ∷ mandatory) scores h = cc

found_of_contains :
    (k : String) (mandatory : List String) (scores : List (String × ℕ))
    → contains k mandatory ≡ true
    → is_found mandatory scores ≡ true
found_of_contains k [] scores h = cc
found_of_contains k (m ∷ mandatory) scores h = refl

contains-keep_of :
    (k : String) (p : String → Bool) (ks : List String)
    → contains k ks ≡ true
    → p k ≡ true
    → contains k (keep p ks) ≡ true
contains-keep_of k p [] h m = h
contains-keep_of k p (j ∷ js) h m = ground (arith, eq_iff j k, contains-keep_of k p js)

-- An optional card among those selected has an optional id.
any_optional :
    (d : List (String × KnowledgeCard)) (keyed : IsKeyed d) (p : String → Bool) (ids : List String)
    → any (λ (c : KnowledgeCard). p c.id) (cards_of d ids) ≡ true
    → any p ids ≡ true
unfolding cards_of
any_optional d keyed p [] h = h
any_optional d keyed p (id ∷ ids) h = elim (Option-cases (lookup id d)) [
  | inl missing ↦ ground (arith, any_optional d keyed p ids)
  | inr (c, found) ↦ ground (arith, any_optional d keyed p ids, keyed id c found)
]

nothing_found :
    (base : KnowledgeBase) (triggered : Bool) (mandatory : List String) (scores : List (String × ℕ))
    → is_found mandatory scores ≡ false
    → ¬ (
        is_empty (assemble base triggered mandatory scores (unrouted RouterStatus.not_used)).cards
        ≡ false)
unfolding assemble cards_of
nothing_found base triggered mandatory scores nothing h = cc (
    ap (λ ids. is_empty (cards_of (cards_by_id base.cards) ids))
      (select_nothing mandatory scores nothing))

assemble_mandatory :
    (base : KnowledgeBase) (triggered : Bool) (mandatory : List String) (scores : List (String × ℕ))
    (id : String)
    → contains id mandatory ≡ true
    → (let r = assemble base triggered mandatory scores (unrouted RouterStatus.not_used) in
        any (λ (c : KnowledgeCard). not (contains c.id mandatory)) r.cards ≡ true
        → contains id r.mandatory_card_ids ≡ true)
unfolding assemble
assemble_mandatory base triggered mandatory scores id m optional =
    let d = cards_by_id base.cards in
    let selected = select mandatory scores [] in
    contains-keep_of id (λ k. contains k mandatory) selected
      (select_mandatory mandatory scores id
        (any_optional d (cards_by_id-IsKeyed base.cards) (λ k. not (contains k mandatory)) selected
          optional)
        m)
      m

module _ (py : Stdlib) (base : KnowledgeBase) (text : String) (rule_hits : List RuleHit)
    (signals : List Signal) (router : Option Router) where
  abbrev mandatory : List String
  mandatory =
      mandatory_ids base.cards (map (λ (hit : RuleHit). hit.rule_id) rule_hits)
        (map (λ (signal : Signal). signal.kind) signals)

  abbrev scores : List (String × ℕ)
  scores = cue_scores py base.cards (normalize_text py text)

  abbrev retrieve : Option Router → RetrievalResult
  retrieve = retrieve_knowledge py (some base) text rule_hits signals

  abbrev triggered : Bool
  triggered = rule_triggered base.cards (map (λ (hit : RuleHit). hit.rule_id) rule_hits)

  abbrev unrouted_result : RetrievalResult
  unrouted_result = assemble base triggered mandatory scores (unrouted RouterStatus.not_used)

  retrieve_found : is_found mandatory scores ≡ true → retrieve router ≡ unrouted_result
  unfolding retrieve_knowledge
  retrieve_found found =
      ap (assemble base triggered mandatory scores)
        (rw found (not_asked router (keys (cards_by_id base.cards)) text))

  -- Where triggers or cues select a card by themselves, the router changes nothing: it is not asked.
  pub router_unused : is_empty (retrieve none).cards ≡ false → retrieve router ≡ retrieve none
  unfolding retrieve_knowledge
  router_unused h = elim (Bool-cases (is_found mandatory scores)) [
    | inl found ↦ retrieve_found found
    | inr nothing ↦ absurd (nothing_found base triggered mandatory scores nothing h)
  ]

  -- A card that no rule or signal triggers is selected only where every triggered card is, and then
  -- the triggered ones are reported as mandatory.
  pub mandatory_first :
      (id : String)
      → contains id mandatory ≡ true
      → any (λ (c : KnowledgeCard). not (contains c.id mandatory)) (retrieve router).cards ≡ true
      → contains id (retrieve router).mandatory_card_ids ≡ true
  mandatory_first id m optional =
      let same = retrieve_found (found_of_contains id mandatory scores m) in
      subst (λ r. contains id r.mandatory_card_ids ≡ true) (sym same)
        (assemble_mandatory base triggered mandatory scores id m (
          subst
            (λ (r : RetrievalResult).
              any (λ (c : KnowledgeCard). not (contains c.id mandatory)) r.cards ≡ true)
            same optional))
