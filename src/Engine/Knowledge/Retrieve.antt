-- ===== src/Engine/Knowledge/Retrieve.antt =====
-- `retrieve_knowledge` of app/engine/knowledge/retrieve.py. A set stands as the list of its members
-- without repetition; the result depends on sets only through the sort.
pub mod Selection
pub mod Routers
use avvalo.Prelude.{
  ℕ, zero, suc, String, Bool, true, false, not, ◌&&◌, ◌||◌, List, [], ◌∷◌, ◌++◌, Option, none, some,
  ◌==◌, if◌then◌else◌, any, keep, take, map, length, contains, from_keys, lookup, insert, keys,
  is_empty, is_blank, strip, has_sub, is_disjoint,
}
use avvalo.Stdlib.{Stdlib}
use avvalo.Engine.Types.{RuleHit, Signal}
use avvalo.Engine.Rules.Matching.{normalize_text, all_patterns}
use avvalo.Engine.Knowledge.Types.{
  KnowledgeCard, KnowledgeBase, Mode, Status, RouterStatus, RetrievalResult, RouterResponse, Router,
}
use avvalo.Engine.Knowledge.Ranking.{sorted, text_lt, ranks_before}

abbrev pub max_cards : ℕ
max_cards = 3

-- `left.intersection(right)`, as a truth value
abbrev meets : List String → List String → Bool
meets left right = not (is_disjoint left right)

-- `{card.id: card for card in cards}`
unfoldable pub insert_cards :
    List KnowledgeCard → List (String × KnowledgeCard) → List (String × KnowledgeCard)
insert_cards [] d = d
insert_cards (card ∷ cards) d = insert_cards cards (insert card.id card d)

unfoldable pub cards_by_id : List KnowledgeCard → List (String × KnowledgeCard)
unfolding insert_cards
cards_by_id cards = insert_cards cards []

-- `mandatory_ids`
unfoldable pub mandatory_ids : List KnowledgeCard → List String → List String → List String
mandatory_ids cards rule_ids signal_kinds =
    let triggered =
      keep
        (λ (card : KnowledgeCard).
          meets rule_ids card.trigger_rule_ids || meets signal_kinds card.trigger_signal_kinds)
        cards in
    from_keys (map (λ (card : KnowledgeCard). card.id) triggered)

-- `rule_triggered`
unfoldable pub rule_triggered : List KnowledgeCard → List String → Bool
rule_triggered cards rule_ids =
    any (λ (card : KnowledgeCard). meets rule_ids card.trigger_rule_ids) cards

-- `cue_scores.get(id, 0)`
unfoldable pub score_of : Option ℕ → ℕ
score_of none = 0
score_of (some n) = n

module _ (py : Stdlib) where
  -- The number of a card's aliases that stand in the text.
  unfoldable pub cue_matches : KnowledgeCard → String → ℕ
  cue_matches card normalized_text =
      let given =
        keep (λ alias. not (is_blank (strip alias))) (all_patterns card.retrieval_aliases) in
      let aliases = from_keys (map (normalize_text py) given) in
      length (keep (λ alias. not (is_blank alias) && has_sub alias normalized_text) aliases)

  unfoldable pub add_score : String → ℕ → List (String × ℕ) → List (String × ℕ)
  add_score id matches scores = elim matches [ zero ↦ scores | suc n ↦ insert id (suc n) scores ]

  unfoldable pub add_scores : List KnowledgeCard → String → List (String × ℕ) → List (String × ℕ)
  add_scores [] text scores = scores
  add_scores (card ∷ cards) text scores =
      add_scores cards text (add_score card.id (cue_matches card text) scores)

  -- `cue_scores`
  unfoldable pub cue_scores : List KnowledgeCard → String → List (String × ℕ)
  unfolding cue_matches add_score add_scores
  cue_scores cards normalized_text = add_scores cards normalized_text []

-- What the call of the router leaves: its status, the proposed ids that the store knows, those that
-- it does not, and the tokens.
pub record Routing : Type 0 where
  pub status : RouterStatus
  pub router_ids : List String
  pub invalid : List String
  pub input_tokens : ℕ
  pub output_tokens : ℕ

abbrev pub unrouted : RouterStatus → Routing
unrouted status = record {
  status = status;
  router_ids = [];
  invalid = [];
  input_tokens = 0;
  output_tokens = 0;
}

unfoldable pub read_response : List String → Option RouterResponse → Routing
read_response known none = unrouted RouterStatus.unavailable
read_response known (some response) =
    let invalid = from_keys (keep (λ id. not (contains id known)) response.card_ids) in
    record {
      status = if is_empty invalid then RouterStatus.ok else RouterStatus.invalid_ids;
      router_ids = take max_cards (from_keys (keep (λ id. contains id known) response.card_ids));
      invalid = invalid;
      input_tokens = response.input_tokens;
      output_tokens = response.output_tokens;
    }

-- The router is asked only where nothing was found without it.
unfoldable pub ask_router : Option Router → Bool → List String → String → Routing
unfolding read_response
ask_router none found known text = unrouted RouterStatus.not_used
ask_router (some route) found known text =
    if found
    then unrouted RouterStatus.not_used
    else read_response known (route text (sorted text_lt known) max_cards)

abbrev pub add_found : Option KnowledgeCard → List KnowledgeCard → List KnowledgeCard
add_found none cards = cards
add_found (some card) cards = card ∷ cards

-- `tuple(cards_by_id[card_id] for card_id in selected_ids)`
unfoldable pub cards_of : List (String × KnowledgeCard) → List String → List KnowledgeCard
cards_of by_id [] = []
cards_of by_id (id ∷ ids) = add_found (lookup id by_id) (cards_of by_id ids)

-- The ids that `sorted` puts in order, and the selection of at most three.
unfoldable pub select : List String → List (String × ℕ) → List String → List String
unfolding score_of
select mandatory scores router_ids =
    let deterministic = from_keys (mandatory ++ keys scores) in
    let before = ranks_before (λ id. contains id mandatory) (λ id. score_of (lookup id scores)) in
    take max_cards (from_keys (sorted before deterministic ++ router_ids))

-- Something was found without the router: `deterministic_ids` is not empty.
abbrev pub is_found : List String → List (String × ℕ) → Bool
is_found mandatory scores = not (is_empty (mandatory ++ keys scores))

-- The part of `retrieve_knowledge` behind the call of the router.
unfoldable pub assemble :
    KnowledgeBase → Bool → List String → List (String × ℕ) → Routing → RetrievalResult
assemble base by_rule mandatory scores routing =
    let routed = not (is_empty routing.router_ids) in
    let mode =
      if not (is_empty mandatory)
      then if by_rule then Mode.rule else Mode.signal
      else if not (is_empty scores)
      then Mode.cue
      else if routed
      then Mode.router
      else Mode.nothing in
    let selected = select mandatory scores routing.router_ids in
    let cards = cards_of (cards_by_id base.cards) selected in
    record {
      cards = cards;
      mode = mode;
      status =
          if (is_found mandatory scores || routed) && not (is_empty cards)
          then Status.ok
          else Status.empty;
      router_status = routing.status;
      kb_version = some base.version;
      mandatory_card_ids = keep (λ id. contains id mandatory) selected;
      invalid_router_ids = routing.invalid;
      router_input_tokens = routing.input_tokens;
      router_output_tokens = routing.output_tokens;
    }

module _ (py : Stdlib) where
  unfoldable pub retrieve_from :
      KnowledgeBase → String → List RuleHit → List Signal → Option Router → RetrievalResult
  unfolding ask_router assemble
  retrieve_from base minimized_text rule_hits signals router =
      let rule_ids = map (λ (hit : RuleHit). hit.rule_id) rule_hits in
      let signal_kinds = map (λ (signal : Signal). signal.kind) signals in
      let mandatory = mandatory_ids base.cards rule_ids signal_kinds in
      let scores = cue_scores py base.cards (normalize_text py minimized_text) in
      assemble base (rule_triggered base.cards rule_ids) mandatory scores (
        ask_router router (is_found mandatory scores) (keys (cards_by_id base.cards))
          minimized_text)

  unfoldable pub retrieve_knowledge :
      Option KnowledgeBase → String → List RuleHit → List Signal → Option Router → RetrievalResult
  unfolding retrieve_from
  retrieve_knowledge none minimized_text rule_hits signals router = record {
    cards = [];
    mode = Mode.nothing;
    status = Status.unavailable;
    router_status = RouterStatus.not_used;
    kb_version = none;
    mandatory_card_ids = [];
    invalid_router_ids = [];
    router_input_tokens = 0;
    router_output_tokens = 0;
  }
  retrieve_knowledge (some base) minimized_text rule_hits signals router =
      retrieve_from base minimized_text rule_hits signals router
