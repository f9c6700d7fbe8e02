-- ===== src/Engine/Knowledge/Types.antt =====
-- app/engine/knowledge/types.py. The `Literal` types are data types; a store that cannot load its
-- files (`KnowledgeLookupError`) is `none`, and so is a router that raises.
use avvalo.Prelude.{ℕ, String, List, Option, map, from_keys}

pub record LocalizedCardText : Type 0 where
  pub red_flags : List String
  pub verify_steps : List String
  pub questions : List String

pub record KnowledgeCard : Type 0 where
  pub id : String
  pub version : String
  pub status : String
  pub reviewer : String
  pub trigger_rule_ids : List String
  pub trigger_signal_kinds : List String
  pub retrieval_aliases : List (String × List String)
  pub mechanism : String
  pub red_flags : List String
  pub verify_steps : List String
  pub questions : List String
  pub reviewed_case_ids : List String
  pub localized : List (String × LocalizedCardText)

pub record KnowledgeBase : Type 0 where
  pub version : String
  pub cards : List KnowledgeCard

pub data Mode : Type 0 where
  rule signal cue router nothing : Mode

pub data Status : Type 0 where
  ok empty unavailable : Status

pub data RouterStatus : Type 0 where
  not_used ok unavailable invalid_ids : RouterStatus

pub record RetrievalResult : Type 0 where
  pub cards : List KnowledgeCard
  pub mode : Mode
  pub status : Status
  pub router_status : RouterStatus
  pub kb_version : Option String
  pub mandatory_card_ids : List String
  pub invalid_router_ids : List String
  pub router_input_tokens : ℕ
  pub router_output_tokens : ℕ

abbrev pub id_of_card : KnowledgeCard → String
id_of_card card = card.id

abbrev pub card_ids : List KnowledgeCard → List String
card_ids = map id_of_card

-- `RetrievalResult.reviewed_case_ids`
case_ids : List KnowledgeCard → List String
case_ids cards = mathlib.Core.List.flat_map (λ card. card.reviewed_case_ids) cards

unfoldable pub reviewed_case_ids : RetrievalResult → List String
unfolding case_ids
reviewed_case_ids result = from_keys (case_ids result.cards)

pub record RouterResponse : Type 0 where
  pub card_ids : List String
  pub input_tokens : ℕ
  pub output_tokens : ℕ

-- `route(minimized_text, allowed_ids, max_results)` of an injected or configured router
abbrev pub Router : Type 0
Router = String → List String → ℕ → Option RouterResponse

abbrev pub mode_value : Mode → String
mode_value Mode.rule = "rule"
mode_value Mode.signal = "signal"
mode_value Mode.cue = "cue"
mode_value Mode.router = "router"
mode_value Mode.nothing = "none"

abbrev pub retrieval_status_value : Status → String
retrieval_status_value Status.ok = "ok"
retrieval_status_value Status.empty = "empty"
retrieval_status_value Status.unavailable = "unavailable"

abbrev pub router_status_value : RouterStatus → String
router_status_value RouterStatus.not_used = "not_used"
router_status_value RouterStatus.ok = "ok"
router_status_value RouterStatus.unavailable = "unavailable"
router_status_value RouterStatus.invalid_ids = "invalid_ids"
