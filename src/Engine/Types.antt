-- ===== src/Engine/Types.antt =====
-- app/engine/types.py: the contracts that the stages of the engine share. Floats stand as whole
-- numbers: a confidence in millionths, a cost in millionths of a dollar.
use avvalo.Prelude.{ℕ, ◌*◌, String, Bool, List, Option}

abbrev pub max_submitted_text_chars : ℕ
max_submitted_text_chars = 6000

abbrev pub max_image_bytes : ℕ
max_image_bytes = 10 * 1024 * 1024

pub data Language : Type 0 where
  uz_latn ru : Language

pub data InputType : Type 0 where
  text image : InputType

pub data CheckStatus : Type 0 where
  ok no_signal empty_input meta off_topic low_ocr rate_limited timeout llm_error ocr_error
        safety_fallback unsupported_media :
      CheckStatus

pub data SituationType : Type 0 where
  checkable off_topic : SituationType

pub record CheckInput : Type 0 where
  pub user_key : String
  pub language : Language
  pub input_type : InputType
  pub raw_text : Option String
  pub image_bytes : Option (List ℕ)
  pub caption : Option String

pub record Signal : Type 0 where
  pub kind : String
  pub note : Option String

pub record RuleHit : Type 0 where
  pub rule_id : String
  pub family : String
  pub message_key : String
  pub severity : ℕ

pub record Evidence : Type 0 where
  pub text : String
  pub source_id : String

pub record DraftOutput : Type 0 where
  pub situation_type : SituationType
  pub red_flags : List Evidence
  pub pattern : Option String
  pub verify : List String
  pub ask : List String
  pub addressed_rule_ids : List String

pub record CheckResult : Type 0 where
  pub status : CheckStatus
  pub check_id : Option ℕ
  pub text : Option String
  pub rule_ids : List String
  pub knowledge_card_ids : List String
  pub reviewed_case_ids : List String
  pub retrieval_mode : Option String
  pub retrieval_status : Option String
  pub router_status : Option String
  pub kb_version : Option String
  pub no_signal : Bool
  pub safety_blocked : Bool
  pub language : Language
  pub input_type : InputType
  pub latency_ms : ℕ
  pub ocr_ms : Option ℕ
  pub llm_ms : Option ℕ
  pub ocr_confidence : Option ℕ
  pub input_tokens : Option ℕ
  pub output_tokens : Option ℕ
  pub cost_usd : Option ℕ
  pub error_class : Option String

-- The value of each member of the `StrEnum`s.
abbrev pub language_value : Language → String
language_value Language.uz_latn = "uz_latn"
language_value Language.ru = "ru"

abbrev pub input_type_value : InputType → String
input_type_value InputType.text = "text"
input_type_value InputType.image = "image"

abbrev pub status_value : CheckStatus → String
status_value CheckStatus.ok = "ok"
status_value CheckStatus.no_signal = "no_signal"
status_value CheckStatus.empty_input = "empty_input"
status_value CheckStatus.meta = "meta"
status_value CheckStatus.off_topic = "off_topic"
status_value CheckStatus.low_ocr = "low_ocr"
status_value CheckStatus.rate_limited = "rate_limited"
status_value CheckStatus.timeout = "timeout"
status_value CheckStatus.llm_error = "llm_error"
status_value CheckStatus.ocr_error = "ocr_error"
status_value CheckStatus.safety_fallback = "safety_fallback"
status_value CheckStatus.unsupported_media = "unsupported_media"
