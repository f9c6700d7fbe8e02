-- ===== src/Engine/Pipeline/Types.antt =====
-- What the stages of app/engine/pipeline.py share: the answers of the services that a check calls,
-- its settings, and `_result`. Durations are given, in milliseconds.
use avvalo.Prelude.{
  ℕ, ◌+◌, ◌*◌, ◌/◌, ◌%◌, String, Bool, false, ◌&&◌, List, [], Option, none, some, ltb, nat_eq,
  if◌then◌else◌,
}
use avvalo.Stdlib.{Stdlib}
use avvalo.Engine.Types.{
  CheckInput, CheckStatus, CheckResult, DraftOutput, Language, RuleHit, Signal,
}
use avvalo.Engine.Url.{OfficialDomainCatalog}
use avvalo.Engine.Rules.Pack.{RulePack}
use avvalo.Engine.Knowledge.Types.{KnowledgeCard, KnowledgeBase, Router}

-- What `await _with_timeout(call, timeout)` leaves: a value, one of the failures that the pipeline
-- handles, or another exception, which it lets through.
pub data Outcome (E A : Type 0) : Type 0 where
  returned : A → Outcome E A
  failed : E → Outcome E A
  crashed : String → Outcome E A

-- `TimeoutError`, or `LLMProviderError` with its `error_code` or its class.
pub data LlmFailure : Type 0 where
  timed_out : LlmFailure
  provider_error : String → LlmFailure

-- The exceptions of `provider.extract`: the last two are `OCRInvalidImageError` and the other
-- `OCRProviderError`s, with their `error_code` or their class.
pub data OcrFailure : Type 0 where
  timed_out not_implemented : OcrFailure
  invalid_image provider_error : String → OcrFailure

pub record LlmResponse : Type 0 where
  pub draft : DraftOutput
  pub input_tokens : ℕ
  pub output_tokens : ℕ

-- The confidence in millionths.
pub record OcrResult : Type 0 where
  pub text : String
  pub confidence : ℕ

-- `analyze` of a provider: the attempt, the system and the user prompt, the most output tokens.
abbrev pub Provider : Type 0
Provider = ℕ → String → String → ℕ → Outcome LlmFailure LlmResponse

-- The fields of `Settings` that the pipeline reads; rates in millionths of a dollar for a million
-- tokens.
pub record Settings : Type 0 where
  pub daily_check_limit : ℕ
  pub ocr_min_confidence : ℕ
  pub max_output_tokens : ℕ
  pub answer_grounding_enabled : Bool
  pub llm_in_rate_per_m : ℕ
  pub llm_out_rate_per_m : ℕ

-- All that a check is given beside its input: what it loads, the services, and the durations.
pub record Services : Type 0 where
  pub py : Stdlib
  pub catalog : OfficialDomainCatalog
  pub pack : RulePack
  pub knowledge : Option KnowledgeBase
  pub router : Option Router
  pub detect_langs : String → Option (String × ℕ)
  pub build_prompt :
      Language → String → List RuleHit → List Signal → List KnowledgeCard → String × String
  pub provider : Provider
  pub fallback_provider : Option Provider
  -- The payloads, or one of the failures after which the image is read without them.
  pub decode_qr : List ℕ → Outcome (Unit {0}) (List String)
  -- `none` where `get_ocr_provider` raises `ValueError`
  pub ocr : Option (List ℕ → Outcome OcrFailure OcrResult)
  pub settings : Option Settings
  pub ocr_ms : ℕ
  pub llm_ms : ℕ
  pub latency_ms : ℕ

-- `_result`, with the default of every optional argument.
unfoldable pub result : CheckInput → CheckStatus → Option String → CheckResult
result input status text = record {
  status = status;
  check_id = none;
  text = text;
  rule_ids = [];
  knowledge_card_ids = [];
  reviewed_case_ids = [];
  retrieval_mode = none;
  retrieval_status = none;
  router_status = none;
  kb_version = none;
  no_signal = false;
  safety_blocked = false;
  language = input.language;
  input_type = input.input_type;
  latency_ms = 0;
  ocr_ms = none;
  llm_ms = none;
  ocr_confidence = none;
  input_tokens = none;
  output_tokens = none;
  cost_usd = none;
  error_class = none;
}

-- `round(n / 10 ** 6)`: a half goes to the even neighbour.
abbrev round_millionths : ℕ → ℕ
round_millionths n =
    if ltb (n % 1000000 * 2) 1000000
    then n / 1000000
    else if ltb 1000000 (n % 1000000 * 2)
    then n / 1000000 + 1
    else n / 1000000 + n / 1000000 % 2

-- `estimate_llm_cost_usd` of app/obs/cost.py, in millionths of a dollar
pub estimate_llm_cost_usd : ℕ → ℕ → ℕ → ℕ → ℕ
estimate_llm_cost_usd input_tokens output_tokens in_rate out_rate =
    round_millionths (input_tokens * in_rate + output_tokens * out_rate)

-- `_estimate_cost`
pub estimate_cost : ℕ → ℕ → Option Settings → Option ℕ
unfolding estimate_llm_cost_usd
estimate_cost input_tokens output_tokens none = none
estimate_cost input_tokens output_tokens (some settings) =
    if nat_eq input_tokens 0 && nat_eq output_tokens 0
    then none
    else some (
        estimate_llm_cost_usd input_tokens output_tokens settings.llm_in_rate_per_m
          settings.llm_out_rate_per_m)

-- `n or None`
abbrev pub or_none : ℕ → Option ℕ
or_none n = if nat_eq n 0 then none else some n

-- `settings.f if settings is not None else default`
abbrev pub setting {ℓ} : {A : Type ℓ} → (Settings → A) → A → Option Settings → A
setting field default none = default
setting field default (some settings) = field settings
