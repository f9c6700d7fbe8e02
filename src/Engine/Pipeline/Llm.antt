-- ===== src/Engine/Pipeline/Llm.antt =====
-- `_call_llm` of app/engine/pipeline.py and its helpers.
pub mod Answers
pub mod Returns
use Prim.Native.String.{◌++◌}
use avvalo.Prelude.{
  ℕ, zero, suc, ◌+◌, String, Bool, true, false, not, ◌&&◌, List, [], ◌∷◌, Option, none, some,
  if◌then◌else◌, map, is_empty,
}
use avvalo.Stdlib.{Stdlib}
use avvalo.Raises.{Raises, ok, raised}
use avvalo.Engine.Types.{
  CheckInput, CheckStatus, CheckResult, DraftOutput, RuleHit, Signal, SituationType,
}
use avvalo.Engine.Format.Copy.{format_status_message, heading_fallback}
use avvalo.Engine.Knowledge.Types.{KnowledgeCard, card_ids}
use avvalo.Engine.Knowledge.Compose.{compose_card_text}
use avvalo.Engine.Validate.Reason.{ValidationReason, reason_value}
use avvalo.Engine.Validate.Run.{ValidationResult, validate}
use avvalo.Engine.Pipeline.Types.{
  Outcome, LlmFailure, LlmResponse, Provider, Settings, Services, result, estimate_cost, or_none,
  setting,
}

-- `_LLMStageResult`: a validated response, or the result with which the check ends.
pub data LlmStage : Type 0 where
  answered : LlmResponse → Option ℕ → LlmStage
  ended : CheckResult → LlmStage

-- What `_call_llm` is given.
pub record LlmTask : Type 0 where
  pub input : CheckInput
  pub minimized_text : String
  pub rule_hits : List RuleHit
  pub signals : List Signal
  pub cards : List KnowledgeCard
  pub mandatory_card_ids : List String
  pub ocr_ms : Option ℕ
  pub ocr_confidence : Option ℕ

pub record Tokens : Type 0 where
  pub input : ℕ
  pub output : ℕ

abbrev is_off_topic : DraftOutput → Bool
is_off_topic draft = elim draft.situation_type [ SituationType.off_topic ↦ true | _ ↦ false ]

pub failure_status : LlmFailure → CheckStatus
failure_status LlmFailure.timed_out = CheckStatus.timeout
failure_status (LlmFailure.provider_error error_class) = CheckStatus.llm_error

pub failure_class : LlmFailure → String
failure_class LlmFailure.timed_out = "TimeoutError"
failure_class (LlmFailure.provider_error error_class) = error_class

-- `reason in _GROUNDING_RETRY_REASONS`
abbrev is_grounding : ValidationReason → Bool
is_grounding ValidationReason.ungrounded_red_flag = true
is_grounding ValidationReason.required_red_flags_empty = true
is_grounding _ = false

-- `_retry_system_prompt`; the system prompt itself is not repeated.
pub retry_system_prompt : ValidationReason → String
retry_system_prompt reason =
    "SAFETY RETRY: The previous JSON draft failed deterministic validation: "
    ++ (reason_value reason
        ++ (". Return corrected JSON only. Do not include banned verdict words, raw contact details, raw links, secret values, or instructions to use the suspicious contact path."
            ++ (if is_grounding reason
                then " Every entry in \"red_flags\" must be an object {\"text\": …, \"source_id\": …} whose \"source_id\" is copied EXACTLY from a supplied FACT rule ID, a STRUCTURED SIGNALS \"kind\", or a supplied CARD id. Entries citing anything else were discarded. Re-issue each warning sign attributed to the supplied fact it rests on."
                else "")))

abbrev or_reason : Option ValidationReason → ValidationReason → ValidationReason
or_reason none reason = reason
or_reason (some found) reason = found

abbrev concat : String → String → String
concat = Prim.Native.String.◌++◌

-- `system if attempt == 0 else _retry_system_prompt(…)`
abbrev attempt_system : ℕ → String → ValidationReason → String
attempt_system zero system reason = system
attempt_system (suc n) system reason = retry_system_prompt reason

-- The fallback provider is asked where the first fails.
pub ask_fallback :
    Option (Outcome LlmFailure LlmResponse) → LlmFailure → Outcome LlmFailure LlmResponse
ask_fallback none failure = Outcome.failed failure
ask_fallback (some outcome) failure = outcome

pub ask_providers :
    Outcome LlmFailure LlmResponse
    → Option (Outcome LlmFailure LlmResponse)
    → Outcome LlmFailure LlmResponse
unfolding ask_fallback
ask_providers (Outcome.returned response) fallback = Outcome.returned response
ask_providers (Outcome.failed failure) fallback = ask_fallback fallback failure
ask_providers (Outcome.crashed error) fallback = Outcome.crashed error

module _ (services : Services) (task : LlmTask) where
  -- `_llm_failure`
  pub llm_failure : LlmFailure → Tokens → CheckResult
  unfolding failure_status failure_class
  llm_failure failure tokens =
      let status = failure_status failure in
      let text = some (format_status_message status task.input.language) in
      let blank : CheckResult = result task.input status text in
      record blank {
        rule_ids = map (λ (hit : RuleHit). hit.rule_id) task.rule_hits;
        error_class = some (failure_class failure);
        ocr_ms = task.ocr_ms;
        ocr_confidence = task.ocr_confidence;
        llm_ms = some services.llm_ms;
        input_tokens = or_none tokens.input;
        output_tokens = or_none tokens.output;
        cost_usd = estimate_cost tokens.input tokens.output services.settings;
      }

  -- `_off_topic_stage_result`
  pub off_topic_result : Tokens → CheckResult
  off_topic_result tokens =
      let text = some (format_status_message CheckStatus.off_topic task.input.language) in
      let blank : CheckResult = result task.input CheckStatus.off_topic text in
      record blank {
        ocr_ms = task.ocr_ms;
        ocr_confidence = task.ocr_confidence;
        llm_ms = some services.llm_ms;
        input_tokens = or_none tokens.input;
        output_tokens = or_none tokens.output;
        cost_usd = estimate_cost tokens.input tokens.output services.settings;
      }

  -- The end of `_call_llm`, after two rejected drafts.
  pub safety_fallback : Tokens → CheckResult
  safety_fallback tokens =
      let text = some (heading_fallback task.input.language) in
      let blank : CheckResult = result task.input CheckStatus.safety_fallback text in
      record blank {
        rule_ids = map (λ (hit : RuleHit). hit.rule_id) task.rule_hits;
        error_class = some "SafetyValidationError";
        safety_blocked = true;
        ocr_ms = task.ocr_ms;
        ocr_confidence = task.ocr_confidence;
        llm_ms = some services.llm_ms;
        input_tokens = some tokens.input;
        output_tokens = some tokens.output;
        cost_usd = estimate_cost tokens.input tokens.output services.settings;
      }

  -- The validation of one answer, with the reviewed texts of the cards in it.
  pub validate_answer : DraftOutput → ValidationResult
  validate_answer draft =
      validate services.py
        (compose_card_text services.py draft task.cards task.mandatory_card_ids task.input.language)
        task.signals task.rule_hits task.input.language (card_ids task.cards)
        (setting (λ settings. settings.answer_grounding_enabled) false services.settings)

  abbrev spent : Tokens → LlmResponse → Tokens
  spent tokens response = record {
    input = tokens.input + response.input_tokens;
    output = tokens.output + response.output_tokens;
  }

  -- One round of the loop, from the providers' answer on; `next` is what follows a rejected draft.
  pub judge :
      Outcome LlmFailure LlmResponse
      → Tokens
      → (ValidationReason → Tokens → Raises LlmStage)
      → ValidationReason
      → Raises LlmStage
  unfolding validate_answer
  judge (Outcome.crashed error) tokens next reason = raised error
  judge (Outcome.failed failure) tokens next reason =
      ok (LlmStage.ended (llm_failure failure tokens))
  judge (Outcome.returned response) tokens next reason =
      let total : Tokens = spent tokens response in
      let validation : ValidationResult = validate_answer response.draft in
      let answer =
        LlmStage.answered
          (record {
            draft = validation.draft;
            input_tokens = total.input;
            output_tokens = total.output;
          })
          (estimate_cost total.input total.output services.settings) in
      let retried = next (or_reason validation.reason reason) total in
      if is_empty task.rule_hits && is_off_topic response.draft
      then ok (LlmStage.ended (off_topic_result total))
      else if validation.ok
      then ok answer
      else retried

  abbrev prompts : String × String
  prompts =
      services.build_prompt task.input.language task.minimized_text task.rule_hits task.signals
        task.cards

  abbrev max_output_tokens : ℕ
  max_output_tokens = setting (λ settings. settings.max_output_tokens) 600 services.settings

  -- The answer of the providers to one attempt.
  pub asked : ℕ → ValidationReason → Outcome LlmFailure LlmResponse
  unfolding ask_providers
  asked attempt reason =
      let system = attempt_system attempt prompts.0 reason in
      ask_providers (services.provider attempt system prompts.1 max_output_tokens) (
        mathlib.Core.Option.map
          (λ (fallback : Provider). fallback attempt system prompts.1 max_output_tokens)
          services.fallback_provider)

  -- The loop `for attempt in range(2)`: `left` attempts remain.
  pub attempts : ℕ → ℕ → ValidationReason → Tokens → Raises LlmStage
  unfolding judge asked
  attempts zero attempt reason tokens = ok (LlmStage.ended (safety_fallback tokens))
  attempts (suc left) attempt reason tokens =
      judge (asked attempt reason) tokens (attempts left (attempt + 1)) reason

  -- `_call_llm`, with the tokens that the router took
  pub call_llm : Tokens → Raises LlmStage
  unfolding attempts
  call_llm tokens = attempts 2 0 ValidationReason.draft_failed tokens
