-- ===== src/Engine/Pipeline/Stages.antt =====
-- `_run_stages` and `_attach_retrieval` of app/engine/pipeline.py.
pub mod Shows
pub mod Returns
use avvalo.Prelude.{
  ℕ, String, Bool, true, false, not, ◌&&◌, ◌||◌, List, [], ◌∷◌, Option, none, some, ◌==◌, ltb,
  if◌then◌else◌, map, any, is_empty, is_blank, len,
}
use avvalo.Raises.{Raises, ok, raised}
use avvalo.Engine.Types.{
  CheckInput, CheckStatus, CheckResult, InputType, Language, RuleHit, Signal,
  max_submitted_text_chars,
}
use avvalo.Engine.Format.{format_result}
use avvalo.Engine.Language.{resolve_content_language}
use avvalo.Engine.Meta.{is_meta_message}
use avvalo.Engine.Minimize.{minimize}
use avvalo.Engine.Rules.Passes.{run_rules}
use avvalo.Engine.Knowledge.Types.{
  RetrievalResult, card_ids, reviewed_case_ids, mode_value, retrieval_status_value,
  router_status_value,
}
use avvalo.Engine.Knowledge.Retrieve.{retrieve_knowledge}
use avvalo.Engine.Pipeline.Types.{LlmResponse, Services, result}
use avvalo.Engine.Pipeline.Content.{Content, ContentStage, content_from_input, stop}
use avvalo.Engine.Pipeline.Llm.{LlmStage, LlmTask, Tokens, call_llm}

-- `_attach_retrieval`
pub attach_retrieval : CheckResult → RetrievalResult → CheckResult
attach_retrieval r retrieval = record r {
  knowledge_card_ids = card_ids retrieval.cards;
  reviewed_case_ids = reviewed_case_ids retrieval;
  retrieval_mode = some (mode_value retrieval.mode);
  retrieval_status = some (retrieval_status_value retrieval.status);
  router_status = some (router_status_value retrieval.router_status);
  kb_version = retrieval.kb_version;
}

abbrev same_note : Option String → Option String → Bool
same_note none none = true
same_note (some a) (some b) = a == b
same_note _ _ = false

-- The signals of the content stage whose kind and note are not there yet.
pub add_signals : List Signal → List Signal → List Signal
add_signals signals [] = signals
add_signals signals (signal ∷ more) =
    let known =
      any (λ (s : Signal). s.kind == signal.kind && same_note s.note signal.note) signals in
    add_signals (if known then signals else mathlib.Core.List.◌++◌ signals (signal ∷ [])) more

-- The status of a text that is too long.
pub long_status : InputType → CheckStatus
long_status InputType.image = CheckStatus.low_ocr
long_status InputType.text = CheckStatus.unsupported_media

pub answer_status : Bool → CheckStatus
answer_status no_signal = if no_signal then CheckStatus.no_signal else CheckStatus.ok

module _ (services : Services) where
  -- The end of `_run_stages`: the answer.
  pub answer :
      CheckInput → List RuleHit → RetrievalResult → Content → LlmResponse → Option ℕ → CheckResult
  unfolding answer_status attach_retrieval
  answer input rule_hits retrieval content response cost =
      let no_signal = is_empty rule_hits && is_empty response.draft.red_flags in
      let text = some (format_result response.draft input.language no_signal) in
      let blank : CheckResult = result input (answer_status no_signal) text in
      record (attach_retrieval blank retrieval) {
        rule_ids = map (λ (hit : RuleHit). hit.rule_id) rule_hits;
        no_signal = no_signal;
        ocr_ms = content.ocr_ms;
        ocr_confidence = content.ocr_confidence;
        llm_ms = some services.llm_ms;
        input_tokens = some response.input_tokens;
        output_tokens = some response.output_tokens;
        cost_usd = cost;
      }

  pub behind_llm :
      CheckInput → List RuleHit → RetrievalResult → Content → Raises LlmStage → Raises CheckResult
  unfolding answer attach_retrieval
  behind_llm input rule_hits retrieval content (raised error) = raised error
  behind_llm input rule_hits retrieval content (ok (LlmStage.ended r)) =
      ok (attach_retrieval r retrieval)
  behind_llm input rule_hits retrieval content (ok (LlmStage.answered response cost)) =
      ok (answer input rule_hits retrieval content response cost)

  -- The input of `_call_llm`.
  pub llm_task : CheckInput → Content → List RuleHit → List Signal → RetrievalResult → LlmTask
  llm_task input content rule_hits signals retrieval =
      let preserve = not content.contains_decoded_qr in
      record {
        input = input;
        minimized_text = minimize services.py services.catalog content.text preserve preserve;
        rule_hits = rule_hits;
        signals = signals;
        cards = retrieval.cards;
        mandatory_card_ids = retrieval.mandatory_card_ids;
        ocr_ms = content.ocr_ms;
        ocr_confidence = content.ocr_confidence;
      }

  abbrev pub ruled : Content → List RuleHit × List Signal
  ruled content = run_rules services.py services.catalog services.pack content.text

  -- The signals of the rules and of the content stage.
  abbrev pub all_signals : Content → List Signal
  all_signals content = add_signals (ruled content).1 content.signals

  -- The retrieval sees the strict view of the text, without any protected value.
  abbrev pub retrieved : Content → RetrievalResult
  retrieved content =
      retrieve_knowledge services.py services.knowledge
        (minimize services.py services.catalog content.text false false) (ruled content).0
        (all_signals content) services.router

  abbrev router_tokens : RetrievalResult → Tokens
  router_tokens retrieval = record {
    input = retrieval.router_input_tokens;
    output = retrieval.router_output_tokens;
  }

  -- Rules, retrieval and the model, for a text that is a situation.
  pub analyze : CheckInput → Content → Raises CheckResult
  unfolding behind_llm llm_task
  analyze input content =
      let retrieval = retrieved content in
      behind_llm input (ruled content).0 retrieval content (
        call_llm services (llm_task input content (ruled content).0 (all_signals content) retrieval)
          (router_tokens retrieval))

  -- `check_input` with the language of its content.
  abbrev effective : CheckInput → String → CheckInput
  effective input text = record input {
    language = resolve_content_language services.py services.detect_langs text input.language;
  }

  unfoldable pub with_content : CheckInput → Content → Raises CheckResult
  unfolding analyze long_status
  with_content input content =
      let situated : CheckInput = effective input content.text in
      let analyzed = analyze situated content in
      if is_blank content.text
      then ok (stop input CheckStatus.empty_input none none none)
      else if ltb max_submitted_text_chars (len content.text)
      then ok (
          stop input (long_status input.input_type) (some "ExtractedContentTooLong") content.ocr_ms
            content.ocr_confidence)
      else if is_meta_message services.py content.text
      then ok (stop situated CheckStatus.meta none none none)
      else analyzed

  unfoldable pub behind_content : CheckInput → Raises ContentStage → Raises CheckResult
  unfolding with_content
  behind_content input (raised error) = raised error
  behind_content input (ok (ContentStage.ended r)) = ok r
  behind_content input (ok (ContentStage.found content)) = with_content input content

  -- `_run_stages`
  unfoldable pub run_stages : CheckInput → Raises CheckResult
  unfolding behind_content
  run_stages input = behind_content input (content_from_input services input)
