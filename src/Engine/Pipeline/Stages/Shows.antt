-- ===== src/Engine/Pipeline/Stages/Shows.antt =====
-- What the stages of app/engine/pipeline.py show.
use avvalo.Prelude.{
  ℕ, String, Bool, true, false, Option, none, some, ◌≡◌, ◌≢◌, refl, inl, inr, Bool-cases, is_blank,
  ltb, len,
}
use avvalo.Raises.{Raises, ok, raised}
use avvalo.Engine.Types.{
  CheckInput, CheckStatus, CheckResult, DraftOutput, InputType, max_submitted_text_chars,
}
use avvalo.Engine.Meta.{is_meta_message}
use avvalo.Engine.Knowledge.Types.{RetrievalResult, card_ids}
use avvalo.Engine.Pipeline.Types.{Services, result}
use avvalo.Engine.Format.{format_result}
use avvalo.Engine.Validate.Run.Accepted.{IsSafe}
use avvalo.Engine.Pipeline.Shown.{IsFixed}
use avvalo.Engine.Pipeline.Content.{Content, ContentStage, content_from_input, stop}
use avvalo.Engine.Pipeline.Content.Ended.{
  IsEarly, IsGoodStage, IsGoodContent, stop-IsEnd, content_from_input-IsGood,
}
use avvalo.Engine.Pipeline.Llm.{LlmStage}
use avvalo.Engine.Pipeline.Llm.Answers.{IsGood, IsGoodRun, call_llm-IsGoodRun}
use avvalo.Engine.Pipeline.Stages.{
  attach_retrieval, long_status, answer_status, answer, behind_llm, llm_task, ruled, all_signals,
  retrieved, analyze, effective, with_content, behind_content, run_stages,
}

module _ (services : Services) where
  -- The text of a result is fixed, or it is the layout of a draft that is safe in the result's language
  -- for the rules that fire on the content of the input and for the cards that are retrieved for it.
  pub data IsShowable (input : CheckInput) (r : CheckResult) : Type 0 where
    fixed : IsFixed r → IsShowable input r
    laid_out :
        (content : Content) (draft : DraftOutput)
        → content_from_input services input ≡ ok (ContentStage.found content)
        → IsSafe services.py draft
            (ruled services content).0
            r.language
            (card_ids (retrieved services content).cards)
        → r.text ≡ some (format_result draft r.language r.no_signal)
        → IsShowable input r

  abbrev IsEndOf : CheckInput → CheckResult → Type 0
  IsEndOf input r = IsShowable input r × (r.status ≢ CheckStatus.rate_limited)

  -- The text can be shown, and the status is not that of the daily limit.
  unfoldable pub Shows : CheckInput → Raises CheckResult → Type 0
  Shows input (raised error) = Unit
  Shows input (ok r) = IsEndOf input r

  attached :
      (r : CheckResult) (retrieval : RetrievalResult)
      → IsFixed r
      → IsFixed (attach_retrieval r retrieval)
  unfolding attach_retrieval
  attached r retrieval (IsFixed.message e) = IsFixed.message e
  attached r retrieval (IsFixed.fallback e) = IsFixed.fallback e

  answer_status_lem : (b : Bool) → answer_status b ≢ CheckStatus.rate_limited
  unfolding answer_status
  answer_status_lem true e = cc
  answer_status_lem false e = cc

  long_status-IsEarly : (type : InputType) → IsEarly (long_status type)
  unfolding long_status
  long_status-IsEarly InputType.text = (λ e. cc, λ e. cc, λ e. cc, λ e. cc)
  long_status-IsEarly InputType.image = (λ e. cc, λ e. cc, λ e. cc, λ e. cc)

  module _ (given : CheckInput) (content : Content)
      (found : content_from_input services given ≡ ok (ContentStage.found content)) where
    behind_llm-Shows :
        (input : CheckInput) (stage : Raises LlmStage)
        → IsGoodRun services
            (llm_task services input content
              (ruled services content).0
              (all_signals services content)
              (retrieved services content))
            stage
        → Shows given (
            behind_llm services input
              (ruled services content).0
              (retrieved services content)
              content
              stage)
    unfolding Shows behind_llm IsGoodRun IsGood attach_retrieval answer result llm_task
    behind_llm-Shows input (raised error) h = tt
    behind_llm-Shows input (ok (LlmStage.ended r)) (shown, _, limit) =
        (IsShowable.fixed (attached r (retrieved services content) shown), limit)
    behind_llm-Shows input (ok (LlmStage.answered response cost)) safe =
        (IsShowable.laid_out content response.draft found safe refl, answer_status_lem _)

    analyze-Shows : (input : CheckInput) → Shows given (analyze services input content)
    unfolding analyze
    analyze-Shows input = behind_llm-Shows input _ (call_llm-IsGoodRun services _ _)

    stopped :
        (input : CheckInput) (status : CheckStatus) (error_class : Option String) (ms c : Option ℕ)
        → IsEarly status
        → Shows given (ok (stop input status error_class ms c))
    unfolding Shows
    stopped input status error_class ms c early =
        let (shown, (_, _, _, limit)) = stop-IsEnd services input status error_class ms c early in
        (IsShowable.fixed shown, limit)

    with_content-Shows : Shows given (with_content services given content)
    unfolding with_content
    with_content-Shows = elim (Bool-cases (is_blank content.text)) [
      | inl blank ↦ rw blank (
          stopped given CheckStatus.empty_input none none none (λ e. cc, λ e. cc, λ e. cc, λ e. cc))
      | inr written ↦ elim (Bool-cases (ltb max_submitted_text_chars (len content.text))) [
        | inl long ↦
            rw (written, long)
              (stopped given _ (some "ExtractedContentTooLong") content.ocr_ms
                content.ocr_confidence (long_status-IsEarly given.input_type))
        | inr fits ↦ elim (Bool-cases (is_meta_message services.py content.text)) [
          | inl meta ↦
              rw (written, fits, meta)
                (stopped (effective services given content.text) CheckStatus.meta none none none
                  (λ e. cc, λ e. cc, λ e. cc, λ e. cc))
          | inr situation ↦
              rw (written, fits, situation) (analyze-Shows (effective services given content.text))
        ]
      ]
    ]

  behind_content-Shows :
      (input : CheckInput) (stage : Raises ContentStage)
      → content_from_input services input ≡ stage
      → IsGoodContent services input stage
      → Shows input (behind_content services input stage)
  unfolding Shows behind_content IsGoodContent IsGoodStage
  behind_content-Shows input (raised error) e h = tt
  behind_content-Shows input (ok (ContentStage.ended r)) e (shown, (_, _, _, limit)) =
      (IsShowable.fixed shown, limit)
  behind_content-Shows input (ok (ContentStage.found content)) e h =
      with_content-Shows input content e

  -- Whatever the services answer, the stages end on a fixed message or on the layout of a draft that
  -- is safe for the rules and cards of the check, or they raise; the status is never that of the daily
  -- limit.
  pub run_stages-Shows : (input : CheckInput) → Shows input (run_stages services input)
  unfolding run_stages
  run_stages-Shows input =
      behind_content-Shows input _ refl (content_from_input-IsGood services input)
