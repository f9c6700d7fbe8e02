-- ===== src/Engine/Pipeline/Llm/Answers.antt =====
-- What `_call_llm` hands on.
use avvalo.Prelude.{
  ℕ, zero, suc, ◌+◌, true, ◌&&◌, ◌≡◌, ◌≢◌, refl, inl, inr, arith, is_empty, Bool-cases,
}
use avvalo.Raises.{Raises, ok, raised}
use avvalo.Engine.Types.{CheckStatus}
use avvalo.Engine.Knowledge.Types.{card_ids}
use avvalo.Engine.Validate.Reason.{ValidationReason}
use avvalo.Engine.Validate.Run.Accepted.{IsSafe, validate-IsSafe}
use avvalo.Engine.Pipeline.Types.{Outcome, LlmFailure, LlmResponse, Services, result}
use avvalo.Engine.Pipeline.Shown.{IsFixed}
use avvalo.Engine.Pipeline.Llm.{
  LlmStage, LlmTask, Tokens, is_off_topic, failure_status, llm_failure, off_topic_result,
  safety_fallback, validate_answer, judge, attempts, call_llm,
}

module _ (services : Services) (task : LlmTask) where
  -- A response holds a safe draft; a result that ends the check has a fixed text, and it redirects the
  -- user as off topic only where no rule fired.
  unfoldable pub IsGood : LlmStage → Type 0
  IsGood (LlmStage.answered response cost) =
      IsSafe services.py response.draft task.rule_hits task.input.language (card_ids task.cards)
  IsGood (LlmStage.ended r) =
      IsFixed r
      × (r.status ≡ CheckStatus.off_topic → is_empty task.rule_hits ≡ true)
      × (r.status ≢ CheckStatus.rate_limited)

  unfoldable pub IsGoodRun : Raises LlmStage → Type 0
  unfolding IsGood
  IsGoodRun (raised error) = Unit
  IsGoodRun (ok stage) = IsGood stage

  llm_failure-IsGood :
      (failure : LlmFailure) (tokens : Tokens)
      → IsGood (LlmStage.ended (llm_failure services task failure tokens))
  unfolding IsGood llm_failure failure_status result
  llm_failure-IsGood LlmFailure.timed_out tokens = (IsFixed.message refl, λ h. cc, λ h. cc)
  llm_failure-IsGood (LlmFailure.provider_error c) tokens = (IsFixed.message refl, λ h. cc, λ h. cc)

  validate_answer-IsSafe :
      (response : LlmResponse)
      → (validate_answer services task response.draft).ok ≡ true
      → IsSafe services.py
          (validate_answer services task response.draft).draft
          task.rule_hits
          task.input.language
          (card_ids task.cards)
  unfolding validate_answer
  validate_answer-IsSafe response accepted = validate-IsSafe services.py _ _ _ _ _ _ accepted

  judge-IsGoodRun :
      (outcome : Outcome LlmFailure LlmResponse) (tokens : Tokens)
      (next : ValidationReason → Tokens → Raises LlmStage) (reason : ValidationReason)
      → ((reason : ValidationReason) (tokens : Tokens) → IsGoodRun (next reason tokens))
      → IsGoodRun (judge services task outcome tokens next reason)
  unfolding IsGoodRun judge off_topic_result result
  judge-IsGoodRun (Outcome.crashed error) tokens next reason h = tt
  judge-IsGoodRun (Outcome.failed failure) tokens next reason h = llm_failure-IsGood failure tokens
  judge-IsGoodRun (Outcome.returned response) tokens next reason h =
      elim (Bool-cases (is_empty task.rule_hits && is_off_topic response.draft)) [
        | inl redirected ↦ rw redirected (IsFixed.message refl, λ _. ground arith, λ e. cc)
        | inr on_topic ↦ elim (Bool-cases (validate_answer services task response.draft).ok) [
          | inl accepted ↦ rw (on_topic, accepted) (validate_answer-IsSafe response accepted)
          | inr rejected ↦ rw (on_topic, rejected) (h _ _)
        ]
      ]

  attempts-IsGoodRun :
      (left attempt : ℕ) (reason : ValidationReason) (tokens : Tokens)
      → IsGoodRun (attempts services task left attempt reason tokens)
  unfolding IsGoodRun attempts safety_fallback result
  attempts-IsGoodRun zero attempt reason tokens = (IsFixed.fallback refl, λ h. cc, λ h. cc)
  attempts-IsGoodRun (suc left) attempt reason tokens =
      judge-IsGoodRun _ tokens _ reason (λ r t. attempts-IsGoodRun left (attempt + 1) r t)

  -- Whatever the providers answer, the model stage hands on a draft only that is safe for the rules
  -- and cards of its task, or a result with a fixed text, and it redirects as off topic only where no rule fired.
  pub call_llm-IsGoodRun : (tokens : Tokens) → IsGoodRun (call_llm services task tokens)
  unfolding call_llm
  call_llm-IsGoodRun tokens = attempts-IsGoodRun 2 0 ValidationReason.draft_failed tokens
