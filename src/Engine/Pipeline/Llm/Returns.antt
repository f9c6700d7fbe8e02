-- ===== src/Engine/Pipeline/Llm/Returns.antt =====
-- The model stage returns where the providers raise nothing unforeseen.
use avvalo.Prelude.{
  ℕ, zero, suc, ◌+◌, String, ◌&&◌, Option, none, some, ◌≡◌, refl, inl, inr, Bool-cases, is_empty,
}
use avvalo.Raises.{Raises}
use avvalo.Engine.Validate.Reason.{ValidationReason}
use avvalo.Engine.Pipeline.Types.{Outcome, LlmFailure, LlmResponse, Provider, Services}
use avvalo.Engine.Pipeline.Calm.{IsHandled, IsCalm, IsReturned}
use avvalo.Engine.Pipeline.Llm.{
  LlmStage, LlmTask, Tokens, ask_fallback, ask_providers, asked, judge, attempts, call_llm,
  is_off_topic, validate_answer,
}

ask_providers-IsHandled :
    (first : Outcome LlmFailure LlmResponse) (fallback : Option Provider) (attempt : ℕ)
    (system user : String) (most : ℕ)
    → IsHandled first
    → ((f : Provider) → fallback ≡ some f → IsHandled (f attempt system user most))
    → IsHandled (
        ask_providers first
          (mathlib.Core.Option.map (λ (f : Provider). f attempt system user most) fallback))
unfolding IsHandled ask_providers ask_fallback
ask_providers-IsHandled (Outcome.returned r) fallback attempt system user most h k = tt
ask_providers-IsHandled (Outcome.failed e) none attempt system user most h k = tt
ask_providers-IsHandled (Outcome.failed e) (some f) attempt system user most h k = k f refl
ask_providers-IsHandled (Outcome.crashed e) fallback attempt system user most h k = h

module _ (services : Services) (task : LlmTask) (calm : IsCalm services) where
  asked-IsHandled :
      (attempt : ℕ) (reason : ValidationReason) → IsHandled (asked services task attempt reason)
  unfolding asked
  asked-IsHandled attempt reason =
      ask_providers-IsHandled _ services.fallback_provider attempt _ _ _
        (calm.provider attempt _ _ _) (λ f e. calm.fallback f attempt _ _ _ e)

  judge-IsReturned :
      (outcome : Outcome LlmFailure LlmResponse) (tokens : Tokens)
      (next : ValidationReason → Tokens → Raises LlmStage) (reason : ValidationReason)
      → IsHandled outcome
      → ((reason : ValidationReason) (tokens : Tokens) → IsReturned (next reason tokens))
      → IsReturned (judge services task outcome tokens next reason)
  unfolding IsHandled IsReturned judge
  judge-IsReturned (Outcome.crashed error) tokens next reason h k = h
  judge-IsReturned (Outcome.failed failure) tokens next reason h k = tt
  judge-IsReturned (Outcome.returned response) tokens next reason h k =
      elim (Bool-cases (is_empty task.rule_hits && is_off_topic response.draft)) [
        | inl redirected ↦ rw redirected tt
        | inr on_topic ↦ elim (Bool-cases (validate_answer services task response.draft).ok) [
          | inl accepted ↦ rw (on_topic, accepted) tt
          | inr rejected ↦ rw (on_topic, rejected) (k _ _)
        ]
      ]

  attempts-IsReturned :
      (left attempt : ℕ) (reason : ValidationReason) (tokens : Tokens)
      → IsReturned (attempts services task left attempt reason tokens)
  unfolding IsReturned attempts
  attempts-IsReturned zero attempt reason tokens = tt
  attempts-IsReturned (suc left) attempt reason tokens =
      judge-IsReturned _ tokens _ reason (asked-IsHandled attempt reason)
        (λ r t. attempts-IsReturned left (attempt + 1) r t)

  pub call_llm-IsReturned : (tokens : Tokens) → IsReturned (call_llm services task tokens)
  unfolding call_llm
  call_llm-IsReturned tokens = attempts-IsReturned 2 0 ValidationReason.draft_failed tokens
