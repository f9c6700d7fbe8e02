-- ===== src/Engine/Pipeline/Stages/Returns.antt =====
-- The stages of app/engine/pipeline.py return where the services raise nothing unforeseen.
use avvalo.Prelude.{inl, inr, Bool-cases, is_blank, ltb, len}
use avvalo.Raises.{Raises, ok, raised}
use avvalo.Engine.Types.{CheckInput, RuleHit, max_submitted_text_chars}
use avvalo.Engine.Meta.{is_meta_message}
use avvalo.Engine.Knowledge.Types.{RetrievalResult}
use avvalo.Prelude.{List}
use avvalo.Engine.Pipeline.Types.{Services}
use avvalo.Engine.Pipeline.Calm.{IsCalm, IsReturned}
use avvalo.Engine.Pipeline.Content.{Content, ContentStage}
use avvalo.Engine.Pipeline.Content.Returns.{content_from_input-IsReturned}
use avvalo.Engine.Pipeline.Llm.{LlmStage}
use avvalo.Engine.Pipeline.Llm.Returns.{call_llm-IsReturned}
use avvalo.Engine.Pipeline.Stages.{
  behind_llm, analyze, with_content, behind_content, run_stages, effective,
}

module _ (services : Services) (calm : IsCalm services) where
  behind_llm-IsReturned :
      (input : CheckInput) (hits : List RuleHit) (retrieval : RetrievalResult) (content : Content)
      (stage : Raises LlmStage)
      → IsReturned stage
      → IsReturned (behind_llm services input hits retrieval content stage)
  unfolding IsReturned behind_llm
  behind_llm-IsReturned input hits retrieval content (raised error) h = h
  behind_llm-IsReturned input hits retrieval content (ok (LlmStage.ended r)) h = tt
  behind_llm-IsReturned input hits retrieval content (ok (LlmStage.answered r cost)) h = tt

  analyze-IsReturned :
      (input : CheckInput) (content : Content) → IsReturned (analyze services input content)
  unfolding analyze
  analyze-IsReturned input content =
      behind_llm-IsReturned input _ _ content _ (call_llm-IsReturned services _ calm _)

  with_content-IsReturned :
      (input : CheckInput) (content : Content) → IsReturned (with_content services input content)
  unfolding IsReturned with_content
  with_content-IsReturned input content = elim (Bool-cases (is_blank content.text)) [
    | inl blank ↦ rw blank tt
    | inr given ↦ elim (Bool-cases (ltb max_submitted_text_chars (len content.text))) [
      | inl long ↦ rw (given, long) tt
      | inr fits ↦ elim (Bool-cases (is_meta_message services.py content.text)) [
        | inl meta ↦ rw (given, fits, meta) tt
        | inr situation ↦
            rw (given, fits, situation)
              (analyze-IsReturned (effective services input content.text) content)
      ]
    ]
  ]

  behind_content-IsReturned :
      (input : CheckInput) (stage : Raises ContentStage)
      → IsReturned stage
      → IsReturned (behind_content services input stage)
  unfolding IsReturned behind_content
  behind_content-IsReturned input (raised error) h = h
  behind_content-IsReturned input (ok (ContentStage.ended r)) h = tt
  behind_content-IsReturned input (ok (ContentStage.found content)) h =
      with_content-IsReturned input content

  -- Where no service raises an exception that is not handled, every input comes to a result: time-outs,
  -- provider and OCR failures and rejected drafts all end on one.
  pub run_stages-IsReturned : (input : CheckInput) → IsReturned (run_stages services input)
  unfolding run_stages
  run_stages-IsReturned input =
      behind_content-IsReturned input _ (content_from_input-IsReturned services input calm)
