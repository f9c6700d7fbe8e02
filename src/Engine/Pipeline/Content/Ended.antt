-- ===== src/Engine/Pipeline/Content/Ended.antt =====
-- How the content stage of app/engine/pipeline.py ends a check.
use avvalo.Prelude.{
  ℕ, String, ◌||◌, List, [], ◌∷◌, Option, none, some, ◌≢◌, refl, inl, inr, Bool-cases, is_blank,
  ltb, strip,
}
use avvalo.Raises.{Raises, ok, raised}
use avvalo.Engine.Types.{CheckInput, CheckStatus, CheckResult, InputType}
use avvalo.Engine.Pipeline.Types.{Outcome, OcrFailure, OcrResult, Services, result, setting}
use avvalo.Engine.Pipeline.Shown.{IsFixed}
use avvalo.Engine.Pipeline.Content.{
  ContentStage, QrText, QrStage, stop, ocr_failure_status, qr_if_text, without_ocr, read_ocr,
  ocr_outcome, run_ocr, behind_qr, content_of_image, content_of, content_from_input,
}

-- Neither an answer nor a verdict of the model, nor the daily limit.
abbrev pub IsEarly : CheckStatus → Type 0
IsEarly status =
    (status ≢ CheckStatus.ok)
    × (status ≢ CheckStatus.no_signal)
    × (status ≢ CheckStatus.off_topic)
    × (status ≢ CheckStatus.rate_limited)

module _ (services : Services) (input : CheckInput) where
  abbrev pub IsEnd : CheckResult → Type 0
  IsEnd r = IsFixed r × IsEarly r.status

  unfoldable pub IsGoodStage : ContentStage → Type 0
  IsGoodStage (ContentStage.found content) = Unit
  IsGoodStage (ContentStage.ended r) = IsEnd r

  unfoldable pub IsGoodContent : Raises ContentStage → Type 0
  unfolding IsGoodStage
  IsGoodContent (raised error) = Unit
  IsGoodContent (ok stage) = IsGoodStage stage

  pub stop-IsEnd :
      (status : CheckStatus) (error_class : Option String) (ms confidence : Option ℕ)
      → IsEarly status
      → IsEnd (stop input status error_class ms confidence)
  unfolding stop result
  stop-IsEnd status error_class ms confidence early = (IsFixed.message refl, early)

  failure-IsEarly : (failure : OcrFailure) → IsEarly (ocr_failure_status failure)
  unfolding ocr_failure_status
  failure-IsEarly OcrFailure.timed_out = (λ e. cc, λ e. cc, λ e. cc, λ e. cc)
  failure-IsEarly OcrFailure.not_implemented = (λ e. cc, λ e. cc, λ e. cc, λ e. cc)
  failure-IsEarly (OcrFailure.invalid_image c) = (λ e. cc, λ e. cc, λ e. cc, λ e. cc)
  failure-IsEarly (OcrFailure.provider_error c) = (λ e. cc, λ e. cc, λ e. cc, λ e. cc)

  low_ocr-IsEarly : IsEarly CheckStatus.low_ocr
  low_ocr-IsEarly = (λ e. cc, λ e. cc, λ e. cc, λ e. cc)

  without_ocr-IsGood :
      (qr : Option QrText) (ms confidence : Option ℕ) (r : CheckResult)
      → IsEnd r
      → IsGoodStage (without_ocr services input qr ms confidence r)
  unfolding IsGoodStage without_ocr
  without_ocr-IsGood none ms confidence r h = h
  without_ocr-IsGood (some qr) ms confidence r h = tt

  read_ocr-IsGood :
      (qr : Option QrText) (ocr : OcrResult) → IsGoodStage (read_ocr services input qr ocr)
  unfolding IsGoodStage read_ocr
  read_ocr-IsGood qr ocr =
      let min_confidence =
        setting (λ settings. settings.ocr_min_confidence) 500000 services.settings in
      elim (Bool-cases (is_blank (strip ocr.text) || ltb ocr.confidence min_confidence)) [
        | inl poor ↦ rw poor (
            without_ocr-IsGood (qr_if_text qr) (some services.ocr_ms) (some ocr.confidence) _ (
              stop-IsEnd CheckStatus.low_ocr none (some services.ocr_ms) (some ocr.confidence)
                low_ocr-IsEarly))
        | inr good ↦ rw good tt
      ]

  outcome-IsGood :
      (qr : Option QrText) (outcome : Outcome OcrFailure OcrResult)
      → IsGoodContent (ocr_outcome services input qr outcome)
  unfolding IsGoodContent ocr_outcome
  outcome-IsGood qr (Outcome.returned ocr) = read_ocr-IsGood qr ocr
  outcome-IsGood qr (Outcome.failed failure) =
      without_ocr-IsGood (qr_if_text qr) (some services.ocr_ms) none _
        (stop-IsEnd _ _ (some services.ocr_ms) none (failure-IsEarly failure))
  outcome-IsGood qr (Outcome.crashed error) = tt

  run_ocr-IsGood :
      (qr : Option QrText) (ocr : Option (List ℕ → Outcome OcrFailure OcrResult)) (bytes : List ℕ)
      → IsGoodContent (run_ocr services input qr ocr bytes)
  unfolding IsGoodContent run_ocr
  run_ocr-IsGood qr none bytes = without_ocr-IsGood (qr_if_text qr) none none _ (
      stop-IsEnd CheckStatus.ocr_error (some "OCRConfigError") none none
        (λ e. cc, λ e. cc, λ e. cc, λ e. cc))
  run_ocr-IsGood qr (some extract) bytes = outcome-IsGood qr (extract bytes)

  behind_qr-IsGood :
      (qr : Raises QrStage) (bytes : List ℕ) → IsGoodContent (behind_qr services input qr bytes)
  unfolding IsGoodContent behind_qr
  behind_qr-IsGood (raised error) bytes = tt
  behind_qr-IsGood (ok (QrStage.refused error_class)) bytes =
      stop-IsEnd CheckStatus.low_ocr (some error_class) none none low_ocr-IsEarly
  behind_qr-IsGood (ok (QrStage.read qr)) bytes = run_ocr-IsGood qr services.ocr bytes

  missing-IsEarly : IsEarly CheckStatus.unsupported_media
  missing-IsEarly = (λ e. cc, λ e. cc, λ e. cc, λ e. cc)

  image-IsGood : (bytes : Option (List ℕ)) → IsGoodContent (content_of_image services input bytes)
  unfolding IsGoodContent content_of_image
  image-IsGood none =
      stop-IsEnd CheckStatus.unsupported_media (some "missing_image_bytes") none none
        missing-IsEarly
  image-IsGood (some []) =
      stop-IsEnd CheckStatus.unsupported_media (some "missing_image_bytes") none none
        missing-IsEarly
  image-IsGood (some (byte ∷ bytes)) = behind_qr-IsGood _ _

  content_of-IsGood : (type : InputType) → IsGoodContent (content_of services input type)
  unfolding IsGoodContent content_of
  content_of-IsGood InputType.text = tt
  content_of-IsGood InputType.image = image-IsGood input.image_bytes

  -- A check that ends with its content ends on a fixed message, and on no status of a later stage.
  pub content_from_input-IsGood : IsGoodContent (content_from_input services input)
  unfolding content_from_input
  content_from_input-IsGood = content_of-IsGood input.input_type
