-- ===== src/Engine/Pipeline/Content/Returns.antt =====
-- The content stage returns where the decoder and OCR raise nothing unforeseen.
use avvalo.Prelude.{ℕ, List, [], ◌∷◌, Option, none, some, ◌≡◌, refl}
use avvalo.Raises.{Raises, ok, raised}
use avvalo.Engine.Types.{CheckInput, InputType}
use avvalo.Engine.Pipeline.Types.{Outcome, OcrFailure, OcrResult, Services}
use avvalo.Engine.Pipeline.Calm.{IsHandled, IsCalm, IsReturned}
use avvalo.Engine.Pipeline.Content.{
  QrStage, QrText, read_qr, run_ocr, ocr_outcome, behind_qr, content_of_image, content_of,
  content_from_input,
}

module _ (services : Services) (input : CheckInput) (calm : IsCalm services) where
  outcome-IsReturned :
      (qr : Option QrText) (outcome : Outcome OcrFailure OcrResult)
      → IsHandled outcome
      → IsReturned (ocr_outcome services input qr outcome)
  unfolding IsHandled IsReturned ocr_outcome
  outcome-IsReturned qr (Outcome.returned ocr) h = tt
  outcome-IsReturned qr (Outcome.failed failure) h = tt
  outcome-IsReturned qr (Outcome.crashed error) h = h

  run_ocr-IsReturned :
      (qr : Option QrText) (ocr : Option (List ℕ → Outcome OcrFailure OcrResult)) (bytes : List ℕ)
      → ((f : List ℕ → Outcome OcrFailure OcrResult) → ocr ≡ some f → IsHandled (f bytes))
      → IsReturned (run_ocr services input qr ocr bytes)
  unfolding IsReturned run_ocr
  run_ocr-IsReturned qr none bytes h = tt
  run_ocr-IsReturned qr (some extract) bytes h =
      outcome-IsReturned qr (extract bytes) (h extract refl)

  behind_qr-IsReturned :
      (qr : Raises QrStage) (bytes : List ℕ)
      → IsReturned qr
      → IsReturned (behind_qr services input qr bytes)
  unfolding IsReturned behind_qr
  behind_qr-IsReturned (raised error) bytes h = h
  behind_qr-IsReturned (ok (QrStage.refused error_class)) bytes h = tt
  behind_qr-IsReturned (ok (QrStage.read qr)) bytes h =
      run_ocr-IsReturned qr services.ocr bytes (λ f e. calm.ocr f bytes e)

  read_qr-IsReturned :
      (outcome : Outcome (Unit {0}) (List _))
      → IsHandled outcome
      → IsReturned (read_qr services outcome)
  unfolding IsHandled IsReturned read_qr
  read_qr-IsReturned (Outcome.returned payloads) h = tt
  read_qr-IsReturned (Outcome.failed failure) h = tt
  read_qr-IsReturned (Outcome.crashed error) h = h

  image-IsReturned : (bytes : Option (List ℕ)) → IsReturned (content_of_image services input bytes)
  unfolding IsReturned content_of_image
  image-IsReturned none = tt
  image-IsReturned (some []) = tt
  image-IsReturned (some (byte ∷ bytes)) =
      behind_qr-IsReturned _ _ (read_qr-IsReturned _ (calm.decode_qr (byte ∷ bytes)))

  content_of-IsReturned : (type : InputType) → IsReturned (content_of services input type)
  unfolding IsReturned content_of
  content_of-IsReturned InputType.text = tt
  content_of-IsReturned InputType.image = image-IsReturned input.image_bytes

  pub content_from_input-IsReturned : IsReturned (content_from_input services input)
  unfolding content_from_input
  content_from_input-IsReturned = content_of-IsReturned input.input_type
