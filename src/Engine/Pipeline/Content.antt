-- ===== src/Engine/Pipeline/Content.antt =====
-- The content of a check in app/engine/pipeline.py: `_content_from_input` and its helpers. Logging
-- is left out.
pub mod Ended
pub mod Returns
use avvalo.Prelude.{
  ℕ, String, Bool, true, false, not, ◌&&◌, ◌||◌, List, [], ◌∷◌, ◌++◌, Option, none, some, ltb,
  if◌then◌else◌, map, keep, contains, is_empty, is_blank, strip, join, len, from_keys, length,
}
use avvalo.Raises.{Raises, ok, raised}
use avvalo.Engine.Types.{
  CheckInput, CheckStatus, CheckResult, InputType, Signal, max_submitted_text_chars,
}
use avvalo.Engine.Format.Copy.{format_status_message}
use avvalo.Engine.Qr.{is_emvco_payment_payload}
use avvalo.Engine.Pipeline.Types.{Outcome, OcrFailure, OcrResult, Services, result, setting}

-- `_ContentStageResult`: the text to check, or the result with which the check ends.
pub record Content : Type 0 where
  pub text : String
  pub ocr_ms : Option ℕ
  pub ocr_confidence : Option ℕ
  pub signals : List Signal
  pub contains_decoded_qr : Bool

pub data ContentStage : Type 0 where
  found : Content → ContentStage
  ended : CheckResult → ContentStage

-- `part.strip() if part else ""`
abbrev stripped : Option String → String
stripped none = ""
stripped (some part) = strip part

-- `_extract_text`
unfoldable pub extract_text : CheckInput → String
extract_text input =
    let parts = stripped input.caption ∷ stripped input.raw_text ∷ [] in
    strip (join "\n" (keep (λ part. not (is_blank part)) parts))

-- `_join_content`
pub join_content : List (Option String) → String
join_content parts = join "\n" (from_keys (keep (λ part. not (is_blank part)) (map stripped parts)))

-- `_ocr_failure_status`
pub ocr_failure_status : OcrFailure → CheckStatus
ocr_failure_status OcrFailure.timed_out = CheckStatus.timeout
ocr_failure_status OcrFailure.not_implemented = CheckStatus.unsupported_media
ocr_failure_status (OcrFailure.invalid_image error_class) = CheckStatus.unsupported_media
ocr_failure_status (OcrFailure.provider_error error_class) = CheckStatus.ocr_error

pub ocr_failure_class : OcrFailure → String
ocr_failure_class OcrFailure.timed_out = "TimeoutError"
ocr_failure_class OcrFailure.not_implemented = "NotImplementedError"
ocr_failure_class (OcrFailure.invalid_image error_class) = error_class
ocr_failure_class (OcrFailure.provider_error error_class) = error_class

-- A result with the fixed message of its status.
unfoldable pub stop : CheckInput → CheckStatus → Option String → Option ℕ → Option ℕ → CheckResult
stop input status error_class ocr_ms ocr_confidence =
    let blank : CheckResult =
      result input status (some (format_status_message status input.language)) in
    record blank { error_class = error_class; ocr_ms = ocr_ms; ocr_confidence = ocr_confidence }

-- The text of a QR code, with the signal of a payment code.
pub record QrText : Type 0 where
  pub text : String
  pub signals : List Signal

-- The status "low_ocr" with its class, or the text of the only payload, if there is one.
pub data QrStage : Type 0 where
  refused : String → QrStage
  read : Option QrText → QrStage

abbrev payment_signals : List Signal
payment_signals = record { kind = "payment_qr"; note = some "emvco-shaped" } ∷ []

-- `qr_text` is tested as a truth value where OCR yields nothing: a blank payload counts as none.
abbrev pub qr_if_text : Option QrText → Option QrText
qr_if_text none = none
qr_if_text (some qr) = if is_blank qr.text then none else some qr

abbrev pub qr_text : Option QrText → Option String
qr_text none = none
qr_text (some qr) = some qr.text

abbrev qr_signals : Option QrText → List Signal
qr_signals none = []
qr_signals (some qr) = qr.signals

abbrev is_some_qr : Option QrText → Bool
is_some_qr none = false
is_some_qr (some qr) = true

module _ (services : Services) where
  read_payload : String → QrStage
  read_payload payload =
      if ltb max_submitted_text_chars (len payload)
      then QrStage.refused "QRPayloadTooLong"
      else if is_emvco_payment_payload (services.py.utf8 payload)
      then QrStage.read (some (record { text = "[PAYMENT_QR]"; signals = payment_signals }))
      else QrStage.read (some (record { text = payload; signals = [] }))

  unfoldable pub read_payloads : List String → QrStage
  unfolding read_payload
  read_payloads [] = QrStage.read none
  read_payloads (payload ∷ []) = read_payload (strip payload)
  read_payloads (payload ∷ other ∷ payloads) = QrStage.refused "MultipleQRCodes"

  -- The call of the decoder: only an unforeseen exception goes on.
  unfoldable pub read_qr : Outcome (Unit {0}) (List String) → Raises QrStage
  unfolding read_payloads
  read_qr (Outcome.returned payloads) = ok (read_payloads payloads)
  read_qr (Outcome.failed failure) = ok (QrStage.read none)
  read_qr (Outcome.crashed error) = raised error

  module _ (input : CheckInput) where
    -- What is left where OCR gave nothing: the QR text, or the end of the check.
    pub without_ocr : Option QrText → Option ℕ → Option ℕ → CheckResult → ContentStage
    without_ocr none ocr_ms ocr_confidence failure = ContentStage.ended failure
    without_ocr (some qr) ocr_ms ocr_confidence failure = ContentStage.found (record {
      text = join_content (input.caption ∷ input.raw_text ∷ some qr.text ∷ []);
      ocr_ms = ocr_ms;
      ocr_confidence = ocr_confidence;
      signals = qr.signals;
      contains_decoded_qr = true;
    })

    abbrev ocr_failure : OcrFailure → CheckResult
    ocr_failure failure =
        stop input (ocr_failure_status failure) (some (ocr_failure_class failure))
          (some services.ocr_ms) none

    pub read_ocr : Option QrText → OcrResult → ContentStage
    unfolding without_ocr
    read_ocr qr ocr =
        let min_confidence =
          setting (λ settings. settings.ocr_min_confidence) 500000 services.settings in
        let ocr_text = strip ocr.text in
        let poor =
          stop input CheckStatus.low_ocr none (some services.ocr_ms) (some ocr.confidence) in
        let parts = input.caption ∷ input.raw_text ∷ some ocr_text ∷ qr_text qr ∷ [] in
        if is_blank ocr_text || ltb ocr.confidence min_confidence
        then without_ocr (qr_if_text qr) (some services.ocr_ms) (some ocr.confidence) poor
        else ContentStage.found (record {
          text = join_content parts;
          ocr_ms = some services.ocr_ms;
          ocr_confidence = some ocr.confidence;
          signals = qr_signals qr;
          contains_decoded_qr = is_some_qr qr;
        })

    pub ocr_outcome : Option QrText → Outcome OcrFailure OcrResult → Raises ContentStage
    unfolding without_ocr read_ocr
    ocr_outcome qr (Outcome.returned ocr) = ok (read_ocr qr ocr)
    ocr_outcome qr (Outcome.failed failure) =
        ok (without_ocr (qr_if_text qr) (some services.ocr_ms) none (ocr_failure failure))
    ocr_outcome qr (Outcome.crashed error) = raised error

    -- `get_ocr_provider` and `extract`
    pub run_ocr :
        Option QrText
        → Option (List ℕ → Outcome OcrFailure OcrResult)
        → List ℕ
        → Raises ContentStage
    unfolding without_ocr ocr_outcome
    run_ocr qr none image_bytes = ok (
        without_ocr (qr_if_text qr) none none
          (stop input CheckStatus.ocr_error (some "OCRConfigError") none none))
    run_ocr qr (some extract) image_bytes = ocr_outcome qr (extract image_bytes)

    unfoldable pub behind_qr : Raises QrStage → List ℕ → Raises ContentStage
    unfolding run_ocr
    behind_qr (raised error) image_bytes = raised error
    behind_qr (ok (QrStage.refused error_class)) image_bytes =
        ok (ContentStage.ended (stop input CheckStatus.low_ocr (some error_class) none none))
    behind_qr (ok (QrStage.read qr)) image_bytes = run_ocr qr services.ocr image_bytes

    abbrev missing_image : Raises ContentStage
    missing_image = ok (
        ContentStage.ended
          (stop input CheckStatus.unsupported_media (some "missing_image_bytes") none none))

    unfoldable pub content_of_image : Option (List ℕ) → Raises ContentStage
    unfolding behind_qr read_qr
    content_of_image none = missing_image
    content_of_image (some []) = missing_image
    content_of_image (some (byte ∷ bytes)) =
        behind_qr (read_qr (services.decode_qr (byte ∷ bytes))) (byte ∷ bytes)

    unfoldable pub content_of : InputType → Raises ContentStage
    unfolding content_of_image extract_text
    content_of InputType.text = ok (
        ContentStage.found (record {
          text = extract_text input;
          ocr_ms = none;
          ocr_confidence = none;
          signals = [];
          contains_decoded_qr = false;
        }))
    content_of InputType.image = content_of_image input.image_bytes

    -- `_content_from_input`
    unfoldable pub content_from_input : Raises ContentStage
    unfolding content_of
    content_from_input = content_of input.input_type
