-- ===== src/Examples/Checks.antt =====
-- Whole checks: app/engine/pipeline.py.
use avvalo.Prelude.{◌≤◌, false, [], ◌∷◌, none, some, ◌≡◌, ◌↔◌, refl, arith, strip}
use avvalo.Raises.{ok, raised}
use avvalo.Engine.Types.{CheckInput, CheckResult, CheckStatus, Language, InputType}
use avvalo.Engine.Format.Copy.{format_status_message}
use avvalo.Engine.Pipeline.Types.{result}
use avvalo.Engine.Pipeline.Content.{
  content_from_input, extract_text, content_of, content_of_image, behind_qr, read_qr, read_payloads,
  stop,
}
use avvalo.Engine.Pipeline.Llm.{LlmTask, Tokens, call_llm}
use avvalo.Engine.Pipeline.Llm.Answers.{IsGoodRun, call_llm-IsGoodRun}
use avvalo.Engine.Pipeline.Calm.{IsHandled, IsCalm, IsReturned}
use avvalo.Engine.Pipeline.Stages.Returns.{run_stages-IsReturned}
use avvalo.Engine.Pipeline.Stages.{run_stages, behind_content, with_content}
use avvalo.Engine.Pipeline.Run.{
  run_check, reserved, behind_limit, behind_stages, finish, event_of, commit_if, rate_limit_result,
  is_billable, Options,
}
use avvalo.Engine.Pipeline.Run.Shows.{IsShown, run_check_shows}
use avvalo.Engine.Pipeline.Run.Charges.{count_in, run_check_charges, run_check-late_refund}
use avvalo.Engine.Pipeline.Run.Limits.{run_check_limits, run_check_refunds}
use avvalo.Data.Usage.{count_of, increment, increment_usage, refund_usage, validate_scope}
use avvalo.Data.Events.{record_check_event, validate_check_event_metadata}
use avvalo.Examples.Fixtures.{
  services, broken, text_input, image_input, options, usage_key, session, otp_hit, otp_card,
}

run_check_shows_example :
    IsShown services text_input (run_check services text_input options session).outcome
run_check_shows_example = run_check_shows services text_input options session

abbrev pub two_codes : CheckResult
two_codes = record {
  status = CheckStatus.low_ocr;
  check_id = some 11;
  text = some (format_status_message CheckStatus.low_ocr Language.uz_latn);
  rule_ids = [];
  knowledge_card_ids = [];
  reviewed_case_ids = [];
  retrieval_mode = none;
  retrieval_status = none;
  router_status = none;
  kb_version = none;
  no_signal = false;
  safety_blocked = false;
  language = Language.uz_latn;
  input_type = InputType.image;
  latency_ms = 3;
  ocr_ms = none;
  llm_ms = none;
  ocr_confidence = none;
  input_tokens = none;
  output_tokens = none;
  cost_usd = none;
  error_class = some "MultipleQRCodes";
}

two_codes_run : (run_check services image_input options session).outcome ≡ ok two_codes
unfolding run_check reserved behind_limit behind_stages finish event_of commit_if rate_limit_result
    is_billable run_stages behind_content content_from_input content_of content_of_image behind_qr
    read_qr read_payloads stop result increment_usage validate_scope increment count_of
    record_check_event validate_check_event_metadata
two_codes_run = refl

-- An image with two QR codes is charged.
run_check_charges_example :
    count_in usage_key (run_check services image_input options session).session ≡ 4
unfolding is_billable count_of
run_check_charges_example =
    run_check_charges services image_input options session two_codes usage_key refl two_codes_run

abbrev over_midnight : Options
over_midnight = record options { refunded_on = 21 }

abbrev no_text : CheckInput
no_text = record text_input { raw_text = none }

abbrev no_text_result : CheckResult
no_text_result = record two_codes {
  status = CheckStatus.empty_input;
  text = some (format_status_message CheckStatus.empty_input Language.uz_latn);
  input_type = InputType.text;
  error_class = none;
}

no_text_run : (run_check services no_text over_midnight session).outcome ≡ ok no_text_result
unfolding run_check reserved behind_limit behind_stages finish event_of commit_if rate_limit_result
    is_billable run_stages behind_content with_content content_from_input content_of extract_text
    stop result increment_usage refund_usage validate_scope increment count_of record_check_event
    validate_check_event_metadata strip
no_text_run = refl

-- An empty message over midnight: the day of the reservation keeps its charge.
run_check-late_refund_example :
    (count_in usage_key (run_check services no_text over_midnight session).session ≡ 4)
    × (count_in
          (record usage_key { day = 21 })
          (run_check services no_text over_midnight session).session
        ≡ 0)
unfolding count_of
run_check-late_refund_example =
    run_check-late_refund services no_text over_midnight session no_text_result refl
      (unfold is_billable in refl) no_text_run

run_check_limits_example : (CheckStatus.low_ocr ≡ CheckStatus.rate_limited) ↔ (5 ≤ 3)
unfolding count_of
run_check_limits_example =
    run_check_limits services image_input options session two_codes two_codes_run

broken_raises : run_stages broken image_input ≡ raised "MemoryError"
unfolding run_stages behind_content content_from_input content_of content_of_image behind_qr read_qr
broken_raises = refl

run_check_refunds_example :
    (let left = (run_check broken image_input options session).session in
      (count_of usage_key left.db.rate_limits ≡ 3)
      × (count_of usage_key left.committed.rate_limits ≡ 3))
unfolding count_of
run_check_refunds_example =
    run_check_refunds broken image_input options session usage_key "MemoryError" refl refl
      (omega arith) broken_raises

abbrev task : LlmTask
task = record {
  input = text_input;
  minimized_text = "sms kod ayting";
  rule_hits = otp_hit ∷ [];
  signals = [];
  cards = otp_card ∷ [];
  mandatory_card_ids = "card_otp" ∷ [];
  ocr_ms = none;
  ocr_confidence = none;
}

abbrev tokens : Tokens
tokens = record { input = 7; output = 2 }

call_llm-IsGoodRun_example : IsGoodRun services task (call_llm services task tokens)
call_llm-IsGoodRun_example = call_llm-IsGoodRun services task tokens

services-IsCalm : IsCalm services
unfolding IsHandled
services-IsCalm = record {
  provider = λ attempt system user most. tt;
  fallback = λ f attempt system user most e. ground arith;
  decode_qr = λ bytes. tt;
  ocr = λ f bytes e. ground arith;
}

run_stages-IsReturned_example : IsReturned (run_stages services text_input)
run_stages-IsReturned_example = run_stages-IsReturned services services-IsCalm text_input
