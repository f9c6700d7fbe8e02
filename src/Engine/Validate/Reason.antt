-- ===== src/Engine/Validate/Reason.antt =====
-- `ValidationReason` of app/engine/validate.py.
use avvalo.Prelude.{String}

pub data ValidationReason : Type 0 where
  draft_failed ungrounded_red_flag banned_verdict_word banned_direct_verdict risk_score
        raw_contact_or_url raw_phone raw_card passport secret unsafe_contact_path
        internal_knowledge_id reviewed_case_as_proof unsupported_external_lookup
        unsupported_blocklist_claim payment_confirmed_claim wrong_language_script verify_block_empty
        ask_block_empty required_red_flags_empty unknown_rule_ids missing_rule_ids :
      ValidationReason

abbrev pub reason_value : ValidationReason → String
reason_value ValidationReason.draft_failed = "draft failed deterministic safety validation"
reason_value ValidationReason.ungrounded_red_flag = "red flag does not name a detected fact"
reason_value ValidationReason.banned_verdict_word = "banned verdict word"
reason_value ValidationReason.banned_direct_verdict = "banned direct verdict"
reason_value ValidationReason.risk_score = "risk score or probability leaked"
reason_value ValidationReason.raw_contact_or_url = "raw contact or URL leaked"
reason_value ValidationReason.raw_phone = "raw phone number leaked"
reason_value ValidationReason.raw_card = "raw card/account number leaked"
reason_value ValidationReason.passport = "passport number leaked"
reason_value ValidationReason.secret = "secret value leaked"
reason_value ValidationReason.unsafe_contact_path =
    "unsafe instruction to use suspicious contact path"
reason_value ValidationReason.internal_knowledge_id = "internal knowledge id leaked"
reason_value ValidationReason.reviewed_case_as_proof = "reviewed case represented as proof"
reason_value ValidationReason.unsupported_external_lookup = "unsupported external lookup claim"
reason_value ValidationReason.unsupported_blocklist_claim = "unsupported URL blocklist claim"
reason_value ValidationReason.payment_confirmed_claim = "incoming payment represented as confirmed"
reason_value ValidationReason.wrong_language_script = "wrong language script"
reason_value ValidationReason.verify_block_empty = "verify block is empty"
reason_value ValidationReason.ask_block_empty = "ask block is empty"
reason_value ValidationReason.required_red_flags_empty =
    "red_flags block is empty despite detected signals"
reason_value ValidationReason.unknown_rule_ids = "unknown addressed rule ids"
reason_value ValidationReason.missing_rule_ids = "missing addressed rule ids"
