-- ===== src/Examples/Rows.antt =====
-- Rows: app/data/repo.py.
use avvalo.Prelude.{some, false, none, ◌∷◌, [], String, ◌≡◌, refl}
use avvalo.Data.Store.{Feedback, Consent, CheckEvent, Database}
use avvalo.Data.Usage.{count_of, increment, refund, refund-increment}
use avvalo.Data.Events.{get_consent, find_feedback}
use avvalo.Data.Deletion.{events_of, delete_user_data, delete_user_data_lem}
use avvalo.Data.Retention.{default_policy, cleanup_expired}
use avvalo.Data.Retention.Linked.{IsLinked, cleanup_expired-IsLinked}
use avvalo.Examples.Fixtures.{usage_key, rows, db}

refund-increment_example : count_of usage_key (refund usage_key (increment usage_key rows)) ≡ 3
unfolding count_of
refund-increment_example = refund-increment usage_key usage_key rows

abbrev audit : String → String
audit key = "audit"

abbrev consent : Consent
consent = record { user_key = "u1"; notice_version = "2"; language = "uz_latn"; ts = 5 }

abbrev first_answer : Feedback
first_answer = record { check_id = 11; usefulness = "no"; next_action = some "verify"; ts = 6 }

abbrev second_answer : Feedback
second_answer = record { check_id = 11; usefulness = "yes"; next_action = none; ts = 7 }

abbrev old_check : CheckEvent
old_check = record {
  id = 11;
  user_key = "u2";
  ts = 1;
  input_type = "text";
  language = "ru";
  rule_ids = [];
  knowledge_card_ids = [];
  reviewed_case_ids = [];
  retrieval_mode = none;
  retrieval_status = none;
  router_status = none;
  kb_version = none;
  no_signal = false;
  status = "ok";
  error_class = none;
  ocr_confidence = none;
  latency_ms = 5;
  ocr_ms = none;
  llm_ms = none;
  input_tokens = none;
  output_tokens = none;
  cost_usd = none;
  safety_blocked = false;
}

-- The user of the old check has answered it.
abbrev answered_db : Database
answered_db = record db { check_events = old_check ∷ []; feedback = first_answer ∷ [] }

delete_user_data_lem_example :
    let after = delete_user_data audit "u2" 9 answered_db in
    (get_consent "u2" after ≡ none)
    × (count_of usage_key after.rate_limits ≡ count_of usage_key rows)
    × (events_of "u2" after ≡ [])
    × (find_feedback 11 after.feedback ≡ none)
    × (after.deletion_log
        ≡ record { user_key = "audit"; requested_ts = 9; completed_ts = some 9 } ∷ [])
unfolding events_of
delete_user_data_lem_example = delete_user_data_lem audit "u2" 9 answered_db "u2" usage_key 11

-- Ninety days and nine seconds after the epoch, the first of the two checks is expired.
abbrev checked_db : Database
checked_db = record db {
  check_events = old_check ∷ record old_check { id = 12; ts = 100 } ∷ [];
  feedback =
      record { check_id = 11; usefulness = "no"; next_action = none; ts = 100 }
      ∷ record { check_id = 12; usefulness = "yes"; next_action = none; ts = 100 }
      ∷ [];
}

cleanup_expired-IsLinked_example :
    IsLinked (cleanup_expired default_policy 7776009 checked_db).0
    × IsLinked (delete_user_data audit "u2" 7776009 checked_db)
cleanup_expired-IsLinked_example =
    cleanup_expired-IsLinked default_policy 7776009 audit "u2" checked_db (refl, (refl, tt))
