-- ===== src/Engine/Pipeline/Run.antt =====
-- `run_check` of app/engine/pipeline.py with its writes: the daily counter, and the row of the check.
-- The day of the reservation and the day of the refund are given apart, since each write reads the
-- clock itself. Logging is left out.
pub mod Charges
pub mod Limits
pub mod Shows
use avvalo.Prelude.{
  ℕ, String, Bool, true, false, List, [], ◌∷◌, Option, none, some, leb, if◌then◌else◌,
}
use avvalo.Raises.{Raises, ok, raised}
use avvalo.Engine.Types.{
  CheckInput, CheckStatus, CheckResult, language_value, input_type_value, status_value,
}
use avvalo.Engine.Pipeline.Types.{Services, Settings, setting}
use avvalo.Engine.Pipeline.Content.{stop}
use avvalo.Engine.Pipeline.Stages.{run_stages}
use avvalo.Data.Store.{CheckEvent, Database, UsageKey}
use avvalo.Data.Usage.{increment_usage, refund_usage}
use avvalo.Data.Events.{record_check_event}

-- `BILLABLE_STATUSES`
unfoldable pub is_billable : CheckStatus → Bool
is_billable CheckStatus.ok = true
is_billable CheckStatus.no_signal = true
is_billable CheckStatus.low_ocr = true
is_billable CheckStatus.off_topic = true
is_billable CheckStatus.safety_fallback = true
is_billable _ = false

-- The options of `run_check`, the days of its two writes, and the id and the time of the new row.
pub record Options : Type 0 where
  pub rate_limit_override : Option ℕ
  pub commit_rate_limit_reservation : Bool
  pub reserved_on : ℕ
  pub refunded_on : ℕ
  pub event_id : ℕ
  pub event_ts : ℕ

-- A session: what it has written, and what it has committed.
pub record Session : Type 0 where
  pub db : Database
  pub committed : Database

-- How `run_check` ends: its result or an exception, and the session.
pub record Ended : Type 0 where
  pub outcome : Raises CheckResult
  pub session : Session

abbrev pub user_scope : String → ℕ → UsageKey
user_scope user_key day = record { user_key = user_key; scope = "user"; day = day }

-- `_daily_limit`, with the override in front
abbrev pub daily_limit : Option ℕ → Option Settings → ℕ
daily_limit none settings = setting (λ s. s.daily_check_limit) 5 settings
daily_limit (some limit) settings = limit

-- The row that `_record_event` writes.
unfoldable pub event_of : CheckInput → Options → CheckResult → CheckEvent
event_of input options r = record {
  id = options.event_id;
  user_key = input.user_key;
  ts = options.event_ts;
  input_type = input_type_value r.input_type;
  language = language_value r.language;
  rule_ids = r.rule_ids;
  knowledge_card_ids = r.knowledge_card_ids;
  reviewed_case_ids = r.reviewed_case_ids;
  retrieval_mode = r.retrieval_mode;
  retrieval_status = r.retrieval_status;
  router_status = r.router_status;
  kb_version = r.kb_version;
  no_signal = r.no_signal;
  status = status_value r.status;
  error_class = r.error_class;
  ocr_confidence = r.ocr_confidence;
  latency_ms = r.latency_ms;
  ocr_ms = r.ocr_ms;
  llm_ms = r.llm_ms;
  input_tokens = r.input_tokens;
  output_tokens = r.output_tokens;
  cost_usd = r.cost_usd;
  safety_blocked = r.safety_blocked;
}

-- `_rate_limit_result`, behind the increment
unfoldable pub rate_limit_result : CheckInput → Option Settings → Option ℕ → ℕ → Option CheckResult
rate_limit_result input settings override count =
    if leb count (daily_limit override settings)
    then none
    else some (stop input CheckStatus.rate_limited (some "DailyLimitExceeded") none none)

module _ (services : Services) (input : CheckInput) (options : Options) where
  -- `await session.commit()` where the reservation is to be committed
  unfoldable pub commit_if : Bool → Session → Session
  commit_if commit s = if commit then record { db = s.db; committed = s.db } else s

  -- A write of the session: an exception leaves it as it was.
  abbrev write : Raises Database → Session → Session
  write (raised error) s = s
  write (ok db) s = record s { db = db }

  abbrev refunded : Session → Session
  refunded s = write (refund_usage (user_scope input.user_key options.refunded_on) s.db) s

  -- `_record_event`: the new id goes into the result.
  abbrev pub with_event : Raises (ℕ × Database) → CheckResult → Session → Ended
  with_event (raised error) r s = record { outcome = raised error; session = s }
  with_event (ok (id, db)) r s = record {
    outcome = ok (record r { check_id = some id });
    session = record s { db = db };
  }

  -- The end of `run_check`, with the latency, the refund and the row.
  unfoldable pub finish : CheckResult → Session → Ended
  unfolding event_of
  finish r s =
      let timed : CheckResult = record r { latency_ms = services.latency_ms } in
      let settled : Session = if is_billable r.status then s else refunded s in
      with_event (record_check_event services.py (event_of input options timed) settled.db) timed
        settled

  -- The `except` clause: the reservation is given back where it was committed.
  unfoldable pub behind_stages : Raises CheckResult → Session → Ended
  unfolding finish commit_if
  behind_stages (ok r) s = finish r s
  behind_stages (raised error) s = record {
    outcome = raised error;
    session = if options.commit_rate_limit_reservation then commit_if true (refunded s) else s;
  }

  unfoldable pub behind_limit : Option CheckResult → Session → Ended
  unfolding behind_stages
  behind_limit (some r) s = finish r s
  behind_limit none s =
      behind_stages (run_stages services input) (commit_if options.commit_rate_limit_reservation s)

  unfoldable pub reserved : Raises (ℕ × Database) → Session → Ended
  unfolding behind_limit rate_limit_result
  reserved (raised error) s = record { outcome = raised error; session = s }
  reserved (ok (count, db)) s =
      behind_limit (rate_limit_result input services.settings options.rate_limit_override count)
        (record s { db = db })

  -- `run_check` with a session; without one it is `run_stages` with the latency.
  unfoldable pub run_check : Session → Ended
  unfolding reserved
  run_check s = reserved (increment_usage (user_scope input.user_key options.reserved_on) s.db) s
