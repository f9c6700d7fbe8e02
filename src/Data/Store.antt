-- ===== src/Data/Store.antt =====
-- The tables of app/data/models.py that app/data/repo.py reads and writes. A table is the list of its
-- rows in the order of insertion; ids and times are numbers.
use avvalo.Prelude.{ℕ, String, Bool, List, Option}

pub record Consent : Type 0 where
  pub user_key : String
  pub notice_version : String
  pub language : String
  pub ts : ℕ

pub record CheckEvent : Type 0 where
  pub id : ℕ
  pub user_key : String
  pub ts : ℕ
  pub input_type : String
  pub language : String
  pub rule_ids : List String
  pub knowledge_card_ids : List String
  pub reviewed_case_ids : List String
  pub retrieval_mode : Option String
  pub retrieval_status : Option String
  pub router_status : Option String
  pub kb_version : Option String
  pub no_signal : Bool
  pub status : String
  pub error_class : Option String
  pub ocr_confidence : Option ℕ
  pub latency_ms : ℕ
  pub ocr_ms : Option ℕ
  pub llm_ms : Option ℕ
  pub input_tokens : Option ℕ
  pub output_tokens : Option ℕ
  pub cost_usd : Option ℕ
  pub safety_blocked : Bool

pub record Feedback : Type 0 where
  pub check_id : ℕ
  pub usefulness : String
  pub next_action : Option String
  pub ts : ℕ

-- The primary key of `rate_limit`, and its row.
pub record UsageKey : Type 0 where
  pub user_key : String
  pub scope : String
  pub day : ℕ

pub record RateLimit : Type 0 where
  pub key : UsageKey
  pub count : ℕ

pub record DeletionLog : Type 0 where
  pub user_key : String
  pub requested_ts : ℕ
  pub completed_ts : Option ℕ

pub record Database : Type 0 where
  pub consents : List Consent
  pub check_events : List CheckEvent
  pub feedback : List Feedback
  pub rate_limits : List RateLimit
  pub deletion_log : List DeletionLog
