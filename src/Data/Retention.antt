-- ===== src/Data/Retention.antt =====
-- app/data/retention.py. Times are seconds since the epoch, and a day is their quotient by 86400. The
-- comparison with a cutoff, `ts < now - window`, is written with the window on the other side.
pub mod Linked
pub mod Again
use avvalo.Prelude.{
  ℕ, ◌+◌, ◌-◌, ◌*◌, ◌/◌, Bool, true, false, not, ◌||◌, List, [], ◌∷◌, Option, none, some, length,
  ltb, keep, map, All, ◌≡◌, refl, ap, arith,
}
use avvalo.Data.Store.{Consent, CheckEvent, Feedback, RateLimit, DeletionLog, Database}
use avvalo.Data.Deletion.{has_id}

pub record RetentionPolicy : Type 0 where
  pub check_event_days : ℕ
  pub feedback_days : ℕ
  pub consent_days : ℕ
  pub rate_limit_hours : ℕ
  pub deletion_log_days : ℕ

abbrev pub default_policy : RetentionPolicy
default_policy = record {
  check_event_days = 90;
  feedback_days = 90;
  consent_days = 365;
  rate_limit_hours = 48;
  deletion_log_days = 365;
}

-- The counts of the rows that were deleted.
pub record RetentionResult : Type 0 where
  pub check_events : ℕ
  pub feedback : ℕ
  pub consent : ℕ
  pub rate_limits : ℕ
  pub deletion_logs : ℕ

-- `ts < now - timedelta(days=days)`
abbrev pub is_before : ℕ → ℕ → ℕ → Bool
is_before now days ts = ltb (ts + days * 86400) now

module _ (policy : RetentionPolicy) (now : ℕ) where
  abbrev pub is_expired : CheckEvent → Bool
  is_expired event = is_before now policy.check_event_days event.ts

  abbrev expired_check_ids : List CheckEvent → List ℕ
  expired_check_ids events = map (λ (e : CheckEvent). e.id) (keep is_expired events)

  -- The first `delete`: past its own window, or an answer to an expired check.
  abbrev pub is_stale : List CheckEvent → Feedback → Bool
  is_stale events answer =
      is_before now policy.feedback_days answer.ts
      || has_id answer.check_id (expired_check_ids events)

  abbrev pub is_lapsed : Consent → Bool
  is_lapsed consent = is_before now policy.consent_days consent.ts

  -- `RateLimit.day < (now - timedelta(hours=…)).date()`
  abbrev pub is_spent : RateLimit → Bool
  is_spent counter = ltb counter.key.day ((now - policy.rate_limit_hours * 3600) / 86400)

  -- `completed_ts`, or where it is NULL `requested_ts`
  abbrev closed_ts : DeletionLog → Option ℕ → ℕ
  closed_ts log none = log.requested_ts
  closed_ts log (some ts) = ts

  abbrev pub is_closed : DeletionLog → Bool
  is_closed log = is_before now policy.deletion_log_days (closed_ts log log.completed_ts)

  abbrev delete_feedback : Database → Database
  delete_feedback db = record db {
    feedback = keep (λ row. not (is_stale db.check_events row)) db.feedback;
  }

  abbrev delete_checks : Database → Database
  delete_checks db = record db { check_events = keep (λ row. not (is_expired row)) db.check_events }

  abbrev delete_consents : Database → Database
  delete_consents db = record db { consents = keep (λ row. not (is_lapsed row)) db.consents }

  abbrev delete_rates : Database → Database
  delete_rates db = record db { rate_limits = keep (λ row. not (is_spent row)) db.rate_limits }

  abbrev delete_logs : Database → Database
  delete_logs db = record db { deletion_log = keep (λ row. not (is_closed row)) db.deletion_log }

  -- `cleanup_expired`: the five `delete` statements in their order, each with its `rowcount`.
  pub cleanup_expired : Database → Database × RetentionResult
  cleanup_expired db =
      let answered = delete_feedback db in
      let checked = delete_checks answered in
      let consented = delete_consents checked in
      let counted = delete_rates consented in
      (
        delete_logs counted,
        record {
          check_events = length (keep is_expired answered.check_events);
          feedback = length (keep (is_stale db.check_events) db.feedback);
          consent = length (keep is_lapsed checked.consents);
          rate_limits = length (keep is_spent consented.rate_limits);
          deletion_logs = length (keep is_closed counted.deletion_log);
        },
      )
