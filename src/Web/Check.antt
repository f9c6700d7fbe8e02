-- ===== src/Web/Check.antt =====
-- The handler `check` of app/web/routes.py, behind the guards of the request: consent, the form's
-- limits, the slot of the client's address, and the check itself. The key of the session, the key of
-- the address and Turnstile's answer are given; each write has the day that it reads. What the session
-- has not committed when the handler returns is lost.
pub mod Charged
pub mod Consented
use avvalo.Prelude.{
  ℕ, String, Bool, true, false, not, ◌&&◌, List, [], ◌∷◌, Option, none, some, ◌==◌, ltb, leb, len,
  length, strip, is_blank, is_empty, is_some, if◌then◌else◌,
}
use avvalo.Raises.{Raises, ok, raised, ◌>>=◌, ◌>>◌, require}
use avvalo.Engine.Types.{
  CheckInput, CheckResult, CheckStatus, InputType, Language, language_value,
  max_submitted_text_chars, max_image_bytes,
}
use avvalo.Engine.Pipeline.Types.{Services}
use avvalo.Engine.Pipeline.Content.{stop}
use avvalo.Engine.Pipeline.Run.{Options, Session, Ended, is_billable, run_check}
use avvalo.Data.Store.{Consent, Database, UsageKey}
use avvalo.Data.Usage.{increment_usage, refund_usage}
use avvalo.Data.Events.{get_consent, upsert_consent}

-- A request, with what is known of it and of the settings.
pub record Visit : Type 0 where
  pub user_key : String
  pub language : Language
  pub text : String
  pub accepted : Bool
  pub image : Option (List ℕ)
  pub turnstile_configured : Bool
  pub turnstile_verified : Bool
  pub ip_key : Option String
  pub notice_version : String
  pub web_daily_limit : ℕ
  pub now : ℕ
  pub ip_reserved_on : ℕ
  pub ip_refunded_on : ℕ
  pub reserved_on : ℕ
  pub refunded_on : ℕ
  pub event_id : ℕ

-- The answer: an error of the form, the limit of the address, a result, or an exception.
pub data Reply : Type 0 where
  refused : ℕ → String → Reply
  limited : CheckResult → Reply
  shown : CheckResult → Reply
  failed : String → Reply

-- `is_consent_current` of app/privacy/consent.py
abbrev pub is_consent_current : Option Consent → String → Bool
is_consent_current none notice_version = false
is_consent_current (some consent) notice_version = consent.notice_version == notice_version

-- `session.commit()`
abbrev commit : Session → Session
commit s = record { db = s.db; committed = s.db }

abbrev pub ip_scope : String → ℕ → UsageKey
ip_scope key day = record { user_key = key; scope = "web_ip"; day = day }

-- `read_limited_upload` of app/web/abuse.py
abbrev read_limited_upload : Option (List ℕ) → Raises (Option (List ℕ))
read_limited_upload none = ok none
read_limited_upload (some content) =
    if ltb max_image_bytes (length content)
    then raised "413"
    else ok (if is_empty content then none else some content)

-- `require_turnstile_for_image` of app/web/abuse.py
abbrev require_turnstile_for_image : Option (List ℕ) → Bool → Bool → Raises (Unit {0})
require_turnstile_for_image none configured verified = ok tt
require_turnstile_for_image (some content) configured verified = do
  require configured "400"
  require verified "400"

module _ (services : Services) (visit : Visit) where
  -- `_ensure_web_consent`
  unfoldable pub ensure_web_consent : Session → Bool × Session
  ensure_web_consent s =
      let granted : Consent = record {
        user_key = visit.user_key;
        notice_version = visit.notice_version;
        language = language_value visit.language;
        ts = visit.now;
      } in
      if is_consent_current (get_consent visit.user_key s.db) visit.notice_version
      then (true, s)
      else if not visit.accepted
      then (false, s)
      else (true, commit (record s { db = upsert_consent granted s.db }))

  abbrev pub input_of : Option (List ℕ) → CheckInput
  input_of image = record {
    user_key = visit.user_key;
    language = visit.language;
    input_type = if is_some image then InputType.image else InputType.text;
    raw_text = if is_blank visit.text then none else some visit.text;
    image_bytes = image;
    caption = none;
  }

  abbrev pub options_of : Options
  options_of = record {
    rate_limit_override = some visit.web_daily_limit;
    commit_rate_limit_reservation = true;
    reserved_on = visit.reserved_on;
    refunded_on = visit.refunded_on;
    event_id = visit.event_id;
    event_ts = visit.now;
  }

  abbrev write : Raises Database → Session → Session
  write (raised error) s = s
  write (ok db) s = record s { db = db }

  -- `repo.refund_usage(…)` of the slot of the address
  abbrev pub refunded : String → Session → Session
  refunded key s = write (refund_usage (ip_scope key visit.ip_refunded_on) s.db) s

  -- What follows `run_check`
  abbrev pub settle : Option String → Raises CheckResult → Session → Reply × Session
  settle none (raised error) s = (Reply.failed error, s)
  settle none (ok r) s = (Reply.shown r, commit s)
  settle (some key) (raised error) s = (Reply.failed error, commit (refunded key s))
  settle (some key) (ok r) s =
      (Reply.shown r, commit (if is_billable r.status then s else refunded key s))

  abbrev pub checked : Option String → Option (List ℕ) → Session → Reply × Session
  checked key image s =
      let ended = run_check services (input_of image) options_of s in
      settle key ended.outcome ended.session

  -- `_reserve_web_ip_limit`, behind the increment
  abbrev pub counted : String → Option (List ℕ) → Raises (ℕ × Database) → Session → Reply × Session
  counted key image (raised error) s = (Reply.failed error, s)
  counted key image (ok (count, db)) s =
      let opened : Session = record s { db = db } in
      if leb count visit.web_daily_limit then checked (some key) image opened else (
        Reply.limited (
            stop (input_of image) CheckStatus.rate_limited (some "WebIpDailyLimitExceeded") none
              none),
        refunded key opened,
      )

  abbrev pub behind_guards : Option String → Option (List ℕ) → Session → Reply × Session
  behind_guards none image s = checked none image s
  behind_guards (some key) image s =
      counted key image (increment_usage (ip_scope key visit.ip_reserved_on) s.db) s

  abbrev pub guarded : Raises (Option (List ℕ)) → Session → Reply × Session
  guarded (raised error) s = (Reply.failed error, s)
  guarded (ok image) s =
      if is_blank (strip visit.text) && not (is_some image)
      then (Reply.refused 400 "empty_error", s)
      else behind_guards visit.ip_key image s

  -- The image, where it may be read and is verified
  abbrev pub image_of : Raises (Option (List ℕ))
  image_of = do
    image ← read_limited_upload visit.image
    require_turnstile_for_image image visit.turnstile_configured visit.turnstile_verified
    ok image

  abbrev pub consented : Bool × Session → Reply × Session
  consented (false, s) = (Reply.refused 400 "consent_error", s)
  consented (true, s) =
      if ltb max_submitted_text_chars (len visit.text)
      then (Reply.refused 413 "too_long_error", s)
      else guarded image_of s

  -- `check`
  unfoldable pub check : Session → Reply × Session
  unfolding ensure_web_consent
  check s = consented (ensure_web_consent s)
