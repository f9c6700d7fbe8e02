-- ===== src/Data/Events.antt =====
-- Check events, consent and feedback of app/data/repo.py.
pub mod Upserts
use avvalo.Prelude.{
  ℕ, String, Bool, true, List, [], ◌∷◌, ◌++◌, Option, none, some, ◌==◌, nat_eq, if◌then◌else◌, all,
  contains, ◌≡◌, ◌⊎◌, inl, inr, refl,
}
use avvalo.Stdlib.{Stdlib}
use avvalo.Raises.{Raises, ok, raised, ◌>>◌, require}
use avvalo.Data.Store.{Consent, CheckEvent, Feedback, Database}

abbrev pub check_event_statuses : List String
check_event_statuses =
    "ok" ∷ "no_signal" ∷ "empty_input" ∷ "meta" ∷ "off_topic" ∷ "low_ocr" ∷ "rate_limited"
    ∷ "timeout" ∷ "llm_error" ∷ "ocr_error" ∷ "safety_fallback" ∷ "unsupported_media" ∷ []

abbrev retrieval_modes : List String
retrieval_modes = "rule" ∷ "signal" ∷ "cue" ∷ "router" ∷ "none" ∷ []

abbrev retrieval_statuses : List String
retrieval_statuses = "ok" ∷ "empty" ∷ "unavailable" ∷ []

abbrev router_statuses : List String
router_statuses = "not_used" ∷ "ok" ∷ "unavailable" ∷ "invalid_ids" ∷ []

abbrev pub rule_id_re : String
rule_id_re = "^[a-z][a-z0-9_.-]{0,79}$"

abbrev pub error_class_re : String
error_class_re = "^[A-Za-z_][A-Za-z0-9_]{0,79}$"

abbrev pub version_re : String
version_re = "^[A-Za-z0-9][A-Za-z0-9_.-]{0,79}$"

-- `value is not None and not test(value)`, the other way round
abbrev fits : (String → Bool) → Option String → Bool
fits test none = true
fits test (some value) = test value

module _ (py : Stdlib) where
  -- `_validate_check_event_metadata`
  unfoldable pub validate_check_event_metadata : CheckEvent → Raises (Unit {0})
  validate_check_event_metadata e = do
    require (contains e.input_type ("text" ∷ "image" ∷ [])) "ValueError"
    require (contains e.language ("uz_latn" ∷ "ru" ∷ [])) "ValueError"
    require (contains e.status check_event_statuses) "ValueError"
    require (all (py.re_fullmatch rule_id_re) e.rule_ids) "ValueError"
    require (all (py.re_fullmatch rule_id_re) (e.knowledge_card_ids ++ e.reviewed_case_ids))
        "ValueError"
    require (fits (λ mode. contains mode retrieval_modes) e.retrieval_mode) "ValueError"
    require (fits (λ status. contains status retrieval_statuses) e.retrieval_status) "ValueError"
    require (fits (λ status. contains status router_statuses) e.router_status) "ValueError"
    require (fits (py.re_fullmatch version_re) e.kb_version) "ValueError"
    require (fits (py.re_fullmatch error_class_re) e.error_class) "ValueError"

  -- `record_check_event`: the row is given with its generated id and its time.
  unfoldable pub record_check_event : CheckEvent → Database → Raises (ℕ × Database)
  record_check_event event db = do
    validate_check_event_metadata event
    ok (event.id, record db { check_events = db.check_events ++ event ∷ [] })

then-cases :
    {A : Type 0} (m : Raises (Unit {0})) (a : A)
    → (m >> ok a ≡ ok a) ⊎ ((error : String) × (m >> ok a ≡ raised error))
then-cases (ok tt) a = inl refl
then-cases (raised error) a = inr (error, refl)

-- A check event is either refused, or appended to the table and nothing else is changed.
pub record_check_event-cases :
    (py : Stdlib) (event : CheckEvent) (db : Database)
    → (record_check_event py event db
        ≡ ok (event.id, record db { check_events = db.check_events ++ event ∷ [] }))
      ⊎ ((error : String) × (record_check_event py event db ≡ raised error))
unfolding record_check_event
record_check_event-cases py event db = then-cases (validate_check_event_metadata py event) _

-- `upsert_consent`; `user_key` is the primary key.
pub put_consent : Consent → List Consent → List Consent
put_consent row [] = row ∷ []
put_consent row (old ∷ rows) =
    if old.user_key == row.user_key then row ∷ rows else old ∷ put_consent row rows

unfoldable pub upsert_consent : Consent → Database → Database
unfolding put_consent
upsert_consent row db = record db { consents = put_consent row db.consents }

unfoldable pub find_consent : String → List Consent → Option Consent
find_consent user_key [] = none
find_consent user_key (row ∷ rows) =
    if row.user_key == user_key then some row else find_consent user_key rows

abbrev pub get_consent : String → Database → Option Consent
get_consent user_key db = find_consent user_key db.consents

abbrev pub or_old : Option String → Option String → Option String
or_old none old = old
or_old (some action) old = some action

-- A second answer replaces the first, but an action stays until another is given.
pub put_feedback : Feedback → List Feedback → List Feedback
put_feedback row [] = row ∷ []
put_feedback row (old ∷ rows) =
    if nat_eq old.check_id row.check_id
    then record old {
      usefulness = row.usefulness;
      next_action = or_old row.next_action old.next_action;
      ts = row.ts;
    }
      ∷ rows
    else old ∷ put_feedback row rows

-- `session.get(Feedback, check_id)`
unfoldable pub find_feedback : ℕ → List Feedback → Option Feedback
find_feedback check_id [] = none
find_feedback check_id (row ∷ rows) =
    if nat_eq row.check_id check_id then some row else find_feedback check_id rows

unfoldable pub record_feedback : Feedback → Database → Raises Database
unfolding put_feedback
record_feedback row db = do
  require (contains row.usefulness ("yes" ∷ "partly" ∷ "no" ∷ [])) "ValueError"
  require
      (fits (λ action. contains action ("verify" ∷ "delay_stop" ∷ "continue" ∷ "not_sure" ∷ []))
        row.next_action)
      "ValueError"
  ok (record db { feedback = put_feedback row db.feedback })
