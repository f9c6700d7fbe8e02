-- ===== src/Obs/Alerts.antt =====
-- `OperatorAlertHandler` and `evaluate_knowledge_availability` of app/obs/alerts.py. Times are whole
-- units of `time.monotonic()`; a rate is its numerator and denominator.
pub mod Spaced
use avvalo.Prelude.{
  ℕ, ◌+◌, ◌*◌, String, Bool, true, false, not, ◌&&◌, ◌||◌, List, [], ◌∷◌, Option, none, some, ◌==◌,
  ltb, leb, nat_eq, if◌then◌else◌, contains, is_blank, lookup, insert, keep, length,
}
use Prim.Native.String.{◌++◌}
use avvalo.Data.Store.{CheckEvent}

-- The fields of a record of `log_error`
pub record ErrorFields : Type 0 where
  pub stage : String
  pub error_type : String
  pub status_code : Option String
  pub request_id : Option String

-- A record that reaches `emit`: with its fields or without, at a time, with an event loop that runs
-- or without.
pub record Emission : Type 0 where
  pub fields : Option ErrorFields
  pub now : ℕ
  pub looping : Bool

-- A message to the operator
pub record Alert : Type 0 where
  pub key : String
  pub now : ℕ
  pub text : String

abbrev alert_stages : List String
alert_stages = "ocr" ∷ "llm" ∷ "web" ∷ "bot" ∷ "knowledge" ∷ []

abbrev pub is_alert : ErrorFields → Bool
is_alert fields = contains fields.stage alert_stages && not (is_blank fields.error_type)

abbrev pub alert_key : ErrorFields → String
alert_key fields = fields.stage ++ (":" ++ fields.error_type)

abbrev suffix : String → Option String → String
suffix label none = ""
suffix label (some value) = label ++ value

abbrev alert_text : ErrorFields → String
alert_text fields =
    "Avvalo error: stage="
    ++ (fields.stage
        ++ (" type="
            ++ (fields.error_type
                ++ (suffix " status=" fields.status_code
                    ++ suffix " request_id=" fields.request_id))))

-- `last_sent is not None and now - last_sent < self._debounce_s`
abbrev pub is_debounced : ℕ → ℕ → Option ℕ → Bool
is_debounced debounce now none = false
is_debounced debounce now (some last) = ltb now (last + debounce)

module _ (debounce : ℕ) where
  -- `emit`, behind its first return: `_last_sent` afterwards, and the alert where one goes out.
  abbrev emit_fields : ErrorFields → ℕ → Bool → List (String × ℕ) → List (String × ℕ) × Option Alert
  emit_fields fields now looping last_sent =
      let key = alert_key fields in
      if not (is_alert fields)
      then (last_sent, none)
      else if is_debounced debounce now (lookup key last_sent)
      then (last_sent, none)
      else (
        insert key now last_sent,
        if looping then some (record { key = key; now = now; text = alert_text fields }) else none,
      )

  abbrev emit_record :
      Option ErrorFields → ℕ → Bool → List (String × ℕ) → List (String × ℕ) × Option Alert
  emit_record none now looping last_sent = (last_sent, none)
  emit_record (some fields) now looping last_sent = emit_fields fields now looping last_sent

  -- `emit`
  unfoldable pub emit : Emission → List (String × ℕ) → List (String × ℕ) × Option Alert
  emit e last_sent = emit_record e.fields e.now e.looping last_sent

  abbrev add_alert : Option Alert → List Alert → List Alert
  add_alert none alerts = alerts
  add_alert (some alert) alerts = alert ∷ alerts

  -- The alerts of the records that come one after another.
  pub alerts : List Emission → List (String × ℕ) → List Alert
  unfolding emit
  alerts [] last_sent = []
  alerts (e ∷ emissions) last_sent =
      let rest = alerts emissions (emit e last_sent).0 in add_alert (emit e last_sent).1 rest

-- `KnowledgeAvailability`, with the rate as `unavailable` of `checks`
record KnowledgeAvailability : Type 0 where
  pub checks : ℕ
  pub unavailable : ℕ
  pub alert : Bool

abbrev is_known : Option String → Bool
is_known none = false
is_known (some status) = true

abbrev is_unavailable : Option String → Bool
is_unavailable none = false
is_unavailable (some status) = status == "unavailable"

-- `evaluate_knowledge_availability`: the threshold is `numerator / denominator`; the rate of no check
-- is 0.
evaluate_knowledge_availability : ℕ → ℕ → ℕ → List CheckEvent → KnowledgeAvailability
evaluate_knowledge_availability since numerator denominator events =
    let recent = keep (λ (e : CheckEvent). leb since e.ts) events in
    let checks = length (keep (λ (e : CheckEvent). is_known e.retrieval_status) recent) in
    let unavailable =
      length (keep (λ (e : CheckEvent). is_unavailable e.retrieval_status) recent) in
    record {
      checks = checks;
      unavailable = unavailable;
      alert = ltb 0 unavailable && leb (numerator * checks) (unavailable * denominator);
    }
