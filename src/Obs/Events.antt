-- ===== src/Obs/Events.antt =====
-- app/obs/events.py: what may be logged. A name of a pattern is a regular expression of the source.
pub mod Clean
use avvalo.Prelude.{
  ℕ, String, Bool, true, false, not, ◌&&◌, ◌||◌, List, [], ◌∷◌, Option, none, some, ◌==◌,
  if◌then◌else◌, all, any, contains, has_sub, insert, lookup,
}
use avvalo.Stdlib.{Stdlib}
use avvalo.Raises.{Raises, ok, raised, ◌>>=◌, ◌>>◌, require}

-- A member of an `Enum`, by its value, a text, or another value, such as a number or a mapping.
pub data Scalar : Type 0 where
  fixed : String → Scalar
  text : String → Scalar
  other : String → Scalar

-- The value of a field: one, or a list, a tuple or a set.
pub data FieldValue : Type 0 where
  single : Scalar → FieldValue
  items : List Scalar → FieldValue

abbrev pub text_value : String → FieldValue
text_value value = FieldValue.single (Scalar.text value)

abbrev pub Fields : Type 0
Fields = List (String × FieldValue)

abbrev pub allowed_event_names : List String
allowed_event_names =
    "consent_shown" ∷ "consent_accepted" ∷ "check_started" ∷ "check_completed" ∷ "check_failed"
    ∷ "usefulness_answered" ∷ "decision_answered" ∷ "share_clicked" ∷ "deletion_requested"
    ∷ "deletion_completed" ∷ "rule_pack_refreshed" ∷ "knowledge_base_refreshed" ∷ []

abbrev pub allowed_fields : List String
allowed_fields =
    "active_cards" ∷ "active_rules" ∷ "baseline_cards" ∷ "baseline_rules" ∷ "cost_usd"
    ∷ "error_class" ∷ "input_tokens" ∷ "input_type" ∷ "kb_version" ∷ "knowledge_card_ids"
    ∷ "language" ∷ "latency_ms" ∷ "limit" ∷ "llm_ms" ∷ "next_action" ∷ "disabled_rules"
    ∷ "no_signal" ∷ "ocr_confidence" ∷ "ocr_ms" ∷ "output_tokens" ∷ "override_cards"
    ∷ "override_rules" ∷ "retrieval_mode" ∷ "retrieval_status" ∷ "router_status"
    ∷ "reviewed_case_ids" ∷ "rule_ids" ∷ "safety_blocked" ∷ "status" ∷ "suppressed_cards"
    ∷ "usefulness" ∷ []

abbrev content_field_tokens : List String
content_field_tokens =
    "body" ∷ "caption" ∷ "card" ∷ "contact" ∷ "content" ∷ "email" ∷ "file" ∷ "image" ∷ "link"
    ∷ "message" ∷ "name" ∷ "ocr_text" ∷ "password" ∷ "phone" ∷ "prompt" ∷ "raw" ∷ "secret" ∷ "text"
    ∷ "url" ∷ "username" ∷ []

abbrev safe_content_like_field_names : List String
safe_content_like_field_names =
    "knowledge_card_ids" ∷ "active_cards" ∷ "baseline_cards" ∷ "override_cards" ∷ "suppressed_cards"
    ∷ []

abbrev content_value_patterns : List String
content_value_patterns =
    "(?i)\\b[a-z0-9._%+-]+@[a-z0-9.-]+\\.[a-z]{2,}\\b"
    ∷ "(?i)\\b(?:https?|hxxps?)://[^\\s<>()]+|\\bwww\\.[^\\s<>()]+"
    ∷ "(?<!\\d)(?:\\+?\\d[\\d\\s().-]{6,}\\d)(?!\\d)" ∷ "(?<!\\d)(?:\\d[ -]?){13,19}(?!\\d)"
    ∷ "(?i)(?<![a-z0-9])(?:[a-z]{2}\\s?\\d{7})(?![a-z0-9])" ∷ []

abbrev pub allowed_error_stages : List String
allowed_error_stages =
    "ocr" ∷ "qr" ∷ "llm" ∷ "validate" ∷ "web" ∷ "bot" ∷ "knowledge" ∷ "rule_pack" ∷ []

abbrev pub allowed_error_fields : List String
allowed_error_fields =
    "attempt" ∷ "reason" ∷ "status_code" ∷ "timeout_s" ∷ "rate" ∷ "checks" ∷ "window_minutes" ∷ []

abbrev version_re : String
version_re = "^[A-Za-z0-9][A-Za-z0-9_.-]{0,79}$"

abbrev pub request_id_re : String
request_id_re = "^[0-9a-f]{32}$"

-- `STRICT_VALUE_FORMATS`
abbrev strict_value_formats : List (String × String)
strict_value_formats = ("kb_version", version_re) ∷ ("request_id", request_id_re) ∷ []

module _ (py : Stdlib) where
  abbrev pub is_content_like : String → Bool
  is_content_like key =
      not (contains key safe_content_like_field_names)
      && any (λ token. has_sub token (py.casefold key)) content_field_tokens

  abbrev pub is_content_value : String → Bool
  is_content_value value = any (λ pattern. py.re_search pattern value) content_value_patterns

  -- `_validate_field_name`
  unfoldable pub validate_field_name : String → List String → Raises (Unit {0})
  validate_field_name key allowed = do
    require (contains key allowed) "ValueError"
    require (not (is_content_like key)) "ValueError"

  -- The test of `_validate_string_value`
  abbrev pub text_fits : Option String → String → Bool
  text_fits none value = not (is_content_value value)
  text_fits (some strict) value = py.re_fullmatch strict value

  -- `STRICT_VALUE_FORMATS.get(key) if key is not None else None`
  abbrev pub strict_format : Option String → Option String
  strict_format none = none
  strict_format (some key) = lookup key strict_value_formats

  -- `_validate_string_value`
  abbrev validate_string_value : String → Option String → Raises (Unit {0})
  validate_string_value value key = require (text_fits (strict_format key) value) "ValueError"

  -- `_validate_metadata_value`: the value of an `Enum` is a text, and is looked at here.
  abbrev validate_metadata_value : Scalar → Raises (Unit {0})
  validate_metadata_value (Scalar.fixed value) = validate_string_value value none
  validate_metadata_value (Scalar.text value) = validate_string_value value none
  validate_metadata_value (Scalar.other value) = ok tt

  -- The loop over the items
  pub validate_items : List Scalar → Raises (Unit {0})
  validate_items [] = ok tt
  validate_items (item ∷ rest) = do validate_metadata_value item; validate_items rest

  -- `_normalize_value`
  unfoldable pub normalize_value : FieldValue → Option String → Raises FieldValue
  unfolding validate_items
  normalize_value (FieldValue.single (Scalar.fixed value)) key = ok (text_value value)
  normalize_value (FieldValue.single (Scalar.text value)) key = do
    validate_string_value value key
    ok (text_value value)
  normalize_value (FieldValue.single (Scalar.other value)) key =
      ok (FieldValue.single (Scalar.other value))
  normalize_value (FieldValue.items values) key = do
    validate_items values
    ok (FieldValue.items values)

  -- `_request_fields`, from the id of the request
  unfoldable pub request_fields : Option String → Raises Fields
  unfolding normalize_value
  request_fields none = ok []
  request_fields (some request_id) = do
    value ← normalize_value (text_value request_id) (some "request_id")
    ok (("request_id", value) ∷ [])

  -- The loop of `log_event`
  unfoldable pub add_event_fields : Fields → Fields → Raises Fields
  unfolding validate_field_name normalize_value
  add_event_fields [] normalized = ok normalized
  add_event_fields ((key, value) ∷ fields) normalized = do
    validate_field_name key allowed_fields
    cleaned ← normalize_value value (some key)
    add_event_fields fields (insert key cleaned normalized)

  -- `log_event`: the payload behind its name
  unfoldable pub log_event : String → Fields → Option String → Raises Fields
  unfolding request_fields add_event_fields
  log_event name fields request_id = do
    require (contains name allowed_event_names) "ValueError"
    normalized ← request_fields request_id
    add_event_fields fields normalized

  abbrev pub is_fixed : FieldValue → Bool
  is_fixed (FieldValue.single (Scalar.fixed value)) = true
  is_fixed value = false

  -- The loop of `log_error`
  pub add_error_fields : Fields → Fields → Raises Fields
  unfolding validate_field_name normalize_value
  add_error_fields [] normalized = ok normalized
  add_error_fields ((key, value) ∷ fields) normalized = do
    validate_field_name key allowed_error_fields
    require (not (key == "reason") || is_fixed value) "ValueError"
    cleaned ← normalize_value value none
    add_error_fields fields (insert key cleaned normalized)

  -- `log_error`
  pub log_error : String → String → Fields → Option String → Raises Fields
  unfolding request_fields normalize_value add_error_fields
  log_error stage error_type fields request_id = do
    require (contains stage allowed_error_stages) "ValueError"
    normalized ← request_fields request_id
    kind ← normalize_value (text_value error_type) none
    add_error_fields fields
        (insert "error_type" kind (insert "stage" (text_value stage) normalized))
