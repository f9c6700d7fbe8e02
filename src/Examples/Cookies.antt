-- ===== src/Examples/Cookies.antt =====
-- Cookies, events and alerts: app/web and app/obs.
use Prim.Native.String.{◌++◌}
use avvalo.Prelude.{
  nat_eq, String, true, List, [], ◌∷◌, none, some, ◌==◌, if◌then◌else◌, len, contains, has_sub, ◌≡◌,
  refl, arith,
}
use avvalo.Stdlib.{Stdlib}
use avvalo.Raises.{ok, raises}
use avvalo.Web.Cookie.{rsplit_dot}
use avvalo.Web.Session.{
  Codes, padding, missing, sign, unsign, session_of, get_or_create_web_session,
}
use avvalo.Web.Session.Signed.{
  Encodes, get_or_create_web_session_again, unsign_sound, raises-unsign,
}
use avvalo.Web.Admin.{
  Settings, Numerals, is_admin_authenticated, admin_settings_or_404, require_admin, enabled_key,
}
use avvalo.Web.Admin.Admitted.{Admits, require_admin-Admits}
use avvalo.Obs.Events.{
  text_value, Fields, request_id_re, allowed_event_names, log_event, request_fields,
  add_event_fields, validate_field_name, normalize_value,
}
use avvalo.Obs.Events.Clean.{AreEventFields, log_event-AreEventFields}
use avvalo.Obs.Alerts.{ErrorFields, Emission, alerts}
use avvalo.Obs.Alerts.Spaced.{IsSpaced, alerts-IsSpaced}
use avvalo.Examples.Fixtures.{py}

-- A digest of two characters, and the code of the one id "a".
abbrev pub codes : Codes
codes = record {
  hmac = λ secret s. "0f";
  b64encode = λ s. "YQ==";
  b64decode = λ s. if s == "YQ==" then some "a" else none;
}

encodes : Encodes codes "secret" "a"
unfolding padding
encodes = record {
  body = "YQ";
  count = 2;
  is_code = refl;
  no_padding = refl;
  is_short = omega arith;
  is_whole = refl;
  ascii = refl;
  decodes = refl;
  digest_ascii = refl;
  digest_no_dot = refl;
}

get_or_create_web_session_again_example :
    (let session = session_of codes "secret" "a" (sign codes "secret" "a") in
      (get_or_create_web_session codes "secret" none "a" ≡ ok session)
      × (get_or_create_web_session codes "secret" (some session.signed_id) "b" ≡ ok session))
get_or_create_web_session_again_example =
    get_or_create_web_session_again codes "secret" "a" "b" encodes

a_unsigned : unsign codes "secret" "YQ.0f" ≡ ok (some "a")
unfolding unsign rsplit_dot padding
a_unsigned = refl

unsign_sound_example :
    (payload : String) × ("YQ.0f" ≡ payload ++ ("." ++ "0f"))
    × (codes.b64decode (payload ++ padding (missing (len payload))) ≡ some "a")
unsign_sound_example = unsign_sound codes "secret" "YQ.0f" "a" a_unsigned

-- A cookie with a letter beyond ASCII
raises-unsign_example : raises (unsign codes "secret" "YQ.ё") ≡ true
raises-unsign_example = raises-unsign codes "secret" "YQ.ё" (λ payload. refl)

abbrev pub settings : Settings
settings = record { admin_access_key = some "key"; web_session_secret = "secret" }

abbrev pub numerals : Numerals
numerals = record { str = λ n. "43205"; int = λ s. some 43205 }

admitted : require_admin py codes numerals (some "43205.0f") settings "ru" 7 ≡ ok none
unfolding require_admin is_admin_authenticated rsplit_dot
admitted = refl

found : admin_settings_or_404 (some settings) ≡ ok settings
unfolding admin_settings_or_404
found = refl

require_admin-Admits_example :
    (enabled_key (some "key") ≡ true)
    × (value : String) × (some "43205.0f" ≡ some value)
    × Admits py codes numerals value "secret" 7
require_admin-Admits_example =
    require_admin-Admits py codes numerals (some settings) settings (some "43205.0f") "ru" 7 found
      admitted

abbrev event_fields : Fields
event_fields = ("language", text_value "ru") ∷ ("kb_version", text_value "v1") ∷ []

-- Here a request id has 32 characters.
abbrev event_py : Stdlib
event_py = record py {
  re_fullmatch = λ p s. if p == request_id_re then nat_eq (len s) 32 else py.re_fullmatch p s;
}

abbrev event_payload : Fields
event_payload =
    ("request_id", text_value "0123456789abcdef0123456789abcdef")
    ∷ ("language", text_value "ru")
    ∷ ("kb_version", text_value "v1")
    ∷ []

consent_logged :
    log_event event_py "consent_shown" event_fields (some "0123456789abcdef0123456789abcdef")
    ≡ ok event_payload
unfolding log_event request_fields add_event_fields validate_field_name normalize_value has_sub
consent_logged = refl

log_event-AreEventFields_example :
    (contains "consent_shown" allowed_event_names ≡ true)
    × AreEventFields event_py event_fields event_payload
log_event-AreEventFields_example =
    log_event-AreEventFields event_py "consent_shown" event_fields event_payload
      (some "0123456789abcdef0123456789abcdef") consent_logged

abbrev failure : ErrorFields
failure = record {
  stage = "llm";
  error_type = "TimeoutError";
  status_code = none;
  request_id = none;
}

abbrev emissions : List Emission
emissions =
    record { fields = some failure; now = 10; looping = true }
    ∷ record { fields = some failure; now = 20; looping = true }
    ∷ record { fields = some failure; now = 910; looping = true }
    ∷ []

alerts-IsSpaced_example : IsSpaced 900 (alerts 900 emissions [])
alerts-IsSpaced_example = alerts-IsSpaced 900 emissions []
