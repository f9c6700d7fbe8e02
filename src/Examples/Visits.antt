-- ===== src/Examples/Visits.antt =====
-- Requests of the web page: app/web/routes.py and app/web/abuse.py.
use avvalo.Prelude.{
  strip, true, false, ◌≤◌, [], ◌∷◌, none, some, ◌==◌, is_blank, ◌≡◌, ◌↔◌, ◌⊎◌, refl, arith,
}
use avvalo.Engine.Pipeline.Run.{
  run_check, reserved, behind_limit, behind_stages, finish, event_of, commit_if, rate_limit_result,
  is_billable,
}
use avvalo.Engine.Pipeline.Stages.{run_stages, behind_content}
use avvalo.Engine.Pipeline.Types.{result}
use avvalo.Engine.Pipeline.Content.{
  content_from_input, content_of, content_of_image, behind_qr, read_qr, read_payloads, stop,
}
use avvalo.Data.Store.{UsageKey}
use avvalo.Data.Usage.{count_of, increment, increment_usage, validate_scope}
use avvalo.Data.Events.{
  get_consent, find_consent, record_check_event, validate_check_event_metadata,
}
use avvalo.Web.Check.{Visit, Reply, is_consent_current, ensure_web_consent, check}
use avvalo.Web.Check.Charged.{check_charges}
use avvalo.Web.Check.Consented.{check_consented}
use avvalo.Web.Abuse.{App, Message, call}
use avvalo.Web.Abuse.Capped.{total, total-call}
use avvalo.Raises.{ok, raised}
use avvalo.Web.Origin.{Origin, Request, require_same_origin, before_comma, rstrip_dots}
use avvalo.Web.Origin.Same.{Names, require_same_origin_lem}
use avvalo.Examples.Fixtures.{py, services, session, image_input}
use avvalo.Examples.Checks.{two_codes}

abbrev visit : Visit
visit = record {
  user_key = "u1";
  language = image_input.language;
  text = "";
  accepted = true;
  image = some (1 ∷ []);
  turnstile_configured = true;
  turnstile_verified = true;
  ip_key = some "a1";
  notice_version = "1";
  web_daily_limit = 5;
  now = 100;
  ip_reserved_on = 20;
  ip_refunded_on = 20;
  reserved_on = 20;
  refunded_on = 20;
  event_id = 11;
}

page_shown : (check services visit session).0 ≡ Reply.shown two_codes
unfolding check ensure_web_consent run_check reserved behind_limit behind_stages finish event_of
    commit_if rate_limit_result is_billable run_stages behind_content content_from_input content_of
    content_of_image behind_qr read_qr read_payloads stop result increment_usage validate_scope
    increment count_of record_check_event validate_check_event_metadata find_consent strip
page_shown = refl

abbrev ip_key : UsageKey
ip_key = record { user_key = "a1"; scope = "web_ip"; day = 20 }

-- The slot of the address is charged beside that of the user.
check_charges_example : count_of ip_key (check services visit session).1.committed.rate_limits ≡ 1
unfolding is_billable count_of
check_charges_example = check_charges services visit ip_key two_codes refl refl session page_shown

check_consented_example :
    is_consent_current (get_consent "u1" (ensure_web_consent services visit session).1.db) "1"
    ≡ true
check_consented_example =
    check_consented services visit session (λ h. ground (arith, h, page_shown))

-- An application that reads its body to the end.
abbrev reader : App
reader =
    App.receives (λ first. App.receives (λ second. App.answers "read") App.lets_through)
      App.lets_through

total-call_example :
    total (call 10 "http" "POST" none reader (Message.part 6 ∷ Message.part 7 ∷ [])).0 ≤ 10
total-call_example =
    total-call 10 "http" "POST" none reader (Message.part 6 ∷ Message.part 7 ∷ []) refl

abbrev request : Request
request = record {
  scheme = "http";
  hostname = some "avvalo.uz";
  port = none;
  fetch_site = "same-origin";
  origin = "https://avvalo.uz";
  forwarded_proto = "https,http";
}

abbrev origin : Origin
origin = record {
  scheme = "https";
  hostname = some "avvalo.uz.";
  port = none;
  username = none;
  password = none;
  path = "";
  query = "";
  fragment = "";
}

require_same_origin_lem_example : (require_same_origin py (λ text. some origin) request ≡ ok tt) ↔ (
    (py.casefold (strip "same-origin") == "cross-site" ≡ false)
    × ((is_blank "https://avvalo.uz" ≡ true) ⊎ Names py request (some origin)))
require_same_origin_lem_example = require_same_origin_lem py request (λ text. some origin)

-- The other port of the same host is another origin.
passes : require_same_origin py (λ text. some origin) request ≡ ok tt
unfolding require_same_origin before_comma rstrip_dots strip
passes = refl

other_port_refused :
    require_same_origin py (λ text. some (record origin { port = some 8443 })) request
    ≡ raised "403"
unfolding require_same_origin before_comma rstrip_dots strip
other_port_refused = refl
