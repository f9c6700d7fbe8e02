-- ===== src/Engine/Rules/Signals.antt =====
-- Structural signals of app/engine/rules/engine.py, and the deduplicated list that collects them.
use avvalo.Prelude.{
  String, Bool, true, false, ◌&&◌, List, [], ◌∷◌, ◌++◌, Option, none, some, ◌==◌, leb,
  if◌then◌else◌, any, len,
}
use avvalo.Stdlib.{Stdlib}
use avvalo.Engine.Types.{Signal}
use avvalo.Engine.Url.{OfficialDomainCatalog}
use avvalo.Engine.Url.Classify.{classify_link}
use avvalo.Engine.Url.Tables.{
  url_re, label_shortened, label_lookalike, label_domain_in_subdomain, label_mixed_script,
  label_credentials, label_ip,
}
use avvalo.Engine.Rules.Matching.{normalize_text}
use avvalo.Engine.Rules.Tables.{
  email_re, handle_re, phone_re, card_re, code_re, transfer_near_card_re,
}

abbrev pub Key : Type 0
Key = String × Option String

abbrev pub key_of : Signal → Key
key_of signal = (signal.kind, signal.note)

abbrev pub note_eq : Option String → Option String → Bool
note_eq none none = true
note_eq (some a) (some b) = a == b
note_eq _ _ = false

abbrev pub key_eq : Key → Key → Bool
key_eq (a, m) (b, n) = a == b && note_eq m n

abbrev pub has_key : Key → List Key → Bool
has_key key keys = any (λ k. key_eq k key) keys

-- `signals` and `signal_keys`, which the source passes together.
pub record Signals : Type 0 where
  pub signals : List Signal
  pub signal_keys : List Key

abbrev pub no_signals : Signals
no_signals = record { signals = []; signal_keys = [] }

-- `_add_signal`
pub add_signal : String → Option String → Signals → Signals
add_signal kind note found = if has_key (kind, note) found.signal_keys then found else record {
  signals = found.signals ++ record { kind = kind; note = note } ∷ [];
  signal_keys = (kind, note) ∷ found.signal_keys;
}

add_if : Bool → String → Option String → Signals → Signals
add_if b kind note found = if b then add_signal kind note found else found

-- `_SIGNAL_KIND_BY_LABEL.get(label)`
abbrev signal_kind_by_label : String → Option String
signal_kind_by_label label =
    if label == label_shortened
    then some "link_shortened"
    else if label == label_lookalike
    then some "link_lookalike"
    else if label == label_domain_in_subdomain
    then some "link_lookalike"
    else if label == label_mixed_script
    then some "link_lookalike"
    else if label == label_credentials
    then some "link_userinfo"
    else if label == label_ip
    then some "link_ip"
    else none

add_kind : Option String → Option String → Signals → Signals
add_kind none label found = add_signal "link" none found
add_kind (some kind) label found = add_signal kind label found

add_link : Option String → Signals → Signals
unfolding add_kind
add_link none found = add_signal "link" none found
add_link (some label) found = add_kind (signal_kind_by_label label) (some label) found

module _ (py : Stdlib) (catalog : OfficialDomainCatalog) where
  add_links : List String → Signals → Signals
  add_links [] found = found
  add_links (url ∷ urls) found = add_links urls (add_link (classify_link py catalog url) found)

  -- `_card_digits`, as a truth value
  has_card_digits : String → Bool
  has_card_digits value =
      let digits = py.re_sub "\\D" "" value in leb 13 (len digits) && leb (len digits) 19

  pub extract_structural_signals : String → List Signal
  unfolding add_links add_link add_if has_card_digits
  extract_structural_signals text =
      let links = add_links (py.re_find_all url_re (py.re_sub email_re " " text)) no_signals in
      let email = add_if (py.re_search email_re text) "email" none links in
      let handle = add_if (py.re_search handle_re text) "handle" none email in
      let phone = add_if (py.re_search phone_re text) "phone" none handle in
      let code = add_if (py.re_search code_re text) "code" none phone in
      let cards = any has_card_digits (py.re_find_all card_re text) in
      let card = add_if cards "card" none code in
      let transfer = py.re_search transfer_near_card_re (normalize_text py text) in
      (add_if transfer "card_personal" (some "transfer-to-card phrasing") card).signals
