-- ===== src/Web/Abuse.antt =====
-- The controls of app/web/abuse.py: the cap on bodies, and the peer whose requests are counted. The
-- parser of addresses is given.
pub mod Capped
use avvalo.Prelude.{
  ℕ, ◌+◌, ◌*◌, String, Bool, true, false, not, ◌&&◌, ◌||◌, List, [], ◌∷◌, ◌++◌, Option, none, some,
  ◌==◌, ltb, if◌then◌else◌, contains, is_blank, strip, split_by, char_is, map,
}
use avvalo.Stdlib.{Stdlib}

-- `MAX_REQUEST_BODY_BYTES`
abbrev max_request_body_bytes : ℕ
max_request_body_bytes = 12 * (1024 * 1024)

-- A message of the server: a part of the body, by its number of bytes, or another.
pub data Message : Type 0 where
  part : ℕ → Message
  other : Message

-- What the application does: it waits for a message, also prepared for the exception that the cap
-- raises in its place; it answers; or it lets that exception through.
pub data App : Type 0 where
  receives : (Message → App) → App → App
  answers : String → App
  lets_through : App

-- What becomes of a request: an answer, the response 413, or an application that still waits; and the
-- messages that the application was handed.
pub data Ending : Type 0 where
  answered : String → Ending
  too_large : Ending
  waiting : Ending

abbrev and_then : Message → List Message × Ending → List Message × Ending
and_then message rest = (message ∷ rest.0, rest.1)

-- `self.app(scope, receive, send)`
pub run_app : App → List Message → List Message × Ending
run_app (App.answers text) messages = ([], Ending.answered text)
run_app App.lets_through messages = ([], Ending.too_large)
run_app (App.receives go caught) [] = ([], Ending.waiting)
run_app (App.receives go caught) (message ∷ messages) =
    and_then message (run_app (go message) messages)

module _ (max_body_bytes : ℕ) where
  -- `self.app(scope, limited_receive, send)`, with the bytes that were received, and the `except`.
  pub run_limited : App → List Message → ℕ → List Message × Ending
  run_limited (App.answers text) messages received = ([], Ending.answered text)
  run_limited App.lets_through messages received = ([], Ending.too_large)
  run_limited (App.receives go caught) [] received = ([], Ending.waiting)
  run_limited (App.receives go caught) (Message.other ∷ messages) received =
      and_then Message.other (run_limited (go Message.other) messages received)
  run_limited (App.receives go caught) (Message.part bytes ∷ messages) received =
      let refused = run_limited caught messages (received + bytes) in
      let rest = run_limited (go (Message.part bytes)) messages (received + bytes) in
      if ltb max_body_bytes (received + bytes) then refused else and_then (Message.part bytes) rest

  abbrev pub is_capped : String → String → Bool
  is_capped kind method = kind == "http" && contains method ("POST" ∷ "PUT" ∷ "PATCH" ∷ [])

  abbrev pub is_over : Option ℕ → Bool
  is_over none = false
  is_over (some length) = ltb max_body_bytes length

  -- `__call__`: the type of the scope, its method and its declared length, `none` where no header gives
  -- a number or the number is negative.
  pub call : String → String → Option ℕ → App → List Message → List Message × Ending
  unfolding run_app run_limited
  call kind method content_length app messages =
      let unlimited = run_app app messages in
      let limited = run_limited app messages 0 in
      if not (is_capped kind method)
      then unlimited
      else if is_over content_length
      then ([], Ending.too_large)
      else limited

-- What `ip_address` tells of a peer: `none` where it raises `ValueError`.
record Address : Type 0 where
  pub text : String
  pub is_loopback : Bool
  pub is_private : Bool
  pub is_link_local : Bool

module _ (py : Stdlib) (ip_address : String → Option Address) where
  abbrev is_internal : Option Address → Bool
  is_internal none = false
  is_internal (some a) = a.is_loopback || (a.is_private || a.is_link_local)

  -- `_is_trusted_proxy_peer`
  abbrev is_trusted_proxy_peer : Option String → Bool
  is_trusted_proxy_peer none = false
  is_trusted_proxy_peer (some peer) = is_internal (ip_address peer)

  abbrev text_of : Option Address → Option String
  text_of none = none
  text_of (some a) = some a.text

  -- `_normalized_ip`
  normalized_ip : Option String → Option String
  normalized_ip none = none
  normalized_ip (some value) = if is_blank value then none else text_of (ip_address (strip value))

  abbrev or_next : Option String → Option String → Option String
  or_next none next = next
  or_next (some ip) next = some ip

  -- The last candidate that is an address, of a list whose last is wanted first.
  last_address : List String → Option String
  last_address [] = none
  last_address (candidate ∷ rest) =
      or_next (last_address rest) (normalized_ip (some (strip candidate)))

  abbrev forwarded : Option String → Option String
  forwarded none = none
  forwarded (some header) = last_address (split_by (char_is 44) header)

  abbrev own : Option String → Option String
  own none = none
  own (some peer) = or_next (normalized_ip (some peer)) (some (py.casefold peer))

  -- `client_ip_from_request`: the peer of the socket, and the headers `x-real-ip` and `x-forwarded-for`
  client_ip_from_request : Option String → Option String → Option String → Option String
  client_ip_from_request peer real_ip forwarded_for =
      let named = or_next (normalized_ip real_ip) (forwarded forwarded_for) in
      if is_trusted_proxy_peer peer then or_next named (own peer) else own peer
