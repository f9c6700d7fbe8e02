-- ===== src/Web/Origin.antt =====
-- `require_same_origin` of app/web/abuse.py. `urlsplit` of the origin is given, `none` where it or the
-- port of its result raises `ValueError`.
pub mod Same
use avvalo.Prelude.{
  ℕ, Char, code, String, Bool, true, false, not, ◌&&◌, ◌||◌, Option, none, some, ◌==◌, nat_eq,
  if◌then◌else◌, contains, is_blank, strip, List, [], ◌∷◌,
}
use avvalo.Stdlib.{Stdlib}
use avvalo.Raises.{Raises, ok, raised, ◌>>=◌, ◌>>◌, require}

-- The parts of an origin
pub record Origin : Type 0 where
  pub scheme : String
  pub hostname : Option String
  pub port : Option ℕ
  pub username : Option String
  pub password : Option String
  pub path : String
  pub query : String
  pub fragment : String

-- A request: its URL, and the headers `sec-fetch-site`, `origin` and `x-forwarded-proto`, which are
-- empty where they are missing.
pub record Request : Type 0 where
  pub scheme : String
  pub hostname : Option String
  pub port : Option ℕ
  pub fetch_site : String
  pub origin : String
  pub forwarded_proto : String

abbrev or_blank : Option String → String
or_blank none = ""
or_blank (some text) = text

abbrev pub is_absent : Option String → Bool
is_absent none = true
is_absent (some text) = false

-- `port or default`, where the port 0 counts as none
abbrev pub or_port : Option ℕ → Option ℕ → Option ℕ
or_port none other = other
or_port (some port) other = if nat_eq port 0 then other else some port

abbrev pub same_port : Option ℕ → Option ℕ → Bool
same_port none none = true
same_port (some left) (some right) = nat_eq left right
same_port _ _ = false

-- `s.split(",", 1)[0]`
unfoldable pub before_comma : String → String
before_comma String.[] = ""
before_comma (String.◌∷◌ c s) = if nat_eq (code c) 44 then "" else String.◌∷◌ c (before_comma s)

-- `s.rstrip(".")`
unfoldable pub rstrip_dots : String → String
rstrip_dots String.[] = ""
rstrip_dots (String.◌∷◌ c s) =
    let rest = rstrip_dots s in
    if nat_eq (code c) 46 && is_blank rest then "" else String.◌∷◌ c rest

module _ (py : Stdlib) where
  abbrev pub web_schemes : List String
  web_schemes = "http" ∷ "https" ∷ []

  -- `_default_port`
  abbrev pub default_port : String → Option ℕ
  default_port scheme =
      if py.casefold scheme == "http"
      then some 80
      else if py.casefold scheme == "https"
      then some 443
      else none

  -- `_request_scheme`
  abbrev pub request_scheme : Request → String
  request_scheme request =
      let forwarded = py.casefold (strip (before_comma request.forwarded_proto)) in
      if contains forwarded web_schemes then forwarded else py.casefold request.scheme

  abbrev pub host_of : Option String → String
  host_of hostname = py.casefold (rstrip_dots (or_blank hostname))

  -- The last test, the other way round
  abbrev pub is_same : Origin → Request → Bool
  is_same origin request =
      contains (py.casefold origin.scheme) web_schemes
      && (is_absent origin.username
          && (is_absent origin.password
              && (contains origin.path ("" ∷ "/" ∷ [])
                  && (is_blank origin.query
                      && (is_blank origin.fragment
                          && (py.casefold origin.scheme == request_scheme request
                              && (host_of origin.hostname == host_of request.hostname
                                  && same_port (or_port origin.port (default_port origin.scheme)) (
                                      or_port request.port
                                        (default_port (request_scheme request))))))))))

  abbrev pub matches : Option Origin → Request → Raises (Unit {0})
  matches none request = raised "403"
  matches (some origin) request = require (is_same origin request) "403"

  -- `require_same_origin`, with `urlsplit`
  unfoldable pub require_same_origin : (String → Option Origin) → Request → Raises (Unit {0})
  require_same_origin urlsplit request =
      if py.casefold (strip request.fetch_site) == "cross-site"
      then raised "403"
      else if is_blank request.origin
      then ok tt
      else matches (urlsplit request.origin) request
