-- ===== src/Web/Origin/Same.antt =====
-- Which requests pass `require_same_origin`.
use avvalo.Prelude.{
  ℕ, String, Bool, true, false, ◌&&◌, [], ◌∷◌, Option, none, some, ◌==◌, eq_iff, is_blank, contains,
  strip, ◌≡◌, ◌↔◌, ◌⊎◌, inl, inr, refl, ap, ◌∙◌, arith, Bool-cases,
}
use avvalo.Stdlib.{Stdlib}
use avvalo.Raises.{ok, require}
use avvalo.Web.Origin.{
  Origin, Request, is_absent, or_port, same_port, web_schemes, default_port, request_scheme,
  host_of, is_same, matches, require_same_origin,
}

module _ (py : Stdlib) where
  -- The port of an origin and that of the request, where a scheme has its own port
  abbrev pub origin_port : Origin → Option ℕ
  origin_port origin = or_port origin.port (default_port py origin.scheme)

  abbrev pub request_port : Request → Option ℕ
  request_port request = or_port request.port (default_port py (request_scheme py request))

  -- The origin of the request itself: its scheme, host and port, and nothing else.
  pub record IsOwn (origin : Origin) (request : Request) : Type 0 where
    pub web : contains (py.casefold origin.scheme) (web_schemes py) ≡ true
    pub scheme : py.casefold origin.scheme ≡ request_scheme py request
    pub host : host_of py origin.hostname ≡ host_of py request.hostname
    pub port : origin_port origin ≡ request_port request
    pub username : origin.username ≡ none
    pub password : origin.password ≡ none
    pub path : (origin.path ≡ "") ⊎ (origin.path ≡ "/")
    pub query : origin.query ≡ ""
    pub fragment : origin.fragment ≡ ""

absent : (o : Option String) → is_absent o ≡ true → o ≡ none
absent none h = refl
absent (some text) h = ground arith

blank : (s : String) → is_blank s ≡ true → s ≡ ""
blank String.[] h = refl
blank (String.◌∷◌ c s) h = ground arith

same_port-eq : (a b : Option ℕ) → same_port a b ≡ true → a ≡ b
same_port-eq none none h = refl
same_port-eq none (some n) h = ground arith
same_port-eq (some m) none h = ground arith
same_port-eq (some m) (some n) h = ap some (ground arith)

same_port_refl : (a : Option ℕ) → same_port a a ≡ true
same_port_refl none = refl
same_port_refl (some n) = ground arith

both : {a b : Bool} → a ≡ true → b ≡ true → (a && b) ≡ true
both h k = ground (arith, h, k)

equal : (a b : String) → a ≡ b → a == b ≡ true
equal a b h = ground (arith, eq_iff a b)

known_path : (path : String) → (path ≡ "") ⊎ (path ≡ "/") → contains path ("" ∷ "/" ∷ []) ≡ true
known_path path (inl h) = ap (λ p. contains p ("" ∷ "/" ∷ [])) h
known_path path (inr h) = ap (λ p. contains p ("" ∷ "/" ∷ [])) h

passed : (test : Bool) (error : String) → require test error ≡ ok tt → test ≡ true
passed true error h = refl
passed false error h = ground arith

named_origin : (N : Type 0) → (false ≡ true) ⊎ N → N
named_origin N (inl h) = ground arith
named_origin N (inr n) = n

module _ (py : Stdlib) (origin : Origin) (request : Request) where
  is_same-IsOwn : is_same py origin request ≡ true → IsOwn py origin request
  is_same-IsOwn h = record {
    web = ground arith;
    scheme = ground (arith, eq_iff (py.casefold origin.scheme) (request_scheme py request));
    host = ground (arith, eq_iff (host_of py origin.hostname) (host_of py request.hostname));
    port = same_port-eq (origin_port py origin) (request_port py request) (ground arith);
    username = absent origin.username (ground arith);
    password = absent origin.password (ground arith);
    path = ground (arith, eq_iff "" origin.path, eq_iff "/" origin.path);
    query = blank origin.query (ground arith);
    fragment = blank origin.fragment (ground arith);
  }

  IsOwn-is_same : IsOwn py origin request → is_same py origin request ≡ true
  IsOwn-is_same own = both own.web (
      both (ap is_absent own.username) (
        both (ap is_absent own.password) (
          both (known_path origin.path own.path) (
            both (ap is_blank own.query) (
              both (ap is_blank own.fragment) (
                both (equal (py.casefold origin.scheme) (request_scheme py request) own.scheme) (
                  both (equal (host_of py origin.hostname) (host_of py request.hostname) own.host) (
                    ap (λ p. same_port p (request_port py request)) own.port
                    ∙ same_port_refl (request_port py request)))))))))

module _ (py : Stdlib) (request : Request) where
  -- An origin that the parser reads is the request's own.
  abbrev pub Names : Option Origin → Type 0
  Names found = (origin : Origin) × (found ≡ some origin) × IsOwn py origin request

  matches-Names : (found : Option Origin) → (matches py found request ≡ ok tt) ↔ Names found
  matches-Names none = (λ h. ground arith, λ named. ground arith)
  matches-Names (some origin) = (
    λ h. (
      origin,
      refl,
      is_same-IsOwn py origin request (passed (is_same py origin request) "403" h),
    ),
    λ named.
        ap (λ o. matches py o request) named.1
        ∙ ap (λ test. require test "403") (IsOwn-is_same py named.0 request named.2),
  )

  -- A request passes exactly where the browser does not report it as cross-site, and where it either
  -- names no origin or names its own: of a web scheme, with the request's scheme, host and port, and
  -- without a user, a password, a path, a query or a fragment.
  pub require_same_origin_lem :
      (urlsplit : String → Option Origin)
      → (require_same_origin py urlsplit request ≡ ok tt) ↔ (
          (py.casefold (strip request.fetch_site) == "cross-site" ≡ false)
          × ((is_blank request.origin ≡ true) ⊎ Names (urlsplit request.origin)))
  unfolding require_same_origin
  require_same_origin_lem urlsplit =
      let found = urlsplit request.origin in
      let tested = matches-Names found in
      elim (Bool-cases (py.casefold (strip request.fetch_site) == "cross-site")) [
        | inl cross ↦ rw cross (λ h. ground arith, λ h. ground arith)
        | inr near ↦ elim (Bool-cases (is_blank request.origin)) [
          | inl unnamed ↦ rw (near, unnamed) (λ h. (refl, inl refl), λ h. refl)
          | inr named ↦
              rw (near, named)
                (λ h. (refl, inr (tested.0 h)), λ h. tested.1 (named_origin (Names found) h.1))
        ]
      ]
