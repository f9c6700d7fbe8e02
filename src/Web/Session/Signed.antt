-- ===== src/Web/Session/Signed.antt =====
-- Which session cookies are accepted.
use Prim.Native.String.{◌++◌}
use text.Mathlib.TextLemmas.{nil-append, cons-append}
use avvalo.Prelude.{
  ℕ, zero, suc, ◌+◌, ◌%◌, ◌<◌, code, String, true, false, not, ◌&&◌, Option, none, some, nat_eq,
  is_blank, len, eq_iff, if◌then◌else◌, any_char, ◌≡◌, refl, ap, sym, ◌∙◌, arith,
}
use avvalo.Raises.{ok, raises, ◌>>=◌}
use avvalo.Web.Cookie.{rsplit_dot, has_dot, is_ascii}
use avvalo.Web.Cookie.Split.{
  rsplit_dot-append, rsplit_dot_parts, has_dot-none, has_dot-joined, is_ascii-joined,
}
use avvalo.Web.Session.{
  Codes, rstrip_padding, padding, missing, sign, unsign_parts, unsign, get_or_create_web_session,
  session_of, kept_session,
}

-- What is documented of the codes of one id: the code is characters of the alphabet and at most two
-- signs of padding to a multiple of four, in ASCII; it decodes to the id; and a digest is hexadecimal.
pub record Encodes (codes : Codes) (secret session_id : String) : Type 0 where
  pub body : String
  pub count : ℕ
  pub is_code : codes.b64encode session_id ≡ body ++ padding count
  pub no_padding : any_char (λ c. nat_eq (code c) 61) body ≡ false
  pub is_short : count < 3
  pub is_whole : (len body + count) % 4 ≡ 0
  pub ascii : is_ascii body ≡ true
  pub decodes : codes.b64decode (body ++ padding count) ≡ some session_id
  pub digest_ascii : is_ascii (codes.hmac secret body) ≡ true
  pub digest_no_dot : has_dot (codes.hmac secret body) ≡ false

rstrip_padding-padding : (n : ℕ) → rstrip_padding (padding n) ≡ ""
unfolding rstrip_padding padding
rstrip_padding-padding zero = refl
rstrip_padding-padding (suc n) =
    ap (λ rest. if is_blank rest then "" else String.◌∷◌ "=" rest) (rstrip_padding-padding n)

rstrip_padding-append :
    (body : String) (n : ℕ)
    → any_char (λ c. nat_eq (code c) 61) body ≡ false
    → rstrip_padding (body ++ padding n) ≡ body
unfolding rstrip_padding
rstrip_padding-append String.[] n h = simp (nil-append, rstrip_padding-padding n)
rstrip_padding-append (String.◌∷◌ c body) n h =
    simp cons-append (ground (arith, rstrip_padding-append body n))

missing_lem : (n count : ℕ) → count < 3 → (n + count) % 4 ≡ 0 → missing n ≡ count
missing_lem n count h w = omega arith

module _ (codes : Codes) (secret : String) where
  -- A payload with its digest
  accepted :
      (payload : String)
      → is_ascii payload ≡ true
      → is_ascii (codes.hmac secret payload) ≡ true
      → unsign_parts codes secret (some (payload, codes.hmac secret payload))
        ≡ ok (codes.b64decode (payload ++ padding (missing (len payload))))
  accepted payload a d =
      let digest = codes.hmac secret payload in ground (arith, eq_iff digest digest)

  unsign-sign :
      (session_id : String)
      → Encodes codes secret session_id
      → unsign codes secret (sign codes secret session_id) ≡ ok (some session_id)
  unfolding unsign sign
  unsign-sign session_id e =
      ap
        (λ payload.
          unsign_parts codes secret (rsplit_dot (payload ++ ("." ++ codes.hmac secret payload))))
        (ap rstrip_padding e.is_code ∙ rstrip_padding-append e.body e.count e.no_padding)
      ∙ ap (unsign_parts codes secret)
          (rsplit_dot-append e.body (codes.hmac secret e.body) e.digest_no_dot)
      ∙ accepted e.body e.ascii e.digest_ascii
      ∙ ap (λ n. ok (codes.b64decode (e.body ++ padding n)))
          (missing_lem (len e.body) e.count e.is_short e.is_whole)
      ∙ ap ok e.decodes

  -- A browser that returns the cookie of its first visit has the same session, under whatever id would
  -- be new: the same key and the same cookie. The codes satisfy what is documented of them for the id.
  pub get_or_create_web_session_again :
      (first fresh : String)
      → Encodes codes secret first
      → (let session = session_of codes secret first (sign codes secret first) in
          (get_or_create_web_session codes secret none first ≡ ok session)
          × (get_or_create_web_session codes secret (some session.signed_id) fresh ≡ ok session))
  unfolding get_or_create_web_session
  get_or_create_web_session_again first fresh e = (
    refl,
    ap (λ r. r >>= λ id. ok (kept_session codes secret fresh (sign codes secret first) id))
        (unsign-sign first e),
  )

  abbrev Accepts : String → Option (String × String) → Type 0
  Accepts session_id found =
      (payload : String) × (found ≡ some (payload, codes.hmac secret payload))
      × (codes.b64decode (payload ++ padding (missing (len payload))) ≡ some session_id)

  accepts :
      (session_id : String) (found : Option (String × String))
      → unsign_parts codes secret found ≡ ok (some session_id)
      → Accepts session_id found
  accepts session_id none h = ground arith
  accepts session_id (some (payload, signature)) h =
      let digest = codes.hmac secret payload in
      (payload, ground (arith, eq_iff signature digest), ground (arith, eq_iff signature digest))

  -- A session cookie is accepted only where it is a payload with its digest under the secret, and its
  -- id is what the payload decodes to.
  pub unsign_sound :
      (value session_id : String)
      → unsign codes secret value ≡ ok (some session_id)
      → (payload : String) × (value ≡ payload ++ ("." ++ codes.hmac secret payload))
        × (codes.b64decode (payload ++ padding (missing (len payload))) ≡ some session_id)
  unfolding unsign
  unsign_sound value session_id h =
      let a = accepts session_id (rsplit_dot value) h in
      (a.0, rsplit_dot_parts value a.0 (codes.hmac secret a.0) a.1, a.2)

  parts_raise :
      (value : String) (found : Option (String × String))
      → rsplit_dot value ≡ found
      → ((payload : String) → is_ascii (codes.hmac secret payload) ≡ true)
      → raises (unsign_parts codes secret found) ≡ (has_dot value && not (is_ascii value))
  parts_raise value none h d = ground (arith, has_dot-none value)
  parts_raise value (some (payload, signature)) h d =
      ground (arith, d payload, has_dot-joined payload signature, is_ascii-joined payload signature)
      ∙ sym (ap (λ v. has_dot v && not (is_ascii v)) (rsplit_dot_parts value payload signature h))

  -- Reading a session cookie raises an exception exactly where the cookie has a dot and a character
  -- beyond ASCII. Digests are ASCII.
  pub raises-unsign :
      (value : String)
      → ((payload : String) → is_ascii (codes.hmac secret payload) ≡ true)
      → raises (unsign codes secret value) ≡ (has_dot value && not (is_ascii value))
  unfolding unsign
  raises-unsign value d = parts_raise value (rsplit_dot value) refl d
