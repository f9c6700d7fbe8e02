-- ===== src/Web/Admin/Admitted.antt =====
-- Who the admin's gate lets in.
use Prim.Native.String.{◌++◌}
use avvalo.Prelude.{
  ℕ, ◌+◌, ◌<◌, String, Bool, true, false, Option, none, some, ltb, if◌then◌else◌, eq_iff, ◌≡◌, refl,
  ap, ◌∙◌, arith, Option-cases, inl, inr,
}
use avvalo.Stdlib.{Stdlib}
use avvalo.Raises.{Raises, ok, raised, ◌>>=◌}
use avvalo.Web.Cookie.{rsplit_dot, has_dot, is_ascii}
use avvalo.Web.Cookie.Split.{rsplit_dot-append, rsplit_dot_parts}
use avvalo.Web.Session.{Codes}
use avvalo.Web.Admin.{
  Settings, Numerals, admin_session_seconds, signature_of, is_digits, check_parts,
  is_admin_authenticated, set_admin_cookie, enabled_key, admin_settings_or_404, require_admin,
}

module _ (py : Stdlib) (codes : Codes) (numerals : Numerals) where
  -- What is documented of the decimal text of a number, and of its digest.
  pub record IsNumeral (secret : String) (n : ℕ) : Type 0 where
    pub digits : is_digits py codes numerals (numerals.str n) ≡ true
    pub read : numerals.int (numerals.str n) ≡ some n
    pub ascii : is_ascii (signature_of py codes numerals (numerals.str n) secret) ≡ true
    pub no_dot : has_dot (signature_of py codes numerals (numerals.str n) secret) ≡ false

  -- The cookie of a login opens the founder's pages until twelve hours later, and not from then on.
  pub is_admin_authenticated-set_admin_cookie :
      (settings : Settings) (now later : ℕ)
      → IsNumeral settings.web_session_secret (now + admin_session_seconds)
      → is_admin_authenticated py codes numerals
          (some (set_admin_cookie py codes numerals settings now))
          settings
          later
        ≡ ok (ltb later (now + admin_session_seconds))
  unfolding is_admin_authenticated set_admin_cookie
  is_admin_authenticated-set_admin_cookie settings now later n =
      let text = numerals.str (now + admin_session_seconds) in
      let digest = signature_of py codes numerals text settings.web_session_secret in
      ap (λ parts. check_parts py codes numerals parts settings.web_session_secret later)
        (rsplit_dot-append text digest n.no_dot)
      ∙ ground (arith, n.digits, n.read, n.ascii, eq_iff digest digest)

  -- A cookie that the gate accepts
  abbrev pub Admits : String → String → ℕ → Type 0
  Admits value secret now =
      (expires_text : String) × (expires : ℕ) × (value
        ≡ expires_text ++ ("." ++ signature_of py codes numerals expires_text secret))
      × (numerals.int expires_text ≡ some expires)
      × now < expires

  admits :
      (value secret : String) (now : ℕ) (found : Option (String × String))
      → rsplit_dot value ≡ found
      → check_parts py codes numerals found secret now ≡ ok true
      → Admits value secret now
  admits value secret now none h e = ground arith
  admits value secret now (some (text, signature)) h e =
      let digest = signature_of py codes numerals text secret in
      elim (Option-cases (numerals.int text)) [
        | inl absent ↦ ground arith
        | inr (expires, read) ↦ (
          text,
          expires,
          rsplit_dot_parts value text signature h
              ∙ ap (λ s. text ++ ("." ++ s)) (ground (arith, eq_iff signature digest)),
          read,
          ground arith,
        )
      ]

  authenticated-Admits :
      (value : String) (settings : Settings) (now : ℕ)
      → is_admin_authenticated py codes numerals (some value) settings now ≡ ok true
      → Admits value settings.web_session_secret now
  unfolding is_admin_authenticated
  authenticated-Admits value settings now h =
      admits value settings.web_session_secret now (rsplit_dot value) refl h

  opened :
      (language : String) (answer : Raises Bool)
      → answer >>= (λ authenticated.
        ok (if authenticated then none else some ("/admin/login?language=" ++ language)))
        ≡ ok none
      → answer ≡ ok true
  opened language (ok true) h = refl
  opened language (ok false) h = ground arith
  opened language (raised error) h = ground arith

  -- A request passes the gate only where a key that is not blank is configured, and its cookie is a
  -- time that is still ahead with the digest of that time under the secret.
  pub require_admin-Admits :
      (configured : Option Settings) (settings : Settings) (cookie : Option String)
      (language : String) (now : ℕ)
      → admin_settings_or_404 configured ≡ ok settings
      → require_admin py codes numerals cookie settings language now ≡ ok none
      → (enabled_key settings.admin_access_key ≡ true)
        × (value : String) × (cookie ≡ some value)
        × Admits value settings.web_session_secret now
  unfolding admin_settings_or_404 require_admin
  require_admin-Admits configured settings none language now h r = ground arith
  require_admin-Admits none settings (some value) language now h r = ground arith
  require_admin-Admits (some found) settings (some value) language now h r = (
    ground arith,
    value,
    refl,
    authenticated-Admits value settings now (
        let answer = is_admin_authenticated py codes numerals (some value) settings now in
        opened language answer r),
  )
