-- ===== src/Web/Admin.antt =====
-- app/web/admin_auth.py: the gate of the founder's pages.
pub mod Admitted
use Prim.Native.String.{◌++◌}
use avvalo.Prelude.{
  ℕ, ◌+◌, String, Bool, true, false, not, ◌&&◌, Char, Option, none, some, leb, is_blank, any_char,
  if◌then◌else◌,
}
use avvalo.Stdlib.{Stdlib}
use avvalo.Raises.{Raises, ok, raised, ◌>>=◌, ◌>>◌, require}
use avvalo.Web.Cookie.{rsplit_dot, compare_digest}
use avvalo.Web.Session.{Codes}

-- The settings that the gate reads
pub record Settings : Type 0 where
  pub admin_access_key : Option String
  pub web_session_secret : String

-- `str(n)`, and `int(s)`, which is `none` where it raises `ValueError`.
pub record Numerals : Type 0 where
  pub str : ℕ → String
  pub int : String → Option ℕ

-- `ADMIN_SESSION_SECONDS`
abbrev pub admin_session_seconds : ℕ
admin_session_seconds = 43200

-- `access_key_matches`
abbrev pub key_matches : String → Option String → Raises Bool
key_matches candidate none = ok false
key_matches candidate (some configured) = compare_digest candidate configured

unfoldable pub access_key_matches : String → Settings → Raises Bool
access_key_matches candidate settings = key_matches candidate settings.admin_access_key

abbrev pub enabled_key : Option String → Bool
enabled_key none = false
enabled_key (some key) = not (is_blank key)

-- `admin_settings_or_404`
unfoldable pub admin_settings_or_404 : Option Settings → Raises Settings
admin_settings_or_404 none = raised "404"
admin_settings_or_404 (some settings) = do
  require (enabled_key settings.admin_access_key) "404"
  ok settings

module _ (py : Stdlib) (codes : Codes) (numerals : Numerals) where
  -- `_signature`
  abbrev pub signature_of : String → String → String
  signature_of expires_text secret = codes.hmac secret ("admin:" ++ expires_text)

  -- `s.isdigit()`
  abbrev pub is_digits : String → Bool
  is_digits s = not (is_blank s) && not (any_char (λ c. not (py.is_digit c)) s)

  -- The signature of a cookie that is not yet expired
  abbrev check_expiry : Option ℕ → ℕ → String → String → Raises Bool
  check_expiry none now signature expected = raised "ValueError"
  check_expiry (some expires) now signature expected =
      if leb expires now then ok false else compare_digest signature expected

  abbrev pub check_parts : Option (String × String) → String → ℕ → Raises Bool
  check_parts none secret now = ok false
  check_parts (some (expires_text, signature)) secret now =
      if is_digits expires_text
      then check_expiry (numerals.int expires_text) now signature (signature_of expires_text secret)
      else ok false

  -- `is_admin_authenticated`, with the admin's cookie and the time in seconds
  unfoldable pub is_admin_authenticated : Option String → Settings → ℕ → Raises Bool
  unfolding rsplit_dot
  is_admin_authenticated none settings now = ok false
  is_admin_authenticated (some value) settings now =
      check_parts (rsplit_dot value) settings.web_session_secret now

  -- `set_admin_cookie`: the value of the cookie
  pub set_admin_cookie : Settings → ℕ → String
  set_admin_cookie settings now =
      let expires_text = numerals.str (now + admin_session_seconds) in
      expires_text ++ ("." ++ signature_of expires_text settings.web_session_secret)

  -- `require_admin`: `none`, or the page to go to
  unfoldable pub require_admin : Option String → Settings → String → ℕ → Raises (Option String)
  unfolding is_admin_authenticated
  require_admin cookie settings language now = do
    authenticated ← is_admin_authenticated cookie settings now
    ok (if authenticated then none else some ("/admin/login?language=" ++ language))
