-- ===== src/Web/Session.antt =====
-- app/web/session.py, and `derive_user_key` of app/privacy/user_key.py. HMAC and base64 are given.
pub mod Signed
use Prim.Native.String.{◌++◌}
use avvalo.Prelude.{
  ℕ, zero, suc, ◌-◌, ◌%◌, Char, code, String, Bool, ◌&&◌, Option, none, some, nat_eq, is_blank, len,
  if◌then◌else◌,
}
use avvalo.Raises.{Raises, ok, raised, ◌>>=◌, ◌>>◌, require}
use avvalo.Web.Cookie.{rsplit_dot, is_ascii, compare_digest}

-- What the source takes from `hmac`, `hashlib` and `base64`: the SHA-256 digest in hexadecimal of a
-- text under a secret, and the URL-safe code of a text with its padding. A text that does not decode
-- gives `none`.
pub record Codes : Type 0 where
  pub hmac : String → String → String
  pub b64encode : String → String
  pub b64decode : String → Option String

-- `s.rstrip("=")`
pub rstrip_padding : String → String
rstrip_padding String.[] = ""
rstrip_padding (String.◌∷◌ c s) =
    let rest = rstrip_padding s in
    if nat_eq (code c) 61 && is_blank rest then "" else String.◌∷◌ c rest

-- `"=" * n`
unfoldable pub padding : ℕ → String
padding zero = ""
padding (suc n) = String.◌∷◌ "=" (padding n)

-- `-n % 4`
abbrev pub missing : ℕ → ℕ
missing n = (4 - n % 4) % 4

-- `s[:n]`
abbrev prefix : ℕ → String → String
prefix zero s = ""
prefix (suc n) String.[] = ""
prefix (suc n) (String.◌∷◌ c s) = String.◌∷◌ c (prefix n s)

pub record WebSession : Type 0 where
  pub user_key : String
  pub signed_id : String

module _ (codes : Codes) (secret : String) where
  -- `derive_user_key`
  abbrev derive_user_key : String → String
  derive_user_key id = prefix 32 (codes.hmac secret id)

  -- `_sign`
  pub sign : String → String
  unfolding rstrip_padding
  sign session_id =
      let payload = rstrip_padding (codes.b64encode session_id) in
      payload ++ ("." ++ codes.hmac secret payload)

  abbrev pub unsign_parts : Option (String × String) → Raises (Option String)
  unsign_parts none = ok none
  unsign_parts (some (payload, signature)) = do
    require (is_ascii payload) "UnicodeEncodeError"
    same ← compare_digest signature (codes.hmac secret payload)
    ok (if same then codes.b64decode (payload ++ padding (missing (len payload))) else none)

  -- `_unsign` of a text; one that is empty has no dot.
  unfoldable pub unsign : String → Raises (Option String)
  unfolding rsplit_dot
  unsign value = unsign_parts (rsplit_dot value)

  abbrev pub session_of : String → String → WebSession
  session_of session_id signed_id = record {
    user_key = derive_user_key ("web:" ++ session_id);
    signed_id = signed_id;
  }

  abbrev pub kept_session : String → String → Option String → WebSession
  kept_session fresh signed_id none = session_of fresh (sign fresh)
  kept_session fresh signed_id (some session_id) = session_of session_id signed_id

  -- `get_or_create_web_session`, with the cookie and the new random id
  pub get_or_create_web_session : Option String → String → Raises WebSession
  unfolding unsign sign
  get_or_create_web_session none fresh = ok (session_of fresh (sign fresh))
  get_or_create_web_session (some signed_id) fresh = do
    session_id ← unsign signed_id
    ok (kept_session fresh signed_id session_id)
