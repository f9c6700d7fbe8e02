-- ===== src/Web/Login/Opened.antt =====
-- What a login and a logout do to the founder's gate.
use Prim.Native.String.{◌++◌}
use avvalo.Prelude.{
  ℕ, ◌+◌, String, true, false, Option, none, some, ltb, ◌&&◌, if◌then◌else◌, ◌==◌, eq_iff, ◌≡◌,
  refl, arith, Bool-cases, ◌⊎◌, inl, inr,
}
use avvalo.Raises.{ok, raised}
use avvalo.Web.Cookie.{is_ascii}
use avvalo.Web.Admin.{
  Settings, admin_session_seconds, access_key_matches, admin_settings_or_404,
  is_admin_authenticated, set_admin_cookie, require_admin,
}
use avvalo.Web.Admin.Admitted.{IsNumeral, is_admin_authenticated-set_admin_cookie}
use avvalo.Web.Origin.{require_same_origin}
use avvalo.Web.Gate.{Libraries, AdminRequest, normalize_language, post_gate}
use avvalo.Web.Login.{Page, page_of, admin_login_submit, admin_logout}

access_key_matches_lem :
    (access_key key : String) (settings : Settings)
    → settings.admin_access_key ≡ some key
    → access_key_matches access_key settings
      ≡ (if is_ascii access_key && is_ascii key then ok (access_key == key) else raised "TypeError")
unfolding access_key_matches
access_key_matches_lem access_key key settings configured = rw configured refl

module _ (lib : Libraries) where
  abbrev login_page : AdminRequest → String
  login_page r = "/admin/login?language=" ++ normalize_language r.language

  -- The browser's next request
  abbrev pub next_request : AdminRequest → Option String → ℕ → AdminRequest
  next_request r cookie later = record r { cookie = cookie; now = later }

  -- The gate opens until twelve hours after the login, and a logout closes it.
  abbrev pub IsOpened : AdminRequest → Option String → ℕ → Type 0
  IsOpened r cookie later =
      let next = next_request r cookie later in
      (post_gate lib next
        ≡ ok (if ltb later (r.now + admin_session_seconds) then none else some (login_page r)))
      × (post_gate lib (next_request r (admin_logout lib next).1 later) ≡ ok (some (login_page r)))

  module _ (r : AdminRequest) (settings : Settings)
      (origin : require_same_origin lib.py lib.urlsplit r.request ≡ ok tt)
      (found : admin_settings_or_404 r.settings ≡ ok settings) where
    set_admin_cookie-IsOpened :
        (later : ℕ)
        → IsNumeral lib.py lib.codes lib.numerals settings.web_session_secret
            (r.now + admin_session_seconds)
        → IsOpened r (some (set_admin_cookie lib.py lib.codes lib.numerals settings r.now)) later
    unfolding post_gate require_admin admin_logout is_admin_authenticated
    set_admin_cookie-IsOpened later n = (
      rw
          (
            origin,
            found,
            is_admin_authenticated-set_admin_cookie lib.py lib.codes lib.numerals settings r.now
                later n,
          )
          refl,
      rw (origin, found) refl,
    )

    -- Where an access key is configured, a login that the origin check passes does one of three things.
    -- With the configured key, in ASCII, it goes to the articles and sets a cookie with which the gate
    -- is open until twelve hours later and closed from then on, and a logout closes it at once. With
    -- another text, where both are ASCII, it answers 401. Where the text or the key is not ASCII, it ends
    -- in a TypeError. In the last two cases the browser's cookie stays.
    pub admin_login_submit_lem :
        (access_key key : String) (later : ℕ)
        → settings.admin_access_key ≡ some key
        → IsNumeral lib.py lib.codes lib.numerals settings.web_session_secret
            (r.now + admin_session_seconds)
        → let answer = admin_login_submit lib r access_key in
          ((is_ascii access_key ≡ true)
            × (access_key ≡ key)
            × (answer.0 ≡ Page.redirect (page_of "/admin/posts" r.language))
            × IsOpened r answer.1 later)
          ⊎ (((is_ascii access_key && is_ascii key) ≡ true)
              × (access_key == key ≡ false)
              × (answer.0 ≡ Page.form 401)
              × (answer.1 ≡ r.cookie))
          ⊎ (((is_ascii access_key && is_ascii key) ≡ false)
              × (answer.0 ≡ Page.failed "TypeError")
              × (answer.1 ≡ r.cookie))
    unfolding admin_login_submit
    admin_login_submit_lem access_key key later configured n =
        let compared = access_key_matches_lem access_key key settings configured in
        elim (Bool-cases (is_ascii access_key && is_ascii key)) [
          | inr beyond ↦ inr (
              inr (
                beyond,
                rw (origin, found, compared, beyond) refl,
                rw (origin, found, compared, beyond) refl,
              ))
          | inl ascii ↦ elim (Bool-cases (access_key == key)) [
            | inl same ↦ inl (
              ground arith,
              ground (arith, same, eq_iff access_key key),
              rw (origin, found, compared, ascii, same) refl,
              rw (origin, found, compared, ascii, same) (set_admin_cookie-IsOpened later n),
            )
            | inr other ↦ inr (
                inl (
                  ascii,
                  other,
                  rw (origin, found, compared, ascii, other) refl,
                  rw (origin, found, compared, ascii, other) refl,
                ))
          ]
        ]
