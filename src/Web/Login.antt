-- ===== src/Web/Login.antt =====
-- The founder's login of app/web/editorial.py: `admin_root`, `admin_login`, `admin_login_submit` and
-- `admin_logout`. A handler answers with a page, and with the admin's cookie that the browser holds
-- afterwards.
pub mod Opened
use Prim.Native.String.{◌++◌}
use avvalo.Prelude.{ℕ, String, Bool, Option, none, some, if◌then◌else◌}
use avvalo.Raises.{Raises, ok, raised, ◌>>=◌, ◌>>◌}
use avvalo.Web.Admin.{
  Settings, access_key_matches, admin_settings_or_404, is_admin_authenticated, set_admin_cookie,
}
use avvalo.Web.Origin.{require_same_origin}
use avvalo.Web.Gate.{Libraries, AdminRequest, normalize_language}

-- The login form with its status, a redirect, or the error of the guards.
pub data Page : Type 0 where
  form : ℕ → Page
  redirect : String → Page
  failed : String → Page

-- A page under its path with the language of the reply
abbrev pub page_of : String → String → String
page_of path language = path ++ ("?language=" ++ normalize_language language)

abbrev pub or_failed : Option String → Raises (Page × Option String) → Page × Option String
or_failed cookie (ok answer) = answer
or_failed cookie (raised error) = (Page.failed error, cookie)

module _ (lib : Libraries) where
  abbrev authenticated : AdminRequest → Settings → Raises Bool
  authenticated r settings =
      is_admin_authenticated lib.py lib.codes lib.numerals r.cookie settings r.now

  abbrev shown_root : AdminRequest → Raises (Page × Option String)
  shown_root r = do
    settings ← admin_settings_or_404 r.settings
    inside ← authenticated r settings
    let target : String = if inside then "/admin/posts" else "/admin/login"
    ok (Page.redirect (page_of target r.language), r.cookie)

  -- `admin_root`
  unfoldable pub admin_root : AdminRequest → Page × Option String
  admin_root r = or_failed r.cookie (shown_root r)

  abbrev shown_login : AdminRequest → Raises (Page × Option String)
  shown_login r = do
    settings ← admin_settings_or_404 r.settings
    inside ← authenticated r settings
    ok (
      (if inside then Page.redirect (page_of "/admin/posts" r.language) else Page.form 200),
      r.cookie,
    )

  -- `admin_login`
  unfoldable pub admin_login : AdminRequest → Page × Option String
  admin_login r = or_failed r.cookie (shown_login r)

  -- Behind the comparison of the keys
  abbrev pub entered : AdminRequest → Settings → Bool → Page × Option String
  entered r settings matches =
      if matches
      then (
        Page.redirect (page_of "/admin/posts" r.language),
        some (set_admin_cookie lib.py lib.codes lib.numerals settings r.now),
      )
      else (Page.form 401, r.cookie)

  abbrev pub submitted : AdminRequest → String → Raises (Page × Option String)
  submitted r access_key = do
    require_same_origin lib.py lib.urlsplit r.request
    settings ← admin_settings_or_404 r.settings
    matches ← access_key_matches access_key settings
    ok (entered r settings matches)

  -- `admin_login_submit`
  unfoldable pub admin_login_submit : AdminRequest → String → Page × Option String
  admin_login_submit r access_key = or_failed r.cookie (submitted r access_key)

  abbrev logged_out : AdminRequest → Raises (Page × Option String)
  logged_out r = do
    require_same_origin lib.py lib.urlsplit r.request
    settings ← admin_settings_or_404 r.settings
    ok (Page.redirect (page_of "/admin/login" r.language), none)

  -- `admin_logout`
  unfoldable pub admin_logout : AdminRequest → Page × Option String
  admin_logout r = or_failed r.cookie (logged_out r)
