-- ===== src/Web/Gate.antt =====
-- The guards in front of the editors' handlers in app/web: `require_same_origin`,
-- `admin_settings_or_404`, `require_admin` and `admin_session_factory`, in the order of the handlers.
pub mod Guarded
use avvalo.Prelude.{ℕ, String, Bool, List, [], ◌∷◌, Option, none, some, if◌then◌else◌, contains}
use avvalo.Stdlib.{Stdlib}
use avvalo.Raises.{Raises, ok, raised, ◌>>=◌, ◌>>◌}
use avvalo.Web.Session.{Codes}
use avvalo.Web.Admin.{Settings, Numerals, admin_settings_or_404, require_admin}
use avvalo.Web.Origin.{Origin, Request, require_same_origin}

-- What the guards take from Python's library
pub record Libraries : Type 0 where
  pub py : Stdlib
  pub codes : Codes
  pub numerals : Numerals
  pub urlsplit : String → Option Origin

-- A request of an editor: its headers, the admin's cookie, the settings of the application, the
-- language of the form, the time in seconds, and whether a session factory is configured.
pub record AdminRequest : Type 0 where
  pub request : Request
  pub cookie : Option String
  pub settings : Option Settings
  pub language : String
  pub now : ℕ
  pub storage : Bool

abbrev default_language : String
default_language = "uz_latn"

abbrev reply_languages : List String
reply_languages = "uz_latn" ∷ "ru" ∷ []

-- `normalize_language` of app/bot/texts.py
abbrev pub normalize_language : String → String
normalize_language language =
    if contains language reply_languages then language else default_language

-- A redirect, or the error that the form or the status tells.
pub data Reply : Type 0 where
  sent : String → Reply
  failed : String → Reply

module _ (lib : Libraries) where
  -- `none`, or the page to go to
  unfoldable pub post_gate : AdminRequest → Raises (Option String)
  post_gate r = do
    require_same_origin lib.py lib.urlsplit r.request
    settings ← admin_settings_or_404 r.settings
    require_admin lib.py lib.codes lib.numerals r.cookie settings (normalize_language r.language)
        r.now

-- Where the gate is open and there is a storage, the handler goes on.
abbrev pub passed : {S : Type 0} → Raises (Option String) → Bool → Reply × S → S → Reply × S
passed (raised error) storage run state = (Reply.failed error, state)
passed (ok (some page)) storage run state = (Reply.sent page, state)
passed (ok none) storage run state = if storage then run else (Reply.failed "503", state)
