-- ===== src/Web/Gate/Guarded.antt =====
-- Who passes the guards.
use avvalo.Prelude.{
  String, true, false, ◌==◌, is_blank, strip, Option, none, some, ◌≡◌, refl, arith, ◌⊎◌, inl, inr,
}
use avvalo.Raises.{Raises, ok, raised, ◌>>=◌, ◌>>◌}
use avvalo.Web.Admin.{Settings, admin_settings_or_404, enabled_key}
use avvalo.Web.Admin.Admitted.{Admits, require_admin-Admits}
use avvalo.Web.Origin.{require_same_origin}
use avvalo.Web.Origin.Same.{Names, require_same_origin_lem}
use avvalo.Web.Gate.{Libraries, AdminRequest, normalize_language, Reply, post_gate, passed}

module _ (lib : Libraries) where
  -- The browser does not report the request as cross-site, and an origin that it names is the site's
  -- own; an access key is configured, and the cookie is a time that is still ahead with the digest of
  -- that time.
  abbrev pub IsAdmitted : AdminRequest → Type 0
  IsAdmitted r =
      (lib.py.casefold (strip r.request.fetch_site) == "cross-site" ≡ false)
      × ((is_blank r.request.origin ≡ true)
          ⊎ Names lib.py r.request (lib.urlsplit r.request.origin))
      × (settings : Settings) × (admin_settings_or_404 r.settings ≡ ok settings)
      × (enabled_key settings.admin_access_key ≡ true)
      × (value : String) × (r.cookie ≡ some value)
      × Admits lib.py lib.codes lib.numerals value settings.web_session_secret r.now

  same_origin :
      (answer : Raises (Unit {0})) (rest : Raises (Option String))
      → answer >> rest ≡ ok none
      → (answer ≡ ok tt) × (rest ≡ ok none)
  same_origin (ok tt) rest h = (refl, h)
  same_origin (raised error) rest h = ground arith

  found_settings :
      (found : Raises Settings) (next : Settings → Raises (Option String))
      → found >>= next ≡ ok none
      → (settings : Settings) × (found ≡ ok settings) × (next settings ≡ ok none)
  found_settings (ok settings) next h = (settings, refl, h)
  found_settings (raised error) next h = ground arith

  post_gate-IsAdmitted : (r : AdminRequest) → post_gate lib r ≡ ok none → IsAdmitted r
  unfolding post_gate
  post_gate-IsAdmitted r h =
      let both = same_origin (require_same_origin lib.py lib.urlsplit r.request) _ h in
      let f = found_settings (admin_settings_or_404 r.settings) _ both.1 in
      let admits =
        require_admin-Admits lib.py lib.codes lib.numerals r.settings f.0 r.cookie
          (normalize_language r.language) r.now f.1 f.2 in
      let near = (require_same_origin_lem lib.py r.request lib.urlsplit).0 both.0 in
      (near.0, near.1, f.0, f.1, admits.0, admits.1, admits.2, admits.3)

  opened :
      {S : Type 0} (r : AdminRequest) (answer : Raises (Option String)) (run : Reply × S)
      (state : S)
      → post_gate lib r ≡ answer
      → IsAdmitted r ⊎ ((passed answer r.storage run state).1 ≡ state)
  opened r (raised error) run state h = inr refl
  opened r (ok (some page)) run state h = inr refl
  opened r (ok none) run state h = inl (post_gate-IsAdmitted r h)

  -- A handler behind the guards leaves the state as it is, or its request is the admin's.
  pub passed-IsAdmitted :
      {S : Type 0} (r : AdminRequest) (run : Reply × S) (state : S)
      → IsAdmitted r ⊎ ((passed (post_gate lib r) r.storage run state).1 ≡ state)
  passed-IsAdmitted r run state = opened r (post_gate lib r) run state refl

pub both_or : {A B C : Type 0} → A ⊎ B → A ⊎ C → A ⊎ (B × C)
both_or (inl a) other = inl a
both_or (inr b) (inl a) = inl a
both_or (inr b) (inr c) = inr (b, c)
