-- ===== src/Web/Check/Consented.antt =====
-- Consent in front of a check of the web page.
use avvalo.Prelude.{true, eq_iff, ◌≡◌, ◌≢◌, Bool-cases, inl, inr, ap, ◌∙◌, arith}
use avvalo.Engine.Types.{language_value}
use avvalo.Engine.Pipeline.Types.{Services}
use avvalo.Engine.Pipeline.Run.{Session}
use avvalo.Data.Store.{Consent, Database}
use avvalo.Data.Events.{find_consent, get_consent, upsert_consent}
use avvalo.Data.Events.Upserts.{get_consent-upsert_consent}
use avvalo.Web.Check.{Visit, Reply, is_consent_current, ensure_web_consent, consented, check}

module _ (services : Services) (visit : Visit) where
  -- A granted consent is current.
  granted :
      (db : Database)
      → (let row : Consent = record {
        user_key = visit.user_key;
        notice_version = visit.notice_version;
        language = language_value visit.language;
        ts = visit.now;
      } in
          is_consent_current
            (find_consent visit.user_key (upsert_consent row db).consents)
            visit.notice_version)
        ≡ true
  granted db =
      ap (λ found. is_consent_current found visit.notice_version)
        (get_consent-upsert_consent _ visit.user_key db)
      ∙ ground (
        arith,
        eq_iff visit.user_key visit.user_key,
        eq_iff visit.notice_version visit.notice_version,
      )

  ensured-current :
      (s : Session)
      → (ensure_web_consent services visit s).0 ≡ true
      → is_consent_current
          (get_consent visit.user_key (ensure_web_consent services visit s).1.db)
          visit.notice_version
        ≡ true
  unfolding ensure_web_consent
  ensured-current s h = ground (arith, granted s.db)

  -- Every answer but the request for consent stands on a consent to the current notice: the user's
  -- stored consent, as the handler goes on with it, names the version in force.
  pub check_consented :
      (s : Session)
      → (check services visit s).0 ≢ Reply.refused 400 "consent_error"
      → is_consent_current
          (get_consent visit.user_key (ensure_web_consent services visit s).1.db)
          visit.notice_version
        ≡ true
  unfolding check
  check_consented s h =
      let entered = ensure_web_consent services visit s in
      elim (Bool-cases entered.0) [
        | inl given ↦ ensured-current s given
        | inr absent ↦ elim (h (ap (λ b. (consented services visit (b, entered.1)).0) absent)) [ ]
      ]
