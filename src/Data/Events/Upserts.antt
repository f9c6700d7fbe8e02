-- ===== src/Data/Events/Upserts.antt =====
-- The upserts of app/data/repo.py as lookups see them.
use avvalo.Prelude.{
  ℕ, String, List, [], ◌∷◌, Option, none, some, ◌==◌, ◌≡◌, refl, arith, eq_iff, nat_eq,
  if◌then◌else◌,
}
use avvalo.Data.Store.{Consent, Feedback, Database}
use avvalo.Data.Events.{
  put_consent, upsert_consent, find_consent, put_feedback, find_feedback, or_old,
}

find_consent-put_consent :
    (row : Consent) (user_key : String) (rows : List Consent)
    → find_consent user_key (put_consent row rows)
      ≡ (if row.user_key == user_key then some row else find_consent user_key rows)
unfolding put_consent find_consent
find_consent-put_consent row user_key [] = refl
find_consent-put_consent row user_key (old ∷ rows) = ground (
  arith,
  find_consent-put_consent row user_key rows,
  eq_iff old.user_key row.user_key,
  eq_iff old.user_key user_key,
  eq_iff row.user_key user_key,
)

-- A consent is what its user is found with from then on, and no other user's consent is changed.
pub get_consent-upsert_consent :
    (row : Consent) (user_key : String) (db : Database)
    → find_consent user_key (upsert_consent row db).consents
      ≡ (if row.user_key == user_key then some row else find_consent user_key db.consents)
unfolding upsert_consent
get_consent-upsert_consent row user_key db = find_consent-put_consent row user_key db.consents

-- The row of a check behind an answer: the new usefulness and time, and the new action, or the old
-- one where none is given.
abbrev pub answered : Feedback → Option Feedback → Feedback
answered row none = row
answered row (some old) = record old {
  usefulness = row.usefulness;
  next_action = or_old row.next_action old.next_action;
  ts = row.ts;
}

-- An answer replaces the usefulness and the time of the earlier answer to the same check, keeps an
-- earlier action where it gives none, and changes the answer to no other check.
find_feedback-put_feedback :
    (row : Feedback) (check_id : ℕ) (rows : List Feedback)
    → find_feedback check_id (put_feedback row rows) ≡ (
        if nat_eq row.check_id check_id
        then some (answered row (find_feedback check_id rows))
        else find_feedback check_id rows)
unfolding put_feedback find_feedback
find_feedback-put_feedback row check_id [] = refl
find_feedback-put_feedback row check_id (old ∷ rows) =
    ground (arith, find_feedback-put_feedback row check_id rows)
