-- ===== src/Web/Check/Charged.antt =====
-- What a check of the web page charges: the slot of its user and the slot of its address.
use avvalo.Prelude.{
  ℕ, ◌+◌, ◌-◌, String, Bool, true, false, not, ◌&&◌, List, Option, none, some, ltb, leb, len, strip,
  is_blank, is_some, if◌then◌else◌, ◌≡◌, refl, ap, ◌∙◌, arith,
}
use avvalo.Raises.{Raises, ok, raised}
use avvalo.Engine.Types.{CheckResult, max_submitted_text_chars}
use avvalo.Engine.Pipeline.Types.{Services}
use avvalo.Engine.Pipeline.Run.{Session, is_billable, run_check, user_scope}
use avvalo.Engine.Pipeline.Run.Charges.{count_in, run_check_charges}
use avvalo.Data.Store.{Database, UsageKey}
use avvalo.Data.Usage.{
  count_of, same_key, increment, increment_usage, refund, refund_usage, validate_scope,
  count_of-increment, count_of-refund,
}
use avvalo.Data.Events.{upsert_consent}
use avvalo.Web.Check.{
  Visit, Reply, ip_scope, ensure_web_consent, input_of, options_of, refunded, settle, checked,
  counted, behind_guards, guarded, image_of, consented, check,
}

increment_usage-ip_scope :
    (key : String) (day : ℕ) (db : Database)
    → (let rows = increment (ip_scope key day) db.rate_limits in
        increment_usage (ip_scope key day) db
        ≡ ok (count_of (ip_scope key day) rows, record db { rate_limits = rows }))
unfolding increment_usage validate_scope
increment_usage-ip_scope key day db = refl

refund_usage-ip_scope :
    (key : String) (day : ℕ) (db : Database)
    → refund_usage (ip_scope key day) db
      ≡ ok (record db { rate_limits = refund (ip_scope key day) db.rate_limits })
unfolding refund_usage validate_scope
refund_usage-ip_scope key day db = refl

balance :
    (b u i j : Bool) (before now : ℕ)
    → j ≡ i
    → now ≡ (if i then before + 1 else before)
    → (let checked = if b && u then now + 1 else now in
        if b then checked else if j then checked - 1 else checked)
      ≡ before + (if b then (if u then 1 else 0) + (if i then 1 else 0) else 0)
balance b u i j before now same h = ground arith

module _ (services : Services) (visit : Visit) (other : UsageKey) (r : CheckResult) where
  count_in-refunded :
      (key : String) (s : Session)
      → count_in other (refunded services visit key s) ≡ (
          if same_key (ip_scope key visit.ip_refunded_on) other
          then count_in other s - 1
          else count_in other s)
  unfolding refund_usage validate_scope
  count_in-refunded key s =
      count_of-refund (ip_scope key visit.ip_refunded_on) other s.db.rate_limits

  branch :
      (b : Bool) (s t : Session)
      → count_in other (if b then t else s) ≡ (if b then count_in other t else count_in other s)
  branch true s t = refl
  branch false s t = refl

  -- The counter behind the check, where it was `n` when the check was done.
  abbrev left : Option String → ℕ → ℕ
  left none n = n
  left (some key) n =
      if is_billable r.status
      then n
      else if same_key (ip_scope key visit.ip_refunded_on) other
      then n - 1
      else n

  settle_lem :
      (key : Option String) (outcome : Raises CheckResult) (s : Session)
      → (settle services visit key outcome s).0 ≡ Reply.shown r
      → (outcome ≡ ok r)
        × (count_of other (settle services visit key outcome s).1.committed.rate_limits
            ≡ left key (count_in other s))
  settle_lem none (raised error) s h = ground arith
  settle_lem none (ok found) s h = (ground arith, refl)
  settle_lem (some key) (raised error) s h = ground arith
  settle_lem (some key) (ok found) s h = (
    ground arith,
    branch (is_billable found.status) (refunded services visit key s) s
        ∙ ground (arith, count_in-refunded key s),
  )

  -- The slots that are charged
  abbrev ip_charge : Option String → ℕ
  ip_charge none = 0
  ip_charge (some key) = if same_key (ip_scope key visit.ip_reserved_on) other then 1 else 0

  abbrev charge : Option String → ℕ
  charge key =
      if is_billable r.status
      then (if same_key (user_scope visit.user_key visit.reserved_on) other then 1 else 0)
        + ip_charge key
      else 0

  module _ (same_day : visit.refunded_on ≡ visit.reserved_on)
      (same_ip_day : visit.ip_refunded_on ≡ visit.ip_reserved_on) where
    abbrev Charges : ℕ → Option String → Reply × Session → Type 0
    Charges before key result =
        result.0 ≡ Reply.shown r
        → count_of other result.1.committed.rate_limits
          ≡ left key (
              if is_billable r.status
                && same_key (user_scope visit.user_key visit.reserved_on) other
              then before + 1
              else before)

    checked_lem :
        (key : Option String) (image : Option (List ℕ)) (s : Session)
        → Charges (count_in other s) key (checked services visit key image s)
    checked_lem key image s h =
        let ended =
          run_check services (input_of services visit image) (options_of services visit) s in
        let both = settle_lem key ended.outcome ended.session h in
        both.1
        ∙ ap (left key) (
            run_check_charges services (input_of services visit image) (options_of services visit) s
              r other same_day both.0)

    -- What is shown charges the slots
    abbrev IsCharged : Option String → ℕ → Reply × Session → Type 0
    IsCharged key before result =
        result.0 ≡ Reply.shown r
        → count_of other result.1.committed.rate_limits ≡ before + charge key

    either :
        (key : Option String) (n : ℕ) (b : Bool) (x y : Reply × Session)
        → IsCharged key n x
        → IsCharged key n y
        → IsCharged key n (if b then x else y)
    either key n true x y p q = p
    either key n false x y p q = q

    counted_lem :
        (key : String) (image : Option (List ℕ)) (s : Session)
        → IsCharged (some key) (count_in other s) (
            counted services visit key image
              (increment_usage (ip_scope key visit.ip_reserved_on) s.db)
              s)
    unfolding increment_usage validate_scope
    counted_lem key image s =
        let slot = ip_scope key visit.ip_reserved_on in
        let rows = increment slot s.db.rate_limits in
        let opened : Session = record s { db = record s.db { rate_limits = rows } } in
        either (some key) (count_in other s) (leb (count_of slot rows) visit.web_daily_limit) _ _
          (λ h.
            checked_lem (some key) image opened h
            ∙ balance (is_billable r.status)
                (same_key (user_scope visit.user_key visit.reserved_on) other) (same_key slot other)
                (same_key (ip_scope key visit.ip_refunded_on) other) (count_in other s)
                (count_of other rows) (ap (λ day. same_key (ip_scope key day) other) same_ip_day)
                (count_of-increment slot other s.db.rate_limits))
          (λ h. ground arith)

    behind_guards_lem :
        (key : Option String) (image : Option (List ℕ)) (s : Session)
        → IsCharged key (count_in other s) (behind_guards services visit key image s)
    behind_guards_lem none image s h = checked_lem none image s h ∙ ground arith
    behind_guards_lem (some key) image s h = counted_lem key image s h

    guarded_lem :
        (image : Raises (Option (List ℕ))) (s : Session)
        → IsCharged visit.ip_key (count_in other s) (guarded services visit image s)
    guarded_lem (raised error) s = λ h. ground arith
    guarded_lem (ok image) s =
        either visit.ip_key (count_in other s) (is_blank (strip visit.text) && not (is_some image))
          _ _ (λ h. ground arith) (behind_guards_lem visit.ip_key image s)

    consented_lem :
        (given : Bool) (s : Session)
        → IsCharged visit.ip_key (count_in other s) (consented services visit (given, s))
    consented_lem false s = λ h. ground arith
    consented_lem true s =
        either visit.ip_key (count_in other s) (ltb max_submitted_text_chars (len visit.text)) _ _
          (λ h. ground arith) (guarded_lem (image_of services visit) s)

  ensured :
      (s : Session) → (ensure_web_consent services visit s).1.db.rate_limits ≡ s.db.rate_limits
  unfolding ensure_web_consent upsert_consent
  ensured s = ground arith

  -- Where each refund falls on the day of its reservation, a check of the page that shows a result has
  -- committed one more to the counters of its user and of its address, where it has one, if the status
  -- is billable, and to no other counter; otherwise every counter is as it was before the request.
  pub check_charges :
      visit.refunded_on ≡ visit.reserved_on
      → visit.ip_refunded_on ≡ visit.ip_reserved_on
      → (s : Session) → (check services visit s).0 ≡ Reply.shown r
      → count_of other (check services visit s).1.committed.rate_limits
        ≡ count_in other s + charge visit.ip_key
  unfolding check
  check_charges same_day same_ip_day s h =
      let ensured_session = ensure_web_consent services visit s in
      consented_lem same_day same_ip_day ensured_session.0 ensured_session.1 h
      ∙ ap (λ rows. count_of other rows + charge visit.ip_key) (ensured s)
