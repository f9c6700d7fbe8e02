-- ===== src/Engine/Pipeline/Run/Charges.antt =====
-- What a check costs its user.
use avvalo.Prelude.{
  ℕ, ◌+◌, ◌-◌, String, Bool, true, false, Option, none, some, ◌≡◌, refl, ap, sym, inl, inr, ◌∙◌,
  arith, if◌then◌else◌, ◌&&◌,
}
use avvalo.Raises.{Raises, ok, raised}
use avvalo.Engine.Types.{CheckInput, CheckStatus, CheckResult, Language}
use avvalo.Engine.Pipeline.Types.{Services}
use avvalo.Engine.Pipeline.Stages.{run_stages}
use avvalo.Engine.Pipeline.Run.{
  Options, Session, Ended, is_billable, user_scope, refunded, with_event, finish, behind_stages,
  behind_limit, reserved, run_check, commit_if, event_of,
}
use avvalo.Data.Store.{Database, UsageKey}
use avvalo.Data.Usage.{
  count_of, increment, same_key, same_key_refl, same_key-eq, count_of-increment, count_of-refund,
  refund_usage-user, increment_usage-user,
}
use avvalo.Data.Events.{record_check_event-cases}

-- A counter in what the session has written.
abbrev pub count_in : UsageKey → Session → ℕ
count_in key s = count_of key s.db.rate_limits

-- What a result shows and is charged by.
pub record Shown : Type 0 where
  pub status : CheckStatus
  pub text : Option String
  pub language : Language
  pub no_signal : Bool

abbrev pub shown : CheckResult → Shown
shown r = record {
  status = r.status;
  text = r.text;
  language = r.language;
  no_signal = r.no_signal;
}

abbrev kept_of : Raises CheckResult → Shown
kept_of (ok r) = shown r
kept_of (raised error) = record {
  status = CheckStatus.ok;
  text = none;
  language = Language.ru;
  no_signal = false;
}

-- The count behind a settlement: the reservation, and the refund where nothing is charged.
abbrev settled : Bool → Bool → Bool → ℕ → ℕ
settled billable reserved refunded before =
    let n = if reserved then before + 1 else before in
    if billable then n else if refunded then n - 1 else n

settle :
    (b b' c c' : Bool) (n before after : ℕ)
    → b' ≡ b
    → n ≡ (if c then before + 1 else before)
    → after ≡ (if b then n else if c' then n - 1 else n)
    → after ≡ settled b' c c' before
settle b b' c c' n before after hb hn ha = ground arith

on_time :
    (b c c' : Bool) (before after : ℕ)
    → c' ≡ c
    → after ≡ settled b c c' before
    → after ≡ (if b && c then before + 1 else before)
on_time b c c' before after h e = ground arith

module _ (services : Services) (input : CheckInput) (options : Options) where
  abbrev pub key : UsageKey
  key = user_scope input.user_key options.reserved_on

  abbrev pub late : UsageKey
  late = user_scope input.user_key options.refunded_on

  pub count_in-refunded :
      (other : UsageKey) (s : Session)
      → count_in other (refunded services input options s)
        ≡ (if same_key late other then count_in other s - 1 else count_in other s)
  count_in-refunded other s =
      rw (refund_usage-user input.user_key options.refunded_on s.db)
        (count_of-refund late other s.db.rate_limits)

  settled-count :
      (billable : Bool) (other : UsageKey) (s : Session)
      → count_in other (if billable then s else refunded services input options s) ≡ (
          if billable
          then count_in other s
          else if same_key late other
          then count_in other s - 1
          else count_in other s)
  settled-count true other s = refl
  settled-count false other s = count_in-refunded other s

  -- The row of the check changes no counter.
  count_in-finish :
      (other : UsageKey) (r : CheckResult) (s : Session)
      → count_in other (finish services input options r s).session ≡ (
          if is_billable r.status
          then count_in other s
          else if same_key late other
          then count_in other s - 1
          else count_in other s)
  unfolding finish
  count_in-finish other r s =
      let timed : CheckResult = record r { latency_ms = services.latency_ms } in
      let settled : Session =
        if is_billable r.status then s else refunded services input options s in
      elim (record_check_event-cases services.py (event_of input options timed) settled.db) [
        | inl e ↦ rw e (settled-count (is_billable r.status) other s)
        | inr (error, e) ↦ rw e (settled-count (is_billable r.status) other s)
      ]

  -- Nothing behind the stages changes the status or the text.
  with_event-keeps :
      (written : Raises (ℕ × Database)) (r found : CheckResult) (s : Session)
      → (with_event services input options written r s).outcome ≡ ok found
      → shown found ≡ shown r
  with_event-keeps (ok (id, db)) r found s h = sym (ap kept_of h)
  with_event-keeps (raised error) r found s h = ground arith

  pub finish-keeps :
      (r found : CheckResult) (s : Session)
      → (finish services input options r s).outcome ≡ ok found
      → shown found ≡ shown r
  unfolding finish
  finish-keeps r found s h = with_event-keeps _ _ found _ h

  pub commit_if-rows :
      (commit : Bool) (t : Session)
      → (commit_if services input options commit t).db.rate_limits ≡ t.db.rate_limits
  unfolding commit_if
  commit_if-rows true t = refl
  commit_if-rows false t = refl

  module _ (s : Session) (found : CheckResult) (other : UsageKey) where
    abbrev before : ℕ
    before = count_of other s.db.rate_limits

    abbrev Charged : Ended → Type 0
    Charged ended =
        ended.outcome ≡ ok found
        → count_in other ended.session
          ≡ settled (is_billable found.status) (same_key key other) (same_key late other) before

    finish-Charged :
        (r : CheckResult) (t : Session)
        → t.db.rate_limits ≡ increment key s.db.rate_limits
        → Charged (finish services input options r t)
    finish-Charged r t rows h =
        settle (is_billable r.status) (is_billable found.status) (same_key key other)
          (same_key late other) (count_in other t) before _
          (ap (λ (k : Shown). is_billable k.status) (finish-keeps r found t h))
          (ap (count_of other) rows ∙ count_of-increment key other s.db.rate_limits)
          (count_in-finish other r t)

    behind_stages-Charged :
        (stages : Raises CheckResult) (t : Session)
        → t.db.rate_limits ≡ increment key s.db.rate_limits
        → Charged (behind_stages services input options stages t)
    unfolding behind_stages
    behind_stages-Charged (ok r) t rows h = finish-Charged r t rows h
    behind_stages-Charged (raised error) t rows h = ground arith

    behind_limit-Charged :
        (limited : Option CheckResult) (t : Session)
        → t.db.rate_limits ≡ increment key s.db.rate_limits
        → Charged (behind_limit services input options limited t)
    unfolding behind_limit
    behind_limit-Charged (some r) t rows h = finish-Charged r t rows h
    behind_limit-Charged none t rows h =
        behind_stages-Charged (run_stages services input) _
          (commit_if-rows options.commit_rate_limit_reservation t ∙ rows) h

    run_check-Charged : Charged (run_check services input options s)
    unfolding run_check reserved
    run_check-Charged =
        rw (increment_usage-user input.user_key options.reserved_on s.db)
          (behind_limit-Charged _ _ refl)

    -- Where the refund falls on the day of the reservation, a check that returns a result adds one to
    -- its user's counter of the day if the status is billable, and leaves it as it was otherwise; no
    -- other counter is changed.
    pub run_check_charges :
        options.refunded_on ≡ options.reserved_on
        → (run_check services input options s).outcome ≡ ok found
        → count_in other (run_check services input options s).session
          ≡ (if is_billable found.status && same_key key other then before + 1 else before)
    run_check_charges same_day h =
        let late_key : late ≡ key = rw same_day refl in
        on_time (is_billable found.status) (same_key key other) (same_key late other) before _
          (ap (λ k. same_key k other) late_key) (run_check-Charged h)

  -- Where the refund falls on another day than the reservation, a check that is not billable stays
  -- charged to the day of the reservation, and the refund takes one from the counter of the other day.
  pub run_check-late_refund :
      (s : Session) (found : CheckResult)
      → same_key late key ≡ false
      → is_billable found.status ≡ false
      → (run_check services input options s).outcome ≡ ok found
      → (count_in key (run_check services input options s).session ≡ count_in key s + 1)
        × (count_in late (run_check services input options s).session ≡ count_in late s - 1)
  run_check-late_refund s found apart free h = (
    ground (arith, run_check-Charged s found key h, same_key_refl key),
    ground (
      arith,
      run_check-Charged s found late h,
      same_key_refl late,
      same_key-eq key late,
      same_key_refl key,
    ),
  )
