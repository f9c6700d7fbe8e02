-- ===== src/Engine/Pipeline/Run/Limits.antt =====
-- The daily limit of `run_check`, and its exceptions.
use avvalo.Prelude.{
  ℕ, ◌+◌, ◌-◌, ◌≤◌, ◌<◌, String, Bool, true, false, Option, none, some, ◌≡◌, ◌≢◌, ◌↔◌, refl, ap,
  sym, inl, inr, ◌∙◌, arith, leb, if◌then◌else◌, Bool-cases,
}
use avvalo.Raises.{Raises, ok, raised}
use avvalo.Engine.Types.{CheckInput, CheckStatus, CheckResult}
use avvalo.Engine.Pipeline.Types.{Services, result}
use avvalo.Engine.Pipeline.Content.{stop}
use avvalo.Engine.Pipeline.Stages.{run_stages}
use avvalo.Engine.Pipeline.Stages.Shows.{Shows, run_stages-Shows}
use avvalo.Engine.Pipeline.Run.{
  Options, Session, Ended, daily_limit, rate_limit_result, refunded, finish, behind_stages,
  behind_limit, reserved, run_check, commit_if,
}
use avvalo.Engine.Pipeline.Run.Charges.{
  Shown, count_in, key, late, count_in-refunded, commit_if-rows, finish-keeps,
}
use avvalo.Data.Store.{UsageKey}
use avvalo.Data.Usage.{
  count_of, increment, same_key, same_key_refl, count_of-increment, increment_usage-user,
}

-- One more, and one less.
back :
    (c c' : Bool) (before n after : ℕ)
    → c' ≡ c
    → n ≡ (if c then before + 1 else before)
    → after ≡ (if c' then n - 1 else n)
    → after ≡ before
back c c' before n after hc hn ha = ground arith

module _ (services : Services) (input : CheckInput) (options : Options) (s : Session) where
  abbrev used : ℕ
  used = count_of (key services input options) s.db.rate_limits

  abbrev limit : ℕ
  limit = daily_limit options.rate_limit_override services.settings

  used-increment :
      count_of
        (key services input options)
        (increment (key services input options) s.db.rate_limits)
      ≡ used + 1
  used-increment =
      rw
        (
          count_of-increment (key services input options) (key services input options)
              s.db.rate_limits,
          same_key_refl (key services input options),
        )
        refl

  -- The session behind the reservation.
  abbrev opened : Session
  opened = record s {
    db = record s.db { rate_limits = increment (key services input options) s.db.rate_limits };
  }

  abbrev limited : Option CheckResult
  limited = rate_limit_result input services.settings options.rate_limit_override (used + 1)

  -- The reservation, and then the limit or the stages.
  run_check-eq :
      run_check services input options s ≡ behind_limit services input options limited opened
  unfolding run_check reserved
  run_check-eq =
      rw (increment_usage-user input.user_key options.reserved_on s.db, used-increment) refl

  over_limit :
      leb (used + 1) limit ≡ false
      → limited ≡ some (stop input CheckStatus.rate_limited (some "DailyLimitExceeded") none none)
  unfolding rate_limit_result
  over_limit h = rw h refl

  under_limit : leb (used + 1) limit ≡ true → limited ≡ none
  unfolding rate_limit_result
  under_limit h = rw h refl

  under : used < limit → leb (used + 1) limit ≡ true
  under h = ground arith

  status_of_stages :
      (stages : Raises CheckResult) (found : CheckResult) (t : Session)
      → Shows services input stages
      → (behind_stages services input options stages t).outcome ≡ ok found
      → found.status ≢ CheckStatus.rate_limited
  unfolding behind_stages Shows
  status_of_stages (ok r) found t (shown, other) h e =
      other
        (sym (ap (λ (k : Shown). k.status) (finish-keeps services input options r found t h)) ∙ e)
  status_of_stages (raised error) found t shown h e = ground arith

  staged :
      leb (used + 1) limit ≡ true
      → run_check services input options s
        ≡ behind_stages services input options
            (run_stages services input)
            (commit_if services input options options.commit_rate_limit_reservation opened)
  unfolding behind_limit
  staged under =
      run_check-eq ∙ ap (λ l. behind_limit services input options l opened) (under_limit under)

  refused_at :
      leb (used + 1) limit ≡ false
      → run_check services input options s
        ≡ finish services input options
            (stop input CheckStatus.rate_limited (some "DailyLimitExceeded") none none)
            opened
  unfolding behind_limit
  refused_at over =
      run_check-eq ∙ ap (λ l. behind_limit services input options l opened) (over_limit over)

  -- What an exception leaves behind a committed reservation.
  left_behind :
      (stages : Raises CheckResult) (error : String) (t : Session)
      → stages ≡ raised error
      → options.commit_rate_limit_reservation ≡ true
      → (behind_stages services input options stages t).session ≡ record {
        db = (refunded services input options t).db;
        committed = (refunded services input options t).db;
      }
  unfolding behind_stages commit_if
  left_behind stages error t raises commit = rw (raises, commit) refl

  given_back :
      (other : UsageKey) (t : Session)
      → options.refunded_on ≡ options.reserved_on
      → t.db.rate_limits ≡ increment (key services input options) s.db.rate_limits
      → count_of other (refunded services input options t).db.rate_limits
        ≡ count_of other s.db.rate_limits
  given_back other t same_day rows =
      let late_key : late services input options ≡ key services input options = rw same_day refl in
      back (same_key (key services input options) other)
        (same_key (late services input options) other) (count_of other s.db.rate_limits)
        (count_in other t) _ (ap (λ k. same_key k other) late_key)
        (ap (count_of other) rows
          ∙ count_of-increment (key services input options) other s.db.rate_limits)
        (count_in-refunded services input options other t)

  -- A check that returns a result is refused as rate limited exactly where its user's counter of the
  -- day had reached the limit before it.
  pub run_check_limits :
      (found : CheckResult)
      → (run_check services input options s).outcome ≡ ok found
      → (found.status ≡ CheckStatus.rate_limited) ↔ (limit ≤ used)
  unfolding stop result
  run_check_limits found h = elim (Bool-cases (leb (used + 1) limit)) [
    | inl below ↦
        let on_stages = sym (ap (λ (k : Ended). k.outcome) (staged below)) ∙ h in
        (
          λ refused.
              elim (status_of_stages _ found _ (run_stages-Shows services input) on_stages
                refused) [ ],
          λ full. ground arith,
        )
    | inr over ↦
        let refused = sym (ap (λ (k : Ended). k.outcome) (refused_at over)) ∙ h in
        (
          λ _. ground arith,
          λ full.
              ap (λ (k : Shown). k.status)
                (finish-keeps services input options _ found opened refused),
        )
  ]

  -- Below the limit, where the stages raise, the reservation is to be committed and both writes fall
  -- on one day, the reservation is given back and that is committed: every counter is as it was
  -- before the check.
  pub run_check_refunds :
      (other : UsageKey) (error : String)
      → options.refunded_on ≡ options.reserved_on
      → options.commit_rate_limit_reservation ≡ true
      → used < limit
      → run_stages services input ≡ raised error
      → (let left = (run_check services input options s).session in
          (count_of other left.db.rate_limits ≡ count_of other s.db.rate_limits)
          × (count_of other left.committed.rate_limits ≡ count_of other s.db.rate_limits))
  run_check_refunds other error same_day commit free raises =
      let t = commit_if services input options options.commit_rate_limit_reservation opened in
      let given =
        given_back other t same_day
          (commit_if-rows services input options options.commit_rate_limit_reservation opened) in
      let left =
        ap (λ (k : Ended). k.session) (staged (under free)) ∙ left_behind _ error t raises commit in
      (
        ap (λ (k : Session). count_of other k.db.rate_limits) left ∙ given,
        ap (λ (k : Session). count_of other k.committed.rate_limits) left ∙ given,
      )
