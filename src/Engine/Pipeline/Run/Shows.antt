-- ===== src/Engine/Pipeline/Run/Shows.antt =====
-- What `run_check` shows to its user.
use avvalo.Prelude.{ℕ, none, some, inl, inr, Bool-cases, leb, refl}
use avvalo.Raises.{Raises, ok, raised}
use avvalo.Engine.Types.{CheckInput, CheckStatus, CheckResult}
use avvalo.Engine.Pipeline.Types.{Services, result}
use avvalo.Engine.Pipeline.Shown.{IsFixed}
use avvalo.Engine.Pipeline.Content.{stop}
use avvalo.Engine.Pipeline.Stages.Shows.{IsShowable, Shows, run_stages-Shows}
use avvalo.Engine.Pipeline.Run.{
  Options, Session, with_event, finish, behind_stages, behind_limit, reserved, run_check,
  rate_limit_result, daily_limit,
}
use avvalo.Data.Store.{Database}

-- A result can be shown; an exception shows nothing.
pub IsShown : Services → CheckInput → Raises CheckResult → Type 0
IsShown services input (raised error) = Unit
IsShown services input (ok r) = IsShowable services input r

module _ (services : Services) (input : CheckInput) (options : Options) where
  with_event-IsShown :
      (written : Raises (ℕ × Database)) (r : CheckResult) (s : Session)
      → IsShowable services input r
      → IsShown services input
          (with_event services input options written
            (record r { latency_ms = services.latency_ms })
            s).outcome
  unfolding IsShown
  with_event-IsShown (raised error) r s h = tt
  with_event-IsShown (ok (id, db)) r s (IsShowable.fixed (IsFixed.message e)) =
      IsShowable.fixed (IsFixed.message e)
  with_event-IsShown (ok (id, db)) r s (IsShowable.fixed (IsFixed.fallback e)) =
      IsShowable.fixed (IsFixed.fallback e)
  with_event-IsShown (ok (id, db)) r s (IsShowable.laid_out content draft found safe e) =
      IsShowable.laid_out content draft found safe e

  finish-IsShown :
      (r : CheckResult) (s : Session)
      → IsShowable services input r
      → IsShown services input (finish services input options r s).outcome
  unfolding finish
  finish-IsShown r s h = with_event-IsShown _ r _ h

  stages-IsShown :
      (stages : Raises CheckResult) (s : Session)
      → Shows services input stages
      → IsShown services input (behind_stages services input options stages s).outcome
  unfolding IsShown behind_stages Shows
  stages-IsShown (raised error) s h = tt
  stages-IsShown (ok r) s (shown, _) = finish-IsShown r s shown

  limit-IsShown :
      (count : ℕ) (s : Session)
      → IsShown services input
          (behind_limit services input options
            (rate_limit_result input services.settings options.rate_limit_override count)
            s).outcome
  unfolding behind_limit rate_limit_result stop result
  limit-IsShown count s =
      elim (Bool-cases (leb count (daily_limit options.rate_limit_override services.settings))) [
        | inl under ↦ rw under (stages-IsShown _ _ (run_stages-Shows services input))
        | inr over ↦ rw over (
            finish-IsShown
              (stop input CheckStatus.rate_limited (some "DailyLimitExceeded") none none) s
              (IsShowable.fixed (IsFixed.message refl)))
      ]

  reserved-IsShown :
      (count : Raises (ℕ × Database)) (s : Session)
      → IsShown services input (reserved services input options count s).outcome
  unfolding IsShown reserved
  reserved-IsShown (raised error) s = tt
  reserved-IsShown (ok (count, db)) s = limit-IsShown count _

  -- Whatever the model, OCR, the QR decoder and the router answer, a check that returns a result shows
  -- one of the fixed messages, or the layout of a draft that passes every safety test of the validator
  -- in the language of the result, for the rules that fire on the content of the input and the cards
  -- that are retrieved for it.
  pub run_check_shows :
      (s : Session) → IsShown services input (run_check services input options s).outcome
  unfolding run_check
  run_check_shows s = reserved-IsShown _ s
