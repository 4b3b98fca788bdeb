-- ===== src/App/Workspace/Dates.antt =====
-- app/src/features/workspace/utils: date-recalc.ts and the tenors of tenor-parser.ts. A date is a
-- day of the local calendar at midnight; years before 0 are not modelled.
use irsforge.Base.{ℕ, ◌+◌, ◌-◌, Option, none, some, Bool, false, not, eqb, ltb, leb, if◌then◌else◌}
use irsforge.Base.Int.{ℤ, pos, pos_part, ◌+ℤ◌, ◌-ℤ◌}
use irsforge.Pricing.Dates.{Day, add_months, normalise, key}

pub record Tenor : Type 0 where
  pub years : ℤ
  pub months : ℕ

-- `addTenor`: `setFullYear`, then `setMonth`.
unfoldable pub add_tenor : Day → Tenor → Day
unfolding add_months normalise
add_tenor d t = add_months (normalise (pos_part (pos d.year +ℤ t.years)) d.month d.day) t.months

-- `end.getMonth() - start.getMonth()`, less one when the day comes before; `borrowed` says whether
-- that is below 0 and a year is taken for it.
unfoldable pub compute_tenor : Day → Day → Tenor
compute_tenor start end =
    let short = if ltb end.day start.day then 1 else 0 in
    let borrowed = ltb end.month (start.month + short) in
    let years = pos end.year -ℤ pos start.year in
    record {
      years = if borrowed then years -ℤ pos 1 else years;
      months =
          if borrowed
          then end.month + 12 - (start.month + short)
          else end.month - (start.month + short);
    }

pub data DateAnchor : Type 0 where
  trade effective maturity tenor_anchor : DateAnchor

pub record WorkspaceDates : Type 0 where
  pub trade_date : Day
  pub effective_date : Day
  pub maturity_date : Day
  pub tenor : Tenor
  pub anchor : DateAnchor
  pub eff_manually_set : Bool

-- The anchor that is changed, with its new value.
pub data DateChange : Type 0 where
  to_trade to_effective to_maturity : (value : Day) → DateChange
  to_tenor : (value : Tenor) → DateChange

-- `a.getTime() === b.getTime()`
abbrev pub same_day : Day → Day → Bool
same_day a b = eqb (key a) (key b)

-- `recalculateDates`
unfoldable pub recalculate_dates : WorkspaceDates → DateChange → WorkspaceDates
unfolding add_tenor compute_tenor
recalculate_dates current (to_tenor tenor) = record current {
  anchor = tenor_anchor;
  tenor = tenor;
  maturity_date = add_tenor current.effective_date tenor;
}
recalculate_dates current (to_maturity mat) = record current {
  anchor = maturity;
  maturity_date = mat;
  tenor = compute_tenor current.effective_date mat;
}
recalculate_dates current (to_effective eff) = record current {
  anchor = effective;
  effective_date = eff;
  maturity_date = add_tenor eff current.tenor;
  eff_manually_set = not (same_day eff current.trade_date);
}
recalculate_dates current (to_trade day) =
    let moved : WorkspaceDates = record current {
      anchor = trade;
      trade_date = day;
      effective_date = day;
      maturity_date = add_tenor day current.tenor;
    } in
    let kept : WorkspaceDates = record current { anchor = trade; trade_date = day } in
    if current.eff_manually_set then kept else moved

pub data DateError : Type 0 where
  effective_too_early maturity_too_early : DateError

-- `validateDates`
unfoldable pub validate_dates : WorkspaceDates → Option DateError
validate_dates dates =
    if ltb (key dates.effective_date) (key dates.trade_date)
    then some effective_too_early
    else if leb (key dates.maturity_date) (key dates.effective_date)
    then some maturity_too_early
    else none

-- `buildDefaultWorkspaceDates`
unfoldable pub build_default_workspace_dates : Day → WorkspaceDates
unfolding add_tenor
build_default_workspace_dates today =
    let five_years : Tenor = record { years = pos 5; months = 0 } in
    record {
      trade_date = today;
      effective_date = today;
      maturity_date = add_tenor today five_years;
      tenor = five_years;
      anchor = tenor_anchor;
      eff_manually_set = false;
    }
