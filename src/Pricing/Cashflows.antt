-- ===== src/Pricing/Cashflows.antt =====
-- The cashflows of shared-pricing/src/engine/cashflows.ts.
use irsforge.Base.{
  ℕ, zero, suc, ◌+◌, ◌-◌, ◌/◌, Option, none, some, List, [], ◌∷◌, Bool, true, false, ltb, leb, max,
  if◌then◌else◌,
}
use irsforge.Base.Int.{ℤ, pos, leb_ℤ}
use irsforge.Pricing.Number.{Number, ◌⊕◌, ◌⊖◌, ◌⊗◌, larger, whole}
use irsforge.Pricing.Dates.{Day, add_months, normalise}
use irsforge.Pricing.Schedule.{dates_from, generate_schedule_dates, frequency_months}
use irsforge.Pricing.Types.{
  Platform, days_between, DayCountConvention, PeriodicSchedule, CashflowEntry, DiscountCurve,
  FloatingRateIndex, RateObservation, day_count_basis_for_family, or_else,
}
use irsforge.Pricing.DayCount.{year_fraction, thirty_days}
use irsforge.Pricing.Curves.{interpolate_zero}
pub mod Laws
pub mod Sort

-- The dates of a schedule; the fuel that `generate_schedule_dates` has is always enough.
unfoldable pub payment_dates : PeriodicSchedule → List Day
unfolding generate_schedule_dates dates_from add_months normalise frequency_months
payment_dates s = or_else (generate_schedule_dates s.start_date s.end_date s.frequency) []

module _ {A : Type 0} where
  -- `[...xs].sort((a, b) => key(a) - key(b))`, which is stable.
  abbrev pub insert_by : (A → ℕ) → A → List A → List A
  insert_by key o [] = o ∷ []
  insert_by key o (p ∷ ps) =
      let rest = insert_by key o ps in if ltb (key p) (key o) then p ∷ rest else o ∷ p ∷ ps

  abbrev pub sort_by : (A → ℕ) → List A → List A
  sort_by key [] = []
  sort_by key (o ∷ os) = insert_by key o (sort_by key os)

  -- `xs[i]`
  abbrev pub item : ℕ → List A → Option A
  item i [] = none
  item zero (x ∷ xs) = some x
  item (suc i) (x ∷ xs) = item i xs

  -- `xs.slice(from, to)`
  abbrev pub slice : ℕ → ℕ → List A → List A
  slice from zero xs = []
  slice from (suc to) [] = []
  slice zero (suc to) (x ∷ xs) = x ∷ slice 0 to xs
  slice (suc from) (suc to) (x ∷ xs) = slice from to xs

-- `CompoundedInput`; the two dates are times.
pub record CompoundedInput (N : Type 0) : Type 0 where
  pub curve : DiscountCurve N
  pub index : FloatingRateIndex N
  pub observations : List (RateObservation N)
  pub period_start : ℕ
  pub period_end : ℕ
  pub notional : N

abbrev at_least_one : ℤ → ℤ
at_least_one days = if leb_ℤ days (pos 1) then pos 1 else days

module _ {N : Type 0} where
  -- `findIndex((o) => o.date.getTime() >= t)`, or the length when there is none.
  abbrev pub first_after : ℕ → List (RateObservation N) → ℕ
  first_after t [] = 0
  first_after t (o ∷ os) = let rest = first_after t os in if leb t o.date then 0 else suc rest

  abbrev next_date : List (RateObservation N) → ℕ → ℕ
  next_date [] end = end
  next_date (o ∷ os) end = o.date

  abbrev pub date_of : Option (RateObservation N) → ℕ → ℕ
  date_of none end = end
  date_of (some o) end = o.date

  -- `lastObsEnd`
  abbrev pub tail_start : List (RateObservation N) → Option (RateObservation N) → ℕ → ℕ → ℕ
  tail_start [] following start end = start
  tail_start (o ∷ os) following start end = date_of following end

module _ {N : Type 0} ⦃arithmetic : Number N⦄ ⦃platform : Platform⦄ where
  -- A loop over the payment dates that makes one cashflow for each period.
  abbrev pub each_period : (Day → Day → CashflowEntry N) → Day → List Day → List (CashflowEntry N)
  each_period make start [] = []
  each_period make start (end ∷ ends) = make start end ∷ each_period make end ends

  abbrev fixed_coupon : N → N → DayCountConvention → Day → Day → CashflowEntry N
  fixed_coupon rate notional day_count start end = record {
    date = platform.time_of end;
    amount = notional ⊗ rate ⊗ year_fraction start end day_count;
    projected_rate = none;
    currency = none;
  }

  unfoldable pub calc_fixed_cashflows :
      N → N → DayCountConvention → PeriodicSchedule → List (CashflowEntry N)
  unfolding payment_dates year_fraction
  calc_fixed_cashflows rate notional day_count schedule =
      each_period (fixed_coupon rate notional day_count) schedule.start_date
        (payment_dates schedule)

  abbrev float_coupon : DiscountCurve N → N → N → DayCountConvention → Day → Day → CashflowEntry N
  float_coupon curve spread notional day_count start end =
      let middle = (platform.time_of start + platform.time_of end) / 2 in
      let forward = interpolate_zero curve (days_between (platform.parse curve.as_of) middle) in
      record {
        date = platform.time_of end;
        amount = notional ⊗ (forward ⊕ spread) ⊗ year_fraction start end day_count;
        projected_rate = some forward;
        currency = none;
      }

  unfoldable pub calc_float_cashflows :
      DiscountCurve N → N → N → DayCountConvention → PeriodicSchedule → List (CashflowEntry N)
  unfolding payment_dates year_fraction interpolate_zero
  calc_float_cashflows curve spread notional day_count schedule =
      each_period (float_coupon curve spread notional day_count) schedule.start_date
        (payment_dates schedule)

  -- `index.floor !== null ? Math.max(rRaw, index.floor) : rRaw`
  abbrev floored : Option N → N → N
  floored none rate = rate
  floored (some least) rate = larger rate least

  abbrev growth : N → ℤ → ℕ → N
  growth rate days basis = whole 1 ⊕ rate ⊗ arithmetic.ratio days basis

  -- The loop over the window.
  unfoldable pub compound : Option N → ℕ → ℕ → N → List (RateObservation N) → N
  compound least basis end accrual [] = accrual
  compound least basis end accrual (o ∷ os) =
      compound least basis end
        (accrual ⊗ growth (floored least o.rate) (days_between o.date (next_date os end)) basis) os

  -- The forward rate's part, for what is left of the period from `start` on.
  abbrev pub with_tail : DiscountCurve N → ℕ → ℕ → ℕ → N → N
  with_tail curve basis end start accrual =
      let tenor = at_least_one (days_between (platform.parse curve.as_of) start) in
      if ltb start end
      then accrual ⊗ growth (interpolate_zero curve tenor) (days_between start end) basis
      else accrual

  unfoldable pub calc_compounded_cashflow : CompoundedInput N → N
  unfolding compound interpolate_zero day_count_basis_for_family
  calc_compounded_cashflow input =
      let basis = day_count_basis_for_family input.index.family in
      let sorted = sort_by (λ o. o.date) input.observations in
      let from = first_after input.period_start sorted - input.index.lookback in
      let to = max from (first_after input.period_end sorted - input.index.lookback) in
      let window = slice from to sorted in
      let accrual = compound input.index.floor basis input.period_end (whole 1) window in
      let start = tail_start window (item to sorted) input.period_start input.period_end in
      input.notional ⊗ (with_tail input.curve basis input.period_end start accrual ⊖ whole 1)
