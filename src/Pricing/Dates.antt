-- ===== src/Pricing/Dates.antt =====
-- The dates of shared-pricing/src/engine/cashflows.ts: `addMonths`, and what the platform's `Date`
-- does there. A date is a day of the local calendar, months counted from 0; the time of day, which
-- all dates of a schedule share, is left out.
use irsforge.Base.{
  ℕ, suc, ◌+◌, ◌-◌, ◌*◌, ◌/◌, ◌%◌, ◌≤◌, ◌<◌, Bool, true, false, ◌&&◌, ◌||◌, not, eqb, leb,
  if◌then◌else◌,
}
pub mod Laws

pub record Day : Type 0 where
  pub year : ℕ
  pub month : ℕ
  pub day : ℕ

abbrev pub is_leap : ℕ → Bool
is_leap y = eqb (y % 4) 0 && (not (eqb (y % 100) 0) || eqb (y % 400) 0)

unfoldable pub days_in_month : ℕ → ℕ → ℕ
days_in_month y m =
    if eqb m 1
    then (if is_leap y then 29 else 28)
    else if eqb m 3 || eqb m 5 || eqb m 8 || eqb m 10
    then 30
    else 31

-- `setMonth`: a day that the month does not have runs over into the next one.
unfoldable pub normalise : ℕ → ℕ → ℕ → Day
unfolding days_in_month
normalise y m d =
    if leb d (days_in_month y m)
    then record { year = y; month = m; day = d }
    else if eqb m 11
    then record { year = suc y; month = 0; day = d - days_in_month y m }
    else record { year = y; month = suc m; day = d - days_in_month y m }

unfoldable pub add_months : Day → ℕ → Day
unfolding normalise
add_months d months = normalise (d.year + (d.month + months) / 12) ((d.month + months) % 12) d.day

-- A number in the order of `getTime`.
abbrev pub key : Day → ℕ
key d = (d.year * 12 + d.month) * 32 + d.day

-- `a <= b`
abbrev pub is_up_to : Day → Day → Bool
is_up_to a b = leb (key a) (key b)

-- A date of the calendar.
pub record IsDay (d : Day) : Type 0 where
  pub month_of_year : d.month < 12
  pub first : 1 ≤ d.day
  pub last : d.day ≤ days_in_month d.year d.month
