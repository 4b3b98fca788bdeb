-- ===== src/Pricing/DayCount.antt =====
-- shared-pricing/src/engine/day-count.ts
use irsforge.Base.{ℕ, min}
use irsforge.Base.Int.{ℤ, pos, ◌+ℤ◌, ◌-ℤ◌, ◌*ℤ◌}
use irsforge.Pricing.Number.{Number}
use irsforge.Pricing.Dates.{Day}
use irsforge.Pricing.Types.{
  Platform, DayCountConvention, act_360, act_365, thirty_360, thirty_e_360, days_between,
}
pub mod Laws

-- The days of the 30/360 count between two dates.
unfoldable pub thirty_days : Day → Day → ℤ
thirty_days s e =
    (pos e.year -ℤ pos s.year) *ℤ pos 360
    +ℤ (pos e.month -ℤ pos s.month) *ℤ pos 30
    +ℤ (pos (min e.day 30) -ℤ pos (min s.day 30))

module _ {ℓ} {N : Type ℓ} ⦃arithmetic : Number N⦄ ⦃platform : Platform⦄ where
  unfoldable pub year_fraction : Day → Day → DayCountConvention → N
  unfolding thirty_days
  year_fraction s e act_360 =
      arithmetic.ratio (days_between (platform.time_of s) (platform.time_of e)) 360
  year_fraction s e act_365 =
      arithmetic.ratio (days_between (platform.time_of s) (platform.time_of e)) 365
  year_fraction s e thirty_360 = arithmetic.ratio (thirty_days s e) 360
  year_fraction s e thirty_e_360 = arithmetic.ratio (thirty_days s e) 360
