-- ===== src/Pricing/DayCount/Laws.antt =====
-- Theorems on the 30/360 count of engine/day-count.ts.
use irsforge.Base.{◌≡◌}
use irsforge.Base.Int.{pos, ◌+ℤ◌, ◌-ℤ◌, int_laws, *ℤ_parts}
use irsforge.Pricing.Dates.{Day}
use irsforge.Pricing.DayCount.{thirty_days}

-- The days of consecutive periods add up to the days of the whole.
pub thirty_days_add : (a b c : Day) → thirty_days a b +ℤ thirty_days b c ≡ thirty_days a c
unfolding thirty_days
thirty_days_add a b c = omega (
  int_laws,
  *ℤ_parts (pos b.year -ℤ pos a.year) 360,
  *ℤ_parts (pos c.year -ℤ pos b.year) 360,
  *ℤ_parts (pos c.year -ℤ pos a.year) 360,
  *ℤ_parts (pos b.month -ℤ pos a.month) 30,
  *ℤ_parts (pos c.month -ℤ pos b.month) 30,
  *ℤ_parts (pos c.month -ℤ pos a.month) 30,
)
