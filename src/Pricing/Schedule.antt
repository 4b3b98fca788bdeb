-- ===== src/Pricing/Schedule.antt =====
-- `generateScheduleDates` of shared-pricing/src/engine/cashflows.ts.
use irsforge.Base.{ℕ, zero, suc, ◌+◌, Option, none, some, List, [], ◌∷◌, Bool, if◌then◌else◌}
use irsforge.Pricing.Dates.{Day, add_months, is_up_to}
use irsforge.Pricing.Dates.Laws.{month_index}
pub mod Laws
pub mod Regular

pub data Frequency : Type 0 where
  monthly quarterly semi_annual annual : Frequency

-- `FREQUENCY_MONTHS`
unfoldable pub frequency_months : Frequency → ℕ
frequency_months monthly = 1
frequency_months quarterly = 3
frequency_months semi_annual = 6
frequency_months annual = 12

abbrev prepend : Day → Option (List Day) → Option (List Day)
prepend d none = none
prepend d (some ds) = some (d ∷ ds)

-- `while (current <= endDate)`; `none` means that the fuel ran out.
unfoldable pub dates_from : ℕ → Day → Day → ℕ → Option (List Day)
unfolding add_months
dates_from zero current end step = none
dates_from (suc fuel) current end step =
    let rest = dates_from fuel (add_months current step) end step in
    if is_up_to current end then prepend current rest else some []

unfoldable pub generate_schedule_dates : Day → Day → Frequency → Option (List Day)
unfolding dates_from add_months frequency_months
generate_schedule_dates start end frequency =
    let step = frequency_months frequency in
    dates_from (suc (suc (month_index end))) (add_months start step) end step
