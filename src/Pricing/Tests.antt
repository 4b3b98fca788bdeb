-- ===== src/Pricing/Tests.antt =====
-- The theorems on schedules and on the root finder at concrete inputs, with the integers as the
-- numbers.
use irsforge.Base.{
  ℕ, zero, suc, ◌+◌, ◌*◌, ◌≤◌, ◌<◌, ◌≡◌, refl, ap, sym, ◌∙◌, ◌⊎◌, Option, none, some, List, [], ◌∷◌,
  String, Bool, true, false, arith, ltb, leb,
}
use irsforge.Base.Int.{
  ℤ, pos, negsuc, leb_ℤ, ltb_ℤ, neg, abs, ◌+ℤ◌, ◌-ℤ◌, ◌*ℤ◌, floor_div, round_div,
}
use irsforge.Base.Dict.{Dict, lookup}
use irsforge.Pricing.Number.{
  Number, integers, IsAdditive, integers-IsAdditive, is_le, is_lt, whole, absolute,
}
use irsforge.Pricing.Dates.{Day, IsDay, days_in_month, add_months, normalise}
use irsforge.Pricing.Schedule.{
  Frequency, monthly, quarterly, generate_schedule_dates, dates_from, frequency_months,
}
use irsforge.Pricing.Schedule.Laws.{Covers, generate_schedule_dates-Covers}
use irsforge.Pricing.Schedule.Regular.{Early, generate_schedule_dates-Early}
use irsforge.Pricing.Newton.{NewtonOptions, tolerance, max_iterations, doubles_of, solve_newton}
use irsforge.Pricing.Newton.Laws.{IsOutcome, Traced, solve_newton_sound}
use irsforge.Pricing.Newton.Failure.{SameSign, first_width, solve_newton_fails}
mod Valuation

abbrev day_of : ℕ → ℕ → ℕ → Day
day_of y m d = record { year = y; month = m; day = d }

late_january-IsDay : IsDay (day_of 2025 0 31)
unfolding days_in_month
late_january-IsDay = record { month_of_year = omega arith; first = omega arith; last = omega arith }

july-IsDay : IsDay (day_of 2025 6 15)
unfolding days_in_month
july-IsDay = record { month_of_year = omega arith; first = omega arith; last = omega arith }

generate_schedule_dates-Covers_example :
    (ds : List Day) × (generate_schedule_dates (day_of 2025 0 31) (day_of 2025 6 15) monthly
      ≡ some ds)
    × Covers (frequency_months monthly) (day_of 2025 0 31) (day_of 2025 6 15) ds
generate_schedule_dates-Covers_example =
    generate_schedule_dates-Covers (day_of 2025 0 31) (day_of 2025 6 15) monthly late_january-IsDay
      july-IsDay

-- From 31 January, monthly: the first date is 3 March.
abbrev drifted : List Day
drifted =
    day_of 2025 2 3 ∷ day_of 2025 3 3 ∷ day_of 2025 4 3 ∷ day_of 2025 5 3 ∷ day_of 2025 6 3 ∷ []

generate_schedule_dates-Early_example : Early drifted
unfolding generate_schedule_dates dates_from add_months normalise days_in_month frequency_months
generate_schedule_dates-Early_example =
    generate_schedule_dates-Early (day_of 2025 0 31) (day_of 2025 6 15) monthly drifted
      late_january-IsDay july-IsDay (omega arith) refl

-- The root of x - 7 from 2, with a step of 1.
abbrev options : NewtonOptions ℤ
options = record {
  tol = none;
  rel_tol = none;
  scale = none;
  max_iter = none;
  initial_step = some (pos 1);
  bracket_max = none;
}

abbrev minus_seven : ℤ → ℤ
minus_seven x = x -ℤ pos 7

solve_newton_sound_example :
    IsOutcome minus_seven (tolerance options) (solve_newton minus_seven (pos 2) options)
    × Traced minus_seven (solve_newton minus_seven (pos 2) options).trace
    × ((solve_newton minus_seven (pos 2) options).iterations ≤ max_iterations options)
solve_newton_sound_example = solve_newton_sound minus_seven (pos 2) options

at_most_zero : (a : ℤ) → is_le a (whole 0) ≡ true → is_lt (whole 0) a ≡ false
unfolding floor_div
at_most_zero a h = ground arith

abbrev constant : ℤ → ℤ
constant x = pos 1

solve_newton_fails_example :
    (is_le (absolute (constant (pos 2))) (tolerance options) ≡ false)
    × SameSign constant (doubles_of options) (pos 2) (first_width options)
unfolding solve_newton abs floor_div ◌*ℤ◌ ◌-ℤ◌
solve_newton_fails_example = solve_newton_fails constant at_most_zero (pos 2) options refl
