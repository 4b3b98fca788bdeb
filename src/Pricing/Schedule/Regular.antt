-- ===== src/Pricing/Schedule/Regular.antt =====
-- Theorems on the schedules of engine/cashflows.ts by the day of the month they start on.
use irsforge.Base.{
  ℕ, suc, ◌+◌, ◌*◌, ◌/◌, ◌%◌, ◌≤◌, ◌<◌, ◌≡◌, ◌∙◌, sym, ap, Option, none, some, List, [], ◌∷◌, arith,
  All,
}
use mathlib.Core.Path.{subst}
use irsforge.Pricing.Dates.{Day, days_in_month, add_months, IsDay}
use irsforge.Pricing.Dates.Laws.{
  add_months_early, add_months-add, add_months_over, days_in_month_bounds,
}
use irsforge.Pricing.Schedule.{Frequency, frequency_months, generate_schedule_dates}
use irsforge.Pricing.Schedule.Laws.{Covers, generate_schedule_dates-Covers}

-- The date after `i` periods, counted from the start at once.
abbrev pub period_end : Day → ℕ → ℕ → Day
period_end start step i = add_months start (i * step)

abbrev PeriodEnds : Day → ℕ → ℕ → List Day → Type 0
PeriodEnds start step i [] = Unit
PeriodEnds start step i (d ∷ ds) = (d ≡ period_end start step i) × PeriodEnds start step (suc i) ds

regular :
    (start end : Day) (step i : ℕ) (ds : List Day)
    → start.month < 12
    → start.day ≤ 28
    → Covers step (period_end start step i) end ds
    → PeriodEnds start step (suc i) ds
regular start end step i [] m h c = tt
regular start end step i (d ∷ ds) m h (e, later, within, v, c) =
    let here : d ≡ period_end start step (suc i) =
      e ∙ add_months-add start (i * step) step m h ∙ ap (add_months start) (omega arith) in
    (here, regular start end step (suc i) ds m h (subst (λ z. Covers step z end ds) here c))

-- Every date of the schedule falls on the day of the month that the start falls on, and the i-th is
-- i periods after the start, where each month has that day.
Covers-PeriodEnds :
    (start end : Day) (step : ℕ) (ds : List Day)
    → IsDay start
    → start.day ≤ 28
    → Covers step start end ds
    → PeriodEnds start step 1 ds
Covers-PeriodEnds start end step [] v h c = tt
Covers-PeriodEnds start end step (d ∷ ds) v h (e, later, within, w, c) =
    let here : d ≡ period_end start step 1 = e ∙ ap (add_months start) (omega arith) in
    (here, regular start end step 1 ds v.month_of_year h (subst (λ z. Covers step z end ds) here c))

-- Every date falls on one of the first three days of its month.
abbrev pub Early : List Day → Type 0
Early ds = All (λ d. d.day ≤ 3) ds

early :
    (step : ℕ) (last end : Day) (ds : List Day)
    → IsDay last
    → last.day ≤ 3
    → Covers step last end ds
    → Early ds
early step last end [] v h c = tt
early step last end (d ∷ ds) v h (e, later, within, w, c) =
    let same : d.day ≤ 3 = rw (e, add_months_early last step (omega arith)) h in
    (same, early step d end ds w same c)

-- Where the first month has fewer days than the start's day, no date of the schedule falls on the
-- start's day or at a month's end: each falls on one of the first three days of a month.
pub Covers-Early :
    (start end : Day) (step : ℕ) (ds : List Day)
    → IsDay start
    → days_in_month (start.year + (start.month + step) / 12) ((start.month + step) % 12) < start.day
    → Covers step start end ds
    → Early ds
Covers-Early start end step [] v over c = tt
Covers-Early start end step (d ∷ ds) v over (e, later, within, w, c) =
    let (lo, hi, moved) =
      add_months_over start step
        (omega (arith, v.last, days_in_month_bounds start.year start.month)) over in
    let first : d.day ≤ 3 = rw e hi in (first, early step d end ds w first c)

abbrev or_else : Option (List Day) → List Day → List Day
or_else none d = d
or_else (some a) d = a

-- The schedule that the loop makes is the one that covers.
made-Covers :
    (start end : Day) (f : Frequency) (ds : List Day)
    → IsDay start
    → IsDay end
    → generate_schedule_dates start end f ≡ some ds
    → Covers (frequency_months f) start end ds
made-Covers start end f ds v w made =
    let (es, same, covers) = generate_schedule_dates-Covers start end f v w in
    let e : es ≡ ds = ap (λ o. or_else o []) (sym same ∙ made) in
    subst (Covers (frequency_months f) start end) e covers

-- Between two dates of the calendar, from a start day of at most 28, the i-th date of the schedule
-- is i periods after the start, counted from the start at once, so on the start's day of the
-- month.
generate_schedule_dates-PeriodEnds :
    (start end : Day) (f : Frequency) (ds : List Day)
    → IsDay start
    → IsDay end
    → start.day ≤ 28
    → generate_schedule_dates start end f ≡ some ds
    → PeriodEnds start (frequency_months f) 1 ds
generate_schedule_dates-PeriodEnds start end f ds v w h made =
    Covers-PeriodEnds start end (frequency_months f) ds v h (made-Covers start end f ds v w made)

-- Between two dates of the calendar, where the month after the first period has fewer days than
-- the start's day, every date of the schedule falls on one of the first three days of a month.
pub generate_schedule_dates-Early :
    (start end : Day) (f : Frequency) (ds : List Day)
    → IsDay start
    → IsDay end
    → days_in_month
        (start.year + (start.month + frequency_months f) / 12)
        ((start.month + frequency_months f) % 12)
      < start.day
    → generate_schedule_dates start end f ≡ some ds
    → Early ds
generate_schedule_dates-Early start end f ds v w short made =
    Covers-Early start end (frequency_months f) ds v short (made-Covers start end f ds v w made)
