-- ===== src/Pricing/Schedule/Laws.antt =====
-- Theorems on `generateScheduleDates` of engine/cashflows.ts.
use irsforge.Base.{
  ℕ, zero, suc, ◌+◌, ◌≤◌, ◌<◌, ◌≡◌, refl, some, List, [], ◌∷◌, leb, arith, Bool-cases, leb-le,
  leb-gt, inl, inr,
}
use irsforge.Pricing.Dates.{Day, add_months, key, IsDay}
use irsforge.Pricing.Dates.Laws.{
  month_index, days_in_month_bounds, month_index-add_months, add_months-IsDay,
}
use irsforge.Pricing.Schedule.{
  Frequency, monthly, quarterly, semi_annual, annual, frequency_months, dates_from,
  generate_schedule_dates,
}

pub frequency_months_pos : (f : Frequency) → 1 ≤ frequency_months f
unfolding frequency_months
frequency_months_pos monthly = omega arith
frequency_months_pos quarterly = omega arith
frequency_months_pos semi_annual = omega arith
frequency_months_pos annual = omega arith

-- What a schedule is: its dates rise from after `last`, none is after `end`, and the date that
-- would follow the last one is after it.
abbrev pub Covers : ℕ → Day → Day → List Day → Type 0
Covers step last end [] = key end < key (add_months last step)
Covers step last end (d ∷ ds) =
    (d ≡ add_months last step)
    × (key last < key d)
    × (key d ≤ key end)
    × IsDay d
    × Covers step d end ds

day_small : (d : Day) → IsDay d → d.day ≤ 31
day_small d v = omega (arith, v.last, days_in_month_bounds d.year d.month)

key-add_months : (d : Day) (k : ℕ) → IsDay d → 1 ≤ k → key d < key (add_months d k)
key-add_months d k v h =
    let w = add_months-IsDay d k v in
    omega (arith, month_index-add_months d k, day_small d v, w.first)

dates_from-Covers :
    (fuel step : ℕ) (last end : Day)
    → 1 ≤ step
    → IsDay last
    → IsDay end
    → 1 ≤ fuel
    → month_index end < fuel + month_index last
    → (ds : List Day) × (dates_from fuel (add_months last step) end step ≡ some ds)
      × Covers step last end ds
unfolding dates_from
dates_from-Covers zero step last end h v w some_fuel enough = absurd (omega arith)
dates_from-Covers (suc fuel) step last end h v w some_fuel enough =
    let current = add_months last step in
    let later = key-add_months last step v h in
    let vc = add_months-IsDay last step v in
    let moved = month_index-add_months last step in
    elim (Bool-cases (leb (key current) (key end))) [
      | inr over ↦ ([], rw over refl, leb-gt (key current) (key end) over)
      | inl within ↦
          let reaches : key current ≤ key end = leb-le (key current) (key end) within in
          let before : month_index current ≤ month_index end =
            omega (arith, reaches, w.last, days_in_month_bounds end.year end.month, vc.first) in
          let (ds, made, covers) =
            dates_from-Covers fuel step current end h vc w (omega (arith, moved, before, enough))
              (omega (arith, moved, enough)) in
          (current ∷ ds, rw (within, made) refl, (refl, later, reaches, vc, covers))
    ]

-- For any two dates the loop ends. The dates are each a step after the one before, from the start
-- on; they rise, and none is after the end; and the next step after the last of them is after the
-- end.
pub generate_schedule_dates-Covers :
    (start end : Day) (f : Frequency)
    → IsDay start
    → IsDay end
    → (ds : List Day) × (generate_schedule_dates start end f ≡ some ds)
      × Covers (frequency_months f) start end ds
unfolding generate_schedule_dates
generate_schedule_dates-Covers start end f v w =
    dates_from-Covers (suc (suc (month_index end))) (frequency_months f) start end
      (frequency_months_pos f) v w (omega arith) (omega arith)
