-- ===== src/Pricing/Dates/Laws.antt =====
-- Adding months to a date.
use irsforge.Base.{ℕ, suc, ◌+◌, ◌-◌, ◌*◌, ◌/◌, ◌%◌, ◌≤◌, ◌<◌, ◌≡◌, refl, arith}
use irsforge.Pricing.Dates.{Day, days_in_month, normalise, add_months, IsDay}

-- The months of a date, counted from the year 0.
abbrev pub month_index : Day → ℕ
month_index d = d.year * 12 + d.month

pub days_in_month_bounds : (y m : ℕ) → (28 ≤ days_in_month y m) × (days_in_month y m ≤ 31)
unfolding days_in_month
days_in_month_bounds y m = ground arith

december : (y : ℕ) → days_in_month y 11 ≡ 31
unfolding days_in_month
december y = refl

-- What `setMonth` makes of a day of at most 31: a date, in the month or the next.
pub normalise-IsDay : (y m d : ℕ) → m < 12 → 1 ≤ d → d ≤ 31 → IsDay (normalise y m d)
unfolding normalise
normalise-IsDay y m d h lo hi = ground (
  arith,
  days_in_month_bounds y m,
  days_in_month_bounds y (suc m),
  days_in_month_bounds (suc y) 0,
)

pub add_months-IsDay : (d : Day) (k : ℕ) → IsDay d → IsDay (add_months d k)
unfolding add_months
add_months-IsDay d k v =
    normalise-IsDay (d.year + (d.month + k) / 12) ((d.month + k) % 12) d.day (omega arith) v.first
      (omega (arith, v.last, days_in_month_bounds d.year d.month))

-- Months are added, or one more where the day runs over.
pub month_index-add_months :
    (d : Day) (k : ℕ)
    → (month_index d + k ≤ month_index (add_months d k))
      × (month_index (add_months d k) ≤ month_index d + k + 1)
unfolding add_months normalise
month_index-add_months d k = ground arith

-- A day that every month has stays, and months add up.
pub add_months_early :
    (d : Day) (k : ℕ)
    → d.day ≤ 28
    → add_months d k
      ≡ record { year = d.year + (d.month + k) / 12; month = (d.month + k) % 12; day = d.day }
unfolding add_months normalise
add_months_early d k h =
    ground (arith, days_in_month_bounds (d.year + (d.month + k) / 12) ((d.month + k) % 12))

pub add_months-add :
    (d : Day) (j k : ℕ)
    → d.month < 12
    → d.day ≤ 28
    → add_months (add_months d j) k ≡ add_months d (j + k)
add_months-add d j k v h =
    rw (add_months_early d j h, add_months_early d (j + k) h)
      (rw
        (add_months_early
          (record { year = d.year + (d.month + j) / 12; month = (d.month + j) % 12; day = d.day }) k
          h)
        (ground arith))

normalise_over :
    (y m d : ℕ)
    → m < 12
    → d ≤ 31
    → days_in_month y m < d
    → (normalise y m d ≡ record { year = y; month = suc m; day = d - days_in_month y m })
      × (1 ≤ d - days_in_month y m)
      × (d - days_in_month y m ≤ 3)
unfolding normalise
normalise_over y m d h hi over = ground (arith, days_in_month_bounds y m, december y)

-- A day that runs over lands on one of the first three days of the month after.
pub add_months_over :
    (d : Day) (k : ℕ)
    → d.day ≤ 31
    → days_in_month (d.year + (d.month + k) / 12) ((d.month + k) % 12) < d.day
    → (1 ≤ (add_months d k).day)
      × ((add_months d k).day ≤ 3)
      × (month_index (add_months d k) ≡ month_index d + k + 1)
unfolding add_months
add_months_over d k hi over =
    let (e, lo, up) =
      normalise_over (d.year + (d.month + k) / 12) ((d.month + k) % 12) d.day (omega arith) hi
        over in
    (rw e lo, rw e up, rw e (omega arith))
