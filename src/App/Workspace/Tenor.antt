-- ===== src/App/Workspace/Tenor.antt =====
-- Theorems on the tenors of the workspace.
use irsforge.Base.{
  ℕ, ◌+◌, ◌*◌, ◌≤◌, ◌<◌, ◌≡◌, ◌⊎◌, ap, ◌∙◌, arith, if◌then◌else◌, ltb, Bool-cases, inl, inr,
}
use irsforge.Base.Int.{ℤ, pos, pos_part, ◌+ℤ◌, ◌-ℤ◌, int_laws, sign_laws}
use irsforge.Pricing.Dates.{Day, IsDay, add_months, normalise, days_in_month}
use irsforge.Pricing.Dates.Laws.{
  month_index, days_in_month_bounds, normalise-IsDay, add_months-IsDay, add_months_early,
}
use irsforge.App.Workspace.Dates.{Tenor, add_tenor, compute_tenor}

-- What a shift by `n` months makes of a day: the same day of that month, or an earlier day of the
-- month after.
abbrev Shifted : Day → ℕ → Day → Type 0
Shifted d n r =
    ((r.day ≡ d.day) × (month_index r ≡ month_index d + n))
    ⊎ ((r.day < d.day) × (r.day ≤ 28) × (month_index r ≡ month_index d + n + 1))

normalise-Shifted :
    (d : Day) (years : ℕ)
    → d.month < 12
    → d.day ≤ 31
    → Shifted d (12 * years) (normalise (d.year + years) d.month d.day)
unfolding normalise days_in_month
normalise-Shifted d years h k = ground arith

add_months-Shifted :
    (d : Day) (months : ℕ) → d.month < 12 → d.day ≤ 31 → Shifted d months (add_months d months)
unfolding add_months normalise days_in_month
add_months-Shifted d months h k = ground arith

-- One after the other: the day runs over at most once.
Shifted-trans :
    (d e r : Day) (n m : ℕ)
    → Shifted d n e
    → Shifted e m r
    → (e.day ≤ 28 → (r.day ≡ e.day) × (month_index r ≡ month_index e + m))
    → Shifted d (n + m) r
Shifted-trans d e r n m first second early = ground arith

years_apart : (a b y : ℕ) → a ≡ b + y → pos a -ℤ pos b ≡ pos y
years_apart a b y h = omega int_laws

years_apart_borrowed : (a b y : ℕ) → a ≡ b + y + 1 → pos a -ℤ pos b -ℤ pos 1 ≡ pos y
years_apart_borrowed a b y h = omega int_laws

abbrev tenor_of : ℤ → ℕ → Tenor
tenor_of y m = record { years = y; months = m }

tenor_ext : (y z : ℤ) (m n : ℕ) → y ≡ z → m ≡ n → tenor_of y m ≡ tenor_of z n
tenor_ext y z m n p q = cc

sum_part : (a b : ℕ) → pos_part (pos a +ℤ pos b) ≡ a + b
sum_part a b = omega sign_laws

-- The tenor between a day and the day that it is shifted to, where `short` says whether the day of
-- the month comes before.
compute_tenor-short :
    (d r : Day) (short years months : ℕ)
    → (if ltb r.day d.day then 1 else 0) ≡ short
    → month_index r ≡ month_index d + (12 * years + months) + short
    → short ≤ 1
    → d.month < 12
    → r.month < 12
    → months < 12
    → compute_tenor d r ≡ record { years = pos years; months = months }
unfolding compute_tenor
compute_tenor-short d r short years months late apart at_most h k small =
    elim (Bool-cases (ltb r.month (d.month + short))) [
      | inl borrowed ↦
          let lt : r.month < d.month + short = ground arith in
          rw (late, borrowed)
            (tenor_ext _ _ _ _
              (years_apart_borrowed r.year d.year years
                (omega (arith, apart, lt, at_most, h, k, small)))
              (omega (arith, apart, lt, at_most, h, k, small)))
      | inr enough ↦
          let le : d.month + short ≤ r.month = ground arith in
          rw (late, enough)
            (tenor_ext _ _ _ _
              (years_apart r.year d.year years (omega (arith, apart, le, at_most, h, k, small)))
              (omega (arith, apart, le, at_most, h, k, small)))
    ]

compute_tenor-Shifted :
    (d r : Day) (years months : ℕ)
    → d.month < 12
    → r.month < 12
    → months < 12
    → Shifted d (12 * years + months) r
    → compute_tenor d r ≡ record { years = pos years; months = months }
compute_tenor-Shifted d r years months h k small (inl (same, apart)) =
    compute_tenor-short d r 0 years months (ground arith) (omega (arith, apart)) (omega arith) h k
      small
compute_tenor-Shifted d r years months h k small (inr (before, early, apart)) =
    compute_tenor-short d r 1 years months (ground arith) (omega (arith, apart)) (omega arith) h k
      small

-- The tenor that is added to a date, of any number of years and at most eleven months beside them,
-- is the tenor that is computed between the two dates, also where the day of the month runs over
-- into the next month.
pub compute_tenor-add_tenor :
    (d : Day) (years months : ℕ)
    → IsDay d
    → months < 12
    → compute_tenor d (add_tenor d (record { years = pos years; months = months }))
      ≡ record { years = pos years; months = months }
unfolding add_tenor
compute_tenor-add_tenor d years months v small =
    let last : d.day ≤ 31 = omega (arith, v.last, days_in_month_bounds d.year d.month) in
    let moved = normalise (d.year + years) d.month d.day in
    let e = normalise-IsDay (d.year + years) d.month d.day v.month_of_year v.first last in
    let moved_last : moved.day ≤ 31 =
      omega (arith, e.last, days_in_month_bounds moved.year moved.month) in
    let r = add_months moved months in
    let early : moved.day ≤ 28
        → (r.day ≡ moved.day) × (month_index r ≡ month_index moved + months) =
      λ h.
        let same = add_months_early moved months h in
        (ap (λ x. x.day) same, ap month_index same ∙ omega arith) in
    rw (sum_part d.year years) (
      compute_tenor-Shifted d r years months v.month_of_year
        (add_months-IsDay moved months e).month_of_year small
        (Shifted-trans d moved r (12 * years) months
          (normalise-Shifted d years v.month_of_year last)
          (add_months-Shifted moved months e.month_of_year moved_last) early))
