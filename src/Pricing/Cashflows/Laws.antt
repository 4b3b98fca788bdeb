-- ===== src/Pricing/Cashflows/Laws.antt =====
-- Theorems on the compounded coupon of engine/cashflows.ts.
use irsforge.Base.{
  ℕ, zero, suc, ◌-◌, ◌≤◌, ◌<◌, ◌≡◌, refl, ap, inl, inr, List, [], ◌∷◌, false, Bool-cases, ltb, leb,
  leb-le, max, arith, length, Option,
}
use irsforge.Pricing.Number.{Number, ◌⊖◌, ◌⊗◌, whole}
use irsforge.Pricing.Types.{Platform, DiscountCurve, RateObservation, day_count_basis_for_family}
use irsforge.Pricing.Cashflows.{
  CompoundedInput, sort_by, item, slice, first_after, date_of, tail_start, with_tail, compound,
  calc_compounded_cashflow,
}

module _ {N : Type 0} where
  first_after-length : (t : ℕ) (os : List (RateObservation N)) → first_after t os ≤ length os
  first_after-length t [] = omega arith
  first_after-length t (o ∷ os) = elim (Bool-cases (leb t o.date)) [
    | inl reached ↦ rw reached (omega arith)
    | inr early ↦ rw early (omega (arith, first_after-length t os))
  ]

  -- The observation that `first_after` finds is not before the time; without one, the time is.
  first_after-date :
      (t : ℕ) (os : List (RateObservation N)) → t ≤ date_of (item (first_after t os) os) t
  first_after-date t [] = omega arith
  first_after-date t (o ∷ os) = elim (Bool-cases (leb t o.date)) [
    | inl reached ↦ rw reached (leb-le t o.date reached)
    | inr early ↦ rw early (first_after-date t os)
  ]

  tail_start-slice :
      (from to : ℕ) (os : List (RateObservation N)) (following : Option (RateObservation N))
      (start end : ℕ)
      → from < to
      → to ≤ length os
      → tail_start (slice from to os) following start end ≡ date_of following end
  tail_start-slice from zero os following start end h k = absurd (omega arith)
  tail_start-slice from (suc to) [] following start end h k = absurd (omega arith)
  tail_start-slice zero (suc to) (o ∷ os) following start end h k = refl
  tail_start-slice (suc from) (suc to) (o ∷ os) following start end h k =
      tail_start-slice from to os following start end (omega arith) (omega arith)

module _ {N : Type 0} ⦃arithmetic : Number N⦄ ⦃platform : Platform⦄ where
  with_tail_none :
      (curve : DiscountCurve N) (basis end start : ℕ) (accrual : N)
      → end ≤ start
      → with_tail curve basis end start accrual ≡ accrual
  with_tail_none curve basis end start accrual h =
      let late : ltb start end ≡ false = ground arith in rw late refl

  -- With lookback 0 and an observation within the period, a compounded coupon is that of the
  -- observations alone: no part of the period is projected on the curve, also when the last
  -- observation is long before the period's end.
  pub calc_compounded_cashflow_observed :
      (input : CompoundedInput N)
      → input.index.lookback ≡ 0
      → first_after input.period_start (sort_by (λ o. o.date) input.observations)
        < first_after input.period_end (sort_by (λ o. o.date) input.observations)
      → calc_compounded_cashflow input
        ≡ input.notional
          ⊗ (compound input.index.floor
                (day_count_basis_for_family input.index.family)
                input.period_end
                (whole 1)
                (slice
                  (first_after input.period_start (sort_by (λ o. o.date) input.observations))
                  (first_after input.period_end (sort_by (λ o. o.date) input.observations))
                  (sort_by (λ o. o.date) input.observations))
              ⊖ whole 1)
  unfolding calc_compounded_cashflow
  calc_compounded_cashflow_observed input no_lookback inside =
      let sorted = sort_by (λ o. o.date) input.observations in
      let s = first_after input.period_start sorted in
      let e = first_after input.period_end sorted in
      let from : s - 0 ≡ s = omega arith in
      let to : max s (e - 0) ≡ e = omega arith in
      let start =
        tail_start-slice s e sorted (item e sorted) input.period_start input.period_end inside
          (first_after-length input.period_end sorted) in
      rw (no_lookback, from, to, start)
        (ap (λ a. input.notional ⊗ (a ⊖ whole 1))
          (with_tail_none input.curve _ input.period_end (date_of (item e sorted) input.period_end)
            _ (first_after-date input.period_end sorted)))
