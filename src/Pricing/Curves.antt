-- ===== src/Pricing/Curves.antt =====
-- shared-pricing/src/engine/curves.ts and strategies/resolve-projection.ts
use irsforge.Base.{
  ℕ, zero, suc, Option, none, some, List, [], ◌∷◌, Bool, true, false, ◌&&◌, String, ◌==◌,
  if◌then◌else◌,
}
use irsforge.Base.Int.{ℤ, pos, negsuc, ◌-ℤ◌, leb_ℤ}
use irsforge.Base.Dict.{Dict, lookup}
use irsforge.Pricing.Number.{Number, ◌⊕◌, ◌⊖◌, ◌⊗◌, ◌⊘◌, is_le, whole}
use irsforge.Pricing.Types.{
  Pillar, DiscountCurve, Interpolation, linear_zero, log_linear_df, CurveDayCount, curve_act_360,
  curve_act_365f, PricingContext,
}
pub mod Laws

abbrev divisor : CurveDayCount → ℕ
divisor curve_act_365f = 365
divisor curve_act_360 = 360

module _ {ℓ} {N : Type ℓ} where
  abbrev pub last_of : Pillar N → List (Pillar N) → Pillar N
  last_of p [] = p
  last_of p (q ∷ qs) = last_of q qs

  -- The loop over the pillars: what `between` says of the first two neighbours around `t`, or what
  -- `single` says of the last pillar.
  unfoldable pub scan :
      (single : Pillar N → N) (between : Pillar N → Pillar N → ℤ → N)
      → Pillar N
      → List (Pillar N)
      → ℤ
      → N
  scan single between p [] t = single p
  scan single between p (q ∷ qs) t =
      let rest = scan single between q qs t in
      if leb_ℤ p.tenor_days t && leb_ℤ t q.tenor_days then between p q t else rest

  -- The shape that `linearZero` and `logLinearDF` share: the ends, then the loop.
  unfoldable pub interpolate :
      (single : Pillar N → N) (between : Pillar N → Pillar N → ℤ → N) → N → List (Pillar N) → ℤ → N
  unfolding scan
  interpolate single between empty [] t = empty
  interpolate single between empty (p ∷ ps) t =
      if leb_ℤ t p.tenor_days
      then single p
      else if leb_ℤ (last_of p ps).tenor_days t
      then single (last_of p ps)
      else scan single between p ps t

module _ {ℓ} {N : Type ℓ} ⦃arithmetic : Number N⦄ where
  -- A whole number of days as a number.
  abbrev pub days_number : ℤ → N
  days_number n = arithmetic.ratio n 1

  -- `(tenorDays - a.tenorDays) / (b.tenorDays - a.tenorDays)`
  abbrev pub part_of : Pillar N → Pillar N → ℤ → N
  part_of a b t = days_number (t -ℤ a.tenor_days) ⊘ days_number (b.tenor_days -ℤ a.tenor_days)

  abbrev pub straight : Pillar N → Pillar N → ℤ → N
  straight a b t = a.zero_rate ⊕ part_of a b t ⊗ (b.zero_rate ⊖ a.zero_rate)

  unfoldable pub linear : List (Pillar N) → ℤ → N
  unfolding interpolate
  linear ps t = interpolate (λ p. p.zero_rate) straight (whole 0) ps t

  unfoldable pub pillar_df : Pillar N → N
  pillar_df p = whole 1 ⊘ (whole 1 ⊕ p.zero_rate ⊗ days_number p.tenor_days ⊘ whole 365)

  abbrev pub log_straight : Pillar N → Pillar N → ℤ → N
  log_straight a b t =
      let part = part_of a b t in
      arithmetic.exp
        ((whole 1 ⊖ part) ⊗ arithmetic.log (pillar_df a) ⊕ part ⊗ arithmetic.log (pillar_df b))

  unfoldable pub log_linear : List (Pillar N) → ℤ → N
  unfolding interpolate pillar_df
  log_linear ps t = interpolate pillar_df log_straight (whole 1) ps t

  unfoldable pub interpolate_zero : DiscountCurve N → ℤ → N
  unfolding linear log_linear
  interpolate_zero curve t = elim curve.interpolation [
    | linear_zero ↦ linear curve.pillars t
    | log_linear_df ↦
        if leb_ℤ t (pos 0)
        then whole 0
        else (whole 1 ⊘ log_linear curve.pillars t ⊖ whole 1) ⊘ arithmetic.ratio t 365
  ]

  unfoldable pub discount_factor : DiscountCurve N → ℤ → N
  unfolding linear log_linear
  discount_factor curve t = if leb_ℤ t (pos 0) then whole 1 else elim curve.interpolation [
    | log_linear_df ↦ log_linear curve.pillars t
    | linear_zero ↦
        whole 1 ⊘ (whole 1 ⊕ linear curve.pillars t ⊗ arithmetic.ratio t (divisor curve.day_count))
  ]

  abbrev first_value : Dict (DiscountCurve N) → DiscountCurve N → DiscountCurve N
  first_value [] fallback = fallback
  first_value ((id, c) ∷ rest) fallback = c

  -- `resolveProjection`; the empty index id is none.
  unfoldable pub resolve_projection : PricingContext N → String → String → DiscountCurve N
  unfolding lookup
  resolve_projection ctx currency index_id = elim ctx.book [
    | none ↦ ctx.curve
    | some book ↦ elim (lookup currency book.by_currency) [
      | none ↦ ctx.curve
      | some entry ↦ elim (if index_id == "" then none else lookup index_id entry.projections) [
        | some c ↦ c
        | none ↦ first_value entry.projections ctx.curve
      ]
    ]
  ]
