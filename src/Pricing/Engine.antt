-- ===== src/Pricing/Engine.antt =====
-- The valuation of shared-pricing/src/engine/price.ts, fx.ts and bump-parallel.ts.
use irsforge.Base.{
  ℕ, zero, suc, Option, none, some, List, [], ◌∷◌, map, String, ◌==◌, Bool, true, false, not, ◌&&◌,
  eqb, if◌then◌else◌,
}
use Prim.Native.String.{◌++◌}
use irsforge.Base.Dict.{Dict, lookup}
use irsforge.Pricing.Number.{
  Number, ◌⊕◌, ◌⊖◌, ◌⊗◌, ◌⊘◌, negative, absolute, is_eq, is_lt, fraction, whole,
}
use irsforge.Pricing.Types.{
  Pillar, DiscountCurve, CurrencyCurves, CurveBook, FixedLeg, Leg, fixed, float, protection,
  asset_leg, fx_leg, Direction, pay, receive, SwapType, xccy, SwapConfig, PricingContext,
  PricingError, no_fx_spot, no_leg, Outcome, ok, threw, ◌>>=◌, or_else,
}
pub mod Price
pub mod Fold
pub mod Spread

-- `Object.fromEntries(Object.entries(m).map(([key, a]) => [key, f(a)]))`
abbrev pub map_value : {A : Type 0} {B : Type 0} → (A → B) → Dict A → Dict B
map_value f [] = []
map_value f ((key, a) ∷ rest) = (key, f a) ∷ map_value f rest

-- `config.type === 'XCCY'`
abbrev pub is_xccy : SwapType → Bool
is_xccy xccy = true
is_xccy _ = false

module _ {N : Type 0} where
  -- `legCurrency`; the other legs have none.
  unfoldable pub leg_currency : Leg N → Option String
  leg_currency (fixed leg) = some leg.currency
  leg_currency (float leg) = some leg.currency
  leg_currency (fx_leg leg) = some leg.base_currency
  leg_currency _ = none

  abbrev direction_of : Leg N → Direction
  direction_of (fixed leg) = leg.direction
  direction_of (float leg) = leg.direction
  direction_of (protection leg) = leg.direction
  direction_of (asset_leg leg) = leg.direction
  direction_of (fx_leg leg) = leg.direction

  abbrev pub notional_of : Leg N → N
  notional_of (fixed leg) = leg.notional
  notional_of (float leg) = leg.notional
  notional_of (protection leg) = leg.notional
  notional_of (asset_leg leg) = leg.notional
  notional_of (fx_leg leg) = leg.notional

  abbrev pub is_fixed : Leg N → Bool
  is_fixed (fixed leg) = true
  is_fixed _ = false

  -- `ctx.reportingCcy ?? legCurrency(config.legs[0]) ?? 'USD'`; without a leg the code throws.
  unfoldable pub reporting_currency : SwapConfig N → PricingContext N → Outcome String
  unfolding leg_currency
  reporting_currency config ctx = elim ctx.reporting_ccy [
    | some c ↦ ok c
    | none ↦ elim config.legs [
      | [] ↦ threw no_leg
      | leg ∷ legs ↦ ok (or_else (leg_currency leg) "USD")
    ]
  ]

  -- `{ ...ctx, curve, book }`
  abbrev pub with_curves :
      PricingContext N → DiscountCurve N → Option (CurveBook N) → PricingContext N
  with_curves ctx curve book = record {
    curve = curve;
    index = ctx.index;
    indices_by_leg = ctx.indices_by_leg;
    observations = ctx.observations;
    book = book;
    fx_spots = ctx.fx_spots;
    reporting_ccy = ctx.reporting_ccy;
    credit_spread = ctx.credit_spread;
    value_date = ctx.value_date;
  }

module _ {N : Type 0} ⦃arithmetic : Number N⦄ where
  -- Neither 0 nor NaN.
  abbrev pub is_truthy : N → Bool
  is_truthy a = not (is_eq a (whole 0)) && is_eq a a

  abbrev truthy : Option N → Option N
  truthy none = none
  truthy (some a) = if is_truthy a then some a else none

  -- `fxFactor`
  unfoldable pub fx_factor : String → String → Dict N → Outcome N
  unfolding lookup
  fx_factor from to spots =
      let inverse : Outcome N = elim (truthy (lookup (to ++ from) spots)) [
        | some rate ↦ ok (whole 1 ⊘ rate)
        | none ↦ threw (no_fx_spot from to)
      ] in
      let direct : Outcome N = elim (truthy (lookup (from ++ to) spots)) [
        | some rate ↦ ok rate
        | none ↦ inverse
      ] in
      if from == to then ok (whole 1) else direct

  abbrev pub directed : Leg N → N → N
  directed leg value = elim (direction_of leg) [
    | pay ↦ negative (whole 1) ⊗ value
    | receive ↦ whole 1 ⊗ value
  ]

  -- The end of the leg loops: the signed value, in the reporting currency for XCCY.
  unfoldable pub converted : SwapConfig N → PricingContext N → String → Leg N → N → Outcome N
  unfolding fx_factor leg_currency
  converted config ctx reporting leg pv_local =
      let translated =
        fx_factor (or_else (leg_currency leg) reporting) reporting (or_else ctx.fx_spots [])
        >>= λ factor. ok (directed leg pv_local ⊗ factor) in
      if is_xccy config.kind then translated else ok (directed leg pv_local)

  -- `shiftAllPillars`
  unfoldable pub shift_all_pillars : DiscountCurve N → N → DiscountCurve N
  shift_all_pillars c bp = record {
    currency = c.currency;
    curve_type = c.curve_type;
    index_id = c.index_id;
    as_of = c.as_of;
    pillars =
        map (λ p. record { tenor_days = p.tenor_days; zero_rate = p.zero_rate ⊕ bp }) c.pillars;
    interpolation = c.interpolation;
    day_count = c.day_count;
  }

  -- `shiftBookAll`
  unfoldable pub shift_book_all : CurveBook N → N → CurveBook N
  unfolding shift_all_pillars
  shift_book_all book bp = record {
    as_of = book.as_of;
    by_currency =
        map_value
          (λ pair. record {
            discount = shift_all_pillars pair.discount bp;
            projections = map_value (λ c. shift_all_pillars c bp) pair.projections;
          })
          book.by_currency;
  }

  unfoldable pub bump_parallel : PricingContext N → N → PricingContext N
  unfolding shift_all_pillars shift_book_all
  bump_parallel ctx bp =
      with_curves ctx (shift_all_pillars ctx.curve bp)
        (elim ctx.book [ none ↦ none | some book ↦ some (shift_book_all book bp) ])
