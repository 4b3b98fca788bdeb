-- ===== src/Pricing/Strategies.antt =====
-- shared-pricing/src/engine/strategies: what each swap type's strategy makes of a leg. The
-- `discountFactor` that some strategies note on a cashflow for display is left out.
use irsforge.Base.{
  ℕ, zero, suc, ◌+◌, ◌*◌, Option, none, some, List, [], ◌∷◌, ◌++◌, map, String, ◌==◌, Bool, true,
  false, leb, ltb, if◌then◌else◌,
}
use irsforge.Base.Int.{ℤ, pos, pos_part, ◌-ℤ◌}
use irsforge.Base.Dict.{Dict, lookup}
use irsforge.Pricing.Number.{Number, ◌⊕◌, ◌⊖◌, ◌⊗◌, ◌⊘◌, negative, is_lt, larger, fraction, whole}
use irsforge.Pricing.Dates.{Day}
use irsforge.Pricing.Types.{
  Platform, days_between, PeriodicSchedule, CashflowEntry, Pillar, DiscountCurve, CurrencyCurves,
  CurveBook, FloatingRateIndex, Underlying, FloatLeg, Leg, fixed, float, protection, asset_leg,
  fx_leg, SwapConfig, PricingContext, PricingError, no_book, no_curves, untagged_cashflows, Outcome,
  ok, threw, ◌>>=◌, or_else,
}
use irsforge.Pricing.DayCount.{year_fraction}
use irsforge.Pricing.Curves.{discount_factor, resolve_projection, last_of}
use irsforge.Pricing.Cashflows.{
  payment_dates, each_period, item, calc_fixed_cashflows, calc_float_cashflows,
  calc_compounded_cashflow,
}
pub mod Products

-- `PricingStrategy`: `calcLegCashflows` on a leg, its place and the trade when it is given, and
-- `calcLegPV`.
pub record Strategy (N : Type 0) : Type 0 where
  pub cashflows :
      Leg N → PricingContext N → ℕ → Option (SwapConfig N) → Outcome (List (CashflowEntry N))
  pub present_value : List (CashflowEntry N) → PricingContext N → Outcome N

abbrev pub day_ms : ℕ
day_ms = 86400000

module _ {N : Type 0} ⦃arithmetic : Number N⦄ ⦃platform : Platform⦄ where
  -- The loop of `calcLegPV`: cashflows up to the cutoff are skipped.
  unfoldable pub discounted : DiscountCurve N → ℕ → ℕ → N → List (CashflowEntry N) → N
  unfolding discount_factor
  discounted curve value_date cutoff sum [] = sum
  discounted curve value_date cutoff sum (cf ∷ cfs) =
      let paid = sum ⊕ cf.amount ⊗ discount_factor curve (days_between value_date cf.date) in
      discounted curve value_date cutoff (if leb cf.date cutoff then sum else paid) cfs

  -- `calcLegPV` with one discount curve.
  unfoldable pub pv_on : DiscountCurve N → List (CashflowEntry N) → PricingContext N → N
  unfolding discounted
  pv_on curve cfs ctx =
      let value_date = platform.parse curve.as_of in
      discounted curve value_date (or_else ctx.value_date value_date) (whole 0) cfs

  abbrev pub pv_on_context : List (CashflowEntry N) → PricingContext N → Outcome N
  pv_on_context cfs ctx = ok (pv_on ctx.curve cfs ctx)

  -- `ctx.book?.byCurrency[currency]`
  abbrev pub curves_of : PricingContext N → String → Option (CurrencyCurves N)
  curves_of ctx currency = elim ctx.book [
    | none ↦ none
    | some book ↦ lookup currency book.by_currency
  ]

  abbrev own_discount : PricingContext N → DiscountCurve N
  own_discount ctx = elim (curves_of ctx ctx.curve.currency) [
    | none ↦ ctx.curve
    | some entry ↦ entry.discount
  ]

  abbrev pv_on_book : List (CashflowEntry N) → PricingContext N → Outcome N
  pv_on_book cfs ctx = ok (pv_on (own_discount ctx) cfs ctx)

  -- One coupon that is compounded in arrears, with `extra` added to its amount.
  abbrev compounded_coupon :
      (extra : Day → Day → N → N)
      → DiscountCurve N
      → FloatingRateIndex N
      → FloatLeg N
      → PricingContext N
      → Day
      → Day
      → CashflowEntry N
  compounded_coupon extra curve index leg ctx start end =
      let amount = extra start end (
        calc_compounded_cashflow record {
          curve = curve;
          index = index;
          observations = ctx.observations;
          period_start = platform.time_of start;
          period_end = platform.time_of end;
          notional = leg.notional;
        }) in
      let yf = year_fraction start end leg.day_count in
      record {
        date = platform.time_of end;
        amount = amount;
        projected_rate = some (if is_lt (whole 0) yf then amount ⊘ leg.notional ⊘ yf else whole 0);
        currency = none;
      }

  abbrev pub float_leg :
      (extra : Day → Day → N → N)
      → DiscountCurve N
      → Option (FloatingRateIndex N)
      → FloatLeg N
      → PricingContext N
      → List (CashflowEntry N)
  float_leg extra curve none leg ctx =
      calc_float_cashflows curve leg.spread leg.notional leg.day_count leg.schedule
  float_leg extra curve (some index) leg ctx =
      each_period (compounded_coupon extra curve index leg ctx) leg.schedule.start_date
        (payment_dates leg.schedule)

  abbrev pub plain : Day → Day → N → N
  plain start end compounded = compounded

  -- `compounded + fl.spread * fl.notional * yf`
  abbrev pub spread_added : FloatLeg N → Day → Day → N → N
  spread_added leg start end compounded =
      compounded ⊕ leg.spread ⊗ leg.notional ⊗ year_fraction start end leg.day_count

  -- `IrsPricingStrategy.calcLegCashflows`
  unfoldable pub irs_cashflows : Leg N → PricingContext N → List (CashflowEntry N)
  unfolding calc_fixed_cashflows calc_float_cashflows calc_compounded_cashflow payment_dates
      resolve_projection year_fraction
  irs_cashflows (fixed leg) ctx =
      calc_fixed_cashflows leg.rate leg.notional leg.day_count leg.schedule
  irs_cashflows (float leg) ctx =
      float_leg plain (resolve_projection ctx leg.currency leg.index_id) ctx.index leg ctx
  irs_cashflows _ ctx = []

  unfoldable pub irs_strategy : Strategy N
  unfolding irs_cashflows pv_on
  irs_strategy = record {
    cashflows = λ leg ctx i config. ok (irs_cashflows leg ctx);
    present_value = pv_on_book;
  }

  -- `ctx.indicesByLeg?.[legIndex] ?? ctx.index`
  abbrev pub index_of_leg : PricingContext N → ℕ → Option (FloatingRateIndex N)
  index_of_leg ctx i = elim ctx.indices_by_leg [
    | none ↦ ctx.index
    | some indices ↦ elim (or_else (item i indices) none) [
      | none ↦ ctx.index
      | some index ↦ some index
    ]
  ]

  -- `BasisSwapPricingStrategy.calcLegCashflows`
  unfoldable pub basis_cashflows : Leg N → PricingContext N → ℕ → List (CashflowEntry N)
  unfolding calc_float_cashflows calc_compounded_cashflow payment_dates resolve_projection
      year_fraction
  basis_cashflows (float leg) ctx i =
      float_leg (spread_added leg) (resolve_projection ctx leg.currency leg.index_id)
        (index_of_leg ctx i) leg ctx
  basis_cashflows _ ctx i = []

  unfoldable pub basis_strategy : Strategy N
  unfolding basis_cashflows pv_on
  basis_strategy = record {
    cashflows = λ leg ctx i config. ok (basis_cashflows leg ctx i);
    present_value = pv_on_book;
  }
