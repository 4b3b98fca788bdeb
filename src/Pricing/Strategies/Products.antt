-- ===== src/Pricing/Strategies/Products.antt =====
-- The strategies of the other products: credit, asset, currency and FX swaps, FpML imports, and
-- cross-currency swaps.
use irsforge.Base.{ℕ, ◌+◌, ◌*◌, Option, none, some, List, [], ◌∷◌, map, String, ◌==◌, if◌then◌else◌}
use irsforge.Base.Int.{ℤ, pos, pos_part, ◌-ℤ◌}
use irsforge.Base.Dict.{lookup}
use irsforge.Pricing.Number.{Number, ◌⊕◌, ◌⊖◌, ◌⊗◌, ◌⊘◌, negative, larger, fraction, whole}
use irsforge.Pricing.Types.{
  Platform, days_between, PeriodicSchedule, CashflowEntry, Pillar, Underlying, Leg, fixed, float,
  protection, asset_leg, fx_leg, SwapConfig, PricingContext, no_book, no_curves, untagged_cashflows,
  Outcome, ok, threw, ◌>>=◌, or_else,
}
use irsforge.Pricing.Curves.{resolve_projection, last_of}
use irsforge.Pricing.Cashflows.{
  payment_dates, sort_by, calc_fixed_cashflows, calc_float_cashflows, calc_compounded_cashflow,
}
use irsforge.Pricing.Strategies.{
  Strategy, day_ms, pv_on, pv_on_context, float_leg, plain, spread_added, index_of_leg,
  irs_cashflows, irs_strategy,
}

abbrev currency_of : Option String → Outcome String
currency_of none = threw untagged_cashflows
currency_of (some currency) = if currency == "" then threw untagged_cashflows else ok currency

module _ {N : Type 0} ⦃arithmetic : Number N⦄ ⦃platform : Platform⦄ where
  abbrev one_cashflow : ℕ → N → CashflowEntry N
  one_cashflow date amount = record {
    date = date;
    amount = amount;
    projected_rate = none;
    currency = none;
  }

  -- `ctx.creditSpread ?? DEFAULT_CREDIT_SPREAD`
  abbrev pub hazard_of : PricingContext N → N
  hazard_of ctx = or_else ctx.credit_spread (fraction 2 100)

  -- A coupon weighted with the probability of survival.
  abbrev surviving : PricingContext N → CashflowEntry N → CashflowEntry N
  surviving ctx cf =
      let days = days_between (platform.parse ctx.curve.as_of) cf.date in
      record {
        date = cf.date;
        amount = cf.amount ⊗ arithmetic.exp (negative (hazard_of ctx) ⊗ arithmetic.ratio days 365);
        projected_rate = cf.projected_rate;
        currency = cf.currency;
      }

  -- `config?.maturityDate`, or 365 days after the value date.
  abbrev maturity : PricingContext N → Option (SwapConfig N) → ℕ
  maturity ctx none = platform.parse ctx.curve.as_of + 365 * day_ms
  maturity ctx (some config) = config.maturity_date

  -- `CdsPricingStrategy.calcLegCashflows`
  unfoldable pub cds_cashflows :
      Leg N → PricingContext N → Option (SwapConfig N) → List (CashflowEntry N)
  unfolding calc_fixed_cashflows
  cds_cashflows (fixed leg) ctx config =
      map (surviving ctx) (calc_fixed_cashflows leg.rate leg.notional leg.day_count leg.schedule)
  cds_cashflows (protection leg) ctx config =
      let at = maturity ctx config in
      let years =
        larger (whole 0)
          (arithmetic.ratio (pos at -ℤ pos (platform.parse ctx.curve.as_of)) (365 * day_ms)) in
      let probability = whole 1 ⊖ arithmetic.exp (negative (hazard_of ctx) ⊗ years) in
      one_cashflow at (leg.notional ⊗ (whole 1 ⊖ leg.recovery_rate) ⊗ probability) ∷ []
  cds_cashflows _ ctx config = []

  -- The weighted return of the underlyings, from `acc` on.
  abbrev weighted_return : N → List (Underlying N) → N
  weighted_return acc [] = acc
  weighted_return acc (u ∷ us) =
      weighted_return (acc ⊕ u.weight ⊗ (u.current_price ⊖ u.initial_price) ⊘ u.initial_price) us

  abbrev last_tenor : List (Pillar N) → ℤ
  last_tenor [] = pos 365
  last_tenor (p ∷ ps) = (last_of p ps).tenor_days

  -- `AssetSwapPricingStrategy.calcLegCashflows`; the last tenor is at least 0.
  unfoldable pub asset_cashflows : Leg N → PricingContext N → List (CashflowEntry N)
  unfolding calc_fixed_cashflows calc_float_cashflows calc_compounded_cashflow payment_dates
  asset_cashflows (asset_leg leg) ctx =
      let at = platform.parse ctx.curve.as_of + pos_part (last_tenor ctx.curve.pillars) * day_ms in
      one_cashflow at (leg.notional ⊗ weighted_return (whole 0) leg.underlyings) ∷ []
  asset_cashflows (fixed leg) ctx =
      calc_fixed_cashflows leg.rate leg.notional leg.day_count leg.schedule
  asset_cashflows (float leg) ctx = float_leg plain ctx.curve ctx.index leg ctx
  asset_cashflows _ ctx = []

  -- `CcySwapPricingStrategy.calcLegCashflows`
  unfoldable pub ccy_cashflows : Leg N → List (CashflowEntry N)
  unfolding calc_fixed_cashflows
  ccy_cashflows (fixed leg) = calc_fixed_cashflows leg.rate leg.notional leg.day_count leg.schedule
  ccy_cashflows _ = []

  -- `FxSwapPricingStrategy.calcLegCashflows`
  unfoldable pub fx_cashflows : Leg N → List (CashflowEntry N)
  fx_cashflows (fx_leg leg) = one_cashflow leg.payment_date (leg.notional ⊗ leg.fx_rate) ∷ []
  fx_cashflows _ = []

  -- `FpmlPricingStrategy.calcLegCashflows`: the strategy of the leg's type.
  unfoldable pub fpml_cashflows :
      Leg N → PricingContext N → Option (SwapConfig N) → List (CashflowEntry N)
  unfolding irs_cashflows cds_cashflows fx_cashflows asset_cashflows
  fpml_cashflows (protection leg) ctx config = cds_cashflows (protection leg) ctx config
  fpml_cashflows (fx_leg leg) ctx config = fx_cashflows (fx_leg leg)
  fpml_cashflows (asset_leg leg) ctx config = asset_cashflows (asset_leg leg) ctx
  fpml_cashflows leg ctx config = irs_cashflows leg ctx

  unfoldable pub cds_strategy : Strategy N
  unfolding cds_cashflows pv_on
  cds_strategy = record {
    cashflows = λ leg ctx i config. ok (cds_cashflows leg ctx config);
    present_value = pv_on_context;
  }

  unfoldable pub asset_strategy : Strategy N
  unfolding asset_cashflows pv_on
  asset_strategy = record {
    cashflows = λ leg ctx i config. ok (asset_cashflows leg ctx);
    present_value = pv_on_context;
  }

  unfoldable pub ccy_strategy : Strategy N
  unfolding ccy_cashflows pv_on
  ccy_strategy = record {
    cashflows = λ leg ctx i config. ok (ccy_cashflows leg);
    present_value = pv_on_context;
  }

  unfoldable pub fx_strategy : Strategy N
  unfolding fx_cashflows pv_on
  fx_strategy = record {
    cashflows = λ leg ctx i config. ok (fx_cashflows leg);
    present_value = pv_on_context;
  }

  unfoldable pub fpml_strategy : Strategy N
  unfolding fpml_cashflows irs_strategy
  fpml_strategy = record {
    cashflows = λ leg ctx i config. ok (fpml_cashflows leg ctx config);
    present_value = irs_strategy.present_value;
  }

  -- `assertCcyInBook`
  abbrev assert_ccy_in_book : PricingContext N → String → Outcome {0} Unit
  assert_ccy_in_book ctx currency = elim ctx.book [
    | none ↦ threw no_book
    | some book ↦ elim (lookup currency book.by_currency) [
      | none ↦ threw (no_curves currency)
      | some c ↦ ok tt
    ]
  ]

  abbrev tagged : String → CashflowEntry N → CashflowEntry N
  tagged currency cf = record {
    date = cf.date;
    amount = cf.amount;
    projected_rate = cf.projected_rate;
    currency = some currency;
  }

  -- The two exchanges of the notional and the coupons, by date.
  abbrev exchanged : String → N → PeriodicSchedule → List (CashflowEntry N) → List (CashflowEntry N)
  exchanged currency notional schedule coupons =
      sort_by (λ cf. cf.date)
        (map (tagged currency) (
          one_cashflow (platform.time_of schedule.start_date) (negative notional)
          ∷ one_cashflow (platform.time_of schedule.end_date) notional
          ∷ coupons))

  -- `XccyFixedFloatPricingStrategy.calcLegCashflows`
  unfoldable pub xccy_cashflows : Leg N → PricingContext N → ℕ → Outcome (List (CashflowEntry N))
  unfolding calc_fixed_cashflows calc_float_cashflows calc_compounded_cashflow payment_dates
      resolve_projection
  xccy_cashflows (fixed leg) ctx i = assert_ccy_in_book ctx leg.currency >>= λ seeded. ok (
      exchanged leg.currency leg.notional leg.schedule
        (calc_fixed_cashflows leg.rate leg.notional leg.day_count leg.schedule))
  xccy_cashflows (float leg) ctx i = assert_ccy_in_book ctx leg.currency >>= λ seeded. ok (
      exchanged leg.currency leg.notional leg.schedule (
        float_leg (spread_added leg) (resolve_projection ctx leg.currency leg.index_id)
          (index_of_leg ctx i) leg ctx))
  xccy_cashflows _ ctx i = ok []

  -- `XccyFixedFloatPricingStrategy.calcLegPV`
  unfoldable pub xccy_pv : List (CashflowEntry N) → PricingContext N → Outcome N
  unfolding pv_on
  xccy_pv [] ctx = ok (whole 0)
  xccy_pv (cf ∷ cfs) ctx = elim ctx.book [
    | none ↦ threw no_book
    | some book ↦ currency_of cf.currency >>= λ currency. elim (lookup currency book.by_currency) [
      | none ↦ threw (no_curves currency)
      | some entry ↦ ok (pv_on entry.discount (cf ∷ cfs) ctx)
    ]
  ]

  unfoldable pub xccy_strategy : Strategy N
  unfolding xccy_cashflows xccy_pv
  xccy_strategy = record {
    cashflows = λ leg ctx i config. xccy_cashflows leg ctx i;
    present_value = xccy_pv;
  }
