-- ===== src/Pricing/Engine/Price.antt =====
-- `getStrategy`, `priceWithContext`, `calcRiskMetrics` and `pricingEngine.price` of
-- shared-pricing/src/engine/price.ts.
use irsforge.Base.{ℕ, suc, Option, none, some, List, [], ◌∷◌, not, ◌&&◌, String, if◌then◌else◌}
use irsforge.Pricing.Number.{
  Number, ◌⊕◌, ◌⊖◌, ◌⊗◌, ◌⊘◌, negative, absolute, is_eq, is_lt, fraction, whole,
}
use irsforge.Pricing.Types.{
  Platform, CashflowEntry, Leg, fixed, SwapType, irs, ois, basis, xccy, cds, ccy, fx, asset, fpml,
  SwapConfig, PricingContext, Outcome, ok, ◌>>=◌, or_else,
}
use irsforge.Pricing.Strategies.{Strategy, irs_strategy, basis_strategy}
use irsforge.Pricing.Strategies.Products.{
  cds_strategy, asset_strategy, ccy_strategy, fx_strategy, fpml_strategy, xccy_strategy,
}
use irsforge.Pricing.Engine.{
  leg_currency, notional_of, is_fixed, is_truthy, is_xccy, reporting_currency, fx_factor, converted,
  bump_parallel,
}

pub record ValuationResult (N : Type 0) : Type 0 where
  pub npv : N
  pub leg_pvs : List N
  pub dv01 : N
  pub par_rate : Option N
  pub cashflows : List (List (CashflowEntry N))
  pub mod_duration : Option N
  pub convexity : Option N

pub record RiskMetrics (N : Type 0) : Type 0 where
  pub dv01 : N
  pub mod_duration : Option N
  pub convexity : Option N

module _ {N : Type 0} ⦃arithmetic : Number N⦄ where
  -- The legs' values, added from the left.
  abbrev pub sum_from : N → List N → N
  sum_from total [] = total
  sum_from total (v ∷ vs) = sum_from (total ⊕ v) vs

module _ {N : Type 0} ⦃arithmetic : Number N⦄ ⦃platform : Platform⦄ where
  -- The map `strategies`, behind `getStrategy`.
  unfoldable pub get_strategy : SwapType → Strategy N
  unfolding irs_strategy basis_strategy cds_strategy asset_strategy ccy_strategy fx_strategy
      fpml_strategy xccy_strategy
  get_strategy irs = irs_strategy
  get_strategy ois = irs_strategy
  get_strategy basis = basis_strategy
  get_strategy xccy = xccy_strategy
  get_strategy cds = cds_strategy
  get_strategy ccy = ccy_strategy
  get_strategy fx = fx_strategy
  get_strategy asset = asset_strategy
  get_strategy fpml = fpml_strategy

  module _ (config : SwapConfig N) (ctx : PricingContext N) where
    abbrev pub strategy : Strategy N
    strategy = get_strategy config.kind

    -- The loop of `priceWithContext` over the legs from the `i`th on.
    unfoldable pub fold_legs : String → ℕ → N → List (Leg N) → Outcome N
    unfolding get_strategy converted
    fold_legs reporting i sum [] = ok sum
    fold_legs reporting i sum (leg ∷ legs) = strategy.cashflows leg ctx i (some config) >>= λ cfs.
        strategy.present_value cfs ctx >>= λ pv_local.
        converted config ctx reporting leg pv_local >>= λ value.
        fold_legs reporting (suc i) (sum ⊕ value) legs

    -- `config.legs.map((leg, i) => strategy.calcLegCashflows(leg, ctx, i, config))`
    unfoldable pub leg_cashflows : ℕ → List (Leg N) → Outcome (List (List (CashflowEntry N)))
    unfolding get_strategy
    leg_cashflows i [] = ok []
    leg_cashflows i (leg ∷ legs) = strategy.cashflows leg ctx i (some config) >>= λ cfs.
        leg_cashflows (suc i) legs >>= λ rest. ok (cfs ∷ rest)

    -- The map from cashflows to `legPVs`; `legs` are those of the cashflows.
    unfoldable pub leg_values :
        String → List (Leg N) → List (List (CashflowEntry N)) → Outcome (List N)
    unfolding get_strategy converted
    leg_values reporting (leg ∷ legs) (cfs ∷ rest) = strategy.present_value cfs ctx >>= λ pv_local.
        converted config ctx reporting leg pv_local >>= λ value.
        leg_values reporting legs rest >>= λ values. ok (value ∷ values)
    leg_values reporting _ _ = ok []

  unfoldable pub price_with_context : SwapConfig N → PricingContext N → Outcome N
  unfolding fold_legs reporting_currency
  price_with_context config ctx = reporting_currency config ctx >>= λ reporting.
      fold_legs config ctx reporting 0 (whole 0) config.legs

  -- The first fixed leg, or the first leg with a notional above 0.
  abbrev first_fixed : List (Leg N) → Option (Leg N)
  first_fixed [] = none
  first_fixed (leg ∷ legs) = let rest = first_fixed legs in if is_fixed leg then some leg else rest

  abbrev first_positive : List (Leg N) → Option (Leg N)
  first_positive [] = none
  first_positive (leg ∷ legs) =
      let rest = first_positive legs in if is_lt (whole 0) (notional_of leg) then some leg else rest

  abbrev reference_leg : List (Leg N) → Option (Leg N)
  reference_leg legs = elim (first_fixed legs) [ some leg ↦ some leg | none ↦ first_positive legs ]

  unfoldable pub reference_notional : SwapConfig N → PricingContext N → Outcome N
  unfolding fx_factor leg_currency
  reference_notional config ctx = elim (reference_leg config.legs) [
    | none ↦ ok (whole 0)
    | some leg ↦
        let reporting = or_else ctx.reporting_ccy (or_else (leg_currency leg) "USD") in
        let translated =
          fx_factor (or_else (leg_currency leg) reporting) reporting (or_else ctx.fx_spots [])
          >>= λ factor. ok (absolute (notional_of leg) ⊗ factor) in
        if is_xccy config.kind then translated else ok (absolute (notional_of leg))
  ]

  abbrev pub basis_point : N
  basis_point = fraction 1 10000

  unfoldable pub calc_risk_metrics : SwapConfig N → PricingContext N → N → Outcome (RiskMetrics N)
  unfolding price_with_context bump_parallel reference_notional
  calc_risk_metrics config ctx npv =
      price_with_context config (bump_parallel ctx basis_point) >>= λ up.
      price_with_context config (bump_parallel ctx (negative basis_point)) >>= λ down.
      reference_notional config ctx >>= λ ref. ok record {
        dv01 = absolute (up ⊖ down) ⊘ whole 2;
        mod_duration =
            if is_lt (whole 0) ref
            then some (negative ((up ⊖ down) ⊘ (whole 2 ⊗ basis_point)) ⊘ ref)
            else none;
        convexity =
            if is_lt (whole 0) ref
            then some ((up ⊕ down ⊖ whole 2 ⊗ npv) ⊘ (ref ⊗ basis_point ⊗ basis_point))
            else none;
      }

  -- `-otherPVSum / signedFixedAnnuity` for the first fixed leg. `others` is the sum of the values
  -- before it.
  unfoldable pub par_rate_from : N → List (Leg N) → List N → Option N
  par_rate_from others (fixed leg ∷ legs) (value ∷ values) =
      let annuity = value ⊘ leg.rate in
      if is_truthy leg.rate && not (is_eq annuity (whole 0))
      then some (negative (sum_from others values) ⊘ annuity)
      else none
  par_rate_from others (leg ∷ legs) (value ∷ values) = par_rate_from (others ⊕ value) legs values
  par_rate_from others _ _ = none

  -- `pricingEngine.price`
  unfoldable pub price : SwapConfig N → PricingContext N → Outcome (ValuationResult N)
  unfolding reporting_currency leg_cashflows leg_values calc_risk_metrics par_rate_from
  price config ctx = reporting_currency config ctx >>= λ reporting.
      leg_cashflows config ctx 0 config.legs >>= λ cashflows.
      leg_values config ctx reporting config.legs cashflows >>= λ values.
      calc_risk_metrics config ctx (sum_from (whole 0) values) >>= λ risk. ok record {
        npv = sum_from (whole 0) values;
        leg_pvs = values;
        dv01 = risk.dv01;
        par_rate = par_rate_from (whole 0) config.legs values;
        cashflows = cashflows;
        mod_duration = risk.mod_duration;
        convexity = risk.convexity;
      }
