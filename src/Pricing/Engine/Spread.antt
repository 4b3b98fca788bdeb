-- ===== src/Pricing/Engine/Spread.antt =====
-- Theorems on the spread of a compounded float leg in engine/price.ts and strategies/irs.ts.
use irsforge.Base.{
  ℕ, suc, ◌≡◌, refl, ap, ◌∙◌, ◌⊎◌, inl, inr, none, some, List, [], ◌∷◌, map, String, arith,
}
use mathlib.Core.Path.{fun_ext}
use irsforge.Pricing.Number.{Number, ◌⊕◌, whole}
use irsforge.Pricing.Types.{
  Platform, FloatingRateIndex, Leg, fixed, float, protection, asset_leg, fx_leg, SwapType, irs, ois,
  SwapConfig, PricingContext, Outcome, ok, ◌>>=◌, or_else,
}
use irsforge.Pricing.Strategies.{irs_cashflows}
use irsforge.Pricing.Engine.{leg_currency, reporting_currency, converted}
use irsforge.Pricing.Engine.Price.{get_strategy, strategy, fold_legs, price_with_context}

module _ {N : Type 0} where
  -- The leg with its spread set to `s`, when it is a float leg.
  abbrev pub with_spread : N → Leg N → Leg N
  with_spread s (float leg) = float record leg { spread = s }
  with_spread s leg = leg

  abbrev pub with_spreads : N → SwapConfig N → SwapConfig N
  with_spreads s config = record config { legs = map (with_spread s) config.legs }

module _ {N : Type 0} ⦃arithmetic : Number N⦄ ⦃platform : Platform⦄ where
  irs_cashflows-with_spread :
      (s : N) (leg : Leg N) (ctx : PricingContext N) (index : FloatingRateIndex N)
      → ctx.index ≡ some index
      → irs_cashflows (with_spread s leg) ctx ≡ irs_cashflows leg ctx
  unfolding irs_cashflows
  irs_cashflows-with_spread s (fixed leg) ctx index h = refl
  irs_cashflows-with_spread s (float leg) ctx index h = rw h refl
  irs_cashflows-with_spread s (protection leg) ctx index h = refl
  irs_cashflows-with_spread s (asset_leg leg) ctx index h = refl
  irs_cashflows-with_spread s (fx_leg leg) ctx index h = refl

  converted-with_spread :
      (s : N) (config : SwapConfig N) (ctx : PricingContext N) (reporting : String) (leg : Leg N)
      (pv : N)
      → converted (with_spreads s config) ctx reporting (with_spread s leg) pv
        ≡ converted config ctx reporting leg pv
  unfolding converted leg_currency
  converted-with_spread s config ctx reporting leg pv = ground arith

  module _ (s : N) (config : SwapConfig N) (ctx : PricingContext N)
      (index : FloatingRateIndex N) where
    abbrev changed : SwapConfig N
    changed = with_spreads s config

    cashflows-with_spread :
        (config.kind ≡ irs) ⊎ (config.kind ≡ ois)
        → ctx.index ≡ some index
        → (leg : Leg N) (i : ℕ)
        → (strategy config ctx).cashflows (with_spread s leg) ctx i (some changed)
          ≡ (strategy config ctx).cashflows leg ctx i (some config)
    unfolding get_strategy
    cashflows-with_spread (inl an_irs) h leg i =
        rw an_irs (ap ok (irs_cashflows-with_spread s leg ctx index h))
    cashflows-with_spread (inr an_ois) h leg i =
        rw an_ois (ap ok (irs_cashflows-with_spread s leg ctx index h))

    fold_legs-with_spread :
        (config.kind ≡ irs) ⊎ (config.kind ≡ ois)
        → ctx.index ≡ some index
        → (reporting : String) (i : ℕ) (sum : N) (legs : List (Leg N))
        → fold_legs changed ctx reporting i sum (map (with_spread s) legs)
          ≡ fold_legs config ctx reporting i sum legs
    unfolding fold_legs
    fold_legs-with_spread k h reporting i sum [] = refl
    fold_legs-with_spread k h reporting i sum (leg ∷ legs) =
        let rest' : N → Outcome N = λ value.
          fold_legs changed ctx reporting (suc i) (sum ⊕ value) (map (with_spread s) legs) in
        ap
          (λ made. made >>= λ cfs. (strategy config ctx).present_value cfs ctx >>= λ v.
            converted changed ctx reporting (with_spread s leg) v >>= rest')
          (cashflows-with_spread k h leg i)
        ∙ ap (λ go. (strategy config ctx).cashflows leg ctx i (some config) >>= go)
            (fun_ext (λ cfs.
              ap (λ go. (strategy config ctx).present_value cfs ctx >>= go)
                (fun_ext (λ v.
                  ap (λ c. c >>= rest') (converted-with_spread s config ctx reporting leg v)
                  ∙ ap (λ go. converted config ctx reporting leg v >>= go)
                      (fun_ext (λ value.
                        fold_legs-with_spread k h reporting (suc i) (sum ⊕ value) legs))))))

  leg_currency-with_spread :
      (s : N) (leg : Leg N) → leg_currency (with_spread s leg) ≡ leg_currency leg
  unfolding leg_currency
  leg_currency-with_spread s leg = ground arith

  reporting_currency-with_spread :
      (s : N) (kind : SwapType) (legs : List (Leg N)) (maturity : ℕ) (ctx : PricingContext N)
      → reporting_currency
          record { kind = kind; legs = map (with_spread s) legs; maturity_date = maturity }
          ctx
        ≡ reporting_currency record { kind = kind; legs = legs; maturity_date = maturity } ctx
  unfolding reporting_currency
  reporting_currency-with_spread s kind [] maturity ctx = refl
  reporting_currency-with_spread s kind (leg ∷ legs) maturity ctx =
      ap (λ c. elim ctx.reporting_ccy [ some r ↦ ok r | none ↦ ok (or_else c "USD") ])
        (leg_currency-with_spread s leg)

  -- The value of an interest rate or overnight index swap in a context with an index does not
  -- depend on the spreads of its float legs: setting them all to any number does not change it.
  pub price_with_context-with_spread :
      (s : N) (config : SwapConfig N) (ctx : PricingContext N) (index : FloatingRateIndex N)
      → (config.kind ≡ irs) ⊎ (config.kind ≡ ois)
      → ctx.index ≡ some index
      → price_with_context (with_spreads s config) ctx ≡ price_with_context config ctx
  unfolding price_with_context
  price_with_context-with_spread s config ctx index k h =
      ap
        (λ r. r >>= λ reporting.
          fold_legs (with_spreads s config) ctx reporting 0 (whole 0)
            (map (with_spread s) config.legs))
        (reporting_currency-with_spread s config.kind config.legs config.maturity_date ctx)
      ∙ ap (λ go. reporting_currency config ctx >>= go)
          (fun_ext (λ reporting.
            fold_legs-with_spread s config ctx index k h reporting 0 (whole 0) config.legs))
