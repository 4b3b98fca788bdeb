-- ===== src/Pricing/Engine/Fold.antt =====
-- Theorems on the valuation of engine/price.ts and the fold that its risk figures reprice with.
use irsforge.Base.{ℕ, suc, ◌≡◌, refl, ◌∙◌, ap, List, [], ◌∷◌, String, some, arith}
use irsforge.Pricing.Number.{Number, ◌⊕◌, whole}
use irsforge.Pricing.Types.{
  Platform, CashflowEntry, Leg, SwapConfig, PricingContext, Outcome, ok, threw, ◌>>=◌,
}
use irsforge.Pricing.Engine.{reporting_currency, converted}
use irsforge.Pricing.Engine.Price.{
  ValuationResult, sum_from, strategy, fold_legs, leg_cashflows, leg_values, price_with_context,
  price, calc_risk_metrics,
}

-- A chain that gives a value has given one at its first step.
pub bind-ok {ℓ κ} :
    {A : Type ℓ} {B : Type κ} (a : Outcome A) (f : A → Outcome B) (b : B)
    → (a >>= f) ≡ ok b
    → (x : A) × (a ≡ ok x) × (f x ≡ ok b)
bind-ok (ok x) f b h = (x, refl, h)
bind-ok (threw e) f b h = absurd (ground arith)

pub ok_injective {ℓ} : {A : Type ℓ} (a b : A) → ok a ≡ ok b → a ≡ b
ok_injective a b h = ap (λ r. elim r [ ok x ↦ x | threw e ↦ a ]) h

module _ {N : Type 0} ⦃arithmetic : Number N⦄ ⦃platform : Platform⦄ where
  module _ (config : SwapConfig N) (ctx : PricingContext N) where
    fold_legs-leg_values :
        (reporting : String) (i : ℕ) (sum : N) (legs : List (Leg N))
        (cfss : List (List (CashflowEntry N))) (values : List N)
        → leg_cashflows config ctx i legs ≡ ok cfss
        → leg_values config ctx reporting legs cfss ≡ ok values
        → fold_legs config ctx reporting i sum legs ≡ ok (sum_from sum values)
    unfolding leg_cashflows leg_values fold_legs
    fold_legs-leg_values reporting i sum [] cfss values h k =
        let e = ok_injective [] values k in rw (← e) refl
    fold_legs-leg_values reporting i sum (leg ∷ legs) cfss values h k =
        let (cfs, made, h1) =
          bind-ok ((strategy config ctx).cashflows leg ctx i (some config)) _ cfss h in
        let (rest, made_rest, h2) = bind-ok (leg_cashflows config ctx (suc i) legs) _ cfss h1 in
        let k1 : leg_values config ctx reporting (leg ∷ legs) (cfs ∷ rest) ≡ ok values =
          ap (leg_values config ctx reporting (leg ∷ legs)) (ok_injective _ _ h2) ∙ k in
        let (pv_local, valued, k2) =
          bind-ok ((strategy config ctx).present_value cfs ctx) _ values k1 in
        let (value, signed, k3) =
          bind-ok (converted config ctx reporting leg pv_local) _ values k2 in
        let (others, valued_rest, k4) =
          bind-ok (leg_values config ctx reporting legs rest) _ values k3 in
        let tail =
          fold_legs-leg_values reporting (suc i) (sum ⊕ value) legs rest others made_rest
            valued_rest in
        rw (made, valued, signed, tail) (ap (λ vs. ok (sum_from sum vs)) (ok_injective _ _ k4))

  -- Whenever the valuation gives a result, the fold over the legs that the risk figures, the
  -- solvers and the sensitivities are computed with gives the same NPV, to the last bit.
  pub price-price_with_context :
      (config : SwapConfig N) (ctx : PricingContext N) (v : ValuationResult N)
      → price config ctx ≡ ok v
      → price_with_context config ctx ≡ ok v.npv
  unfolding price price_with_context
  price-price_with_context config ctx v h =
      let (reporting, named, h1) = bind-ok (reporting_currency config ctx) _ v h in
      let (cfss, made, h2) = bind-ok (leg_cashflows config ctx 0 config.legs) _ v h1 in
      let (values, valued, h3) =
        bind-ok (leg_values config ctx reporting config.legs cfss) _ v h2 in
      let (risk, measured, h4) =
        bind-ok (calc_risk_metrics config ctx (sum_from (whole 0) values)) _ v h3 in
      rw
        (
          named,
          fold_legs-leg_values config ctx reporting 0 (whole 0) config.legs cfss values made valued,
        )
        (ap (λ r. ok r.npv) (ok_injective _ _ h4))
