-- ===== src/Pricing/Horizon/Direction.antt =====
-- Theorems on the direction of the legs in the carry of risk/time.ts.
use irsforge.Base.{
  ℕ, suc, ◌≡◌, refl, ap, ◌∙◌, Option, none, some, List, [], ◌∷◌, map, String, arith, ltb, leb, ◌||◌,
  ◌==◌, if◌then◌else◌,
}
use mathlib.Core.Path.{fun_ext}
use irsforge.Pricing.Number.{Number, whole, ◌⊕◌, ◌⊗◌}
use irsforge.Pricing.Types.{
  Platform, Direction, pay, receive, Leg, fixed, float, protection, asset_leg, fx_leg, SwapType,
  SwapConfig, PricingContext, CashflowEntry, or_else, no_event, Outcome, ok, threw, ◌>>=◌,
}
use irsforge.Pricing.Engine.{reporting_currency, leg_currency, fx_factor}
use irsforge.Pricing.Engine.Price.{get_strategy}
use irsforge.Pricing.Horizon.{
  Horizon, to_timestamp, delta_seconds, to_next_event, Event, fixing, payment, candidates,
  candidates_of, next_event, earliest_of, carry, cashflows_between, add_between, resolve_horizon,
  legs_between,
}

abbrev opposite : Direction → Direction
opposite pay = receive
opposite receive = pay

module _ {N : Type 0} where
  -- The same leg in the other direction.
  abbrev pub turned : Leg N → Leg N
  turned (fixed leg) = fixed record leg { direction = opposite leg.direction }
  turned (float leg) = float record leg { direction = opposite leg.direction }
  turned (protection leg) = protection record leg { direction = opposite leg.direction }
  turned (asset_leg leg) = asset_leg record leg { direction = opposite leg.direction }
  turned (fx_leg leg) = fx_leg record leg { direction = opposite leg.direction }

  abbrev pub other_side : SwapConfig N → SwapConfig N
  other_side config = record config { legs = map turned config.legs }

module _ {N : Type 0} ⦃arithmetic : Number N⦄ ⦃platform : Platform⦄ where
  cashflows_turned :
      (kind : SwapType) (leg : Leg N) (ctx : PricingContext N) (i : ℕ)
      → (get_strategy kind).cashflows (turned leg) ctx i none
        ≡ (get_strategy kind).cashflows leg ctx i none
  unfolding get_strategy
  cashflows_turned kind leg ctx i = ground arith

  leg_currency-turned : (leg : Leg N) → leg_currency (turned leg) ≡ leg_currency leg
  unfolding leg_currency
  leg_currency-turned leg = ground arith

  module _ (config : SwapConfig N) (ctx : PricingContext N) (reporting : String) (t0 t1 : ℕ) where
    -- One step of the inner loop, over what the rest of it does with a total.
    abbrev one_step : Option String → N → CashflowEntry N → (N → Outcome N) → Outcome N
    one_step own total cf rest =
        let from = or_else cf.currency (or_else own reporting) in
        let other = fx_factor from reporting (or_else ctx.fx_spots []) >>= λ factor.
        rest (total ⊕ cf.amount ⊗ factor) in
        if leb cf.date t0 || ltb t1 cf.date
        then rest total
        else if from == reporting
        then rest (total ⊕ cf.amount)
        else other

    add_between-turned :
        (leg : Leg N) (total : N) (cfs : List (CashflowEntry N))
        → add_between config ctx reporting (turned leg) t0 t1 total cfs
          ≡ add_between config ctx reporting leg t0 t1 total cfs
    unfolding add_between
    add_between-turned leg total [] = refl
    add_between-turned leg total (cf ∷ cfs) =
        ap
          (λ own.
            one_step own total cf (λ t. add_between config ctx reporting (turned leg) t0 t1 t cfs))
          (leg_currency-turned leg)
        ∙ ap (one_step (leg_currency leg) total cf) (fun_ext (λ t. add_between-turned leg t cfs))

    legs_between-turned :
        (i : ℕ) (total : N) (legs : List (Leg N))
        → legs_between config ctx reporting t0 t1 i total (map turned legs)
          ≡ legs_between config ctx reporting t0 t1 i total legs
    legs_between-turned i total [] = refl
    legs_between-turned i total (leg ∷ legs) = rw (cashflows_turned config.kind leg ctx i) (
        ap (λ rest. (get_strategy config.kind).cashflows leg ctx i none >>= rest)
          (fun_ext (λ cfs. rw (add_between-turned leg total cfs) (
            ap (λ rest. add_between config ctx reporting leg t0 t1 total cfs >>= rest)
              (fun_ext (λ sum. legs_between-turned (suc i) sum legs))))))

  candidates-turned :
      (event : Event) (t0 : ℕ) (legs : List (Leg N))
      → candidates event t0 (map turned legs) ≡ candidates event t0 legs
  unfolding candidates candidates_of
  candidates-turned event t0 [] = refl
  candidates-turned event t0 (leg ∷ legs) =
      let same : candidates_of event t0 (turned leg) ≡ candidates_of event t0 leg = ground arith in
      rw (same, candidates-turned event t0 legs) refl

  next_event-turned :
      (event : Event) (t0 : ℕ) (legs : List (Leg N))
      → next_event event t0 (map turned legs) ≡ next_event event t0 legs
  unfolding next_event
  next_event-turned payment t0 legs = ap earliest_of (candidates-turned payment t0 legs)
  next_event-turned fixing t0 legs =
      ap
        (λ c. elim (earliest_of c) [
          | some t ↦ some t
          | none ↦ earliest_of (candidates payment t0 (map turned legs))
        ])
        (candidates-turned fixing t0 legs)
      ∙ ap
          (λ c. elim (earliest_of (candidates fixing t0 legs)) [
            | some t ↦ some t
            | none ↦ earliest_of c
          ])
          (candidates-turned payment t0 legs)

  reporting_currency-turned :
      (kind : SwapType) (legs : List (Leg N)) (maturity : ℕ) (ctx : PricingContext N)
      → reporting_currency
          record { kind = kind; legs = map turned legs; maturity_date = maturity }
          ctx
        ≡ reporting_currency record { kind = kind; legs = legs; maturity_date = maturity } ctx
  unfolding reporting_currency
  reporting_currency-turned kind [] maturity ctx = refl
  reporting_currency-turned kind (leg ∷ legs) maturity ctx =
      ap (λ c. elim ctx.reporting_ccy [ some s ↦ ok s | none ↦ ok (or_else c "USD") ])
        (leg_currency-turned leg)

  resolve_horizon-turned :
      (config : SwapConfig N) (ctx : PricingContext N) (h : Horizon)
      → resolve_horizon (other_side config) ctx h ≡ resolve_horizon config ctx h
  unfolding resolve_horizon
  resolve_horizon-turned config ctx (to_timestamp as_of) = refl
  resolve_horizon-turned config ctx (delta_seconds seconds) = refl
  resolve_horizon-turned config ctx (to_next_event event) =
      ap (λ n. elim n [ none ↦ threw no_event | some t ↦ ok (platform.to_iso t) ])
        (next_event-turned event (platform.parse ctx.curve.as_of) config.legs)

  -- The carry of a swap is the same for both of its sides: turning every leg's direction round, so
  -- that each payment is received and each receipt is paid, does not change it.
  pub carry-turned :
      (config : SwapConfig N) (ctx : PricingContext N) (h : Horizon)
      → carry (other_side config) ctx h ≡ carry config ctx h
  unfolding carry cashflows_between
  carry-turned config ctx h =
      let t0 = platform.parse ctx.curve.as_of in
      rw
        (
          resolve_horizon-turned config ctx h,
          reporting_currency-turned config.kind config.legs config.maturity_date ctx,
        )
        (ap (λ rest. resolve_horizon config ctx h >>= rest)
          (fun_ext (λ t1.
            ap (λ rest. reporting_currency config ctx >>= rest)
              (fun_ext (λ reporting.
                legs_between-turned config ctx reporting t0 (platform.parse t1) 0 (whole 0)
                  config.legs)))))
