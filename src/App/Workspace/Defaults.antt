-- ===== src/App/Workspace/Defaults.antt =====
-- The default legs of app/src/features/workspace/constants.ts and of workspace-reducer-helpers.ts.
use irsforge.Base.{ℕ, String, List, [], ◌∷◌}
use irsforge.Pricing.Number.{Number, fraction, whole}
use irsforge.Pricing.Dates.{Day}
use irsforge.Pricing.Schedule.{Frequency, quarterly, semi_annual, annual}
use irsforge.Pricing.Types.{
  act_360, PeriodicSchedule, Direction, pay, receive, Leg, fixed, float, protection, asset_leg,
  fx_leg, SwapType, irs, ois, basis, xccy, cds, ccy, fx, asset, fpml,
}

-- What the clock said when the constants were made: the day, the day five years on, and the two
-- payment times of the FX legs.
pub record Opened : Type 0 where
  pub day : Day
  pub in_five_years : Day
  pub in_three_months : ℕ
  pub in_a_year : ℕ

abbrev schedule : Opened → Frequency → PeriodicSchedule
schedule opened frequency = record {
  start_date = opened.day;
  end_date = opened.in_five_years;
  frequency = frequency;
}

module _ {N : Type 0} ⦃arithmetic : Number N⦄ (opened : Opened) where
  abbrev fixed_of : Direction → String → N → N → Frequency → Leg N
  fixed_of direction currency notional rate frequency = fixed record {
    direction = direction;
    currency = currency;
    notional = notional;
    rate = rate;
    day_count = act_360;
    schedule = schedule opened frequency;
  }

  abbrev float_of : Direction → String → N → String → N → Frequency → Leg N
  float_of direction currency notional index_id spread frequency = float record {
    direction = direction;
    currency = currency;
    notional = notional;
    index_id = index_id;
    spread = spread;
    day_count = act_360;
    schedule = schedule opened frequency;
  }

  abbrev fx_of : Direction → N → ℕ → Leg N
  fx_of direction rate payment = fx_leg record {
    direction = direction;
    base_currency = "USD";
    foreign_currency = "EUR";
    notional = whole 10000000;
    fx_rate = rate;
    payment_date = payment;
  }

  -- `SWAP_TYPE_CONFIGS[swapType].defaultLegs`
  unfoldable pub default_legs : SwapType → List (Leg N)
  default_legs irs =
      fixed_of receive "USD" (whole 50000000) (fraction 425 10000) quarterly
      ∷ float_of pay "USD" (whole 50000000) "USD-SOFR" (fraction 25 10000) quarterly
      ∷ []
  default_legs ois =
      fixed_of receive "USD" (whole 50000000) (fraction 4 100) annual
      ∷ float_of pay "USD" (whole 50000000) "USD-SOFR" (whole 0) annual
      ∷ []
  default_legs basis =
      float_of pay "USD" (whole 50000000) "USD-SOFR" (whole 0) quarterly
      ∷ float_of receive "USD" (whole 50000000) "USD-EFFR" (fraction 25 10000) quarterly
      ∷ []
  default_legs xccy =
      fixed_of receive "USD" (whole 50000000) (fraction 4 100) semi_annual
      ∷ float_of pay "EUR" (whole 45000000) "EUR-ESTR" (whole 0) semi_annual
      ∷ []
  default_legs cds =
      fixed_of pay "USD" (whole 10000000) (fraction 1 100) quarterly
      ∷ protection
          record { direction = receive; notional = whole 10000000; recovery_rate = fraction 4 10 }
      ∷ []
  default_legs ccy =
      fixed_of pay "USD" (whole 50000000) (fraction 4 100) quarterly
      ∷ fixed_of receive "EUR" (whole 45000000) (fraction 35 1000) quarterly
      ∷ []
  default_legs fx =
      fx_of pay (fraction 108 100) opened.in_three_months
      ∷ fx_of receive (fraction 1085 1000) opened.in_a_year
      ∷ []
  default_legs asset =
      asset_leg record {
        direction = receive;
        notional = whole 10000000;
        underlyings =
            record { weight = whole 1; initial_price = whole 100; current_price = whole 100 } ∷ [];
      }
      ∷ float_of pay "USD" (whole 10000000) "USD-SOFR" (fraction 5 1000) quarterly
      ∷ []
  default_legs fpml = []

  -- `buildDefaultFloat`; its dates are overwritten where it is added.
  unfoldable pub build_default_float : Leg N
  build_default_float = float_of pay "USD" (whole 10000000) "USD-SOFR" (whole 0) quarterly
