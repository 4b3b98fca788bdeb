-- ===== src/Pricing/Tests/Valuation.antt =====
-- The theorems on valuation at concrete inputs, with the integers as the numbers. The platform of
-- the tests writes a time as a text of that many letters.
use irsforge.Base.{
  ℕ, zero, suc, ◌+◌, ◌*◌, ◌/◌, ◌≡◌, refl, ap, ◌∙◌, none, some, List, [], ◌∷◌, String, arith,
}
use Prim.Native.String.count
use Prim.Native.String.{count, ◌∷◌ as cons}
use irsforge.Base.Int.{ℤ, pos, negsuc, neg, abs, ◌+ℤ◌, ◌-ℤ◌, ◌*ℤ◌, floor_div, round_div}
use irsforge.Pricing.Number.{integers, integers-IsAdditive, ◌⊕◌, ◌⊖◌, ◌⊗◌, whole}
use irsforge.Pricing.Types.{
  Platform, CashflowEntry, DiscountCurve, discount_type, linear_zero, curve_act_360, fx_leg, pay,
  receive, fx, SwapConfig, PricingContext, ok,
}
use irsforge.Pricing.Engine.Price.{ValuationResult, price, price_with_context}
use irsforge.Pricing.Engine.Fold.{price-price_with_context}
use irsforge.Pricing.Curves.Laws.{IsInterpolating}
use irsforge.Pricing.Horizon.{to_timestamp, resolve_horizon, forward_npv, theta, roll}
use irsforge.Pricing.Horizon.Laws.{forward_npv-theta-roll}
use irsforge.Pricing.Attribution.{
  PricingSnapshot, LedgerEvent, cashflow, AttributionBreakdown, decompose, paid_cash,
}
use irsforge.Pricing.Attribution.Laws.{decompose-unexplained}
use irsforge.Pricing.Types.{sofr, RateObservation, day_count_basis_for_family}
use irsforge.Pricing.Cashflows.{CompoundedInput, compound, calc_compounded_cashflow}
use irsforge.Pricing.Cashflows.Laws.{calc_compounded_cashflow_observed}
use irsforge.Base.{inl}
use irsforge.Pricing.Types.{FloatingRateIndex}
use irsforge.Pricing.Types.{PeriodicSchedule, irs, thirty_360, fixed, float}
use irsforge.Pricing.Schedule.{quarterly}
use irsforge.Pricing.Horizon.{carry}
use irsforge.Pricing.Horizon.Direction.{other_side, carry-turned}
use irsforge.Pricing.Engine.Spread.{with_spreads, price_with_context-with_spread}
use irsforge.Pricing.Bump.{with_book}
use irsforge.Pricing.Metrics.Laws.{single_book}
use native.Mathlib.Nat.{div_self}

abbrev letters : ℕ → String
letters zero = ""
letters (suc n) = cons "a" (letters n)

count-letters : (n : ℕ) → count (letters n) ≡ n
count-letters zero = refl
count-letters (suc n) = count.cons "a" (letters n) ∙ ap suc (count-letters n)

instance abbrev letter_platform : Platform
letter_platform = record {
  time_of = λ d. (d.year * 12 + d.month) * 31 + d.day;
  parse = count;
  to_iso = letters;
}

abbrev flat : String → DiscountCurve ℤ
flat as_of = record {
  currency = "USD";
  curve_type = discount_type;
  index_id = none;
  as_of = as_of;
  pillars =
      record { tenor_days = pos 10; zero_rate = pos 3 }
      ∷ record { tenor_days = pos 20; zero_rate = pos 5 }
      ∷ [];
  interpolation = linear_zero;
  day_count = curve_act_360;
}

-- Receive 200 at time 5, pay 100 at time 7.
abbrev fx_swap : SwapConfig ℤ
fx_swap = record {
  kind = fx;
  legs =
      fx_leg record {
        direction = receive;
        base_currency = "USD";
        foreign_currency = "EUR";
        notional = pos 100;
        fx_rate = pos 2;
        payment_date = 5;
      }
      ∷ fx_leg record {
        direction = pay;
        base_currency = "USD";
        foreign_currency = "EUR";
        notional = pos 100;
        fx_rate = pos 1;
        payment_date = 7;
      }
      ∷ [];
  maturity_date = 7;
}

abbrev today_context : PricingContext ℤ
today_context = record {
  curve = flat "aaa";
  index = none;
  indices_by_leg = none;
  observations = [];
  book = none;
  fx_spots = none;
  reporting_ccy = none;
  credit_spread = none;
  value_date = none;
}

abbrev cashflow_at : ℕ → ℤ → CashflowEntry ℤ
cashflow_at t a = record { date = t; amount = a; projected_rate = none; currency = none }

abbrev valued : ValuationResult ℤ
valued = record {
  npv = pos 100;
  leg_pvs = pos 200 ∷ negsuc 99 ∷ [];
  dv01 = pos 0;
  par_rate = none;
  cashflows = (cashflow_at 5 (pos 200) ∷ []) ∷ (cashflow_at 7 (pos 100) ∷ []) ∷ [];
  mod_duration = some (pos 0);
  convexity = some (pos 0);
}

price-price_with_context_example : price_with_context fx_swap today_context ≡ ok (pos 100)
unfolding price floor_div ◌+ℤ◌ ◌*ℤ◌ abs round_div ◌-ℤ◌ neg
price-price_with_context_example = price-price_with_context fx_swap today_context valued refl

-- Between time 3 and time 6 the swap receives its 200.
forward_npv-theta-roll_example :
    forward_npv fx_swap today_context "aaaaaa" ≡ ok (pos 100 ⊕ negsuc 199 ⊕ pos 0)
unfolding resolve_horizon price theta roll floor_div ◌+ℤ◌ ◌*ℤ◌ abs round_div ◌-ℤ◌ neg
forward_npv-theta-roll_example =
    forward_npv-theta-roll integers-IsAdditive fx_swap today_context (to_timestamp "aaaaaa")
      "aaaaaa" (pos 100) (negsuc 199) (pos 0) refl refl refl refl

abbrev snapshot : String → PricingSnapshot ℤ
snapshot as_of = record {
  as_of = as_of;
  curve = flat as_of;
  book = none;
  index = none;
  indices_by_leg = none;
  fx_spots = none;
  credit_spread = none;
}

abbrev coupon : List (LedgerEvent ℤ)
coupon = cashflow "USD" "aaaaa" (pos 200) ∷ []

abbrev breakdown : AttributionBreakdown ℤ
breakdown = record {
  total = negsuc 399;
  curve = pos 0;
  basis = pos 0;
  carry = negsuc 199;
  roll = pos 0;
  fixing = pos 0;
  unexplained = negsuc 199;
}

decompose-unexplained_example :
    breakdown.unexplained ⊕ paid_cash "aaa" "aaaaaa" (whole 0) coupon ≡ whole 0
unfolding decompose floor_div ◌+ℤ◌ ◌*ℤ◌ abs round_div ◌-ℤ◌ neg
decompose-unexplained_example =
    decompose-unexplained fx_swap integers-IsAdditive (snapshot "aaa") (snapshot "aaaaaa") coupon
      breakdown refl refl refl refl

one_times : (a : ℤ) → pos 1 *ℤ a ≡ a
unfolding ◌*ℤ◌
one_times (pos n) = ground arith
one_times (negsuc n) = ground arith

integers-IsInterpolating : IsInterpolating ℤ
unfolding floor_div
integers-IsInterpolating = record {
  div_self = λ n h. let e : n / 1 ≡ n = omega arith in rw e (ap pos (div_self h));
  one_mul = one_times;
  add-sub = integers-IsAdditive.add-sub;
}

-- Two observations of rate 360, a day apart, at the start of a period of four days.
abbrev period : CompoundedInput ℤ
period = record {
  curve = flat "aaa";
  index = record { index_id = "USD-SOFR"; family = sofr; lookback = 0; floor = none };
  observations =
      record { date = 86400000; rate = pos 360 } ∷ record { date = 0; rate = pos 360 } ∷ [];
  period_start = 0;
  period_end = 345600000;
  notional = pos 10;
}

abbrev in_order : List (RateObservation ℤ)
in_order = record { date = 0; rate = pos 360 } ∷ record { date = 86400000; rate = pos 360 } ∷ []

calc_compounded_cashflow_observed_example :
    calc_compounded_cashflow period
    ≡ pos 10
      ⊗ (compound none (day_count_basis_for_family sofr) 345600000 (whole 1) in_order ⊖ whole 1)
calc_compounded_cashflow_observed_example =
    calc_compounded_cashflow_observed period refl (omega arith)

carry-turned_example :
    carry (other_side fx_swap) today_context (to_timestamp "aaaaaa")
    ≡ carry fx_swap today_context (to_timestamp "aaaaaa")
carry-turned_example = carry-turned fx_swap today_context (to_timestamp "aaaaaa")

abbrev half_year : PeriodicSchedule
half_year = record {
  start_date = record { year = 2025; month = 0; day = 15 };
  end_date = record { year = 2025; month = 6; day = 15 };
  frequency = quarterly;
}

-- Pay a fixed rate of 2, receive the index and a spread of 1.
abbrev rate_swap : SwapConfig ℤ
rate_swap = record {
  kind = irs;
  legs =
      fixed record {
        direction = pay;
        currency = "USD";
        notional = pos 10;
        rate = pos 2;
        day_count = thirty_360;
        schedule = half_year;
      }
      ∷ float record {
        direction = receive;
        currency = "USD";
        notional = pos 10;
        index_id = "USD-SOFR";
        spread = pos 1;
        day_count = thirty_360;
        schedule = half_year;
      }
      ∷ [];
  maturity_date = 7;
}

abbrev overnight : FloatingRateIndex ℤ
overnight = record { index_id = "USD-SOFR"; family = sofr; lookback = 0; floor = none }

abbrev indexed_context : PricingContext ℤ
indexed_context = record today_context { index = some overnight }

price_with_context-with_spread_example :
    price_with_context (with_spreads (pos 0) rate_swap) indexed_context
    ≡ price_with_context rate_swap indexed_context
price_with_context-with_spread_example =
    price_with_context-with_spread (pos 0) rate_swap indexed_context overnight (inl refl) refl

abbrev book_context : PricingContext ℤ
book_context =
    with_book today_context (single_book "USD" "USD-SOFR" "aaa" (flat "aaa") (flat "aaa"))
