-- ===== src/Pricing/Types.antt =====
-- shared-pricing/src/engine/types.ts, and what the platform does with dates.
use irsforge.Base.{ℕ, Option, none, some, List, String}
use irsforge.Base.Int.{ℤ, pos, ◌-ℤ◌, round_div}
use irsforge.Base.Dict.{Dict}
use irsforge.Pricing.Dates.{Day}
use irsforge.Pricing.Schedule.{Frequency}

-- What the platform gives: the time in milliseconds at which a day of the local calendar begins,
-- `new Date(text).getTime()` and `new Date(time).toISOString()`. Times are from 1970 on.
pub record Platform : Type 0 where
  pub time_of : Day → ℕ
  pub parse : String → ℕ
  pub to_iso : ℕ → String

-- `daysBetween`, on two times.
abbrev pub days_between : ℕ → ℕ → ℤ
days_between a b = round_div (pos b -ℤ pos a) 86400000

pub data DayCountConvention : Type 0 where
  act_360 act_365 thirty_360 thirty_e_360 : DayCountConvention

pub data SwapType : Type 0 where
  irs ois basis xccy cds ccy fx asset fpml : SwapType

pub data Interpolation : Type 0 where
  linear_zero log_linear_df : Interpolation

pub data CurveDayCount : Type 0 where
  curve_act_360 curve_act_365f : CurveDayCount

pub data CurveType : Type 0 where
  discount_type projection_type : CurveType

pub data FloatingRateFamily : Type 0 where
  sofr estr sonia tona saron tiie corra bbsw honia : FloatingRateFamily

-- `dayCountBasisForFamily`
unfoldable pub day_count_basis_for_family : FloatingRateFamily → ℕ
day_count_basis_for_family sonia = 365
day_count_basis_for_family tona = 365
day_count_basis_for_family _ = 360

pub data Direction : Type 0 where
  pay receive : Direction

pub record PeriodicSchedule : Type 0 where
  pub start_date : Day
  pub end_date : Day
  pub frequency : Frequency

module _ {ℓ} (N : Type ℓ) where
  pub record CashflowEntry : Type ℓ where
    pub date : ℕ
    pub amount : N
    pub projected_rate : Option N
    pub currency : Option String

  pub record Pillar : Type ℓ where
    pub tenor_days : ℤ
    pub zero_rate : N

  pub record DiscountCurve : Type ℓ where
    pub currency : String
    pub curve_type : CurveType
    pub index_id : Option String
    pub as_of : String
    pub pillars : List Pillar
    pub interpolation : Interpolation
    pub day_count : CurveDayCount

  pub record CurrencyCurves : Type ℓ where
    pub discount : DiscountCurve
    pub projections : Dict DiscountCurve

  pub record CurveBook : Type ℓ where
    pub as_of : String
    pub by_currency : Dict CurrencyCurves

  pub record FloatingRateIndex : Type ℓ where
    pub index_id : String
    pub family : FloatingRateFamily
    pub lookback : ℕ
    pub floor : Option N

  pub record RateObservation : Type ℓ where
    pub date : ℕ
    pub rate : N

  pub record Underlying : Type ℓ where
    pub weight : N
    pub initial_price : N
    pub current_price : N

  pub record FixedLeg : Type ℓ where
    pub direction : Direction
    pub currency : String
    pub notional : N
    pub rate : N
    pub day_count : DayCountConvention
    pub schedule : PeriodicSchedule

  pub record FloatLeg : Type ℓ where
    pub direction : Direction
    pub currency : String
    pub notional : N
    pub index_id : String
    pub spread : N
    pub day_count : DayCountConvention
    pub schedule : PeriodicSchedule

  pub record ProtectionLeg : Type ℓ where
    pub direction : Direction
    pub notional : N
    pub recovery_rate : N

  pub record AssetLeg : Type ℓ where
    pub direction : Direction
    pub notional : N
    pub underlyings : List Underlying

  pub record FxLeg : Type ℓ where
    pub direction : Direction
    pub base_currency : String
    pub foreign_currency : String
    pub notional : N
    pub fx_rate : N
    pub payment_date : ℕ

module _ {ℓ} (N : Type ℓ) where
  -- `LegConfig`
  pub data Leg : Type ℓ where
    fixed : FixedLeg N → Leg
    float : FloatLeg N → Leg
    protection : ProtectionLeg N → Leg
    asset_leg : AssetLeg N → Leg
    fx_leg : FxLeg N → Leg

  pub record SwapConfig : Type ℓ where
    pub kind : SwapType
    pub legs : List Leg
    pub maturity_date : ℕ

  pub record PricingContext : Type ℓ where
    pub curve : DiscountCurve N
    pub index : Option (FloatingRateIndex N)
    pub indices_by_leg : Option (List (Option (FloatingRateIndex N)))
    pub observations : List (RateObservation N)
    pub book : Option (CurveBook N)
    pub fx_spots : Option (Dict N)
    pub reporting_ccy : Option String
    pub credit_spread : Option N
    pub value_date : Option ℕ

-- What the pricing code throws.
pub data PricingError : Type 0 where
  no_fx_spot : (from to : String) → PricingError
  no_book : PricingError
  no_curves : (currency : String) → PricingError
  untagged_cashflows : PricingError
  no_leg : PricingError
  not_after before : (as_of : String) → PricingError
  not_positive : PricingError
  no_event : PricingError
  no_snapshot : (as_of : String) → PricingError
  no_pillar : (tenor_days : ℤ) → PricingError
  no_projection : (currency index_id : String) → PricingError
  no_spot : (pair : String) → PricingError
  unsupported_day_count : (name : String) → PricingError
  irregular_notional no_streams unsupported_leg_shape : PricingError
  unsupported_stream_count : (count : ℕ) → PricingError
  no_fixed_leg not_a_float_leg no_anchor no_tenor not_invertible not_converged : PricingError

pub data Outcome {ℓ} (A : Type ℓ) : Type ℓ where
  ok : A → Outcome A
  threw : PricingError → Outcome A

infixl 10 ◌>>=◌
abbrev pub ◌>>=◌ {ℓ κ} : {A : Type ℓ} {B : Type κ} → Outcome A → (A → Outcome B) → Outcome B
ok a >>= f = f a
threw e >>= f = threw e

-- `option ?? value`
abbrev pub or_else {ℓ} : {A : Type ℓ} → Option A → A → A
or_else none value = value
or_else (some a) value = a
