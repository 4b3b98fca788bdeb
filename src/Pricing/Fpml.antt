-- ===== src/Pricing/Fpml.antt =====
-- shared-pricing/src/fpml: streams of an FpML instrument, their classification and the swap that is
-- made of them. A `Date` is its time in milliseconds. Of a swap, `tradeDate` and `effectiveDate`
-- are left out: no pricing code reads them.
use irsforge.Base.{
  ℕ, ◌-◌, Option, none, some, String, List, [], ◌∷◌, Bool, true, false, ◌==◌, ◌&&◌, ◌||◌, leb, eqb,
  length, filter, if◌then◌else◌,
}
use Prim.Native.Char.{code}
use Prim.Native.String.{[] as empty, ◌∷◌ as cons}
use irsforge.Base.Int.{ℤ}
use irsforge.Pricing.Number.{Number, negative, whole}
use irsforge.Pricing.Dates.{Day}
use irsforge.Pricing.Schedule.{quarterly}
use irsforge.Pricing.Types.{
  Platform, PeriodicSchedule, DayCountConvention, act_360, act_365, thirty_360, thirty_e_360,
  FixedLeg, FloatLeg, Leg, fixed, float, pay, receive, SwapType, irs, basis, xccy, SwapConfig,
  Outcome, ok, threw, ◌>>=◌, or_else, unsupported_day_count, irregular_notional, no_streams,
  unsupported_leg_shape, unsupported_stream_count,
}
pub mod Swap
pub mod Laws

-- What the platform reads: `parseFloat`, `parseInt`, and the day of the local calendar on which a
-- `Date` falls.
pub record TextReader (N : Type 0) : Type 0 where
  pub parse_float : String → N
  pub parse_int : String → ℤ
  pub calendar_day : ℕ → Day

pub data ParsedRateType : Type 0 where
  fixed_rate_type float_rate_type : ParsedRateType

pub data FpmlCompounding : Type 0 where
  flat no_compounding straight compounded_in_arrears overnight_average : FpmlCompounding

pub record ParsedLeg (N : Type 0) : Type 0 where
  pub currency : String
  pub notional : N
  pub rate_type : ParsedRateType
  pub fixed_rate : Option N
  pub index_id : Option String
  pub spread : Option N
  pub compounding : Option FpmlCompounding
  pub day_count_fraction : String
  pub payer_party_ref : Option String

pub record ParsedFpml (N : Type 0) : Type 0 where
  pub legs : List (ParsedLeg N)
  pub effective_date : ℕ
  pub termination_date : ℕ

-- `Classification`
pub data Classification (N : Type 0) : Type 0 where
  irs_of ois_of xccy_of : (fixed_leg float_leg : ParsedLeg N) → Classification N
  basis_of : (leg_a leg_b : ParsedLeg N) → Classification N
  wrong_count : (count : ℕ) → Classification N
  wrong_shape : Classification N

-- `FpmlSwapStreamPayload`, as JSON holds it.
pub data RateTypeValue : Type 0 where
  fixed_value : (initial_value : String) → RateTypeValue
  floating_value : (floating_rate_index : String) (spread_schedule : List String) → RateTypeValue

pub data NotionalScheduleValue : Type 0 where
  regular : (initial_value currency : String) → NotionalScheduleValue
  fx_linked : NotionalScheduleValue

pub record FpmlSwapStreamPayload : Type 0 where
  pub payer_party_reference : String
  pub receiver_party_reference : String
  pub effective_date : String
  pub termination_date : String
  pub notional_schedule_value : NotionalScheduleValue
  pub rate_type_value : RateTypeValue
  pub day_count_fraction : String
  pub compounding_method_enum : Option String

-- The ASCII letters of a text as their codes, lower case as upper case.
abbrev upper : ℕ → ℕ
upper c = if leb 97 c && leb c 122 then c - 32 else c

abbrev folded : String → List ℕ
folded empty = []
folded (cons c s) = upper (code c) ∷ folded s

abbrev begins : List ℕ → List ℕ → Bool
begins [] text = true
begins (c ∷ cs) [] = false
begins (c ∷ cs) (d ∷ ds) = eqb c d && begins cs ds

abbrev occurs : List ℕ → List ℕ → Bool
occurs word [] = begins word []
occurs word (c ∷ text) = begins word (c ∷ text) || occurs word text

-- `OVERNIGHT_INDEX.test(text)`
unfoldable pub is_overnight : String → Bool
is_overnight text =
    let t = folded text in
    occurs (folded "SOFR") t
    || occurs (folded "ESTR") t
    || occurs (folded "SONIA") t
    || occurs (folded "TONA") t
    || occurs (folded "CORRA") t
    || occurs (folded "SARON") t
    || occurs (folded "HONIA") t

-- `DAY_COUNT_MAP`, behind `mapDayCount`.
unfoldable pub map_day_count : String → Outcome DayCountConvention
map_day_count daml_dc =
    if daml_dc == "Act360" || daml_dc == "ACT_360"
    then ok act_360
    else if daml_dc == "ActActISDA" || daml_dc == "ACT_365"
    then ok act_365
    else if daml_dc == "Basis30360" || daml_dc == "THIRTY_360"
    then ok thirty_360
    else if daml_dc == "Basis30E360" || daml_dc == "THIRTY_E_360"
    then ok thirty_e_360
    else threw (unsupported_day_count daml_dc)

abbrev is_in_arrears : Option FpmlCompounding → Bool
is_in_arrears (some compounded_in_arrears) = true
is_in_arrears _ = false

module _ {N : Type 0} where
  abbrev pub is_fixed_rate : ParsedLeg N → Bool
  is_fixed_rate leg = elim leg.rate_type [ fixed_rate_type ↦ true | float_rate_type ↦ false ]

  abbrev pub is_float_rate : ParsedLeg N → Bool
  is_float_rate leg = elim leg.rate_type [ fixed_rate_type ↦ false | float_rate_type ↦ true ]

  -- `isOis`
  unfoldable pub is_ois : ParsedLeg N → Bool
  unfolding is_overnight
  is_ois leg =
      is_in_arrears leg.compounding
      && elim leg.index_id [ none ↦ false | some id ↦ is_overnight id ]

  -- The tests on two legs `a` and `b`, with the fixed legs and the floating legs among them.
  unfoldable pub classify_pair :
      (same_ccy : Bool) (fixed_legs float_legs : List (ParsedLeg N)) (a b : ParsedLeg N)
      → Classification N
  unfolding is_ois
  classify_pair true (x ∷ []) (y ∷ []) a b = if is_ois y then ois_of x y else irs_of x y
  classify_pair true fixed_legs (x ∷ y ∷ []) a b = basis_of a b
  classify_pair false (x ∷ []) (y ∷ []) a b = xccy_of x y
  classify_pair _ _ _ a b = wrong_shape

  unfoldable pub classify_legs : List (ParsedLeg N) → Classification N
  unfolding classify_pair
  classify_legs (a ∷ b ∷ []) =
      classify_pair (a.currency == b.currency) (filter is_fixed_rate (a ∷ b ∷ []))
        (filter is_float_rate (a ∷ b ∷ [])) a b
  classify_legs legs = wrong_count (length legs)

  unfoldable pub classify : ParsedFpml N → Classification N
  unfolding classify_legs
  classify parsed = classify_legs parsed.legs
