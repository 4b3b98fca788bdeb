-- ===== src/Oracle/Replay.antt =====
-- oracle/src/services/mark-publisher/replay*.ts: from the contracts on the ledger to what the
-- pricing is given. The answers to the queries are a record; a query that fails is left out.
use irsforge.Base.{
  ℕ, Option, none, some, String, List, [], ◌∷◌, ◌++◌, map, Bool, true, false, find, ◌==◌, leb,
  if◌then◌else◌,
}
use irsforge.Base.Int.{pos_part}
use irsforge.Base.Dict.{Dict, lookup, insert, contains}
use irsforge.Pricing.Number.{Number}
use irsforge.Pricing.Types.{
  Platform, Interpolation, CurveDayCount, CurveType, discount_type, projection_type,
  FloatingRateFamily, DiscountCurve, CurrencyCurves, CurveBook, FloatingRateIndex, RateObservation,
  PricingContext, PricingError, or_else,
}
use irsforge.Pricing.Cashflows.{sort_by}
use irsforge.Pricing.Fpml.{TextReader}
pub mod Context
pub mod Swap
pub mod Laws
pub mod Complete
pub mod Observations
pub mod Book
pub mod Sides
pub mod Priceable
pub mod Snapshot
pub mod Order
mod Tests

-- What the replay throws.
pub data ReplayError : Type 0 where
  no_curve no_index : (cid : String) → ReplayError
  no_discount : (currency : String) → ReplayError
  no_spot_contract : (cid : String) → ReplayError
  no_workflow : (cid : String) → ReplayError
  no_instrument : (id : String) → ReplayError
  deprecated unknown_type : (swap_type : String) → ReplayError
  not_priced : PricingError → ReplayError

pub data Replayed {ℓ} (A : Type ℓ) : Type ℓ where
  done : A → Replayed A
  failed : ReplayError → Replayed A

infixl 10 ◌>>=◌
abbrev pub ◌>>=◌ {ℓ κ} : {A : Type ℓ} {B : Type κ} → Replayed A → (A → Replayed B) → Replayed B
done a >>= f = f a
failed e >>= f = failed e

-- A contract on the ledger.
pub record Row {ℓ} (P : Type ℓ) : Type ℓ where
  pub contract_id : String
  pub payload : P

-- `new Map(rows.map((r) => [r.contractId, r.payload]))`, from a map on.
unfoldable pub by_id {ℓ} : {P : Type ℓ} → List (Row P) → Dict P → Dict P
unfolding insert
by_id [] m = m
by_id (r ∷ rs) m = by_id rs (insert r.contract_id r.payload m)

pub record SnapshotKey : Type 0 where
  pub curve_cids : List String
  pub index_cids : List String
  pub observation_cutoff : String
  pub swap_cids : List String
  pub book_curve_cids : Option (List String)
  pub fx_spot_cids : Option (List String)
  pub cds_curve_cids : Option (List String)

pub record PillarPayload : Type 0 where
  pub tenor_days : String
  pub zero_rate : String

pub record CurvePayload : Type 0 where
  pub currency : String
  pub curve_type : CurveType
  pub index_id : Option String
  pub as_of : String
  pub pillars : List PillarPayload
  pub interpolation : Interpolation
  pub day_count : CurveDayCount

-- A rate index. Its currency and compounding are left out: no pricing code reads them.
pub record IndexPayload : Type 0 where
  pub index_id : String
  pub family : FloatingRateFamily
  pub lookback : String
  pub floor : Option String

-- `id.unpack`, and pairs of a time and a rate.
pub record ObservationPayload : Type 0 where
  pub id : String
  pub observations : List (String × String)

pub record FxSpotPayload : Type 0 where
  pub base_ccy : String
  pub quote_ccy : String
  pub rate : String

pub record PeriodicSchedulePayload : Type 0 where
  pub effective_date : String
  pub termination_date : String

pub record IrsInstrumentPayload : Type 0 where
  pub reference_rate_id : String
  pub owner_receives_fix : Bool
  pub fix_rate : String
  pub periodic_schedule : PeriodicSchedulePayload
  pub day_count_convention : String
  pub id : String

pub record CdsInstrumentPayload : Type 0 where
  pub default_probability_reference_id : String
  pub recovery_rate_reference_id : String
  pub owner_receives_fix : Bool
  pub fix_rate : String
  pub periodic_schedule : PeriodicSchedulePayload
  pub day_count_convention : String
  pub id : String

module _ {N : Type 0} ⦃reader : TextReader N⦄ where
  unfoldable pub to_discount_curve : CurvePayload → DiscountCurve N
  to_discount_curve p = record {
    currency = p.currency;
    curve_type = p.curve_type;
    index_id = p.index_id;
    as_of = p.as_of;
    pillars =
        map
          (λ q. record {
            tenor_days = reader.parse_int q.tenor_days;
            zero_rate = reader.parse_float q.zero_rate;
          })
          p.pillars;
    interpolation = p.interpolation;
    day_count = p.day_count;
  }

  abbrev floor_of : Option String → Option N
  floor_of none = none
  floor_of (some text) = some (reader.parse_float text)

  -- A lookback is at least 0.
  unfoldable pub to_floating_rate_index : IndexPayload → FloatingRateIndex N
  to_floating_rate_index p = record {
    index_id = p.index_id;
    family = p.family;
    lookback = pos_part (reader.parse_int p.lookback);
    floor = floor_of p.floor;
  }

module _ {N : Type 0} ⦃reader : TextReader N⦄ ⦃platform : Platform⦄ where
  -- The inner loop of `flattenObservations`: the observations up to the cutoff.
  unfoldable pub until : ℕ → List (String × String) → List (RateObservation N)
  until cutoff [] = []
  until cutoff ((t, v) ∷ rest) =
      let others = until cutoff rest in
      if leb (platform.parse t) cutoff
      then record { date = platform.parse t; rate = reader.parse_float v } ∷ others
      else others

  -- The outer loop: the rows of the index.
  unfoldable pub collected : List (Row ObservationPayload) → String → ℕ → List (RateObservation N)
  unfolding until
  collected [] index_id cutoff = []
  collected (r ∷ rs) index_id cutoff =
      let others = collected rs index_id cutoff in
      if r.payload.id == index_id then until cutoff r.payload.observations ++ others else others

  unfoldable pub flatten_observations :
      List (Row ObservationPayload) → String → String → List (RateObservation N)
  unfolding collected
  flatten_observations rows index_id cutoff_iso =
      sort_by (λ o. o.date) (collected rows index_id (platform.parse cutoff_iso))
