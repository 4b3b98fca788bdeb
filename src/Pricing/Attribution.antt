-- ===== src/Pricing/Attribution.antt =====
-- shared-pricing/src/attribution: `decompose` and `between`.
use irsforge.Base.{
  Option, none, some, List, [], ◌∷◌, ◌++◌, map, String, ◌==◌, Bool, true, false, not, ◌&&◌, find,
  filter, if◌then◌else◌,
}
use irsforge.Base.Dict.{Dict, lookup}
use irsforge.Oracle.Lifecycle.Mature.{is_later}
use irsforge.Pricing.Number.{Number, ◌⊕◌, ◌⊖◌, negative, is_eq, whole}
use irsforge.Pricing.Types.{
  Platform, DiscountCurve, CurrencyCurves, CurveBook, FloatingRateIndex, RateObservation,
  SwapConfig, PricingContext, PricingError, no_snapshot, Outcome, ok, threw, ◌>>=◌,
}
use irsforge.Pricing.Engine.{map_value}
use irsforge.Pricing.Engine.Price.{price}
pub mod Laws

module _ (N : Type 0) where
  pub record PricingSnapshot : Type 0 where
    pub as_of : String
    pub curve : DiscountCurve N
    pub book : Option (CurveBook N)
    pub index : Option (FloatingRateIndex N)
    pub indices_by_leg : Option (List (Option (FloatingRateIndex N)))
    pub fx_spots : Option (Dict N)
    pub credit_spread : Option N

  pub data LedgerEvent : Type 0 where
    observation : (index_id date : String) (rate : N) → LedgerEvent
    cashflow : (currency date : String) (amount : N) → LedgerEvent

  pub record AttributionBreakdown : Type 0 where
    pub total : N
    pub curve : N
    pub basis : N
    pub carry : N
    pub roll : N
    pub fixing : N
    pub unexplained : N

-- `date > t0 && date <= t1` on ISO texts.
abbrev in_window : String → String → String → Bool
in_window t0 t1 date = is_later date t0 && not (is_later date t1)

module _ {N : Type 0} ⦃platform : Platform⦄ where
  abbrev pub as_context : PricingSnapshot N → List (RateObservation N) → PricingContext N
  as_context snap observations = record {
    curve = snap.curve;
    index = snap.index;
    indices_by_leg = snap.indices_by_leg;
    observations = observations;
    book = snap.book;
    fx_spots = snap.fx_spots;
    reporting_ccy = none;
    credit_spread = snap.credit_spread;
    value_date = none;
  }

  unfoldable pub observations_from_events : List (LedgerEvent N) → List (RateObservation N)
  observations_from_events [] = []
  observations_from_events (observation index_id date rate ∷ es) =
      record { date = platform.parse date; rate = rate } ∷ observations_from_events es
  observations_from_events (cashflow currency date amount ∷ es) = observations_from_events es

  abbrev date_of : LedgerEvent N → String
  date_of (observation index_id date rate) = date
  date_of (cashflow currency date amount) = date

  abbrev dated : DiscountCurve N → String → DiscountCurve N
  dated c as_of = record {
    currency = c.currency;
    curve_type = c.curve_type;
    index_id = c.index_id;
    as_of = as_of;
    pillars = c.pillars;
    interpolation = c.interpolation;
    day_count = c.day_count;
  }

  abbrev dated_book : CurveBook N → String → CurveBook N
  dated_book book as_of = record {
    as_of = as_of;
    by_currency =
        map_value
          (λ pair. record {
            discount = dated pair.discount as_of;
            projections = map_value (λ c. dated c as_of) pair.projections;
          })
          book.by_currency;
  }

  -- `snapTime`: the first snapshot at the second one's date.
  unfoldable pub snap_time : PricingSnapshot N → PricingSnapshot N → PricingSnapshot N
  snap_time snap0 snap1 = record {
    as_of = snap1.as_of;
    curve = dated snap0.curve snap1.as_of;
    book = elim snap0.book [ none ↦ none | some book ↦ some (dated_book book snap1.as_of) ];
    index = snap0.index;
    indices_by_leg = snap0.indices_by_leg;
    fx_spots = snap0.fx_spots;
    credit_spread = snap0.credit_spread;
  }

  abbrev old_projections :
      Option (CurveBook N) → String → Dict (DiscountCurve N) → Dict (DiscountCurve N)
  old_projections none currency new = new
  old_projections (some book) currency new = elim (lookup currency book.by_currency) [
    | none ↦ new
    | some pair ↦ pair.projections
  ]

  abbrev discount_only : Option (CurveBook N) → Dict (CurrencyCurves N) → Dict (CurrencyCurves N)
  discount_only old [] = []
  discount_only old ((currency, pair) ∷ rest) =
      (
        currency,
        record {
          discount = pair.discount;
          projections = old_projections old currency pair.projections;
        },
      )
      ∷ discount_only old rest

  -- `{ ...snap, curve, book, index }`
  abbrev with_market :
      PricingSnapshot N
      → DiscountCurve N
      → Option (CurveBook N)
      → Option (FloatingRateIndex N)
      → PricingSnapshot N
  with_market snap curve book index = record {
    as_of = snap.as_of;
    curve = curve;
    book = book;
    index = index;
    indices_by_leg = snap.indices_by_leg;
    fx_spots = snap.fx_spots;
    credit_spread = snap.credit_spread;
  }

  -- `snapCurve`, `snapBasis` and `snapFixing`: the second snapshot's discount curves, its
  -- projections, and its index.
  unfoldable pub snap_curve : PricingSnapshot N → PricingSnapshot N → PricingSnapshot N
  unfolding snap_time
  snap_curve snap0 snap1 =
      let time = snap_time snap0 snap1 in
      with_market time snap1.curve
        (elim snap1.book [
          | none ↦ none
          | some book ↦
              some record {
                as_of = book.as_of;
                by_currency = discount_only snap0.book book.by_currency;
              }
        ])
        time.index

  unfoldable pub snap_basis : PricingSnapshot N → PricingSnapshot N → PricingSnapshot N
  unfolding snap_curve
  snap_basis snap0 snap1 =
      let moved = snap_curve snap0 snap1 in with_market moved moved.curve snap1.book moved.index

  unfoldable pub snap_fixing : PricingSnapshot N → PricingSnapshot N → PricingSnapshot N
  unfolding snap_basis
  snap_fixing snap0 snap1 =
      let moved = snap_basis snap0 snap1 in with_market moved moved.curve moved.book snap1.index

module _ {N : Type 0} ⦃arithmetic : Number N⦄ where
  -- The amounts paid in (t0, t1], added from the left.
  unfoldable pub paid_cash : String → String → N → List (LedgerEvent N) → N
  paid_cash t0 t1 sum [] = sum
  paid_cash t0 t1 sum (observation index_id date rate ∷ es) = paid_cash t0 t1 sum es
  paid_cash t0 t1 sum (cashflow currency date amount ∷ es) =
      paid_cash t0 t1 (if in_window t0 t1 date then sum ⊕ amount else sum) es

  -- The buckets, from the values of the six steps.
  abbrev pub buckets :
      (paid pv0 pv1 pv_time pv_curve pv_basis pv_fixing : N) → AttributionBreakdown N
  buckets paid pv0 pv1 pv_time pv_curve pv_basis pv_fixing =
      let total = pv1 ⊖ pv0 ⊖ paid in
      let carry = if is_eq paid (whole 0) then whole 0 else negative paid in
      let roll = pv_time ⊖ pv0 ⊖ carry in
      let curve = pv_curve ⊖ pv_time in
      let basis = pv_basis ⊖ pv_curve in
      let fixing = pv_fixing ⊖ pv_basis in
      record {
        total = total;
        curve = curve;
        basis = basis;
        carry = carry;
        roll = roll;
        fixing = fixing;
        unexplained = total ⊖ (curve ⊕ basis ⊕ carry ⊕ roll ⊕ fixing);
      }

module _ {N : Type 0} ⦃arithmetic : Number N⦄ ⦃platform : Platform⦄ where
  abbrev snapshot_at : String → List (PricingSnapshot N) → Outcome (PricingSnapshot N)
  snapshot_at t snapshots = elim (find (λ s. s.as_of == t) snapshots) [
    | none ↦ threw (no_snapshot t)
    | some snap ↦ ok snap
  ]

  module _ (config : SwapConfig N) where
    abbrev pub pv : PricingSnapshot N → List (RateObservation N) → Outcome N
    pv snap observations = price config (as_context snap observations) >>= λ v. ok v.npv

    unfoldable pub decompose :
        PricingSnapshot N
        → PricingSnapshot N
        → List (LedgerEvent N)
        → Outcome (AttributionBreakdown N)
    unfolding price observations_from_events paid_cash snap_time snap_curve snap_basis snap_fixing
    decompose snap0 snap1 events = pv snap0 [] >>= λ pv0.
        pv snap1 (observations_from_events events) >>= λ pv1.
        pv (snap_time snap0 snap1) [] >>= λ pv_time. pv (snap_curve snap0 snap1) [] >>= λ pv_curve.
        pv (snap_basis snap0 snap1) [] >>= λ pv_basis.
        pv (snap_fixing snap0 snap1) (observations_from_events events) >>= λ pv_fixing. ok (
          buckets (paid_cash snap0.as_of snap1.as_of (whole 0) events) pv0 pv1 pv_time pv_curve
            pv_basis pv_fixing)

    unfoldable pub between :
        List (PricingSnapshot N)
        → List (LedgerEvent N)
        → (t0 t1 : String) → Outcome (AttributionBreakdown N)
    unfolding decompose
    between snapshots events t0 t1 = snapshot_at t0 snapshots >>= λ snap0.
        snapshot_at t1 snapshots >>= λ snap1.
        decompose snap0 snap1 (filter (λ e. in_window t0 t1 (date_of e)) events)
