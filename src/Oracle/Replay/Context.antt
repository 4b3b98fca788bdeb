-- ===== src/Oracle/Replay/Context.antt =====
-- `buildContextFromSnapshot` of oracle/src/services/mark-publisher/replay.ts, with
-- `buildCurveBook` and `fetchFxSpots`.
use irsforge.Base.{
  ℕ, Option, none, some, String, List, [], ◌∷◌, Bool, true, false, ◌&&◌, find, ◌==◌, if◌then◌else◌,
}
use Prim.Native.String.{◌++◌}
use irsforge.Base.Dict.{Dict, lookup, insert}
use irsforge.Pricing.Types.{
  Platform, CurveType, discount_type, projection_type, DiscountCurve, CurrencyCurves, CurveBook,
  FloatingRateIndex, RateObservation, PricingContext, or_else,
}
use irsforge.Pricing.Fpml.{TextReader}
use irsforge.Oracle.Replay.{
  ReplayError, no_curve, no_index, no_discount, no_spot_contract, Replayed, done, failed, ◌>>=◌,
  Row, by_id, SnapshotKey, CurvePayload, IndexPayload, ObservationPayload, FxSpotPayload,
  to_discount_curve, to_floating_rate_index, flatten_observations,
}

-- The answers to the queries of one call.
pub record MarketRows : Type 0 where
  pub curves : List (Row CurvePayload)
  pub indices : List (Row IndexPayload)
  pub observations : List (Row ObservationPayload)
  pub fx_spots : List (Row FxSpotPayload)

-- The payloads of the contracts `cids`, or the error of the first that is missing.
unfoldable pub payloads {ℓ} :
    {P : Type ℓ} → (String → ReplayError) → Dict P → List String → Replayed (List P)
unfolding lookup
payloads missing m [] = done []
payloads missing m (cid ∷ cids) = elim (lookup cid m) [
  | none ↦ failed (missing cid)
  | some p ↦ payloads missing m cids >>= λ ps. done (p ∷ ps)
]

abbrev pub is_discount : CurveType → Bool
is_discount discount_type = true
is_discount projection_type = false

abbrev pub is_discount_in : String → CurvePayload → Bool
is_discount_in currency c = is_discount c.curve_type && c.currency == currency

-- `Pending` of `buildCurveBook`.
pub record Pending (N : Type 0) : Type 0 where
  pub discount : Option (DiscountCurve N)
  pub projections : Dict (DiscountCurve N)

module _ {N : Type 0} where
  -- `if (p.indexId) existing.projections[p.indexId] = curve`
  abbrev pub with_projection : Option String → DiscountCurve N → Pending N → Pending N
  with_projection none curve existing = existing
  with_projection (some id) curve existing = if id == "" then existing else record {
    discount = existing.discount;
    projections = insert id curve existing.projections;
  }

  abbrev pub filed : CurveType → Option String → DiscountCurve N → Pending N → Pending N
  filed discount_type index_id curve existing = record {
    discount = some curve;
    projections = existing.projections;
  }
  filed projection_type index_id curve existing = with_projection index_id curve existing

  abbrev pub no_curves_yet : Pending N
  no_curves_yet = record { discount = none; projections = [] }

  -- One round of the last loop of `buildCurveBook`.
  abbrev pub with_pair :
      String
      → Option (DiscountCurve N)
      → Dict (DiscountCurve N)
      → Dict (CurrencyCurves N)
      → Dict (CurrencyCurves N)
  with_pair currency none projections rest = rest
  with_pair currency (some discount) [] rest = rest
  with_pair currency (some discount) (p ∷ ps) rest =
      (currency, record { discount = discount; projections = p ∷ ps }) ∷ rest

  -- The currencies that have a discount curve and a projection curve.
  unfoldable pub paired : Dict (Pending N) → Dict (CurrencyCurves N)
  paired [] = []
  paired ((currency, pair) ∷ rest) = with_pair currency pair.discount pair.projections (paired rest)

module _ {N : Type 0} ⦃reader : TextReader N⦄ where
  -- One round of the loop of `buildCurveBook`.
  unfoldable pub add_curve : CurvePayload → Dict (Pending N) → Dict (Pending N)
  unfolding to_discount_curve lookup insert
  add_curve p pairs =
      let curve : DiscountCurve N = to_discount_curve p in
      let existing = or_else (lookup p.currency pairs) no_curves_yet in
      insert p.currency (filed p.curve_type p.index_id curve existing) pairs

  unfoldable pub add_curves : List CurvePayload → Dict (Pending N) → Dict (Pending N)
  unfolding add_curve
  add_curves [] pairs = pairs
  add_curves (p ∷ ps) pairs = add_curves ps (add_curve p pairs)

  -- `out[baseCcy + quoteCcy] = parseFloat(rate)`
  unfoldable pub spot_rates : List FxSpotPayload → Dict N → Dict N
  unfolding insert
  spot_rates [] out = out
  spot_rates (p ∷ ps) out =
      spot_rates ps (insert (p.base_ccy ++ p.quote_ccy) (reader.parse_float p.rate) out)

module _ ⦃platform : Platform⦄ where
  -- `asOf ?? new Date().toISOString()`; `now` is the time of `new Date()`.
  abbrev as_of_first : ℕ → List CurvePayload → String
  as_of_first now [] = platform.to_iso now
  as_of_first now (p ∷ ps) = p.as_of

-- `cids ? build(cids) : undefined`
abbrev pub when_given :
    {A : Type 0} → (List String → Replayed A) → Option (List String) → Replayed (Option A)
when_given build none = done none
when_given build (some cids) = build cids >>= λ a. done (some a)

module _ {N : Type 0} ⦃reader : TextReader N⦄ ⦃platform : Platform⦄ where
  -- `buildCurveBook`
  unfoldable pub build_curve_book : ℕ → List String → Dict CurvePayload → Replayed (CurveBook N)
  unfolding payloads add_curves paired
  build_curve_book now cids curves_by_id = payloads no_curve curves_by_id cids >>= λ ps.
      done record { as_of = as_of_first now ps; by_currency = paired (add_curves ps []) }

  -- `fetchFxSpots`
  unfoldable pub fetch_fx_spots : List (Row FxSpotPayload) → List String → Replayed (Dict N)
  unfolding payloads by_id spot_rates
  fetch_fx_spots rows cids =
      payloads no_spot_contract (by_id rows []) cids >>= λ ps. done (spot_rates ps [])

  abbrev pub observed : MarketRows → SnapshotKey → List IndexPayload → List (RateObservation N)
  observed rows snapshot [] = []
  observed rows snapshot (index ∷ rest) =
      flatten_observations rows.observations index.index_id snapshot.observation_cutoff

  abbrev pub primary_index : List IndexPayload → Option (FloatingRateIndex N)
  primary_index [] = none
  primary_index (index ∷ rest) = some (to_floating_rate_index index)

  unfoldable pub build_context_from_snapshot :
      ℕ → MarketRows → SnapshotKey → String → Replayed (PricingContext N)
  unfolding payloads by_id build_curve_book fetch_fx_spots flatten_observations to_discount_curve
      to_floating_rate_index
  build_context_from_snapshot now rows snapshot valuation_ccy =
      let curves_by_id = by_id rows.curves [] in
      payloads no_curve curves_by_id snapshot.curve_cids >>= λ snap_curves.
      payloads no_index (by_id rows.indices []) snapshot.index_cids >>= λ snap_indices.
      elim (find (is_discount_in valuation_ccy) snap_curves) [
        | none ↦ failed (no_discount valuation_ccy)
        | some discount ↦
            when_given (λ cids. build_curve_book now cids curves_by_id) snapshot.book_curve_cids
            >>= λ book.
                when_given (fetch_fx_spots rows.fx_spots) snapshot.fx_spot_cids >>= λ fx_spots.
                done record {
                  curve = to_discount_curve discount;
                  index = primary_index snap_indices;
                  indices_by_leg = none;
                  observations = observed rows snapshot snap_indices;
                  book = book;
                  fx_spots = fx_spots;
                  reporting_ccy = none;
                  credit_spread = none;
                  value_date = none;
                }
      ]
