-- ===== src/Oracle/Replay/Tests/Market.antt =====
-- The theorems on the market data of a replay and on the snapshot's key at concrete inputs.
use irsforge.Base.{◌≡◌, refl, ◌↔◌, Option, none, some, String, [], ◌∷◌, map, filter}
use mathlib.Core.List.{Memᴰ, Permᴰ}
use irsforge.Base.Dict.{lookup, insert}
use irsforge.Base.Int.{ℤ, pos}
use irsforge.Pricing.Number.{integers}
use irsforge.Pricing.Types.{
  CurveType, discount_type, projection_type, linear_zero, curve_act_360, sofr, DiscountCurve,
  CurveBook, RateObservation, PricingContext,
}
use irsforge.Pricing.Cashflows.Sort.{IsAscending}
use irsforge.Oracle.Replay.{
  done, Row, by_id, SnapshotKey, CurvePayload, to_discount_curve, flatten_observations,
}
use irsforge.Oracle.Replay.Context.{
  MarketRows, payloads, paired, add_curve, add_curves, build_curve_book,
  build_context_from_snapshot,
}
use irsforge.Oracle.Replay.Complete.{IsComplete, build_context_from_snapshot-IsComplete}
use irsforge.Oracle.Replay.Observations.{
  observations_of, in_time, read_observation, flatten_observations_sound,
}
use irsforge.Oracle.Replay.Order.{first_index, TakesIndex, build_context_from_snapshot-TakesIndex}
use irsforge.Oracle.Replay.Snapshot.{build_snapshot, build_snapshot-reordered}
use irsforge.Oracle.Replay.Context.{fetch_fx_spots}
use irsforge.Oracle.Replay.{to_floating_rate_index, until, collected}
use irsforge.Oracle.Replay.Book.{AllPaired, build_curve_book-AllPaired}
use irsforge.Oracle.Replay.Tests.{letter_platform, letter_reader}

abbrev curve_row : String → CurveType → Option String → Row CurvePayload
curve_row cid kind index_id = record {
  contract_id = cid;
  payload = record {
    currency = "USD";
    curve_type = kind;
    index_id = index_id;
    as_of = "aa";
    pillars = record { tenor_days = "aaaaa"; zero_rate = "a" } ∷ [];
    interpolation = linear_zero;
    day_count = curve_act_360;
  };
}

abbrev market : MarketRows
market = record {
  curves = curve_row "c1" discount_type none ∷ curve_row "c2" projection_type (some "SOFR") ∷ [];
  indices =
      record {
        contract_id = "i1";
        payload = record { index_id = "SOFR"; family = sofr; lookback = ""; floor = none };
      }
      ∷ [];
  observations =
      record {
        contract_id = "o1";
        payload = record {
          id = "SOFR";
          observations = ("aaa", "a") ∷ ("aaaaaaa", "b") ∷ ("a", "aa") ∷ [];
        };
      }
      ∷ [];
  fx_spots = [];
}

abbrev snapshot : SnapshotKey
snapshot = record {
  curve_cids = "c1" ∷ "c2" ∷ [];
  index_cids = "i1" ∷ [];
  observation_cutoff = "aaaa";
  swap_cids = [];
  book_curve_cids = some ("c1" ∷ "c2" ∷ []);
  fx_spot_cids = none;
  cds_curve_cids = none;
}

build_context_from_snapshot-IsComplete_example :
    ((ctx : PricingContext ℤ) × (build_context_from_snapshot 0 market snapshot "USD" ≡ done ctx))
    ↔ IsComplete market snapshot "USD"
build_context_from_snapshot-IsComplete_example =
    build_context_from_snapshot-IsComplete 0 market snapshot "USD"

-- Both sides hold of this snapshot.
snapshot-IsComplete : IsComplete market snapshot "USD"
unfolding by_id lookup insert
snapshot-IsComplete = record {
  curves = (refl, (refl, tt));
  indices = (refl, tt);
  discount = ("c1", _, Memᴰ.head refl, refl, refl);
  book_curves = (refl, (refl, tt));
  fx_spots = tt;
}

flatten_observations_sound_example :
    IsAscending
      (λ (o : RateObservation ℤ). o.date)
      (flatten_observations market.observations "SOFR" "aaaa")
    × Permᴰ (flatten_observations {N = ℤ} market.observations "SOFR" "aaaa") (
        map read_observation (filter (in_time "aaaa") (observations_of "SOFR" market.observations)))
flatten_observations_sound_example = flatten_observations_sound market.observations "SOFR" "aaaa"

abbrev read_curve : CurveType → Option String → DiscountCurve ℤ
read_curve kind index_id = record {
  currency = "USD";
  curve_type = kind;
  index_id = index_id;
  as_of = "aa";
  pillars = record { tenor_days = pos 5; zero_rate = pos 1 } ∷ [];
  interpolation = linear_zero;
  day_count = curve_act_360;
}

abbrev usd_book : CurveBook ℤ
usd_book = record {
  as_of = "aa";
  by_currency =
      (
        "USD",
        record {
          discount = read_curve discount_type none;
          projections = ("SOFR", read_curve projection_type (some "SOFR")) ∷ [];
        },
      )
      ∷ [];
}

build_curve_book-AllPaired_example : AllPaired usd_book.by_currency
unfolding build_curve_book payloads add_curves add_curve paired to_discount_curve by_id lookup
    insert
build_curve_book-AllPaired_example =
    build_curve_book-AllPaired 0 ("c1" ∷ "c2" ∷ []) (by_id market.curves []) usd_book refl

abbrev context : PricingContext ℤ
context = record {
  curve = read_curve discount_type none;
  index = some (record { index_id = "SOFR"; family = sofr; lookback = 0; floor = none });
  indices_by_leg = none;
  observations = record { date = 1; rate = pos 2 } ∷ record { date = 3; rate = pos 1 } ∷ [];
  book = some usd_book;
  fx_spots = none;
  reporting_ccy = none;
  credit_spread = none;
  value_date = none;
}

build_context_from_snapshot-TakesIndex_example :
    TakesIndex market "aaaa" (first_index market.indices ("i1" ∷ [])) context
unfolding build_context_from_snapshot build_curve_book fetch_fx_spots payloads add_curves add_curve
    paired to_discount_curve to_floating_rate_index flatten_observations collected until by_id
    lookup insert
build_context_from_snapshot-TakesIndex_example =
    build_context_from_snapshot-TakesIndex 0 market snapshot "USD" context refl

-- The same contracts, found in another order.
abbrev found_otherwise : SnapshotKey
found_otherwise = record snapshot {
  curve_cids = "c2" ∷ "c1" ∷ [];
  book_curve_cids = some ("c2" ∷ "c1" ∷ []);
}

build_snapshot-reordered_example : build_snapshot snapshot ≡ build_snapshot found_otherwise
build_snapshot-reordered_example = build_snapshot-reordered snapshot found_otherwise (record {
  curves = Permᴰ.swap refl refl;
  indices = Permᴰ.cons refl Permᴰ.nil;
  cutoff = refl;
  swaps = Permᴰ.nil;
  book_curves = Permᴰ.swap refl refl;
  fx_spots = tt;
  cds_curves = tt;
})
