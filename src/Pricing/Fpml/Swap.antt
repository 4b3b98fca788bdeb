-- ===== src/Pricing/Fpml/Swap.antt =====
-- shared-pricing/src/fpml/stream-payload.ts and build-config.ts: from streams to a swap.
use irsforge.Base.{none, some, String, List, [], ◌∷◌}
use irsforge.Pricing.Number.{Number, negative, whole}
use irsforge.Pricing.Schedule.{quarterly}
use irsforge.Pricing.Types.{
  Platform, PeriodicSchedule, fixed, float, pay, receive, SwapType, irs, basis, xccy, SwapConfig,
  Outcome, ok, threw, ◌>>=◌, or_else, irregular_notional, no_streams, unsupported_leg_shape,
  unsupported_stream_count,
}
use irsforge.Pricing.Fpml.{
  TextReader, ParsedLeg, fixed_rate_type, float_rate_type, ParsedFpml, Classification, irs_of,
  ois_of, basis_of, xccy_of, wrong_count, wrong_shape, classify, map_day_count,
  FpmlSwapStreamPayload, RateTypeValue, fixed_value, floating_value, regular, fx_linked,
}

module _ {N : Type 0} ⦃arithmetic : Number N⦄ ⦃reader : TextReader N⦄ where
  -- The first spread of the schedule, or 0.
  abbrev first_spread : List String → N
  first_spread [] = whole 0
  first_spread (s ∷ ss) = reader.parse_float s

  -- The two returns of `streamToParsedLeg`.
  abbrev leg_with : String → N → String → RateTypeValue → ParsedLeg N
  leg_with currency notional day_count_fraction (fixed_value initial_value) = record {
    currency = currency;
    notional = notional;
    rate_type = fixed_rate_type;
    fixed_rate = some (reader.parse_float initial_value);
    index_id = none;
    spread = none;
    compounding = none;
    day_count_fraction = day_count_fraction;
    payer_party_ref = none;
  }
  leg_with currency notional day_count_fraction (floating_value index spreads) = record {
    currency = currency;
    notional = notional;
    rate_type = float_rate_type;
    fixed_rate = none;
    index_id = some index;
    spread = some (first_spread spreads);
    compounding = none;
    day_count_fraction = day_count_fraction;
    payer_party_ref = none;
  }

  unfoldable pub stream_to_parsed_leg : FpmlSwapStreamPayload → Outcome (ParsedLeg N)
  stream_to_parsed_leg stream = elim stream.notional_schedule_value [
    | fx_linked ↦ threw irregular_notional
    | regular initial_value currency ↦ ok (
        leg_with currency (reader.parse_float initial_value) stream.day_count_fraction
          stream.rate_type_value)
  ]

  -- `streams.map(streamToParsedLeg)`
  unfoldable pub stream_legs : List FpmlSwapStreamPayload → Outcome (List (ParsedLeg N))
  unfolding stream_to_parsed_leg
  stream_legs [] = ok []
  stream_legs (stream ∷ streams) =
      stream_to_parsed_leg stream >>= λ leg. stream_legs streams >>= λ legs. ok (leg ∷ legs)

module _ {N : Type 0} ⦃arithmetic : Number N⦄ ⦃reader : TextReader N⦄ ⦃platform : Platform⦄ where
  unfoldable pub streams_to_parsed_fpml : List FpmlSwapStreamPayload → Outcome (ParsedFpml N)
  unfolding stream_legs
  streams_to_parsed_fpml [] = threw no_streams
  streams_to_parsed_fpml (first ∷ streams) = stream_legs (first ∷ streams) >>= λ legs. ok record {
    legs = legs;
    effective_date = platform.parse first.effective_date;
    termination_date = platform.parse first.termination_date;
  }

module _ {N : Type 0} ⦃arithmetic : Number N⦄ ⦃reader : TextReader N⦄ where
  -- `scheduleOf`
  abbrev pub schedule_of : ParsedFpml N → PeriodicSchedule
  schedule_of parsed = record {
    start_date = reader.calendar_day parsed.effective_date;
    end_date = reader.calendar_day parsed.termination_date;
    frequency = quarterly;
  }

  -- `buildIrsLikeSwapConfig` and `buildXccySwapConfig`, which differ in the swap's type only.
  unfoldable pub build_fixed_float :
      SwapType → ParsedLeg N → ParsedLeg N → ParsedFpml N → Outcome (SwapConfig N)
  unfolding map_day_count
  build_fixed_float kind fixed_leg float_leg parsed =
      map_day_count fixed_leg.day_count_fraction >>= λ fixed_day_count.
      map_day_count float_leg.day_count_fraction >>= λ float_day_count. ok record {
        kind = kind;
        legs =
            fixed record {
              direction = receive;
              currency = fixed_leg.currency;
              notional = fixed_leg.notional;
              rate = or_else fixed_leg.fixed_rate (whole 0);
              day_count = fixed_day_count;
              schedule = schedule_of parsed;
            }
            ∷ float record {
              direction = pay;
              currency = float_leg.currency;
              notional = negative float_leg.notional;
              index_id = or_else float_leg.index_id "";
              spread = or_else float_leg.spread (whole 0);
              day_count = float_day_count;
              schedule = schedule_of parsed;
            }
            ∷ [];
        maturity_date = parsed.termination_date;
      }

  unfoldable pub build_basis_swap_config :
      ParsedLeg N → ParsedLeg N → ParsedFpml N → Outcome (SwapConfig N)
  unfolding map_day_count
  build_basis_swap_config leg_a leg_b parsed =
      map_day_count leg_a.day_count_fraction >>= λ day_count_a.
      map_day_count leg_b.day_count_fraction >>= λ day_count_b. ok record {
        kind = basis;
        legs =
            float record {
              direction = pay;
              currency = leg_a.currency;
              notional = leg_a.notional;
              index_id = or_else leg_a.index_id "";
              spread = or_else leg_a.spread (whole 0);
              day_count = day_count_a;
              schedule = schedule_of parsed;
            }
            ∷ float record {
              direction = receive;
              currency = leg_b.currency;
              notional = negative leg_b.notional;
              index_id = or_else leg_b.index_id "";
              spread = or_else leg_b.spread (whole 0);
              day_count = day_count_b;
              schedule = schedule_of parsed;
            }
            ∷ [];
        maturity_date = parsed.termination_date;
      }

  -- The switch of `parsedFpmlToSwapConfig`.
  unfoldable pub build_config : Classification N → ParsedFpml N → Outcome (SwapConfig N)
  unfolding build_fixed_float build_basis_swap_config
  build_config (irs_of x y) parsed = build_fixed_float irs x y parsed
  build_config (ois_of x y) parsed = build_fixed_float irs x y parsed
  build_config (basis_of a b) parsed = build_basis_swap_config a b parsed
  build_config (xccy_of x y) parsed = build_fixed_float xccy x y parsed
  build_config (wrong_count count) parsed = threw (unsupported_stream_count count)
  build_config wrong_shape parsed = threw unsupported_leg_shape

  unfoldable pub parsed_fpml_to_swap_config : ParsedFpml N → Outcome (SwapConfig N)
  unfolding build_config classify
  parsed_fpml_to_swap_config parsed = build_config (classify parsed) parsed
