-- ===== src/Oracle/Replay/Tests.antt =====
-- The theorems on FpML streams and on the swaps of a replay at concrete inputs, with the integers
-- as the numbers.
use irsforge.Base.{
  ℕ, ◌≡◌, refl, ap, sym, ◌∙◌, ◌↔◌, arith, ◌+◌, ◌*◌, Option, none, some, String, [], ◌∷◌, false, map,
  filter,
}
use Prim.Native.String.{count}
use mathlib.Core.List.{Memᴰ, Permᴰ}
use irsforge.Base.Dict.{lookup, insert}
use irsforge.Base.Int.{ℤ, pos, neg, ◌*ℤ◌, floor_div, pos_part, neg_part, sign_laws}
use irsforge.Pricing.Number.{integers, ◌⊗◌, negative, whole}
use irsforge.Pricing.Dates.{Day}
use irsforge.Pricing.Schedule.{quarterly}
use irsforge.Pricing.Types.{
  Platform, PeriodicSchedule, act_360, fixed, float, Direction, pay, receive, irs, SwapConfig, ok,
  PricingContext, discount_type, linear_zero, curve_act_360,
}
use irsforge.Pricing.Cashflows.Sort.{IsAscending}
use irsforge.Pricing.Fpml.{
  TextReader, ParsedRateType, fixed_rate_type, float_rate_type, ParsedLeg, ParsedFpml, classify,
  classify_legs, classify_pair, is_ois, map_day_count,
}
use irsforge.Pricing.Fpml.Swap.{build_fixed_float, build_config, parsed_fpml_to_swap_config}
use irsforge.Pricing.Fpml.Laws.{
  Suits, classify-Suits, side, legs_of, counted, parsed_fpml_to_swap_config-counted,
}
use irsforge.Oracle.Replay.{
  done, Row, by_id, SnapshotKey, CurvePayload, to_discount_curve, flatten_observations,
}
use irsforge.Oracle.Replay.Context.{
  MarketRows, payloads, paired, add_curve, add_curves, build_curve_book,
  build_context_from_snapshot,
}
use irsforge.Oracle.Replay.Complete.{IsComplete, build_context_from_snapshot-IsComplete}
use irsforge.Oracle.Replay.Observations.{
  observations_of, in_time, read_observation, flatten_observations_sound,
}
use irsforge.Oracle.Replay.Order.{first_index, TakesIndex, build_context_from_snapshot-TakesIndex}
use irsforge.Oracle.Replay.Snapshot.{build_snapshot, build_snapshot-reordered}
use irsforge.Oracle.Replay.Context.{fetch_fx_spots}
use irsforge.Oracle.Replay.{to_floating_rate_index, until, collected}
use irsforge.Oracle.Replay.Book.{AllPaired, build_curve_book-AllPaired}
use irsforge.Oracle.Replay.Swap.{
  SwapWorkflow, SwapRows, instrument, map_irs_to_swap_config, resolve_irs_like, resolve_workflow,
  resolve_swap_config,
}
use irsforge.Oracle.Replay.Priceable.{IsPriceable, resolve_swap_config-IsPriceable}
mod Market

times_parts :
    (a b : ℤ)
    → pos_part (a *ℤ b) + (neg_part a * pos_part b + pos_part a * neg_part b)
      ≡ neg_part (a *ℤ b) + (pos_part a * pos_part b + neg_part a * neg_part b)
unfolding ◌*ℤ◌
times_parts a b = ground arith

pos_part-neg : (x : ℤ) → pos_part (neg x) ≡ neg_part x
pos_part-neg x = omega sign_laws

neg_part-neg : (x : ℤ) → neg_part (neg x) ≡ pos_part x
neg_part-neg x = omega sign_laws

turn : (x y : ℤ) → negative x ⊗ y ≡ negative (x ⊗ y)
turn x y =
    let t = rw (pos_part-neg x, neg_part-neg x) at (times_parts (neg x) y) in
    omega (sign_laws, t, times_parts x y)

one : (x : ℤ) → whole 1 ⊗ x ≡ x
unfolding floor_div
one x = omega (sign_laws, times_parts (pos 1) x)

neg-neg : (x : ℤ) → neg (neg x) ≡ x
neg-neg x = omega sign_laws

once : (x : ℤ) → whole 1 ⊗ negative x ≡ negative (whole 1) ⊗ x
once x = one (negative x) ∙ ap negative (sym (one x)) ∙ sym (turn (whole 1) x)

twice : (x : ℤ) → negative (whole 1) ⊗ negative x ≡ whole 1 ⊗ x
twice x = turn (whole 1) (negative x) ∙ ap negative (one (negative x)) ∙ neg-neg x ∙ sym (one x)

-- A text stands for the number of its letters, and a time for a day of January.
instance abbrev pub letter_platform : Platform
letter_platform = record { time_of = λ d. d.day; parse = count; to_iso = λ t. "" }

abbrev january : ℕ → Day
january t = record { year = 2025; month = 0; day = t }

instance abbrev pub letter_reader : TextReader ℤ
letter_reader = record {
  parse_float = λ s. pos (count s);
  parse_int = λ s. pos (count s);
  calendar_day = january;
}

abbrev parsed_leg : ParsedRateType → ℕ → ParsedLeg ℤ
parsed_leg rate_type notional = record {
  currency = "USD";
  notional = pos notional;
  rate_type = rate_type;
  fixed_rate = some (pos 3);
  index_id = some "SOFR";
  spread = none;
  compounding = none;
  day_count_fraction = "Act360";
  payer_party_ref = none;
}

abbrev fixed_float : ParsedFpml ℤ
fixed_float = record {
  legs = parsed_leg float_rate_type 7 ∷ parsed_leg fixed_rate_type 5 ∷ [];
  effective_date = 1;
  termination_date = 9;
}

classify-Suits_example : Suits (classify fixed_float) fixed_float.legs
classify-Suits_example = classify-Suits fixed_float

abbrev in_january : PeriodicSchedule
in_january = record { start_date = january 1; end_date = january 9; frequency = quarterly }

-- The swap of two parsed legs, or of an instrument, with these directions and notionals.
abbrev swap_with : Direction → ℤ → ℤ → SwapConfig ℤ
swap_with float_direction received paid = record {
  kind = irs;
  legs =
      fixed record {
        direction = receive;
        currency = "USD";
        notional = received;
        rate = pos 3;
        day_count = act_360;
        schedule = in_january;
      }
      ∷ float record {
        direction = float_direction;
        currency = "USD";
        notional = paid;
        index_id = "SOFR";
        spread = whole 0;
        day_count = act_360;
        schedule = in_january;
      }
      ∷ [];
  maturity_date = 9;
}

abbrev nothing_else : PricingContext ℤ
nothing_else = record {
  curve = record {
    currency = "USD";
    curve_type = discount_type;
    index_id = none;
    as_of = "aa";
    pillars = [];
    interpolation = linear_zero;
    day_count = curve_act_360;
  };
  index = none;
  indices_by_leg = none;
  observations = [];
  book = none;
  fx_spots = none;
  reporting_ccy = none;
  credit_spread = none;
  value_date = none;
}

parsed_fpml_to_swap_config-counted_example :
    map
      (counted (swap_with pay (pos 5) (negative (pos 7))) nothing_else "USD" (pos 2))
      (swap_with pay (pos 5) (negative (pos 7))).legs
    ≡ map
        (λ leg. ok (side (classify fixed_float) ⊗ (leg.notional ⊗ pos 2)))
        (legs_of (classify fixed_float))
unfolding parsed_fpml_to_swap_config build_config build_fixed_float classify classify_legs
    classify_pair is_ois map_day_count
parsed_fpml_to_swap_config-counted_example =
    parsed_fpml_to_swap_config-counted turn twice once nothing_else "USD" (pos 2) fixed_float
      (swap_with pay (pos 5) (negative (pos 7))) refl refl

abbrev trades : SwapRows
trades = record {
  workflows =
      record {
        contract_id = "w1";
        payload = record { swap_type = "OIS"; instrument_id = "s1"; notional = "aaaaa" };
      }
      ∷ [];
  irs_instruments =
      record {
        contract_id = "r1";
        payload = record {
          reference_rate_id = "SOFR";
          owner_receives_fix = false;
          fix_rate = "aaa";
          periodic_schedule = record { effective_date = "a"; termination_date = "aaaaaaaaa" };
          day_count_convention = "Act360";
          id = "s1";
        };
      }
      ∷ [];
  cds_instruments = [];
  fpml_instruments = [];
}

abbrev paid_fixed : SwapConfig ℤ
paid_fixed = swap_with receive (negative (whole 1) ⊗ pos 5) (negative (negative (whole 1)) ⊗ pos 5)

resolve_swap_config-IsPriceable_example : IsPriceable paid_fixed
unfolding resolve_swap_config resolve_workflow resolve_irs_like instrument map_irs_to_swap_config
    map_day_count
resolve_swap_config-IsPriceable_example =
    resolve_swap_config-IsPriceable trades "w1" paid_fixed refl
