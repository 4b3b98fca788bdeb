-- ===== src/Oracle/Replay/Swap.antt =====
-- `resolveSwapConfig` of oracle/src/services/mark-publisher/replay.ts and its resolvers.
use irsforge.Base.{none, some, String, List, [], ◌∷◌, Bool, find, ◌==◌, ◌||◌, if◌then◌else◌}
use irsforge.Pricing.Number.{Number, ◌⊗◌, negative, fraction, whole}
use irsforge.Pricing.Schedule.{quarterly}
use irsforge.Pricing.Types.{
  Platform, PeriodicSchedule, fixed, float, protection, receive, irs, cds, SwapConfig, Outcome, ok,
  threw,
}
use irsforge.Pricing.Fpml.{TextReader, FpmlSwapStreamPayload, map_day_count}
use irsforge.Pricing.Fpml.Swap.{streams_to_parsed_fpml, parsed_fpml_to_swap_config}
use irsforge.Oracle.Replay.{
  no_workflow, no_instrument, deprecated, unknown_type, not_priced, Replayed, done, failed, ◌>>=◌,
  Row, PeriodicSchedulePayload, IrsInstrumentPayload, CdsInstrumentPayload,
}

pub record SwapWorkflow : Type 0 where
  pub swap_type : String
  pub instrument_id : String
  pub notional : String

pub record FpmlInstrumentPayload : Type 0 where
  pub swap_streams : List FpmlSwapStreamPayload
  pub id : String

-- The answers to the queries of one call.
pub record SwapRows : Type 0 where
  pub workflows : List (Row SwapWorkflow)
  pub irs_instruments : List (Row IrsInstrumentPayload)
  pub cds_instruments : List (Row CdsInstrumentPayload)
  pub fpml_instruments : List (Row FpmlInstrumentPayload)

-- The pricing code's result in the replay.
abbrev pub from_pricing {ℓ} : {A : Type ℓ} → Outcome A → Replayed A
from_pricing (ok a) = done a
from_pricing (threw e) = failed (not_priced e)

-- `rows.find((r) => r.payload.id.unpack === id)`, or the error.
unfoldable pub instrument : {P : Type 0} → (P → String) → List (Row P) → String → Replayed P
instrument id_of rows id = elim (find (λ r. id_of r.payload == id) rows) [
  | none ↦ failed (no_instrument id)
  | some r ↦ done r.payload
]

-- The cases of the switch of `resolveSwapConfig`.
abbrev pub is_irs_like : String → Bool
is_irs_like t = t == "IRS" || t == "OIS"

abbrev pub is_fpml_like : String → Bool
is_fpml_like t = t == "BASIS" || t == "XCCY" || t == "FPML" || t == "FpML"

abbrev pub is_deprecated : String → Bool
is_deprecated t = t == "CCY" || t == "FX" || t == "ASSET"

module _ {N : Type 0} ⦃arithmetic : Number N⦄ ⦃reader : TextReader N⦄ ⦃platform : Platform⦄ where
  abbrev schedule_of : TextReader N → PeriodicSchedulePayload → PeriodicSchedule
  schedule_of texts p = record {
    start_date = texts.calendar_day (platform.parse p.effective_date);
    end_date = texts.calendar_day (platform.parse p.termination_date);
    frequency = quarterly;
  }

  -- `sign`
  abbrev pub sign_of : Bool → N
  sign_of owner_receives_fix = if owner_receives_fix then whole 1 else negative (whole 1)

  unfoldable pub map_irs_to_swap_config : IrsInstrumentPayload → N → Replayed (SwapConfig N)
  unfolding map_day_count
  map_irs_to_swap_config p notional =
      from_pricing (map_day_count p.day_count_convention) >>= λ day_count. done record {
        kind = irs;
        legs =
            fixed record {
              direction = receive;
              currency = "USD";
              notional = sign_of p.owner_receives_fix ⊗ notional;
              rate = reader.parse_float p.fix_rate;
              day_count = day_count;
              schedule = schedule_of reader p.periodic_schedule;
            }
            ∷ float record {
              direction = receive;
              currency = "USD";
              notional = negative (sign_of p.owner_receives_fix) ⊗ notional;
              index_id = p.reference_rate_id;
              spread = whole 0;
              day_count = day_count;
              schedule = schedule_of reader p.periodic_schedule;
            }
            ∷ [];
        maturity_date = platform.parse p.periodic_schedule.termination_date;
      }

  unfoldable pub map_cds_to_swap_config : CdsInstrumentPayload → N → Replayed (SwapConfig N)
  unfolding map_day_count
  map_cds_to_swap_config p notional =
      from_pricing (map_day_count p.day_count_convention) >>= λ day_count. done record {
        kind = cds;
        legs =
            fixed record {
              direction = receive;
              currency = "USD";
              notional = sign_of p.owner_receives_fix ⊗ notional;
              rate = reader.parse_float p.fix_rate;
              day_count = day_count;
              schedule = schedule_of reader p.periodic_schedule;
            }
            ∷ protection record {
              direction = receive;
              notional = negative (sign_of p.owner_receives_fix) ⊗ notional;
              recovery_rate = fraction 4 10;
            }
            ∷ [];
        maturity_date = platform.parse p.periodic_schedule.termination_date;
      }

  unfoldable pub resolve_irs_like : SwapRows → SwapWorkflow → Replayed (SwapConfig N)
  unfolding instrument map_irs_to_swap_config
  resolve_irs_like rows wf = instrument (λ p. p.id) rows.irs_instruments wf.instrument_id >>= λ p.
      map_irs_to_swap_config p (reader.parse_float wf.notional)

  unfoldable pub resolve_cds : SwapRows → SwapWorkflow → Replayed (SwapConfig N)
  unfolding instrument map_cds_to_swap_config
  resolve_cds rows wf = instrument (λ p. p.id) rows.cds_instruments wf.instrument_id >>= λ p.
      map_cds_to_swap_config p (reader.parse_float wf.notional)

  -- `resolveFpmlLike`, which is also `resolveBasis`, `resolveXccy` and `resolveFpml`.
  unfoldable pub resolve_fpml_like : SwapRows → SwapWorkflow → Replayed (SwapConfig N)
  unfolding instrument streams_to_parsed_fpml parsed_fpml_to_swap_config
  resolve_fpml_like rows wf = instrument (λ p. p.id) rows.fpml_instruments wf.instrument_id >>= λ p.
      from_pricing (streams_to_parsed_fpml p.swap_streams) >>= λ parsed.
      from_pricing (parsed_fpml_to_swap_config parsed)

  -- The switch of `resolveSwapConfig`.
  unfoldable pub resolve_workflow : SwapRows → SwapWorkflow → Replayed (SwapConfig N)
  unfolding resolve_irs_like resolve_cds resolve_fpml_like
  resolve_workflow rows wf =
      if is_irs_like wf.swap_type
      then resolve_irs_like rows wf
      else if wf.swap_type == "CDS"
      then resolve_cds rows wf
      else if is_fpml_like wf.swap_type
      then resolve_fpml_like rows wf
      else if is_deprecated wf.swap_type
      then failed (deprecated wf.swap_type)
      else failed (unknown_type wf.swap_type)

  unfoldable pub resolve_swap_config : SwapRows → String → Replayed (SwapConfig N)
  unfolding resolve_workflow
  resolve_swap_config rows cid = elim (find (λ w. w.contract_id == cid) rows.workflows) [
    | none ↦ failed (no_workflow cid)
    | some wf ↦ resolve_workflow rows wf.payload
  ]
