-- ===== src/Oracle/Lifecycle/Rows.antt =====
-- What the ticks of oracle/src/services/scheduler share: the rows that they read
-- (effect-discovery.ts, instrument-events.ts), the commands that they send, and the counts that
-- they return (index.ts).
--
-- Arguments that are only copied from the discovered setup into a command are left out, and so is
-- the text of an error: an error is its context.
use irsforge.Base.{
  ℕ, suc, Option, none, some, String, List, [], ◌∷◌, ◌++◌, Bool, ◌&&◌, ◌==◌, if◌then◌else◌, any,
  find,
}
use text.Mathlib.Text.{starts_with}

pub record InstrumentKey : Type 0 where
  pub depository : String
  pub issuer : String
  pub id : String
  pub version : String
  pub holding_standard : String

-- A `SwapWorkflow` contract.
pub record Swap : Type 0 where
  pub contract_id : String
  pub party_a : String
  pub party_b : String
  pub instrument_key : InstrumentKey

-- A lifecycle `Effect` contract.
pub record Effect : Type 0 where
  pub contract_id : String
  pub target : String
  pub event_time : String

unfoldable pub effect_exists_for : List Effect → String → String → Bool
effect_exists_for effects instrument_id date_iso =
    any (λ e. e.target == instrument_id && starts_with e.event_time date_iso) effects

-- A `NettedBatch` contract: the effects that it has settled.
pub record Batch : Type 0 where
  pub settled_effects : List String

-- `new Set(batches.flatMap((b) => b.payload.settledEffects))`
unfoldable pub consumed_by : List Batch → List String
consumed_by [] = []
consumed_by (b ∷ bs) = b.settled_effects ++ consumed_by bs

pub record TickResult : Type 0 where
  pub fired : ℕ
  pub skipped : ℕ
  pub errors : List String

abbrev pub no_result : TickResult
no_result = record { fired = 0; skipped = 0; errors = [] }

abbrev pub add_fired : TickResult → TickResult
add_fired r = record r { fired = suc r.fired }

abbrev pub add_skipped : TickResult → TickResult
add_skipped r = record r { skipped = suc r.skipped }

abbrev pub add_error : String → TickResult → TickResult
add_error context r = record r { errors = r.errors ++ context ∷ [] }

-- A `DateClockUpdateEvent` contract.
pub record ClockEvent : Type 0 where
  pub contract_id : String
  pub date : String

-- `ensureFixingEventForDate` of instrument-events.ts. `create` is the answer to
-- `CreateFixingEventByScheduler`: `none` where it fails, and with no contract id in it where the
-- answer has none.
unfoldable pub ensure_fixing_event :
    List ClockEvent → Option (Option String) → String → Option String
ensure_fixing_event rows create date_iso = elim (find (λ r. r.date == date_iso) rows) [
  | some existing ↦ some existing.contract_id
  | none ↦ elim create [
    | none ↦ none
    | some none ↦ none
    | some (some cid) ↦ if cid == "" then none else some cid
  ]
]
