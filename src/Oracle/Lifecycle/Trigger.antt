-- ===== src/Oracle/Lifecycle/Trigger.antt =====
-- oracle/src/services/scheduler/trigger-lifecycle.ts
use irsforge.Base.{
  ℕ, suc, ◌+◌, Option, none, some, String, List, [], ◌∷◌, ◌++◌, map, Bool, true, false,
  if◌then◌else◌,
}
use irsforge.Oracle.Lifecycle.Rows.{
  InstrumentKey, Swap, Effect, effect_exists_for, ClockEvent, ensure_fixing_event, TickResult,
  no_result, add_fired, add_skipped, add_error,
}
pub mod Laws

-- `TriggerLifecycleByScheduler` on a swap, with the event and the observables.
pub record Trigger : Type 0 where
  pub swap_cid : String
  pub event_cid : String
  pub observable_cids : List String

-- The ledger during one tick: its rows, and its answers: `create n` to the n-th request for a
-- fixing event, and whether an exercise succeeds.
pub record Ledger : Type 0 where
  pub swaps : List Swap
  pub effects : List Effect
  pub observations : List String
  pub events : List ClockEvent
  pub create : ℕ → Option (Option String)
  pub exercise : Trigger → Bool

-- The variables of the loop, and the exercises that were sent.
pub record Loop : Type 0 where
  pub event_cid : Option String
  pub requests : ℕ
  pub sent : List Trigger
  pub result : TickResult

module _ (ledger : Ledger) (today_iso : String) where
  abbrev fire_with : Swap → String → Loop → Loop
  fire_with swap event_cid s =
      let command : Trigger = record {
        swap_cid = swap.contract_id;
        event_cid = event_cid;
        observable_cids = ledger.observations;
      } in
      record s {
        event_cid = some event_cid;
        sent = s.sent ++ command ∷ [];
        result =
            if ledger.exercise command
            then add_fired s.result
            else add_error swap.contract_id s.result;
      }

  abbrev failed : Swap → Loop → Loop
  failed swap s = record s { result = add_error swap.contract_id s.result }

  abbrev with_answer : Swap → Option String → Loop → Loop
  with_answer swap none s = failed swap s
  with_answer swap (some cid) s = fire_with swap cid s

  -- `eventCid`, made where there is none yet.
  abbrev with_event : Swap → Option String → Loop → Loop
  with_event swap (some cid) s = fire_with swap cid s
  with_event swap none s =
      with_answer swap (ensure_fixing_event ledger.events (ledger.create s.requests) today_iso)
        (record s { requests = suc s.requests })

  unfoldable pub trigger_one : Swap → Loop → Loop
  trigger_one swap s =
      if effect_exists_for ledger.effects swap.instrument_key.id today_iso
      then record s { result = add_skipped s.result }
      else with_event swap s.event_cid s

  unfoldable pub trigger_all : List Swap → Loop → Loop
  trigger_all [] s = s
  trigger_all (swap ∷ swaps) s = trigger_all swaps (trigger_one swap s)

  unfoldable pub trigger_lifecycle_tick : Loop
  trigger_lifecycle_tick =
      trigger_all ledger.swaps
        (record { event_cid = none; requests = 0; sent = []; result = no_result })
