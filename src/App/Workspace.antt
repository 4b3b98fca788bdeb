-- ===== src/App/Workspace.antt =====
-- app/src/features/workspace/hooks: the state of use-workspace-reducer.ts with its actions and
-- helpers. `N` are the platform's numbers, `I` the instrument payloads, which the reducer only
-- stores.
use irsforge.Base.{
  ℕ, zero, suc, ◌+◌, Option, none, some, String, List, [], ◌∷◌, ◌++◌, map, Bool, true, false, not,
  ◌||◌, eqb, if◌then◌else◌,
}
use irsforge.Pricing.Number.{Number, fraction, whole}
use irsforge.Pricing.Dates.{Day}
use irsforge.Pricing.Schedule.{Frequency, quarterly, semi_annual, annual}
use irsforge.Pricing.Types.{
  DayCountConvention, act_360, PeriodicSchedule, Direction, pay, receive, Leg, fixed, float,
  protection, asset_leg, fx_leg, SwapType, irs, ois, basis, xccy, cds, ccy, fx, asset, fpml,
  or_else,
}
use irsforge.Pricing.Cashflows.{item}
use irsforge.App.Workspace.Dates.{
  WorkspaceDates, tenor_anchor, DateChange, recalculate_dates, validate_dates, compute_tenor,
  build_default_workspace_dates, same_day,
}
pub mod Dates
pub mod Tenor
pub mod Defaults
pub mod Reducer
pub mod Sync
pub mod WhatIf
mod Tests

pub data WorkspaceMode : Type 0 where
  draft active whatif : WorkspaceMode

-- `in_force` is the status `'Active'`.
pub data SwapStatus : Type 0 where
  proposed in_force pending_settlement matured terminated : SwapStatus

pub data Role : Type 0 where
  proposer counterparty_role : Role

pub data ChoiceKey : Type 0 where
  accept reject withdraw : ChoiceKey

pub record PendingUnwind (N : Type 0) : Type 0 where
  pub proposal_cid : String
  pub proposer : String
  pub counterparty : String
  pub pv_amount : N
  pub reason : String
  pub proposed_at : String

-- `whatIfOriginal`
pub record Original (N : Type 0) : Type 0 where
  pub legs : List (Leg N)
  pub dates : WorkspaceDates

pub record WorkspaceState (N I : Type 0) : Type 0 where
  pub mode : WorkspaceMode
  pub swap_type : SwapType
  pub legs : List (Leg N)
  pub dates : WorkspaceDates
  pub draft_id : String
  pub counterparty : String
  pub contract_id : Option String
  pub swap_status : Option SwapStatus
  pub proposal_role : Option Role
  pub workflow_contract_id : Option String
  pub what_if_original : Option (Original N)
  pub workflow_party_a : Option String
  pub workflow_party_b : Option String
  pub workflow_regulators : List String
  pub workflow_instrument : Option I
  pub outstanding_effects_count : ℕ
  pub is_past_maturity : Bool
  pub pending_unwind : Option (PendingUnwind N)
  pub unwind_role : Option Role
  pub active_contracts_refetch_nonce : ℕ
  pub credit_spread : N
  pub notional_linked : Bool

-- The value that `UPDATE_LEG` sets, by the field that it names, after the coercion of numeric texts
-- to numbers. The fields `legType` and `underlyings` are left out.
pub data Edit (N : Type 0) : Type 0 where
  set_frequency : Frequency → Edit N
  set_currency set_index_id set_base_currency set_foreign_currency : String → Edit N
  set_notional set_rate set_spread set_recovery_rate set_fx_rate : N → Edit N
  set_day_count : DayCountConvention → Edit N

-- A saved draft; an old one has no directions.
pub record DraftConfig (N : Type 0) : Type 0 where
  pub kind : SwapType
  pub legs : List (Option Direction × Leg N)
  pub trade_date : Day
  pub effective_date : Day
  pub maturity_date : Day
  pub credit_spread : Option N
  pub notional_linked : Option Bool

pub data Action (N I : Type 0) : Type 0 where
  set_swap_type : SwapType → Action N I
  update_leg : (index : ℕ) → Edit N → Action N I
  add_leg toggle_direction enter_whatif exit_whatif refetch_active_contracts : Action N I
  toggle_notional_link : Action N I
  remove_leg : (index : ℕ) → Action N I
  set_dates : DateChange → Action N I
  set_counterparty : (party : String) → Action N I
  hydrate_from_draft : (draft_id : String) → DraftConfig N → Action N I
  hydrate_from_swap propose_success set_workflow_contract : (contract_id : String) → Action N I
  resolve_proposal : SwapType → Role → (counterparty : String) → Action N I
  hydrate_proposal_payload : SwapType → List (Leg N) → WorkspaceDates → Action N I
  exercise_success : ChoiceKey → (workflow_contract_id : Option String) → Action N I
  set_draft_id : (draft_id : String) → Action N I
  set_workflow_parties : (party_a party_b : String) → Action N I
  set_workflow_regulators : List String → Action N I
  set_workflow_instrument : Option I → Action N I
  set_outstanding_effects : (count : ℕ) → Action N I
  set_is_past_maturity : Bool → Action N I
  set_pending_unwind : Option (PendingUnwind N × Role) → Action N I
  set_credit_spread : N → Action N I
  set_leg_notional : (index : ℕ) (value : N) → Action N I

-- `notionalLinkedDefault`
unfoldable pub notional_linked_default : SwapType → Bool
notional_linked_default irs = true
notional_linked_default ois = true
notional_linked_default basis = true
notional_linked_default _ = false

-- `DEFAULT_DIRECTIONS`
abbrev default_directions : SwapType → Direction × Direction
default_directions irs = (receive, pay)
default_directions ois = (receive, pay)
default_directions xccy = (receive, pay)
default_directions asset = (receive, pay)
default_directions fpml = (receive, pay)
default_directions _ = (pay, receive)

-- `defaults[i] ?? 'receive'`
abbrev default_direction : SwapType → ℕ → Direction
default_direction kind zero = (default_directions kind).0
default_direction kind (suc zero) = (default_directions kind).1
default_direction kind (suc (suc i)) = receive

abbrev flipped : Direction → Direction
flipped pay = receive
flipped receive = pay

-- `{ ...schedule, startDate: dates.effectiveDate, endDate: dates.maturityDate }`
abbrev pub over : WorkspaceDates → PeriodicSchedule → PeriodicSchedule
over dates s = record s { start_date = dates.effective_date; end_date = dates.maturity_date }

module _ {N : Type 0} where
  abbrev pub synced : WorkspaceDates → Leg N → Leg N
  synced dates (fixed leg) = fixed record leg { schedule = over dates leg.schedule }
  synced dates (float leg) = float record leg { schedule = over dates leg.schedule }
  synced dates leg = leg

  unfoldable pub sync_leg_schedules : List (Leg N) → WorkspaceDates → List (Leg N)
  sync_leg_schedules legs dates = map (synced dates) legs

  abbrev pub turned_over : Leg N → Leg N
  turned_over (fixed leg) = fixed record leg { direction = flipped leg.direction }
  turned_over (float leg) = float record leg { direction = flipped leg.direction }
  turned_over (protection leg) = protection record leg { direction = flipped leg.direction }
  turned_over (asset_leg leg) = asset_leg record leg { direction = flipped leg.direction }
  turned_over (fx_leg leg) = fx_leg record leg { direction = flipped leg.direction }

  abbrev directed_to : Direction → Leg N → Leg N
  directed_to d (fixed leg) = fixed record leg { direction = d }
  directed_to d (float leg) = float record leg { direction = d }
  directed_to d (protection leg) = protection record leg { direction = d }
  directed_to d (asset_leg leg) = asset_leg record leg { direction = d }
  directed_to d (fx_leg leg) = fx_leg record leg { direction = d }

  abbrev pub with_notional : N → Leg N → Leg N
  with_notional n (fixed leg) = fixed record leg { notional = n }
  with_notional n (float leg) = float record leg { notional = n }
  with_notional n (protection leg) = protection record leg { notional = n }
  with_notional n (asset_leg leg) = asset_leg record leg { notional = n }
  with_notional n (fx_leg leg) = fx_leg record leg { notional = n }

  -- The loop of `backfillDirection`, from the place `i` on.
  unfoldable pub backfill_direction : SwapType → ℕ → List (Option Direction × Leg N) → List (Leg N)
  backfill_direction kind i [] = []
  backfill_direction kind i ((stored, leg) ∷ legs) =
      directed_to (or_else stored (default_direction kind i)) leg
      ∷ backfill_direction kind (suc i) legs

  -- `legs[index] = ...`: nothing changes where there is no such leg.
  abbrev pub update_at : (Leg N → Leg N) → ℕ → List (Leg N) → List (Leg N)
  update_at change i [] = []
  update_at change zero (leg ∷ legs) = change leg ∷ legs
  update_at change (suc i) (leg ∷ legs) = leg ∷ update_at change i legs

  -- `legs.filter((_, i) => i !== index)`
  abbrev pub without : ℕ → List (Leg N) → List (Leg N)
  without i [] = []
  without zero (leg ∷ legs) = legs
  without (suc i) (leg ∷ legs) = leg ∷ without i legs
