-- ===== src/App/Workspace/Reducer.antt =====
-- `initialWorkspaceState` and `workspaceReducer` of use-workspace-reducer.ts.
use irsforge.Base.{
  ℕ, zero, suc, Option, none, some, String, List, [], ◌∷◌, ◌++◌, map, Bool, false, not,
  if◌then◌else◌,
}
use irsforge.Pricing.Number.{Number, fraction}
use irsforge.Pricing.Dates.{Day}
use irsforge.Pricing.Types.{Leg, fixed, float, protection, fx_leg, SwapType, irs, or_else}
use irsforge.App.Workspace.{
  WorkspaceState, Original, draft, active, whatif, proposed, in_force, terminated, proposer, accept,
  Edit, set_frequency, set_currency, set_index_id, set_base_currency, set_foreign_currency,
  set_notional, set_rate, set_spread, set_recovery_rate, set_fx_rate, set_day_count, DraftConfig,
  Action, set_swap_type, update_leg, add_leg, toggle_direction, enter_whatif, exit_whatif,
  refetch_active_contracts, toggle_notional_link, remove_leg, set_dates, set_counterparty,
  hydrate_from_draft, hydrate_from_swap, propose_success, set_workflow_contract, resolve_proposal,
  hydrate_proposal_payload, exercise_success, set_draft_id, set_workflow_parties,
  set_workflow_regulators, set_workflow_instrument, set_outstanding_effects, set_is_past_maturity,
  set_pending_unwind, set_credit_spread, set_leg_notional, notional_linked_default,
  sync_leg_schedules, turned_over, with_notional, backfill_direction, update_at, without,
}
use irsforge.App.Workspace.Defaults.{Opened, default_legs, build_default_float}
use irsforge.App.Workspace.Dates.{
  WorkspaceDates, tenor_anchor, DateError, recalculate_dates, validate_dates, compute_tenor,
  build_default_workspace_dates, same_day,
}

module _ {N : Type 0} where
  -- `leg[field] = value`; a field that the leg does not have is one that nothing reads.
  abbrev pub edited : Edit N → Leg N → Leg N
  edited (set_frequency f) (fixed leg) =
      fixed record leg { schedule = record leg.schedule { frequency = f } }
  edited (set_frequency f) (float leg) =
      float record leg { schedule = record leg.schedule { frequency = f } }
  edited (set_currency c) (fixed leg) = fixed record leg { currency = c }
  edited (set_currency c) (float leg) = float record leg { currency = c }
  edited (set_index_id i) (float leg) = float record leg { index_id = i }
  edited (set_base_currency c) (fx_leg leg) = fx_leg record leg { base_currency = c }
  edited (set_foreign_currency c) (fx_leg leg) = fx_leg record leg { foreign_currency = c }
  edited (set_notional n) leg = with_notional n leg
  edited (set_rate r) (fixed leg) = fixed record leg { rate = r }
  edited (set_spread s) (float leg) = float record leg { spread = s }
  edited (set_recovery_rate r) (protection leg) = protection record leg { recovery_rate = r }
  edited (set_fx_rate r) (fx_leg leg) = fx_leg record leg { fx_rate = r }
  edited (set_day_count d) (fixed leg) = fixed record leg { day_count = d }
  edited (set_day_count d) (float leg) = float record leg { day_count = d }
  edited _ leg = leg

  -- The dates of a draft.
  abbrev draft_dates : DraftConfig N → WorkspaceDates
  draft_dates config = record {
    trade_date = config.trade_date;
    effective_date = config.effective_date;
    maturity_date = config.maturity_date;
    tenor = compute_tenor config.effective_date config.maturity_date;
    anchor = tenor_anchor;
    eff_manually_set = not (same_day config.effective_date config.trade_date);
  }

  -- The loop of `SET_LEG_NOTIONAL`.
  abbrev pub set_notionals : Bool → ℕ → N → List (Leg N) → List (Leg N)
  set_notionals linked index value [] = []
  set_notionals linked zero value (leg ∷ legs) =
      with_notional value leg ∷ (if linked then map (with_notional value) legs else legs)
  set_notionals linked (suc i) value (leg ∷ legs) =
      (if linked then with_notional value leg else leg) ∷ set_notionals linked i value legs

module _ {N : Type 0} ⦃arithmetic : Number N⦄ {I : Type 0} (opened : Opened) where
  unfoldable pub initial_workspace_state : (draft_id : String) (today : Day) → WorkspaceState N I
  unfolding default_legs sync_leg_schedules build_default_workspace_dates notional_linked_default
  initial_workspace_state draft_id today =
      let dates = build_default_workspace_dates today in
      record {
        mode = draft;
        swap_type = irs;
        legs = sync_leg_schedules (default_legs opened irs) dates;
        dates = dates;
        draft_id = draft_id;
        counterparty = "";
        contract_id = none;
        swap_status = none;
        proposal_role = none;
        workflow_contract_id = none;
        what_if_original = none;
        workflow_party_a = none;
        workflow_party_b = none;
        workflow_regulators = [];
        workflow_instrument = none;
        outstanding_effects_count = 0;
        is_past_maturity = false;
        pending_unwind = none;
        unwind_role = none;
        active_contracts_refetch_nonce = 0;
        credit_spread = fraction 2 100;
        notional_linked = notional_linked_default irs;
      }

  abbrev pub swap_type_set : SwapType → WorkspaceState N I → WorkspaceState N I
  swap_type_set kind s = record s {
    swap_type = kind;
    legs = sync_leg_schedules (default_legs opened kind) s.dates;
    notional_linked = notional_linked_default kind;
  }

  -- `SET_DATES` after the check of the new dates, and `EXIT_WHATIF` with what it restores.
  abbrev pub dates_set : Option DateError → WorkspaceDates → WorkspaceState N I → WorkspaceState N I
  dates_set (some e) next s = s
  dates_set none next s = record s { dates = next; legs = sync_leg_schedules s.legs next }

  abbrev pub restored : Option (Original N) → WorkspaceState N I → WorkspaceState N I
  restored none s = s
  restored (some original) s = record s {
    mode = active;
    legs = original.legs;
    dates = original.dates;
    what_if_original = none;
  }

  abbrev drafted : String → DraftConfig N → WorkspaceState N I → WorkspaceState N I
  drafted draft_id config s = record s {
    draft_id = draft_id;
    swap_type = config.kind;
    legs = backfill_direction config.kind 0 config.legs;
    dates = draft_dates config;
    credit_spread = or_else config.credit_spread (fraction 2 100);
    notional_linked = or_else config.notional_linked (notional_linked_default config.kind);
  }

  abbrev pub entered : WorkspaceState N I → WorkspaceState N I
  entered s = record s {
    mode = whatif;
    what_if_original = some (record { legs = s.legs; dates = s.dates });
  }

  abbrev replaced :
      SwapType → List (Leg N) → WorkspaceDates → WorkspaceState N I → WorkspaceState N I
  replaced kind legs dates s = record s { swap_type = kind; legs = legs; dates = dates }

  unfoldable pub workspace_reducer : WorkspaceState N I → Action N I → WorkspaceState N I
  unfolding default_legs build_default_float sync_leg_schedules notional_linked_default
      recalculate_dates validate_dates compute_tenor backfill_direction
  workspace_reducer s (set_swap_type kind) = elim s.mode [
    | draft ↦ swap_type_set kind s
    | active ↦ s
    | whatif ↦ s
  ]
  workspace_reducer s (update_leg index edit) = record s {
    legs = update_at (edited edit) index s.legs;
  }
  workspace_reducer s add_leg = record s {
    legs = s.legs ++ sync_leg_schedules (build_default_float opened ∷ []) s.dates;
  }
  workspace_reducer s (remove_leg index) = record s { legs = without index s.legs }
  workspace_reducer s toggle_direction = record s { legs = map turned_over s.legs }
  workspace_reducer s (set_dates change) =
      let next = recalculate_dates s.dates change in dates_set (validate_dates next) next s
  workspace_reducer s (set_counterparty party) = record s { counterparty = party }
  workspace_reducer s (hydrate_from_draft draft_id config) = drafted draft_id config s
  workspace_reducer s (hydrate_from_swap cid) = record s {
    contract_id = some cid;
    mode = active;
    swap_status = some proposed;
  }
  workspace_reducer s (resolve_proposal kind role party) = record s {
    swap_type = kind;
    proposal_role = some role;
    counterparty = party;
  }
  workspace_reducer s (hydrate_proposal_payload kind legs dates) = elim s.mode [
    | whatif ↦ s
    | draft ↦ replaced kind legs dates s
    | active ↦ replaced kind legs dates s
  ]
  workspace_reducer s enter_whatif = elim s.mode [ active ↦ entered s | draft ↦ s | whatif ↦ s ]
  workspace_reducer s exit_whatif = elim s.mode [
    | whatif ↦ restored s.what_if_original s
    | draft ↦ s
    | active ↦ s
  ]
  workspace_reducer s (propose_success cid) = record s {
    contract_id = some cid;
    swap_status = some proposed;
    proposal_role = some proposer;
    mode = active;
  }
  workspace_reducer s (exercise_success accept cid) = record s {
    swap_status = some in_force;
    proposal_role = none;
    workflow_contract_id = elim cid [ none ↦ s.workflow_contract_id | some c ↦ some c ];
  }
  workspace_reducer s (exercise_success _ cid) = record s {
    swap_status = some terminated;
    proposal_role = none;
  }
  workspace_reducer s (set_workflow_contract cid) = record s {
    workflow_contract_id = some cid;
    swap_status = some in_force;
    proposal_role = none;
  }
  workspace_reducer s (set_draft_id draft_id) = record s { draft_id = draft_id }
  workspace_reducer s (set_workflow_parties a b) = record s {
    workflow_party_a = some a;
    workflow_party_b = some b;
  }
  workspace_reducer s (set_workflow_regulators regulators) = record s {
    workflow_regulators = regulators;
  }
  workspace_reducer s (set_workflow_instrument instrument) = record s {
    workflow_instrument = instrument;
  }
  workspace_reducer s (set_outstanding_effects count) = record s {
    outstanding_effects_count = count;
  }
  workspace_reducer s (set_is_past_maturity value) = record s { is_past_maturity = value }
  workspace_reducer s (set_pending_unwind none) = record s {
    pending_unwind = none;
    unwind_role = none;
  }
  workspace_reducer s (set_pending_unwind (some (unwind, role))) = record s {
    pending_unwind = some unwind;
    unwind_role = some role;
  }
  workspace_reducer s refetch_active_contracts = record s {
    active_contracts_refetch_nonce = suc s.active_contracts_refetch_nonce;
  }
  workspace_reducer s (set_credit_spread value) = record s { credit_spread = value }
  workspace_reducer s (set_leg_notional index value) = record s {
    legs = set_notionals s.notional_linked index value s.legs;
  }
  workspace_reducer s toggle_notional_link = record s { notional_linked = not s.notional_linked }
