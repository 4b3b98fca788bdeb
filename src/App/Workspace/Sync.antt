-- ===== src/App/Workspace/Sync.antt =====
-- Theorems on the schedules of the legs and the dates of the workspace.
use irsforge.Base.{
  ◌≡◌, refl, Option, none, some, List, [], ◌∷◌, map, All, All-append, String, Bool, true, false,
  arith, ℕ, zero, suc,
}
use irsforge.Pricing.Number.{Number}
use irsforge.Pricing.Dates.{Day}
use irsforge.Pricing.Types.{Leg, fixed, float, irs}
use irsforge.App.Workspace.{
  WorkspaceMode, draft, whatif, WorkspaceState, Original, active, accept, reject, withdraw, Action,
  set_swap_type, update_leg, add_leg, toggle_direction, enter_whatif, exit_whatif,
  refetch_active_contracts, toggle_notional_link, remove_leg, set_dates, set_counterparty,
  hydrate_from_draft, hydrate_from_swap, propose_success, set_workflow_contract, resolve_proposal,
  hydrate_proposal_payload, exercise_success, set_draft_id, set_workflow_parties,
  set_workflow_regulators, set_workflow_instrument, set_outstanding_effects, set_is_past_maturity,
  set_pending_unwind, set_credit_spread, set_leg_notional, Edit, sync_leg_schedules, turned_over,
  with_notional, update_at, without, synced,
}
use irsforge.App.Workspace.Dates.{
  WorkspaceDates, DateError, recalculate_dates, validate_dates, build_default_workspace_dates,
}
use irsforge.App.Workspace.Defaults.{Opened, default_legs, build_default_float}
use irsforge.App.Workspace.Reducer.{
  edited, set_notionals, dates_set, restored, initial_workspace_state, workspace_reducer,
}

module _ {N : Type 0} where
  -- The leg's schedule, where it has one, runs from the effective date to the maturity date.
  abbrev pub Follows : WorkspaceDates → Leg N → Type 0
  Follows dates (fixed leg) =
      (leg.schedule.start_date ≡ dates.effective_date)
      × (leg.schedule.end_date ≡ dates.maturity_date)
  Follows dates (float leg) =
      (leg.schedule.start_date ≡ dates.effective_date)
      × (leg.schedule.end_date ≡ dates.maturity_date)
  Follows dates _ = Unit

  edited-Follows :
      (dates : WorkspaceDates) (edit : Edit N) (leg : Leg N)
      → Follows dates leg
      → Follows dates (edited edit leg)
  edited-Follows dates edit leg h = ground arith

  with_notional-Follows :
      (dates : WorkspaceDates) (n : N) (leg : Leg N)
      → Follows dates leg
      → Follows dates (with_notional n leg)
  with_notional-Follows dates n leg h = ground arith

  turned_over-Follows :
      (dates : WorkspaceDates) (leg : Leg N) → Follows dates leg → Follows dates (turned_over leg)
  turned_over-Follows dates leg h = ground arith

  synced-Follows : (dates : WorkspaceDates) (leg : Leg N) → Follows dates (synced dates leg)
  synced-Follows dates leg = ground arith

  map-Follows :
      (dates : WorkspaceDates) (f : Leg N → Leg N)
      → ((leg : Leg N) → Follows dates leg → Follows dates (f leg))
      → (legs : List (Leg N)) → All (Follows dates) legs
      → All (Follows dates) (map f legs)
  map-Follows dates f keeps [] h = tt
  map-Follows dates f keeps (leg ∷ legs) (k, h) = (keeps leg k, map-Follows dates f keeps legs h)

  sync_leg_schedules-Follows :
      (dates : WorkspaceDates) (legs : List (Leg N))
      → All (Follows dates) (sync_leg_schedules legs dates)
  unfolding sync_leg_schedules
  sync_leg_schedules-Follows dates [] = tt
  sync_leg_schedules-Follows dates (leg ∷ legs) =
      (synced-Follows dates leg, sync_leg_schedules-Follows dates legs)

  update_at-Follows :
      (dates : WorkspaceDates) (edit : Edit N) (index : ℕ) (legs : List (Leg N))
      → All (Follows dates) legs
      → All (Follows dates) (update_at (edited edit) index legs)
  update_at-Follows dates edit index [] h = tt
  update_at-Follows dates edit zero (leg ∷ legs) (k, h) = (edited-Follows dates edit leg k, h)
  update_at-Follows dates edit (suc i) (leg ∷ legs) (k, h) =
      (k, update_at-Follows dates edit i legs h)

  without-Follows :
      (dates : WorkspaceDates) (index : ℕ) (legs : List (Leg N))
      → All (Follows dates) legs
      → All (Follows dates) (without index legs)
  without-Follows dates index [] h = tt
  without-Follows dates zero (leg ∷ legs) (k, h) = h
  without-Follows dates (suc i) (leg ∷ legs) (k, h) = (k, without-Follows dates i legs h)

  set_notionals-Follows :
      (dates : WorkspaceDates) (linked : Bool) (index : ℕ) (value : N) (legs : List (Leg N))
      → All (Follows dates) legs
      → All (Follows dates) (set_notionals linked index value legs)
  set_notionals-Follows dates linked index value [] h = tt
  set_notionals-Follows dates true zero value (leg ∷ legs) (k, h) = (
    with_notional-Follows dates value leg k,
    map-Follows dates (with_notional value) (with_notional-Follows dates value) legs h,
  )
  set_notionals-Follows dates false zero value (leg ∷ legs) (k, h) =
      (with_notional-Follows dates value leg k, h)
  set_notionals-Follows dates true (suc i) value (leg ∷ legs) (k, h) =
      (with_notional-Follows dates value leg k, set_notionals-Follows dates true i value legs h)
  set_notionals-Follows dates false (suc i) value (leg ∷ legs) (k, h) =
      (k, set_notionals-Follows dates false i value legs h)

-- An action that does not take legs and dates from elsewhere.
abbrev pub IsOwn : {N I : Type 0} → Action N I → Type 0
IsOwn (hydrate_from_draft draft_id config) = ⊥
IsOwn (hydrate_proposal_payload kind legs dates) = ⊥
IsOwn _ = Unit

module _ {N : Type 0} where
  abbrev OriginalFollows : Option (Original N) → Type 0
  OriginalFollows none = Unit
  OriginalFollows (some o) = All (Follows o.dates) o.legs

module _ {N I : Type 0} where
  -- The schedules follow the dates, also those that a scenario goes back to.
  pub record InSync (s : WorkspaceState N I) : Type 0 where
    pub legs : All (Follows s.dates) s.legs
    pub original : OriginalFollows s.what_if_original

module _ {N : Type 0} ⦃arithmetic : Number N⦄ {I : Type 0} (opened : Opened) where
  dates_set-InSync :
      (e : Option DateError) (next : WorkspaceDates) (s : WorkspaceState N I)
      → InSync s
      → InSync (dates_set opened e next s)
  dates_set-InSync (some e) next s h = h
  dates_set-InSync none next s h = record {
    legs = sync_leg_schedules-Follows next s.legs;
    original = h.original;
  }

  restored-InSync :
      (o : Option (Original N)) (s : WorkspaceState N I)
      → OriginalFollows o
      → InSync s
      → InSync (restored opened o s)
  restored-InSync none s k h = h
  restored-InSync (some o) s k h = record { legs = k; original = tt }

  in_mode-InSync :
      (mode : WorkspaceMode) (x y z : WorkspaceState N I)
      → InSync x
      → InSync y
      → InSync z
      → InSync (elim mode [ draft ↦ x | active ↦ y | whatif ↦ z ])
  in_mode-InSync mode x y z h k l =
      elim mode as (λ m. InSync (elim m [ draft ↦ x | active ↦ y | whatif ↦ z ])) [
        | draft ↦ h
        | active ↦ k
        | whatif ↦ l
      ]

  -- A change of what neither the legs nor the dates read.
  kept-InSync :
      (s t : WorkspaceState N I)
      → t.legs ≡ s.legs
      → t.dates ≡ s.dates
      → t.what_if_original ≡ s.what_if_original
      → InSync s
      → InSync t
  kept-InSync s t legs dates original h = record {
    legs = rw (legs, dates) h.legs;
    original = rw original h.original;
  }

  reducer-InSync :
      (s : WorkspaceState N I) (a : Action N I)
      → IsOwn a
      → InSync s
      → InSync (workspace_reducer opened s a)
  unfolding workspace_reducer
  reducer-InSync s (set_swap_type kind) own h =
      in_mode-InSync s.mode _ s s
        (record {
          legs = sync_leg_schedules-Follows s.dates (default_legs opened kind);
          original = h.original;
        })
        h h
  reducer-InSync s (update_leg index edit) own h = record {
    legs = update_at-Follows s.dates edit index s.legs h.legs;
    original = h.original;
  }
  reducer-InSync s add_leg own h = record {
    legs =
        All-append (Follows s.dates) s.legs _ h.legs
          (sync_leg_schedules-Follows {N = N} s.dates (build_default_float opened ∷ []));
    original = h.original;
  }
  reducer-InSync s (remove_leg index) own h = record {
    legs = without-Follows s.dates index s.legs h.legs;
    original = h.original;
  }
  reducer-InSync s toggle_direction own h = record {
    legs = map-Follows s.dates turned_over (turned_over-Follows s.dates) s.legs h.legs;
    original = h.original;
  }
  reducer-InSync s (set_dates change) own h =
      let next = recalculate_dates s.dates change in dates_set-InSync (validate_dates next) next s h
  reducer-InSync s enter_whatif own h =
      in_mode-InSync s.mode s _ s h (record { legs = h.legs; original = h.legs }) h
  reducer-InSync s exit_whatif own h =
      in_mode-InSync s.mode s s _ h h (restored-InSync s.what_if_original s h.original h)
  reducer-InSync s (set_leg_notional index value) own h = record {
    legs = set_notionals-Follows s.dates s.notional_linked index value s.legs h.legs;
    original = h.original;
  }
  reducer-InSync s (hydrate_from_draft draft_id config) own h = absurd own
  reducer-InSync s (hydrate_proposal_payload kind legs dates) own h = absurd own
  reducer-InSync s (set_counterparty party) own h = kept-InSync s _ refl refl refl h
  reducer-InSync s (hydrate_from_swap cid) own h = kept-InSync s _ refl refl refl h
  reducer-InSync s (resolve_proposal kind role party) own h = kept-InSync s _ refl refl refl h
  reducer-InSync s (propose_success cid) own h = kept-InSync s _ refl refl refl h
  reducer-InSync s (exercise_success accept cid) own h = kept-InSync s _ refl refl refl h
  reducer-InSync s (exercise_success reject cid) own h = kept-InSync s _ refl refl refl h
  reducer-InSync s (exercise_success withdraw cid) own h = kept-InSync s _ refl refl refl h
  reducer-InSync s (set_workflow_contract cid) own h = kept-InSync s _ refl refl refl h
  reducer-InSync s (set_draft_id draft_id) own h = kept-InSync s _ refl refl refl h
  reducer-InSync s (set_workflow_parties x y) own h = kept-InSync s _ refl refl refl h
  reducer-InSync s (set_workflow_regulators regulators) own h = kept-InSync s _ refl refl refl h
  reducer-InSync s (set_workflow_instrument instrument) own h = kept-InSync s _ refl refl refl h
  reducer-InSync s (set_outstanding_effects count) own h = kept-InSync s _ refl refl refl h
  reducer-InSync s (set_is_past_maturity value) own h = kept-InSync s _ refl refl refl h
  reducer-InSync s (set_pending_unwind none) own h = kept-InSync s _ refl refl refl h
  reducer-InSync s (set_pending_unwind (some (u, role))) own h = kept-InSync s _ refl refl refl h
  reducer-InSync s refetch_active_contracts own h = kept-InSync s _ refl refl refl h
  reducer-InSync s (set_credit_spread value) own h = kept-InSync s _ refl refl refl h
  reducer-InSync s toggle_notional_link own h = kept-InSync s _ refl refl refl h

  -- The states that own actions lead to from a new workspace.
  pub data Reach (draft_id : String) (today : Day) : WorkspaceState N I → Type 0 where
    start : Reach draft_id today (initial_workspace_state opened draft_id today)
    next :
        {s : WorkspaceState N I} (a : Action N I)
        → IsOwn a
        → Reach draft_id today s
        → Reach draft_id today (workspace_reducer opened s a)

  -- From a new workspace on, as long as no legs and dates are loaded from a draft or a proposal,
  -- the schedule of every leg runs from the effective date to the maturity date, and so do the
  -- schedules that leaving a scenario would bring back.
  pub Reach-InSync :
      {draft_id : String} {today : Day} {s : WorkspaceState N I} → Reach draft_id today s → InSync s
  unfolding initial_workspace_state
  Reach-InSync {today = today} start = record {
    legs =
        sync_leg_schedules-Follows {N = N} (build_default_workspace_dates today)
          (default_legs opened irs);
    original = tt;
  }
  Reach-InSync (next a own r) = reducer-InSync _ a own (Reach-InSync r)
