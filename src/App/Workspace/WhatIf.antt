-- ===== src/App/Workspace/WhatIf.antt =====
-- Theorems on the scenarios of the workspace.
use irsforge.Base.{◌≡◌, none, some, List, [], ◌∷◌, All, arith}
use irsforge.Pricing.Number.{Number}
use irsforge.App.Workspace.{
  WorkspaceState, Original, active, whatif, Action, enter_whatif, exit_whatif, hydrate_from_swap,
  propose_success,
}
use irsforge.App.Workspace.Reducer.{workspace_reducer}
use irsforge.App.Workspace.Defaults.{Opened}

-- An action that neither ends the scenario nor leaves it with its contract.
abbrev pub StaysInScenario : {N I : Type 0} → Action N I → Type 0
StaysInScenario exit_whatif = ⊥
StaysInScenario (propose_success cid) = ⊥
StaysInScenario (hydrate_from_swap cid) = ⊥
StaysInScenario _ = Unit

module _ {N : Type 0} ⦃arithmetic : Number N⦄ {I : Type 0} (opened : Opened) where
  -- The state after a sequence of actions.
  abbrev pub run : WorkspaceState N I → List (Action N I) → WorkspaceState N I
  run s [] = s
  run s (a ∷ rest) = run (workspace_reducer opened s a) rest

  -- A scenario is open whose original is `o`.
  abbrev Holds : Original N → WorkspaceState N I → Type 0
  Holds o s = (s.mode ≡ whatif) × (s.what_if_original ≡ some o)

  reducer-Holds :
      (o : Original N) (s : WorkspaceState N I) (a : Action N I)
      → StaysInScenario a
      → Holds o s
      → Holds o (workspace_reducer opened s a)
  unfolding workspace_reducer
  reducer-Holds o s a h k = ground arith

  run-Holds :
      (o : Original N) (s : WorkspaceState N I) (actions : List (Action N I))
      → All StaysInScenario actions
      → Holds o s
      → Holds o (run s actions)
  run-Holds o s [] h k = k
  run-Holds o s (a ∷ rest) (h, hs) k =
      run-Holds o (workspace_reducer opened s a) rest hs (reducer-Holds o s a h k)

  left-restores :
      (o : Original N) (s : WorkspaceState N I)
      → Holds o s
      → let back = workspace_reducer opened s exit_whatif in
        (back.legs ≡ o.legs)
        × (back.dates ≡ o.dates)
        × (back.mode ≡ active)
        × (back.what_if_original ≡ none)
        × (back.swap_type ≡ s.swap_type)
        × (back.credit_spread ≡ s.credit_spread)
        × (back.notional_linked ≡ s.notional_linked)
  unfolding workspace_reducer
  left-restores o s h = ground arith

  -- The state after a scenario that was entered, acted in and left.
  abbrev pub scenario : WorkspaceState N I → List (Action N I) → WorkspaceState N I
  scenario s actions = run (workspace_reducer opened s enter_whatif) actions

  -- Whatever actions come between entering a scenario of an active swap and leaving it, but for
  -- those that end it on the way: the legs and the dates are those from before, the swap is active
  -- and no original is kept. The swap type, the credit spread and the link of the notionals stay as
  -- the scenario has left them.
  pub exit_whatif-restores :
      (s : WorkspaceState N I) (actions : List (Action N I))
      → s.mode ≡ active
      → All StaysInScenario actions
      → let back = workspace_reducer opened (scenario s actions) exit_whatif in
        (back.legs ≡ s.legs)
        × (back.dates ≡ s.dates)
        × (back.mode ≡ active)
        × (back.what_if_original ≡ none)
        × (back.swap_type ≡ (scenario s actions).swap_type)
        × (back.credit_spread ≡ (scenario s actions).credit_spread)
        × (back.notional_linked ≡ (scenario s actions).notional_linked)
  unfolding workspace_reducer
  exit_whatif-restores s actions h stays =
      let o : Original N = record { legs = s.legs; dates = s.dates } in
      let entered : Holds o (workspace_reducer opened s enter_whatif) = ground arith in
      left-restores o (scenario s actions)
        (run-Holds o (workspace_reducer opened s enter_whatif) actions stays entered)
