-- ===== src/App/Workspace/Tests.antt =====
-- The theorems on the workspace at concrete inputs, with the integers as the numbers and texts as
-- the instrument payloads.
use irsforge.Base.{◌≡◌, refl, none, String, List, [], ◌∷◌, arith}
use irsforge.Base.Int.{ℤ, pos}
use irsforge.Pricing.Number.{integers}
use irsforge.Pricing.Dates.{Day, IsDay, days_in_month}
use irsforge.App.Workspace.{
  WorkspaceState, active, Action, toggle_direction, exit_whatif, set_credit_spread, remove_leg,
}
use irsforge.App.Workspace.Dates.{add_tenor, compute_tenor}
use irsforge.App.Workspace.Defaults.{Opened}
use irsforge.App.Workspace.Reducer.{initial_workspace_state, workspace_reducer}
use irsforge.App.Workspace.Sync.{InSync, start, next, Reach-InSync}
use irsforge.App.Workspace.WhatIf.{scenario, exit_whatif-restores}
use irsforge.App.Workspace.Tenor.{compute_tenor-add_tenor}

abbrev end_of_january : Day
end_of_january = record { year = 2024; month = 0; day = 31 }

abbrev opened : Opened
opened = record {
  day = end_of_january;
  in_five_years = record { year = 2029; month = 0; day = 31 };
  in_three_months = 100;
  in_a_year = 400;
}

abbrev new_workspace : WorkspaceState ℤ String
new_workspace = initial_workspace_state opened "d1" end_of_january

abbrev active_workspace : WorkspaceState ℤ String
active_workspace = record new_workspace { mode = active }

abbrev edits : List (Action ℤ String)
edits = toggle_direction ∷ set_credit_spread (pos 5) ∷ remove_leg 0 ∷ []

exit_whatif-restores_example :
    let back = workspace_reducer opened (scenario opened active_workspace edits) exit_whatif in
    (back.legs ≡ active_workspace.legs)
    × (back.dates ≡ active_workspace.dates)
    × (back.mode ≡ active)
    × (back.what_if_original ≡ none)
    × (back.swap_type ≡ (scenario opened active_workspace edits).swap_type)
    × (back.credit_spread ≡ (scenario opened active_workspace edits).credit_spread)
    × (back.notional_linked ≡ (scenario opened active_workspace edits).notional_linked)
exit_whatif-restores_example =
    exit_whatif-restores opened active_workspace edits refl (tt, (tt, (tt, tt)))

Reach-InSync_example : InSync (
    workspace_reducer opened
      (workspace_reducer opened new_workspace toggle_direction)
      (remove_leg 0))
Reach-InSync_example = Reach-InSync opened (next (remove_leg 0) tt (next toggle_direction tt start))

end_of_january-IsDay : IsDay end_of_january
unfolding days_in_month
end_of_january-IsDay = record {
  month_of_year = omega arith;
  first = omega arith;
  last = omega arith;
}

compute_tenor-add_tenor_example :
    compute_tenor end_of_january (add_tenor end_of_january (record { years = pos 1; months = 1 }))
    ≡ record { years = pos 1; months = 1 }
compute_tenor-add_tenor_example =
    compute_tenor-add_tenor end_of_january 1 1 end_of_january-IsDay (omega arith)
