-- ===== src/Auth/Tests/Stores.antt =====
-- The theorems on the token stores and on renewing a session, at concrete inputs.
use irsforge.Base.{◌+◌, ◌≡◌, ◌≤◌, refl, none, some, List, [], ◌∷◌, arith}
use irsforge.Base.Dict.{lookup, insert}
use irsforge.Auth.HandoffStore.{new_handoff_store}
use irsforge.Auth.HandoffStore.Laws.{redeemed, held, redeemed-le-puts}
use irsforge.Auth.RefreshStore.{new_token_store, create, validate}
use irsforge.Auth.RefreshStore.Runs.{Call, creates, validates, rotates, revokes, run, specified_run}
use irsforge.Auth.RefreshStore.Refines.{run-new_token_store_refines}
use irsforge.Auth.Provider.{find_org}
use irsforge.Auth.Http.{replied}
use irsforge.Auth.Session.{handle_refresh, grant_of, granted_reply}
use irsforge.Auth.Session.Refresh.{refresh_rotates}
use irsforge.Auth.Tests.{platform, goldman, orgs, alice_session, draws, calls, signed_in, jar}

redeemed-le-puts_example :
    redeemed "h" calls (new_handoff_store 30) ≤ held "h" (new_handoff_store 30) + 1
redeemed-le-puts_example = redeemed-le-puts "h" calls (new_handoff_store 30)

refresh_rotates_example :
    let (r, s') = handle_refresh platform orgs (some jar) (draws "t2") signed_in in
    (r ≡ replied (granted_reply platform "t2" (grant_of platform alice_session "PartyA" 5000)))
    × (lookup "t1" s'.tokens.store ≡ none)
unfolding create validate new_token_store lookup insert find_org
refresh_rotates_example =
    refresh_rotates platform orgs "t1" "t1" jar (draws "t2") signed_in alice_session goldman
      (refl, refl) refl refl refl refl refl

-- A token that is used, expires and is used again.
abbrev renewals : List Call
renewals =
    creates "t1" 0 alice_session
    ∷ validates "t1" 5000
    ∷ validates "t1" 61000
    ∷ rotates "t1" "t2" 61000 61500
    ∷ revokes "t1"
    ∷ []

run-new_token_store_refines_example :
    run renewals (new_token_store 60) ≡ specified_run 60 renewals (λ token. none)
run-new_token_store_refines_example =
    run-new_token_store_refines renewals 60
      (omega arith, (omega arith, (omega arith, (omega arith, omega arith, tt))))
