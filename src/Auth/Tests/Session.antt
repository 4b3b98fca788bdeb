-- ===== src/Auth/Tests/Session.antt =====
-- The theorems on opening a session, at concrete inputs.
use irsforge.Base.{◌≡◌, refl, some}
use irsforge.Base.Dict.{lookup, insert, erase}
use irsforge.Auth.HandoffStore.{new_handoff_store, consume_handoff}
use irsforge.Auth.StateStore.{new_state_store, put_state, consume_state}
use irsforge.Auth.Provider.{
  assert_org_membership, oidc_handle_callback, find_org, verify_nonce, subject_of,
}
use irsforge.Auth.Http.{replied}
use irsforge.Auth.Session.{handle_callback, session_of, grant_of, callback_reply}
use irsforge.Auth.Session.Handoff.{callback-handoff}
use irsforge.Auth.Tests.{platform, member_result, by_idp, draws, pending, signed_in, call_idp}

callback-handoff_example :
    let (r, s') =
      handle_callback platform by_idp (some "good") (some "r0") (draws "t2") signed_in in
    (r ≡ replied (callback_reply platform "t2" "goldman" "r0"))
    × ((consume_handoff "r0" 5000 s'.handoffs).0
        ≡ some (grant_of platform (session_of "goldman" member_result) "PartyA" 5000))
unfolding put_state consume_state erase new_state_store oidc_handle_callback verify_nonce subject_of
    assert_org_membership find_org lookup insert new_handoff_store
callback-handoff_example =
    callback-handoff platform by_idp "good" "r0" (draws "t2") (draws "t3") signed_in pending
      call_idp member_result refl refl refl
