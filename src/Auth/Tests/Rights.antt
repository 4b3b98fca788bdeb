-- ===== src/Auth/Tests/Rights.antt =====
-- The theorems on who gets which rights, at concrete inputs.
use irsforge.Base.{◌≡◌, refl, some, String, [], ◌∷◌}
use Prim.Native.String
use mathlib.Core.List.{Memᴰ}
use irsforge.Base.Dict.{lookup, insert, erase}
use irsforge.Auth.StateStore.{new_state_store, put_state, consume_state}
use irsforge.Auth.RefreshStore.{new_token_store, create, validate}
use irsforge.Auth.Provider.{
  Org, production, TokenPayload, UserEntry, assert_org_membership, builtin_authenticate,
  oidc_handle_callback, find_org, verify_nonce, subject_of,
}
use irsforge.Auth.Provider.Laws.{Admits, IsIdOf}
use irsforge.Auth.Http.{text_field}
use irsforge.Auth.Session.{handle_login, handle_callback, session_of}
use irsforge.Auth.Server.{serve, answer, endpoint, handle_authorize}
use irsforge.Auth.Server.Rights.{start, next}
use irsforge.Auth.Server.Flow.{Reach-users, Reach-members}
use irsforge.Auth.Tests.{
  orgs, alice, alice_session, by_users, exchange, member_result, address, by_idp, service_with,
  draws, asks_login, after_login, asks_authorize, comes_back, after_callback,
}

Reach-users_example :
    (u : UserEntry) × Memᴰ u (alice ∷ [])
    × (u.org_id ≡ alice_session.org_id)
    × (alice_session.act_as ≡ u.act_as)
    × ("alice::goldman" ≡ String.◌++◌ u.username (String.◌++◌ "::" u.org_id))
unfolding serve endpoint answer handle_login builtin_authenticate find_org text_field lookup create
    insert new_token_store validate
Reach-users_example =
    Reach-users (service_with by_users) (alice ∷ []) after_login refl
      (next asks_login (draws "t1") (start 3600)) "t1" 6000 alice_session refl

Reach-members_example :
    (o : Org) × (code : String) × (payload : TokenPayload) × Memᴰ o orgs
    × (o.id ≡ "goldman")
    × (exchange code ≡ some payload)
    × IsIdOf payload.claims "goldman" "alice@goldman::goldman"
    × Admits payload.claims o production
    × ("PartyA" ∷ [] ≡ o.party ∷ [])
unfolding serve endpoint answer handle_authorize put_state consume_state erase new_state_store
    handle_callback oidc_handle_callback verify_nonce subject_of assert_org_membership find_org
    lookup create insert new_token_store validate
Reach-members_example =
    Reach-members (service_with by_idp) exchange production address after_callback refl
      (next comes_back (draws "t2") (next asks_authorize (draws "t1") (start 3600))) "t2" 6000
      (session_of "goldman" member_result) refl
