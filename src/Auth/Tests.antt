-- ===== src/Auth/Tests.antt =====
-- A deployment with one org and one user of auth/src, and the inputs of the tests.
use irsforge.Base.{
  ℕ, ◌+◌, ◌≡◌, ◌≢◌, ◌≤◌, ◌⊎◌, refl, Option, none, some, String, List, [], ◌∷◌, ◌==◌, Bool, eqb, ltb,
  if◌then◌else◌, find,
}
use mathlib.Core.List.{Memᴰ}
use irsforge.Base.Dict.{Dict, lookup, insert, erase}
use irsforge.Auth.HandoffStore.{
  Grant, HandoffStore, new_handoff_store, put_handoff, consume_handoff,
}
use irsforge.Auth.HandoffStore.Laws.{
  Call, put, consume, redeemed, held, puts, redeemed-le-puts, redeemed_once,
  consume_handoff-put_handoff,
}
use irsforge.Auth.StateStore.{Pending, new_state_store, put_state, consume_state}
use irsforge.Auth.StateStore.Laws.{consume_state-put_state}
use irsforge.Auth.RefreshStore.{
  RefreshSession, RefreshTokenStore, new_token_store, create, validate, rotate, seconds,
}
use irsforge.Auth.RefreshStore.Laws.{lookup-rotate, rotate-refuses}
use irsforge.Auth.Token.{Settings, Claims, daml_claims}
use irsforge.Auth.Provider.{
  AuthRequest, AuthResult, AuthProvider, Org, Role, trader, operator, Profile, production,
  IdpClaims, TokenPayload, UserEntry, assert_org_membership, builtin_authenticate, builtin_provider,
  oidc_provider, oidc_handle_callback, find_org, verify_nonce, subject_of,
}
use irsforge.Auth.Provider.Laws.{
  IsUser, builtin_authenticate_sound, IsMember, Admits, oidc_handle_callback_sound,
  assert_org_membership-Admits,
}
use irsforge.Auth.Http.{
  RequestBody, broken, null, empty, fields, Field, text, text_field, Reply, Draws, AuthState,
  Handler, replied, threw, failed,
}
use irsforge.Auth.OauthToken.{
  ServiceAccountEntry, ServiceAccountMetadata, OauthTokenRequest, new_registry, verify,
  handle_oauth_token,
}
use irsforge.Auth.OauthToken.Laws.{IsClient, IsDistinct, new_registry_sound}
use irsforge.Auth.Session.{
  Platform, handle_login, handle_callback, handle_handoff, handle_refresh, handle_logout,
  session_of, grant_of, granted_reply, callback_reply, error_redirect,
}
use irsforge.Auth.Session.Login.{IsForm, login_accepted, null_body_throws}
use irsforge.Auth.Session.Refresh.{refresh_rotates, logout-refresh, refresh_refused}
use irsforge.Auth.Session.Handoff.{
  callback_replayed, callback-handoff, callback_refused, handoff_replayed,
}
use irsforge.Auth.Server.{Service, Request, serve, answer, endpoint, handle_authorize}
use irsforge.Auth.Server.Rights.{Reach, start, next}
use irsforge.Auth.Server.Flow.{handle_authorize-consume_state, Reach-users, Reach-members}
mod Stores
mod Session
mod Rights

abbrev platform : Platform
platform = record {
  settings = record {
    issuer = "irsforge";
    token_ttl_seconds = 900;
    refresh_ttl_seconds = 3600;
    ledger_id = "sandbox";
    application_id = "IRSForge";
  };
  sign = λ c. c.subject;
  frontend_url_for = λ o. o;
  error_redirect_url = "/";
  encode = λ s. s;
}

abbrev same_text : String → String → Bool
same_text a b = a == b

abbrev goldman : Org
goldman = record {
  id = "goldman";
  party = "PartyA";
  role = trader;
  subdomain = none;
  allowed_subjects = some ("alice@goldman" ∷ []);
  allowed_groups = none;
}

abbrev orgs : List Org
orgs = goldman ∷ []

abbrev alice : UserEntry
alice = record {
  username = "alice";
  password_hash = "secret";
  org_id = "goldman";
  act_as = "PartyA" ∷ [];
  read_as = [];
}

abbrev alice_result : AuthResult
alice_result = record {
  user_id = "alice::goldman";
  org_id = "goldman";
  party = "PartyA";
  act_as = "PartyA" ∷ [];
  read_as = "PartyA" ∷ [];
}

abbrev alice_request : AuthRequest
alice_request = record { username = "alice"; password = "secret"; org_id = "goldman" }

abbrev alice_session : RefreshSession
alice_session = session_of "goldman" alice_result

abbrev by_users : AuthProvider
by_users = builtin_provider same_text (alice ∷ []) orgs

abbrev alice_claims : IdpClaims
alice_claims = record { sub = some "u1"; email = some "alice@goldman"; groups = none }

abbrev alice_payload : TokenPayload
alice_payload = record { nonce = some "r1"; claims = alice_claims }

abbrev exchange : String → Option TokenPayload
exchange code = if code == "good" then some alice_payload else none

abbrev member_result : AuthResult
member_result = record {
  user_id = "alice@goldman::goldman";
  org_id = "goldman";
  party = "PartyA";
  act_as = "PartyA" ∷ [];
  read_as = "PartyA" ∷ [];
}

abbrev address : String → String → String
address state nonce = state

abbrev by_idp : AuthProvider
by_idp = oidc_provider exchange orgs production address

abbrev service_with : AuthProvider → Service
service_with provider = record {
  platform = platform;
  provider = provider;
  orgs = orgs;
  compare = same_text;
  dummy_hash = "*";
  registry = none;
  accounts = [];
}

abbrev draws : String → Draws
draws token = record {
  clock = λ n. 5000;
  token = token;
  uuid = λ n. if eqb n 0 then "r0" else "r1";
}

abbrev first : AuthState
first = record {
  tokens = new_token_store 3600;
  states = new_state_store 600;
  handoffs = new_handoff_store 30;
}

abbrev login_form : Dict Field
login_form =
    ("username", text "alice") ∷ ("password", text "secret") ∷ ("orgId", text "goldman") ∷ []

abbrev blank : String → String → Request
blank method url = record {
  method = method;
  url = url;
  code = none;
  state = none;
  org_id = none;
  body = broken;
  form = none;
  cookies = none;
}

abbrev asks_login : Request
asks_login = record (blank "POST" "/auth/login") { body = fields login_form }

-- After alice's login.
abbrev after_login : AuthState
after_login = (serve (service_with by_users) asks_login (draws "t1") first).1

abbrev asks_authorize : Request
asks_authorize = record (blank "GET" "/auth/authorize") { org_id = some "goldman" }

abbrev comes_back : Request
comes_back = record (blank "GET" "/auth/callback") { code = some "good"; state = some "r0" }

-- After alice was sent to the identity provider.
abbrev after_authorize : AuthState
after_authorize = (serve (service_with by_idp) asks_authorize (draws "t1") first).1

abbrev after_callback : AuthState
after_callback = (serve (service_with by_idp) comes_back (draws "t2") after_authorize).1

abbrev a_grant : Grant
a_grant = record {
  access_token = "x";
  expires_in = 900;
  user_id = "alice::goldman";
  org_id = "goldman";
  party = "PartyA";
}

abbrev calls : List Call
calls = put "h" a_grant 0 ∷ consume "h" 10 ∷ consume "h" 20 ∷ []

abbrev pending : Pending
pending = record { org_id = "goldman"; nonce = "r1" }

abbrev one_token : RefreshTokenStore
one_token = (create "t1" 5000 alice_session (new_token_store 3600)).1

abbrev signed_in : AuthState
signed_in = record {
  tokens = one_token;
  states = put_state "r0" pending 0 (new_state_store 600);
  handoffs = new_handoff_store 30;
}

abbrev jar : Dict String
jar = ("irsforge_refresh", "t1") ∷ []

abbrev call_idp : String → String → String → Option AuthResult
call_idp = oidc_handle_callback exchange orgs production

abbrev handoff_form : Dict Field
handoff_form = ("handoff", text "h") ∷ []

abbrev with_handoff : AuthState
with_handoff = record first { handoffs = put_handoff "h" a_grant 0 (new_handoff_store 30) }

abbrev robot : ServiceAccountEntry
robot = record { id = "scheduler"; client_secret_hash = "pw" }

abbrev robot_account : ServiceAccountMetadata
robot_account = record { id = "scheduler"; act_as = "Operator" ∷ []; read_as = [] }

abbrev robot_registry : Dict ServiceAccountEntry
robot_registry = ("scheduler", robot) ∷ []

abbrev robot_request : OauthTokenRequest
robot_request = record {
  content_type = some "application/x-www-form-urlencoded";
  params =
      ("grant_type", "client_credentials")
      ∷ ("client_id", "scheduler")
      ∷ ("client_secret", "pw")
      ∷ [];
}
