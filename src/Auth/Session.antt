-- ===== src/Auth/Session.antt =====
-- The handlers of auth/src/routes that open, renew and close a user's session: login.ts,
-- callback.ts, handoff.ts, refresh.ts, logout.ts.
--
-- The cookies of a request are what `parseCookies` makes of its header; `none` is its throw.
use irsforge.Base.{
  ℕ, Option, none, some, String, List, Bool, true, false, ◌==◌, if◌then◌else◌, find,
}
use irsforge.Base.Dict.{Dict, lookup}
use irsforge.Auth.HandoffStore.{Grant, put_handoff, consume_handoff}
use irsforge.Auth.StateStore.{consume_state}
use irsforge.Auth.RefreshStore.{RefreshSession, create, validate, rotate, revoke}
use irsforge.Auth.Token.{Settings, Claims, daml_claims}
use irsforge.Auth.Provider.{AuthRequest, AuthResult, AuthProvider, Org, find_org}
use irsforge.Auth.Http.{
  RequestBody, Cookie, Reply, empty, granted, ok, Draws, Handler, ◌>>=◌, ◌>>◌, pure, reply, throw,
  or_reply, sent, failed, text_field, truthy, read_fields, on_tokens, on_states, on_handoffs,
}
use Prim.Native.String
pub mod Handoff
pub mod Refresh
pub mod Login

-- What the handlers share: the settings, jose's signature, and the deployment's addresses.
pub record Platform : Type 0 where
  pub settings : Settings
  pub sign : Claims → String
  pub frontend_url_for : String → String
  pub error_redirect_url : String
  pub encode : String → String

abbrev pub Cookies : Type 0
Cookies = Option (Dict String)

-- A redirect with no cookie.
abbrev pub redirect : String → Reply
redirect url = record { status = 302; cookie = none; location = some url; body = empty }

abbrev pub session_of : String → AuthResult → RefreshSession
session_of org_id a = record {
  user_id = a.user_id;
  org_id = org_id;
  act_as = a.act_as;
  read_as = a.read_as;
}

-- handoff.ts
unfoldable pub handle_handoff : RequestBody → Draws → Handler (Unit {0})
handle_handoff body io = do
  fs ← read_fields body
  handoff ← or_reply (truthy (text_field "handoff" fs)) (failed 400 "handoff is required")
  found ← on_handoffs (consume_handoff handoff (io.clock 0))
  grant ← or_reply found (failed 401 "invalid_handoff")
  reply (sent 200 (granted grant))

abbrev read_cookies : Cookies → Handler (Dict String)
read_cookies none = throw
read_cookies (some cookies) = pure cookies

abbrev revoke_cookie : Option String → Handler (Unit {0})
revoke_cookie none = pure tt
revoke_cookie (some token) = on_tokens (λ s. (tt, revoke token s))

-- logout.ts
unfoldable pub handle_logout : Cookies → Handler (Unit {0})
unfolding lookup revoke
handle_logout cookies = do
  jar ← read_cookies cookies
  revoke_cookie (truthy (lookup "irsforge_refresh" jar))
  reply (record {
    status = 200;
    cookie = some (record { value = ""; max_age = 0 });
    location = none;
    body = ok;
  })

module _ (p : Platform) where
  abbrev pub refresh_cookie : String → Option Cookie
  refresh_cookie token = some (record { value = token; max_age = p.settings.refresh_ttl_seconds })

  abbrev pub grant_of : RefreshSession → String → ℕ → Grant
  grant_of who party now = record {
    access_token = p.sign (daml_claims p.settings who now);
    expires_in = p.settings.token_ttl_seconds;
    user_id = who.user_id;
    org_id = who.org_id;
    party = party;
  }

  abbrev pub granted_reply : String → Grant → Reply
  granted_reply token g = record {
    status = 200;
    cookie = refresh_cookie token;
    location = none;
    body = granted g;
  }

  -- login.ts
  unfoldable pub handle_login : AuthProvider → RequestBody → Draws → Handler (Unit {0})
  unfolding daml_claims
  handle_login provider body io = do
    fs ← read_fields body
    username ←
        or_reply (text_field "username" fs)
          (failed 400 "username, password, and orgId are required")
    password ←
        or_reply (text_field "password" fs)
          (failed 400 "username, password, and orgId are required")
    org_id ←
        or_reply (text_field "orgId" fs) (failed 400 "username, password, and orgId are required")
    a ←
        or_reply
          (provider.authenticate
            (record { username = username; password = password; org_id = org_id }))
          (failed 401 "Invalid credentials")
    let who = session_of org_id a
    let grant = grant_of who a.party (io.clock 0)
    token ← on_tokens (create io.token (io.clock 1) who)
    reply (granted_reply token grant)

  abbrev pub error_redirect : String → Reply
  error_redirect code = redirect (String.◌++◌ p.error_redirect_url (String.◌++◌ "?error=" code))

  abbrev pub callback_url : String → String → String
  callback_url org_id handoff = String.◌++◌ (p.frontend_url_for org_id) (
      String.◌++◌ "/org/"
        (String.◌++◌ org_id (String.◌++◌ "/callback?handoff=" (p.encode handoff))))

  abbrev pub callback_reply : String → String → String → Reply
  callback_reply token org_id handoff = record {
    status = 302;
    cookie = refresh_cookie token;
    location = some (callback_url org_id handoff);
    body = empty;
  }

  -- callback.ts; the two arguments are the query's `code` and `state`, where they are texts.
  unfoldable pub handle_callback :
      AuthProvider → Option String → Option String → Draws → Handler (Unit {0})
  unfolding daml_claims
  handle_callback provider code state io = do
    code ← or_reply code (error_redirect "auth_failed")
    state ← or_reply state (error_redirect "auth_failed")
    found ← on_states (consume_state state (io.clock 0))
    entry ← or_reply found (error_redirect "invalid_state")
    call ← or_reply provider.handle_callback (error_redirect "auth_failed")
    a ← or_reply (call code entry.org_id entry.nonce) (error_redirect "auth_failed")
    let who = session_of a.org_id a
    let grant = grant_of who a.party (io.clock 1)
    token ← on_tokens (create io.token (io.clock 2) who)
    on_handoffs (λ s. (tt, put_handoff (io.uuid 0) grant (io.clock 3) s))
    reply (callback_reply token a.org_id (io.uuid 0))

  -- refresh.ts
  unfoldable pub handle_refresh : List Org → Cookies → Draws → Handler (Unit {0})
  unfolding lookup find_org daml_claims
  handle_refresh orgs cookies io = do
    jar ← read_cookies cookies
    old_token ← or_reply (truthy (lookup "irsforge_refresh" jar)) (failed 401 "No refresh token")
    rotated ← on_tokens (rotate old_token io.token (io.clock 0) (io.clock 1))
    new_token ← or_reply (truthy rotated) (failed 401 "Invalid or expired refresh token")
    found ← on_tokens (validate new_token (io.clock 2))
    session ← or_reply found (failed 401 "Invalid session")
    org ← or_reply (find_org session.org_id orgs) (failed 401 "Unknown org")
    reply (granted_reply new_token (grant_of session org.party (io.clock 3)))
