-- ===== src/Auth/Server.antt =====
-- auth/src/index.ts: which handler answers a request, and `GET /auth/authorize`.
use irsforge.Base.{
  ℕ, Option, none, some, String, List, Bool, true, false, ◌==◌, ◌&&◌, if◌then◌else◌, any,
}
use irsforge.Base.Dict.{Dict}
use irsforge.Auth.StateStore.{put_state}
use irsforge.Auth.Provider.{AuthProvider, Org}
use irsforge.Auth.Http.{
  RequestBody, Reply, empty, health, jwks, Draws, Handler, ◌>>=◌, ◌>>◌, reply, reply_if, or_reply,
  sent, failed, on_states,
}
use irsforge.Auth.Session.{
  Platform, Cookies, handle_login, handle_callback, handle_handoff, handle_refresh, handle_logout,
}
use irsforge.Auth.OauthToken.{
  ServiceAccountEntry, ServiceAccountMetadata, OauthTokenRequest, handle_oauth_token,
}
use Prim.Native.String
use mathlib.Core.Bool.{not}
pub mod Rights
pub mod Flow

-- A request after Node's and the platform's parsers: the query's texts, the body as JSON for the
-- JSON endpoints and as a form for the token endpoint (`none` where `readBody` throws).
pub record Request : Type 0 where
  pub method : String
  pub url : String
  pub code : Option String
  pub state : Option String
  pub org_id : Option String
  pub body : RequestBody
  pub form : Option OauthTokenRequest
  pub cookies : Cookies

-- The service after `main` has read its configuration.
pub record Service : Type 0 where
  pub platform : Platform
  pub provider : AuthProvider
  pub orgs : List Org
  pub compare : String → String → Bool
  pub dummy_hash : String
  pub registry : Option (Dict ServiceAccountEntry)
  pub accounts : List ServiceAccountMetadata

abbrev pub or_blank : Option String → String
or_blank none = ""
or_blank (some s) = s

pub data Endpoint : Type 0 where
  get_jwks get_health login authorize callback handoff refresh oauth logout missing : Endpoint

unfoldable pub endpoint : String → String → Endpoint
endpoint url method =
    if url == "/.well-known/jwks.json" && method == "GET"
    then get_jwks
    else if url == "/auth/health" && method == "GET"
    then get_health
    else if url == "/auth/login" && method == "POST"
    then login
    else if url == "/auth/authorize" && method == "GET"
    then authorize
    else if url == "/auth/callback" && method == "GET"
    then callback
    else if url == "/auth/handoff" && method == "POST"
    then handoff
    else if url == "/auth/refresh" && method == "POST"
    then refresh
    else if url == "/auth/oauth/token" && method == "POST"
    then oauth
    else if url == "/auth/logout" && method == "POST"
    then logout
    else missing

module _ (svc : Service) where
  unfoldable pub handle_authorize : Option String → Draws → Handler (Unit {0})
  handle_authorize org io = do
    url ←
        or_reply svc.provider.authorization_url
          (failed 400 "Authorization redirect not supported by this provider")
    let org_id = or_blank org
    reply_if (not (any (λ o. o.id == org_id) svc.orgs))
        (failed 400 (String.◌++◌ "Unknown orgId: " org_id))
    on_states (λ s.
        (tt, put_state (io.uuid 0) (record { org_id = org_id; nonce = io.uuid 1 }) (io.clock 0) s))
    reply (record {
      status = 302;
      cookie = none;
      location = some (url (io.uuid 0) (io.uuid 1));
      body = empty;
    })

  unfoldable pub handle_token : Option OauthTokenRequest → Draws → Handler (Unit {0})
  handle_token form io = do
    registry ← or_reply svc.registry (failed 404 "Not found")
    req ← or_reply form (failed 500 "Body too large")
    reply (
        handle_oauth_token svc.compare svc.dummy_hash svc.platform.settings svc.platform.sign
          registry svc.accounts req (io.clock 0))

  unfoldable pub answer : Endpoint → Request → Draws → Handler (Unit {0})
  answer get_jwks req io = reply (sent 200 jwks)
  answer get_health req io = reply (sent 200 health)
  answer login req io = handle_login svc.platform svc.provider req.body io
  answer authorize req io = handle_authorize req.org_id io
  answer callback req io = handle_callback svc.platform svc.provider req.code req.state io
  answer handoff req io = handle_handoff req.body io
  answer refresh req io = handle_refresh svc.platform svc.orgs req.cookies io
  answer oauth req io = handle_token req.form io
  answer logout req io = handle_logout req.cookies
  answer missing req io = reply (failed 404 "Not found")

  -- The request listener, for a request that is not a CORS preflight.
  unfoldable pub serve : Request → Draws → Handler (Unit {0})
  unfolding endpoint
  serve req io = answer (endpoint req.url req.method) req io
