-- ===== src/Auth/OauthToken.antt =====
-- The client-credentials grant: auth/src/routes/oauth-token.ts and
-- auth/src/service-accounts/registry.ts.
use irsforge.Base.{
  ℕ, Option, none, some, String, List, [], ◌∷◌, Bool, true, false, ◌==◌, if◌then◌else◌, find,
}
use irsforge.Base.Dict.{Dict, lookup, insert, contains}
use irsforge.Auth.RefreshStore.{RefreshSession}
use irsforge.Auth.Token.{Settings, Claims, daml_claims}
use irsforge.Auth.Http.{Reply, sent, oauth_error, oauth_token, truthy}
use Prim.Native.String
use text.Mathlib.Text.{starts_with}
pub mod Laws

pub record ServiceAccountEntry : Type 0 where
  pub id : String
  pub client_secret_hash : String

-- The constructor of `ServiceAccountsRegistry`: `none` where it throws on a duplicate id.
unfoldable pub add_entries :
    Dict ServiceAccountEntry → List ServiceAccountEntry → Option (Dict ServiceAccountEntry)
add_entries by_id [] = some by_id
add_entries by_id (e ∷ es) =
    let rest = add_entries (insert e.id e by_id) es in if contains e.id by_id then none else rest

unfoldable pub new_registry : List ServiceAccountEntry → Option (Dict ServiceAccountEntry)
unfolding add_entries lookup insert
new_registry entries = add_entries [] entries

pub record ServiceAccountMetadata : Type 0 where
  pub id : String
  pub act_as : List String
  pub read_as : List String

-- `contentType`, and the parameters that `URLSearchParams` reads from the body, first ones first.
pub record OauthTokenRequest : Type 0 where
  pub content_type : Option String
  pub params : Dict String

-- bcrypt and jose are parameters: `compare secret hash` and `sign claims`.
module _ (compare : String → String → Bool) (dummy_hash : String) where
  -- `verify`; for an unknown client the comparison runs all the same and its answer is dropped.
  unfoldable pub verify : Dict ServiceAccountEntry → String → String → Bool
  verify by_id client_id client_secret = elim (lookup client_id by_id) [
    | none ↦ let ignored = compare client_secret dummy_hash in false
    | some entry ↦ compare client_secret entry.client_secret_hash
  ]

  module _ (settings : Settings) (sign : Claims → String) where
    abbrev is_form : Option String → Bool
    is_form none = false
    is_form (some t) = starts_with t "application/x-www-form-urlencoded"

    abbrev is_client_credentials : Option String → Bool
    is_client_credentials none = false
    is_client_credentials (some g) = g == "client_credentials"

    abbrev token_reply : ServiceAccountMetadata → String → ℕ → Reply
    token_reply account client_id now =
        let who : RefreshSession = record {
          user_id = String.◌++◌ "service:" client_id;
          org_id = "";
          act_as = account.act_as;
          read_as = account.read_as;
        } in
        sent 200 (oauth_token (sign (daml_claims settings who now)) settings.token_ttl_seconds)

    abbrev missing_account : String → Reply
    missing_account client_id = sent 500 (
        oauth_error "server_error" (
          some
            (String.◌++◌ "service account \"" (String.◌++◌ client_id "\" missing in auth config"))))

    -- The reply for a client and a secret that are both there.
    abbrev verified_reply :
        Dict ServiceAccountEntry → List ServiceAccountMetadata → String → String → ℕ → Reply
    verified_reply registry accounts client_id client_secret now =
        let found : Reply = elim (find (λ a. a.id == client_id) accounts) [
          | none ↦ missing_account client_id
          | some account ↦ token_reply account client_id now
        ] in
        if verify registry client_id client_secret
        then found
        else sent 401 (oauth_error "invalid_client" none)

    abbrev needs_client : Reply
    needs_client =
        sent 400 (oauth_error "invalid_request" (some "client_id and client_secret required"))

    abbrev client_reply :
        Dict ServiceAccountEntry
        → List ServiceAccountMetadata
        → Option String
        → Option String
        → ℕ
        → Reply
    client_reply registry accounts (some client_id) (some client_secret) now =
        verified_reply registry accounts client_id client_secret now
    client_reply registry accounts _ _ now = needs_client

    unfoldable pub handle_oauth_token :
        Dict ServiceAccountEntry → List ServiceAccountMetadata → OauthTokenRequest → ℕ → Reply
    unfolding verify daml_claims lookup
    handle_oauth_token registry accounts req now =
        let asked =
          client_reply registry accounts (truthy (lookup "client_id" req.params))
            (truthy (lookup "client_secret" req.params)) now in
        if is_form req.content_type
        then (if is_client_credentials (lookup "grant_type" req.params)
            then asked
            else sent 400 (oauth_error "unsupported_grant_type" none))
        else sent 415 (
            oauth_error "invalid_request"
              (some "Content-Type must be application/x-www-form-urlencoded"))
