-- ===== src/Auth/Provider.antt =====
-- auth/src/providers: who may sign in, and with which rights.
use irsforge.Base.{
  ℕ, Option, none, some, String, List, [], ◌∷◌, Bool, true, false, not, ◌&&◌, ◌||◌, ◌==◌,
  if◌then◌else◌, find, any, includes,
}
pub mod Laws
use Prim.Native.String

pub record AuthRequest : Type 0 where
  pub username : String
  pub password : String
  pub org_id : String

pub record AuthResult : Type 0 where
  pub user_id : String
  pub org_id : String
  pub party : String
  pub act_as : List String
  pub read_as : List String

-- `none` is a rejected promise, or a method that the provider does not have.
pub record AuthProvider : Type 0 where
  pub authenticate : AuthRequest → Option AuthResult
  pub authorization_url : Option (String → String → String)
  pub handle_callback : Option (String → String → String → Option AuthResult)

pub data Role : Type 0 where
  trader operator regulator : Role

pub data Profile : Type 0 where
  demo production : Profile

-- The fields of an org of the configuration that the auth service reads.
pub record Org : Type 0 where
  pub id : String
  pub party : String
  pub role : Role
  pub subdomain : Option String
  pub allowed_subjects : Option (List String)
  pub allowed_groups : Option (List String)

-- `xs ?? []`
abbrev pub or_empty : Option (List String) → List String
or_empty none = []
or_empty (some xs) = xs

-- `this.orgs.find((o) => o.id === id)`
unfoldable pub find_org : String → List Org → Option Org
find_org id orgs = find (λ o. o.id == id) orgs

-- A claim that may be missing, compared by `===` with a text.
abbrev pub is_claim : String → Option String → Bool
is_claim s none = false
is_claim s (some c) = s == c

pub record IdpClaims : Type 0 where
  pub sub : Option String
  pub email : Option String
  pub groups : Option (List String)

abbrev pub is_exempt : Profile → Role → Bool
is_exempt demo _ = true
is_exempt production operator = true
is_exempt production _ = false

-- `assertOrgMembership`: false where it throws.
unfoldable pub assert_org_membership : IdpClaims → Org → Profile → Bool
assert_org_membership claims org profile =
    let sub_ok =
      any (λ s. is_claim s claims.sub || is_claim s claims.email) (or_empty org.allowed_subjects) in
    let grp_ok = any (λ g. includes g (or_empty claims.groups)) (or_empty org.allowed_groups) in
    is_exempt profile org.role || (sub_ok || grp_ok)

infixl 5 ◌>>=◌ ◌>>◌
abbrev ◌>>=◌ : {A B : Type 0} → Option A → (A → Option B) → Option B
none >>= k = none
some a >>= k = k a

abbrev ◌>>◌ : {A B : Type 0} → Option A → Option B → Option B
m >> k = m >>= λ _. k

abbrev guard : Bool → Option (Unit {0})
guard true = some tt
guard false = none

-- One line of users.yaml (auth/src/providers/builtin.ts).
pub record UserEntry : Type 0 where
  pub username : String
  pub password_hash : String
  pub org_id : String
  pub act_as : List String
  pub read_as : List String

abbrev pub non_empty : List String → List String → List String
non_empty [] ys = ys
non_empty (x ∷ xs) ys = x ∷ xs

-- bcrypt is a parameter: `compare password hash`.
module _ (compare : String → String → Bool) (users : List UserEntry) (orgs : List Org) where
  -- `BuiltinProvider.authenticate`
  unfoldable pub builtin_authenticate : AuthRequest → Option AuthResult
  builtin_authenticate req = do
    user ← find (λ u. u.username == req.username && u.org_id == req.org_id) users
    guard (compare req.password user.password_hash)
    org ← find_org req.org_id orgs
    some (record {
      user_id = String.◌++◌ user.username (String.◌++◌ "::" user.org_id);
      org_id = user.org_id;
      party = org.party;
      act_as = user.act_as;
      read_as = non_empty user.read_as user.act_as;
    })

  abbrev pub builtin_provider : AuthProvider
  builtin_provider = record {
    authenticate = builtin_authenticate;
    authorization_url = none;
    handle_callback = none;
  }

-- The verified payload of an id_token (auth/src/providers/oidc.ts).
pub record TokenPayload : Type 0 where
  pub nonce : Option String
  pub claims : IdpClaims

-- `OidcProvider.verifyIdToken`, after jose's part: the nonce.
unfoldable pub verify_nonce : TokenPayload → String → Option IdpClaims
verify_nonce payload expected =
    if is_claim expected payload.nonce then some payload.claims else none

-- `email ?? claims.sub`
abbrev or_else : Option String → Option String → Option String
or_else none s = s
or_else (some e) s = some e

-- The user's id, or a throw where it is missing or empty.
unfoldable pub subject_of : IdpClaims → Option String
subject_of claims = do
  user ← or_else claims.email claims.sub
  if user == "" then none else some user

-- The identity provider is a parameter: `exchange code` is the discovery, the token request and
-- jose's verification of the id_token's signature, issuer, audience and expiry; `none` where one
-- of them throws.
module _ (exchange : String → Option TokenPayload) (orgs : List Org) (profile : Profile) where
  -- `OidcProvider.handleCallback`
  unfoldable pub oidc_handle_callback : String → String → String → Option AuthResult
  oidc_handle_callback code org_id nonce = do
    payload ← exchange code
    claims ← verify_nonce payload nonce
    org ← find_org org_id orgs
    guard (assert_org_membership claims org profile)
    user ← subject_of claims
    some (record {
      user_id = String.◌++◌ user (String.◌++◌ "::" org_id);
      org_id = org_id;
      party = org.party;
      act_as = org.party ∷ [];
      read_as = org.party ∷ [];
    })

  -- `authenticate` always rejects. `url` is `OidcProvider.getAuthorizationUrl`, which only formats
  -- its arguments.
  abbrev pub oidc_provider : (String → String → String) → AuthProvider
  oidc_provider url = record {
    authenticate = λ _. none;
    authorization_url = some url;
    handle_callback = some oidc_handle_callback;
  }
