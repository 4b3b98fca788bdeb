-- ===== src/Auth/Server/Flow.antt =====
-- The redirect flow from `GET /auth/authorize` to the callback, and the service with each of its
-- two providers.
use irsforge.Base.{
  ℕ, ◌+◌, ◌≡◌, ◌∙◌, sym, ap, refl, Option, none, some, String, List, [], ◌∷◌, ◌==◌, if◌then◌else◌,
  arith, true, false, any, ltb,
}
use Prim.Native.String
use mathlib.Core.List.{Memᴰ}
use mathlib.Core.Option.{some-injective}
use irsforge.Auth.StateStore.{consume_state}
use irsforge.Auth.StateStore.Laws.{consume_state-put_state}
use irsforge.Auth.RefreshStore.{RefreshSession, validate}
use irsforge.Auth.Provider.{
  Org, UserEntry, Profile, TokenPayload, builtin_provider, oidc_provider, oidc_handle_callback,
}
use irsforge.Auth.Provider.Laws.{
  builtin_authenticate_sound, Admits, IsIdOf, oidc_handle_callback_sound,
}
use irsforge.Auth.Http.{empty, Draws, AuthState, replied}
use irsforge.Auth.Server.{Service, or_blank, handle_authorize}
use irsforge.Auth.Server.Rights.{Reach, Reach-rights}

-- An authorization request for a listed org is sent to the identity provider with a fresh state,
-- and until its time is up the state leads back to that org and to the nonce of the request.
pub handle_authorize-consume_state :
    (svc : Service) (org : String) (url : String → String → String) (io : Draws) (t : ℕ)
    (s : AuthState)
    → svc.provider.authorization_url ≡ some url
    → any (λ o. o.id == org) svc.orgs ≡ true
    → let (r, s') = handle_authorize svc (some org) io s in
      (r
        ≡ replied (record {
          status = 302;
          cookie = none;
          location = some (url (io.uuid 0) (io.uuid 1));
          body = empty;
        }))
      × ((consume_state (io.uuid 0) t s'.states).0 ≡ (
          if ltb (io.clock 0 + s.states.ttl_ms) t
          then none
          else some (record { org_id = org; nonce = io.uuid 1 })))
unfolding handle_authorize
handle_authorize-consume_state svc org url io t s has listed =
    rw (has, listed, handle_authorize)
      (refl, consume_state-put_state (io.uuid 0) _ (io.clock 0) t s.states)

-- An authorization request for an org that is not listed is refused and leaves no state behind.
pub handle_authorize_unknown :
    (svc : Service) (org : Option String) (io : Draws) (s : AuthState)
    → any (λ o. o.id == or_blank org) svc.orgs ≡ false
    → (handle_authorize svc org io s).1 ≡ s
unfolding handle_authorize
handle_authorize_unknown svc org io s unlisted = ground arith

-- With users.yaml: every refresh token that the service takes, after any requests, stands for a
-- listed user of its org, by that user's id, and acts with the rights of that user's line.
pub Reach-users :
    (svc : Service) (users : List UserEntry) (s : AuthState)
    → svc.provider ≡ builtin_provider svc.compare users svc.orgs
    → Reach svc s
    → (token : String) (now : ℕ) (x : RefreshSession) → (validate token now s.tokens).0 ≡ some x
    → (u : UserEntry) × Memᴰ u users
      × (u.org_id ≡ x.org_id)
      × (x.act_as ≡ u.act_as)
      × (x.user_id ≡ String.◌++◌ u.username (String.◌++◌ "::" u.org_id))
Reach-users svc users s builtin r token now x e =
    Reach-rights svc
      (λ y.
        (u : UserEntry) × Memᴰ u users
        × (u.org_id ≡ y.org_id)
        × (y.act_as ≡ u.act_as)
        × (y.user_id ≡ String.◌++◌ u.username (String.◌++◌ "::" u.org_id)))
      s
      (record {
        by_password = λ req a ea.
            let w =
              builtin_authenticate_sound svc.compare users svc.orgs req a (rw builtin at ea) in
            (w.user, w.listed, w.at_org, w.rights, w.user_id);
        by_redirect = λ call code o n a has ea. absurd (ground arith);
      })
      r token now x e

-- With an identity provider: every refresh token that the service takes, after any requests,
-- stands for the user of an id_token that the provider verified, whom its org admits, and acts as
-- the party of that org and no other.
pub Reach-members :
    (svc : Service) (exchange : String → Option TokenPayload) (profile : Profile)
    (url : String → String → String) (s : AuthState)
    → svc.provider ≡ oidc_provider exchange svc.orgs profile url
    → Reach svc s
    → (token : String) (now : ℕ) (x : RefreshSession) → (validate token now s.tokens).0 ≡ some x
    → (o : Org) × (code : String) × (payload : TokenPayload) × Memᴰ o svc.orgs
      × (o.id ≡ x.org_id)
      × (exchange code ≡ some payload)
      × IsIdOf payload.claims x.org_id x.user_id
      × Admits payload.claims o profile
      × (x.act_as ≡ o.party ∷ [])
Reach-members svc exchange profile url s oidc r token now x e =
    Reach-rights svc
      (λ y.
        (o : Org) × (code : String) × (payload : TokenPayload) × Memᴰ o svc.orgs
        × (o.id ≡ y.org_id)
        × (exchange code ≡ some payload)
        × IsIdOf payload.claims y.org_id y.user_id
        × Admits payload.claims o profile
        × (y.act_as ≡ o.party ∷ []))
      s
      (record {
        by_password = λ req a ea. absurd (ground arith);
        by_redirect = λ call code org n a has ea.
            let same : some call ≡ some (oidc_handle_callback exchange svc.orgs profile) =
              sym has ∙ ap (λ q. q.handle_callback) oidc in
            let answered : oidc_handle_callback exchange svc.orgs profile code org n ≡ some a =
              ap (λ f. f code org n) (sym (some-injective _ _ same)) ∙ ea in
            let (payload, ex, m) =
              oidc_handle_callback_sound exchange svc.orgs profile code org n a answered in
            (
              m.org,
              code,
              payload,
              m.listed,
              m.named ∙ sym m.org_id,
              ex,
              m.user_id,
              m.admitted,
              m.rights,
            );
      })
      r token now x e
