-- ===== src/Auth/Server/Rights.antt =====
-- Every right that the service hands out was granted by the provider at a sign-in.
use irsforge.Base.{ℕ, ◌≡◌, ◌⊎◌, refl, Option, none, some, String, arith, Option-cases, inl, inr}
use irsforge.Base.Dict.{lookup}
use irsforge.Auth.StateStore.{consume_state, new_state_store}
use irsforge.Auth.HandoffStore.{new_handoff_store}
use irsforge.Auth.RefreshStore.{
  RefreshSession, new_token_store, RefreshTokenStore, create, validate, rotate,
}
use irsforge.Auth.RefreshStore.Origin.{
  AllSessions, erase-AllSessions, validate-has, create-AllSessions, validate-AllSessions,
  rotate-AllSessions,
}
use irsforge.Auth.Provider.{AuthProvider, AuthRequest, AuthResult}
use irsforge.Auth.Http.{RequestBody, broken, null, fields, Draws, AuthState, truthy, text_field}
use irsforge.Auth.OauthToken.{OauthTokenRequest}
use irsforge.Auth.Session.{
  Platform, Cookies, session_of, handle_login, handle_callback, handle_handoff, handle_refresh,
  handle_logout,
}
use irsforge.Auth.Server.{
  Service, Request, Endpoint, serve, answer, endpoint, handle_authorize, handle_token, get_jwks,
  get_health, login, authorize, callback, handoff, refresh, oauth, logout, missing,
}

module _ (p : Platform) (provider : AuthProvider) (io : Draws) where
  -- A login leaves the sessions alone, or adds the one that the provider granted.
  login-tokens :
      (body : RequestBody) (s : AuthState)
      → let s' = (handle_login p provider body io s).1 in
        (s'.tokens ≡ s.tokens)
        ⊎ ((req : AuthRequest) × (a : AuthResult) × (provider.authenticate req ≡ some a)
            × (s'.tokens ≡ (create io.token (io.clock 1) (session_of req.org_id a) s.tokens).1))
  unfolding handle_login
  login-tokens broken s = inl refl
  login-tokens null s = inl refl
  login-tokens (fields fs) s = elim (Option-cases (text_field "username" fs)) [
    | inl no_name ↦ inl (ground arith)
    | inr (u, eu) ↦ elim (Option-cases (text_field "password" fs)) [
      | inl no_password ↦ inl (ground arith)
      | inr (w, ew) ↦ elim (Option-cases (text_field "orgId" fs)) [
        | inl no_org ↦ inl (ground arith)
        | inr (o, eo) ↦
            let req : AuthRequest = record { username = u; password = w; org_id = o } in
            elim (Option-cases (provider.authenticate req)) [
              | inl refused ↦ inl (rw (eu, ew, eo, refused, handle_login))
              | inr (a, ea) ↦ inr (req, a, ea, rw (eu, ew, eo, ea, handle_login))
            ]
      ]
    ]
  ]

  -- So does a callback.
  callback-tokens :
      (code state : Option String) (s : AuthState)
      → let s' = (handle_callback p provider code state io s).1 in
        (s'.tokens ≡ s.tokens)
        ⊎ ((call : String → String → String → Option AuthResult) × (c : String) × (o : String)
            × (n : String) × (a : AuthResult) × (provider.handle_callback ≡ some call)
            × (call c o n ≡ some a)
            × (s'.tokens ≡ (create io.token (io.clock 2) (session_of a.org_id a) s.tokens).1))
  unfolding handle_callback
  callback-tokens none state s = inl refl
  callback-tokens (some code) none s = inl refl
  callback-tokens (some code) (some state) s =
      elim (Option-cases (consume_state state (io.clock 0) s.states).0) [
        | inl unknown ↦ inl (rw (unknown, handle_callback))
        | inr (x, found) ↦ elim (Option-cases provider.handle_callback) [
          | inl absent ↦ inl (rw (found, absent, handle_callback))
          | inr (call, has) ↦ elim (Option-cases (call code x.org_id x.nonce)) [
            | inl refused ↦ inl (rw (found, has, refused, handle_callback))
            | inr (a, ea) ↦
                inr
                  (call, code, x.org_id, x.nonce, a, has, ea, rw (found, has, ea, handle_callback))
          ]
        ]
      ]

module _ (svc : Service) (P : RefreshSession → Type 0) where
  -- What the provider grants has the property.
  pub record Grants : Type 0 where
    pub by_password :
        (req : AuthRequest) (a : AuthResult)
        → svc.provider.authenticate req ≡ some a
        → P (session_of req.org_id a)
    pub by_redirect :
        (call : String → String → String → Option AuthResult) (code org_id nonce : String)
        (a : AuthResult)
        → svc.provider.handle_callback ≡ some call
        → call code org_id nonce ≡ some a
        → P (session_of a.org_id a)

  abbrev pub Holds : AuthState → Type 0
  Holds s = AllSessions P s.tokens.store

  moved : (t t' : RefreshTokenStore) → t' ≡ t → AllSessions P t.store → AllSessions P t'.store
  moved t t' e h = rw e h

  login-Holds :
      Grants
      → (body : RequestBody) (io : Draws) (s : AuthState) → Holds s
      → Holds (handle_login svc.platform svc.provider body io s).1
  login-Holds g body io s h = elim (login-tokens svc.platform svc.provider io body s) [
    | inl same ↦ moved _ _ same h
    | inr (req, a, ea, made) ↦
        moved _ _ made (create-AllSessions P _ _ _ s.tokens (g.by_password req a ea) h)
  ]

  callback-Holds :
      Grants
      → (code state : Option String) (io : Draws) (s : AuthState) → Holds s
      → Holds (handle_callback svc.platform svc.provider code state io s).1
  callback-Holds g code state io s h =
      elim (callback-tokens svc.platform svc.provider io code state s) [
        | inl same ↦ moved _ _ same h
        | inr (call, c, o, n, a, has, ea, made) ↦
            moved _ _ made
              (create-AllSessions P _ _ _ s.tokens (g.by_redirect call c o n a has ea) h)
      ]

  handoff-tokens :
      (body : RequestBody) (io : Draws) (s : AuthState)
      → (handle_handoff body io s).1.tokens ≡ s.tokens
  unfolding handle_handoff
  handoff-tokens broken io s = refl
  handoff-tokens null io s = refl
  handoff-tokens (fields fs) io s = ground arith

  authorize-tokens :
      (org : Option String) (io : Draws) (s : AuthState)
      → (handle_authorize svc org io s).1.tokens ≡ s.tokens
  unfolding handle_authorize
  authorize-tokens org io s = ground arith

  token-tokens :
      (form : Option OauthTokenRequest) (io : Draws) (s : AuthState)
      → (handle_token svc form io s).1.tokens ≡ s.tokens
  unfolding handle_token
  token-tokens form io s = ground arith

  logout-Holds : (cookies : Cookies) (s : AuthState) → Holds s → Holds (handle_logout cookies s).1
  unfolding handle_logout
  logout-Holds none s h = h
  logout-Holds (some jar) s h = elim (Option-cases (truthy (lookup "irsforge_refresh" jar))) [
    | inl nothing ↦ rw (nothing, handle_logout) h
    | inr (token, here) ↦ rw (here, handle_logout) (erase-AllSessions P token s.tokens.store h)
  ]

  refresh-Holds :
      (cookies : Cookies) (io : Draws) (s : AuthState)
      → Holds s
      → Holds (handle_refresh svc.platform svc.orgs cookies io s).1
  unfolding handle_refresh
  refresh-Holds none io s h = h
  refresh-Holds (some jar) io s h = elim (Option-cases (truthy (lookup "irsforge_refresh" jar))) [
    | inl nothing ↦ rw (nothing, handle_refresh) h
    | inr (old, here) ↦
        let turned = rotate-AllSessions P old io.token (io.clock 0) (io.clock 1) s.tokens h in
        elim (Option-cases (truthy (rotate old io.token (io.clock 0) (io.clock 1) s.tokens).0)) [
          | inl refused ↦ rw (here, refused, handle_refresh) turned
          | inr (new, given) ↦
              let turned_store = (rotate old io.token (io.clock 0) (io.clock 1) s.tokens).1 in
              moved (validate new (io.clock 2) turned_store).1
                (handle_refresh svc.platform svc.orgs (some jar) io s).1.tokens (ground arith)
                (validate-AllSessions P new (io.clock 2) turned_store turned)
        ]
  ]

  answer-Holds :
      Grants
      → (e : Endpoint) (req : Request) (io : Draws) (s : AuthState) → Holds s
      → Holds (answer svc e req io s).1
  unfolding answer
  answer-Holds g get_jwks req io s h = h
  answer-Holds g get_health req io s h = h
  answer-Holds g login req io s h = login-Holds g req.body io s h
  answer-Holds g authorize req io s h =
      moved s.tokens (handle_authorize svc req.org_id io s).1.tokens
        (authorize-tokens req.org_id io s) h
  answer-Holds g callback req io s h = callback-Holds g req.code req.state io s h
  answer-Holds g handoff req io s h =
      moved s.tokens (handle_handoff req.body io s).1.tokens (handoff-tokens req.body io s) h
  answer-Holds g refresh req io s h = refresh-Holds req.cookies io s h
  answer-Holds g oauth req io s h =
      moved s.tokens (handle_token svc req.form io s).1.tokens (token-tokens req.form io s) h
  answer-Holds g logout req io s h = logout-Holds req.cookies s h
  answer-Holds g missing req io s h = h

  -- One request keeps the property of the stored sessions.
  pub serve-Holds :
      Grants → (req : Request) (io : Draws) (s : AuthState) → Holds s → Holds (serve svc req io s).1
  unfolding serve
  serve-Holds g req io s h = answer-Holds g (endpoint req.url req.method) req io s h

-- The states that a service reaches from empty stores, one request after the other.
pub data Reach (svc : Service) : AuthState → Type 0 where
  start :
      (ttl : ℕ)
      → Reach svc (record {
        tokens = new_token_store ttl;
        states = new_state_store 600;
        handoffs = new_handoff_store 30;
      })
  next :
      {s : AuthState} (req : Request) (io : Draws) → Reach svc s → Reach svc (serve svc req io s).1

Reach-Holds :
    (svc : Service) (P : RefreshSession → Type 0) {s : AuthState}
    → Grants svc P
    → Reach svc s
    → Holds svc P s
unfolding new_token_store lookup
Reach-Holds svc P g (start ttl) = λ k e at. absurd (ground arith)
Reach-Holds svc P g (next {s} req io r) = serve-Holds svc P g req io s (Reach-Holds svc P g r)

-- Whatever requests the service has answered, every refresh token that it takes stands for a
-- session that the provider granted.
pub Reach-rights :
    (svc : Service) (P : RefreshSession → Type 0) (s : AuthState)
    → Grants svc P
    → Reach svc s
    → (token : String) (now : ℕ) (x : RefreshSession) → (validate token now s.tokens).0 ≡ some x
    → P x
Reach-rights svc P s g r token now x e =
    validate-has P token now s.tokens x (Reach-Holds svc P g r) e
