-- ===== src/Auth/Session/Login.antt =====
-- Signing in with a password, and what a body of `null` does.
use irsforge.Base.{refl, ℕ, ◌+◌, ◌≡◌, none, some, leb, if◌then◌else◌, arith}
use irsforge.Base.Dict.{Dict}
use irsforge.Auth.RefreshStore.{seconds, create, validate}
use irsforge.Auth.RefreshStore.Laws.{validate-create}
use irsforge.Auth.Provider.{AuthProvider, AuthRequest, AuthResult}
use irsforge.Auth.Http.{null, fields, Field, Draws, AuthState, replied, threw, failed, text_field}
use irsforge.Auth.Session.{
  Platform, handle_login, handle_handoff, session_of, grant_of, granted_reply,
}

-- The three texts of a login form.
pub record IsForm (fs : Dict Field) (req : AuthRequest) : Type 0 where
  pub username : text_field "username" fs ≡ some req.username
  pub password : text_field "password" fs ≡ some req.password
  pub org_id : text_field "orgId" fs ≡ some req.org_id

module _ (p : Platform) (provider : AuthProvider) where
  -- A login that the provider accepts: the reply carries a token with the provider's rights, and
  -- the cookie's refresh token stands for that session until its time is up.
  pub login_accepted :
      (fs : Dict Field) (req : AuthRequest) (a : AuthResult) (io : Draws) (t : ℕ) (s : AuthState)
      → IsForm fs req
      → provider.authenticate req ≡ some a
      → let (r, s') = handle_login p provider (fields fs) io s in
        let who = session_of req.org_id a in
        (r ≡ replied (granted_reply p io.token (grant_of p who a.party (io.clock 0))))
        × ((validate io.token t s'.tokens).0 ≡ (
            if leb (seconds (io.clock 1) + s.tokens.ttl_seconds) (seconds t)
            then none
            else some who))
  unfolding handle_login create
  login_accepted fs req a io t s form accepted =
      let who = session_of req.org_id a in
      rw (form.username, form.password, form.org_id, accepted, handle_login)
        (refl, validate-create io.token who (io.clock 1) t s.tokens)

  -- A login that the provider refuses is answered 401 and changes nothing.
  pub login_refused :
      (fs : Dict Field) (req : AuthRequest) (io : Draws) (s : AuthState)
      → IsForm fs req
      → provider.authenticate req ≡ none
      → handle_login p provider (fields fs) io s ≡ (replied (failed 401 "Invalid credentials"), s)
  unfolding handle_login
  login_refused fs req io s form refused = ground arith

  -- A body that is the JSON text `null` makes the login and the handoff handler throw: no reply
  -- is sent, whatever the state.
  pub null_body_throws :
      (io : Draws) (s : AuthState)
      → (handle_login p provider null io s ≡ (threw, s)) × (handle_handoff null io s ≡ (threw, s))
  unfolding handle_login handle_handoff
  null_body_throws io s = (ground arith, ground arith)
