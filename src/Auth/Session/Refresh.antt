-- ===== src/Auth/Session/Refresh.antt =====
-- Renewing and closing a session.
use irsforge.Base.{
  ◌+◌, ◌≡◌, none, some, String, ◌==◌, eq_refl, leb, if◌then◌else◌, arith, false, List, Option-cases,
  inl, inr,
}
use irsforge.Base.Dict.{Dict, lookup, erase, lookup-insert, lookup-erase}
use irsforge.Auth.RefreshStore.{RefreshSession, TokenEntry, seconds, create, validate, rotate}
use irsforge.Auth.Provider.{Org, find_org}
use irsforge.Auth.Http.{Draws, AuthState, replied, failed}
use irsforge.Auth.Session.{Platform, handle_refresh, handle_logout, grant_of, granted_reply}

-- A cookie jar that holds a refresh token.
abbrev pub Carries : String → Dict String → Type 0
Carries token jar = (lookup "irsforge_refresh" jar ≡ some token) × ((token == "") ≡ false)

module _ (p : Platform) (orgs : List Org) where
  -- A refresh with a live token of a known org, where the new token is not empty, differs from the
  -- old one and has not expired when the handler reads it back: the reply carries the new token and
  -- an access token with the rights of the old session; the old token is gone, the new one stands
  -- for the same session, and no third token is touched.
  pub refresh_rotates :
      (old k : String) (jar : Dict String) (io : Draws) (s : AuthState) (x : RefreshSession)
      (o : Org)
      → Carries old jar
      → (io.token == "") ≡ false
      → (old == io.token) ≡ false
      → (validate old (io.clock 0) s.tokens).0 ≡ some x
      → leb (seconds (io.clock 1) + s.tokens.ttl_seconds) (seconds (io.clock 2)) ≡ false
      → find_org x.org_id orgs ≡ some o
      → let (r, s') = handle_refresh p orgs (some jar) io s in
        (r ≡ replied (granted_reply p io.token (grant_of p x o.party (io.clock 3))))
        × (lookup k s'.tokens.store ≡ (
            if io.token == k
            then some
                (record { session = x; expires_at = seconds (io.clock 1) + s.tokens.ttl_seconds })
            else if old == k
            then none
            else lookup k s.tokens.store))
  unfolding handle_refresh rotate validate create
  refresh_rotates old k jar io s x o (carried, filled) fresh ne live time known =
      elim (Option-cases (lookup old s.tokens.store)) [
        | inl missing ↦ (ground arith, ground arith)
        | inr (entry, found) ↦
            let made : TokenEntry = record {
              session = entry.session;
              expires_at = seconds (io.clock 1) + s.tokens.ttl_seconds;
            } in
            (
              ground (
                arith,
                lookup-insert io.token io.token made (erase old s.tokens.store),
                eq_refl io.token,
              ),
              ground (
                arith,
                lookup-insert io.token io.token made (erase old s.tokens.store),
                eq_refl io.token,
                lookup-insert io.token k made (erase old s.tokens.store),
                lookup-erase old k s.tokens.store,
              ),
            )
      ]

  -- A refresh with a token that the store does not take is refused, and opens no session.
  pub refresh_refused :
      (old : String) (jar : Dict String) (io : Draws) (s : AuthState)
      → Carries old jar
      → (validate old (io.clock 0) s.tokens).0 ≡ none
      → handle_refresh p orgs (some jar) io s ≡ (
        replied (failed 401 "Invalid or expired refresh token"),
        record s { tokens = (validate old (io.clock 0) s.tokens).1 },
      )
  unfolding handle_refresh rotate validate create
  refresh_refused old jar io s (carried, filled) dead = ground arith

  -- After a logout the token of the cookie renews nothing, at any later request.
  pub logout-refresh :
      (token : String) (jar : Dict String) (io : Draws) (s : AuthState)
      → Carries token jar
      → let s' = (handle_logout (some jar) s).1 in
        handle_refresh p orgs (some jar) io s'
        ≡ (replied (failed 401 "Invalid or expired refresh token"), s')
  unfolding handle_refresh handle_logout rotate create
  logout-refresh token jar io s (carried, filled) =
      ground (arith, lookup-erase token token s.tokens.store, eq_refl token)
