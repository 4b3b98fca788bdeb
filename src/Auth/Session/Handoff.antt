-- ===== src/Auth/Session/Handoff.antt =====
-- The redirect flow: the state that a callback uses up, and the code that it hands over.
use irsforge.Base.{
  ◌+◌, ◌≡◌, Option, none, some, String, ◌==◌, eq_refl, ltb, if◌then◌else◌, arith, false,
}
use irsforge.Base.Dict.{Dict, lookup-erase}
use irsforge.Auth.HandoffStore.{consume_handoff}
use irsforge.Auth.StateStore.{Pending, consume_state}
use irsforge.Auth.RefreshStore.{create}
use irsforge.Auth.Provider.{AuthProvider, AuthResult}
use irsforge.Auth.Http.{fields, Field, Draws, AuthState, replied, text_field, failed}
use irsforge.Auth.Session.{
  Platform, handle_callback, handle_handoff, grant_of, session_of, error_redirect, callback_reply,
}
use irsforge.Auth.HandoffStore.Laws.{consume_handoff-put_handoff}

module _ (p : Platform) (provider : AuthProvider) where
  -- Whatever a callback with some state led to, the next callback with that state is refused as
  -- an invalid state, and changes nothing.
  pub callback_replayed :
      (code code' state : String) (io io' : Draws) (s : AuthState)
      → let s' = (handle_callback p provider (some code) (some state) io s).1 in
        handle_callback p provider (some code') (some state) io' s'
        ≡ (replied (error_redirect p "invalid_state"), s')
  unfolding handle_callback consume_state
  callback_replayed code code' state io io' s =
      ground (arith, lookup-erase state state s.states.store, eq_refl state)

  -- A callback in time, for a state that is pending, to which the provider answers with a user:
  -- the browser is sent to the user's org with the code, and the code is redeemed, until its time
  -- is up, for a token with that user's rights.
  pub callback-handoff :
      (code state : String) (io io' : Draws) (s : AuthState) (x : Pending)
      (call : String → String → String → Option AuthResult) (a : AuthResult)
      → (consume_state state (io.clock 0) s.states).0 ≡ some x
      → provider.handle_callback ≡ some call
      → call code x.org_id x.nonce ≡ some a
      → let (r, s') = handle_callback p provider (some code) (some state) io s in
        let g = grant_of p (session_of a.org_id a) a.party (io.clock 1) in
        (r ≡ replied (callback_reply p io.token a.org_id (io.uuid 0)))
        × ((consume_handoff (io.uuid 0) (io'.clock 0) s'.handoffs).0
            ≡ (if ltb (io.clock 3 + s.handoffs.ttl_ms) (io'.clock 0) then none else some g))
  unfolding handle_callback create
  callback-handoff code state io io' s x call a found has answered =
      let g = grant_of p (session_of a.org_id a) a.party (io.clock 1) in
      (
        ground arith,
        ground (
          arith,
          consume_handoff-put_handoff (io.uuid 0) g (io.clock 3) (io'.clock 0) s.handoffs,
        ),
      )

  -- A callback that the provider refuses opens no session and hands nothing over.
  pub callback_refused :
      (code state : String) (io : Draws) (s : AuthState) (x : Pending)
      (call : String → String → String → Option AuthResult)
      → (consume_state state (io.clock 0) s.states).0 ≡ some x
      → provider.handle_callback ≡ some call
      → call code x.org_id x.nonce ≡ none
      → let (r, s') = handle_callback p provider (some code) (some state) io s in
        (r ≡ replied (error_redirect p "auth_failed"))
        × (s'.tokens ≡ s.tokens)
        × (s'.handoffs ≡ s.handoffs)
  unfolding handle_callback
  callback_refused code state io s x call found has answered =
      (ground arith, ground arith, ground arith)

-- Whatever a request with some code led to, the next request with that code is refused, and
-- changes nothing.
pub handoff_replayed :
    (h : String) (fs gs : Dict Field) (io io' : Draws) (s : AuthState)
    → text_field "handoff" fs ≡ some h
    → text_field "handoff" gs ≡ some h
    → (h == "") ≡ false
    → let s' = (handle_handoff (fields fs) io s).1 in
      handle_handoff (fields gs) io' s' ≡ (replied (failed 401 "invalid_handoff"), s')
unfolding handle_handoff consume_handoff
handoff_replayed h fs gs io io' s e e' filled =
    ground (arith, lookup-erase h h s.handoffs.store, eq_refl h)
