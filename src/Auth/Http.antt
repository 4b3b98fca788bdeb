-- ===== src/Auth/Http.antt =====
-- What the handlers of auth/src/routes share: requests, replies, the stores that they change
-- (auth/src/index.ts) and the effects that they may have.
--
-- `Handler A` is one run of an async handler up to some point: it goes on with a value, or it
-- has sent a reply and returned, or it has thrown with no reply sent.
use irsforge.Base.{ℕ, Option, none, some, String, Bool, true, false, ◌==◌, if◌then◌else◌}
use irsforge.Base.Dict.{Dict, lookup}
use irsforge.Auth.HandoffStore.{Grant, HandoffStore}
use irsforge.Auth.StateStore.{OidcStateStore}
use irsforge.Auth.RefreshStore.{RefreshTokenStore}

-- A field of a parsed JSON object.
pub data Field : Type 0 where
  text : String → Field
  other : Field

-- What `JSON.parse(await readBody(req))` gives: it throws, or it gives `null`, or a value whose
-- fields can be read (all but those of an object are undefined).
pub data RequestBody : Type 0 where
  broken : RequestBody
  null : RequestBody
  fields : Dict Field → RequestBody

-- `Set-Cookie: irsforge_refresh=<value>; HttpOnly; SameSite=Strict; Path=/auth; Max-Age=<max_age>`
pub record Cookie : Type 0 where
  pub value : String
  pub max_age : ℕ

pub data ReplyBody : Type 0 where
  empty : ReplyBody
  error : String → ReplyBody
  granted : Grant → ReplyBody
  ok : ReplyBody
  health : ReplyBody
  jwks : ReplyBody
  oauth_error : String → Option String → ReplyBody
  oauth_token : String → ℕ → ReplyBody

pub record Reply : Type 0 where
  pub status : ℕ
  pub cookie : Option Cookie
  pub location : Option String
  pub body : ReplyBody

-- The stores that `main` makes and the handlers share.
pub record AuthState : Type 0 where
  pub tokens : RefreshTokenStore
  pub states : OidcStateStore
  pub handoffs : HandoffStore

-- The readings of the clock, in milliseconds, and the random values that one request draws.
pub record Draws : Type 0 where
  pub clock : ℕ → ℕ
  pub token : String
  pub uuid : ℕ → String

pub data Outcome {ℓ} (A : Type ℓ) : Type ℓ where
  done : A → Outcome A
  replied : Reply → Outcome A
  threw : Outcome A

abbrev pub Handler : Type 0 → Type 0
Handler A = AuthState → Outcome A × AuthState

infixl 5 ◌>>=◌ ◌>>◌
abbrev pub ◌>>=◌ : {A B : Type 0} → Handler A → (A → Handler B) → Handler B
◌>>=◌ m f s =
    let (r, s') = m s in
    elim r [ done a ↦ f a s' | replied x ↦ (replied x, s') | threw ↦ (threw, s') ]

abbrev pub ◌>>◌ : {A B : Type 0} → Handler A → Handler B → Handler B
m >> k = m >>= λ _. k

abbrev pub pure : {A : Type 0} → A → Handler A
pure a s = (done a, s)

abbrev pub reply : {A : Type 0} → Reply → Handler A
reply x s = (replied x, s)

abbrev pub throw : {A : Type 0} → Handler A
throw s = (threw, s)

abbrev pub or_reply : {A : Type 0} → Option A → Reply → Handler A
or_reply none x = reply x
or_reply (some a) x = pure a

abbrev pub reply_if : Bool → Reply → Handler (Unit {0})
reply_if true x = reply x
reply_if false x = pure tt

-- `send` and `sendError` of auth/src/routes/shared.ts.
abbrev pub sent : ℕ → ReplyBody → Reply
sent status body = record { status = status; cookie = none; location = none; body = body }

abbrev pub failed : ℕ → String → Reply
failed status message = sent status (error message)

-- The text field `k` of a parsed object: `none` if it is not a string.
abbrev pub text_of : Option Field → Option String
text_of (some (text s)) = some s
text_of _ = none

unfoldable pub text_field : String → Dict Field → Option String
unfolding lookup
text_field k fs = text_of (lookup k fs)

-- A text that JavaScript takes for true: one that is there and is not empty.
abbrev pub truthy : Option String → Option String
truthy none = none
truthy (some s) = if s == "" then none else some s

-- `const { … } = body`, which throws where the body is `null`.
abbrev pub read_fields : RequestBody → Handler (Dict Field)
read_fields broken = reply (failed 400 "Invalid JSON body")
read_fields null = throw
read_fields (fields fs) = pure fs

-- Each call on a store of the state.
abbrev pub on_tokens : {A : Type 0} → (RefreshTokenStore → A × RefreshTokenStore) → Handler A
on_tokens f s = let (a, t) = f s.tokens in (done a, record s { tokens = t })

abbrev pub on_states : {A : Type 0} → (OidcStateStore → A × OidcStateStore) → Handler A
on_states f s = let (a, t) = f s.states in (done a, record s { states = t })

abbrev pub on_handoffs : {A : Type 0} → (HandoffStore → A × HandoffStore) → Handler A
on_handoffs f s = let (a, t) = f s.handoffs in (done a, record s { handoffs = t })
