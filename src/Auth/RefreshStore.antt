-- ===== src/Auth/RefreshStore.antt =====
-- auth/src/tokens/refresh.ts: refresh tokens and the sessions that they stand for.
-- A call of `Date.now()` is an argument, in milliseconds; the random token of `generateToken`
-- is an argument of the calls that make one.
use irsforge.Base.{ℕ, ◌+◌, ◌*◌, ◌/◌, Option, none, some, String, List, leb, if◌then◌else◌, []}
use irsforge.Base.Dict.{Dict, lookup, insert, erase}
pub mod Laws
pub mod Origin
pub mod Runs
pub mod Refines

pub record RefreshSession : Type 0 where
  pub user_id : String
  pub org_id : String
  pub act_as : List String
  pub read_as : List String

pub record TokenEntry : Type 0 where
  pub session : RefreshSession
  pub expires_at : ℕ

pub record RefreshTokenStore : Type 0 where
  pub ttl_seconds : ℕ
  pub store : Dict TokenEntry

-- The constructor.
unfoldable pub new_token_store : ℕ → RefreshTokenStore
new_token_store ttl_seconds = record { ttl_seconds = ttl_seconds; store = [] }

-- `Math.floor(Date.now() / 1000)`
abbrev pub seconds : ℕ → ℕ
seconds ms = ms / 1000

-- `create`, with the random token; the result is the token.
unfoldable pub create : String → ℕ → RefreshSession → RefreshTokenStore → String × RefreshTokenStore
create token now session s =
    let entry : TokenEntry = record {
      session = session;
      expires_at = seconds now + s.ttl_seconds;
    } in
    (token, record s { store = insert token entry s.store })

unfoldable pub validate : String → ℕ → RefreshTokenStore → Option RefreshSession × RefreshTokenStore
validate token now s = elim (lookup token s.store) [
  | none ↦ (none, s)
  | some entry ↦
      if leb entry.expires_at (seconds now)
      then (none, record s { store = erase token s.store })
      else (some entry.session, s)
]

-- `rotate` reads the clock once itself and once in `create`.
unfoldable pub rotate :
    String → String → ℕ → ℕ → RefreshTokenStore → Option String × RefreshTokenStore
unfolding create
rotate old_token token now now' s = elim (lookup old_token s.store) [
  | none ↦ (none, s)
  | some entry ↦
      let dropped : RefreshTokenStore = record s { store = erase old_token s.store } in
      let (made, s') = create token now' entry.session dropped in
      if leb entry.expires_at (seconds now) then (none, dropped) else (some made, s')
]

unfoldable pub revoke : String → RefreshTokenStore → RefreshTokenStore
revoke token s = record s { store = erase token s.store }
