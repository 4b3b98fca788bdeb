-- ===== src/Auth/StateStore.antt =====
-- auth/src/auth/state-store.ts: pending OIDC authorization requests.
-- A call of `Date.now()` is an argument, in milliseconds.
use irsforge.Base.{ℕ, ◌+◌, ◌*◌, Option, none, some, String, ltb, if◌then◌else◌, []}
use irsforge.Base.Dict.{Dict, lookup, insert, erase}
pub mod Laws

-- What a caller puts in and gets back.
pub record Pending : Type 0 where
  pub org_id : String
  pub nonce : String

pub record StateEntry : Type 0 where
  pub pending : Pending
  pub expires_at : ℕ

pub record OidcStateStore : Type 0 where
  pub ttl_ms : ℕ
  pub store : Dict StateEntry

-- The constructor.
unfoldable pub new_state_store : ℕ → OidcStateStore
new_state_store ttl_seconds = record { ttl_ms = ttl_seconds * 1000; store = [] }

unfoldable pub put_state : String → Pending → ℕ → OidcStateStore → OidcStateStore
put_state state p now s = record s {
  store = insert state (record { pending = p; expires_at = now + s.ttl_ms }) s.store;
}

abbrev consumed : StateEntry → ℕ → OidcStateStore → Option Pending × OidcStateStore
consumed entry now s = if ltb entry.expires_at now then (none, s) else (some entry.pending, s)

unfoldable pub consume_state : String → ℕ → OidcStateStore → Option Pending × OidcStateStore
consume_state state now s = elim (lookup state s.store) [
  | none ↦ (none, s)
  | some entry ↦ consumed entry now (record s { store = erase state s.store })
]
