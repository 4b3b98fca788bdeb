-- ===== src/Auth/HandoffStore.antt =====
-- auth/src/auth/handoff-store.ts: access tokens that wait for the browser under a one-time code.
-- A call of `Date.now()` is an argument, in milliseconds.
use irsforge.Base.{ℕ, ◌+◌, ◌*◌, Option, none, some, String, ltb, if◌then◌else◌, []}
use irsforge.Base.Dict.{Dict, lookup, insert, erase}
pub mod Laws

-- `Omit<HandoffEntry, 'expiresAt'>`
pub record Grant : Type 0 where
  pub access_token : String
  pub expires_in : ℕ
  pub user_id : String
  pub org_id : String
  pub party : String

pub record HandoffEntry : Type 0 where
  pub grant : Grant
  pub expires_at : ℕ

pub record HandoffStore : Type 0 where
  pub ttl_ms : ℕ
  pub store : Dict HandoffEntry

-- The constructor.
unfoldable pub new_handoff_store : ℕ → HandoffStore
new_handoff_store ttl_seconds = record { ttl_ms = ttl_seconds * 1000; store = [] }

unfoldable pub put_handoff : String → Grant → ℕ → HandoffStore → HandoffStore
put_handoff handoff grant now s = record s {
  store = insert handoff (record { grant = grant; expires_at = now + s.ttl_ms }) s.store;
}

abbrev consumed : HandoffEntry → ℕ → HandoffStore → Option Grant × HandoffStore
consumed entry now s = if ltb entry.expires_at now then (none, s) else (some entry.grant, s)

unfoldable pub consume_handoff : String → ℕ → HandoffStore → Option Grant × HandoffStore
consume_handoff handoff now s = elim (lookup handoff s.store) [
  | none ↦ (none, s)
  | some entry ↦ consumed entry now (record s { store = erase handoff s.store })
]
