-- ===== src/Auth/RefreshStore/Laws.antt =====
-- Each operation of the refresh token store on every branch.
use irsforge.Base.{
  ℕ, ◌+◌, ◌≡◌, none, some, String, ◌==◌, eq_refl, leb, if◌then◌else◌, arith, false, Option-cases,
  inl, inr,
}
use irsforge.Base.Dict.{lookup, erase, lookup-insert, lookup-erase}
use irsforge.Auth.RefreshStore.{
  RefreshSession, RefreshTokenStore, seconds, create, validate, rotate, revoke,
}

-- A token is good for its session until `ttl_seconds` after it was made, and no longer.
pub validate-create :
    (token : String) (x : RefreshSession) (t t' : ℕ) (s : RefreshTokenStore)
    → (validate token t' (create token t x s).1).0
      ≡ (if leb (seconds t + s.ttl_seconds) (seconds t') then none else some x)
unfolding validate create
validate-create token x t t' s = ground (
  arith,
  lookup-insert token token (record { session = x; expires_at = seconds t + s.ttl_seconds })
      s.store,
  eq_refl token,
)

-- A revoked token is good for nothing, and the others stay as they were.
pub lookup-revoke :
    (j k : String) (s : RefreshTokenStore)
    → lookup k (revoke j s).store ≡ (if j == k then none else lookup k s.store)
unfolding revoke
lookup-revoke j k s = lookup-erase j k s.store

-- A rotation refuses exactly the tokens that `validate` refuses at that time.
pub rotate-refuses :
    (old new : String) (t t' : ℕ) (s : RefreshTokenStore)
    → (rotate old new t t' s).0 ≡ elim (validate old t s).0 [ none ↦ none | some _ ↦ some new ]
unfolding rotate validate create
rotate-refuses old new t t' s = ground arith

-- Rotation to a token other than the old one: the old token is gone, the new one stands for the
-- same session for a full lifetime, and no third token is touched.
pub lookup-rotate :
    (old new k : String) (t t' : ℕ) (s : RefreshTokenStore) (x : RefreshSession)
    → (old == new) ≡ false
    → (validate old t s).0 ≡ some x
    → lookup k (rotate old new t t' s).1.store ≡ (
        if new == k
        then some (record { session = x; expires_at = seconds t' + s.ttl_seconds })
        else if old == k
        then none
        else lookup k s.store)
unfolding rotate validate create
lookup-rotate old new k t t' s x ne valid = elim (Option-cases (lookup old s.store)) [
  | inl missing ↦ ground arith
  | inr (entry, found) ↦ ground (
    arith,
    lookup-insert new k
        (record { session = entry.session; expires_at = seconds t' + s.ttl_seconds })
        (erase old s.store),
    lookup-erase old k s.store,
  )
]
