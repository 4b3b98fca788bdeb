-- ===== src/Auth/RefreshStore/Origin.antt =====
-- No operation of the refresh token store makes a session up: each session that it holds was
-- given to `create`.
use irsforge.Base.{ℕ, ◌≡◌, some, String, ◌==◌, leb, arith, Option-cases, Bool-cases, inl, inr}
use mathlib.Core.Path.{subst}
use irsforge.Base.Dict.{Dict, lookup, insert, erase, lookup-insert, lookup-erase}
use irsforge.Auth.RefreshStore.{
  RefreshSession, TokenEntry, RefreshTokenStore, seconds, create, validate, rotate, revoke,
}

module _ (P : RefreshSession → Type 0) where
  -- Every session of a dictionary of tokens has `P`.
  abbrev pub AllSessions : Dict TokenEntry → Type 0
  AllSessions m = (k : String) (e : TokenEntry) → lookup k m ≡ some e → P e.session

  pub erase-AllSessions :
      (j : String) (m : Dict TokenEntry) → AllSessions m → AllSessions (erase j m)
  erase-AllSessions j m h k e at = h k e (ground (arith, lookup-erase j k m))

  pub insert-AllSessions :
      (j : String) (x : TokenEntry) (m : Dict TokenEntry)
      → P x.session
      → AllSessions m
      → AllSessions (insert j x m)
  insert-AllSessions j x m px h k e at = elim (Bool-cases (j == k)) [
    | inl same ↦
        let q : x ≡ e = ground (arith, lookup-insert j k x m) in subst (λ y. P y.session) q px
    | inr other ↦ h k e (ground (arith, lookup-insert j k x m))
  ]

  pub create-AllSessions :
      (token : String) (now : ℕ) (x : RefreshSession) (s : RefreshTokenStore)
      → P x
      → AllSessions s.store
      → AllSessions (create token now x s).1.store
  unfolding create
  create-AllSessions token now x s px h = insert-AllSessions token _ s.store px h

  pub validate-AllSessions :
      (token : String) (now : ℕ) (s : RefreshTokenStore)
      → AllSessions s.store
      → AllSessions (validate token now s).1.store
  unfolding validate
  validate-AllSessions token now s h k e at = h k e (ground (arith, lookup-erase token k s.store))

  -- What `validate` gives has the property too.
  pub validate-has :
      (token : String) (now : ℕ) (s : RefreshTokenStore) (x : RefreshSession)
      → AllSessions s.store
      → (validate token now s).0 ≡ some x
      → P x
  unfolding validate
  validate-has token now s x h e = elim (Option-cases (lookup token s.store)) [
    | inl missing ↦ absurd (ground arith)
    | inr (y, at) ↦ let q : y.session ≡ x = ground arith in subst P q (h token y at)
  ]

  pub rotate-AllSessions :
      (old new : String) (now now' : ℕ) (s : RefreshTokenStore)
      → AllSessions s.store
      → AllSessions (rotate old new now now' s).1.store
  unfolding rotate
  rotate-AllSessions old new now now' s h = elim (Option-cases (lookup old s.store)) [
    | inl missing ↦ rw (missing, rotate) h
    | inr (y, at) ↦ elim (Bool-cases (leb y.expires_at (seconds now))) [
      | inl late ↦ rw (at, late, rotate) (erase-AllSessions old s.store h)
      | inr live ↦
          rw (at, live, rotate)
            (insert-AllSessions new _ (erase old s.store) (h old y at)
              (erase-AllSessions old s.store h))
    ]
  ]

  pub revoke-AllSessions :
      (token : String) (s : RefreshTokenStore)
      → AllSessions s.store
      → AllSessions (revoke token s).store
  unfolding revoke
  revoke-AllSessions token s h = erase-AllSessions token s.store h
