-- ===== src/Auth/RefreshStore/Refines.antt =====
-- Theorems on runs of the refresh token store against their specification.
use irsforge.Base.{
  ℕ, ◌≤◌, ◌≡◌, refl, ap, sym, ◌∙◌, ◌⊎◌, inl, inr, Option, none, some, List, [], ◌∷◌, leb, leb-le,
  Bool-cases, Option-cases, arith, true, false,
}
use irsforge.Base.Dict.{Dict, lookup, erase}
use irsforge.Auth.RefreshStore.{
  TokenEntry, RefreshTokenStore, new_token_store, seconds, create, validate, rotate, revoke,
}
use irsforge.Auth.RefreshStore.Runs.{
  Call, creates, validates, rotates, revokes, made, session, rotated, revoked, call, run, Entries,
  live, entry_from, specified, specified_run, InOrder, Agree, Agrees, Agrees-later, insert-Agrees,
  erase-Agrees, expire-Agrees,
}

abbrev with_store : ℕ → Dict TokenEntry → RefreshTokenStore
with_store ttl m = record { ttl_seconds = ttl; store = m }

-- A token at the time `now`: good on both sides, late on both, or gone from the store and not
-- live in the specification.
Agree-cases :
    (t now : ℕ) (a b : Option TokenEntry)
    → t ≤ now
    → Agree t a b
    → ((e : TokenEntry) × (a ≡ some e) × (b ≡ some e) × (leb e.expires_at (seconds now) ≡ false))
      ⊎ ((e : TokenEntry) × (a ≡ some e) × (b ≡ some e) × (leb e.expires_at (seconds now) ≡ true))
      ⊎ ((a ≡ none) × (live now b ≡ none))
Agree-cases t now a b h (inl same) = elim (Option-cases a) [
  | inl gone ↦ let e : b ≡ none = sym same ∙ gone in inr (inr (gone, rw e refl))
  | inr (e, held) ↦ elim (Bool-cases (leb e.expires_at (seconds now))) [
    | inl late ↦ inr (inl (e, held, sym same ∙ held, late))
    | inr good ↦ inl (e, held, sym same ∙ held, good)
  ]
]
Agree-cases t now a b h (inr (gone, (e, at, late))) =
    let l : leb e.expires_at (seconds now) ≡ true = ground arith in
    inr (inr (gone, rw (at, l) refl))

pub run_refines :
    (cs : List Call) (t ttl : ℕ) (m : Dict TokenEntry) (f : Entries)
    → InOrder t cs
    → Agrees t m f
    → run cs (with_store ttl m) ≡ specified_run ttl cs f
unfolding run call specified_run specified create validate rotate revoke lookup
run_refines [] t ttl m f order agrees = refl
run_refines (creates token now x ∷ cs) t ttl m f (h, order) agrees =
    ap (λ l. made token ∷ l)
      (run_refines cs now ttl _ _ order
        (insert-Agrees now token (entry_from ttl now x) m f (Agrees-later t now m f h agrees)))
run_refines (revokes token ∷ cs) t ttl m f order agrees =
    ap (λ l. revoked ∷ l) (run_refines cs t ttl _ _ order (erase-Agrees t token m f agrees))
run_refines (validates token now ∷ cs) t ttl m f (h, order) agrees =
    let later = Agrees-later t now m f h agrees in
    elim (Agree-cases t now (lookup token m) (f token) h (agrees token)) [
      | inl (e, held, at, good) ↦
          rw (held, at, good)
            (ap (λ l. session (some e.session) ∷ l) (run_refines cs now ttl m f order later))
      | inr (inl (e, held, at, late)) ↦
          rw (held, at, late)
            (ap (λ l. session none ∷ l)
              (run_refines cs now ttl (erase token m) f order
                (expire-Agrees now token e m f at (leb-le e.expires_at (seconds now) late) later)))
      | inr (inr (gone, dead)) ↦
          rw (gone, dead) (ap (λ l. session none ∷ l) (run_refines cs now ttl m f order later))
    ]
run_refines (rotates old token now now' ∷ cs) t ttl m f (h, k, order) agrees =
    let later = Agrees-later t now' m f (omega (arith, h, k)) agrees in
    elim (Agree-cases t now (lookup old m) (f old) h (agrees old)) [
      | inl (e, held, at, good) ↦
          rw (held, at, good)
            (ap (λ l. rotated (some token) ∷ l)
              (run_refines cs now' ttl _ _ order (
                insert-Agrees now' token (entry_from ttl now' e.session) (erase old m) _
                  (erase-Agrees now' old m f later))))
      | inr (inl (e, held, at, late)) ↦
          rw (held, at, late)
            (ap (λ l. rotated none ∷ l)
              (run_refines cs now' ttl (erase old m) f order (
                expire-Agrees now' old e m f at
                  (omega (arith, leb-le e.expires_at (seconds now) late, k)) later)))
      | inr (inr (gone, dead)) ↦
          rw (gone, dead) (ap (λ l. rotated none ∷ l) (run_refines cs now' ttl m f order later))
    ]

-- From the empty store, as long as the clock does not go back, every sequence of calls answers as
-- on a function from tokens to entries that never forgets an expired token: dropping expired tokens
-- when they are met, and only then, cannot be observed.
pub run-new_token_store_refines :
    (cs : List Call) (ttl : ℕ)
    → InOrder 0 cs
    → run cs (new_token_store ttl) ≡ specified_run ttl cs (λ token. none)
unfolding new_token_store lookup
run-new_token_store_refines cs ttl order =
    run_refines cs 0 ttl [] (λ token. none) order (λ k. inl refl)
