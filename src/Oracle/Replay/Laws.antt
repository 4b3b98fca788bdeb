-- ===== src/Oracle/Replay/Laws.antt =====
-- Theorems on the context that `buildContextFromSnapshot` builds.
use irsforge.Base.{
  ◌≡◌, refl, ap, ◌∙◌, inl, inr, Option, none, some, String, List, [], ◌∷◌, Bool, true, find, any,
  ◌==◌, ◌||◌, All, arith, Option-cases, Bool-cases,
}
use mathlib.Core.List.{Memᴰ}
use irsforge.Base.Dict.{Dict, lookup, insert, contains, lookup-insert}
use irsforge.Oracle.Replay.{ReplayError, Replayed, done, failed, ◌>>=◌, Row, by_id}
use irsforge.Oracle.Replay.Context.{payloads}

module _ {ℓ κ} {A : Type ℓ} {B : Type κ} where
  pub bind-done :
      (a : Replayed A) (f : A → Replayed B) (b : B)
      → (a >>= f) ≡ done b
      → (x : A) × (a ≡ done x) × (f x ≡ done b)
  bind-done (done x) f b h = (x, refl, h)
  bind-done (failed e) f b h = absurd (ground arith)

  -- A chain gives a value when its first step does and the rest does on it.
  pub done-bind :
      (a : Replayed A) (f : A → Replayed B) (x : A)
      → a ≡ done x
      → (b : B) × (f x ≡ done b)
      → (b : B) × ((a >>= f) ≡ done b)
  done-bind a f x e (b, h) = (b, rw e h)

  -- The same of a case on an option.
  pub done-some :
      (o : Option A) (absent : Replayed B) (f : A → Replayed B) (x : A)
      → o ≡ some x
      → (b : B) × (f x ≡ done b)
      → (b : B) × (elim o [ none ↦ absent | some a ↦ f a ] ≡ done b)
  done-some o absent f x e (b, h) = (b, rw e h)

pub done_injective {ℓ} : {A : Type ℓ} (a b : A) → done a ≡ done b → a ≡ b
done_injective a b h = ap (λ r. elim r [ done x ↦ x | failed e ↦ a ]) h

module _ {P : Type 0} where
  -- A contract with this id is on the ledger.
  abbrev pub OnLedger : List (Row P) → String → Type 0
  OnLedger rows cid = any (λ r. r.contract_id == cid) rows ≡ true

  contains-by_id :
      (cid : String) (rows : List (Row P)) (m : Dict P)
      → contains cid (by_id rows m) ≡ (any (λ r. r.contract_id == cid) rows || contains cid m)
  unfolding by_id
  contains-by_id cid [] m = refl
  contains-by_id cid (r ∷ rs) m =
      contains-by_id cid rs (insert r.contract_id r.payload m)
      ∙ ground (arith, lookup-insert r.contract_id cid r.payload m)

  pub payloads-done :
      (missing : String → ReplayError) (rows : List (Row P)) (cids : List String)
      → All (OnLedger rows) cids
      → (ps : List P) × (payloads missing (by_id rows []) cids ≡ done ps)
  unfolding payloads
  payloads-done missing rows [] h = ([], refl)
  payloads-done missing rows (cid ∷ cids) (here, h) =
      let (ps, e) = payloads-done missing rows cids h in
      let there = contains-by_id cid rows [] in
      elim (Option-cases (lookup cid (by_id rows []))) [
        | inl gone ↦ absurd (ground arith)
        | inr (p, found) ↦ (p ∷ ps, rw (found, payloads) (rw e refl))
      ]

  pub payloads-OnLedger :
      (missing : String → ReplayError) (rows : List (Row P)) (cids : List String) (ps : List P)
      → payloads missing (by_id rows []) cids ≡ done ps
      → All (OnLedger rows) cids
  unfolding payloads
  payloads-OnLedger missing rows [] ps h = tt
  payloads-OnLedger missing rows (cid ∷ cids) ps h =
      elim (Option-cases (lookup cid (by_id rows []))) [
        | inl gone ↦ absurd (ground arith)
        | inr (p, found) ↦
            let there = contains-by_id cid rows [] in
            let h1 : (payloads missing (by_id rows []) cids >>= λ qs. done (p ∷ qs)) ≡ done ps =
              rw (found, payloads) at h in
            let (qs, e, last) = bind-done (payloads missing (by_id rows []) cids) _ ps h1 in
            (ground arith, payloads-OnLedger missing rows cids qs e)
      ]

  -- One of the contracts `cids` passes the test.
  abbrev pub OneOf : (P → Bool) → List (Row P) → List String → Type 0
  OneOf test rows cids =
      (cid : String) × (p : P) × Memᴰ cid cids
      × (lookup cid (by_id rows []) ≡ some p)
      × (test p ≡ true)

  pub payloads-OneOf :
      (missing : String → ReplayError) (test : P → Bool) (rows : List (Row P)) (cids : List String)
      (ps : List P) (p : P)
      → payloads missing (by_id rows []) cids ≡ done ps
      → Memᴰ p ps
      → test p ≡ true
      → OneOf test rows cids
  unfolding payloads
  payloads-OneOf missing test rows [] ps p h m t =
      let e : [] ≡ ps = done_injective _ _ h in elim (rw (← e) at m) [ ]
  payloads-OneOf missing test rows (cid ∷ cids) ps p h m t =
      elim (Option-cases (lookup cid (by_id rows []))) [
        | inl gone ↦ absurd (ground arith)
        | inr (q, found) ↦
            let h1 : (payloads missing (by_id rows []) cids >>= λ qs. done (q ∷ qs)) ≡ done ps =
              rw (found, payloads) at h in
            let (qs, e, last) = bind-done (payloads missing (by_id rows []) cids) _ ps h1 in
            let shape : q ∷ qs ≡ ps = done_injective _ _ last in
            let m1 : Memᴰ p (q ∷ qs) = rw (← shape) at m in
            elim m1 [
              | Memᴰ.head same ↦ (cid, q, Memᴰ.head refl, found, rw same at t)
              | Memᴰ.tail deeper ↦
                  let (c, r, at, there, passes) =
                    payloads-OneOf missing test rows cids qs p e deeper t in
                  (c, r, Memᴰ.tail at, there, passes)
            ]
      ]

  pub payloads-mem :
      (missing : String → ReplayError) (rows : List (Row P)) (cids : List String) (ps : List P)
      (cid : String) (p : P)
      → payloads missing (by_id rows []) cids ≡ done ps
      → Memᴰ cid cids
      → lookup cid (by_id rows []) ≡ some p
      → Memᴰ p ps
  unfolding payloads
  payloads-mem missing rows [] ps cid p h m at = elim m [ ]
  payloads-mem missing rows (c ∷ cids) ps cid p h m at =
      elim (Option-cases (lookup c (by_id rows []))) [
        | inl gone ↦ absurd (ground arith)
        | inr (q, found) ↦
            let h1 : (payloads missing (by_id rows []) cids >>= λ qs. done (q ∷ qs)) ≡ done ps =
              rw (found, payloads) at h in
            let (qs, e, last) = bind-done (payloads missing (by_id rows []) cids) _ ps h1 in
            let shape : q ∷ qs ≡ ps = done_injective _ _ last in
            elim m [
              | Memᴰ.head same ↦ rw (← shape) (Memᴰ.head (ground (arith, rw same at at)))
              | Memᴰ.tail deeper ↦
                  rw (← shape) (Memᴰ.tail (payloads-mem missing rows cids qs cid p e deeper at))
            ]
      ]

pub find-some {ℓ} :
    {A : Type ℓ} (p : A → Bool) (xs : List A) (a : A)
    → Memᴰ a xs
    → p a ≡ true
    → (x : A) × (find p xs ≡ some x)
find-some p [] a m h = elim m [ ]
find-some p (x ∷ xs) a m h = elim (Bool-cases (p x)) [
  | inl here ↦ (x, rw here refl)
  | inr there ↦ elim m [
    | Memᴰ.head same ↦ absurd (ground (arith, rw same at h))
    | Memᴰ.tail deeper ↦ let (y, e) = find-some p xs a deeper h in (y, rw there e)
  ]
]
