-- ===== src/Base/Dict.antt =====
-- A JavaScript `Map` keyed by texts, as an association list in insertion order. `insert` keeps
-- the place of a key that is there (`Map.set`); `erase` removes the key (`Map.delete`).
use irsforge.Base.{
  ◌≡◌, refl, Option, none, some, List, [], ◌∷◌, String, ◌==◌, eq_iff, eq_refl, Bool, true, false,
  arith, if◌then◌else◌,
}

abbrev pub Dict {ℓ} : Type ℓ → Type ℓ
Dict V = List (String × V)

module _ {ℓ} {V : Type ℓ} where
  -- `Map.get`
  unfoldable pub lookup : String → Dict V → Option V
  lookup key [] = none
  lookup key ((first, value) ∷ rest) = if first == key then some value else lookup key rest

  unfoldable pub insert : String → V → Dict V → Dict V
  insert key value [] = (key, value) ∷ []
  insert key value ((first, old) ∷ rest) =
      if first == key then (first, value) ∷ rest else (first, old) ∷ insert key value rest

  unfoldable pub erase : String → Dict V → Dict V
  erase key [] = []
  erase key ((first, old) ∷ rest) =
      let others = erase key rest in if first == key then others else (first, old) ∷ others

  -- `Map.has`
  abbrev pub contains : String → Dict V → Bool
  contains key m = elim (lookup key m) [ none ↦ false | some _ ↦ true ]

  -- What is found under one key after another, or the same, was set.
  pub lookup-insert :
      (set asked : String) (value : V) (m : Dict V)
      → lookup asked (insert set value m) ≡ (if set == asked then some value else lookup asked m)
  unfolding lookup insert
  lookup-insert set asked value [] = refl
  lookup-insert set asked value ((first, old) ∷ rest) =
      let tail_law = lookup-insert set asked value rest in
      ground (arith, tail_law, eq_iff set asked, eq_iff first set, eq_iff first asked)

  pub lookup-erase :
      (gone asked : String) (m : Dict V)
      → lookup asked (erase gone m) ≡ (if gone == asked then none else lookup asked m)
  unfolding lookup erase
  lookup-erase gone asked [] = ground arith
  lookup-erase gone asked ((first, old) ∷ rest) =
      let tail_law = lookup-erase gone asked rest in
      ground (arith, tail_law, eq_iff gone asked, eq_iff first gone, eq_iff first asked)

  pub lookup-insert_self : (k : String) (v : V) (m : Dict V) → lookup k (insert k v m) ≡ some v
  lookup-insert_self k v m = simp (lookup-insert, eq_refl)

  pub lookup-erase_self : (k : String) (m : Dict V) → lookup k (erase k m) ≡ none
  lookup-erase_self k m = simp (lookup-erase, eq_refl)

  pub lookup-insert_ne :
      (k j : String) (v : V) (m : Dict V) → (k == j) ≡ false → lookup j (insert k v m) ≡ lookup j m
  lookup-insert_ne k j v m h = simp (lookup-insert, h)

  pub lookup-erase_ne :
      (k j : String) (m : Dict V) → (k == j) ≡ false → lookup j (erase k m) ≡ lookup j m
  lookup-erase_ne k j m h = simp (lookup-erase, h)
