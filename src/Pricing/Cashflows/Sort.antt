-- ===== src/Pricing/Cashflows/Sort.antt =====
-- The stable sort by a time, which several parts of the pricing code use.
use irsforge.Base.{ℕ, ◌≤◌, refl, List, [], ◌∷◌, All, All-map, ltb, arith, Bool-cases, inl, inr}
use mathlib.Core.List.Permᴰ
use mathlib.Core.List.{Permᴰ}
use irsforge.Pricing.Cashflows.{insert_by, sort_by}

module _ {A : Type 0} (key : A → ℕ) where
  -- Every element's key is at most those after it.
  abbrev pub IsAscending : List A → Type 0
  IsAscending [] = Unit
  IsAscending (x ∷ xs) = All (λ y. key x ≤ key y) xs × IsAscending xs

  insert_by-All :
      (P : A → Type 0) (x : A) (xs : List A) → P x → All P xs → All P (insert_by key x xs)
  insert_by-All P x [] p h = (p, tt)
  insert_by-All P x (y ∷ ys) p (q, h) = elim (Bool-cases (ltb (key y) (key x))) [
    | inl after ↦ rw after (q, insert_by-All P x ys p h)
    | inr here ↦ rw here (p, (q, h))
  ]

  insert_by-IsAscending : (x : A) (xs : List A) → IsAscending xs → IsAscending (insert_by key x xs)
  insert_by-IsAscending x [] h = (tt, tt)
  insert_by-IsAscending x (y ∷ ys) (least, h) = elim (Bool-cases (ltb (key y) (key x))) [
    | inl after ↦
        rw after (
          insert_by-All (λ z. key y ≤ key z) x ys (ground arith) least,
          insert_by-IsAscending x ys h,
        )
    | inr here ↦
        let first : key x ≤ key y = ground arith in
        rw here ((first, All-map (λ z l. omega (arith, first)) ys least), (least, h))
  ]

  pub sort_by-IsAscending : (xs : List A) → IsAscending (sort_by key xs)
  sort_by-IsAscending [] = tt
  sort_by-IsAscending (x ∷ xs) = insert_by-IsAscending x (sort_by key xs) (sort_by-IsAscending xs)

  insert_by-Perm : (x : A) (xs : List A) → Permᴰ (insert_by key x xs) (x ∷ xs)
  insert_by-Perm x [] = Permᴰ.refl (x ∷ [])
  insert_by-Perm x (y ∷ ys) = elim (Bool-cases (ltb (key y) (key x))) [
    | inl after ↦
        rw after (Permᴰ.trans (Permᴰ.cons refl (insert_by-Perm x ys)) (Permᴰ.swap refl refl))
    | inr here ↦ rw here (Permᴰ.refl (x ∷ y ∷ ys))
  ]

  pub sort_by-Perm : (xs : List A) → Permᴰ (sort_by key xs) xs
  sort_by-Perm [] = Permᴰ.nil
  sort_by-Perm (x ∷ xs) =
      Permᴰ.trans (insert_by-Perm x (sort_by key xs)) (Permᴰ.cons refl (sort_by-Perm xs))
