-- ===== src/Oracle/Lifecycle/Holdings/Laws.antt =====
-- Grouping loses and mixes up nothing.
use irsforge.Base.{
  refl, ap, sym, ◌++◌, String, List, [], ◌∷◌, ◌==◌, eq_iff, All, All-snoc, Bool-cases, inl, inr,
}
use mathlib.Core.List.{Memᴰ}
use mathlib.Core.Path.{subst}
use irsforge.Base.Members.{mem-snoc, mem-snoc_last}
use irsforge.Base.Dict.{Dict}
use irsforge.Oracle.Lifecycle.Holdings.{push_to, group_by}

-- A group that `P` holds of, element by element, with the group's key.
abbrev pub Grouped : {A : Type 0} → (String → A → Type 0) → Dict (List A) → Type 0
Grouped P m = All (λ g. All (P g.0) g.1) m

module _ {A : Type 0} (P : String → A → Type 0) where
  pub push_to-Grouped :
      (k : String) (x : A) (m : Dict (List A)) → P k x → Grouped P m → Grouped P (push_to k x m)
  unfolding push_to
  push_to-Grouped k x [] p h = ((p, tt), tt)
  push_to-Grouped k x ((j, xs) ∷ m) p (q, h) = elim (Bool-cases (j == k)) [
    | inl same ↦
        rw same (All-snoc (P j) xs x q (subst (λ i. P i x) (sym ((eq_iff j k).0 same)) p), h)
    | inr other ↦ rw other (q, push_to-Grouped k x m p h)
  ]

  -- What holds of every element with its key holds in every group.
  pub group_by-Grouped :
      (key : A → String) (xs : List A) (m : Dict (List A))
      → All (λ x. P (key x) x) xs
      → Grouped P m
      → Grouped P (group_by key xs m)
  unfolding group_by
  group_by-Grouped key [] m h g = g
  group_by-Grouped key (x ∷ xs) m (p, h) g =
      group_by-Grouped key xs (push_to (key x) x m) h (push_to-Grouped (key x) x m p g)

-- An element stands in the group of a key.
abbrev pub StandsIn : {A : Type 0} → A → String → Dict (List A) → Type 0
StandsIn {A} x k m = (xs : List A) × Memᴰ (k, xs) m × Memᴰ x xs

module _ {A : Type 0} where
  deeper :
      (x : A) (k : String) (g : String × List A) (m : Dict (List A))
      → StandsIn x k m
      → StandsIn x k (g ∷ m)
  deeper x k g m (xs, at, in_it) = (xs, Memᴰ.tail at, in_it)

  pub push_to-StandsIn_new : (k : String) (x : A) (m : Dict (List A)) → StandsIn x k (push_to k x m)
  unfolding push_to
  push_to-StandsIn_new k x [] = (x ∷ [], Memᴰ.head refl, Memᴰ.head refl)
  push_to-StandsIn_new k x ((j, xs) ∷ m) = elim (Bool-cases (j == k)) [
    | inl same ↦ rw same (
      xs ++ x ∷ [],
      Memᴰ.head (ap (λ i. (i, xs ++ x ∷ [])) (sym ((eq_iff j k).0 same))),
      mem-snoc_last xs x,
    )
    | inr other ↦ rw other (deeper x k (j, xs) (push_to k x m) (push_to-StandsIn_new k x m))
  ]

  pub push_to-StandsIn :
      (j : String) (y : A) (x : A) (k : String) (m : Dict (List A))
      → StandsIn x k m
      → StandsIn x k (push_to j y m)
  unfolding push_to
  push_to-StandsIn j y x k [] (zs, at, in_it) = elim at [ ]
  push_to-StandsIn j y x k ((i, xs) ∷ m) (zs, Memᴰ.head same, in_it) = elim (Bool-cases (i == j)) [
    | inl here ↦ rw here (
      xs ++ y ∷ [],
      Memᴰ.head (ap (λ g. (g.0, xs ++ y ∷ [])) same),
      mem-snoc y xs (subst (λ g. Memᴰ x g.1) same in_it),
    )
    | inr there ↦ rw there (zs, Memᴰ.head same, in_it)
  ]
  push_to-StandsIn j y x k ((i, xs) ∷ m) (zs, Memᴰ.tail at, in_it) = elim (Bool-cases (i == j)) [
    | inl here ↦ rw here (zs, Memᴰ.tail at, in_it)
    | inr there ↦
        rw there (deeper x k (i, xs) (push_to j y m) (push_to-StandsIn j y x k m (zs, at, in_it)))
  ]

  group_by-kept :
      (key : A → String) (ys : List A) (x : A) (k : String) (m : Dict (List A))
      → StandsIn x k m
      → StandsIn x k (group_by key ys m)
  unfolding group_by
  group_by-kept key [] x k m h = h
  group_by-kept key (y ∷ ys) x k m h =
      group_by-kept key ys x k (push_to (key y) y m) (push_to-StandsIn (key y) y x k m h)

  -- Each element stands in the group of its key.
  pub group_by-StandsIn :
      (key : A → String) (xs : List A) (x : A) (m : Dict (List A))
      → Memᴰ x xs
      → StandsIn x (key x) (group_by key xs m)
  unfolding group_by
  group_by-StandsIn key [] x m h = elim h [ ]
  group_by-StandsIn key (y ∷ ys) x m (Memᴰ.head same) =
      subst (λ z. StandsIn z (key z) (group_by key ys (push_to (key y) y m))) (sym same)
        (group_by-kept key ys y (key y) (push_to (key y) y m) (push_to-StandsIn_new (key y) y m))
  group_by-StandsIn key (y ∷ ys) x m (Memᴰ.tail h) =
      group_by-StandsIn key ys x (push_to (key y) y m) h
