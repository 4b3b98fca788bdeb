-- ===== src/Base/Members.antt =====
-- Membership in a list, as a family that can be matched, and what the searches of a list say of it.
use irsforge.Base.{
  ◌≡◌, refl, some, String, List, [], ◌∷◌, ◌++◌, Bool, true, false, ◌==◌, eq_iff, eq_refl, find, any,
  filter, map, includes, All, arith, Bool-cases, inl, inr,
}
use mathlib.Core.List.{Memᴰ}
use mathlib.Core.Path.{subst}

-- What an element that is found, or a test that some element passes, says.
pub find-mem {ℓ} :
    {A : Type ℓ} (p : A → Bool) (xs : List A) (a : A)
    → find p xs ≡ some a
    → Memᴰ a xs × (p a ≡ true)
find-mem p [] a e = cc
find-mem p (x ∷ xs) a e = elim (Bool-cases (p x)) [
  | inl here ↦ (Memᴰ.head (ground arith), ground arith)
  | inr there ↦ let (m, h) = find-mem p xs a (ground arith) in (Memᴰ.tail m, h)
]

pub any-mem {ℓ} :
    {A : Type ℓ} (p : A → Bool) (xs : List A) → any p xs ≡ true → (a : A) × Memᴰ a xs × (p a ≡ true)
any-mem p [] e = cc
any-mem p (x ∷ xs) e = elim (Bool-cases (p x)) [
  | inl here ↦ (x, Memᴰ.head refl, here)
  | inr there ↦ let (a, m, h) = any-mem p xs (ground arith) in (a, Memᴰ.tail m, h)
]

pub includes-mem : (g : String) (xs : List String) → includes g xs ≡ true → Memᴰ g xs
includes-mem g xs h =
    let (x, m, e) = any-mem (λ x. x == g) xs h in subst (λ y. Memᴰ y xs) ((eq_iff x g).0 e) m

All-listed-in :
    {A : Type 0} (xs ys : List A) → ((x : A) → Memᴰ x xs → Memᴰ x ys) → All (λ x. Memᴰ x ys) xs
All-listed-in [] ys f = tt
All-listed-in (x ∷ xs) ys f = (f x (Memᴰ.head refl), All-listed-in xs ys (λ y m. f y (Memᴰ.tail m)))

-- Every element of a list is one of its elements.
pub All-listed : {A : Type 0} (xs : List A) → All (λ x. Memᴰ x xs) xs
All-listed xs = All-listed-in xs xs (λ x m. m)

pub mem-snoc : {A : Type 0} {x : A} (y : A) (xs : List A) → Memᴰ x xs → Memᴰ x (xs ++ y ∷ [])
mem-snoc y [] m = elim m [ ]
mem-snoc y (z ∷ zs) (Memᴰ.head same) = Memᴰ.head same
mem-snoc y (z ∷ zs) (Memᴰ.tail m) = Memᴰ.tail (mem-snoc y zs m)

pub mem-snoc_last : {A : Type 0} (xs : List A) (x : A) → Memᴰ x (xs ++ x ∷ [])
mem-snoc_last [] x = Memᴰ.head refl
mem-snoc_last (z ∷ zs) x = Memᴰ.tail (mem-snoc_last zs x)

pub any-false :
    {A : Type 0} (p : A → Bool) (xs : List A) → any p xs ≡ false → (x : A) → Memᴰ x xs → p x ≡ false
any-false p [] h x m = elim m [ ]
any-false p (y ∷ ys) h x (Memᴰ.head same) = rw same (ground arith)
any-false p (y ∷ ys) h x (Memᴰ.tail m) = any-false p ys (ground arith) x m

-- What a filter keeps has the property of the list, and passes the test.
pub filter-All :
    {A : Type 0} (P : A → Type 0) (p : A → Bool) (xs : List A)
    → All P xs
    → All (λ x. P x × (p x ≡ true)) (filter p xs)
filter-All P p [] h = tt
filter-All P p (x ∷ xs) (px, h) = elim (Bool-cases (p x)) [
  | inl kept ↦ rw kept ((px, kept), filter-All P p xs h)
  | inr dropped ↦ rw dropped (filter-All P p xs h)
]

pub All-map_list :
    {A B : Type 0} (P : A → Type 0) (Q : B → Type 0) (f : A → B)
    → ((x : A) → P x → Q (f x))
    → (xs : List A) → All P xs
    → All Q (map f xs)
All-map_list P Q f g [] h = tt
All-map_list P Q f g (x ∷ xs) (p, h) = (g x p, All-map_list P Q f g xs h)

pub mem-left : {A : Type 0} {x : A} {xs : List A} (ys : List A) → Memᴰ x xs → Memᴰ x (xs ++ ys)
mem-left ys (Memᴰ.head same) = Memᴰ.head same
mem-left ys (Memᴰ.tail m) = Memᴰ.tail (mem-left ys m)

pub mem-right : {A : Type 0} {x : A} (xs : List A) {ys : List A} → Memᴰ x ys → Memᴰ x (xs ++ ys)
mem-right [] m = m
mem-right (z ∷ zs) m = Memᴰ.tail (mem-right zs m)

-- A text that is listed is included.
pub mem-includes : (g : String) (xs : List String) → Memᴰ g xs → includes g xs ≡ true
mem-includes g xs m = elim (Bool-cases (includes g xs)) [
  | inl found ↦ found
  | inr missed ↦
      let other = any-false (λ x. x == g) xs missed g m in absurd (ground (arith, other, eq_refl g))
]

pub includes-false : (g : String) (xs : List String) → ¬ (Memᴰ g xs) → includes g xs ≡ false
includes-false g xs h = elim (Bool-cases (includes g xs)) [
  | inl found ↦ absurd (h (includes-mem g xs found))
  | inr missed ↦ missed
]
