-- ===== src/Base/Int.antt =====
-- Signed integers over the native numbers, under the library's names (its ℤ stands on the unary ℕ).
-- Sums and orders go through the two parts of an integer, which are numbers that `omega` reads.
use irsforge.Base.{
  ℕ, zero, suc, ◌+◌, ◌-◌, ◌*◌, ◌/◌, ◌≤◌, ◌<◌, ◌≡◌, refl, ap, ◌∙◌, ◌⊎◌, inl, inr, Bool, true, false,
  arith, ltb, leb, if◌then◌else◌,
}
use native.Mathlib.Nat.{div-add-mod, mod-lt}

-- `negsuc n` is -(n + 1).
pub data ℤ : Type 0 where
  pos : ℕ → ℤ
  negsuc : ℕ → ℤ

abbrev pub pos_part : ℤ → ℕ
pos_part (pos n) = n
pos_part (negsuc n) = 0

abbrev pub neg_part : ℤ → ℕ
neg_part (pos n) = 0
neg_part (negsuc n) = suc n

-- a - b, as an integer.
abbrev pub sub_ℕ : ℕ → ℕ → ℤ
sub_ℕ a b = if leb b a then pos (a - b) else negsuc (b - a - 1)

infixl 65 ◌+ℤ◌ ◌-ℤ◌
infixl 70 ◌*ℤ◌
infix 50 ◌≤ℤ◌
unfoldable pub ◌+ℤ◌ : ℤ → ℤ → ℤ
a +ℤ b = sub_ℕ (pos_part a + pos_part b) (neg_part a + neg_part b)

unfoldable pub ◌-ℤ◌ : ℤ → ℤ → ℤ
a -ℤ b = sub_ℕ (pos_part a + neg_part b) (neg_part a + pos_part b)

unfoldable pub ◌*ℤ◌ : ℤ → ℤ → ℤ
a *ℤ b =
    sub_ℕ (pos_part a * pos_part b + neg_part a * neg_part b)
      (pos_part a * neg_part b + neg_part a * pos_part b)

abbrev pub ◌≤ℤ◌ : ℤ → ℤ → Type 0
a ≤ℤ b = pos_part a + neg_part b ≤ pos_part b + neg_part a

abbrev pub ltb_ℤ : ℤ → ℤ → Bool
ltb_ℤ a b = ltb (pos_part a + neg_part b) (pos_part b + neg_part a)

-- One lemma for each operation lets `omega` work with the operations shut, at any depth.
pub +ℤ_parts :
    (a b : ℤ)
    → pos_part (a +ℤ b) + neg_part a + neg_part b ≡ neg_part (a +ℤ b) + pos_part a + pos_part b
unfolding ◌+ℤ◌
+ℤ_parts a b = ground arith

pub -ℤ_parts :
    (a b : ℤ)
    → pos_part (a -ℤ b) + neg_part a + pos_part b ≡ neg_part (a -ℤ b) + pos_part a + neg_part b
unfolding ◌-ℤ◌
-ℤ_parts a b = ground arith

pub eq_of_parts : (a b : ℤ) → pos_part a + neg_part b ≡ pos_part b + neg_part a → a ≡ b
eq_of_parts a b h = ground arith

pub ruleset int_laws = (arith, +ℤ_parts, -ℤ_parts, eq_of_parts)

pub +ℤ_comm : (a b : ℤ) → a +ℤ b ≡ b +ℤ a
+ℤ_comm a b = omega int_laws

pub +ℤ_assoc : (a b c : ℤ) → a +ℤ b +ℤ c ≡ a +ℤ (b +ℤ c)
+ℤ_assoc a b c = omega int_laws

abbrev pub leb_ℤ : ℤ → ℤ → Bool
leb_ℤ a b = leb (pos_part a + neg_part b) (pos_part b + neg_part a)

abbrev pub is_zero : ℤ → Bool
is_zero (pos zero) = true
is_zero _ = false

-- `-a`
unfoldable pub neg : ℤ → ℤ
unfolding ◌-ℤ◌
neg a = pos 0 -ℤ a

pub neg_parts : (a : ℤ) → pos_part (neg a) + pos_part a ≡ neg_part (neg a) + neg_part a
unfolding neg
neg_parts a = ground arith

-- `Math.abs`
unfoldable pub abs : ℤ → ℕ
abs (pos n) = n
abs (negsuc n) = suc n

-- `Math.max(0, a)`
unfoldable pub max_zero : ℤ → ℤ
max_zero a = pos (pos_part a)

-- `Math.floor(a / d)`
unfoldable pub floor_div : ℤ → ℕ → ℤ
floor_div (pos n) d = pos (n / d)
floor_div (negsuc n) d = negsuc (n / d)

-- `Math.round(a / d)`: the nearest multiple, and halfway the upper one.
unfoldable pub round_div : ℤ → ℕ → ℤ
unfolding floor_div
round_div a d = floor_div (pos 2 *ℤ a +ℤ pos d) (2 * d)

pub max_zero_parts : (a : ℤ) → (pos_part (max_zero a) ≡ pos_part a) × (neg_part (max_zero a) ≡ 0)
unfolding max_zero
max_zero_parts a = (refl, refl)

pub one_part : (a : ℤ) → (pos_part a ≡ 0) ⊎ (neg_part a ≡ 0)
one_part (pos n) = inr refl
one_part (negsuc n) = inl refl

-- A product with a number, part by part.
pub *ℤ_parts :
    (a : ℤ) (d : ℕ)
    → (pos_part (a *ℤ pos d) ≡ pos_part a * d) × (neg_part (a *ℤ pos d) ≡ neg_part a * d)
unfolding ◌*ℤ◌
*ℤ_parts (pos n) d = ground arith
*ℤ_parts (negsuc n) d = ground arith

-- Twice an integer, part by part.
pub double_parts :
    (a : ℤ) → (pos_part (pos 2 *ℤ a) ≡ 2 * pos_part a) × (neg_part (pos 2 *ℤ a) ≡ 2 * neg_part a)
unfolding ◌*ℤ◌
double_parts (pos n) = ground arith
double_parts (negsuc n) = ground arith

pub abs_parts : (a : ℤ) → abs a ≡ pos_part a + neg_part a
unfolding abs
abs_parts (pos n) = omega arith
abs_parts (negsuc n) = omega arith

pub ruleset sign_laws = (int_laws, neg_parts, max_zero_parts, one_part, abs_parts)

pub floor_div_bounds :
    (a : ℤ) (d : ℕ)
    → 0 < d
    → (floor_div a d *ℤ pos d ≤ℤ a) × (a +ℤ pos 1 ≤ℤ floor_div a d *ℤ pos d +ℤ pos d)
unfolding floor_div
floor_div_bounds (pos n) d h =
    omega (int_laws, *ℤ_parts (pos (n / d)) d, div-add-mod n d, mod-lt n h)
floor_div_bounds (negsuc n) d h =
    omega (int_laws, *ℤ_parts (negsuc (n / d)) d, div-add-mod n d, mod-lt n h)

-- `round_div` is the nearest: twice the distance is at most the divisor, and less from above.
pub round_div_bounds :
    (a : ℤ) (d : ℕ)
    → 0 < d
    → (pos 2 *ℤ (round_div a d *ℤ pos d) ≤ℤ pos 2 *ℤ a +ℤ pos d)
      × (pos 2 *ℤ a +ℤ pos 1 ≤ℤ pos 2 *ℤ (round_div a d *ℤ pos d) +ℤ pos d)
unfolding round_div
round_div_bounds a d h =
    let q = floor_div (pos 2 *ℤ a +ℤ pos d) (2 * d) in
    omega (
      int_laws,
      floor_div_bounds (pos 2 *ℤ a +ℤ pos d) (2 * d) (omega arith),
      *ℤ_parts q (2 * d),
      *ℤ_parts q d,
      double_parts (q *ℤ pos d),
      double_parts a,
    )

pub ≤ℤ_total : (a b : ℤ) → (a ≤ℤ b) ⊎ (b ≤ℤ a)
≤ℤ_total a b = omega arith

mul_gap : (x y d : ℕ) → x < y → x * d + d ≤ y * d
mul_gap x y d lt = grind arith

trichotomy : (x y : ℕ) → (x ≡ y) ⊎ ((x < y) ⊎ (y < x))
trichotomy x y = omega arith

-- The floor is the only integer with its bounds.
pub floor_div_unique :
    (a q : ℤ) (d : ℕ)
    → 0 < d
    → q *ℤ pos d ≤ℤ a
    → a +ℤ pos 1 ≤ℤ q *ℤ pos d +ℤ pos d
    → floor_div a d ≡ q
floor_div_unique a q d h low high =
    let f = floor_div a d in
    let (flow, fhigh) = floor_div_bounds a d h in
    elim (trichotomy (pos_part f + neg_part q) (pos_part q + neg_part f)) [
      | inl same ↦ eq_of_parts f q same
      | inr (inl less) ↦ absurd (
          omega (
            int_laws,
            *ℤ_parts f d,
            *ℤ_parts q d,
            mul_gap (pos_part f + neg_part q) (pos_part q + neg_part f) d less,
          ))
      | inr (inr more) ↦ absurd (
          omega (
            int_laws,
            *ℤ_parts f d,
            *ℤ_parts q d,
            mul_gap (pos_part q + neg_part f) (pos_part f + neg_part q) d more,
          ))
    ]

pub neg-pos_parts : (n : ℕ) → (pos_part (neg (pos n)) ≡ 0) × (neg_part (neg (pos n)) ≡ n)
neg-pos_parts n = omega (int_laws, neg_parts (pos n), one_part (neg (pos n)))

pub neg-pos_times :
    (n d : ℕ) → (pos_part (neg (pos n) *ℤ pos d) ≡ 0) × (neg_part (neg (pos n) *ℤ pos d) ≡ n * d)
neg-pos_times n d =
    let (p, m) = neg-pos_parts n in
    (
      (*ℤ_parts (neg (pos n)) d).0 ∙ ap (λ t. t * d) p ∙ omega arith,
      (*ℤ_parts (neg (pos n)) d).1 ∙ ap (λ t. t * d) m,
    )

pub suc_times : (q : ℤ) (d : ℕ) → (q +ℤ pos 1) *ℤ pos d ≡ q *ℤ pos d +ℤ pos d
suc_times q d =
    omega (int_laws, *ℤ_parts (q +ℤ pos 1) d, *ℤ_parts q d, ap (λ t. t * d) (+ℤ_parts q (pos 1)))
