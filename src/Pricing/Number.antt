-- ===== src/Pricing/Number.antt =====
-- The numbers of the pricing code, which are the platform's: the operations that the code calls,
-- as an interface. No law of arithmetic comes with them, because rounding breaks most of them; a
-- theorem that needs one takes it as a hypothesis. The integers, where division
-- rounds down and the two transcendental functions do nothing, show that the laws can hold.
use irsforge.Base.{ℕ, suc, ◌≡◌, Bool, true, if◌then◌else◌}
use irsforge.Base.Int.{
  ℤ, is_zero, pos, negsuc, ◌+ℤ◌, ◌-ℤ◌, ◌*ℤ◌, floor_div, leb_ℤ, ltb_ℤ, neg as negate,
  abs as magnitude, int_laws, +ℤ_comm, +ℤ_assoc,
}

pub record Number {ℓ} (N : Type ℓ) : Type ℓ where
  pub add : N → N → N
  pub sub : N → N → N
  pub mul : N → N → N
  pub div : N → N → N
  pub neg : N → N
  pub abs : N → N
  pub eq : N → N → Bool
  pub le : N → N → Bool
  pub lt : N → N → Bool
  pub is_finite : N → Bool
  -- The quotient `n / d` of two whole numbers, or the decimal fraction of this value.
  pub ratio : ℤ → ℕ → N
  pub exp : N → N
  pub log : N → N

module _ {ℓ} {N : Type ℓ} ⦃arithmetic : Number N⦄ where
  infixl 65 ◌⊕◌ ◌⊖◌
  infixl 70 ◌⊗◌ ◌⊘◌
  abbrev pub ◌⊕◌ : N → N → N
  a ⊕ b = arithmetic.add a b

  abbrev pub ◌⊖◌ : N → N → N
  a ⊖ b = arithmetic.sub a b

  abbrev pub ◌⊗◌ : N → N → N
  a ⊗ b = arithmetic.mul a b

  abbrev pub ◌⊘◌ : N → N → N
  a ⊘ b = arithmetic.div a b

  abbrev pub negative : N → N
  negative a = arithmetic.neg a

  abbrev pub absolute : N → N
  absolute a = arithmetic.abs a

  abbrev pub is_eq : N → N → Bool
  is_eq a b = arithmetic.eq a b

  abbrev pub is_le : N → N → Bool
  is_le a b = arithmetic.le a b

  abbrev pub is_lt : N → N → Bool
  is_lt a b = arithmetic.lt a b

  abbrev pub fraction : ℕ → ℕ → N
  fraction n d = arithmetic.ratio (pos n) d

  abbrev pub whole : ℕ → N
  whole n = arithmetic.ratio (pos n) 1

  abbrev pub larger : N → N → N
  larger a b = if is_le a b then b else a

  abbrev pub smaller : N → N → N
  smaller a b = if is_le a b then a else b

-- Sums and differences without rounding.
pub record IsAdditive {ℓ} (N : Type ℓ) ⦃arithmetic : Number N⦄ : Type ℓ where
  pub add_comm : (a b : N) → a ⊕ b ≡ b ⊕ a
  pub add_assoc : (a b c : N) → a ⊕ b ⊕ c ≡ a ⊕ (b ⊕ c)
  pub add-sub : (a b : N) → a ⊕ (b ⊖ a) ≡ b
  pub sub-add : (a b : N) → a ⊕ b ⊖ a ≡ b
  pub add_zero : (a : N) → a ⊕ whole 0 ≡ a

abbrev quotient : ℤ → ℤ → ℤ
quotient a (negsuc d) = negate (floor_div a (suc d))
quotient a (pos d) = floor_div a d

instance abbrev pub integers : Number ℤ
integers = record {
  add = ◌+ℤ◌;
  sub = ◌-ℤ◌;
  mul = ◌*ℤ◌;
  div = quotient;
  neg = negate;
  abs = λ a. pos (magnitude a);
  eq = λ a b. is_zero (a -ℤ b);
  le = leb_ℤ;
  lt = ltb_ℤ;
  is_finite = λ a. true;
  ratio = floor_div;
  exp = λ a. a;
  log = λ a. a;
}

pub integers-IsAdditive : IsAdditive ℤ
unfolding floor_div
integers-IsAdditive = record {
  add_comm = +ℤ_comm;
  add_assoc = +ℤ_assoc;
  add-sub = λ a b. omega int_laws;
  sub-add = λ a b. omega int_laws;
  add_zero = λ a. omega int_laws;
}
