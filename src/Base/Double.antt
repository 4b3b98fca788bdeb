-- ===== src/Base/Double.antt =====
-- The quotients of JavaScript's numbers, and `Math.round` of one.
use irsforge.Base.{ℕ, suc, ◌+◌, ◌*◌, ◌^◌, ◌≤◌, ◌<◌, ◌≡◌, ◌≢◌, ap, sym, ◌⊎◌, inl, inr, arith}
use irsforge.Base.Int.{
  suc_times, eq_of_parts, ℤ, pos, pos_part, neg_part, ◌+ℤ◌, ◌-ℤ◌, ◌*ℤ◌, ◌≤ℤ◌, abs, round_div,
  int_laws, double_parts, *ℤ_parts, floor_div_unique, round_div_bounds, abs_parts,
}
pub mod FixedPoint

-- A double as a fraction.
pub record Fraction : Type 0 where
  pub numerator : ℤ
  pub denominator : ℕ

-- `a / d` on doubles. How it rounds is left open.
pub record Division : Type 0 where
  pub quotient : ℤ → ℕ → Fraction

-- `Math.round`: the nearest integer, and halfway the upper one.
abbrev pub math_round : Fraction → ℤ
math_round q = round_div q.numerator q.denominator

-- `Math.round(a / d)`
abbrev pub rounded_quotient : ⦃division : Division⦄ → ℤ → ℕ → ℤ
rounded_quotient ⦃division = division⦄ a d = math_round (division.quotient a d)

scaled : (x y d : ℕ) → x ≤ y → x * d ≤ y * d
scaled x y d h = grind arith

-- Numbers that doubles hold and divide without leaving their range: the quotient is within
-- 2 ^ -53 of the exact one, in parts of it, and is exact where that is half an integer.
abbrev pub Fits : ℤ → ℕ → Type 0
Fits a d = (abs a < 2 ^ 52) × ((0 < d) × (d < 2 ^ 52))

pub record IsDoubleDivision (div : Division) : Type 0 where
  pub positive : (a : ℤ) (d : ℕ) → Fits a d → 0 < (div.quotient a d).denominator
  pub close :
      (a : ℤ) (d : ℕ)
      → Fits a d
      → let q = div.quotient a d in
        2 ^ 53 * abs (q.numerator *ℤ pos d -ℤ a *ℤ pos q.denominator) ≤ abs a * q.denominator
  pub halves :
      (a h : ℤ) (d : ℕ)
      → Fits a d
      → pos 2 *ℤ a ≡ h *ℤ pos d
      → let q = div.quotient a d in pos 2 *ℤ q.numerator ≡ h *ℤ pos q.denominator

-- Below: the numerator m over p stands for a over r, up to e in the product.
small_error : (a p e : ℕ) → 0 < p → a < 2 ^ 52 → 2 ^ 53 * e ≤ a * p → 2 * e < p
small_error a p e h b c = let s = scaled (suc a) (2 ^ 52) p b in omega (arith, s, c, h)

le_or_gt : (x y : ℕ) → (x ≤ y) ⊎ (y < x)
le_or_gt x y = omega arith

le-cases : (x y : ℕ) → (x ≡ y) ⊎ ((x < y) ⊎ (y < x))
le-cases x y = omega arith

not_under :
    (a1 a2 m1 m2 n1 n2 r p e : ℕ)
    → 2 * e < p
    → m1 * r + a2 * p ≤ m2 * r + a1 * p + e
    → 2 * (n1 * p) + 2 * m2 ≤ 2 * m1 + p + 2 * (n2 * p)
    → 2 * (n1 * r) + 2 * a2 ≤ 2 * a1 + r + 2 * (n2 * r)
not_under a1 a2 m1 m2 n1 n2 r p e small close round =
    elim (le_or_gt (2 * (n1 * r) + 2 * a2) (2 * a1 + r + 2 * (n2 * r))) [
      | inl fits ↦ fits
      | inr beyond ↦
          let over = scaled (suc (2 * a1 + r + 2 * (n2 * r))) (2 * (n1 * r) + 2 * a2) p beyond in
          let rounded = scaled (2 * (n1 * p) + 2 * m2) (2 * m1 + p + 2 * (n2 * p)) r round in
          absurd (omega (arith, over, rounded, small, close))
    ]

not_over :
    (a1 a2 m1 m2 n1 n2 r p e : ℕ)
    → 2 * e < p
    → m2 * r + a1 * p ≤ m1 * r + a2 * p + e
    → 2 * m1 + 1 + 2 * (n2 * p) ≤ 2 * (n1 * p) + p + 2 * m2
    → 2 * a1 + 2 * (n2 * r) ≤ 2 * (n1 * r) + r + 2 * a2
not_over a1 a2 m1 m2 n1 n2 r p e small close round =
    elim (le_or_gt (2 * a1 + 2 * (n2 * r)) (2 * (n1 * r) + r + 2 * a2)) [
      | inl fits ↦ fits
      | inr beyond ↦
          let over = scaled (suc (2 * (n1 * r) + r + 2 * a2)) (2 * a1 + 2 * (n2 * r)) p beyond in
          let rounded = scaled (2 * m1 + 1 + 2 * (n2 * p)) (2 * (n1 * p) + p + 2 * m2) r round in
          absurd (omega (arith, over, rounded, small, close))
    ]

abbrev half_up : ℤ → ℤ
half_up n = pos 2 *ℤ n +ℤ pos 1

half_up_times :
    (n : ℤ) (d : ℕ)
    → pos_part (half_up n *ℤ pos d) + 2 * neg_part (n *ℤ pos d)
      ≡ neg_part (half_up n *ℤ pos d) + (2 * pos_part (n *ℤ pos d) + d)
half_up_times n d =
    let (above, below) = double_parts n in
    omega (
      int_laws,
      ap pos_part (suc_times (pos 2 *ℤ n) d),
      ap neg_part (suc_times (pos 2 *ℤ n) d),
      *ℤ_parts (pos 2 *ℤ n) d,
      *ℤ_parts n d,
      ap (λ t. t * d) above,
      ap (λ t. t * d) below,
    )

module _ (div : Division) (ieee : IsDoubleDivision div) where
  -- A rounded quotient is not half an integer below the exact one.
  below_half :
      (a n : ℤ) (d : ℕ)
      → Fits a d
      → let q = div.quotient a d in
        pos 2 *ℤ q.numerator +ℤ pos 1 ≤ℤ pos 2 *ℤ (n *ℤ pos q.denominator) +ℤ pos q.denominator
        → pos 2 *ℤ a ≢ half_up n *ℤ pos d
  below_half a n d fits high tie =
      let q = div.quotient a d in
      let half = ieee.halves a (half_up n) d fits tie in
      omega (
        int_laws,
        ap pos_part half,
        ap neg_part half,
        double_parts q.numerator,
        half_up_times n q.denominator,
        double_parts (n *ℤ pos q.denominator),
        high,
      )

  -- The rounded quotient of two doubles is the exact quotient, rounded.
  pub math_round-quotient :
      (a : ℤ) (d : ℕ) → Fits a d → math_round (div.quotient a d) ≡ round_div a d
  unfolding round_div
  math_round-quotient a d fits =
      let q = div.quotient a d in
      let m = q.numerator in
      let p = q.denominator in
      let n = round_div m p in
      let e = abs (m *ℤ pos d -ℤ a *ℤ pos p) in
      let p_pos = ieee.positive a d fits in
      let (low, high) = round_div_bounds m p p_pos in
      let small = small_error (abs a) p e p_pos fits.0 (ieee.close a d fits) in
      let error = abs_parts (m *ℤ pos d -ℤ a *ℤ pos p) in
      let md = *ℤ_parts m d in
      let ap' = *ℤ_parts a p in
      let np = *ℤ_parts n p in
      let nd = *ℤ_parts n d in
      let under =
        not_under (pos_part a) (neg_part a) (pos_part m) (neg_part m) (pos_part n) (neg_part n) d p
          e small (omega (int_laws, error, md, ap'))
          (omega (int_laws, low, double_parts m, double_parts (n *ℤ pos p), np)) in
      let over =
        not_over (pos_part a) (neg_part a) (pos_part m) (neg_part m) (pos_part n) (neg_part n) d p e
          small (omega (int_laws, error, md, ap'))
          (omega (int_laws, high, double_parts m, double_parts (n *ℤ pos p), np)) in
      let no_tie : pos 2 *ℤ a ≢ half_up n *ℤ pos d = below_half a n d fits high in
      sym (
        floor_div_unique (pos 2 *ℤ a +ℤ pos d) n (2 * d) (omega (arith, fits))
          (omega (int_laws, double_parts a, *ℤ_parts n (2 * d), nd, under))
          (elim (le-cases (2 * pos_part a + 2 * (neg_part n * d))
            (2 * (pos_part n * d) + d + 2 * neg_part a)) [
              | inl tie ↦ absurd (
                  no_tie (
                    eq_of_parts _ _ (omega (int_laws, tie, nd, double_parts a, half_up_times n d))))
              | inr (inl less) ↦ omega (int_laws, double_parts a, *ℤ_parts n (2 * d), nd, less)
              | inr (inr more) ↦ absurd (omega (arith, more, over))
            ]))
