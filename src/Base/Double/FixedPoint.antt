-- ===== src/Base/Double/FixedPoint.antt =====
-- A division that rounds as a quotient of JavaScript's numbers may.
use irsforge.Base.{ℕ, ◌*◌, ◌^◌, ◌≤◌, ◌<◌, ◌≡◌, ap, ◌∙◌, ◌⊎◌, inl, inr, arith}
use irsforge.Base.Int.{
  ℤ, pos, pos_part, neg_part, abs, ◌+ℤ◌, ◌-ℤ◌, ◌*ℤ◌, int_laws, abs_parts, one_part, round_div,
  round_div_bounds, floor_div_unique, *ℤ_parts, double_parts, eq_of_parts,
}
use irsforge.Base.Double.{Division, Fits, IsDoubleDivision}

zero-or_more : (n : ℕ) → (n ≡ 0) ⊎ (1 ≤ n)
zero-or_more n = omega arith

-- A division that rounds to 105 binary places.
abbrev places : ℕ
places = 2 ^ 105

instance abbrev pub fixed_point : Division
fixed_point = record {
  quotient = λ a d. record { numerator = round_div (a *ℤ pos places) d; denominator = places };
}

fixed_point-zero : (d : ℕ) → 0 < d → round_div (pos 0 *ℤ pos places) d ≡ pos 0
unfolding round_div
fixed_point-zero d h =
    floor_div_unique (pos 2 *ℤ (pos 0 *ℤ pos places) +ℤ pos d) (pos 0) (2 * d) (omega arith)
      (omega (
        int_laws,
        *ℤ_parts (pos 0) (2 * d),
        *ℤ_parts (pos 0) places,
        double_parts (pos 0 *ℤ pos places),
      ))
      (omega (
        int_laws,
        *ℤ_parts (pos 0) (2 * d),
        *ℤ_parts (pos 0) places,
        double_parts (pos 0 *ℤ pos places),
        h,
      ))

fixed_point-close :
    (a : ℤ) (d : ℕ)
    → Fits a d
    → 2 ^ 53 * abs (round_div (a *ℤ pos places) d *ℤ pos d -ℤ a *ℤ pos places) ≤ abs a * places
fixed_point-close a d fits = elim (zero-or_more (abs a)) [
  | inl nothing ↦
      let none_left : a ≡ pos 0 = eq_of_parts a (pos 0) (omega (arith, abs_parts a, nothing)) in
      let w = round_div (a *ℤ pos places) d in
      let e : w ≡ pos 0 =
        ap (λ x. round_div (x *ℤ pos places) d) none_left ∙ fixed_point-zero d fits.1.0 in
      omega (
        int_laws,
        *ℤ_parts w d,
        ap (λ t. pos_part t * d) e,
        ap (λ t. neg_part t * d) e,
        *ℤ_parts a places,
        ap pos_part none_left,
        ap neg_part none_left,
        abs_parts (w *ℤ pos d -ℤ a *ℤ pos places),
        one_part (w *ℤ pos d -ℤ a *ℤ pos places),
      )
  | inr some_left ↦
      let w = round_div (a *ℤ pos places) d in
      omega (
        int_laws,
        round_div_bounds (a *ℤ pos places) d fits.1.0,
        double_parts (w *ℤ pos d),
        double_parts (a *ℤ pos places),
        abs_parts (w *ℤ pos d -ℤ a *ℤ pos places),
        one_part (w *ℤ pos d -ℤ a *ℤ pos places),
        fits,
        some_left,
        abs_parts a,
        one_part a,
        *ℤ_parts a places,
      )
]

fixed_point-halves :
    (a h : ℤ) (d : ℕ)
    → Fits a d
    → pos 2 *ℤ a ≡ h *ℤ pos d
    → pos 2 *ℤ round_div (a *ℤ pos places) d ≡ h *ℤ pos places
unfolding round_div
fixed_point-halves a h d fits e =
    let half = 2 ^ 104 in
    let q = h *ℤ pos half in
    let (above, below) = *ℤ_parts h half in
    let found : round_div (a *ℤ pos places) d ≡ q =
      floor_div_unique (pos 2 *ℤ (a *ℤ pos places) +ℤ pos d) q (2 * d) (omega (arith, fits))
        (omega (
          int_laws,
          *ℤ_parts q (2 * d),
          ap (λ t. t * (2 * d)) above,
          ap (λ t. t * (2 * d)) below,
          *ℤ_parts h d,
          ap pos_part e,
          ap neg_part e,
          double_parts a,
          double_parts (a *ℤ pos places),
          *ℤ_parts a places,
          fits,
        ))
        (omega (
          int_laws,
          *ℤ_parts q (2 * d),
          ap (λ t. t * (2 * d)) above,
          ap (λ t. t * (2 * d)) below,
          *ℤ_parts h d,
          ap pos_part e,
          ap neg_part e,
          double_parts a,
          double_parts (a *ℤ pos places),
          *ℤ_parts a places,
          fits,
        )) in
    ap (λ x. pos 2 *ℤ x) found
    ∙ eq_of_parts (pos 2 *ℤ q) (h *ℤ pos places)
        (omega (arith, double_parts q, above, below, *ℤ_parts h places))

pub fixed_point-IsDoubleDivision : IsDoubleDivision fixed_point
fixed_point-IsDoubleDivision = record {
  positive = λ a d fits. omega arith;
  close = fixed_point-close;
  halves = fixed_point-halves;
}
