-- ===== src/Oracle/Marks/Formula/Laws.antt =====
-- What a required amount covers, and how far a gated call is from the amount.
use irsforge.Base.{
  ℕ, zero, suc, ◌+◌, ◌-◌, ◌*◌, ◌^◌, ◌/◌, ◌%◌, ◌≤◌, ◌<◌, ◌≡◌, ◌≢◌, refl, ap, ◌∙◌, ◌⊎◌, inl, inr,
  Bool-cases, false, ltb, arith,
}
use native.Mathlib.Nat.{div-add-mod, mod-lt}
use irsforge.Base.Int.{
  ℤ, pos, negsuc, ◌+ℤ◌, ◌-ℤ◌, ◌*ℤ◌, ◌≤ℤ◌, neg, abs, round_div, int_laws, sign_laws, double_parts,
  one_part, ≤ℤ_total, floor_div_unique, *ℤ_parts, neg-pos_times, suc_times, neg-pos_parts,
  round_div_bounds,
}
use irsforge.Base.Double.{Division, IsDoubleDivision, Fits, math_round, math_round-quotient}
use irsforge.Oracle.Marks.Formula.{
  compute_required, gate_call, round_commercial, contract_gate_call,
}

-- With thresholds of zero or more at most one party owes collateral, and once it has posted what
-- is required, the exposure that is left lies within the thresholds.
pub compute_required_covers :
    (e ta tb : ℤ)
    → pos 0 ≤ℤ ta
    → pos 0 ≤ℤ tb
    → let r = compute_required e ta tb in
      ((r.from_a ≡ pos 0) ⊎ (r.from_b ≡ pos 0))
      × (neg ta ≤ℤ e -ℤ r.from_a +ℤ r.from_b)
      × (e -ℤ r.from_a +ℤ r.from_b ≤ℤ tb)
unfolding compute_required
compute_required_covers e ta tb ha hb = (
  elim (≤ℤ_total e tb) [ inl low ↦ inl (omega sign_laws) | inr high ↦ inr (omega sign_laws) ],
  omega sign_laws,
  omega sign_laws,
)

abbrev up_from : ℕ → ℕ → ℕ
up_from n d = 2 * n + d

abbrev quotient : ℕ → ℕ → ℕ
quotient n d = up_from n d / (2 * d)

module _ (n d : ℕ) (h : 0 < d) where
  divided : 2 * d * quotient n d + up_from n d % (2 * d) ≡ up_from n d
  divided = div-add-mod (up_from n d) (2 * d)

  left_over : up_from n d % (2 * d) < 2 * d
  left_over = mod-lt (up_from n d) (omega arith)

-- `Math.round` of a quotient that is not negative.
round_div-pos : (n d : ℕ) → 0 < d → round_div (pos n) d ≡ pos (quotient n d)
unfolding round_div
round_div-pos n d h =
    floor_div_unique (pos 2 *ℤ pos n +ℤ pos d) (pos (quotient n d)) (2 * d) (omega arith)
      (omega (
        int_laws,
        sign_laws,
        double_parts (pos n),
        *ℤ_parts (pos (quotient n d)) (2 * d),
        divided n d h,
      ))
      (omega (
        int_laws,
        sign_laws,
        double_parts (pos n),
        *ℤ_parts (pos (quotient n d)) (2 * d),
        divided n d h,
        left_over n d h,
      ))

-- Below zero: minus the rounded amount, and one more where it stands halfway.
round_div-neg :
    (n d : ℕ)
    → 0 < d
    → up_from (suc n) d % (2 * d) ≢ 0
    → round_div (negsuc n) d ≡ neg (pos (quotient (suc n) d))
unfolding round_div
round_div-neg n d h other =
    let q = neg (pos (quotient (suc n) d)) in
    floor_div_unique (pos 2 *ℤ negsuc n +ℤ pos d) q (2 * d) (omega arith)
      (omega (
        int_laws,
        sign_laws,
        double_parts (negsuc n),
        neg-pos_times (quotient (suc n) d) (2 * d),
        divided (suc n) d h,
      ))
      (omega (
        int_laws,
        sign_laws,
        double_parts (negsuc n),
        neg-pos_times (quotient (suc n) d) (2 * d),
        divided (suc n) d h,
        left_over (suc n) d h,
      ))

quotient_pos : (k d m : ℕ) → 2 * d * k ≡ 2 * suc m + d → 0 < k
quotient_pos zero d m h = omega (arith, h)
quotient_pos (suc k) d m h = omega arith

-- Halfway below zero the nearest multiple is the upper one.
round_div-tie :
    (n d : ℕ)
    → 0 < d
    → up_from (suc n) d % (2 * d) ≡ 0
    → round_div (negsuc n) d ≡ neg (pos (quotient (suc n) d)) +ℤ pos 1
unfolding round_div
round_div-tie n d h tie =
    let k = quotient (suc n) d in
    let exact : 2 * d * k ≡ 2 * suc n + d = omega (arith, divided (suc n) d h, tie) in
    let j = k - 1 in
    let e : k ≡ suc j = omega (arith, quotient_pos k d n exact) in
    let shifted : 2 * d * k ≡ 2 * d * suc j = ap (λ t. 2 * d * t) e in
    floor_div_unique (pos 2 *ℤ negsuc n +ℤ pos d) (neg (pos j)) (2 * d) (omega arith)
      (omega (sign_laws, double_parts (negsuc n), neg-pos_times j (2 * d), exact, shifted))
      (omega (sign_laws, double_parts (negsuc n), neg-pos_times j (2 * d), exact, shifted))
    ∙ omega (int_laws, neg-pos_parts j, neg-pos_parts k, e)

-- The contract's rounding of an amount below zero.
commercial-neg : (n d : ℕ) → round_commercial (negsuc n) d ≡ neg (pos (quotient (suc n) d))
unfolding round_commercial
commercial-neg n d = refl

commercial-pos : (n d : ℕ) → round_commercial (pos n) d ≡ pos (quotient n d)
unfolding round_commercial
commercial-pos n d = refl

-- A call that passes the gate, and whose amount is below zero and halfway between two multiples.
abbrev pub IsNegativeTie : ℤ → ℕ → ℕ → Type 0
IsNegativeTie (pos n) mta r = ⊥
IsNegativeTie (negsuc n) mta r = (mta ≤ suc n) × (0 < r) × ((2 * suc n + r) % (2 * r) ≡ 0)

-- The roundings for which the contract's ten decimals of a quotient make no difference.
abbrev pub IsModest : ℕ → Type 0
IsModest rounding = rounding < 10 ^ 10

module _ ⦃division : Division⦄ (ieee : IsDoubleDivision division) where
  divided_like :
      (raw : ℤ) (r : ℕ)
      → abs raw < 2 ^ 52
      → IsModest (suc r)
      → math_round (division.quotient raw (suc r)) ≡ round_div raw (suc r)
  divided_like raw r small modest =
      math_round-quotient division ieee raw (suc r) (small, (omega arith, omega (arith, modest)))

  -- For an amount and a positive rounding below 2 ^ 52 units, with a quotient as doubles have it
  -- (`IsDoubleDivision`): a call is made only for an amount of at least the minimum transfer, it is
  -- a multiple of the rounding, and it is within half a rounding of the amount.
  pub gate_call_nearest :
      (raw : ℤ) (mta rounding : ℕ)
      → Fits raw rounding
      → ((abs raw < mta) × (gate_call raw mta rounding ≡ pos 0))
        ⊎ ((mta ≤ abs raw)
            × ((n : ℤ) × (gate_call raw mta rounding ≡ n *ℤ pos rounding)
                × (2 * abs (raw -ℤ gate_call raw mta rounding) ≤ rounding)))
  unfolding gate_call
  gate_call_nearest raw mta zero fits = absurd (omega (arith, fits))
  gate_call_nearest raw mta (suc r) fits = elim (Bool-cases (ltb (abs raw) mta)) [
    | inl small ↦ inl (ground arith, rw (small, gate_call))
    | inr large ↦
        let same = math_round-quotient division ieee raw (suc r) fits in
        let n = round_div raw (suc r) in
        inr (
          ground arith,
          (
            n,
            rw (large, same, gate_call),
            rw (large, same, gate_call)
                (omega (
                  sign_laws,
                  round_div_bounds raw (suc r) fits.1.0,
                  double_parts raw,
                  double_parts (n *ℤ pos (suc r)),
                  one_part (raw -ℤ n *ℤ pos (suc r)),
                )),
          ),
        )
  ]

  -- For amounts below 2 ^ 52 units and roundings below 10 ^ 10 units, with a quotient as doubles
  -- have it (within 2 ^ -53 of the exact one, and exact where that is half an integer), the
  -- oracle's call is the contract's, but for an amount below zero that passes the gate and stands
  -- halfway between two multiples of the rounding.
  pub gate_call_agrees :
      (raw : ℤ) (mta rounding : ℕ)
      → abs raw < 2 ^ 52
      → IsModest rounding
      → ¬ (IsNegativeTie raw mta rounding)
      → gate_call raw mta rounding ≡ contract_gate_call raw mta rounding
  unfolding gate_call contract_gate_call abs
  gate_call_agrees (pos n) mta zero small modest h = refl
  gate_call_agrees (negsuc n) mta zero small modest h = refl
  gate_call_agrees (pos n) mta (suc r) small modest h =
      rw
        (
          divided_like (pos n) r small modest,
          round_div-pos n (suc r) (omega arith),
          commercial-pos n (suc r),
        )
        refl
  gate_call_agrees (negsuc n) mta (suc r) small modest h = elim (Bool-cases (ltb (suc n) mta)) [
    | inl under ↦ rw (under, gate_call)
    | inr large ↦
        let other : up_from (suc n) (suc r) % (2 * suc r) ≢ 0 =
          λ tie. h (ground arith, omega arith, tie) in
        rw
          (
            large,
            divided_like (negsuc n) r small modest,
            round_div-neg n (suc r) (omega arith) other,
            commercial-neg n (suc r),
          )
          refl
  ]

  -- For an amount below zero that passes the gate and stands halfway between two multiples of the
  -- rounding, the oracle's call is one rounding above the contract's. The amount is below 2 ^ 52
  -- units, the rounding below 10 ^ 10 units, and the quotient is as doubles have it (within 2 ^ -53
  -- of the exact one, and exact where that is half an integer).
  pub gate_call_tie :
      (raw : ℤ) (mta rounding : ℕ)
      → abs raw < 2 ^ 52
      → IsModest rounding
      → IsNegativeTie raw mta rounding
      → gate_call raw mta rounding ≡ contract_gate_call raw mta rounding +ℤ pos rounding
  unfolding gate_call contract_gate_call abs
  gate_call_tie (negsuc n) mta zero small modest (over, some_rounding, tie) = absurd (omega arith)
  gate_call_tie (negsuc n) mta (suc r) small modest (over, some_rounding, tie) =
      let large : ltb (suc n) mta ≡ false = ground arith in
      let q = neg (pos (quotient (suc n) (suc r))) in
      rw
        (
          large,
          divided_like (negsuc n) r small modest,
          round_div-tie n (suc r) (omega arith) tie,
          commercial-neg n (suc r),
        )
        (suc_times q (suc r))
  gate_call_tie (pos n) mta r small modest h = absurd h
