-- ===== src/Pricing/Curves/Laws.antt =====
-- Theorems on the interpolation of engine/curves.ts at the nodes of a curve.
use irsforge.Base.{
  ℕ, ◌+◌, ◌≤◌, ◌<◌, ◌≡◌, refl, sym, ap, ◌⊎◌, inl, inr, List, [], ◌∷◌, true, false, arith, All,
  All-map,
}
use irsforge.Base.Int.{ℤ, pos, negsuc, pos_part, neg_part, ◌-ℤ◌, leb_ℤ, -ℤ_parts}
use irsforge.Pricing.Number.{Number, ◌⊕◌, ◌⊖◌, ◌⊗◌, ◌⊘◌, whole}
use irsforge.Pricing.Types.{Pillar}
use irsforge.Pricing.Curves.{last_of, scan, interpolate, straight, linear}

infix 50 ◌<ℤ◌
abbrev ◌<ℤ◌ : ℤ → ℤ → Type 0
a <ℤ b = pos_part a + neg_part b < pos_part b + neg_part a

below : (a b : ℤ) → a <ℤ b → leb_ℤ b a ≡ false
below a b h = ground arith

within : (a b : ℤ) → a <ℤ b → leb_ℤ a b ≡ true
within a b h = ground arith

same : (a : ℤ) → leb_ℤ a a ≡ true
same a = ground arith

is_number : (d : ℤ) → neg_part d < pos_part d → (n : ℕ) × (1 ≤ n) × (d ≡ pos n)
is_number (pos n) h = (n, omega arith, refl)
is_number (negsuc n) h = absurd (omega arith)

module _ {A : Type 0} {P Q R : A → Type 0} where
  All-with : ((x : A) → P x → Q x → R x) → (xs : List A) → All P xs → All Q xs → All R xs
  All-with f [] h k = tt
  All-with f (x ∷ xs) (p, h) (q, k) = (f x p q, All-with f xs h k)

module _ {N : Type 0} where
  -- The tenors rise strictly.
  abbrev pub Rising : Pillar N → List (Pillar N) → Type 0
  Rising p [] = Unit
  Rising p (q ∷ qs) = (p.tenor_days <ℤ q.tenor_days) × Rising q qs

  Rising-All :
      (p : Pillar N) (ps : List (Pillar N))
      → Rising p ps
      → All (λ x. p.tenor_days <ℤ x.tenor_days) ps
  Rising-All p [] h = tt
  Rising-All p (q ∷ qs) (h, k) = (h, All-map (λ x m. omega (arith, h, m)) qs (Rising-All q qs k))

  -- A node of a rising curve is its last or before it.
  Rising-last :
      (p : Pillar N) (ps : List (Pillar N))
      → Rising p ps
      → All (λ x. (x ≡ last_of p ps) ⊎ (x.tenor_days <ℤ (last_of p ps).tenor_days)) (p ∷ ps)
  Rising-last p [] h = (inl refl, tt)
  Rising-last p (q ∷ qs) (h, k) =
      let (first, rest) = Rising-last q qs k in
      (elim first [ inl e ↦ inr (rw (← e) h) | inr m ↦ inr (omega (arith, h, m)) ], (first, rest))

  module _ (single : Pillar N → N) (between : Pillar N → Pillar N → ℤ → N) where
    scan-node :
        ((a b : Pillar N) → a.tenor_days <ℤ b.tenor_days → between a b b.tenor_days ≡ single b)
        → (p : Pillar N) (ps : List (Pillar N)) → Rising p ps
        → All (λ x. scan single between p ps x.tenor_days ≡ single x) ps
    unfolding scan
    scan-node meets p [] h = tt
    scan-node meets p (q ∷ qs) (h, k) = (
      rw (within p.tenor_days q.tenor_days h, same q.tenor_days) (meets p q h),
      All-with
          (λ x m e.
            rw
              (
                within p.tenor_days x.tenor_days (omega (arith, h, m)),
                below q.tenor_days x.tenor_days m,
              )
              e)
          qs (Rising-All q qs k) (scan-node meets q qs k),
    )

    inner_node :
        (empty : N) (p : Pillar N) (ps : List (Pillar N)) (x : Pillar N)
        → p.tenor_days <ℤ x.tenor_days
        → scan single between p ps x.tenor_days ≡ single x
        → (x ≡ last_of p ps) ⊎ (x.tenor_days <ℤ (last_of p ps).tenor_days)
        → interpolate single between empty (p ∷ ps) x.tenor_days ≡ single x
    unfolding interpolate
    inner_node empty p ps x m e (inl at) =
        let z = last_of p ps in
        let reached : leb_ℤ z.tenor_days x.tenor_days ≡ true = rw at (same z.tenor_days) in
        rw (below p.tenor_days x.tenor_days m, reached) (ap single (sym at))
    inner_node empty p ps x m e (inr before) =
        rw (below p.tenor_days x.tenor_days m, below x.tenor_days (last_of p ps).tenor_days before)
          e

    -- A curve with rising tenors gives back each of its nodes, when the formula between two nodes
    -- gives the upper one back.
    interpolate-node :
        ((a b : Pillar N) → a.tenor_days <ℤ b.tenor_days → between a b b.tenor_days ≡ single b)
        → (empty : N) (p : Pillar N) (ps : List (Pillar N)) → Rising p ps
        → All (λ x. interpolate single between empty (p ∷ ps) x.tenor_days ≡ single x) (p ∷ ps)
    unfolding interpolate
    interpolate-node meets empty p ps h =
        let both : All
            (λ x.
              (scan single between p ps x.tenor_days ≡ single x)
              × ((x ≡ last_of p ps) ⊎ (x.tenor_days <ℤ (last_of p ps).tenor_days)))
            ps =
          All-with (λ x e w. (e, w)) ps (scan-node meets p ps h) (Rising-last p ps h).1 in
        (
          rw (same p.tenor_days) refl,
          All-with (λ x m ew. inner_node empty p ps x m ew.0 ew.1) ps (Rising-All p ps h) both,
        )

-- What the linear formula needs of the numbers.
pub record IsInterpolating (N : Type 0) ⦃arithmetic : Number N⦄ : Type 0 where
  pub div_self : (n : ℕ) → 1 ≤ n → arithmetic.ratio (pos n) 1 ⊘ arithmetic.ratio (pos n) 1 ≡ whole 1
  pub one_mul : (a : N) → whole 1 ⊗ a ≡ a
  pub add-sub : (a b : N) → a ⊕ (b ⊖ a) ≡ b

module _ {N : Type 0} ⦃arithmetic : Number N⦄ where
  straight_meets :
      IsInterpolating N
      → (a b : Pillar N) → a.tenor_days <ℤ b.tenor_days
      → straight a b b.tenor_days ≡ b.zero_rate
  straight_meets laws a b h =
      let d = b.tenor_days -ℤ a.tenor_days in
      let (n, some_days, e) = is_number d (omega (arith, -ℤ_parts b.tenor_days a.tenor_days, h)) in
      rw (e, laws.div_self n some_days, laws.one_mul (b.zero_rate ⊖ a.zero_rate))
        (laws.add-sub a.zero_rate b.zero_rate)

  -- A curve whose tenors rise gives, by linear interpolation, the zero rate of each of its nodes
  -- at that node's tenor. The hypotheses on the numbers: a whole number of at least 1 divided by
  -- itself is 1, one times a number is that number, and adding a difference gives the minuend.
  pub linear-nodes :
      IsInterpolating N
      → (p : Pillar N) (ps : List (Pillar N)) → Rising p ps
      → All (λ x. linear (p ∷ ps) x.tenor_days ≡ x.zero_rate) (p ∷ ps)
  unfolding linear
  linear-nodes laws p ps h =
      interpolate-node (λ x. x.zero_rate) straight (straight_meets laws) (whole 0) p ps h
