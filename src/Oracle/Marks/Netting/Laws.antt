-- ===== src/Oracle/Marks/Netting/Laws.antt =====
-- A mark leaves no swap out, and depends on the side it is seen from by its sign alone.
use irsforge.Base.{
  ◌≡◌, ◌∙◌, ap, refl, Option, none, some, String, List, [], ◌∷◌, map, false, not, ◌==◌, eq_iff,
  if◌then◌else◌, arith, Option-cases, Bool-cases, inl, inr,
}
use irsforge.Base.Int.{ℤ, pos, ◌+ℤ◌, ◌-ℤ◌, neg, int_laws, neg_parts}
use irsforge.Oracle.Marks.Netting.{
  SwapWorkflow, NettedSwap, NettingSetEntry, SwapPv, MarkComputation, pair_matches, netted_swaps,
  all_pvs, sum_pvs, compute_mark, signed_pv,
}

-- Seen from the other side the same swaps are netted, each with the other orientation.
abbrev pub turned : NettedSwap → NettedSwap
turned s = record s { reversed = not s.reversed }

pair_matches_comm : (w : SwapWorkflow) (a b : String) → pair_matches w a b ≡ pair_matches w b a
unfolding pair_matches
pair_matches_comm w a b = ground arith

netted_swaps-turned :
    (ws : List SwapWorkflow) (a b : String)
    → (a == b) ≡ false
    → netted_swaps ws b a ≡ map turned (netted_swaps ws a b)
unfolding netted_swaps pair_matches
netted_swaps-turned [] a b h = refl
netted_swaps-turned (w ∷ ws) a b h = ground (
  arith,
  netted_swaps-turned ws a b h,
  eq_iff w.party_a a,
  eq_iff w.party_a b,
  eq_iff w.party_b a,
  eq_iff w.party_b b,
  eq_iff a b,
)

-- The same value, seen from the other side.
abbrev flipped : SwapPv → SwapPv
flipped x = record x { pv = neg x.pv }

zero-neg : pos 0 ≡ neg (pos 0)
unfolding neg ◌-ℤ◌
zero-neg = refl

neg-neg : (a : ℤ) → neg (neg a) ≡ a
neg-neg a = omega (int_laws, neg_parts a, neg_parts (neg a))

signed_pv-turned : (s : NettedSwap) (n : ℤ) → signed_pv (turned s) n ≡ flipped (signed_pv s n)
signed_pv-turned s n = elim (Bool-cases s.reversed) [
  | inl yes_reversed ↦ rw yes_reversed (rw (neg-neg n) refl)
  | inr straight ↦ rw straight refl
]

module _ (price : String → Option ℤ) where
  abbrev flipped_all : Option (List SwapPv) → Option (List SwapPv)
  flipped_all none = none
  flipped_all (some xs) = some (map flipped xs)

  all_pvs-turned :
      (ss : List NettedSwap) → all_pvs price (map turned ss) ≡ flipped_all (all_pvs price ss)
  unfolding all_pvs
  all_pvs-turned [] = refl
  all_pvs-turned (s ∷ ss) = elim (Option-cases (price s.swap.contract_id)) [
    | inl unpriced ↦ rw (unpriced, all_pvs) refl
    | inr (n, priced) ↦ elim (Option-cases (all_pvs price ss)) [
      | inl failed ↦ rw (priced, all_pvs-turned ss, failed, all_pvs) refl
      | inr (xs, summed) ↦
          rw (priced, all_pvs-turned ss, summed, all_pvs, signed_pv-turned s n) refl
    ]
  ]

  sum_pvs-flipped :
      (acc : ℤ) (xs : List SwapPv) → sum_pvs (neg acc) (map flipped xs) ≡ neg (sum_pvs acc xs)
  unfolding sum_pvs
  sum_pvs-flipped acc [] = refl
  sum_pvs-flipped acc (x ∷ xs) =
      let turn : neg acc +ℤ neg x.pv ≡ neg (acc +ℤ x.pv) =
        omega (int_laws, neg_parts acc, neg_parts x.pv, neg_parts (acc +ℤ x.pv)) in
      ap (λ t. sum_pvs t (map flipped xs)) turn ∙ sum_pvs-flipped (acc +ℤ x.pv) xs

  abbrev pub exposure_of : Option MarkComputation → Option ℤ
  exposure_of none = none
  exposure_of (some m) = some m.exposure

  abbrev pub negated : Option ℤ → Option ℤ
  negated none = none
  negated (some n) = some (neg n)

  abbrev pub entry : List SwapWorkflow → String → String → String → NettingSetEntry
  entry ws cid a b = record { csa_cid = cid; party_a = a; party_b = b; swaps = netted_swaps ws a b }

  -- For two different parties the exposure from the one side is minus that from the other, and it
  -- cannot be computed from the one side exactly where it cannot from the other.
  pub compute_mark_turned :
      (ws : List SwapWorkflow) (cid a b as_of : String)
      → (a == b) ≡ false
      → exposure_of (compute_mark price (entry ws cid b a) as_of)
        ≡ negated (exposure_of (compute_mark price (entry ws cid a b) as_of))
  unfolding compute_mark
  compute_mark_turned ws cid a b as_of h =
      let e = netted_swaps-turned ws a b h in
      let t = ap (all_pvs price) e ∙ all_pvs-turned (netted_swaps ws a b) in
      elim (Option-cases (all_pvs price (netted_swaps ws a b))) [
        | inl failed ↦ rw (t, failed, compute_mark) refl
        | inr (xs, summed) ↦
            rw (t, summed, compute_mark)
              (ap (λ n. some (neg n))
                (ap (λ z. sum_pvs z (map flipped xs)) zero-neg ∙ sum_pvs-flipped (pos 0) xs))
      ]

  -- The values list the swaps, in order, each at its price or, where it is reversed, at minus its
  -- price.
  abbrev pub AllPriced : List NettedSwap → List SwapPv → Type 0
  AllPriced [] [] = Unit
  AllPriced [] (x ∷ xs) = ⊥
  AllPriced (s ∷ ss) [] = ⊥
  AllPriced (s ∷ ss) (x ∷ xs) =
      ((n : ℤ) × (price s.swap.contract_id ≡ some n)
        × (x.swap_cid ≡ s.swap.contract_id)
        × (x.pv ≡ (if s.reversed then neg n else n)))
      × AllPriced ss xs

  all_pvs-AllPriced :
      (ss : List NettedSwap) (xs : List SwapPv) → all_pvs price ss ≡ some xs → AllPriced ss xs
  unfolding all_pvs
  all_pvs-AllPriced [] [] h = tt
  all_pvs-AllPriced [] (x ∷ xs) h = cc
  all_pvs-AllPriced (s ∷ ss) [] h = elim (Option-cases (price s.swap.contract_id)) [
    | inl unpriced ↦ absurd (ground arith)
    | inr (n, priced) ↦ absurd (ground arith)
  ]
  all_pvs-AllPriced (s ∷ ss) (x ∷ xs) h = elim (Option-cases (price s.swap.contract_id)) [
    | inl unpriced ↦ absurd (ground arith)
    | inr (n, priced) ↦
        ((n, priced, ground arith, ground arith), all_pvs-AllPriced ss xs (ground arith))
  ]

  -- A mark is made only where every swap of the netting set was priced; it lists them all, in
  -- order, each at its price or, where it is reversed, at minus its price, and its exposure is
  -- minus the sum of what it lists.
  pub compute_mark_sound :
      (e : NettingSetEntry) (as_of : String) (m : MarkComputation)
      → compute_mark price e as_of ≡ some m
      → AllPriced e.swaps m.swap_pvs
        × (m.exposure ≡ neg (sum_pvs (pos 0) m.swap_pvs))
        × (m.as_of ≡ as_of)
  unfolding compute_mark
  compute_mark_sound e as_of m h = elim (Option-cases (all_pvs price e.swaps)) [
    | inl failed ↦ absurd (ground arith)
    | inr (xs, priced) ↦
        (all_pvs-AllPriced e.swaps m.swap_pvs (ground arith), ground arith, ground arith)
  ]
