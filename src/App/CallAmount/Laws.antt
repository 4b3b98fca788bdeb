-- ===== src/App/CallAmount/Laws.antt =====
-- Theorems on app/src/features/csa/call-amount.ts and the oracle's publisher.
use irsforge.Base.{
  ℕ, zero, suc, ◌≤◌, ◌≡◌, refl, ap, inl, inr, Option, none, some, Option-cases, Bool-cases, String,
  [], ◌∷◌, arith,
}
use irsforge.Base.Int.{ℤ, pos, negsuc, ltb_ℤ, neg}
use irsforge.Base.Double.{Division}
use irsforge.Base.Dict.{Dict, insert, lookup}
use irsforge.Oracle.Marks.Csa.{
  CsaPayload, DecodedCsa, decode_csa, from_pairs, split_posted, post_one,
}
use irsforge.Oracle.Marks.Publisher.{gated_call}
use irsforge.Oracle.Marks.Formula.{gate_call as publisher_gate}
use irsforge.App.CallAmount.{
  CsaViewModel, map_of, posted, decode_view, side_a, side_b, CallSignal, gate_call, signal,
  compute_call_signal,
}

-- What the drawer shows of a call: nothing for none, and else who has to fund it and how much.
abbrev pub Shows : Option CallSignal → ℤ → Type 0
Shows none call = call ≡ pos 0
Shows (some s) call = elim s.side [
  | side_a ↦ (1 ≤ s.amount) × (call ≡ pos s.amount)
  | side_b ↦ (1 ≤ s.amount) × (call ≡ neg (pos s.amount))
]

signal-Shows : (call : ℤ) → Shows (signal call) call
unfolding neg
signal-Shows (pos zero) = refl
signal-Shows (pos (suc n)) = (omega arith, refl)
signal-Shows (negsuc n) = (omega arith, ground arith)

map_of-from_pairs : (pairs m : Dict ℤ) → map_of pairs m ≡ from_pairs pairs m
unfolding map_of from_pairs
map_of-from_pairs [] m = refl
map_of-from_pairs ((key, value) ∷ more) m = map_of-from_pairs more (insert key value m)

posted-split_posted :
    (csb by_a by_b : Dict ℤ) → posted csb by_a by_b ≡ split_posted csb (by_a, by_b)
unfolding posted split_posted post_one
posted-split_posted [] by_a by_b = refl
posted-split_posted ((ccy, n) ∷ rest) by_a by_b = elim (Bool-cases (ltb_ℤ (pos 0) n)) [
  | inl above ↦ rw above (posted-split_posted rest _ _)
  | inr not_above ↦ elim (Bool-cases (ltb_ℤ n (pos 0))) [
    | inl under ↦ rw (not_above, under) (posted-split_posted rest _ _)
    | inr nothing ↦ rw (not_above, nothing) (posted-split_posted rest _ _)
  ]
]

same_gate :
    ⦃division : Division⦄ (raw : ℤ) (mta rounding : ℕ)
    → gate_call raw mta rounding ≡ publisher_gate raw mta rounding
unfolding gate_call publisher_gate
same_gate raw mta zero = refl
same_gate raw mta (suc r) = refl

some_value : {A : Type 0} (a b : A) → some a ≡ some b → a ≡ b
some_value a b h = ap (λ o. elim o [ some x ↦ x | none ↦ a ]) h

signal_same :
    ⦃division : Division⦄ (raw : ℤ) (mta rounding : ℕ)
    → Shows (signal (gate_call raw mta rounding)) (publisher_gate raw mta rounding)
signal_same raw mta rounding =
    rw (← same_gate raw mta rounding) (signal-Shows (gate_call raw mta rounding))

-- For a contract that both read, however a quotient of doubles is rounded: from the mark's
-- exposure, the drawer of the application shows exactly the call that the oracle's publisher
-- computes when it decides whether to settle. It shows nothing for no call, side A for a positive
-- call, side B for a negative one, and its size.
pub compute_call_signal-Shows :
    ⦃division : Division⦄ (id : String) (p : CsaPayload) (exposure : ℤ) (csa : DecodedCsa)
    (v : CsaViewModel)
    → decode_csa id p ≡ some csa
    → decode_view p ≡ some v
    → Shows (compute_call_signal v exposure) (gated_call csa exposure)
unfolding decode_csa decode_view compute_call_signal gated_call
compute_call_signal-Shows id p exposure csa v h k = elim (Option-cases p.threshold) [
  | inl no_threshold ↦ absurd (ground (arith, no_threshold))
  | inr (pairs, given) ↦
      let same_map = map_of-from_pairs pairs [] in
      let h1 = rw given at h in
      let k1 = rw (given, same_map) at k in
      elim (Option-cases (lookup "DirA" (from_pairs pairs []))) [
        | inl no_a ↦ absurd (ground (arith, no_a))
        | inr (dir_a, found_a) ↦
            let h2 = rw found_a at h1 in
            let k2 = rw found_a at k1 in
            elim (Option-cases (lookup "DirB" (from_pairs pairs []))) [
              | inl no_b ↦ absurd (ground (arith, no_b))
              | inr (dir_b, found_b) ↦
                  let h3 = rw found_b at h2 in
                  let k3 = rw found_b at k2 in
                  elim (Option-cases p.csb) [
                    | inl no_csb ↦ absurd (ground (arith, no_csb))
                    | inr (csb, balances) ↦
                        let h4 = rw balances at h3 in
                        let k4 = rw balances at k3 in
                        let e = some_value _ csa h4 in
                        let d = some_value _ v k4 in
                        rw (← e, ← d, posted-split_posted csb [] [])
                          (signal_same _ p.mta p.rounding)
                  ]
            ]
      ]
]
