-- ===== src/Pricing/Newton/Widths.antt =====
-- Theorems on the number of doublings in the bracket search of solver/newton.ts.
use irsforge.Base.{
  ℕ, zero, suc, ◌+◌, ◌-◌, ◌*◌, ◌^◌, ◌≤◌, ◌<◌, ◌≡◌, inl, inr, leb, leb-le, Bool-cases, max, arith,
}
use irsforge.Pricing.Newton.{log2_up, doubles_for}

pow_suc : (n : ℕ) → 2 ^ suc n ≡ 2 * 2 ^ n
pow_suc n = omega arith

lt-pow : (n : ℕ) → n < 2 ^ n
lt-pow zero = omega arith
lt-pow (suc n) = omega (arith, lt-pow n, pow_suc n)

log2_up_lem : (fuel k n : ℕ) → n ≤ fuel + k → n ≤ 2 ^ log2_up fuel k n
unfolding log2_up
log2_up_lem zero k n h = omega (arith, lt-pow k)
log2_up_lem (suc fuel) k n h = elim (Bool-cases (leb n (2 ^ k))) [
  | inl reached ↦ rw reached (leb-le n (2 ^ k) reached)
  | inr short ↦ rw short (log2_up_lem fuel (suc k) n (omega arith))
]

-- The last width that the search tries is at least `bracketMax` times the first.
pub doubles_for_covers : (n : ℕ) → (1 ≤ doubles_for n) × (n ≤ 2 ^ (doubles_for n - 1))
unfolding doubles_for
doubles_for_covers n =
    let k = log2_up (max n 2) 0 (max n 2) in
    let reached = log2_up_lem (max n 2) 0 (max n 2) (omega arith) in
    let e : max 1 (k + 1) ≡ suc k = omega arith in
    let less : suc k - 1 ≡ k = omega arith in rw (e, less) (omega arith, omega (arith, reached))
