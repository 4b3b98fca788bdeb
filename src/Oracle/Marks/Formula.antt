-- ===== src/Oracle/Marks/Formula.antt =====
-- oracle/src/services/mark-publisher/formula.ts, and the contract's helpers that it mirrors,
-- contracts/src/Csa/Math.daml. Amounts are integers in a unit that doubles hold exactly, such as 1;
-- their sums and products are exact below 2 ^ 53, and the quotient is that of the doubles.
use irsforge.Base.{ℕ, zero, suc, ◌+◌, ◌*◌, ◌/◌, Bool, ltb, if◌then◌else◌}
use irsforge.Base.Int.{ℤ, pos, negsuc, ◌+ℤ◌, ◌-ℤ◌, ◌*ℤ◌, neg, abs, max_zero, round_div}
use irsforge.Base.Double.{Division, rounded_quotient}
pub mod Laws

pub record RequiredPair : Type 0 where
  pub from_a : ℤ
  pub from_b : ℤ

unfoldable pub compute_required : ℤ → ℤ → ℤ → RequiredPair
compute_required exposure threshold_a threshold_b = record {
  from_a = max_zero (exposure -ℤ threshold_b);
  from_b = max_zero (neg exposure -ℤ threshold_a);
}

-- The end of both functions. A rounding of zero is no rounding.
abbrev rounded : (ℤ → ℕ → ℤ) → ℤ → ℕ → ℤ
rounded round raw zero = raw
rounded round raw (suc r) = round raw (suc r) *ℤ pos (suc r)

unfoldable pub gate_call : ⦃division : Division⦄ → ℤ → ℕ → ℕ → ℤ
gate_call raw mta rounding =
    if ltb (abs raw) mta then pos 0 else rounded rounded_quotient raw rounding

-- Daml's `roundCommercial 0 (a / d)`: halves are rounded away from zero. The ten decimals to which
-- the contract rounds the quotient make no difference for divisors below 10 ^ 10: a quotient that
-- is not halfway is at least 1 / (2 * d) off.
unfoldable pub round_commercial : ℤ → ℕ → ℤ
round_commercial (pos n) d = pos ((2 * n + d) / (2 * d))
round_commercial (negsuc n) d = neg (pos ((2 * suc n + d) / (2 * d)))

-- `gateCall` of the contract.
unfoldable pub contract_gate_call : ℤ → ℕ → ℕ → ℤ
contract_gate_call raw mta rounding =
    if ltb (abs raw) mta then pos 0 else rounded round_commercial raw rounding
