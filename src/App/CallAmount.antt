-- ===== src/App/CallAmount.antt =====
-- app/src/features/csa/call-amount.ts and decode.ts: the open call that the CSA's drawer shows.
-- Amounts are as in Oracle/Marks/Formula; fields that are only shown are left out.
use irsforge.Base.{
  ℕ, zero, suc, Option, none, some, String, List, [], ◌∷◌, Bool, true, false, ltb, if◌then◌else◌,
}
use irsforge.Base.Int.{ℤ, pos, negsuc, ◌-ℤ◌, ◌*ℤ◌, neg, abs, max_zero, is_zero, ltb_ℤ}
use irsforge.Base.Double.{Division, rounded_quotient}
use irsforge.Base.Dict.{Dict, lookup, insert}
use irsforge.Oracle.Marks.Csa.{CsaPayload, CsaState}
pub mod Laws

pub record CsaViewModel : Type 0 where
  pub threshold_dir_a : ℤ
  pub threshold_dir_b : ℤ
  pub mta : ℕ
  pub rounding : ℕ
  pub valuation_ccy : String
  pub posted_by_a : Dict ℤ
  pub posted_by_b : Dict ℤ
  pub state : CsaState

-- `new Map(m)`
unfoldable pub map_of : Dict ℤ → Dict ℤ → Dict ℤ
unfolding insert
map_of [] m = m
map_of ((key, value) ∷ more) m = map_of more (insert key value m)

-- The loop over the signed balances.
unfoldable pub posted : Dict ℤ → Dict ℤ → Dict ℤ → Dict ℤ × Dict ℤ
unfolding insert
posted [] by_a by_b = (by_a, by_b)
posted ((ccy, n) ∷ rest) by_a by_b =
    let to_a = posted rest (insert ccy n by_a) by_b in
    let to_b = posted rest by_a (insert ccy (neg n) by_b) in
    let neither = posted rest (insert ccy (pos 0) by_a) (insert ccy (pos 0) by_b) in
    if ltb_ℤ (pos 0) n then to_a else if ltb_ℤ n (pos 0) then to_b else neither

abbrev view_of : CsaPayload → Option ℤ → Option ℤ → Option (Dict ℤ) → Option CsaViewModel
view_of p (some dir_a) (some dir_b) (some csb) =
    let sides = posted csb [] [] in
    some record {
      threshold_dir_a = dir_a;
      threshold_dir_b = dir_b;
      mta = p.mta;
      rounding = p.rounding;
      valuation_ccy = p.valuation_ccy;
      posted_by_a = sides.0;
      posted_by_b = sides.1;
      state = p.state;
    }
view_of p _ _ _ = none

abbrev threshold_of : CsaPayload → String → Option ℤ
threshold_of p direction = elim p.threshold [
  | none ↦ none
  | some pairs ↦ lookup direction (map_of pairs [])
]

-- `decodeCsa`; `none` where it throws.
unfoldable pub decode_view : CsaPayload → Option CsaViewModel
unfolding map_of posted lookup
decode_view p = view_of p (threshold_of p "DirA") (threshold_of p "DirB") p.csb

pub data Side : Type 0 where
  side_a side_b : Side

pub record CallSignal : Type 0 where
  pub side : Side
  pub amount : ℕ

abbrev snapped : ⦃division : Division⦄ → ℤ → ℕ → ℤ
snapped raw zero = raw
snapped raw (suc r) = rounded_quotient raw (suc r) *ℤ pos (suc r)

-- `gateCall`
unfoldable pub gate_call : ⦃division : Division⦄ → ℤ → ℕ → ℕ → ℤ
gate_call raw mta rounding = if ltb (abs raw) mta then pos 0 else snapped raw rounding

abbrev balance : Dict ℤ → String → ℤ
balance m ccy = elim (lookup ccy m) [ none ↦ pos 0 | some n ↦ n ]

-- The signal of a gated amount.
abbrev pub signal : ℤ → Option CallSignal
signal (pos zero) = none
signal (pos (suc n)) = some record { side = side_a; amount = suc n }
signal (negsuc n) = some record { side = side_b; amount = suc n }

-- `computeCallSignal`
unfoldable pub compute_call_signal : ⦃division : Division⦄ → CsaViewModel → ℤ → Option CallSignal
unfolding gate_call lookup
compute_call_signal csa exposure =
    let from_a = max_zero (exposure -ℤ csa.threshold_dir_b) in
    let from_b = max_zero (neg exposure -ℤ csa.threshold_dir_a) in
    let posted_a = balance csa.posted_by_a csa.valuation_ccy in
    let posted_b = balance csa.posted_by_b csa.valuation_ccy in
    let current = posted_a -ℤ posted_b in
    signal (gate_call (from_a -ℤ from_b -ℤ current) csa.mta csa.rounding)
