-- ===== src/Oracle/Marks/Netting.antt =====
-- oracle/src/services/mark-publisher/netting-set.ts and compute.ts: which swaps a CSA nets, and
-- the exposure that they add up to. Values are integers in a unit that doubles
-- hold exactly.
use irsforge.Base.{
  ℕ, Option, none, some, String, List, [], ◌∷◌, map, Bool, true, false, not, ◌&&◌, ◌||◌, ◌==◌,
  if◌then◌else◌, filter,
}
use irsforge.Base.Int.{ℤ, pos, ◌+ℤ◌, neg}
pub mod Laws

-- What the oracle reads of a `SwapWorkflow` contract.
pub record SwapWorkflow : Type 0 where
  pub contract_id : String
  pub party_a : String
  pub party_b : String
  pub swap_type : String

pub record CsaKey : Type 0 where
  pub contract_id : String
  pub party_a : String
  pub party_b : String

pub record NettedSwap : Type 0 where
  pub swap : SwapWorkflow
  pub reversed : Bool

pub record NettingSetEntry : Type 0 where
  pub csa_cid : String
  pub party_a : String
  pub party_b : String
  pub swaps : List NettedSwap

unfoldable pub pair_matches : SwapWorkflow → String → String → Bool
pair_matches w a b = (w.party_a == a && w.party_b == b) || (w.party_a == b && w.party_b == a)

abbrev pub tagged : String → SwapWorkflow → NettedSwap
tagged a w = record { swap = w; reversed = not (w.party_a == a) }

unfoldable pub netted_swaps : List SwapWorkflow → String → String → List NettedSwap
netted_swaps workflows a b = map (tagged a) (filter (λ w. pair_matches w a b) workflows)

unfoldable pub group_by_netting_set : List CsaKey → List SwapWorkflow → List NettingSetEntry
unfolding netted_swaps
group_by_netting_set csas workflows =
    map
      (λ c. record {
        csa_cid = c.contract_id;
        party_a = c.party_a;
        party_b = c.party_b;
        swaps = netted_swaps workflows c.party_a c.party_b;
      })
      csas

pub record SwapPv : Type 0 where
  pub swap_cid : String
  pub pv : ℤ

pub record MarkComputation : Type 0 where
  pub exposure : ℤ
  pub as_of : String
  pub swap_pvs : List SwapPv

abbrev pub signed_pv : NettedSwap → ℤ → SwapPv
signed_pv s npv = record { swap_cid = s.swap.contract_id; pv = if s.reversed then neg npv else npv }

-- `swapPvs.reduce((acc, x) => acc + x.pv, 0)`
unfoldable pub sum_pvs : ℤ → List SwapPv → ℤ
sum_pvs acc [] = acc
sum_pvs acc (x ∷ xs) = sum_pvs (acc +ℤ x.pv) xs

-- `price cid` is the value that the pricing engine gives the swap in its own frame; `none` where
-- the swap cannot be resolved or priced.
module _ (price : String → Option ℤ) where
  -- `Promise.all` over the swaps: it fails if one of them does.
  unfoldable pub all_pvs : List NettedSwap → Option (List SwapPv)
  all_pvs [] = some []
  all_pvs (s ∷ ss) = elim (price s.swap.contract_id) [
    | none ↦ none
    | some npv ↦ elim (all_pvs ss) [ none ↦ none | some pvs ↦ some (signed_pv s npv ∷ pvs) ]
  ]

  unfoldable pub compute_mark : NettingSetEntry → String → Option MarkComputation
  compute_mark netting as_of = elim (all_pvs netting.swaps) [
    | none ↦ none
    | some pvs ↦
        some (record { exposure = neg (sum_pvs (pos 0) pvs); as_of = as_of; swap_pvs = pvs })
  ]
