-- ===== src/Oracle/Marks/Csa.antt =====
-- oracle/src/services/mark-publisher/decode.ts: what the oracle reads of a CSA contract.
-- The decimal texts of the contract stand for integers in a unit that doubles hold exactly; the
-- contract ensures that the minimum transfer amount and the rounding are not negative. Fields
-- that are only copied are left out.
use irsforge.Base.{ℕ, Option, none, some, String, List, [], ◌∷◌, Bool, true, false, if◌then◌else◌}
use irsforge.Base.Int.{ℤ, pos, negsuc, neg, ltb_ℤ}
use irsforge.Base.Dict.{Dict, lookup, insert}
pub mod Laws

pub data CsaState : Type 0 where
  active margin_call_outstanding mark_disputed escalated : CsaState

-- `none` for a threshold or a balance that is not an array.
pub record CsaPayload : Type 0 where
  pub party_a : String
  pub party_b : String
  pub threshold : Option (Dict ℤ)
  pub csb : Option (Dict ℤ)
  pub mta : ℕ
  pub rounding : ℕ
  pub valuation_ccy : String
  pub state : CsaState

pub record DecodedCsa : Type 0 where
  pub contract_id : String
  pub party_a : String
  pub party_b : String
  pub threshold_dir_a : ℤ
  pub threshold_dir_b : ℤ
  pub mta : ℕ
  pub rounding : ℕ
  pub valuation_ccy : String
  pub posted_by_a : Dict ℤ
  pub posted_by_b : Dict ℤ
  pub state : CsaState

-- One round of the loop over the signed balances.
unfoldable pub post_one : String → ℤ → Dict ℤ × Dict ℤ → Dict ℤ × Dict ℤ
post_one ccy n (a, b) =
    if ltb_ℤ (pos 0) n
    then (insert ccy n a, b)
    else if ltb_ℤ n (pos 0)
    then (a, insert ccy (neg n) b)
    else (insert ccy (pos 0) a, insert ccy (pos 0) b)

unfoldable pub split_posted : Dict ℤ → Dict ℤ × Dict ℤ → Dict ℤ × Dict ℤ
split_posted [] posted = posted
split_posted ((ccy, n) ∷ csb) posted = split_posted csb (post_one ccy n posted)

-- `new Map(pairs)`
unfoldable pub from_pairs {ℓ} : {V : Type ℓ} → Dict V → Dict V → Dict V
from_pairs [] m = m
from_pairs ((k, v) ∷ rest) m = from_pairs rest (insert k v m)

infixl 5 ◌>>=◌
abbrev ◌>>=◌ : {A B : Type 0} → Option A → (A → Option B) → Option B
none >>= k = none
some a >>= k = k a

-- `none` where it throws.
unfoldable pub decode_csa : String → CsaPayload → Option DecodedCsa
unfolding from_pairs
decode_csa contract_id p = do
  pairs ← p.threshold
  thr_a ← lookup "DirA" (from_pairs pairs [])
  thr_b ← lookup "DirB" (from_pairs pairs [])
  csb ← p.csb
  let posted = split_posted csb ([], [])
  some (record {
    contract_id = contract_id;
    party_a = p.party_a;
    party_b = p.party_b;
    threshold_dir_a = thr_a;
    threshold_dir_b = thr_b;
    mta = p.mta;
    rounding = p.rounding;
    valuation_ccy = p.valuation_ccy;
    posted_by_a = posted.0;
    posted_by_b = posted.1;
    state = p.state;
  })

-- `map.get(ccy) ?? 0`
abbrev pub or_zero : Option ℤ → ℤ
or_zero none = pos 0
or_zero (some n) = n
