-- ===== src/Oracle/Lifecycle/Holdings.antt =====
-- oracle/src/services/scheduler/holdings-resolver.ts: for each currency the holding of each of
-- two parties. An amount is an integer in the smallest unit of its currency.
use irsforge.Base.{
  ℕ, Option, none, some, String, List, [], ◌∷◌, ◌++◌, Bool, true, false, not, ◌==◌, if◌then◌else◌,
  filter,
}
use irsforge.Base.Int.{ℤ, leb_ℤ}
use irsforge.Base.Dict.{Dict, lookup, insert}
use irsforge.Oracle.Lifecycle.Rows.{InstrumentKey}
pub mod Laws

pub record AccountKey : Type 0 where
  pub custodian : String
  pub owner : String
  pub id : String

pub record FungibleRow : Type 0 where
  pub contract_id : String
  pub instrument : InstrumentKey
  pub account : AccountKey
  pub amount : ℤ

pub record CcyHoldings : Type 0 where
  pub currency : String
  pub instrument_key : InstrumentKey
  pub party_a_holding_cid : String
  pub party_b_holding_cid : String
  pub party_a_account_key : AccountKey
  pub party_b_account_key : AccountKey

-- `if (!m.has(k)) m.set(k, []); m.get(k)?.push(x)`
unfoldable pub push_to {ℓ} : {A : Type ℓ} → String → A → Dict (List A) → Dict (List A)
push_to k x [] = (k, x ∷ []) ∷ []
push_to k x ((j, xs) ∷ m) = if j == k then (j, xs ++ x ∷ []) ∷ m else (j, xs) ∷ push_to k x m

-- The rows by a key, keys and rows in the order of the list.
unfoldable pub group_by {ℓ} : {A : Type ℓ} → (A → String) → List A → Dict (List A) → Dict (List A)
unfolding push_to
group_by key [] m = m
group_by key (x ∷ xs) m = group_by key xs (push_to (key x) x m)

-- `hs.reduce(…)`: the last of the largest. The list is `h ∷ hs`.
unfoldable pub pick_largest : FungibleRow → List FungibleRow → FungibleRow
pick_largest best [] = best
pick_largest best (cur ∷ hs) = pick_largest (if leb_ℤ best.amount cur.amount then cur else best) hs

abbrev owned_by : String → List FungibleRow → List FungibleRow
owned_by party hs = filter (λ h. h.account.owner == party) hs

abbrev holdings_of : String → List FungibleRow → List FungibleRow → List CcyHoldings
holdings_of ccy (h ∷ hs) (k ∷ ks) =
    let a = pick_largest h hs in
    let b = pick_largest k ks in
    record {
      currency = ccy;
      instrument_key = a.instrument;
      party_a_holding_cid = a.contract_id;
      party_b_holding_cid = b.contract_id;
      party_a_account_key = a.account;
      party_b_account_key = b.account;
    }
    ∷ []
holdings_of ccy _ _ = []

unfoldable pub resolve_groups : String → String → Dict (List FungibleRow) → List CcyHoldings
unfolding pick_largest
resolve_groups a b [] = []
resolve_groups a b ((ccy, hs) ∷ rest) =
    holdings_of ccy (owned_by a hs) (owned_by b hs) ++ resolve_groups a b rest

unfoldable pub resolve_all_currency_holdings : List FungibleRow → String → String → List CcyHoldings
unfolding resolve_groups group_by
resolve_all_currency_holdings rows a b =
    resolve_groups a b (group_by (λ r. r.instrument.id) rows [])
