-- ===== src/Oracle/Lifecycle/SettleNet.antt =====
-- oracle/src/services/scheduler/settle-net.ts: netted settlement of the effects of each CSA.
use irsforge.Base.{
  ℕ, Option, none, some, String, List, [], ◌∷◌, ◌++◌, map, Bool, true, false, not, ◌&&◌, ◌||◌, ◌==◌,
  if◌then◌else◌, filter, includes,
}
use irsforge.Base.Dict.{Dict, lookup, insert, contains}
use irsforge.Oracle.Lifecycle.Rows.{
  InstrumentKey, Swap, Effect, Batch, consumed_by, TickResult, no_result, add_fired, add_skipped,
  add_error,
}
use irsforge.Oracle.Lifecycle.Holdings.{
  FungibleRow, CcyHoldings, push_to, group_by, resolve_all_currency_holdings,
}
use Prim.Native.String
pub mod Laws
pub mod Sound
pub mod Groups
pub mod Entries
pub mod Complete

pub record CsaRow : Type 0 where
  pub contract_id : String
  pub party_a : String
  pub party_b : String

-- An entry of the settlement of one swap.
pub record NetEntry : Type 0 where
  pub swap_workflow_cid : String
  pub effect_cids : List String
  pub instrument_key : InstrumentKey
  pub reversed : Bool

-- `SettleNetByScheduler` on a CSA.
pub record SettleNet : Type 0 where
  pub csa_cid : String
  pub payment_timestamp : String
  pub entries : List NetEntry
  pub holdings : List CcyHoldings

-- The ledger during one tick. `holdings` is the answer to the query of the holdings in a CSA's
-- round, `none` where it fails.
pub record Ledger : Type 0 where
  pub csas : List CsaRow
  pub swaps : List Swap
  pub effects : List Effect
  pub batches : List Batch
  pub holdings : String → Option (List FungibleRow)
  pub exercise : SettleNet → Bool

pub record Loop : Type 0 where
  pub sent : List SettleNet
  pub result : TickResult

unfoldable pub in_csa : CsaRow → Swap → Bool
in_csa csa s =
    (s.party_a == csa.party_a && s.party_b == csa.party_b)
    || (s.party_a == csa.party_b && s.party_b == csa.party_a)

-- `new Map(csaSwaps.map((s) => [s.payload.instrumentKey.id.unpack, s]))`
unfoldable pub inst_to_swap : List Swap → Dict Swap → Dict Swap
inst_to_swap [] m = m
inst_to_swap (s ∷ ss) m = inst_to_swap ss (insert s.instrument_key.id s m)

abbrev add_to_swap : Effect → Option Swap → Dict (List Effect) → Dict (List Effect)
add_to_swap e none m = m
add_to_swap e (some swap) m = push_to swap.contract_id e m

-- `bySwap`
unfoldable pub by_swap : Dict Swap → List Effect → Dict (List Effect) → Dict (List Effect)
by_swap insts [] m = m
by_swap insts (e ∷ es) m = by_swap insts es (add_to_swap e (lookup e.target insts) m)

-- One entry; `none` where the source reads a field of `undefined`.
abbrev entry_of : Dict Swap → String → String → List Effect → Option NetEntry
entry_of insts party_a cid [] = none
entry_of insts party_a cid (e ∷ es) = elim (lookup e.target insts) [
  | none ↦ none
  | some swap ↦ some (record {
    swap_workflow_cid = cid;
    effect_cids = map (λ x. x.contract_id) (e ∷ es);
    instrument_key = swap.instrument_key;
    reversed = not (swap.party_a == party_a);
  })
]

unfoldable pub entries_of : Dict Swap → String → Dict (List Effect) → Option (List NetEntry)
entries_of insts party_a [] = some []
entries_of insts party_a ((cid, es) ∷ groups) = elim (entry_of insts party_a cid es) [
  | none ↦ none
  | some n ↦ elim (entries_of insts party_a groups) [ none ↦ none | some ns ↦ some (n ∷ ns) ]
]

unfoldable pub build_entries : List Effect → Dict Swap → String → Option (List NetEntry)
unfolding by_swap
build_entries effects insts party_a = entries_of insts party_a (by_swap insts effects [])

abbrev pub bin_context : CsaRow → String → String
bin_context csa ts = String.◌++◌ "csa=" (String.◌++◌ csa.contract_id (String.◌++◌ " bin=" ts))

module _ (ledger : Ledger) where
  abbrev csa_swaps : CsaRow → List Swap
  csa_swaps csa = filter (in_csa csa) ledger.swaps

  abbrev insts_of : CsaRow → Dict Swap
  insts_of csa = inst_to_swap (csa_swaps csa) []

  unfoldable pub unsettled_of : CsaRow → List Effect
  unfolding consumed_by lookup inst_to_swap
  unsettled_of csa =
      filter
        (λ e.
          contains e.target (insts_of csa)
          && not (includes e.contract_id (consumed_by ledger.batches)))
        ledger.effects

  abbrev fail : String → Loop → Loop
  fail context s = record s { result = add_error context s.result }

  -- The body of the inner `try`.
  abbrev settle_entries : CsaRow → List CcyHoldings → String → Option (List NetEntry) → Loop → Loop
  settle_entries csa holdings ts none s = fail (bin_context csa ts) s
  settle_entries csa holdings ts (some entries) s =
      let command : SettleNet = record {
        csa_cid = csa.contract_id;
        payment_timestamp = ts;
        entries = entries;
        holdings = holdings;
      } in
      record {
        sent = s.sent ++ command ∷ [];
        result =
            if ledger.exercise command
            then add_fired s.result
            else add_error (bin_context csa ts) s.result;
      }

  unfoldable pub settle_bins : CsaRow → List CcyHoldings → Dict (List Effect) → Loop → Loop
  unfolding build_entries inst_to_swap
  settle_bins csa holdings [] s = s
  settle_bins csa holdings ((ts, es) ∷ bins) s =
      settle_bins csa holdings bins
        (settle_entries csa holdings ts (build_entries es (insts_of csa) csa.party_a) s)

  abbrev settle_effects : CsaRow → List Effect → Loop → Loop
  settle_effects csa effects s = elim (ledger.holdings csa.contract_id) [
    | none ↦ fail (String.◌++◌ "csa=" csa.contract_id) s
    | some rows ↦
        settle_bins csa (resolve_all_currency_holdings rows csa.party_a csa.party_b)
          (group_by (λ e. e.event_time) effects []) s
  ]

  abbrev settle_when : CsaRow → List Swap → List Effect → Loop → Loop
  settle_when csa [] effects s = record s { result = add_skipped s.result }
  settle_when csa (w ∷ ws) [] s = record s { result = add_skipped s.result }
  settle_when csa (w ∷ ws) (e ∷ es) s = settle_effects csa (e ∷ es) s

  unfoldable pub settle_one : CsaRow → Loop → Loop
  unfolding in_csa unsettled_of settle_bins group_by resolve_all_currency_holdings
  settle_one csa s = settle_when csa (csa_swaps csa) (unsettled_of csa) s

  unfoldable pub settle_all : List CsaRow → Loop → Loop
  settle_all [] s = s
  settle_all (csa ∷ csas) s = settle_all csas (settle_one csa s)

  unfoldable pub settle_net_tick : Loop
  settle_net_tick = settle_all ledger.csas (record { sent = []; result = no_result })
