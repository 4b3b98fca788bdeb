-- ===== src/Oracle/Marks/Publisher.antt =====
-- oracle/src/services/mark-publisher/publisher.ts and the loop of index.ts: publishing a mark
-- and, where it calls for it, settling variation margin.
use irsforge.Base.{
  ℕ, suc, ◌+◌, Option, none, some, String, List, [], ◌∷◌, ◌++◌, map, Bool, true, false, ◌&&◌, ◌||◌,
  ◌==◌, if◌then◌else◌, find, any,
}
use irsforge.Base.Int.{ℤ, pos, ◌-ℤ◌, is_zero}
use irsforge.Base.Dict.{Dict, lookup}
use irsforge.Base.Double.{Division}
use irsforge.Oracle.Marks.Formula.{RequiredPair, compute_required, gate_call}
use irsforge.Oracle.Marks.Netting.{
  SwapWorkflow, CsaKey, NettedSwap, NettingSetEntry, MarkComputation, group_by_netting_set,
  compute_mark,
}
use irsforge.Oracle.Marks.Csa.{
  CsaState, active, margin_call_outstanding, mark_disputed, escalated, CsaPayload, DecodedCsa,
  decode_csa, or_zero,
}
pub mod Laws
pub mod Tick

-- The exercises that the publisher sends to the ledger.
pub data Command : Type 0 where
  publish_mark : String → String → ℤ → String → Command
  settle_vm : String → Command

-- What `PublishMark` returns: the new contract of the CSA and the mark.
pub record Published : Type 0 where
  pub csa_cid : String
  pub mark_cid : String

-- The ledger is a parameter: `none` is an exercise that fails.
pub record LedgerClient : Type 0 where
  pub publish : String → String → ℤ → String → Option Published
  pub settle : String → Bool

pub record PublishResult : Type 0 where
  pub mark_cid : String
  pub settled : Bool

-- The commands that were sent, and the result; `none` where an exercise threw.
pub record Run : Type 0 where
  pub sent : List Command
  pub result : Option PublishResult

unfoldable pub is_disputed : CsaState → Bool
is_disputed mark_disputed = true
is_disputed escalated = true
is_disputed active = false
is_disputed margin_call_outstanding = false

unfoldable pub is_active : CsaState → Bool
is_active active = true
is_active margin_call_outstanding = false
is_active mark_disputed = false
is_active escalated = false

-- `gated`: the call that the mark leads to.
unfoldable pub gated_call : ⦃division : Division⦄ → DecodedCsa → ℤ → ℤ
unfolding compute_required gate_call
gated_call csa exposure =
    let req = compute_required exposure csa.threshold_dir_a csa.threshold_dir_b in
    let posted_a = or_zero (lookup csa.valuation_ccy csa.posted_by_a) in
    let posted_b = or_zero (lookup csa.valuation_ccy csa.posted_by_b) in
    gate_call (req.from_a -ℤ req.from_b -ℤ (posted_a -ℤ posted_b)) csa.mta csa.rounding

module _ ⦃division : Division⦄ (client : LedgerClient) where
  abbrev unsettled : List Command → String → Run
  unsettled sent mark_cid = record {
    sent = sent;
    result = some (record { mark_cid = mark_cid; settled = false });
  }

  abbrev settled_run : List Command → Published → Run
  settled_run sent p = record {
    sent = sent ++ settle_vm p.csa_cid ∷ [];
    result =
        if client.settle p.csa_cid
        then some (record { mark_cid = p.mark_cid; settled = true })
        else none;
  }

  abbrev after_publish : DecodedCsa → ℤ → List Command → Published → Run
  after_publish csa exposure sent p =
      if is_disputed csa.state
      then unsettled sent p.mark_cid
      else if is_zero (gated_call csa exposure) && is_active csa.state
      then unsettled sent p.mark_cid
      else settled_run sent p

  unfoldable pub publish_and_maybe_settle : DecodedCsa → MarkComputation → String → Run
  unfolding is_disputed is_active
  publish_and_maybe_settle csa mc snapshot =
      let sent = publish_mark csa.contract_id mc.as_of mc.exposure snapshot ∷ [] in
      elim (client.publish csa.contract_id mc.as_of mc.exposure snapshot) [
        | none ↦ record { sent = sent; result = none }
        | some p ↦ after_publish csa mc.exposure sent p
      ]
