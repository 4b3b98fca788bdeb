-- ===== src/Oracle/Marks/Publisher/Laws.antt =====
-- When variation margin is settled.
use irsforge.Base.{◌≡◌, none, some, String, [], ◌∷◌, true, false, if◌then◌else◌}
use irsforge.Base.Int.{ℤ, is_zero}
use irsforge.Base.Double.{Division}
use irsforge.Oracle.Marks.Netting.{MarkComputation}
use irsforge.Oracle.Marks.Csa.{CsaState, active, margin_call_outstanding, DecodedCsa}
use irsforge.Oracle.Marks.Publisher.{
  Command, publish_mark, settle_vm, Published, LedgerClient, Run, publish_and_maybe_settle,
}

-- The state and the call at which margin is to be settled: an active CSA with a call to make, or
-- one with a call outstanding, also where the call has become zero.
pub data MustSettle (call : ℤ) : CsaState → Type 0 where
  a_call : is_zero call ≡ false → MustSettle call active
  outstanding : MustSettle call margin_call_outstanding

module _ ⦃division : Division⦄ (client : LedgerClient) (csa : DecodedCsa) (mc : MarkComputation)
    (snapshot : String) where
  abbrev marked : Command
  marked = publish_mark csa.contract_id mc.as_of mc.exposure snapshot

  abbrev pub run : Run
  run = publish_and_maybe_settle client csa mc snapshot

  abbrev pub settling : Published → Run
  settling p = record {
    sent = marked ∷ settle_vm p.csa_cid ∷ [];
    result =
        if client.settle p.csa_cid
        then some (record { mark_cid = p.mark_cid; settled = true })
        else none;
  }

  abbrev pub resting : Published → Run
  resting p = record {
    sent = marked ∷ [];
    result = some (record { mark_cid = p.mark_cid; settled = false });
  }
