-- ===== src/Oracle/Lifecycle/SettleNet/Sound.antt =====
-- What a netted settlement covers, over a whole tick.
use irsforge.Base.{
  ◌≡◌, refl, Option, none, some, String, List, [], ◌∷◌, All, All-snoc, All-map, Option-cases, inl,
  inr, arith,
}
use mathlib.Core.List.{Memᴰ}
use irsforge.Base.Dict.{Dict}
use irsforge.Base.Members.{All-listed, filter-All}
use irsforge.Oracle.Lifecycle.Rows.{Swap, Effect}
use irsforge.Oracle.Lifecycle.Holdings.{CcyHoldings, group_by, resolve_all_currency_holdings}
use irsforge.Oracle.Lifecycle.Holdings.Laws.{Grouped, group_by-Grouped}
use irsforge.Oracle.Lifecycle.SettleNet.{
  CsaRow, NetEntry, SettleNet, Ledger, Loop, build_entries, csa_swaps, insts_of, unsettled_of,
  settle_entries, settle_bins, settle_effects, settle_when, settle_one, settle_all, settle_net_tick,
}
use irsforge.Oracle.Lifecycle.SettleNet.Laws.{IsOpen, IsEntry, build_entries-IsEntry}

-- What every settlement that is sent rests on.
pub record IsNet (ledger : Ledger) (c : SettleNet) : Type 0 where
  pub csa : CsaRow
  pub listed : Memᴰ csa ledger.csas
  pub for_csa : c.csa_cid ≡ csa.contract_id
  pub entries : All (IsEntry ledger csa c.payment_timestamp) c.entries

module _ (ledger : Ledger) where
  abbrev AllNet : Loop → Type 0
  AllNet s = All (IsNet ledger) s.sent

  module _ (csa : CsaRow) (m : Memᴰ csa ledger.csas) where
    settle_entries-AllNet :
        (holdings : List CcyHoldings) (ts : String) (o : Option (List NetEntry)) (s : Loop)
        → ((ns : List NetEntry) → o ≡ some ns → All (IsEntry ledger csa ts) ns)
        → AllNet s
        → AllNet (settle_entries ledger csa holdings ts o s)
    settle_entries-AllNet holdings ts none s g h = h
    settle_entries-AllNet holdings ts (some ns) s g h =
        All-snoc (IsNet ledger) s.sent _ h
          (record { csa = csa; listed = m; for_csa = refl; entries = g ns refl })

    settle_bins-AllNet :
        (holdings : List CcyHoldings) (bins : Dict (List Effect)) (s : Loop)
        → Grouped (IsOpen ledger csa) bins
        → AllNet s
        → AllNet (settle_bins ledger csa holdings bins s)
    unfolding settle_bins
    settle_bins-AllNet holdings [] s g h = h
    settle_bins-AllNet holdings ((ts, es) ∷ bins) s (g, gs) h =
        settle_bins-AllNet holdings bins _ gs (
          settle_entries-AllNet holdings ts (build_entries es (insts_of ledger csa) csa.party_a) s
            (λ ns e. build_entries-IsEntry ledger csa ts es ns g e) h)

    settle_effects-AllNet :
        (es : List Effect) (s : Loop)
        → All (λ e. IsOpen ledger csa e.event_time e) es
        → AllNet s
        → AllNet (settle_effects ledger csa es s)
    settle_effects-AllNet es s o h = elim (Option-cases (ledger.holdings csa.contract_id)) [
      | inl failed ↦ rw (failed, settle_effects) h
      | inr (rows, read) ↦
          rw (read, settle_effects)
            (settle_bins-AllNet (resolve_all_currency_holdings rows csa.party_a csa.party_b)
              (group_by (λ e. e.event_time) es []) s
              (group_by-Grouped (IsOpen ledger csa) (λ e. e.event_time) es [] o tt) h)
    ]

    settle_when-AllNet :
        (ws : List Swap) (es : List Effect) (s : Loop)
        → All (λ e. IsOpen ledger csa e.event_time e) es
        → AllNet s
        → AllNet (settle_when ledger csa ws es s)
    settle_when-AllNet [] es s o h = h
    settle_when-AllNet (w ∷ ws) [] s o h = h
    settle_when-AllNet (w ∷ ws) (e ∷ es) s o h = settle_effects-AllNet (e ∷ es) s o h

    unsettled_of-IsOpen : All (λ e. IsOpen ledger csa e.event_time e) (unsettled_of ledger csa)
    unfolding unsettled_of
    unsettled_of-IsOpen =
        All-map (λ e p. (p.0, refl, ground (arith, p.1))) (unsettled_of ledger csa)
          (filter-All (λ e. Memᴰ e ledger.effects) _ ledger.effects (All-listed ledger.effects))

  settle_all-AllNet :
      (csas : List CsaRow) (s : Loop)
      → All (λ c. Memᴰ c ledger.csas) csas
      → AllNet s
      → AllNet (settle_all ledger csas s)
  unfolding settle_all settle_one
  settle_all-AllNet [] s ms h = h
  settle_all-AllNet (csa ∷ csas) s (m, ms) h = settle_all-AllNet csas (settle_one ledger csa s) ms (
      settle_when-AllNet csa m (csa_swaps ledger csa) (unsettled_of ledger csa) s
        (unsettled_of-IsOpen csa m) h)

  -- Every settlement that a tick sends is for a CSA of the ledger; each of its entries is for a
  -- swap between the two parties of that CSA, marked as reversed exactly where the swap names them
  -- the other way round, and covers only effects of the ledger at the settlement's payment time
  -- that no batch has settled, on the instrument of a swap of the CSA with the entry's contract.
  pub settle_net_tick_sound : All (IsNet ledger) (settle_net_tick ledger).sent
  unfolding settle_net_tick
  settle_net_tick_sound = settle_all-AllNet ledger.csas _ (All-listed ledger.csas) tt
