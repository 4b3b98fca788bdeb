-- ===== src/Oracle/Lifecycle/SettleNet/Complete.antt =====
-- Nothing that is due is left out of a netted settlement.
use irsforge.Base.{
  ◌≡◌, refl, sym, ap, Option, none, some, String, List, [], ◌∷◌, true, false, includes,
  Option-cases, inl, inr, arith,
}
use mathlib.Core.List.{Memᴰ}
use mathlib.Core.Path.{subst}
use irsforge.Base.Dict.{Dict}
use irsforge.Base.Members.{mem-snoc, mem-snoc_last}
use irsforge.Oracle.Lifecycle.Rows.{Swap, Effect, consumed_by}
use irsforge.Oracle.Lifecycle.Holdings.{
  FungibleRow, CcyHoldings, group_by, resolve_all_currency_holdings,
}
use irsforge.Oracle.Lifecycle.Holdings.Laws.{StandsIn, group_by-StandsIn}
use irsforge.Oracle.Lifecycle.SettleNet.{
  CsaRow, NetEntry, SettleNet, Ledger, Loop, in_csa, build_entries, csa_swaps, insts_of,
  unsettled_of, settle_entries, settle_bins, settle_effects, settle_when, settle_one, settle_all,
  settle_net_tick,
}
use irsforge.Oracle.Lifecycle.SettleNet.Groups.{mem-filter, Known, inst_to_swap-Known}
use irsforge.Oracle.Lifecycle.SettleNet.Entries.{Covered, build_entries-covers}

module _ (ledger : Ledger) where
  -- A settlement of the CSA, at the time of the effect, that covers it was sent.
  abbrev pub IsSent : CsaRow → Effect → Loop → Type 0
  IsSent csa x s =
      (c : SettleNet) × Memᴰ c s.sent
      × (c.csa_cid ≡ csa.contract_id)
      × (c.payment_timestamp ≡ x.event_time)
      × Covered x c.entries

  -- What was sent stays sent.
  settle_entries-kept :
      (csa : CsaRow) (holdings : List CcyHoldings) (ts : String) (o : Option (List NetEntry))
      (s : Loop) (c : SettleNet)
      → Memᴰ c s.sent
      → Memᴰ c (settle_entries ledger csa holdings ts o s).sent
  settle_entries-kept csa holdings ts none s c m = m
  settle_entries-kept csa holdings ts (some ns) s c m = mem-snoc _ s.sent m

  settle_bins-kept :
      (csa : CsaRow) (holdings : List CcyHoldings) (bins : Dict (List Effect)) (s : Loop)
      (c : SettleNet)
      → Memᴰ c s.sent
      → Memᴰ c (settle_bins ledger csa holdings bins s).sent
  unfolding settle_bins
  settle_bins-kept csa holdings [] s c m = m
  settle_bins-kept csa holdings ((ts, es) ∷ bins) s c m = settle_bins-kept csa holdings bins _ c (
      settle_entries-kept csa holdings ts (build_entries es (insts_of ledger csa) csa.party_a) s c
        m)

  settle_when-kept :
      (csa : CsaRow) (ws : List Swap) (es : List Effect) (s : Loop) (c : SettleNet)
      → Memᴰ c s.sent
      → Memᴰ c (settle_when ledger csa ws es s).sent
  settle_when-kept csa [] es s c m = m
  settle_when-kept csa (w ∷ ws) [] s c m = m
  settle_when-kept csa (w ∷ ws) (e ∷ es) s c m =
      elim (Option-cases (ledger.holdings csa.contract_id)) [
        | inl failed ↦ rw (failed, settle_effects) m
        | inr (rows, read) ↦ rw (read, settle_effects) (settle_bins-kept csa _ _ s c m)
      ]

  settle_all-kept :
      (csas : List CsaRow) (s : Loop) (c : SettleNet)
      → Memᴰ c s.sent
      → Memᴰ c (settle_all ledger csas s).sent
  unfolding settle_all settle_one
  settle_all-kept [] s c m = m
  settle_all-kept (csa ∷ csas) s c m =
      settle_all-kept csas (settle_one ledger csa s) c
        (settle_when-kept csa (csa_swaps ledger csa) (unsettled_of ledger csa) s c m)

  settle_bins-sends :
      (csa : CsaRow) (holdings : List CcyHoldings) (bins : Dict (List Effect)) (s : Loop)
      (x : Effect)
      → Known (insts_of ledger csa) x.target
      → StandsIn x x.event_time bins
      → IsSent csa x (settle_bins ledger csa holdings bins s)
  unfolding settle_bins
  settle_bins-sends csa holdings [] s x k (xs, at, m) = elim at [ ]
  settle_bins-sends csa holdings ((ts, es) ∷ bins) s x k (xs, Memᴰ.head same, m) =
      let (ns, made, covers) =
        build_entries-covers (insts_of ledger csa) csa.party_a es x (subst (λ g. Memᴰ x g.1) same m)
          k in
      let c : SettleNet = record {
        csa_cid = csa.contract_id;
        payment_timestamp = ts;
        entries = ns;
        holdings = holdings;
      } in
      (
        c,
        settle_bins-kept csa holdings bins _ c (rw made (mem-snoc_last s.sent c)),
        refl,
        sym (ap (λ g. g.0) same),
        covers,
      )
  settle_bins-sends csa holdings ((ts, es) ∷ bins) s x k (xs, Memᴰ.tail at, m) =
      settle_bins-sends csa holdings bins _ x k (xs, at, m)

  settle_when-sends :
      (csa : CsaRow) (ws : List Swap) (es : List Effect) (s : Loop) (w : Swap) (x : Effect)
      (rows : List FungibleRow)
      → Memᴰ w ws
      → Memᴰ x es
      → Known (insts_of ledger csa) x.target
      → ledger.holdings csa.contract_id ≡ some rows
      → IsSent csa x (settle_when ledger csa ws es s)
  settle_when-sends csa [] es s w x rows wm m k read = elim wm [ ]
  settle_when-sends csa (v ∷ ws) [] s w x rows wm m k read = elim m [ ]
  settle_when-sends csa (v ∷ ws) (e ∷ es) s w x rows wm m k read =
      rw (read, settle_effects)
        (settle_bins-sends csa (resolve_all_currency_holdings rows csa.party_a csa.party_b)
          (group_by (λ y. y.event_time) (e ∷ es) []) s x k
          (group_by-StandsIn (λ y. y.event_time) (e ∷ es) x [] m))

  -- An effect that is due on a swap of a CSA: no batch has settled it.
  pub record IsDue (csa : CsaRow) (w : Swap) (x : Effect) : Type 0 where
    pub swap_listed : Memᴰ w ledger.swaps
    pub paired : in_csa csa w ≡ true
    pub effect_listed : Memᴰ x ledger.effects
    pub of_swap : w.instrument_key.id ≡ x.target
    pub unsettled : includes x.contract_id (consumed_by ledger.batches) ≡ false

  settle_one-sends :
      (csa : CsaRow) (s : Loop) (w : Swap) (x : Effect) (rows : List FungibleRow)
      → IsDue csa w x
      → ledger.holdings csa.contract_id ≡ some rows
      → IsSent csa x (settle_one ledger csa s)
  unfolding settle_one unsettled_of
  settle_one-sends csa s w x rows d read =
      let in_swaps = mem-filter (in_csa csa) ledger.swaps w d.swap_listed d.paired in
      let known : Known (insts_of ledger csa) x.target =
        subst (Known (insts_of ledger csa)) d.of_swap
          (inst_to_swap-Known (csa_swaps ledger csa) [] w in_swaps) in
      settle_when-sends csa (csa_swaps ledger csa) (unsettled_of ledger csa) s w x rows in_swaps
        (mem-filter _ ledger.effects x d.effect_listed (ground (arith, known.1, d.unsettled))) known
        read

  settle_all-sends :
      (csas : List CsaRow) (s : Loop) (csa : CsaRow) (w : Swap) (x : Effect)
      (rows : List FungibleRow)
      → Memᴰ csa csas
      → IsDue csa w x
      → ledger.holdings csa.contract_id ≡ some rows
      → IsSent csa x (settle_all ledger csas s)
  unfolding settle_all
  settle_all-sends [] s csa w x rows m d read = elim m [ ]
  settle_all-sends (c ∷ csas) s csa w x rows (Memᴰ.head same) d read =
      let (command, sent, for_csa, timed, covers) = settle_one-sends csa s w x rows d read in
      (
        command,
        settle_all-kept csas (settle_one ledger c s) command
            (subst (λ y. Memᴰ command (settle_one ledger y s).sent) same sent),
        for_csa,
        timed,
        covers,
      )
  settle_all-sends (c ∷ csas) s csa w x rows (Memᴰ.tail m) d read =
      settle_all-sends csas (settle_one ledger c s) csa w x rows m d read

  -- For every CSA of the ledger whose holdings can be read, and every effect on the instrument of a
  -- swap between its two parties that no batch has settled: the tick sends a settlement of that
  -- CSA, at the time of the effect, with an entry that covers the effect.
  pub settle_net_tick_complete :
      (csa : CsaRow) (w : Swap) (x : Effect) (rows : List FungibleRow)
      → Memᴰ csa ledger.csas
      → IsDue csa w x
      → ledger.holdings csa.contract_id ≡ some rows
      → IsSent csa x (settle_net_tick ledger)
  unfolding settle_net_tick
  settle_net_tick_complete csa w x rows m d read =
      settle_all-sends ledger.csas _ csa w x rows m d read
