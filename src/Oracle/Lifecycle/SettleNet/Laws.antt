-- ===== src/Oracle/Lifecycle/SettleNet/Laws.antt =====
-- What an entry of a netted settlement covers.
use irsforge.Base.{
  ◌≡◌, refl, sym, some, String, List, [], ◌∷◌, map, true, false, not, ◌==◌, eq_iff, includes, All,
  All-map, Bool-cases, Option-cases, inl, inr, arith,
}
use mathlib.Core.List.{Memᴰ}
use mathlib.Core.Path.{subst}
use irsforge.Base.Dict.{Dict, lookup, insert, lookup-insert}
use irsforge.Base.Members.{All-listed, filter-All, All-map_list}
use irsforge.Oracle.Lifecycle.Rows.{Swap, Effect, consumed_by}
use irsforge.Oracle.Lifecycle.Holdings.{push_to}
use irsforge.Oracle.Lifecycle.Holdings.Laws.{Grouped, push_to-Grouped}
use irsforge.Oracle.Lifecycle.SettleNet.{
  CsaRow, NetEntry, Ledger, in_csa, inst_to_swap, by_swap, entry_of, entries_of, build_entries,
  csa_swaps, insts_of,
}

-- A map from instruments to swaps holds only the swaps that it was made from, each under the id
-- of its instrument.
module _ (P : String → Swap → Type 0) where
  abbrev AllUnder : Dict Swap → Type 0
  AllUnder m = (k : String) (w : Swap) → lookup k m ≡ some w → P k w

  insert-AllUnder :
      (w : Swap) (m : Dict Swap)
      → P w.instrument_key.id w
      → AllUnder m
      → AllUnder (insert w.instrument_key.id w m)
  insert-AllUnder w m p h k x at = elim (Bool-cases (w.instrument_key.id == k)) [
    | inl same ↦
        let q : w ≡ x = ground (arith, lookup-insert w.instrument_key.id k w m) in
        subst (λ y. P k y) q (subst (λ j. P j w) ((eq_iff w.instrument_key.id k).0 same) p)
    | inr other ↦ h k x (ground (arith, lookup-insert w.instrument_key.id k w m))
  ]

  inst_to_swap-AllUnder :
      (ws : List Swap) (m : Dict Swap)
      → All (λ w. P w.instrument_key.id w) ws
      → AllUnder m
      → AllUnder (inst_to_swap ws m)
  unfolding inst_to_swap
  inst_to_swap-AllUnder [] m h g = g
  inst_to_swap-AllUnder (w ∷ ws) m (p, h) g =
      inst_to_swap-AllUnder ws (insert w.instrument_key.id w m) h (insert-AllUnder w m p g)

-- Effects grouped by swap: what holds of an effect and the swap of its instrument holds in every
-- group.
by_swap-Grouped :
    (P : String → Effect → Type 0) (insts : Dict Swap) (es : List Effect) (m : Dict (List Effect))
    → All (λ e. (w : Swap) → lookup e.target insts ≡ some w → P w.contract_id e) es
    → Grouped P m
    → Grouped P (by_swap insts es m)
unfolding by_swap
by_swap-Grouped P insts [] m h g = g
by_swap-Grouped P insts (e ∷ es) m (p, h) g = elim (Option-cases (lookup e.target insts)) [
  | inl unknown ↦ rw unknown (by_swap-Grouped P insts es m h g)
  | inr (w, at) ↦ rw at (
      by_swap-Grouped P insts es (push_to w.contract_id e m) h
        (push_to-Grouped P w.contract_id e m (p w at) g))
]

module _ (ledger : Ledger) (csa : CsaRow) where
  -- A swap of the ledger between the two parties of the CSA, in either order.
  abbrev pub IsCsaSwap : Swap → Type 0
  IsCsaSwap w = Memᴰ w ledger.swaps × (in_csa csa w ≡ true)

  -- An effect of the ledger that no batch has settled, at a payment time.
  abbrev pub IsOpen : String → Effect → Type 0
  IsOpen ts e =
      Memᴰ e ledger.effects
      × (e.event_time ≡ ts)
      × (includes e.contract_id (consumed_by ledger.batches) ≡ false)

  -- An entry is for a swap of the CSA, marked as reversed where the swap names the parties the
  -- other way round, and covers open effects of the payment time whose instrument is that of a
  -- swap of the CSA with this contract.
  pub record IsEntry (ts : String) (n : NetEntry) : Type 0 where
    pub swap : Swap
    pub paired : IsCsaSwap swap
    pub for_swap : n.swap_workflow_cid ≡ swap.contract_id
    pub same_key : n.instrument_key ≡ swap.instrument_key
    pub flag : n.reversed ≡ not (swap.party_a == csa.party_a)
    pub covers :
        All
          (λ cid.
            (e : Effect) × (e.contract_id ≡ cid)
            × IsOpen ts e
            × ((w : Swap) × IsCsaSwap w
                × (w.instrument_key.id ≡ e.target)
                × (w.contract_id ≡ n.swap_workflow_cid)))
          n.effect_cids

  abbrev Belongs : String → String → Effect → Type 0
  Belongs ts cid e =
      IsOpen ts e
      × ((w : Swap) × (lookup e.target (insts_of ledger csa) ≡ some w)
          × (IsCsaSwap w)
          × (w.instrument_key.id ≡ e.target)
          × (w.contract_id ≡ cid))

  insts_of-swap :
      (k : String) (w : Swap)
      → lookup k (insts_of ledger csa) ≡ some w
      → IsCsaSwap w × (w.instrument_key.id ≡ k)
  unfolding lookup
  insts_of-swap =
      inst_to_swap-AllUnder (λ k w. IsCsaSwap w × (w.instrument_key.id ≡ k)) (csa_swaps ledger csa)
        []
        (All-map (λ w p. (p, refl)) (csa_swaps ledger csa)
          (filter-All (λ w. Memᴰ w ledger.swaps) (in_csa csa) ledger.swaps
            (All-listed ledger.swaps)))
        (λ k w at. absurd (ground arith))

  entry_of-IsEntry :
      (ts cid : String) (es : List Effect) (n : NetEntry)
      → All (Belongs ts cid) es
      → entry_of (insts_of ledger csa) csa.party_a cid es ≡ some n
      → IsEntry ts n
  entry_of-IsEntry ts cid [] n b h = cc
  entry_of-IsEntry ts cid (e ∷ es) n (b, bs) h =
      let (open_effect, (w, at, in_pair, target, same)) = b in
      let made : NetEntry = record {
        swap_workflow_cid = cid;
        effect_cids = map (λ x. x.contract_id) (e ∷ es);
        instrument_key = w.instrument_key;
        reversed = not (w.party_a == csa.party_a);
      } in
      let q : made ≡ n = ground arith in
      subst (IsEntry ts) q (record {
        swap = w;
        paired = in_pair;
        for_swap = sym same;
        same_key = refl;
        flag = refl;
        covers =
            All-map_list (Belongs ts cid) _ (λ x. x.contract_id)
              (λ x p.
                let (o, (v, v_at, v_in, v_named, v_same)) = p in
                (x, refl, o, (v, v_in, v_named, v_same)))
              (e ∷ es) (b, bs);
      })

  entries_of-IsEntry :
      (ts : String) (groups : Dict (List Effect)) (ns : List NetEntry)
      → Grouped (Belongs ts) groups
      → entries_of (insts_of ledger csa) csa.party_a groups ≡ some ns
      → All (IsEntry ts) ns
  unfolding entries_of
  entries_of-IsEntry ts [] [] g h = tt
  entries_of-IsEntry ts [] (n ∷ ns) g h = cc
  entries_of-IsEntry ts ((cid, es) ∷ groups) ns (g, gs) h =
      elim (Option-cases (entry_of (insts_of ledger csa) csa.party_a cid es)) [
        | inl failed ↦ absurd (ground arith)
        | inr (n, one) ↦ elim (Option-cases (entries_of (insts_of ledger csa) csa.party_a groups)) [
          | inl failed ↦ absurd (ground arith)
          | inr (rest, others) ↦
              let q : n ∷ rest ≡ ns = ground arith in
              subst (All (IsEntry ts)) q
                (entry_of-IsEntry ts cid es n g one, entries_of-IsEntry ts groups rest gs others)
        ]
      ]

  pub build_entries-IsEntry :
      (ts : String) (es : List Effect) (ns : List NetEntry)
      → All (IsOpen ts) es
      → build_entries es (insts_of ledger csa) csa.party_a ≡ some ns
      → All (IsEntry ts) ns
  unfolding build_entries
  build_entries-IsEntry ts es ns o h =
      entries_of-IsEntry ts (by_swap (insts_of ledger csa) es []) ns
        (by_swap-Grouped (Belongs ts) (insts_of ledger csa) es []
          (All-map
            (λ e p w at.
              let (in_pair, named) = insts_of-swap e.target w at in
              (p, (w, at, in_pair, named, refl)))
            es o)
          tt)
        h
