-- ===== src/Oracle/Lifecycle/SettleNet/Entries.antt =====
-- The entries of one settlement cover all its effects.
use irsforge.Base.{
  ◌≡◌, refl, ap, some, String, List, [], ◌∷◌, map, not, ◌==◌, All, Option-cases, inl, inr, arith,
}
use mathlib.Core.List.{Memᴰ}
use mathlib.Core.Path.{subst}
use irsforge.Base.Dict.{Dict, lookup}
use irsforge.Oracle.Lifecycle.Rows.{Swap, Effect}
use irsforge.Oracle.Lifecycle.Holdings.Laws.{StandsIn}
use irsforge.Oracle.Lifecycle.SettleNet.{NetEntry, by_swap, entry_of, entries_of, build_entries}
use irsforge.Oracle.Lifecycle.SettleNet.Groups.{Known, by_swap-StandsIn, Starts, by_swap-Starts}

mem-cids :
    (x : Effect) (es : List Effect) → Memᴰ x es → Memᴰ x.contract_id (map (λ y. y.contract_id) es)
mem-cids x [] m = elim m [ ]
mem-cids x (e ∷ es) (Memᴰ.head same) = Memᴰ.head (ap (λ y. y.contract_id) same)
mem-cids x (e ∷ es) (Memᴰ.tail m) = Memᴰ.tail (mem-cids x es m)

-- An effect is covered by one of the entries.
abbrev pub Covered : Effect → List NetEntry → Type 0
Covered x ns = (n : NetEntry) × Memᴰ n ns × Memᴰ x.contract_id n.effect_cids

module _ (insts : Dict Swap) (party_a : String) where
  entry_of-covers :
      (cid : String) (es : List Effect) (n : NetEntry) (x : Effect)
      → entry_of insts party_a cid es ≡ some n
      → Memᴰ x es
      → Memᴰ x.contract_id n.effect_cids
  entry_of-covers cid [] n x h m = elim m [ ]
  entry_of-covers cid (e ∷ es) n x h m = elim (Option-cases (lookup e.target insts)) [
    | inl unknown ↦ absurd (ground arith)
    | inr (w, at) ↦
        let q : map (λ y. y.contract_id) (e ∷ es) ≡ n.effect_cids = ground arith in
        subst (Memᴰ x.contract_id) q (mem-cids x (e ∷ es) m)
  ]

  entry_of-some :
      (cid : String) (es : List Effect)
      → Starts insts es
      → (n : NetEntry) × (entry_of insts party_a cid es ≡ some n)
  entry_of-some cid [] h = absurd h
  entry_of-some cid (e ∷ es) (w, at) =
      let made : NetEntry = record {
        swap_workflow_cid = cid;
        effect_cids = map (λ x. x.contract_id) (e ∷ es);
        instrument_key = w.instrument_key;
        reversed = not (w.party_a == party_a);
      } in
      (made, rw (at, entry_of) refl)

  entries_of-some :
      (groups : Dict (List Effect))
      → All (λ g. Starts insts g.1) groups
      → (ns : List NetEntry) × (entries_of insts party_a groups ≡ some ns)
  unfolding entries_of
  entries_of-some [] h = ([], refl)
  entries_of-some ((cid, es) ∷ groups) (p, h) =
      let (n, one) = entry_of-some cid es p in
      let (ns, others) = entries_of-some groups h in (n ∷ ns, ground arith)

  entries_of-covers :
      (groups : Dict (List Effect)) (ns : List NetEntry) (x : Effect) (cid : String)
      → entries_of insts party_a groups ≡ some ns
      → StandsIn x cid groups
      → Covered x ns
  unfolding entries_of
  entries_of-covers [] ns x cid h (xs, at, m) = elim at [ ]
  entries_of-covers ((c, es) ∷ groups) [] x cid h (xs, at, m) =
      elim (Option-cases (entry_of insts party_a c es)) [
        | inl failed ↦ absurd (ground arith)
        | inr (n, one) ↦ elim (Option-cases (entries_of insts party_a groups)) [
          | inl failed ↦ absurd (ground arith)
          | inr (rest, others) ↦ absurd (ground arith)
        ]
      ]
  entries_of-covers ((c, es) ∷ groups) (n ∷ ns) x cid h (xs, Memᴰ.head same, m) =
      let one : entry_of insts party_a c es ≡ some n = ground arith in
      (n, Memᴰ.head refl, entry_of-covers c es n x one (subst (λ g. Memᴰ x g.1) same m))
  entries_of-covers ((c, es) ∷ groups) (n ∷ ns) x cid h (xs, Memᴰ.tail at, m) =
      let others : entries_of insts party_a groups ≡ some ns = ground arith in
      let (k, k_in, k_covers) = entries_of-covers groups ns x cid others (xs, at, m) in
      (k, Memᴰ.tail k_in, k_covers)

  pub build_entries-covers :
      (es : List Effect) (x : Effect)
      → Memᴰ x es
      → Known insts x.target
      → (ns : List NetEntry) × (build_entries es insts party_a ≡ some ns) × Covered x ns
  unfolding build_entries
  build_entries-covers es x m (w, at) =
      let (ns, made) = entries_of-some (by_swap insts es []) (by_swap-Starts insts es [] tt) in
      (
        ns,
        made,
        entries_of-covers (by_swap insts es []) ns x w.contract_id made
            (by_swap-StandsIn insts es x w [] m at),
      )
