-- ===== src/Oracle/Marks/Publisher/Tick.antt =====
-- oracle/src/services/mark-publisher/index.ts: one pass over all CSAs.
use irsforge.Base.{
  ℕ, suc, ◌+◌, ◌≤◌, ◌≡◌, refl, Option, none, some, String, List, [], ◌∷◌, map, Bool, true, false,
  ◌||◌, ◌==◌, if◌then◌else◌, find, any, length, arith, Option-cases, inl, inr, ◌≢◌, eq_refl,
}
use irsforge.Base.Int.{ℤ}
use mathlib.Core.List.{Memᴰ}
use irsforge.Oracle.Marks.Netting.{
  SwapWorkflow, CsaKey, NettingSetEntry, group_by_netting_set, compute_mark,
}
use irsforge.Oracle.Marks.Csa.{CsaPayload, DecodedCsa, decode_csa}
use irsforge.Base.Double.{Division}
use irsforge.Oracle.Marks.Publisher.{LedgerClient, publish_and_maybe_settle}

pub record SnapshotKey : Type 0 where
  pub curve_cids : List String
  pub index_cids : List String
  pub observation_cutoff : String
  pub swap_cids : List String
  pub book_curve_cids : Option (List String)
  pub fx_spot_cids : Option (List String)

-- What a pass reads and calls: the ledger's answers to its queries (`none` where the query of the
-- spot rates fails), the clock at each CSA's round, and as parameters the pricing context of a snapshot (`none` where
-- it cannot be built) with the pricing of a swap in it, and the text of a snapshot.
pub record TickDeps : Type 0 where
  pub client : LedgerClient
  pub csas : List (String × CsaPayload)
  pub workflows : List SwapWorkflow
  pub curve_cids : List String
  pub index_cids : List String
  pub query_fx : Option (List String)
  pub as_of : String → String
  pub price_in : SnapshotKey → String → Option (String → Option ℤ)
  pub build_snapshot : SnapshotKey → String

pub record TickResult : Type 0 where
  pub marked : ℕ
  pub settled : ℕ
  pub errors : ℕ

unfoldable pub needs_fx : String → Bool
needs_fx t = t == "XCCY" || t == "FPML" || t == "FpML" || t == "BASIS"

infixl 5 ◌>>=◌
abbrev ◌>>=◌ : {A B : Type 0} → Option A → (A → Option B) → Option B
none >>= k = none
some a >>= k = k a

-- `csasRaw.map(decodeCsa)`, which throws where one of them does.
unfoldable pub decode_all : List (String × CsaPayload) → Option (List DecodedCsa)
decode_all [] = some []
decode_all ((cid, p) ∷ rest) = do d ← decode_csa cid p; ds ← decode_all rest; some (d ∷ ds)

abbrev csa_key : DecodedCsa → CsaKey
csa_key d = record { contract_id = d.contract_id; party_a = d.party_a; party_b = d.party_b }

module _ ⦃division : Division⦄ (deps : TickDeps) where
  -- `if (csaNeedsFx && fxSpotCids === null) …`: the spot rates that are kept after this round, or
  -- the throw of their query.
  unfoldable pub load_fx : Bool → Option (List String) → Option (Option (List String))
  load_fx true none = do cids ← deps.query_fx; some (some cids)
  load_fx _ kept = some kept

  abbrev snapshot_key : String → NettingSetEntry → Bool → Option (List String) → SnapshotKey
  snapshot_key as_of ns fx kept = record {
    curve_cids = deps.curve_cids;
    index_cids = deps.index_cids;
    observation_cutoff = as_of;
    swap_cids = map (λ s. s.swap.contract_id) ns.swaps;
    book_curve_cids = if fx then some deps.curve_cids else none;
    fx_spot_cids = if fx then kept else none;
  }

  -- The body of the `try`, after the spot rates.
  unfoldable pub mark_one : DecodedCsa → NettingSetEntry → Bool → Option (List String) → Option Bool
  mark_one csa ns fx kept = do
    let as_of = deps.as_of csa.contract_id
    let key = snapshot_key as_of ns fx kept
    price ← deps.price_in key csa.valuation_ccy
    mc ← compute_mark price ns as_of
    r ← (publish_and_maybe_settle deps.client csa mc (deps.build_snapshot key)).result
    some r.settled

  abbrev counted : Option Bool → TickResult → TickResult
  counted none t = record t { errors = suc t.errors }
  counted (some true) t = record t { marked = suc t.marked; settled = suc t.settled }
  counted (some false) t = record t { marked = suc t.marked }

  -- One round of the loop, on the spot rates that are kept and the counts.
  unfoldable pub tick_one :
      List NettingSetEntry
      → DecodedCsa
      → Option (List String) × TickResult
      → Option (List String) × TickResult
  tick_one sets csa (kept, t) = elim (find (λ n. n.csa_cid == csa.contract_id) sets) [
    | none ↦ (kept, t)
    | some ns ↦
        let fx = any (λ s. needs_fx s.swap.swap_type) ns.swaps in
        elim (load_fx fx kept) [
          | none ↦ (kept, counted none t)
          | some kept' ↦ (kept', counted (mark_one csa ns fx kept') t)
        ]
  ]

  unfoldable pub tick_all :
      List NettingSetEntry → List DecodedCsa → Option (List String) × TickResult → TickResult
  tick_all sets [] (kept, t) = t
  tick_all sets (csa ∷ csas) acc = tick_all sets csas (tick_one sets csa acc)

  -- `tick`; `none` where it throws.
  unfoldable pub mark_tick : Option TickResult
  mark_tick = do
    csas ← decode_all deps.csas
    let sets = group_by_netting_set (map csa_key csas) deps.workflows
    some (tick_all sets csas (none, record { marked = 0; settled = 0; errors = 0 }))

  -- The entry of a CSA that was decoded is among the netting sets.
  group-has :
      (csas : List DecodedCsa) (csa : DecodedCsa)
      → Memᴰ csa csas
      → find
          (λ n. n.csa_cid == csa.contract_id)
          (group_by_netting_set (map csa_key csas) deps.workflows)
        ≢ none
  unfolding group_by_netting_set
  group-has [] csa m = elim m [ ]
  group-has (d ∷ ds) csa (Memᴰ.head same) = rw same (ground (arith, eq_refl d.contract_id))
  group-has (d ∷ ds) csa (Memᴰ.tail m) = ground (arith, group-has ds csa m)

  abbrev handled : TickResult → ℕ
  handled t = t.marked + t.errors

  counted-handled :
      (r : Option Bool) (t : TickResult)
      → (handled (counted r t) ≡ suc (handled t))
        × (t.settled ≤ t.marked → (counted r t).settled ≤ (counted r t).marked)
  counted-handled none t = (omega arith, λ h. h)
  counted-handled (some true) t = (omega arith, λ h. omega arith)
  counted-handled (some false) t = (omega arith, λ h. omega arith)

  tick_one-handled :
      (sets : List NettingSetEntry) (csa : DecodedCsa) (acc : Option (List String) × TickResult)
      → find (λ n. n.csa_cid == csa.contract_id) sets ≢ none
      → (handled (tick_one sets csa acc).1 ≡ suc (handled acc.1))
        × (acc.1.settled ≤ acc.1.marked
            → (tick_one sets csa acc).1.settled ≤ (tick_one sets csa acc).1.marked)
  unfolding tick_one
  tick_one-handled sets csa (kept, t) h =
      elim (Option-cases (find (λ n. n.csa_cid == csa.contract_id) sets)) [
        | inl missing ↦ absurd (h missing)
        | inr (ns, found) ↦
            elim (Option-cases (load_fx (any (λ s. needs_fx s.swap.swap_type) ns.swaps) kept)) [
              | inl failed ↦ rw (found, failed, tick_one) (counted-handled none t)
              | inr (kept', loaded) ↦
                  rw (found, loaded, tick_one)
                    (counted-handled
                      (mark_one csa ns (any (λ s. needs_fx s.swap.swap_type) ns.swaps) kept') t)
            ]
      ]

  tick_all-handled :
      (sets : List NettingSetEntry) (csas : List DecodedCsa)
      (acc : Option (List String) × TickResult)
      → ((csa : DecodedCsa) → Memᴰ csa csas → find (λ n. n.csa_cid == csa.contract_id) sets ≢ none)
      → acc.1.settled ≤ acc.1.marked
      → let t = tick_all sets csas acc in
        (handled t ≡ handled acc.1 + length csas) × (t.settled ≤ t.marked)
  unfolding tick_all
  tick_all-handled sets [] (kept, t) all h = (omega arith, h)
  tick_all-handled sets (csa ∷ csas) acc all h =
      let (one, less) = tick_one-handled sets csa acc (all csa (Memᴰ.head refl)) in
      let (rest, below) =
        tick_all-handled sets csas (tick_one sets csa acc) (λ d m. all d (Memᴰ.tail m)) (less h) in
      (omega arith, below)

  length-decode_all :
      (raw : List (String × CsaPayload)) (ds : List DecodedCsa)
      → decode_all raw ≡ some ds
      → length ds ≡ length raw
  unfolding decode_all
  length-decode_all [] ds h = ground arith
  length-decode_all ((cid, p) ∷ rest) ds h = elim (Option-cases (decode_csa cid p)) [
    | inl bad ↦ absurd (ground arith)
    | inr (d, good) ↦ elim (Option-cases (decode_all rest)) [
      | inl bad ↦ absurd (ground arith)
      | inr (es, decoded) ↦ ground (arith, length-decode_all rest es decoded)
    ]
  ]

  -- Where every CSA can be decoded, a pass does not throw: it accounts for every CSA of the ledger,
  -- as marked or as an error, and settles no more than it marks.
  pub mark_tick_accounts :
      (ds : List DecodedCsa)
      → decode_all deps.csas ≡ some ds
      → (t : TickResult) × (mark_tick ≡ some t)
        × (t.marked + t.errors ≡ length deps.csas)
        × (t.settled ≤ t.marked)
  unfolding mark_tick
  mark_tick_accounts ds decoded =
      let sets = group_by_netting_set (map csa_key ds) deps.workflows in
      let begin : TickResult = record { marked = 0; settled = 0; errors = 0 } in
      let (all, below) = tick_all-handled sets ds (none, begin) (group-has ds) (omega arith) in
      (
        tick_all sets ds (none, begin),
        ground arith,
        omega (arith, all, length-decode_all deps.csas ds decoded),
        below,
      )
