-- ===== src/Oracle/Replay/Order.antt =====
-- Theorems on which index a context takes from its snapshot.
use irsforge.Base.{
  ℕ, ◌≡◌, ap, ◌∙◌, sym, Option, none, some, String, List, [], ◌∷◌, find, Option-cases, inl, inr,
  arith,
}
use irsforge.Base.Dict.{lookup}
use irsforge.Pricing.Types.{Platform, PricingContext}
use irsforge.Pricing.Fpml.{TextReader}
use irsforge.Oracle.Replay.{
  no_curve, no_index, done, ◌>>=◌, Row, by_id, SnapshotKey, IndexPayload, to_floating_rate_index,
  flatten_observations,
}
use irsforge.Oracle.Replay.Context.{
  MarketRows, payloads, is_discount_in, build_curve_book, when_given, fetch_fx_spots,
  build_context_from_snapshot, primary_index, observed,
}
use irsforge.Oracle.Replay.Laws.{bind-done, done_injective}

-- The contract of the first index of a list.
abbrev pub first_index : List (Row IndexPayload) → List String → Option IndexPayload
first_index rows [] = none
first_index rows (cid ∷ cids) = lookup cid (by_id rows [])

abbrev head_of : List IndexPayload → Option IndexPayload
head_of [] = none
head_of (p ∷ ps) = some p

payloads-first :
    (rows : List (Row IndexPayload)) (cids : List String) (ps : List IndexPayload)
    → payloads no_index (by_id rows []) cids ≡ done ps
    → first_index rows cids ≡ head_of ps
unfolding payloads
payloads-first rows [] ps h = ap head_of (done_injective _ _ h)
payloads-first rows (cid ∷ cids) ps h = elim (Option-cases (lookup cid (by_id rows []))) [
  | inl gone ↦ absurd (ground arith)
  | inr (p, found) ↦
      let h1 : (payloads no_index (by_id rows []) cids >>= λ qs. done (p ∷ qs)) ≡ done ps =
        rw (found, payloads) at h in
      let (qs, e, last) = bind-done (payloads no_index (by_id rows []) cids) _ ps h1 in
      found ∙ ap head_of (done_injective _ _ last)
]

module _ {N : Type 0} ⦃reader : TextReader N⦄ ⦃platform : Platform⦄ where
  -- What a context takes from the contract of an index, if there is one.
  abbrev pub TakesIndex : MarketRows → String → Option IndexPayload → PricingContext N → Type 0
  TakesIndex rows cutoff none ctx = (ctx.index ≡ none) × (ctx.observations ≡ [])
  TakesIndex rows cutoff (some p) ctx =
      (ctx.index ≡ some (to_floating_rate_index p))
      × (ctx.observations ≡ flatten_observations rows.observations p.index_id cutoff)

  heads-TakesIndex :
      (rows : MarketRows) (snapshot : SnapshotKey) (ps : List IndexPayload) (ctx : PricingContext N)
      → ctx.index ≡ primary_index ps
      → ctx.observations ≡ observed rows snapshot ps
      → TakesIndex rows snapshot.observation_cutoff (head_of ps) ctx
  heads-TakesIndex rows snapshot [] ctx i o = (i, o)
  heads-TakesIndex rows snapshot (p ∷ ps) ctx i o = (i, o)

  -- The index and the observations of a context are those of the first index that the snapshot
  -- lists, and it has neither where the snapshot lists no index: the others are not used, and the
  -- order of the list decides.
  pub build_context_from_snapshot-TakesIndex :
      (now : ℕ) (rows : MarketRows) (snapshot : SnapshotKey) (currency : String)
      (ctx : PricingContext N)
      → build_context_from_snapshot now rows snapshot currency ≡ done ctx
      → TakesIndex rows snapshot.observation_cutoff
          (first_index rows.indices snapshot.index_cids)
          ctx
  unfolding build_context_from_snapshot
  build_context_from_snapshot-TakesIndex now rows snapshot currency ctx h =
      let (cs, curves, h1) =
        bind-done (payloads no_curve (by_id rows.curves []) snapshot.curve_cids) _ ctx h in
      let (is, indices, h2) =
        bind-done (payloads no_index (by_id rows.indices []) snapshot.index_cids) _ ctx h1 in
      elim (Option-cases (find (is_discount_in currency) cs)) [
        | inl gone ↦ absurd (ground (arith, rw gone at h2))
        | inr (d, found) ↦
            let h3 = rw found at h2 in
            let (book, built, h4) =
              bind-done
                (when_given (λ cids. build_curve_book {N = N} now cids (by_id rows.curves []))
                  snapshot.book_curve_cids)
                _ ctx h3 in
            let (spots, fetched, h5) =
              bind-done (when_given (fetch_fx_spots rows.fx_spots) snapshot.fx_spot_cids) _ ctx
                h4 in
            let same = sym (done_injective _ _ h5) in
            rw (payloads-first rows.indices snapshot.index_cids is indices) (
              heads-TakesIndex rows snapshot is ctx (ap (λ c. c.index) same)
                (ap (λ c. c.observations) same))
      ]
