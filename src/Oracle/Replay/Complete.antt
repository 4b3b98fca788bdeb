-- ===== src/Oracle/Replay/Complete.antt =====
-- Theorems on when `buildContextFromSnapshot` gives a context and when it throws.
use irsforge.Base.{
  ℕ, ◌≡◌, refl, ◌↔◌, Option, none, some, String, List, [], find, All, arith, Option-cases, inl, inr,
}
use irsforge.Base.Members.{find-mem}
use irsforge.Base.Dict.{Dict}
use irsforge.Pricing.Types.{Platform, PricingContext, CurveBook}
use irsforge.Pricing.Fpml.{TextReader}
use irsforge.Oracle.Replay.{
  no_curve, no_index, no_spot_contract, Replayed, done, by_id, SnapshotKey, Row,
}
use irsforge.Oracle.Replay.Context.{
  MarketRows, payloads, is_discount_in, when_given, build_curve_book, fetch_fx_spots,
  build_context_from_snapshot,
}
use irsforge.Oracle.Replay.Laws.{
  bind-done, done-bind, done-some, OnLedger, payloads-done, payloads-OnLedger, OneOf,
  payloads-OneOf, payloads-mem, find-some,
}

-- Every contract of an optional list is on the ledger.
abbrev AllGiven : {P : Type 0} → List (Row P) → Option (List String) → Type 0
AllGiven rows none = Unit
AllGiven rows (some cids) = All (OnLedger rows) cids

-- Everything that the snapshot names is on the ledger, and one of its curves is a discount curve
-- of the currency.
pub record IsComplete (rows : MarketRows) (snapshot : SnapshotKey) (currency : String)
    : Type 0 where
  pub curves : All (OnLedger rows.curves) snapshot.curve_cids
  pub indices : All (OnLedger rows.indices) snapshot.index_cids
  pub discount : OneOf (is_discount_in currency) rows.curves snapshot.curve_cids
  pub book_curves : AllGiven rows.curves snapshot.book_curve_cids
  pub fx_spots : AllGiven rows.fx_spots snapshot.fx_spot_cids

module _ {N : Type 0} ⦃reader : TextReader N⦄ ⦃platform : Platform⦄ where
  abbrev book_of : ℕ → MarketRows → List String → Replayed (CurveBook N)
  book_of now rows cids = build_curve_book now cids (by_id rows.curves [])

  given_book-done :
      (now : ℕ) (rows : MarketRows) (cids : Option (List String))
      → AllGiven rows.curves cids
      → (book : Option (CurveBook N)) × (when_given (book_of now rows) cids ≡ done book)
  unfolding build_curve_book
  given_book-done now rows none h = (none, refl)
  given_book-done now rows (some cids) h =
      let (ps, e) = payloads-done no_curve rows.curves cids h in
      done-bind (book_of now rows cids) _ _ (done-bind _ _ ps e (_, refl)).1 (_, refl)

  given_book-OnLedger :
      (now : ℕ) (rows : MarketRows) (cids : Option (List String)) (book : Option (CurveBook N))
      → when_given (book_of now rows) cids ≡ done book
      → AllGiven rows.curves cids
  unfolding build_curve_book
  given_book-OnLedger now rows none book h = tt
  given_book-OnLedger now rows (some cids) book h =
      let (b, built, h1) = bind-done (book_of now rows cids) _ book h in
      let (ps, e, h2) = bind-done (payloads no_curve (by_id rows.curves []) cids) _ b built in
      payloads-OnLedger no_curve rows.curves cids ps e

  given_spots-done :
      (rows : MarketRows) (cids : Option (List String))
      → AllGiven rows.fx_spots cids
      → (spots : Option (Dict N)) × (when_given (fetch_fx_spots rows.fx_spots) cids ≡ done spots)
  unfolding fetch_fx_spots
  given_spots-done rows none h = (none, refl)
  given_spots-done rows (some cids) h =
      let (ps, e) = payloads-done no_spot_contract rows.fx_spots cids h in
      done-bind (fetch_fx_spots rows.fx_spots cids) _ _ (done-bind _ _ ps e (_, refl)).1 (_, refl)

  given_spots-OnLedger :
      (rows : MarketRows) (cids : Option (List String)) (spots : Option (Dict N))
      → when_given (fetch_fx_spots rows.fx_spots) cids ≡ done spots
      → AllGiven rows.fx_spots cids
  unfolding fetch_fx_spots
  given_spots-OnLedger rows none spots h = tt
  given_spots-OnLedger rows (some cids) spots h =
      let (s, built, h1) = bind-done (fetch_fx_spots rows.fx_spots cids) _ spots h in
      let (ps, e, h2) =
        bind-done (payloads no_spot_contract (by_id rows.fx_spots []) cids) _ s built in
      payloads-OnLedger no_spot_contract rows.fx_spots cids ps e

  build_context_from_snapshot-done :
      (now : ℕ) (rows : MarketRows) (snapshot : SnapshotKey) (currency : String)
      → IsComplete rows snapshot currency
      → (ctx : PricingContext N) × (build_context_from_snapshot now rows snapshot currency
          ≡ done ctx)
  unfolding build_context_from_snapshot
  build_context_from_snapshot-done now rows snapshot currency h =
      let (cs, curves) = payloads-done no_curve rows.curves snapshot.curve_cids h.curves in
      let (is, indices) = payloads-done no_index rows.indices snapshot.index_cids h.indices in
      let (cid, p, m, at, passes) = h.discount in
      let (d, found) =
        find-some (is_discount_in currency) cs p
          (payloads-mem no_curve rows.curves snapshot.curve_cids cs cid p curves m at) passes in
      let (book, built) = given_book-done now rows snapshot.book_curve_cids h.book_curves in
      let (spots, fetched) = given_spots-done rows snapshot.fx_spot_cids h.fx_spots in
      done-bind _ _ cs curves (
        done-bind _ _ is indices (
          done-some _ _ _ d found
            (done-bind _ _ book built (done-bind _ _ spots fetched (_, refl)))))

  built-IsComplete :
      (now : ℕ) (rows : MarketRows) (snapshot : SnapshotKey) (currency : String)
      (ctx : PricingContext N)
      → build_context_from_snapshot now rows snapshot currency ≡ done ctx
      → IsComplete rows snapshot currency
  unfolding build_context_from_snapshot
  built-IsComplete now rows snapshot currency ctx h =
      let (cs, curves, h1) =
        bind-done (payloads no_curve (by_id rows.curves []) snapshot.curve_cids) _ ctx h in
      let (is, indices, h2) =
        bind-done (payloads no_index (by_id rows.indices []) snapshot.index_cids) _ ctx h1 in
      elim (Option-cases (find (is_discount_in currency) cs)) [
        | inl gone ↦ absurd (ground (arith, rw gone at h2))
        | inr (d, found) ↦
            let h3 = rw found at h2 in
            let (book, built, h4) =
              bind-done (when_given (book_of now rows) snapshot.book_curve_cids) _ ctx h3 in
            let (spots, fetched, h5) =
              bind-done (when_given (fetch_fx_spots rows.fx_spots) snapshot.fx_spot_cids) _ ctx
                h4 in
            let (m, passes) = find-mem (is_discount_in currency) cs d found in
            record {
              curves = payloads-OnLedger no_curve rows.curves snapshot.curve_cids cs curves;
              indices = payloads-OnLedger no_index rows.indices snapshot.index_cids is indices;
              discount =
                  payloads-OneOf no_curve (is_discount_in currency) rows.curves snapshot.curve_cids
                    cs d curves m passes;
              book_curves = given_book-OnLedger now rows snapshot.book_curve_cids book built;
              fx_spots = given_spots-OnLedger rows snapshot.fx_spot_cids spots fetched;
            }
      ]

  -- The context of a snapshot is built exactly when every curve, index, book curve and FX spot
  -- that the snapshot names is on the ledger and one of its curves is a discount curve of the
  -- valuation currency; otherwise the call throws.
  pub build_context_from_snapshot-IsComplete :
      (now : ℕ) (rows : MarketRows) (snapshot : SnapshotKey) (currency : String)
      → ((ctx : PricingContext N) × (build_context_from_snapshot now rows snapshot currency
            ≡ done ctx))
        ↔ IsComplete rows snapshot currency
  build_context_from_snapshot-IsComplete now rows snapshot currency = (
    λ built. built-IsComplete now rows snapshot currency built.0 built.1,
    build_context_from_snapshot-done now rows snapshot currency,
  )
