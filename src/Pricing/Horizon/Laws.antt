-- ===== src/Pricing/Horizon/Laws.antt =====
-- Theorems on the horizons, theta, roll and the forward NPV of risk/time.ts.
use irsforge.Base.{
  ℕ, ◌+◌, ◌*◌, ◌<◌, ◌≡◌, sym, ◌∙◌, ap, inl, inr, List, [], ◌∷◌, String, some, false, Bool-cases,
  Option-cases, ltb, min, arith, All, All-append,
}
use irsforge.Pricing.Number.{Number, ◌⊕◌, ◌⊖◌, IsAdditive}
use irsforge.Pricing.Dates.{Day}
use irsforge.Pricing.Types.{
  Platform, Leg, fixed, float, protection, asset_leg, fx_leg, SwapConfig, PricingContext, ok,
}
use irsforge.Pricing.Cashflows.{payment_dates}
use irsforge.Pricing.Engine.Fold.{bind-ok, ok_injective}
use irsforge.Pricing.Horizon.{
  Horizon, to_timestamp, delta_seconds, to_next_event, Event, fixing, payment, Mode, slide, freeze,
  earliest, earliest_of, first_later, candidates_of, candidates, next_event, resolve_horizon,
  advance_as_of, price_strictly_future, npv_of, today, theta, roll, forward_npv, advanced,
}

abbrev Later : ℕ → List ℕ → Type 0
Later t0 ts = All (λ t. t0 < t) ts

earliest-Later : (t0 t : ℕ) (ts : List ℕ) → t0 < t → Later t0 ts → t0 < earliest t ts
earliest-Later t0 t [] h k = h
earliest-Later t0 t (u ∷ us) h (m, k) = earliest-Later t0 (min t u) us (omega arith) k

earliest_of-Later : (t0 : ℕ) (ts : List ℕ) (t : ℕ) → Later t0 ts → earliest_of ts ≡ some t → t0 < t
earliest_of-Later t0 [] t k h = absurd (ground arith)
earliest_of-Later t0 (u ∷ us) t (m, k) h =
    let later = earliest-Later t0 u us m k in ground (arith, later)

module _ ⦃platform : Platform⦄ where
  first_later-Later : (t0 : ℕ) (ds : List Day) → Later t0 (first_later t0 ds)
  first_later-Later t0 [] = tt
  first_later-Later t0 (d ∷ ds) = elim (Bool-cases (ltb t0 (platform.time_of d))) [
    | inl later ↦ rw later (ground arith, tt)
    | inr past ↦ rw past (first_later-Later t0 ds)
  ]

module _ {N : Type 0} ⦃platform : Platform⦄ where
  candidates_of-Later :
      (event : Event) (t0 : ℕ) (leg : Leg N) → Later t0 (candidates_of event t0 leg)
  unfolding candidates_of
  candidates_of-Later fixing t0 (float leg) = first_later-Later t0 (payment_dates leg.schedule)
  candidates_of-Later fixing t0 (fixed leg) = tt
  candidates_of-Later fixing t0 (protection leg) = tt
  candidates_of-Later fixing t0 (asset_leg leg) = tt
  candidates_of-Later fixing t0 (fx_leg leg) = tt
  candidates_of-Later payment t0 (fixed leg) = first_later-Later t0 (payment_dates leg.schedule)
  candidates_of-Later payment t0 (float leg) = first_later-Later t0 (payment_dates leg.schedule)
  candidates_of-Later payment t0 (protection leg) = tt
  candidates_of-Later payment t0 (asset_leg leg) = tt
  candidates_of-Later payment t0 (fx_leg leg) = elim (Bool-cases (ltb t0 leg.payment_date)) [
    | inl later ↦ rw later (ground arith, tt)
    | inr past ↦ rw past tt
  ]

  candidates-Later :
      (event : Event) (t0 : ℕ) (legs : List (Leg N)) → Later t0 (candidates event t0 legs)
  unfolding candidates
  candidates-Later event t0 [] = tt
  candidates-Later event t0 (leg ∷ legs) =
      All-append (λ t. t0 < t) _ _ (candidates_of-Later event t0 leg)
        (candidates-Later event t0 legs)

  next_event_later :
      (event : Event) (t0 : ℕ) (legs : List (Leg N)) (t : ℕ)
      → next_event event t0 legs ≡ some t
      → t0 < t
  unfolding next_event
  next_event_later payment t0 legs t h =
      earliest_of-Later t0 _ t (candidates-Later payment t0 legs) h
  next_event_later fixing t0 legs t h =
      elim (Option-cases (earliest_of (candidates fixing t0 legs))) [
        | inl no_fixing ↦
            earliest_of-Later t0 _ t (candidates-Later payment t0 legs)
              (rw (no_fixing, next_event) at h)
        | inr (u, found) ↦
            earliest_of-Later t0 _ t (candidates-Later fixing t0 legs)
              (found ∙ rw (found, next_event) at h)
      ]

  -- A horizon that is resolved is strictly after the context's date, for each kind of horizon. The
  -- hypothesis on the platform: the text of a time is read as that time.
  pub resolve_horizon_later :
      ((t : ℕ) → platform.parse (platform.to_iso t) ≡ t)
      → (config : SwapConfig N) (ctx : PricingContext N) (h : Horizon) (t1 : String)
      → resolve_horizon config ctx h ≡ ok t1
      → platform.parse ctx.curve.as_of < platform.parse t1
  unfolding resolve_horizon
  resolve_horizon_later iso config ctx (to_timestamp as_of) t1 e =
      elim (Bool-cases (ltb (platform.parse ctx.curve.as_of) (platform.parse as_of))) [
        | inl later ↦ let same = ok_injective as_of t1 (rw later at e) in rw (← same) (ground arith)
        | inr past ↦ absurd (ground (arith, past))
      ]
  resolve_horizon_later iso config ctx (delta_seconds seconds) t1 e =
      let t0 = platform.parse ctx.curve.as_of in
      elim (Bool-cases (ltb 0 seconds)) [
        | inl later ↦
            let same = ok_injective (platform.to_iso (t0 + seconds * 1000)) t1 (rw later at e) in
            let moved = sym (iso (t0 + seconds * 1000)) ∙ ap platform.parse same in
            rw (← moved) (ground arith)
        | inr past ↦ absurd (ground (arith, past))
      ]
  resolve_horizon_later iso config ctx (to_next_event event) t1 e =
      let t0 = platform.parse ctx.curve.as_of in
      elim (Option-cases (next_event event t0 config.legs)) [
        | inl nothing ↦ absurd (ground (arith, nothing))
        | inr (t, found) ↦
            let same = ok_injective (platform.to_iso t) t1 (rw (found, resolve_horizon) at e) in
            let moved = sym (iso t) ∙ ap platform.parse same in
            rw (← moved) (next_event_later event t0 config.legs t found)
      ]

module _ {N : Type 0} ⦃arithmetic : Number N⦄ ⦃platform : Platform⦄ where
  advance_lem :
      (ctx : PricingContext N) (as_of : String) (mode : Mode) (later : PricingContext N)
      → advance_as_of ctx as_of mode ≡ ok later
      → (ltb (platform.parse as_of) (platform.parse ctx.curve.as_of) ≡ false)
        × (advanced ctx as_of mode ≡ later)
  unfolding advance_as_of
  advance_lem ctx as_of mode later h =
      elim (Bool-cases (ltb (platform.parse as_of) (platform.parse ctx.curve.as_of))) [
        | inl early ↦ absurd (ground (arith, early))
        | inr late ↦ (late, ok_injective _ _ (rw (late, advance_as_of) at h))
      ]

  telescope : IsAdditive N → (a b c : N) → c ≡ a ⊕ (b ⊖ a) ⊕ (c ⊖ b)
  telescope exact a b c = rw (exact.add-sub a b) (sym (exact.add-sub b c))

  -- Over a horizon where theta and roll have values, the NPV of today, theta and roll add up to
  -- the forward NPV. Today's NPV is the one that leaves out what is settled by today. The
  -- hypothesis on the numbers: sums do not round.
  pub forward_npv-theta-roll :
      IsAdditive N
      → (config : SwapConfig N) (ctx : PricingContext N) (h : Horizon) (t1 : String)
        (npv_t0 decay rolled : N)
      → resolve_horizon config ctx h ≡ ok t1
      → npv_of config (today ctx) ≡ ok npv_t0
      → theta config ctx h ≡ ok decay
      → roll config ctx h ≡ ok rolled
      → forward_npv config ctx t1 ≡ ok (npv_t0 ⊕ decay ⊕ rolled)
  unfolding theta roll forward_npv price_strictly_future
  forward_npv-theta-roll exact config ctx h t1 npv_t0 decay rolled resolved now lost gained =
      let lost1 = rw (resolved, theta) at lost in
      let lost2 = rw now at lost1 in
      let (frozen_ctx, moved, lost3) =
        bind-ok (advance_as_of (today ctx) t1 freeze) _ decay lost2 in
      let (late, same) = advance_lem (today ctx) t1 freeze frozen_ctx moved in
      let lost4 = rw (← same) at lost3 in
      let (npv_frozen, priced, lost5) =
        bind-ok (price_strictly_future config (advanced (today ctx) t1 freeze) t1) _ decay lost4 in
      let gained1 = rw (resolved, roll) at gained in
      let gained2 = rw (late, advance_as_of) at gained1 in
      let (npv_slid, slid, gained3) =
        bind-ok (price_strictly_future config (advanced ctx t1 slide) t1) _ rolled gained2 in
      let gained4 = rw priced at gained3 in
      rw (late, advance_as_of, slid)
        (ap ok (telescope exact npv_t0 npv_frozen npv_slid)
          ∙ ap (λ d. ok (npv_t0 ⊕ d ⊕ (npv_slid ⊖ npv_frozen))) (ok_injective _ _ lost5)
          ∙ ap (λ r. ok (npv_t0 ⊕ decay ⊕ r)) (ok_injective _ _ gained4))
