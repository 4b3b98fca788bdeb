-- ===== src/Oracle/Replay/Sides.antt =====
-- Theorems on the sides on which the legs of a resolved swap are counted.
use irsforge.Base.{
  ◌≡◌, refl, ap, ◌∙◌, sym, List, [], ◌∷◌, map, Bool, Bool-cases, ◌==◌, ◌||◌, inl, inr, true,
}
use irsforge.Pricing.Number.{Number, ◌⊗◌, negative, whole}
use irsforge.Pricing.Types.{Platform, Leg, SwapConfig}
use irsforge.Pricing.Fpml.{TextReader, map_day_count}
use irsforge.Pricing.Engine.{directed, notional_of}
use irsforge.Oracle.Replay.{done, IrsInstrumentPayload, CdsInstrumentPayload}
use irsforge.Oracle.Replay.Laws.{bind-done, done_injective}
use irsforge.Oracle.Replay.Swap.{
  SwapWorkflow, SwapRows, is_irs_like, from_pricing, instrument, sign_of, map_irs_to_swap_config,
  map_cds_to_swap_config, resolve_irs_like, resolve_cds, resolve_workflow,
}

module _ {N : Type 0} ⦃arithmetic : Number N⦄ where
  -- A leg's notional with the sign of the leg's direction.
  abbrev signed_notional : Leg N → N
  signed_notional leg = directed leg (notional_of leg)

module _ {N : Type 0} ⦃arithmetic : Number N⦄ where
  -- The two legs are counted at opposite notionals, those of an owner on the side `sign`.
  abbrev pub AreOpposed : N → N → List (Leg N) → Type 0
  AreOpposed sign notional legs =
      map signed_notional legs ≡ sign ⊗ notional ∷ negative (sign ⊗ notional) ∷ []

module _ {N : Type 0} ⦃arithmetic : Number N⦄ ⦃reader : TextReader N⦄ ⦃platform : Platform⦄ where
  module _ (one : (x : N) → whole 1 ⊗ x ≡ x)
      (turn : (x y : N) → negative x ⊗ y ≡ negative (x ⊗ y)) where
    opposed :
        (sign notional : N)
        → whole 1 ⊗ (sign ⊗ notional) ∷ whole 1 ⊗ (negative sign ⊗ notional) ∷ []
          ≡ sign ⊗ notional ∷ negative (sign ⊗ notional) ∷ []
    opposed sign notional = rw (one, one, turn) refl

    map_irs-AreOpposed :
        (p : IrsInstrumentPayload) (notional : N) (config : SwapConfig N)
        → map_irs_to_swap_config p notional ≡ done config
        → AreOpposed (sign_of p.owner_receives_fix) notional config.legs
    unfolding map_irs_to_swap_config
    map_irs-AreOpposed p notional config h =
        let (d, known, h1) =
          bind-done (from_pricing (map_day_count p.day_count_convention)) _ config h in
        ap (λ r. map signed_notional r.legs) (sym (done_injective _ _ h1))
        ∙ opposed (sign_of p.owner_receives_fix) notional

    map_cds-AreOpposed :
        (p : CdsInstrumentPayload) (notional : N) (config : SwapConfig N)
        → map_cds_to_swap_config p notional ≡ done config
        → AreOpposed (sign_of p.owner_receives_fix) notional config.legs
    unfolding map_cds_to_swap_config
    map_cds-AreOpposed p notional config h =
        let (d, known, h1) =
          bind-done (from_pricing (map_day_count p.day_count_convention)) _ config h in
        ap (λ r. map signed_notional r.legs) (sym (done_injective _ _ h1))
        ∙ opposed (sign_of p.owner_receives_fix) notional

    -- Where a product with 1 is the other factor and the sign of a factor is that of the product,
    -- the valuation counts the two legs of every swap that is resolved from an interest rate or
    -- credit default instrument at opposite notionals: the notional of the workflow with a sign,
    -- and the negative of that.
    pub resolve_workflow-AreOpposed :
        (rows : SwapRows) (wf : SwapWorkflow) (config : SwapConfig N)
        → (is_irs_like wf.swap_type || wf.swap_type == "CDS") ≡ true
        → resolve_workflow rows wf ≡ done config
        → (owner_receives_fix : Bool) × AreOpposed
            (sign_of owner_receives_fix)
            (reader.parse_float wf.notional)
            config.legs
    unfolding resolve_workflow resolve_irs_like resolve_cds
    resolve_workflow-AreOpposed rows wf config single h =
        elim (Bool-cases (is_irs_like wf.swap_type)) [
          | inl t ↦
              let (p, found, k) =
                bind-done (instrument (λ p. p.id) rows.irs_instruments wf.instrument_id) _ config
                  (rw t at h) in
              (p.owner_receives_fix, map_irs-AreOpposed p (reader.parse_float wf.notional) config k)
          | inr t ↦
              let u : (wf.swap_type == "CDS") ≡ true = rw t at single in
              let (p, found, k) =
                bind-done (instrument (λ p. p.id) rows.cds_instruments wf.instrument_id) _ config
                  (rw (t, u) at h) in
              (p.owner_receives_fix, map_cds-AreOpposed p (reader.parse_float wf.notional) config k)
        ]
