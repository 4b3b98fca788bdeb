-- ===== src/Oracle/Replay/Priceable.antt =====
-- Theorems on the kind of swap that `resolveSwapConfig` gives.
use irsforge.Base.{
  ◌≡◌, ap, String, List, [], ◌∷◌, ◌==◌, arith, Bool-cases, Option-cases, inl, inr, find,
}
use mathlib.Core.Path.{subst}
use irsforge.Pricing.Number.{Number}
use irsforge.Pricing.Types.{
  Platform, FixedLeg, FloatLeg, Leg, fixed, float, protection, SwapType, irs, cds, basis, xccy,
  SwapConfig, Outcome, ok, threw,
}
use irsforge.Pricing.Engine.Fold
use irsforge.Pricing.Engine.Fold.{ok_injective}
use irsforge.Pricing.Fpml.{
  TextReader, ParsedLeg, ParsedFpml, Classification, irs_of, ois_of, xccy_of, basis_of, wrong_count,
  wrong_shape, classify, map_day_count,
}
use irsforge.Pricing.Fpml.Swap.{
  streams_to_parsed_fpml, build_fixed_float, build_basis_swap_config, build_config,
  parsed_fpml_to_swap_config,
}
use irsforge.Oracle.Replay.{done, IrsInstrumentPayload, CdsInstrumentPayload}
use irsforge.Oracle.Replay.Laws.{bind-done, done_injective}
use irsforge.Oracle.Replay.Swap.{
  SwapWorkflow, SwapRows, is_irs_like, is_fpml_like, from_pricing, instrument,
  map_irs_to_swap_config, map_cds_to_swap_config, resolve_irs_like, resolve_cds, resolve_fpml_like,
  resolve_workflow, resolve_swap_config,
}

pub from_pricing-done {ℓ} :
    {A : Type ℓ} (o : Outcome A) (a : A) → from_pricing o ≡ done a → o ≡ ok a
from_pricing-done (ok b) a h = ap ok (done_injective b a h)
from_pricing-done (threw e) a h = absurd (ground arith)

module _ {N : Type 0} where
  -- The legs are those that the strategy of the kind prices.
  abbrev pub ArePriced : SwapType → List (Leg N) → Type 0
  ArePriced irs (fixed a ∷ float b ∷ []) = Unit
  ArePriced xccy (fixed a ∷ float b ∷ []) = Unit
  ArePriced basis (float a ∷ float b ∷ []) = Unit
  ArePriced cds (fixed a ∷ protection b ∷ []) = Unit
  ArePriced _ _ = ⊥

  abbrev pub IsPriceable : SwapConfig N → Type 0
  IsPriceable config = ArePriced config.kind config.legs

module _ {N : Type 0} ⦃arithmetic : Number N⦄ ⦃reader : TextReader N⦄ where
  build_fixed_float-IsPriceable :
      (kind : SwapType)
      → ((a : FixedLeg N) (b : FloatLeg N) → ArePriced kind (fixed a ∷ float b ∷ []))
      → (x y : ParsedLeg N) (parsed : ParsedFpml N) (config : SwapConfig N)
      → build_fixed_float kind x y parsed ≡ ok config
      → IsPriceable config
  unfolding build_fixed_float
  build_fixed_float-IsPriceable kind priced x y parsed config h =
      let (c, first, h1) = Fold.bind-ok (map_day_count x.day_count_fraction) _ config h in
      let (d, second, h2) = Fold.bind-ok (map_day_count y.day_count_fraction) _ config h1 in
      subst IsPriceable (ok_injective _ _ h2) (priced _ _)

  build_config-IsPriceable :
      (c : Classification N) (parsed : ParsedFpml N) (config : SwapConfig N)
      → build_config c parsed ≡ ok config
      → IsPriceable config
  unfolding build_config build_basis_swap_config
  build_config-IsPriceable (irs_of x y) parsed config h =
      build_fixed_float-IsPriceable irs (λ a b. tt) x y parsed config h
  build_config-IsPriceable (ois_of x y) parsed config h =
      build_fixed_float-IsPriceable irs (λ a b. tt) x y parsed config h
  build_config-IsPriceable (xccy_of x y) parsed config h =
      build_fixed_float-IsPriceable xccy (λ a b. tt) x y parsed config h
  build_config-IsPriceable (basis_of x y) parsed config h =
      let (c, first, h1) = Fold.bind-ok (map_day_count x.day_count_fraction) _ config h in
      let (d, second, h2) = Fold.bind-ok (map_day_count y.day_count_fraction) _ config h1 in
      subst IsPriceable (ok_injective _ _ h2) tt
  build_config-IsPriceable (wrong_count n) parsed config h = absurd (ground arith)
  build_config-IsPriceable wrong_shape parsed config h = absurd (ground arith)

module _ {N : Type 0} ⦃arithmetic : Number N⦄ ⦃reader : TextReader N⦄ ⦃platform : Platform⦄ where
  map_irs-IsPriceable :
      (p : IrsInstrumentPayload) (notional : N) (config : SwapConfig N)
      → map_irs_to_swap_config p notional ≡ done config
      → IsPriceable config
  unfolding map_irs_to_swap_config
  map_irs-IsPriceable p notional config h =
      let (d, known, h1) =
        bind-done (from_pricing (map_day_count p.day_count_convention)) _ config h in
      subst IsPriceable (done_injective _ _ h1) tt

  map_cds-IsPriceable :
      (p : CdsInstrumentPayload) (notional : N) (config : SwapConfig N)
      → map_cds_to_swap_config p notional ≡ done config
      → IsPriceable config
  unfolding map_cds_to_swap_config
  map_cds-IsPriceable p notional config h =
      let (d, known, h1) =
        bind-done (from_pricing (map_day_count p.day_count_convention)) _ config h in
      subst IsPriceable (done_injective _ _ h1) tt

  resolve_fpml_like-IsPriceable :
      (rows : SwapRows) (wf : SwapWorkflow) (config : SwapConfig N)
      → resolve_fpml_like rows wf ≡ done config
      → IsPriceable config
  unfolding resolve_fpml_like parsed_fpml_to_swap_config
  resolve_fpml_like-IsPriceable rows wf config h =
      let (p, found, h1) =
        bind-done (instrument (λ p. p.id) rows.fpml_instruments wf.instrument_id) _ config h in
      let (parsed, read, h2) =
        bind-done (from_pricing (streams_to_parsed_fpml {N = N} p.swap_streams)) _ config h1 in
      build_config-IsPriceable (classify parsed) parsed config (from_pricing-done _ config h2)

  resolve_workflow-IsPriceable :
      (rows : SwapRows) (wf : SwapWorkflow) (config : SwapConfig N)
      → resolve_workflow rows wf ≡ done config
      → IsPriceable config
  unfolding resolve_workflow resolve_irs_like resolve_cds
  resolve_workflow-IsPriceable rows wf config h = elim (Bool-cases (is_irs_like wf.swap_type)) [
    | inl t ↦
        let (p, found, k) =
          bind-done (instrument (λ p. p.id) rows.irs_instruments wf.instrument_id) _ config
            (rw t at h) in
        map_irs-IsPriceable p (reader.parse_float wf.notional) config k
    | inr t ↦ elim (Bool-cases (wf.swap_type == "CDS")) [
      | inl u ↦
          let (p, found, k) =
            bind-done (instrument (λ p. p.id) rows.cds_instruments wf.instrument_id) _ config
              (rw (t, u) at h) in
          map_cds-IsPriceable p (reader.parse_float wf.notional) config k
      | inr u ↦ elim (Bool-cases (is_fpml_like wf.swap_type)) [
        | inl v ↦ resolve_fpml_like-IsPriceable rows wf config (rw (t, u, v) at h)
        | inr v ↦ absurd (ground (arith, rw (t, u, v) at h))
      ]
    ]
  ]

  -- Every swap that the replay resolves is of a kind and has legs that this kind's pricing strategy
  -- prices: IRS and XCCY a fixed and a floating leg, BASIS two floating legs, CDS a fixed and a
  -- protection leg.
  pub resolve_swap_config-IsPriceable :
      (rows : SwapRows) (cid : String) (config : SwapConfig N)
      → resolve_swap_config rows cid ≡ done config
      → IsPriceable config
  unfolding resolve_swap_config
  resolve_swap_config-IsPriceable rows cid config h =
      elim (Option-cases (find (λ w. w.contract_id == cid) rows.workflows)) [
        | inl missing ↦ absurd (ground arith)
        | inr (wf, found) ↦
            resolve_workflow-IsPriceable rows wf.payload config
              (rw (found, resolve_swap_config) at h)
      ]
