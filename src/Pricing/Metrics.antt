-- ===== src/Pricing/Metrics.antt =====
-- shared-pricing/src/risk/metrics.ts, but for the FX deltas.
use irsforge.Base.{
  Option, none, some, List, [], ◌∷◌, ◌++◌, map, String, ◌==◌, Bool, true, false, includes,
  if◌then◌else◌,
}
use irsforge.Base.Int.{ℤ}
use irsforge.Base.Dict.{Dict, lookup}
use irsforge.Pricing.Number.{Number, ◌⊖◌, ◌⊘◌, negative, whole}
use irsforge.Pricing.Types.{
  Platform, Pillar, DiscountCurve, CurrencyCurves, CurveBook, CurveType, discount_type,
  projection_type, Leg, fixed, float, fx_leg, SwapType, cds, SwapConfig, PricingContext, Outcome,
  ok, threw, ◌>>=◌,
}
use irsforge.Pricing.Engine.{map_value, shift_all_pillars}
use irsforge.Pricing.Engine.Price.{price, basis_point}
use irsforge.Pricing.Bump.{
  PillarSelector, with_book, bump_pillar, bump_credit_spread, bump_single_projection,
}
pub mod Laws

pub record KeyRateDv01Entry (N : Type 0) : Type 0 where
  pub selector : PillarSelector
  pub dv01 : N

abbrev or_curve : List String → String → List String
or_curve [] currency = currency ∷ []
or_curve (c ∷ cs) currency = c ∷ cs

abbrev is_cds : SwapType → Bool
is_cds cds = true
is_cds _ = false

module _ {N : Type 0} where
  -- `swapCurrencies`, with repetitions: only membership and emptiness are asked for.
  abbrev swap_currencies : List (Leg N) → List String
  swap_currencies [] = []
  swap_currencies (fixed leg ∷ legs) = leg.currency ∷ swap_currencies legs
  swap_currencies (float leg ∷ legs) = leg.currency ∷ swap_currencies legs
  swap_currencies (fx_leg leg ∷ legs) =
      leg.base_currency ∷ leg.foreign_currency ∷ swap_currencies legs
  swap_currencies (_ ∷ legs) = swap_currencies legs

  abbrev selectors_of : String → CurveType → Option String → List (Pillar N) → List PillarSelector
  selectors_of currency curve_type index_id ps =
      map
        (λ p. record {
          currency = currency;
          curve_type = curve_type;
          tenor_days = p.tenor_days;
          index_id = index_id;
        })
        ps

  abbrev projection_selectors : String → Dict (DiscountCurve N) → List PillarSelector
  projection_selectors currency [] = []
  projection_selectors currency ((id, c) ∷ rest) =
      selectors_of currency projection_type c.index_id c.pillars
      ++ projection_selectors currency rest

  abbrev book_selectors : List String → Dict (CurrencyCurves N) → List PillarSelector
  book_selectors relevant [] = []
  book_selectors relevant ((currency, pair) ∷ rest) =
      let others = book_selectors relevant rest in
      if includes currency relevant
      then selectors_of currency discount_type none pair.discount.pillars
        ++ projection_selectors currency pair.projections
        ++ others
      else others

  unfoldable pub enumerate_pillars : SwapConfig N → PricingContext N → List PillarSelector
  enumerate_pillars config ctx = elim ctx.book [
    | none ↦ selectors_of ctx.curve.currency ctx.curve.curve_type none ctx.curve.pillars
    | some book ↦
        book_selectors (or_curve (swap_currencies config.legs) ctx.curve.currency) book.by_currency
  ]

module _ {N : Type 0} ⦃arithmetic : Number N⦄ where
  unfoldable pub bump_projection_parallel : PricingContext N → N → PricingContext N
  unfolding shift_all_pillars
  bump_projection_parallel ctx bp = elim ctx.book [
    | none ↦ ctx
    | some book ↦ with_book ctx record {
      as_of = book.as_of;
      by_currency =
          map_value
            (λ pair. record {
              discount = pair.discount;
              projections = map_value (λ c. shift_all_pillars c bp) pair.projections;
            })
            book.by_currency;
    }
  ]

module _ {N : Type 0} ⦃arithmetic : Number N⦄ ⦃platform : Platform⦄ (config : SwapConfig N) where
  -- Half the difference of the NPVs in two contexts.
  abbrev pub half_difference : PricingContext N → PricingContext N → Outcome N
  half_difference up_ctx down_ctx = price config up_ctx >>= λ up.
      price config down_ctx >>= λ down. ok ((up.npv ⊖ down.npv) ⊘ whole 2)

  abbrev key_rates : PricingContext N → List PillarSelector → Outcome (List (KeyRateDv01Entry N))
  key_rates ctx [] = ok []
  key_rates ctx (sel ∷ sels) = bump_pillar ctx sel basis_point >>= λ up_ctx.
      price config up_ctx >>= λ up. bump_pillar ctx sel (negative basis_point) >>= λ down_ctx.
      price config down_ctx >>= λ down. key_rates ctx sels >>= λ rest.
      ok (record { selector = sel; dv01 = (up.npv ⊖ down.npv) ⊘ whole 2 } ∷ rest)

  unfoldable pub key_rate_dv01 : PricingContext N → Outcome (List (KeyRateDv01Entry N))
  unfolding enumerate_pillars bump_pillar price
  key_rate_dv01 ctx = key_rates ctx (enumerate_pillars config ctx)

  unfoldable pub projection_dv01 : PricingContext N → Outcome N
  unfolding price bump_projection_parallel
  projection_dv01 ctx = elim ctx.book [
    | none ↦ ok (whole 0)
    | some book ↦
        half_difference (bump_projection_parallel ctx basis_point)
          (bump_projection_parallel ctx (negative basis_point))
  ]

  unfoldable pub cross_index_basis_dv01 :
      PricingContext N → (currency index_id : String) → Outcome (Option N)
  unfolding price bump_single_projection
  cross_index_basis_dv01 ctx currency index_id = elim ctx.book [
    | none ↦ ok none
    | some book ↦
        half_difference (bump_single_projection ctx currency index_id basis_point)
          (bump_single_projection ctx currency index_id (negative basis_point))
        >>= λ d. ok (some d)
  ]

  unfoldable pub credit01 : PricingContext N → Outcome N
  unfolding price bump_credit_spread
  credit01 ctx =
      let moved =
        half_difference (bump_credit_spread ctx basis_point)
          (bump_credit_spread ctx (negative basis_point)) in
      if is_cds config.kind then moved else ok (whole 0)
