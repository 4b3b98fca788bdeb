-- ===== src/Pricing/Bump.antt =====
-- shared-pricing/src/risk/bump.ts
use irsforge.Base.{
  Option, none, some, List, [], ◌∷◌, String, ◌==◌, Bool, true, false, ◌&&◌, if◌then◌else◌,
}
use irsforge.Base.Int.{ℤ, ◌-ℤ◌, is_zero}
use irsforge.Base.Dict.{Dict, lookup, insert}
use irsforge.Pricing.Number.{Number, ◌⊕◌, ◌⊗◌, whole, fraction}
use irsforge.Pricing.Types.{
  Pillar, DiscountCurve, CurrencyCurves, CurveBook, CurveType, discount_type, projection_type,
  PricingContext, no_pillar, no_curves, no_projection, no_spot, Outcome, ok, threw, ◌>>=◌, or_else,
}
use irsforge.Pricing.Engine.{with_curves, shift_all_pillars}

pub record PillarSelector : Type 0 where
  pub currency : String
  pub curve_type : CurveType
  pub tenor_days : ℤ
  pub index_id : Option String

abbrev same_type : CurveType → CurveType → Bool
same_type discount_type discount_type = true
same_type projection_type projection_type = true
same_type _ _ = false

-- A text that JavaScript takes for true.
abbrev given : Option String → Option String
given none = none
given (some id) = if id == "" then none else some id

module _ {N : Type 0} where
  abbrev pub with_book : PricingContext N → CurveBook N → PricingContext N
  with_book ctx book = with_curves ctx ctx.curve (some book)

  abbrev with_pillars : DiscountCurve N → List (Pillar N) → DiscountCurve N
  with_pillars c pillars = record {
    currency = c.currency;
    curve_type = c.curve_type;
    index_id = c.index_id;
    as_of = c.as_of;
    pillars = pillars;
    interpolation = c.interpolation;
    day_count = c.day_count;
  }

  -- `{ ...book, byCurrency: { ...book.byCurrency, [currency]: pair } }`
  abbrev pub with_pair : CurveBook N → String → CurrencyCurves N → CurveBook N
  with_pair book currency pair = record {
    as_of = book.as_of;
    by_currency = insert currency pair book.by_currency;
  }

module _ {N : Type 0} ⦃arithmetic : Number N⦄ where
  -- The nodes with the first one of this tenor shifted; `none` without one.
  unfoldable pub shift_first : ℤ → N → List (Pillar N) → Option (List (Pillar N))
  shift_first tenor bp [] = none
  shift_first tenor bp (p ∷ ps) =
      let rest : Option (List (Pillar N)) = elim (shift_first tenor bp ps) [
        | none ↦ none
        | some qs ↦ some (p ∷ qs)
      ] in
      let shifted : Pillar N = record { tenor_days = p.tenor_days; zero_rate = p.zero_rate ⊕ bp } in
      if is_zero (p.tenor_days -ℤ tenor) then some (shifted ∷ ps) else rest

  unfoldable pub shift_one_pillar : DiscountCurve N → ℤ → N → Outcome (DiscountCurve N)
  unfolding shift_first
  shift_one_pillar c tenor bp = elim (shift_first tenor bp c.pillars) [
    | none ↦ threw (no_pillar tenor)
    | some ps ↦ ok (with_pillars c ps)
  ]

  abbrev shift_each : Dict (DiscountCurve N) → ℤ → N → Outcome (Dict (DiscountCurve N))
  shift_each [] tenor bp = ok []
  shift_each ((id, c) ∷ rest) tenor bp = shift_one_pillar c tenor bp >>= λ shifted.
      shift_each rest tenor bp >>= λ others. ok ((id, shifted) ∷ others)

  abbrev bump_projections :
      PillarSelector → Dict (DiscountCurve N) → N → Outcome (Dict (DiscountCurve N))
  bump_projections sel projections bp = elim (given sel.index_id) [
    | none ↦ shift_each projections sel.tenor_days bp
    | some id ↦ elim (lookup id projections) [
      | none ↦ threw (no_projection sel.currency id)
      | some c ↦
          shift_one_pillar c sel.tenor_days bp >>= λ shifted. ok (insert id shifted projections)
    ]
  ]

  abbrev bump_pair : PillarSelector → CurrencyCurves N → N → Outcome (CurrencyCurves N)
  bump_pair sel pair bp = elim sel.curve_type [
    | discount_type ↦ shift_one_pillar pair.discount sel.tenor_days bp >>= λ c.
        ok record { discount = c; projections = pair.projections }
    | projection_type ↦ bump_projections sel pair.projections bp >>= λ ps.
        ok record { discount = pair.discount; projections = ps }
  ]

  abbrev mirrors : PillarSelector → DiscountCurve N → Bool
  mirrors sel c = c.currency == sel.currency && same_type c.curve_type sel.curve_type

  unfoldable pub bump_pillar : PricingContext N → PillarSelector → N → Outcome (PricingContext N)
  unfolding lookup insert shift_one_pillar
  bump_pillar ctx sel bp = elim ctx.book [
    | none ↦
        let shifted =
          shift_one_pillar ctx.curve sel.tenor_days bp >>= λ c. ok (with_curves ctx c none) in
        if mirrors sel ctx.curve then shifted else threw (no_curves sel.currency)
    | some book ↦ elim (lookup sel.currency book.by_currency) [
      | none ↦ threw (no_curves sel.currency)
      | some pair ↦ bump_pair sel pair bp >>= λ bumped.
          (if mirrors sel ctx.curve
            then shift_one_pillar ctx.curve sel.tenor_days bp
            else ok ctx.curve)
          >>= λ c. ok (with_curves ctx c (some (with_pair book sel.currency bumped)))
    ]
  ]

  -- `{ ...ctx, fxSpots }` and `{ ...ctx, creditSpread }`
  unfoldable pub bump_fx_spot : PricingContext N → String → N → Outcome (PricingContext N)
  unfolding lookup insert
  bump_fx_spot ctx pair relative = elim ctx.fx_spots [
    | none ↦ threw (no_spot pair)
    | some spots ↦ elim (lookup pair spots) [
      | none ↦ threw (no_spot pair)
      | some rate ↦
          ok record ctx { fx_spots = some (insert pair (rate ⊗ (whole 1 ⊕ relative)) spots) }
    ]
  ]

  unfoldable pub bump_credit_spread : PricingContext N → N → PricingContext N
  bump_credit_spread ctx bp = record ctx {
    credit_spread = some (or_else ctx.credit_spread (fraction 2 100) ⊕ bp);
  }

  unfoldable pub bump_single_projection :
      PricingContext N → (currency index_id : String) → N → PricingContext N
  unfolding lookup insert shift_all_pillars
  bump_single_projection ctx currency index_id bp = elim ctx.book [
    | none ↦ ctx
    | some book ↦ elim (lookup currency book.by_currency) [
      | none ↦ ctx
      | some entry ↦ elim (lookup index_id entry.projections) [
        | none ↦ ctx
        | some original ↦ with_book ctx (
            with_pair book currency record {
              discount = entry.discount;
              projections = insert index_id (shift_all_pillars original bp) entry.projections;
            })
      ]
    ]
  ]
