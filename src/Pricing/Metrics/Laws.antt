-- ===== src/Pricing/Metrics/Laws.antt =====
-- Theorems on the projection sensitivities of risk/metrics.ts.
use irsforge.Base.{◌≡◌, refl, ap, ◌∙◌, none, some, [], ◌∷◌, String, eq_refl}
use irsforge.Base.Dict.{Dict, lookup, insert}
use irsforge.Pricing.Number.{Number, negative}
use irsforge.Pricing.Types.{
  Platform, DiscountCurve, CurrencyCurves, CurveBook, SwapConfig, PricingContext, ok, ◌>>=◌,
}
use irsforge.Pricing.Engine.Price.{basis_point}
use irsforge.Pricing.Engine.{shift_all_pillars}
use irsforge.Pricing.Bump.{with_book, with_pair, bump_single_projection}
use irsforge.Pricing.Metrics.{bump_projection_parallel, projection_dv01, cross_index_basis_dv01}

module _ {V : Type 0} where
  lookup-head :
      (key : String) (value : V) (rest : Dict V) → lookup key ((key, value) ∷ rest) ≡ some value
  unfolding lookup
  lookup-head key value rest = rw (eq_refl key) refl

  insert-head :
      (key : String) (value new : V) (rest : Dict V)
      → insert key new ((key, value) ∷ rest) ≡ (key, new) ∷ rest
  unfolding insert
  insert-head key value new rest = rw (eq_refl key) refl

module _ {N : Type 0} ⦃arithmetic : Number N⦄ where
  -- A book with one currency and one projection curve.
  abbrev pub single_book :
      (currency index_id as_of : String) → DiscountCurve N → DiscountCurve N → CurveBook N
  single_book currency index_id as_of discount projection = record {
    as_of = as_of;
    by_currency =
        (currency, record { discount = discount; projections = (index_id, projection) ∷ [] }) ∷ [];
  }

  single-parallel :
      (ctx : PricingContext N) (currency index_id as_of : String) (d p : DiscountCurve N) (bp : N)
      → bump_single_projection
          (with_book ctx (single_book currency index_id as_of d p))
          currency
          index_id
          bp
        ≡ bump_projection_parallel (with_book ctx (single_book currency index_id as_of d p)) bp
  unfolding bump_single_projection bump_projection_parallel
  single-parallel ctx currency index_id as_of d p bp =
      let book = single_book currency index_id as_of d p in
      let pair : CurrencyCurves N = record { discount = d; projections = (index_id, p) ∷ [] } in
      let found : lookup currency book.by_currency ≡ some pair = lookup-head currency pair [] in
      let found_curve : lookup index_id pair.projections ≡ some p = lookup-head index_id p [] in
      let curves : insert index_id (shift_all_pillars p bp) pair.projections
          ≡ (index_id, shift_all_pillars p bp) ∷ [] =
        insert-head index_id p (shift_all_pillars p bp) [] in
      let same = with_book ctx book in
      let changed : (entry : CurrencyCurves N) → DiscountCurve N → PricingContext N = λ entry c.
        with_book same (
          with_pair book currency record {
            discount = entry.discount;
            projections = insert index_id (shift_all_pillars c bp) entry.projections;
          }) in
      ap
        (λ o. elim o [
          | none ↦ same
          | some entry ↦ elim (lookup index_id entry.projections) [
            | none ↦ same
            | some c ↦ changed entry c
          ]
        ])
        found
      ∙ ap (λ o. elim o [ none ↦ same | some c ↦ changed pair c ]) found_curve
      ∙ ap (λ m. with_book same record { as_of = as_of; by_currency = m })
          (insert-head currency pair _ []
            ∙ ap (λ m. (currency, record { discount = d; projections = m }) ∷ []) curves)

module _ {N : Type 0} ⦃arithmetic : Number N⦄ ⦃platform : Platform⦄ where
  -- In a book with one currency and one projection curve, the sensitivity to that curve alone is
  -- the sensitivity to all projection curves, and it fails where that fails.
  pub cross_index_basis_dv01-projection_dv01 :
      (config : SwapConfig N) (ctx : PricingContext N) (currency index_id as_of : String)
      (d p : DiscountCurve N)
      → cross_index_basis_dv01 config
          (with_book ctx (single_book currency index_id as_of d p))
          currency
          index_id
        ≡ (projection_dv01 config (with_book ctx (single_book currency index_id as_of d p)) >>= λ v.
            ok (some v))
  unfolding cross_index_basis_dv01 projection_dv01
  cross_index_basis_dv01-projection_dv01 config ctx currency index_id as_of d p =
      let up = single-parallel ctx currency index_id as_of d p basis_point in
      let down = single-parallel ctx currency index_id as_of d p (negative basis_point) in
      rw (up, down) refl
