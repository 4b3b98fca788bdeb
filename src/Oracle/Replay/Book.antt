-- ===== src/Oracle/Replay/Book.antt =====
-- Theorems on the curve book that `buildCurveBook` builds.
use irsforge.Base.{
  ℕ, ◌≡◌, refl, ap, ◌∙◌, Option, none, some, ◌≢◌, eq_refl, String, List, [], ◌∷◌, ◌==◌, All, eq_iff,
  arith, Bool-cases, Option-cases, eq-cases, inl, inr,
}
use irsforge.Base.Dict.{Dict, lookup, insert, lookup-insert}
use irsforge.Pricing.Types.{
  Platform, CurveType, discount_type, projection_type, DiscountCurve, CurrencyCurves, CurveBook,
  or_else,
}
use irsforge.Pricing.Fpml.{TextReader}
use irsforge.Oracle.Replay.{no_curve, done, CurvePayload, to_discount_curve}
use irsforge.Oracle.Replay.Context.{
  payloads, Pending, with_pair, paired, filed, with_projection, no_curves_yet, add_curve,
  add_curves, build_curve_book,
}
use irsforge.Oracle.Replay.Laws.{bind-done, done_injective}

module _ {V : Type 0} (P : String → V → Type 0) where
  insert-All :
      (key : String) (v : V) (m : Dict V)
      → P key v
      → All (λ e. P e.0 e.1) m
      → All (λ e. P e.0 e.1) (insert key v m)
  unfolding insert
  insert-All key v [] p h = (p, tt)
  insert-All key v ((first, old) ∷ rest) p (q, h) = elim (eq-cases first key) [
    | inl same ↦ rw (same, eq_refl key) (p, h)
    | inr other ↦ rw other (q, insert-All key v rest p h)
  ]

  lookup-All :
      (key : String) (v : V) (m : Dict V) → All (λ e. P e.0 e.1) m → lookup key m ≡ some v → P key v
  unfolding lookup
  lookup-All key v [] h e = absurd (ground arith)
  lookup-All key v ((first, old) ∷ rest) (q, h) e = elim (eq-cases first key) [
    | inl same ↦ let found : old ≡ v = ground (arith, eq_iff first key) in rw (← found, ← same) q
    | inr other ↦ lookup-All key v rest h (ground arith)
  ]

module _ {N : Type 0} where
  -- The curves of one currency stand in their places: the discount curve is one of this currency,
  -- and a projection curve is one of this currency for the index that it is filed under.
  pub record IsFiled (currency : String) (discount : Option (DiscountCurve N))
      (projections : Dict (DiscountCurve N)) : Type 0 where
    pub discount_filed :
        (c : DiscountCurve N)
        → discount ≡ some c
        → (c.currency ≡ currency) × (c.curve_type ≡ discount_type)
    pub projection_filed :
        (id : String) (c : DiscountCurve N)
        → lookup id projections ≡ some c
        → (c.currency ≡ currency) × (c.curve_type ≡ projection_type) × (c.index_id ≡ some id)

  -- The entries of a dictionary of unfinished pairs, and of finished ones.
  abbrev AllFiled : Dict (Pending N) → Type 0
  AllFiled pairs = All (λ e. IsFiled e.0 e.1.discount e.1.projections) pairs

  abbrev pub AllPaired : Dict (CurrencyCurves N) → Type 0
  AllPaired pairs =
      All (λ e. IsFiled e.0 (some e.1.discount) e.1.projections × (e.1.projections ≢ [])) pairs

  none-IsFiled : (currency : String) → IsFiled currency none []
  unfolding lookup
  none-IsFiled currency = record {
    discount_filed = λ c e. absurd (ground arith);
    projection_filed = λ id c e. absurd (ground arith);
  }

  with_projection-IsFiled :
      (index_id : Option String) (c : DiscountCurve N) (existing : Pending N) (currency : String)
      → c.currency ≡ currency
      → c.curve_type ≡ projection_type
      → c.index_id ≡ index_id
      → IsFiled currency existing.discount existing.projections
      → IsFiled currency
          (with_projection index_id c existing).discount
          (with_projection index_id c existing).projections
  with_projection-IsFiled none c existing currency own kind index h = h
  with_projection-IsFiled (some id) c existing currency own kind index h =
      elim (Bool-cases (id == "")) [
        | inl blank ↦ rw blank h
        | inr named ↦ rw named (record {
          discount_filed = h.discount_filed;
          projection_filed = λ asked d at. elim (eq-cases id asked) [
            | inl same ↦
                let e : c ≡ d =
                  ground (arith, lookup-insert id asked c existing.projections, eq_iff id asked) in
                rw (← e) (own, kind, index ∙ ap (λ t. some t) same)
            | inr other ↦
                h.projection_filed asked d
                  (ground (arith, lookup-insert id asked c existing.projections))
          ];
        })
      ]

  filed-IsFiled :
      (kind : CurveType) (index_id : Option String) (c : DiscountCurve N) (existing : Pending N)
      (currency : String)
      → c.currency ≡ currency
      → c.curve_type ≡ kind
      → c.index_id ≡ index_id
      → IsFiled currency existing.discount existing.projections
      → IsFiled currency
          (filed kind index_id c existing).discount
          (filed kind index_id c existing).projections
  filed-IsFiled projection_type index_id c existing currency own kind index h =
      with_projection-IsFiled index_id c existing currency own kind index h
  filed-IsFiled discount_type index_id c existing currency own kind index h = record {
    discount_filed = λ d e. let same : c ≡ d = ground arith in rw (← same) (own, kind);
    projection_filed = h.projection_filed;
  }

module _ {N : Type 0} ⦃reader : TextReader N⦄ where
  pending_of :
      (currency : String) (pairs : Dict (Pending N))
      → AllFiled pairs
      → IsFiled currency
          (or_else (lookup currency pairs) no_curves_yet).discount
          (or_else (lookup currency pairs) no_curves_yet).projections
  pending_of currency pairs h = elim (Option-cases (lookup currency pairs)) [
    | inl missing ↦ rw missing (none-IsFiled currency)
    | inr (p, found) ↦
        rw found (lookup-All (λ k p. IsFiled k p.discount p.projections) currency p pairs h found)
  ]

  add_curves-AllFiled :
      (ps : List CurvePayload) (pairs : Dict (Pending N))
      → AllFiled pairs
      → AllFiled (add_curves ps pairs)
  unfolding add_curves add_curve to_discount_curve
  add_curves-AllFiled [] pairs h = h
  add_curves-AllFiled (p ∷ ps) pairs h =
      let c : DiscountCurve N = to_discount_curve p in
      let existing = or_else (lookup p.currency pairs) no_curves_yet in
      add_curves-AllFiled ps (add_curve p pairs) (
        insert-All (λ k p. IsFiled k p.discount p.projections) p.currency
          (filed p.curve_type p.index_id c existing) pairs
          (filed-IsFiled p.curve_type p.index_id c existing p.currency refl refl refl
            (pending_of p.currency pairs h))
          h)

  with_pair-AllPaired :
      (currency : String) (discount : Option (DiscountCurve N))
      (projections : Dict (DiscountCurve N)) (rest : Dict (CurrencyCurves N))
      → IsFiled currency discount projections
      → AllPaired rest
      → AllPaired (with_pair currency discount projections rest)
  with_pair-AllPaired currency none projections rest h k = k
  with_pair-AllPaired currency (some d) [] rest h k = k
  with_pair-AllPaired currency (some d) (p ∷ ps) rest h k = ((h, λ e. absurd (ground arith)), k)

  paired-AllPaired : (pairs : Dict (Pending N)) → AllFiled pairs → AllPaired (paired pairs)
  unfolding paired
  paired-AllPaired [] h = tt
  paired-AllPaired ((currency, pair) ∷ rest) (p, h) =
      with_pair-AllPaired currency pair.discount pair.projections (paired rest) p
        (paired-AllPaired rest h)

module _ {N : Type 0} ⦃reader : TextReader N⦄ ⦃platform : Platform⦄ where
  -- In every book that is built, each entry's discount curve is a discount curve of the entry's
  -- currency, the entry has a projection curve, and each of its projection curves is one of that
  -- currency for the index that it is filed under.
  pub build_curve_book-AllPaired :
      (now : ℕ) (cids : List String) (curves_by_id : Dict CurvePayload) (book : CurveBook N)
      → build_curve_book now cids curves_by_id ≡ done book
      → AllPaired book.by_currency
  unfolding build_curve_book
  build_curve_book-AllPaired now cids curves_by_id book h =
      let (ps, e, h1) = bind-done (payloads no_curve curves_by_id cids) _ book h in
      rw (← done_injective _ _ h1)
        (paired-AllPaired (add_curves ps []) (add_curves-AllFiled ps [] tt))
