-- ===== src/Pricing/Fpml/Laws.antt =====
-- Theorems on the classification of FpML streams and on the swap that is made of them.
use irsforge.Base.{
  ◌≡◌, refl, ap, ◌∙◌, sym, List, [], ◌∷◌, ◌⊎◌, inl, inr, ◌≢◌, Bool, true, false, Bool-cases, ◌==◌,
  eq_iff, String, filter, arith, length, map,
}
use irsforge.Pricing.Number.{Number, ◌⊗◌, negative, whole}
use irsforge.Pricing.Types.{Leg, SwapType, irs, xccy, SwapConfig, PricingContext, Outcome, ok}
use irsforge.Pricing.Engine.{notional_of, is_xccy, converted}
use irsforge.Pricing.Engine.Fold.{bind-ok, ok_injective}
use irsforge.Pricing.Fpml.{
  TextReader, ParsedLeg, ParsedFpml, Classification, irs_of, ois_of, basis_of, xccy_of, wrong_count,
  wrong_shape, is_fixed_rate, is_float_rate, is_ois, classify_pair, classify_legs, classify,
  map_day_count,
}
use irsforge.Pricing.Fpml.Swap.{
  build_fixed_float, build_basis_swap_config, build_config, parsed_fpml_to_swap_config,
}

eq_comm : (s t : String) → (s == t) ≡ (t == s)
eq_comm s t = ground (arith, eq_iff s t, eq_iff t s)

module _ {N : Type 0} where
  -- The two legs are these, in one order or the other.
  abbrev AreLegs : ParsedLeg N → ParsedLeg N → List (ParsedLeg N) → Type 0
  AreLegs x y legs = (legs ≡ x ∷ y ∷ []) ⊎ (legs ≡ y ∷ x ∷ [])

  abbrev AreFixedFloat : Bool → ParsedLeg N → ParsedLeg N → List (ParsedLeg N) → Type 0
  AreFixedFloat same x y legs =
      (is_fixed_rate x ≡ true)
      × (is_float_rate y ≡ true)
      × ((x.currency == y.currency) ≡ same)
      × AreLegs x y legs

  -- The legs that no product has: two fixed ones, or two floating ones in two currencies.
  abbrev AreUnsupported : ParsedLeg N → ParsedLeg N → Type 0
  AreUnsupported a b =
      ((is_fixed_rate a ≡ true) × (is_fixed_rate b ≡ true))
      ⊎ ((is_float_rate a ≡ true) × (is_float_rate b ≡ true) × ((a.currency == b.currency) ≡ false))

  -- What a classification says of the legs.
  abbrev pub Suits : Classification N → List (ParsedLeg N) → Type 0
  Suits (irs_of x y) legs = AreFixedFloat true x y legs × (is_ois y ≡ false)
  Suits (ois_of x y) legs = AreFixedFloat true x y legs × (is_ois y ≡ true)
  Suits (xccy_of x y) legs = AreFixedFloat false x y legs
  Suits (basis_of a b) legs =
      (legs ≡ a ∷ b ∷ [])
      × (is_float_rate a ≡ true)
      × (is_float_rate b ≡ true)
      × ((a.currency == b.currency) ≡ true)
  Suits (wrong_count count) legs = (length legs ≡ count) × (count ≢ 2)
  Suits wrong_shape legs =
      (a : ParsedLeg N) × (b : ParsedLeg N) × (legs ≡ a ∷ b ∷ []) × AreUnsupported a b

  rate-cases :
      (leg : ParsedLeg N)
      → ((is_fixed_rate leg ≡ true) × (is_float_rate leg ≡ false))
        ⊎ ((is_fixed_rate leg ≡ false) × (is_float_rate leg ≡ true))
  rate-cases leg = ground arith

  -- A fixed leg and a floating one.
  fixed_float-Suits :
      (x y : ParsedLeg N) (same : Bool) (a b : ParsedLeg N)
      → AreFixedFloat same x y (a ∷ b ∷ [])
      → Suits (classify_pair same (x ∷ []) (y ∷ []) a b) (a ∷ b ∷ [])
  unfolding classify_pair
  fixed_float-Suits x y false a b h = h
  fixed_float-Suits x y true a b h = elim (Bool-cases (is_ois y)) [
    | inl overnight ↦ rw overnight (h, overnight)
    | inr term ↦ rw term (h, term)
  ]

  classify_pair-Suits :
      (a b : ParsedLeg N)
      → Suits
          (classify_pair
            (a.currency == b.currency)
            (filter is_fixed_rate (a ∷ b ∷ []))
            (filter is_float_rate (a ∷ b ∷ []))
            a
            b)
          (a ∷ b ∷ [])
  unfolding classify_pair
  classify_pair-Suits a b = elim (rate-cases a) [
    | inl (a_fixed, a_not) ↦ elim (rate-cases b) [
      | inl (b_fixed, b_not) ↦
          rw (a_fixed, a_not, b_fixed, b_not)
            (elim (Bool-cases (a.currency == b.currency)) [
              | inl same ↦ rw same (a, b, refl, inl (a_fixed, b_fixed))
              | inr other ↦ rw other (a, b, refl, inl (a_fixed, b_fixed))
            ])
      | inr (b_not, b_float) ↦
          rw (a_fixed, a_not, b_not, b_float)
            (fixed_float-Suits a b (a.currency == b.currency) a b
              (a_fixed, b_float, refl, inl refl))
    ]
    | inr (a_not, a_float) ↦ elim (rate-cases b) [
      | inl (b_fixed, b_not) ↦
          rw (a_not, a_float, b_fixed, b_not)
            (fixed_float-Suits b a (a.currency == b.currency) a b
              (b_fixed, a_float, eq_comm b.currency a.currency, inr refl))
      | inr (b_not, b_float) ↦
          rw (a_not, a_float, b_not, b_float)
            (elim (Bool-cases (a.currency == b.currency)) [
              | inl same ↦ rw same (refl, a_float, b_float, same)
              | inr other ↦ rw other (a, b, refl, inr (a_float, b_float, other))
            ])
    ]
  ]

  -- The classification of a parsed trade is right and complete: IRS and OIS are a fixed and a
  -- floating leg in one currency, told apart by the test for an overnight leg; XCCY is a fixed and
  -- a floating leg in two currencies; BASIS is two floating legs in one currency, in their order;
  -- the legs that it names are the legs of the trade. It refuses only a trade without exactly two
  -- legs, two fixed legs, and two floating legs in different currencies.
  pub classify-Suits : (parsed : ParsedFpml N) → Suits (classify parsed) parsed.legs
  unfolding classify classify_legs
  classify-Suits parsed = elim parsed.legs as (λ legs. Suits (classify_legs legs) legs) [
    | [] ↦ (refl, ground arith)
    | a ∷ [] ↦ (refl, ground arith)
    | a ∷ b ∷ [] ↦ classify_pair-Suits a b
    | a ∷ b ∷ c ∷ rest ↦ (refl, ground arith)
  ]

  -- The legs of a classification, in the order in which a swap takes them.
  abbrev pub legs_of : Classification N → List (ParsedLeg N)
  legs_of (irs_of x y) = x ∷ y ∷ []
  legs_of (ois_of x y) = x ∷ y ∷ []
  legs_of (xccy_of x y) = x ∷ y ∷ []
  legs_of (basis_of a b) = a ∷ b ∷ []
  legs_of _ = []

module _ {N : Type 0} ⦃arithmetic : Number N⦄ where
  -- The sign with which a swap of the classification counts a leg.
  abbrev pub side : Classification N → N
  side (basis_of a b) = negative (whole 1)
  side _ = whole 1

module _ {N : Type 0} ⦃arithmetic : Number N⦄ ⦃reader : TextReader N⦄ where
  build_fixed_float-kind :
      (kind : SwapType) (x y : ParsedLeg N) (parsed : ParsedFpml N) (config : SwapConfig N)
      → build_fixed_float kind x y parsed ≡ ok config
      → config.kind ≡ kind
  unfolding build_fixed_float
  build_fixed_float-kind kind x y parsed config h =
      let (c, first, h1) = bind-ok (map_day_count x.day_count_fraction) _ config h in
      let (d, second, h2) = bind-ok (map_day_count y.day_count_fraction) _ config h1 in
      ap (λ r. r.kind) (sym (ok_injective _ _ h2))

  -- What the valuation counts a leg for, if the leg is worth `unit` for each unit of its notional.
  abbrev pub counted : SwapConfig N → PricingContext N → String → N → Leg N → Outcome N
  counted config ctx reporting unit leg =
      converted config ctx reporting leg (notional_of leg ⊗ unit)

  module _ (turn : (x y : N) → negative x ⊗ y ≡ negative (x ⊗ y))
      (twice : (x : N) → negative (whole 1) ⊗ negative x ≡ whole 1 ⊗ x)
      (once : (x : N) → whole 1 ⊗ negative x ≡ negative (whole 1) ⊗ x) (ctx : PricingContext N)
      (reporting : String) (unit : N) where
    build_fixed_float-counted :
        (kind : SwapType) (x y : ParsedLeg N) (parsed : ParsedFpml N) (config : SwapConfig N)
        → is_xccy kind ≡ false
        → build_fixed_float kind x y parsed ≡ ok config
        → map (counted config ctx reporting unit) config.legs
          ≡ ok (whole 1 ⊗ (x.notional ⊗ unit)) ∷ ok (whole 1 ⊗ (y.notional ⊗ unit)) ∷ []
    unfolding build_fixed_float converted
    build_fixed_float-counted kind x y parsed config one_currency h =
        let (c, first, h1) = bind-ok (map_day_count x.day_count_fraction) _ config h in
        let (d, second, h2) = bind-ok (map_day_count y.day_count_fraction) _ config h1 in
        let same = ok_injective _ _ h2 in
        ap (λ r. map (counted r ctx reporting unit) r.legs) (sym same)
        ∙ rw one_currency (
            ap (λ n. ok (whole 1 ⊗ (x.notional ⊗ unit)) ∷ ok n ∷ [])
              (ap (λ n. negative (whole 1) ⊗ n) (turn y.notional unit) ∙ twice (y.notional ⊗ unit)))

    build_basis_swap_config-counted :
        (a b : ParsedLeg N) (parsed : ParsedFpml N) (config : SwapConfig N)
        → build_basis_swap_config a b parsed ≡ ok config
        → map (counted config ctx reporting unit) config.legs
          ≡ ok (negative (whole 1) ⊗ (a.notional ⊗ unit))
            ∷ ok (negative (whole 1) ⊗ (b.notional ⊗ unit))
            ∷ []
    unfolding build_basis_swap_config converted
    build_basis_swap_config-counted a b parsed config h =
        let (c, first, h1) = bind-ok (map_day_count a.day_count_fraction) _ config h in
        let (d, second, h2) = bind-ok (map_day_count b.day_count_fraction) _ config h1 in
        ap (λ r. map (counted r ctx reporting unit) r.legs) (sym (ok_injective _ _ h2))
        ∙ ap (λ n. ok (negative (whole 1) ⊗ (a.notional ⊗ unit)) ∷ ok n ∷ [])
            (ap (λ n. whole 1 ⊗ n) (turn b.notional unit) ∙ once (b.notional ⊗ unit))

    build_config-counted :
        (c : Classification N) (parsed : ParsedFpml N) (config : SwapConfig N)
        → is_xccy config.kind ≡ false
        → build_config c parsed ≡ ok config
        → map (counted config ctx reporting unit) config.legs
          ≡ map (λ leg. ok (side c ⊗ (leg.notional ⊗ unit))) (legs_of c)
    unfolding build_config
    build_config-counted (irs_of x y) parsed config one_currency h =
        build_fixed_float-counted irs x y parsed config refl h
    build_config-counted (ois_of x y) parsed config one_currency h =
        build_fixed_float-counted irs x y parsed config refl h
    build_config-counted (xccy_of x y) parsed config one_currency h =
        let kind = build_fixed_float-kind xccy x y parsed config h in
        absurd (ground (arith, one_currency, ap is_xccy kind))
    build_config-counted (basis_of a b) parsed config one_currency h =
        build_basis_swap_config-counted a b parsed config h
    build_config-counted (wrong_count n) parsed config one_currency h = absurd (ground arith)
    build_config-counted wrong_shape parsed config one_currency h = absurd (ground arith)

    -- Of a swap in one currency that is made of FpML streams, the end of the valuation's loop over
    -- the legs gives both legs the same sign: where each leg is worth an amount `unit` for each unit
    -- of the notional in the swap, it counts the fixed and the floating leg both as received at the
    -- notionals of the streams, and the legs of a basis swap both as paid. The notional's sign and
    -- the direction turn the second leg twice. The hypotheses on the numbers: signs cancel and move
    -- out of products as in exact arithmetic.
    pub parsed_fpml_to_swap_config-counted :
        (parsed : ParsedFpml N) (config : SwapConfig N)
        → parsed_fpml_to_swap_config parsed ≡ ok config
        → is_xccy config.kind ≡ false
        → map (counted config ctx reporting unit) config.legs
          ≡ map
              (λ leg. ok (side (classify parsed) ⊗ (leg.notional ⊗ unit)))
              (legs_of (classify parsed))
    unfolding parsed_fpml_to_swap_config
    parsed_fpml_to_swap_config-counted parsed config h one_currency =
        build_config-counted (classify parsed) parsed config one_currency h
