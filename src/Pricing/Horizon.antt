-- ===== src/Pricing/Horizon.antt =====
-- shared-pricing/src/risk/time.ts
use irsforge.Base.{
  ℕ, zero, suc, ◌+◌, ◌-◌, ◌*◌, Option, none, some, List, [], ◌∷◌, ◌++◌, map, String, ◌==◌, Bool,
  true, false, ltb, leb, ◌||◌, min, if◌then◌else◌,
}
use irsforge.Base.Int.{ℤ, pos, ◌-ℤ◌, leb_ℤ}
use irsforge.Base.Dict.{Dict}
use irsforge.Pricing.Number.{Number, ◌⊕◌, ◌⊖◌, ◌⊗◌, whole}
use irsforge.Pricing.Dates.{Day}
use irsforge.Pricing.Types.{
  Platform, days_between, CashflowEntry, Pillar, DiscountCurve, CurrencyCurves, CurveBook,
  PeriodicSchedule, Leg, fixed, float, fx_leg, SwapConfig, PricingContext, PricingError, not_after,
  before, not_positive, no_event, Outcome, ok, threw, ◌>>=◌, or_else,
}
use irsforge.Pricing.Cashflows.{payment_dates}
use irsforge.Pricing.Engine.{leg_currency, reporting_currency, fx_factor, map_value, with_curves}
use irsforge.Pricing.Engine.Price.{get_strategy, price}
pub mod Laws
pub mod Direction

pub data Event : Type 0 where
  fixing payment : Event

-- The seconds of a relative horizon are whole.
pub data Horizon : Type 0 where
  to_timestamp : (as_of : String) → Horizon
  delta_seconds : (seconds : ℕ) → Horizon
  to_next_event : Event → Horizon

pub data Mode : Type 0 where
  slide freeze : Mode

abbrev at_least_one : ℤ → ℤ
at_least_one days = if leb_ℤ days (pos 1) then pos 1 else days

-- `Math.min(...times)`
abbrev pub earliest : ℕ → List ℕ → ℕ
earliest t [] = t
earliest t (u ∷ us) = earliest (min t u) us

abbrev pub earliest_of : List ℕ → Option ℕ
earliest_of [] = none
earliest_of (t ∷ ts) = some (earliest t ts)

module _ ⦃platform : Platform⦄ where
  -- The first payment date after `t0`, as a list of at most one time.
  abbrev pub first_later : ℕ → List Day → List ℕ
  first_later t0 [] = []
  first_later t0 (d ∷ ds) =
      let rest = first_later t0 ds in
      if ltb t0 (platform.time_of d) then platform.time_of d ∷ [] else rest

module _ {N : Type 0} ⦃platform : Platform⦄ where
  -- What a leg adds to the candidates.
  unfoldable pub candidates_of : Event → ℕ → Leg N → List ℕ
  unfolding payment_dates
  candidates_of fixing t0 (float leg) = first_later t0 (payment_dates leg.schedule)
  candidates_of fixing t0 _ = []
  candidates_of payment t0 (fixed leg) = first_later t0 (payment_dates leg.schedule)
  candidates_of payment t0 (float leg) = first_later t0 (payment_dates leg.schedule)
  candidates_of payment t0 (fx_leg leg) =
      if ltb t0 leg.payment_date then leg.payment_date ∷ [] else []
  candidates_of payment t0 _ = []

  unfoldable pub candidates : Event → ℕ → List (Leg N) → List ℕ
  unfolding candidates_of
  candidates event t0 [] = []
  candidates event t0 (leg ∷ legs) = candidates_of event t0 leg ++ candidates event t0 legs

  -- `nextEvent`: without a fixing, the next payment.
  unfoldable pub next_event : Event → ℕ → List (Leg N) → Option ℕ
  unfolding candidates
  next_event payment t0 legs = earliest_of (candidates payment t0 legs)
  next_event fixing t0 legs = elim (earliest_of (candidates fixing t0 legs)) [
    | some t ↦ some t
    | none ↦ earliest_of (candidates payment t0 legs)
  ]

  unfoldable pub resolve_horizon : SwapConfig N → PricingContext N → Horizon → Outcome String
  unfolding next_event
  resolve_horizon config ctx (to_timestamp as_of) =
      if ltb (platform.parse ctx.curve.as_of) (platform.parse as_of)
      then ok as_of
      else threw (not_after ctx.curve.as_of)
  resolve_horizon config ctx (delta_seconds seconds) =
      if ltb 0 seconds
      then ok (platform.to_iso (platform.parse ctx.curve.as_of + seconds * 1000))
      else threw not_positive
  resolve_horizon config ctx (to_next_event event) =
      elim (next_event event (platform.parse ctx.curve.as_of) config.legs) [
        | none ↦ threw no_event
        | some t ↦ ok (platform.to_iso t)
      ]

  -- The nodes of the curve when `freeze` holds its dates.
  abbrev frozen : ℤ → Mode → List (Pillar N) → List (Pillar N)
  frozen days slide ps = ps
  frozen days freeze ps =
      map
        (λ p. record { tenor_days = at_least_one (p.tenor_days -ℤ days); zero_rate = p.zero_rate })
        ps

  unfoldable pub shift_curve : DiscountCurve N → String → ℤ → Mode → DiscountCurve N
  shift_curve c as_of days mode = record {
    currency = c.currency;
    curve_type = c.curve_type;
    index_id = c.index_id;
    as_of = as_of;
    pillars = frozen days mode c.pillars;
    interpolation = c.interpolation;
    day_count = c.day_count;
  }

  abbrev shift_book : String → ℤ → Mode → CurveBook N → CurveBook N
  shift_book as_of days mode book = record {
    as_of = as_of;
    by_currency =
        map_value
          (λ pair. record {
            discount = shift_curve pair.discount as_of days mode;
            projections = map_value (λ c. shift_curve c as_of days mode) pair.projections;
          })
          book.by_currency;
  }

  -- The context that `advanceAsOf` gives for a target that is not before its date.
  abbrev pub advanced : PricingContext N → String → Mode → PricingContext N
  advanced ctx as_of mode =
      let days = days_between (platform.parse ctx.curve.as_of) (platform.parse as_of) in
      with_curves ctx (shift_curve ctx.curve as_of days mode)
        (elim ctx.book [ none ↦ none | some book ↦ some (shift_book as_of days mode book) ])

  unfoldable pub advance_as_of : PricingContext N → String → Mode → Outcome (PricingContext N)
  unfolding shift_curve
  advance_as_of ctx as_of mode =
      if ltb (platform.parse as_of) (platform.parse ctx.curve.as_of)
      then threw (before ctx.curve.as_of)
      else ok (advanced ctx as_of mode)

  -- `{ ...ctx, valueDate }`
  abbrev pub with_value_date : PricingContext N → ℕ → PricingContext N
  with_value_date ctx date = record {
    curve = ctx.curve;
    index = ctx.index;
    indices_by_leg = ctx.indices_by_leg;
    observations = ctx.observations;
    book = ctx.book;
    fx_spots = ctx.fx_spots;
    reporting_ccy = ctx.reporting_ccy;
    credit_spread = ctx.credit_spread;
    value_date = some date;
  }

  abbrev pub today : PricingContext N → PricingContext N
  today ctx = with_value_date ctx (platform.parse ctx.curve.as_of)

module _ {N : Type 0} ⦃arithmetic : Number N⦄ ⦃platform : Platform⦄ (config : SwapConfig N) where
  abbrev pub npv_of : PricingContext N → Outcome N
  npv_of ctx = price config ctx >>= λ v. ok v.npv

  unfoldable pub price_strictly_future : PricingContext N → String → Outcome N
  unfolding price
  price_strictly_future ctx as_of = npv_of (with_value_date ctx (platform.parse as_of))

  -- The inner loop of `cashflowsBetween`, over one leg's cashflows.
  unfoldable pub add_between :
      PricingContext N → String → Leg N → ℕ → ℕ → N → List (CashflowEntry N) → Outcome N
  unfolding fx_factor leg_currency
  add_between ctx reporting leg t0 t1 total [] = ok total
  add_between ctx reporting leg t0 t1 total (cf ∷ cfs) =
      let from = or_else cf.currency (or_else (leg_currency leg) reporting) in
      let same = add_between ctx reporting leg t0 t1 (total ⊕ cf.amount) cfs in
      let other = fx_factor from reporting (or_else ctx.fx_spots []) >>= λ factor.
      add_between ctx reporting leg t0 t1 (total ⊕ cf.amount ⊗ factor) cfs in
      let skipped = add_between ctx reporting leg t0 t1 total cfs in
      if leb cf.date t0 || ltb t1 cf.date
      then skipped
      else if from == reporting
      then same
      else other

  abbrev pub legs_between : PricingContext N → String → ℕ → ℕ → ℕ → N → List (Leg N) → Outcome N
  legs_between ctx reporting t0 t1 i total [] = ok total
  legs_between ctx reporting t0 t1 i total (leg ∷ legs) =
      (get_strategy config.kind).cashflows leg ctx i none >>= λ cfs.
      add_between ctx reporting leg t0 t1 total cfs >>= λ sum.
      legs_between ctx reporting t0 t1 (suc i) sum legs

  unfoldable pub cashflows_between : PricingContext N → String → String → Outcome N
  unfolding add_between reporting_currency get_strategy
  cashflows_between ctx from to = reporting_currency config ctx >>= λ reporting.
      legs_between ctx reporting (platform.parse from) (platform.parse to) 0 (whole 0) config.legs

  unfoldable pub theta : PricingContext N → Horizon → Outcome N
  unfolding resolve_horizon price advance_as_of price_strictly_future
  theta ctx h = resolve_horizon config ctx h >>= λ t1. npv_of (today ctx) >>= λ npv_t0.
      advance_as_of (today ctx) t1 freeze >>= λ later.
      price_strictly_future later t1 >>= λ npv_t1. ok (npv_t1 ⊖ npv_t0)

  unfoldable pub carry : PricingContext N → Horizon → Outcome N
  unfolding resolve_horizon cashflows_between
  carry ctx h = resolve_horizon config ctx h >>= λ t1. cashflows_between ctx ctx.curve.as_of t1

  unfoldable pub roll : PricingContext N → Horizon → Outcome N
  unfolding resolve_horizon advance_as_of price_strictly_future
  roll ctx h = resolve_horizon config ctx h >>= λ t1. advance_as_of ctx t1 freeze >>= λ frozen_ctx.
      advance_as_of ctx t1 slide >>= λ slid. price_strictly_future slid t1 >>= λ npv_slid.
      price_strictly_future frozen_ctx t1 >>= λ npv_frozen. ok (npv_slid ⊖ npv_frozen)

  unfoldable pub forward_npv : PricingContext N → String → Outcome N
  unfolding advance_as_of price_strictly_future
  forward_npv ctx as_of =
      let forward =
        advance_as_of (today ctx) as_of slide >>= λ later. price_strictly_future later as_of in
      if ltb (platform.parse as_of) (platform.parse ctx.curve.as_of)
      then threw (before ctx.curve.as_of)
      else forward
