-- ===== src/Pricing/Attribution/Laws.antt =====
-- Theorems on the buckets of attribution/decompose.ts.
use irsforge.Base.{◌≡◌, sym, ◌∙◌, ap, List, [], if◌then◌else◌}
use irsforge.Pricing.Number.{Number, ◌⊕◌, ◌⊖◌, negative, is_eq, whole, IsAdditive}
use irsforge.Pricing.Types.{Platform, SwapConfig, ok}
use irsforge.Pricing.Engine.Fold.{bind-ok, ok_injective}
use irsforge.Pricing.Attribution.{
  PricingSnapshot, LedgerEvent, AttributionBreakdown, observations_from_events, paid_cash,
  snap_time, snap_curve, snap_basis, snap_fixing, buckets, pv, decompose,
}

module _ {N : Type 0} ⦃arithmetic : Number N⦄ where
  abbrev buckets_sum : AttributionBreakdown N → N
  buckets_sum b = b.curve ⊕ b.basis ⊕ b.carry ⊕ b.roll ⊕ b.fixing

  module _ (exact : IsAdditive N) where
    -- The buckets before the remainder lead from the first value to the last of the steps.
    buckets_telescope :
        (paid pv0 pv1 pt pc pb pf : N) → pv0 ⊕ buckets_sum (buckets paid pv0 pv1 pt pc pb pf) ≡ pf
    buckets_telescope paid pv0 pv1 pt pc pb pf =
        let k = if is_eq paid (whole 0) then whole 0 else negative paid in
        let c = pc ⊖ pt in
        let b = pb ⊖ pc in
        let r = pt ⊖ pv0 ⊖ k in
        let f = pf ⊖ pb in
        let time : pv0 ⊕ (k ⊕ r) ≡ pt =
          ap (λ x. pv0 ⊕ x) (exact.add-sub k (pt ⊖ pv0)) ∙ exact.add-sub pv0 pt in
        let order : c ⊕ b ⊕ k ⊕ r ≡ k ⊕ r ⊕ (c ⊕ b) =
          exact.add_assoc (c ⊕ b) k r ∙ exact.add_comm (c ⊕ b) (k ⊕ r) in
        ap (λ x. pv0 ⊕ (x ⊕ f)) order
        ∙ sym (exact.add_assoc pv0 (k ⊕ r ⊕ (c ⊕ b)) f)
        ∙ ap (λ x. x ⊕ f) (sym (exact.add_assoc pv0 (k ⊕ r) (c ⊕ b)))
        ∙ ap (λ x. x ⊕ (c ⊕ b) ⊕ f) time
        ∙ ap (λ x. x ⊕ f)
            (sym (exact.add_assoc pt c b)
              ∙ ap (λ x. x ⊕ b) (exact.add-sub pt pc)
              ∙ exact.add-sub pc pb)
        ∙ exact.add-sub pb pf

    cancel : (s z : N) → s ⊕ z ≡ s → z ≡ whole 0
    cancel s z h =
        sym (exact.sub-add s z)
        ∙ ap (λ x. x ⊖ s) (h ∙ sym (exact.add_zero s))
        ∙ exact.sub-add s (whole 0)

    -- The remainder when the last step's value is the second snapshot's.
    buckets_unexplained :
        (paid pv0 pt pc pb pf : N) → (buckets paid pv0 pf pt pc pb pf).unexplained ⊕ paid ≡ whole 0
    buckets_unexplained paid pv0 pt pc pb pf =
        let b = buckets paid pv0 pf pt pc pb pf in
        let s = buckets_sum b in
        let u = b.unexplained in
        let gained : pf ⊖ pv0 ≡ s =
          ap (λ x. x ⊖ pv0) (sym (buckets_telescope paid pv0 pf pt pc pb pf))
          ∙ exact.sub-add pv0 s in
        let all : s ⊕ u ≡ b.total = exact.add-sub s b.total in
        cancel s (u ⊕ paid) (
          sym (exact.add_assoc s u paid)
          ∙ ap (λ x. x ⊕ paid) all
          ∙ exact.add_comm b.total paid
          ∙ exact.add-sub paid (pf ⊖ pv0)
          ∙ gained)

-- The steps of a decomposition that gives a result.
module _ {N : Type 0} ⦃arithmetic : Number N⦄ ⦃platform : Platform⦄ (config : SwapConfig N) where
  record Steps (snap0 snap1 : PricingSnapshot N) (events : List (LedgerEvent N))
      (r : AttributionBreakdown N) : Type 0 where
    pv0 : N
    pv1 : N
    pt : N
    pc : N
    pb : N
    pf : N
    first : pv config snap0 [] ≡ ok pv0
    second : pv config snap1 (observations_from_events events) ≡ ok pv1
    last : pv config (snap_fixing snap0 snap1) (observations_from_events events) ≡ ok pf
    result : buckets (paid_cash snap0.as_of snap1.as_of (whole 0) events) pv0 pv1 pt pc pb pf ≡ r

  decompose-Steps :
      (snap0 snap1 : PricingSnapshot N) (events : List (LedgerEvent N)) (r : AttributionBreakdown N)
      → decompose config snap0 snap1 events ≡ ok r
      → Steps snap0 snap1 events r
  unfolding decompose
  decompose-Steps snap0 snap1 events r h =
      let observed = observations_from_events events in
      let (pv0, first, h1) = bind-ok (pv config snap0 []) _ r h in
      let (pv1, second, h2) = bind-ok (pv config snap1 observed) _ r h1 in
      let (pt, time, h3) = bind-ok (pv config (snap_time snap0 snap1) []) _ r h2 in
      let (pc, moved, h4) = bind-ok (pv config (snap_curve snap0 snap1) []) _ r h3 in
      let (pb, based, h5) = bind-ok (pv config (snap_basis snap0 snap1) []) _ r h4 in
      let (pf, last, h6) = bind-ok (pv config (snap_fixing snap0 snap1) observed) _ r h5 in
      record {
        pv0 = pv0;
        pv1 = pv1;
        pt = pt;
        pc = pc;
        pb = pb;
        pf = pf;
        first = first;
        second = second;
        last = last;
        result = ok_injective _ _ h6;
      }

  -- With the same FX spots, credit spread and indices by leg in both snapshots, the unexplained
  -- bucket is the negative of the cash paid in the window, whatever the market did. The hypothesis
  -- on the numbers: sums do not round.
  pub decompose-unexplained :
      IsAdditive N
      → (snap0 snap1 : PricingSnapshot N) (events : List (LedgerEvent N))
        (r : AttributionBreakdown N)
      → decompose config snap0 snap1 events ≡ ok r
      → snap0.fx_spots ≡ snap1.fx_spots
      → snap0.credit_spread ≡ snap1.credit_spread
      → snap0.indices_by_leg ≡ snap1.indices_by_leg
      → r.unexplained ⊕ paid_cash snap0.as_of snap1.as_of (whole 0) events ≡ whole 0
  unfolding snap_fixing
  decompose-unexplained exact snap0 snap1 events r h fx credit indices =
      let s = decompose-Steps snap0 snap1 events r h in
      let last : pv config snap1 (observations_from_events events) ≡ ok s.pf =
        rw (← fx, ← credit, ← indices) s.last in
      let same = ok_injective s.pf s.pv1 (sym last ∙ s.second) in
      rw (← s.result, ← same) (buckets_unexplained exact _ s.pv0 s.pt s.pc s.pb s.pf)
