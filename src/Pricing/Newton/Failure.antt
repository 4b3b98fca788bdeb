-- ===== src/Pricing/Newton/Failure.antt =====
-- Theorems on solver/newton.ts for a search that gives no root.
use irsforge.Base.{
  ℕ, zero, suc, ◌≡◌, refl, sym, ◌∙◌, ◌⊎◌, ◌||◌, ◌++◌, arith, inl, inr, Option, none, some, List, [],
  ◌∷◌, Bool, true, false, if◌then◌else◌, Bool-cases,
}
use irsforge.Pricing.Number.{Number, ◌⊕◌, ◌⊖◌, ◌⊗◌, absolute, is_le, is_lt, whole, fraction, larger}
use irsforge.Pricing.Newton.{
  NewtonOptions, Bisected, Bracket, Ended, at_root, without_root, bisect_loop, bisect, widen,
  expand_bracket, point, middle, tolerance, step_of, doubles_of, max_iterations, solve_newton,
  bisected, fall_back,
}

module _ {ℓ} {N : Type ℓ} ⦃arithmetic : Number N⦄ where
  abbrev pub first_width : NewtonOptions N → N
  first_width opts = larger (absolute (step_of opts)) (fraction 1 1000000000000)

module _ {ℓ} {N : Type ℓ} ⦃arithmetic : Number N⦄ (f : N → N) where
  -- `f` has the same sign on both sides of `x0`, at `width` and at each of its doublings.
  abbrev pub SameSign : ℕ → N → N → Type 0
  SameSign zero x0 width = Unit
  SameSign (suc left) x0 width =
      (is_le (f (x0 ⊖ width) ⊗ f (x0 ⊕ width)) (whole 0) ≡ false)
      × SameSign left x0 (width ⊗ whole 2)

  -- What `expandBracket` gives: no bracket, or one over which `f` changes its sign.
  abbrev Widened : ℕ → N → N → Option (Bracket N) → Type ℓ
  Widened left x0 width r =
      ((r ≡ none) × SameSign left x0 width)
      ⊎ ((k : Bracket N) × (r ≡ some k) × (is_le (k.f_lo ⊗ k.f_hi) (whole 0) ≡ true))

  abbrev around : N → N → Bracket N
  around x0 width = record {
    lo = x0 ⊖ width;
    f_lo = f (x0 ⊖ width);
    hi = x0 ⊕ width;
    f_hi = f (x0 ⊕ width);
  }

  -- One doubling: a bracket on the spot, or what the wider ones give.
  wider :
      (left : ℕ) (x0 width : N) (seen : List (N × N)) (rest : Option (Bracket N) × List (N × N))
      (crossing : Bool)
      → is_le (f (x0 ⊖ width) ⊗ f (x0 ⊕ width)) (whole 0) ≡ crossing
      → Widened left x0 (width ⊗ whole 2) rest.0
      → Widened (suc left) x0 width (if crossing then (some (around x0 width), seen) else rest).0
  wider left x0 width seen rest true here h = inr (around x0 width, refl, here)
  wider left x0 width seen rest false same (inl (none_found, h)) = inl (none_found, (same, h))
  wider left x0 width seen rest false same (inr found) = inr found

  widen-Widened :
      (left : ℕ) (x0 width : N) (trace : List (N × N))
      → Widened left x0 width (widen f left x0 width trace).0
  unfolding widen
  widen-Widened zero x0 width trace = inl (refl, tt)
  widen-Widened (suc left) x0 width trace =
      wider left x0 width _ _ _ refl (widen-Widened left x0 (width ⊗ whole 2) _)

  -- A bisection that starts gives a root.
  bisect_loop-root :
      (left : ℕ) (tol : N) (iter : ℕ) (a b fa : N) (trace : List (N × N))
      → (x : N) × ((bisect_loop f left tol iter a b fa trace).root ≡ some x)
  unfolding bisect_loop
  bisect_loop-root zero tol iter a b fa trace = (_, refl)
  bisect_loop-root (suc left) tol iter a b fa trace =
      let mid = middle f a b in
      let seen = trace ++ point f mid ∷ [] in
      elim (Bool-cases (is_le (absolute (f mid)) tol || is_lt (absolute (b ⊖ a)) tol)) [
        | inl near ↦ rw near (mid, refl)
        | inr far ↦ elim (Bool-cases (is_le (fa ⊗ f mid) (whole 0))) [
          | inl below ↦ rw (far, below) (bisect_loop-root left tol (suc iter) a mid fa seen)
          | inr above ↦ rw (far, above) (bisect_loop-root left tol (suc iter) mid b (f mid) seen)
        ]
      ]

  bisected-root :
      (iterations : ℕ) (best tol x : N) (bis : Bisected N)
      → bis.root ≡ some x
      → (bisected f iterations best tol bis).root ≡ some x
  bisected-root iterations best tol x bis at = rw (at, bisected) refl

  -- `a <= 0` and `0 < a` exclude each other.
  module _ (lt_of_le : (a : N) → is_le a (whole 0) ≡ true → is_lt (whole 0) a ≡ false) where
    bisect-root :
        (k : Bracket N) (tol : N) (most : ℕ) (trace : List (N × N))
        → is_le (k.f_lo ⊗ k.f_hi) (whole 0) ≡ true
        → (x : N) × ((bisect f k tol most trace).root ≡ some x)
    unfolding bisect
    bisect-root k tol most trace crossing =
        rw (lt_of_le (k.f_lo ⊗ k.f_hi) crossing)
          (bisect_loop-root most tol 0 k.lo k.hi k.f_lo trace)

    fall_back-SameSign :
        (x0 tol step : N) (most doubles : ℕ) (end : Ended f)
        → (fall_back f x0 tol step most doubles end).root ≡ none
        → SameSign doubles x0 (larger (absolute step) (fraction 1 1000000000000))
    unfolding expand_bracket
    fall_back-SameSign x0 tol step most doubles (at_root x iterations trace) failed =
        absurd (ground arith)
    fall_back-SameSign x0 tol step most doubles (without_root iterations best stalled trace)
          failed =
        let width = larger (absolute step) (fraction 1 1000000000000) in
        let seen = (widen f doubles x0 width trace).1 in
        elim (widen-Widened doubles x0 width trace) [
          | inl (no_bracket, h) ↦ h
          | inr (k, found, crossing) ↦
              let (x, at) = bisect-root k tol most seen crossing in
              let e : (fall_back f x0 tol step most doubles
                    (without_root iterations best stalled trace)).root
                  ≡ some x =
                rw (found, fall_back)
                  (bisected-root iterations best tol x (bisect f k tol most seen) at) in
              let given : some x ≡ none = sym e ∙ failed in absurd (ground arith)
        ]

    -- The root finder gives no root only when the start is not within the tolerance and the
    -- function keeps its sign over every interval that was tried: around the start, of the first
    -- step's width (at least 1e-12) and its doublings, as many as `bracketMax` asks for. The
    -- hypothesis on the numbers: none that is at most 0 is above 0.
    pub solve_newton_fails :
        (x0 : N) (opts : NewtonOptions N)
        → (solve_newton f x0 opts).root ≡ none
        → (is_le (absolute (f x0)) (tolerance opts) ≡ false)
          × SameSign (doubles_of opts) x0 (first_width opts)
    unfolding solve_newton
    solve_newton_fails x0 opts failed =
        elim (Bool-cases (is_le (absolute (f x0)) (tolerance opts))) [
          | inl near ↦ absurd (ground (arith, near))
          | inr far ↦ (
            far,
            fall_back-SameSign x0 (tolerance opts) (step_of opts) (max_iterations opts)
                (doubles_of opts) _ (rw far at failed),
          )
        ]
