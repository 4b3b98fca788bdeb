-- ===== src/Pricing/Newton/Laws.antt =====
-- Theorems on the results of solver/newton.ts, for any function and any numbers.
use irsforge.Base.{
  ℕ, zero, suc, ◌+◌, ◌≤◌, ◌≡◌, refl, sym, ap, ◌⊎◌, inl, inr, none, some, List, [], ◌∷◌, ◌++◌, true,
  false, not, ◌||◌, arith, All, All-snoc, Bool-cases, Option-cases,
}
use irsforge.Pricing.Number.{
  Number, ◌⊕◌, ◌⊖◌, ◌⊗◌, ◌⊘◌, absolute, is_le, is_lt, whole, fraction, larger,
}
use irsforge.Pricing.Newton.{
  NewtonResult, NewtonOptions, Bisected, Bracket, Ended, at_root, without_root, newton_loop,
  bisect_loop, bisect, widen, expand_bracket, point, middle, tolerance, max_iterations,
  solve_newton, numerical_slope, step_of, doubles_of, bisected, fall_back,
}

module _ {ℓ} {N : Type ℓ} ⦃arithmetic : Number N⦄ (f : N → N) where
  -- A point that was computed.
  abbrev pub OnGraph : N × N → Type ℓ
  OnGraph p = p.1 ≡ f p.0

  abbrev pub Traced : List (N × N) → Type ℓ
  Traced = All OnGraph

  -- What an answer of `bisect` is.
  abbrev IsAnswer : Bisected N → Type ℓ
  IsAnswer r =
      ((r.root ≡ none) ⊎ ((x : N) × (r.root ≡ some x) × (r.residual ≡ f x))) × Traced r.trace

  Traced-point : (trace : List (N × N)) (x : N) → Traced trace → Traced (trace ++ point f x ∷ [])
  Traced-point trace x h = All-snoc OnGraph trace (point f x) h refl

  bisect_loop-IsAnswer :
      (left : ℕ) (tol : N) (iter : ℕ) (a b fa : N) (trace : List (N × N))
      → Traced trace
      → IsAnswer (bisect_loop f left tol iter a b fa trace)
  unfolding bisect_loop
  bisect_loop-IsAnswer zero tol iter a b fa trace h = (inr (middle f a b, refl, refl), h)
  bisect_loop-IsAnswer (suc left) tol iter a b fa trace h =
      let mid = middle f a b in
      let k = Traced-point trace mid h in
      elim (Bool-cases (is_le (absolute (f mid)) tol || is_lt (absolute (b ⊖ a)) tol)) [
        | inl near ↦ rw near (inr (mid, refl, refl), k)
        | inr far ↦ elim (Bool-cases (is_le (fa ⊗ f mid) (whole 0))) [
          | inl left_half ↦
              rw (far, left_half) (bisect_loop-IsAnswer left tol (suc iter) a mid fa _ k)
          | inr right_half ↦
              rw (far, right_half) (bisect_loop-IsAnswer left tol (suc iter) mid b (f mid) _ k)
        ]
      ]

  -- Where the Newton loop ends.
  abbrev IsEnd : N → ℕ → Ended f → Type ℓ
  IsEnd tol most (at_root x iterations trace) =
      (is_le (absolute (f x)) tol ≡ true) × Traced trace × (iterations ≤ most)
  IsEnd tol most (without_root iterations best stalled trace) = Traced trace × (iterations ≤ most)

  newton_loop-IsEnd :
      (left most : ℕ) (tol step x : N) (iterations : ℕ) (best : N) (trace : List (N × N))
      → left + iterations ≤ most
      → Traced trace
      → IsEnd tol most (newton_loop f left tol step x (f x) iterations best trace)
  unfolding newton_loop numerical_slope
  newton_loop-IsEnd zero most tol step x iterations best trace room h = (h, omega arith)
  newton_loop-IsEnd (suc left) most tol step x iterations best trace room h =
      let slope = numerical_slope f x step in
      let next = x ⊖ f x ⊘ slope in
      let k = Traced-point trace next h in
      elim (Bool-cases (not (arithmetic.is_finite slope) || is_lt (absolute slope) (step ⊗ step))) [
        | inl flat ↦ rw flat (h, omega arith)
        | inr steep ↦ elim (Bool-cases (not (arithmetic.is_finite next))) [
          | inl lost ↦ rw (steep, lost) (h, omega arith)
          | inr kept ↦ elim (Bool-cases (is_le (absolute (f next)) tol)) [
            | inl near ↦ rw (steep, kept, near) (near, k, omega arith)
            | inr far ↦
                rw (steep, kept, far)
                  (newton_loop-IsEnd left most tol step next (suc iterations) _ _ (omega arith) k)
          ]
        ]
      ]

  widen-Traced :
      (left : ℕ) (x0 width : N) (trace : List (N × N))
      → Traced trace
      → Traced (widen f left x0 width trace).1
  unfolding widen
  widen-Traced zero x0 width trace h = h
  widen-Traced (suc left) x0 width trace h =
      let lo = x0 ⊖ width in
      let hi = x0 ⊕ width in
      let k = Traced-point _ hi (Traced-point trace lo h) in
      elim (Bool-cases (is_le (f lo ⊗ f hi) (whole 0))) [
        | inl crossing ↦ rw crossing k
        | inr same ↦ rw same (widen-Traced left x0 (width ⊗ whole 2) _ k)
      ]

  bisect-IsAnswer :
      (k : Bracket N) (tol : N) (max_iter : ℕ) (trace : List (N × N))
      → Traced trace
      → IsAnswer (bisect f k tol max_iter trace)
  unfolding bisect
  bisect-IsAnswer k tol max_iter trace h = elim (Bool-cases (is_lt (whole 0) (k.f_lo ⊗ k.f_hi))) [
    | inl same ↦ rw same (inl refl, h)
    | inr crossing ↦ rw crossing (bisect_loop-IsAnswer max_iter tol 0 k.lo k.hi k.f_lo trace h)
  ]

  -- A result without a root has not converged; one with a root carries what `f` is there, and has
  -- converged just when that is within the tolerance.
  abbrev pub IsOutcome : N → NewtonResult N → Type ℓ
  IsOutcome tol r =
      ((r.root ≡ none) × (r.converged ≡ false))
      ⊎ ((x : N) × (r.root ≡ some x)
          × (r.residual ≡ f x)
          × (r.converged ≡ is_le (absolute (f x)) tol))

  abbrev Sound : N → ℕ → NewtonResult N → Type ℓ
  Sound tol most r = IsOutcome tol r × Traced r.trace × (r.iterations ≤ most)

  bisected-Sound :
      (most iterations : ℕ) (best tol : N) (bis : Bisected N)
      → iterations ≤ most
      → IsAnswer bis
      → Sound tol most (bisected f iterations best tol bis)
  bisected-Sound most iterations best tol bis room (inl none_found, h) =
      rw none_found (inl (refl, refl), h, room)
  bisected-Sound most iterations best tol bis room (inr (x, at, residual), h) =
      rw at (inr (x, refl, residual, ap (λ r. is_le (absolute r) tol) residual), h, room)

  fall_back-Sound :
      (x0 tol step : N) (most doubles : ℕ) (end : Ended f)
      → IsEnd tol most end
      → Sound tol most (fall_back f x0 tol step most doubles end)
  unfolding expand_bracket
  fall_back-Sound x0 tol step most doubles (at_root x iterations trace) (near, h, room) =
      (inr (x, refl, refl, sym near), h, room)
  fall_back-Sound x0 tol step most doubles (without_root iterations best stalled trace) (h, room) =
      let k = widen-Traced doubles x0 (larger (absolute step) (fraction 1 1000000000000)) trace h in
      let bracket = expand_bracket f x0 step doubles trace in
      elim (Option-cases bracket.0) [
        | inl no_bracket ↦ rw (no_bracket, fall_back) (inl (refl, refl), k, room)
        | inr (b, found) ↦
            rw (found, fall_back)
              (bisected-Sound most iterations best tol (bisect f b tol most bracket.1) room
                (bisect-IsAnswer b tol most bracket.1 k))
      ]

  -- For every function and start: a result without a root has not converged; one with a root has
  -- the function's value there as its residual, and has converged just when that is within the
  -- tolerance. Every point of the trace is on the function's graph, and the Newton iterations
  -- are at most `maxIter`.
  pub solve_newton_sound :
      (x0 : N) (opts : NewtonOptions N)
      → IsOutcome (tolerance opts) (solve_newton f x0 opts)
        × Traced (solve_newton f x0 opts).trace
        × ((solve_newton f x0 opts).iterations ≤ max_iterations opts)
  unfolding solve_newton
  solve_newton_sound x0 opts =
      let tol = tolerance opts in
      let start : Traced (point f x0 ∷ []) = (refl, tt) in
      elim (Bool-cases (is_le (absolute (f x0)) tol)) [
        | inl near ↦ rw near (inr (x0, refl, refl, sym near), start, omega arith)
        | inr far ↦ rw far (
            fall_back-Sound x0 tol (step_of opts) (max_iterations opts) (doubles_of opts) _ (
              newton_loop-IsEnd (max_iterations opts) (max_iterations opts) tol (step_of opts) x0 0
                (absolute (f x0)) _ (omega arith) start))
      ]
