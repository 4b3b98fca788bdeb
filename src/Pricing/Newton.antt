-- ===== src/Pricing/Newton.antt =====
-- shared-pricing/src/solver/newton.ts
use irsforge.Base.{
  ℕ, zero, suc, ◌+◌, ◌^◌, ◌≡◌, Option, none, some, List, [], ◌∷◌, ◌++◌, Bool, true, false, not,
  ◌||◌, leb, max, if◌then◌else◌,
}
use irsforge.Pricing.Types.{or_else}
use irsforge.Pricing.Number.{
  Number, ◌⊕◌, ◌⊖◌, ◌⊗◌, ◌⊘◌, absolute, is_le, is_lt, fraction, whole, larger, smaller,
}
pub mod Laws
pub mod Failure
pub mod Widths

pub data Method : Type 0 where
  newton bisection no_method : Method

pub record NewtonResult {ℓ} (N : Type ℓ) : Type ℓ where
  pub root : Option N
  pub iterations : ℕ
  pub residual : N
  pub converged : Bool
  pub trace : List (N × N)
  pub method : Method

pub record NewtonOptions {ℓ} (N : Type ℓ) : Type ℓ where
  pub tol : Option N
  pub rel_tol : Option N
  pub scale : Option N
  pub max_iter : Option ℕ
  pub initial_step : Option N
  pub bracket_max : Option ℕ

-- `{ root, residual, iterations }` of `bisect`, with the trace after it.
pub record Bisected {ℓ} (N : Type ℓ) : Type ℓ where
  pub root : Option N
  pub residual : N
  pub iterations : ℕ
  pub trace : List (N × N)

pub record Bracket {ℓ} (N : Type ℓ) : Type ℓ where
  pub lo : N
  pub f_lo : N
  pub hi : N
  pub f_hi : N

-- `Math.ceil(Math.log2(n))` for n from 1 on: the least power of 2 that reaches `n`.
unfoldable pub log2_up : ℕ → ℕ → ℕ → ℕ
log2_up zero k n = k
log2_up (suc fuel) k n = let higher = log2_up fuel (suc k) n in if leb n (2 ^ k) then k else higher

-- `Math.max(1, Math.ceil(Math.log2(Math.max(bracketMax, 2))) + 1)`
unfoldable pub doubles_for : ℕ → ℕ
unfolding log2_up
doubles_for bracket_max = max 1 (log2_up (max bracket_max 2) 0 (max bracket_max 2) + 1)

module _ {ℓ} {N : Type ℓ} ⦃arithmetic : Number N⦄ where
  unfoldable pub tolerance : NewtonOptions N → N
  tolerance opts =
      larger (or_else opts.tol (fraction 1 1000000000))
        (or_else opts.rel_tol (fraction 1 10000000000) ⊗ absolute (or_else opts.scale (whole 0)))

  abbrev pub max_iterations : NewtonOptions N → ℕ
  max_iterations opts = or_else opts.max_iter 50

  abbrev pub step_of : NewtonOptions N → N
  step_of opts = or_else opts.initial_step (fraction 1 10000)

  abbrev pub doubles_of : NewtonOptions N → ℕ
  doubles_of opts = doubles_for (or_else opts.bracket_max 32)

module _ {ℓ} {N : Type ℓ} ⦃arithmetic : Number N⦄ (f : N → N) where
  abbrev pub point : N → N × N
  point x = (x, f x)

  unfoldable pub numerical_slope : N → N → N
  numerical_slope x h = (f (x ⊕ h) ⊖ f (x ⊖ h)) ⊘ (whole 2 ⊗ h)

  abbrev pub middle : N → N → N
  middle a b = fraction 1 2 ⊗ (a ⊕ b)

  -- `while (iter < maxIter)`, with what is left of the iterations first.
  unfoldable pub bisect_loop : ℕ → N → ℕ → N → N → N → List (N × N) → Bisected N
  bisect_loop zero tol iter a b fa trace = record {
    root = some (middle a b);
    residual = f (middle a b);
    iterations = iter;
    trace = trace;
  }
  bisect_loop (suc left) tol iter a b fa trace =
      let mid = middle a b in
      let seen = trace ++ point mid ∷ [] in
      let below = bisect_loop left tol (suc iter) a mid fa seen in
      let above = bisect_loop left tol (suc iter) mid b (f mid) seen in
      if is_le (absolute (f mid)) tol || is_lt (absolute (b ⊖ a)) tol
      then record { root = some mid; residual = f mid; iterations = suc iter; trace = seen }
      else if is_le (fa ⊗ f mid) (whole 0)
      then below
      else above

  unfoldable pub bisect : Bracket N → N → ℕ → List (N × N) → Bisected N
  unfolding bisect_loop
  bisect k tol max_iter trace =
      if is_lt (whole 0) (k.f_lo ⊗ k.f_hi)
      then record {
        root = none;
        residual = smaller (absolute k.f_lo) (absolute k.f_hi);
        iterations = 0;
        trace = trace;
      }
      else bisect_loop max_iter tol 0 k.lo k.hi k.f_lo trace

  -- The loop of `expandBracket`, with what is left of the doublings first; the second component is
  -- the trace.
  unfoldable pub widen : ℕ → N → N → List (N × N) → Option (Bracket N) × List (N × N)
  widen zero x0 width trace = (none, trace)
  widen (suc left) x0 width trace =
      let lo = x0 ⊖ width in
      let hi = x0 ⊕ width in
      let seen = (trace ++ point lo ∷ []) ++ point hi ∷ [] in
      let wider = widen left x0 (width ⊗ whole 2) seen in
      if is_le (f lo ⊗ f hi) (whole 0)
      then (some record { lo = lo; f_lo = f lo; hi = hi; f_hi = f hi }, seen)
      else wider

  unfoldable pub expand_bracket : N → N → ℕ → List (N × N) → Option (Bracket N) × List (N × N)
  unfolding widen
  expand_bracket x0 step doubles trace =
      widen doubles x0 (larger (absolute step) (fraction 1 1000000000000)) trace

  -- How the Newton loop ends: at a root, or with `iterations`, `bestAbs` and `stalled`.
  pub data Ended : Type ℓ where
    at_root : (x : N) (iterations : ℕ) (trace : List (N × N)) → Ended
    without_root : (iterations : ℕ) (best_abs : N) (stalled : Bool) (trace : List (N × N)) → Ended

  -- The loop over `i < maxIter`, with what is left of the iterations first; `fx` is `f x`.
  unfoldable pub newton_loop : ℕ → N → N → N → N → ℕ → N → List (N × N) → Ended
  unfolding numerical_slope
  newton_loop zero tol step x fx iterations best_abs trace =
      without_root iterations best_abs false trace
  newton_loop (suc left) tol step x fx iterations best_abs trace =
      let slope = numerical_slope x step in
      let next = x ⊖ fx ⊘ slope in
      let size = absolute (f next) in
      let best = if is_lt size best_abs then size else best_abs in
      let seen = trace ++ point next ∷ [] in
      let rest = newton_loop left tol step next (f next) (suc iterations) best seen in
      if not (arithmetic.is_finite slope) || is_lt (absolute slope) (step ⊗ step)
      then without_root iterations best_abs true trace
      else if not (arithmetic.is_finite next)
      then without_root iterations best_abs true trace
      else if is_le size tol
      then at_root next (suc iterations) seen
      else rest

  abbrev pub found : N → ℕ → List (N × N) → NewtonResult N
  found x iterations trace = record {
    root = some x;
    iterations = iterations;
    residual = f x;
    converged = true;
    trace = trace;
    method = newton;
  }

  abbrev not_found : ℕ → N → List (N × N) → Method → NewtonResult N
  not_found iterations best_abs trace method = record {
    root = none;
    iterations = iterations;
    residual = best_abs;
    converged = false;
    trace = trace;
    method = method;
  }

  abbrev pub bisected : ℕ → N → N → Bisected N → NewtonResult N
  bisected iterations best_abs tol bis = elim bis.root [
    | none ↦ not_found iterations best_abs bis.trace no_method
    | some root ↦ record {
      root = some root;
      iterations = iterations;
      residual = bis.residual;
      converged = is_le (absolute bis.residual) tol;
      trace = bis.trace;
      method = bisection;
    }
  ]

  -- The code after the Newton loop.
  abbrev pub fall_back : N → N → N → ℕ → ℕ → Ended → NewtonResult N
  fall_back x0 tol step max_iter doubles (at_root x iterations trace) = found x iterations trace
  fall_back x0 tol step max_iter doubles (without_root iterations best_abs stalled trace) =
      let (bracket, seen) = expand_bracket x0 step doubles trace in
      elim bracket [
        | none ↦ not_found iterations best_abs seen (if stalled then no_method else newton)
        | some k ↦ bisected iterations best_abs tol (bisect k tol max_iter seen)
      ]

  unfoldable pub solve_newton : N → NewtonOptions N → NewtonResult N
  unfolding newton_loop numerical_slope expand_bracket widen bisect bisect_loop tolerance
      doubles_for log2_up
  solve_newton x0 opts =
      let tol = tolerance opts in
      let start = point x0 ∷ [] in
      if is_le (absolute (f x0)) tol
      then found x0 0 start
      else fall_back x0 tol (step_of opts) (max_iterations opts) (doubles_of opts)
          (newton_loop (max_iterations opts) tol (step_of opts) x0 (f x0) 0 (absolute (f x0)) start)
