-- ===== src/Config/Seeds.antt =====
-- shared-config/src/schema-bootstrap.ts and schema-service-accounts.ts.
use irsforge.Base.{
  ℕ, suc, ◌≡◌, refl, List, [], ◌∷◌, ◌++◌, String, Bool, true, false, not, ◌&&◌, ◌==◌, eq_iff,
  if◌then◌else◌, includes, any, All, length, ◌≤◌, Bool-cases, inl, inr, arith,
}
use mathlib.Core.List.{Memᴰ}
use irsforge.Base.Members.{any-mem}
use irsforge.Auth.Provider.{Role, trader, operator, regulator}

pub record HintedOrg : Type 0 where
  pub hint : String
  pub role : Role

pub record CsaPairSeed : Type 0 where
  pub trader_a_hint : String
  pub trader_b_hint : String

-- The paths of the issues, with the index of the pair.
pub data SeedIssue : Type 0 where
  no_pairs : SeedIssue
  unknown_a : ℕ → SeedIssue
  unknown_b : ℕ → SeedIssue
  same_hints : ℕ → SeedIssue

abbrev is_trader : Role → Bool
is_trader trader = true
is_trader operator = false
is_trader regulator = false

-- `traderHints.has(h)`
unfoldable pub is_trader_hint : List HintedOrg → String → Bool
is_trader_hint orgs h = any (λ o. is_trader o.role && o.hint == h) orgs

abbrev when : Bool → SeedIssue → List SeedIssue → List SeedIssue
when test issue rest = if test then issue ∷ rest else rest

unfoldable pub pair_issues : List HintedOrg → ℕ → List CsaPairSeed → List SeedIssue
unfolding is_trader_hint
pair_issues orgs i [] = []
pair_issues orgs i (p ∷ ps) =
    let rest = pair_issues orgs (suc i) ps in
    when (not (is_trader_hint orgs p.trader_a_hint)) (unknown_a i) (
      when (not (is_trader_hint orgs p.trader_b_hint)) (unknown_b i)
        (when (p.trader_a_hint == p.trader_b_hint) (same_hints i) rest))

unfoldable pub add_bootstrap_issues : List CsaPairSeed → List HintedOrg → List SeedIssue
unfolding pair_issues
add_bootstrap_issues [] orgs = no_pairs ∷ []
add_bootstrap_issues (p ∷ ps) orgs = pair_issues orgs 0 (p ∷ ps)

-- The accounts that are missing, by id.
unfoldable pub add_service_account_issues : Bool → Bool → List String → List String
add_service_account_issues is_demo scheduler_enabled ids =
    let mark = if includes "mark-publisher" ids then [] else "mark-publisher" ∷ [] in
    let scheduler =
      if scheduler_enabled && not (includes "scheduler" ids) then "scheduler" ∷ [] else [] in
    if is_demo then [] else mark ++ scheduler

-- A trader of the configuration with this hint.
abbrev pub IsTrader : List HintedOrg → String → Type 0
IsTrader orgs h = (o : HintedOrg) × Memᴰ o orgs × (o.role ≡ trader) × (o.hint ≡ h)

-- A pair of two traders with different hints.
abbrev pub IsPair : List HintedOrg → CsaPairSeed → Type 0
IsPair orgs p =
    IsTrader orgs p.trader_a_hint
    × IsTrader orgs p.trader_b_hint
    × ((p.trader_a_hint == p.trader_b_hint) ≡ false)

is_trader-eq : (r : Role) → is_trader r ≡ true → r ≡ trader
is_trader-eq trader h = refl
is_trader-eq operator h = absurd (ground arith)
is_trader-eq regulator h = absurd (ground arith)

is_trader_hint-IsTrader :
    (orgs : List HintedOrg) (h : String) → is_trader_hint orgs h ≡ true → IsTrader orgs h
unfolding is_trader_hint
is_trader_hint-IsTrader orgs h found =
    let (o, listed, test) = any-mem (λ x. is_trader x.role && x.hint == h) orgs found in
    (o, listed, is_trader-eq o.role (ground arith), (eq_iff o.hint h).0 (ground arith))

pair_issues-IsPair :
    (orgs : List HintedOrg) (i : ℕ) (ps : List CsaPairSeed)
    → pair_issues orgs i ps ≡ []
    → All (IsPair orgs) ps
unfolding pair_issues
pair_issues-IsPair orgs i [] h = tt
pair_issues-IsPair orgs i (p ∷ ps) h = elim (Bool-cases (is_trader_hint orgs p.trader_a_hint)) [
  | inr unknown ↦ absurd (ground arith)
  | inl a ↦ elim (Bool-cases (is_trader_hint orgs p.trader_b_hint)) [
    | inr unknown ↦ absurd (ground arith)
    | inl b ↦ (
      (
        is_trader_hint-IsTrader orgs p.trader_a_hint a,
        is_trader_hint-IsTrader orgs p.trader_b_hint b,
        ground arith,
      ),
      pair_issues-IsPair orgs (suc i) ps (ground arith),
    )
  ]
]

-- Where the check of the seeds finds no issue, there is a pair to seed, and each pair names two
-- different hints of traders of the configuration.
pub add_bootstrap_issues-IsPair :
    (ps : List CsaPairSeed) (orgs : List HintedOrg)
    → add_bootstrap_issues ps orgs ≡ []
    → (1 ≤ length ps) × All (IsPair orgs) ps
unfolding add_bootstrap_issues
add_bootstrap_issues-IsPair [] orgs h = absurd (ground arith)
add_bootstrap_issues-IsPair (p ∷ ps) orgs h = (omega arith, pair_issues-IsPair orgs 0 (p ∷ ps) h)
