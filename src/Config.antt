-- ===== src/Config.antt =====
-- shared-config/src/schema-orgs.ts and schema-refinements.ts: the checks of the configuration that
-- go across its parts. A list holds what `ctx.addIssue` was called with, its texts left out.
use irsforge.Base.{
  ℕ, suc, ◌+◌, Option, none, some, String, List, [], ◌∷◌, ◌++◌, Bool, true, false, not, ◌&&◌, ◌||◌,
  ◌==◌, eqb, ltb, if◌then◌else◌, filter, any, length, includes,
}
use irsforge.Auth.Provider.{Org, Role, trader, operator, regulator, or_empty}
pub mod Laws
pub mod Seeds
mod Tests

-- Where an issue stands: its path, with the index of an org or a currency, or the count it names.
pub data Issue : Type 0 where
  role_count : Role → ℕ → Issue
  allowlist : ℕ → Issue
  default_count : ℕ → Issue
  duplicate_code : ℕ → Issue
  demo_subtree : Issue

abbrev is_role : Role → Role → Bool
is_role trader trader = true
is_role operator operator = true
is_role regulator regulator = true
is_role _ _ = false

unfoldable pub count_role : Role → List Org → ℕ
count_role r orgs = length (filter (λ o. is_role r o.role) orgs)

unfoldable pub add_org_role_issues : List Org → List Issue
unfolding count_role
add_org_role_issues orgs =
    (if eqb (count_role operator orgs) 1
      then []
      else role_count operator (count_role operator orgs) ∷ [])
    ++ (if ltb (count_role regulator orgs) 1
        then role_count regulator (count_role regulator orgs) ∷ []
        else [])
    ++ (if ltb (count_role trader orgs) 2
        then role_count trader (count_role trader orgs) ∷ []
        else [])

-- `(xs?.length ?? 0) > 0`
abbrev is_filled : Option (List String) → Bool
is_filled xs = ltb 0 (length (or_empty xs))

abbrev has_allowlist : Org → Bool
has_allowlist o = is_filled o.allowed_subjects || is_filled o.allowed_groups

-- The loop of `addOrgAllowlistIssues`, from the org of index `i`.
unfoldable pub add_org_allowlist_issues : ℕ → List Org → List Issue
add_org_allowlist_issues i [] = []
add_org_allowlist_issues i (o ∷ orgs) =
    let rest = add_org_allowlist_issues (suc i) orgs in
    if is_role operator o.role || has_allowlist o then rest else allowlist i ∷ rest

pub record Currency : Type 0 where
  pub code : String
  pub is_default : Bool

-- The loop over the codes, with the codes that were seen.
unfoldable pub duplicate_issues : ℕ → List String → List Currency → List Issue
duplicate_issues i codes [] = []
duplicate_issues i codes (c ∷ cs) =
    let rest = duplicate_issues (suc i) (c.code ∷ codes) cs in
    if includes c.code codes then duplicate_code i ∷ rest else rest

unfoldable pub apply_currency_rules : List Currency → List Issue
unfolding duplicate_issues
apply_currency_rules cs =
    let defaults = length (filter (λ c. c.is_default) cs) in
    (if eqb defaults 1 then [] else default_count defaults ∷ []) ++ duplicate_issues 0 [] cs

-- For each key of `config.demo`, where it is there, whether its value is defined.
unfoldable pub apply_demo_subtree_ban : Bool → Option (List Bool) → List Issue
apply_demo_subtree_ban production none = []
apply_demo_subtree_ban production (some defined) =
    if production && any (λ d. d) defined then demo_subtree ∷ [] else []
