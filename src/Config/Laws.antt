-- ===== src/Config/Laws.antt =====
-- What a configuration without issues guarantees.
use irsforge.Base.{
  ℕ, suc, ◌≤◌, ◌≡◌, refl, Option, none, some, String, List, [], ◌∷◌, true, false, ◌||◌, eq_refl,
  eqb, filter, length, includes, All, Bool-cases, inl, inr, arith,
}
use irsforge.Auth.Provider.{
  Org, Role, trader, operator, regulator, production, or_empty, IdpClaims, assert_org_membership,
}
use irsforge.Config.{
  is_role, count_role, add_org_role_issues, is_filled, has_allowlist, add_org_allowlist_issues,
  Currency, duplicate_issues, apply_currency_rules,
}

abbrev no_claims : IdpClaims
no_claims = record { sub = none; email = none; groups = none }

abbrev as_subject : String → IdpClaims
as_subject s = record no_claims { sub = some s }

abbrev in_group : String → IdpClaims
in_group g = record no_claims { groups = some (g ∷ []) }

-- Someone may sign in to the org.
abbrev pub IsOpen : Org → Type 0
IsOpen o = (claims : IdpClaims) × (assert_org_membership claims o production ≡ true)

filled-cases :
    (xs : Option (List String))
    → is_filled xs ≡ true
    → (s : String) × (ss : List String) × (or_empty xs ≡ s ∷ ss)
filled-cases none h = absurd (ground arith)
filled-cases (some []) h = absurd (ground arith)
filled-cases (some (s ∷ ss)) h = (s, ss, refl)

subject-IsOpen : (o : Org) → is_filled o.allowed_subjects ≡ true → IsOpen o
unfolding assert_org_membership
subject-IsOpen o h =
    let (s, ss, e) = filled-cases o.allowed_subjects h in (as_subject s, ground (arith, eq_refl s))

group-IsOpen : (o : Org) → is_filled o.allowed_groups ≡ true → IsOpen o
unfolding assert_org_membership
group-IsOpen o h =
    let (g, gs, e) = filled-cases o.allowed_groups h in (in_group g, ground (arith, eq_refl g))

operator_passes :
    (o : Org) (r : Role)
    → o.role ≡ r
    → is_role operator r ≡ true
    → assert_org_membership no_claims o production ≡ true
unfolding assert_org_membership
operator_passes o operator e h = ground arith
operator_passes o trader e h = absurd (ground arith)
operator_passes o regulator e h = absurd (ground arith)

operator-IsOpen : (o : Org) → is_role operator o.role ≡ true → IsOpen o
operator-IsOpen o h = (no_claims, operator_passes o o.role refl h)

allowed-IsOpen : (o : Org) → (is_role operator o.role || has_allowlist o) ≡ true → IsOpen o
allowed-IsOpen o h = elim (Bool-cases (is_role operator o.role)) [
  | inl op ↦ operator-IsOpen o op
  | inr other ↦ elim (Bool-cases (is_filled o.allowed_subjects)) [
    | inl subjects ↦ subject-IsOpen o subjects
    | inr no_subjects ↦ group-IsOpen o (ground arith)
  ]
]

-- Where the check of the allowlists finds no issue, no org is locked out in production: for each
-- org there is an identity that the auth service takes for one of its members.
pub add_org_allowlist_issues-IsOpen :
    (i : ℕ) (orgs : List Org) → add_org_allowlist_issues i orgs ≡ [] → All IsOpen orgs
unfolding add_org_allowlist_issues
add_org_allowlist_issues-IsOpen i [] h = tt
add_org_allowlist_issues-IsOpen i (o ∷ orgs) h =
    elim (Bool-cases (is_role operator o.role || has_allowlist o)) [
      | inl allowed ↦
          (allowed-IsOpen o allowed, add_org_allowlist_issues-IsOpen (suc i) orgs (ground arith))
      | inr shut ↦ absurd (ground arith)
    ]

-- No code is that of an earlier currency, or among `codes`.
abbrev pub IsFresh : List String → List Currency → Type 0
IsFresh codes [] = Unit
IsFresh codes (c ∷ cs) = (includes c.code codes ≡ false) × IsFresh (c.code ∷ codes) cs

duplicate_issues-IsFresh :
    (i : ℕ) (codes : List String) (cs : List Currency)
    → duplicate_issues i codes cs ≡ []
    → IsFresh codes cs
unfolding duplicate_issues
duplicate_issues-IsFresh i codes [] h = tt
duplicate_issues-IsFresh i codes (c ∷ cs) h = elim (Bool-cases (includes c.code codes)) [
  | inl seen ↦ absurd (ground arith)
  | inr fresh ↦ (fresh, duplicate_issues-IsFresh (suc i) (c.code ∷ codes) cs (ground arith))
]

one-element : {A : Type 0} (xs : List A) → length xs ≡ 1 → (x : A) × (xs ≡ x ∷ [])
one-element [] h = absurd (ground arith)
one-element (x ∷ []) h = (x, refl)
one-element (x ∷ y ∷ ys) h = absurd (omega (arith, h))

-- Where the check of the currencies finds no issue, one and only one of them is the default, and
-- no two have the same code.
pub apply_currency_rules_sound :
    (cs : List Currency)
    → apply_currency_rules cs ≡ []
    → ((c : Currency) × (filter (λ x. x.is_default) cs ≡ c ∷ [])) × IsFresh [] cs
unfolding apply_currency_rules
apply_currency_rules_sound cs h =
    elim (Bool-cases (eqb (length (filter (λ x. x.is_default) cs)) 1)) [
      | inl one ↦ (
        one-element (filter (λ x. x.is_default) cs) (ground arith),
        duplicate_issues-IsFresh 0 [] cs (ground arith),
      )
      | inr other ↦ absurd (ground arith)
    ]

-- Where the check of the roles finds no issue, one and only one org is the operator, and there
-- are a regulator and two traders.
pub add_org_role_issues_sound :
    (orgs : List Org)
    → add_org_role_issues orgs ≡ []
    → ((o : Org) × (filter (λ x. is_role operator x.role) orgs ≡ o ∷ []))
      × (1 ≤ count_role regulator orgs)
      × (2 ≤ count_role trader orgs)
unfolding add_org_role_issues
add_org_role_issues_sound orgs h =
    elim (Bool-cases (eqb (length (filter (λ x. is_role operator x.role) orgs)) 1)) [
      | inl one ↦ (
        one-element (filter (λ x. is_role operator x.role) orgs) (ground arith),
        ground arith,
        ground arith,
      )
      | inr other ↦ absurd (ground arith)
    ]
