-- ===== src/Auth/Provider/Laws.antt =====
-- Whom the providers let in, and with which rights.
use irsforge.Base.{
  ◌≡◌, refl, ◌⊎◌, inl, inr, Option, none, some, String, List, [], ◌∷◌, Bool, true, false, ◌==◌,
  ◌||◌, ◌&&◌, eq_iff, arith, any, find, includes, Option-cases, Bool-cases,
}
use Prim.Native.String
use mathlib.Core.List.{Memᴰ}
use irsforge.Base.Members.{find-mem, any-mem, includes-mem}
use irsforge.Auth.Provider.{
  AuthRequest, AuthResult, Org, Profile, demo, production, Role, operator, trader, regulator,
  is_exempt, IdpClaims, TokenPayload, UserEntry, find_org, is_claim, or_empty,
  assert_org_membership, builtin_authenticate, verify_nonce, oidc_handle_callback, non_empty,
  subject_of,
}

-- What a sign-in with a password rests on.
pub record IsUser (compare : String → String → Bool) (users : List UserEntry) (orgs : List Org)
    (req : AuthRequest) (r : AuthResult) : Type 0 where
  pub user : UserEntry
  pub org : Org
  pub listed : Memᴰ user users
  pub named : user.username ≡ req.username
  pub at_org : user.org_id ≡ req.org_id
  pub password : compare req.password user.password_hash ≡ true
  pub org_listed : Memᴰ org orgs
  pub org_named : org.id ≡ req.org_id
  pub rights : r.act_as ≡ user.act_as
  pub reads : r.read_as ≡ non_empty user.read_as user.act_as
  pub party : r.party ≡ org.party
  pub user_id : r.user_id ≡ String.◌++◌ user.username (String.◌++◌ "::" user.org_id)
  pub org_id : r.org_id ≡ req.org_id

-- The builtin provider lets in only a listed user of the org that was asked for, with the
-- password whose hash is on the user's line, to a listed org; the rights are those of the line.
pub builtin_authenticate_sound :
    (compare : String → String → Bool) (users : List UserEntry) (orgs : List Org)
    (req : AuthRequest) (r : AuthResult)
    → builtin_authenticate compare users orgs req ≡ some r
    → IsUser compare users orgs req r
unfolding builtin_authenticate find_org
builtin_authenticate_sound compare users orgs req r e =
    elim (Option-cases (find (λ u. u.username == req.username && u.org_id == req.org_id) users)) [
      | inl missing ↦ absurd (ground arith)
      | inr (u, found) ↦ elim (Bool-cases (compare req.password u.password_hash)) [
        | inr wrong ↦ absurd (ground arith)
        | inl right ↦ elim (Option-cases (find (λ o. o.id == req.org_id) orgs)) [
          | inl nowhere ↦ absurd (ground arith)
          | inr (o, at) ↦
              let (m, t) = find-mem _ users u found in
              let (mo, to) = find-mem _ orgs o at in
              record {
                user = u;
                org = o;
                listed = m;
                named = (eq_iff u.username req.username).0 (ground arith);
                at_org = (eq_iff u.org_id req.org_id).0 (ground arith);
                password = right;
                org_listed = mo;
                org_named = (eq_iff o.id req.org_id).0 to;
                rights = ground arith;
                reads = ground arith;
                party = ground arith;
                user_id = ground arith;
                org_id = ground (arith, eq_iff u.org_id req.org_id);
              }
        ]
      ]
    ]

-- Why the claims of a verified token admit to an org.
pub data Admits (claims : IdpClaims) (org : Org) : Profile → Type 0 where
  in_demo : Admits claims org demo
  as_operator : org.role ≡ operator → Admits claims org production
  by_subject :
      (s : String)
      → Memᴰ s (or_empty org.allowed_subjects)
      → (claims.sub ≡ some s) ⊎ (claims.email ≡ some s)
      → Admits claims org production
  by_group :
      (g : String)
      → Memᴰ g (or_empty org.allowed_groups)
      → Memᴰ g (or_empty claims.groups)
      → Admits claims org production

is_claim-eq : (s : String) (c : Option String) → is_claim s c ≡ true → c ≡ some s
is_claim-eq s none h = cc
is_claim-eq s (some c) h = ground (arith, eq_iff s c)

or-cases : (a b : Bool) → (a || b) ≡ true → (a ≡ true) ⊎ (b ≡ true)
or-cases a b h = ground arith

-- An operator, or a role that production does not exempt.
role_cases : (r : Role) → (r ≡ operator) ⊎ (is_exempt production r ≡ false)
role_cases operator = inl refl
role_cases trader = inr refl
role_cases regulator = inr refl

module _ (claims : IdpClaims) (org : Org) where
  subject-Admits :
      any (λ s. is_claim s claims.sub || is_claim s claims.email) (or_empty org.allowed_subjects)
        ≡ true
      → Admits claims org production
  subject-Admits h =
      let (s, m, e) = any-mem _ _ h in
      by_subject s m (elim (or-cases _ _ e) [
        | inl a ↦ inl (is_claim-eq s claims.sub a)
        | inr b ↦ inr (is_claim-eq s claims.email b)
      ])

  group-Admits :
      any (λ g. includes g (or_empty claims.groups)) (or_empty org.allowed_groups) ≡ true
      → Admits claims org production
  group-Admits h = let (g, m, e) = any-mem _ _ h in by_group g m (includes-mem g _ e)

  -- In production an identity passes only as a member: the org is the operator, or its lists
  -- name the identity's subject, e-mail or one of its groups.
  pub assert_org_membership-Admits :
      (profile : Profile)
      → assert_org_membership claims org profile ≡ true
      → Admits claims org profile
  unfolding assert_org_membership
  assert_org_membership-Admits demo h = in_demo
  assert_org_membership-Admits production h = elim (role_cases org.role) [
    | inl op ↦ as_operator op
    | inr other ↦ elim (or-cases _ _ (rw (other, assert_org_membership) at h)) [
      | inl s ↦ subject-Admits s
      | inr g ↦ group-Admits g
    ]
  ]

-- The user's id is the e-mail of the claims, or else their subject, with the org.
abbrev pub IsIdOf : IdpClaims → String → String → Type 0
IsIdOf claims org_id user_id =
    (u : String) × (subject_of claims ≡ some u)
    × (user_id ≡ String.◌++◌ u (String.◌++◌ "::" org_id))

-- What a sign-in through an identity provider rests on.
pub record IsMember (orgs : List Org) (profile : Profile) (nonce asked : String)
    (payload : TokenPayload) (r : AuthResult) : Type 0 where
  pub org : Org
  pub listed : Memᴰ org orgs
  pub named : org.id ≡ asked
  pub fresh : payload.nonce ≡ some nonce
  pub admitted : Admits payload.claims org profile
  pub rights : r.act_as ≡ org.party ∷ []
  pub org_id : r.org_id ≡ asked
  pub user_id : IsIdOf payload.claims r.org_id r.user_id

-- The OIDC provider lets in only an identity whose verified token carries the nonce of this flow
-- and which is a member of the org of this flow; the one right is to act as the org's party.
pub oidc_handle_callback_sound :
    (exchange : String → Option TokenPayload) (orgs : List Org) (profile : Profile)
    (code org_id nonce : String) (r : AuthResult)
    → oidc_handle_callback exchange orgs profile code org_id nonce ≡ some r
    → (payload : TokenPayload) × (exchange code ≡ some payload)
      × IsMember orgs profile nonce org_id payload r
unfolding oidc_handle_callback verify_nonce find_org
oidc_handle_callback_sound exchange orgs profile code org_id nonce r e =
    elim (Option-cases (exchange code)) [
      | inl failed ↦ absurd (ground arith)
      | inr (payload, ex) ↦ elim (Option-cases (find (λ o. o.id == org_id) orgs)) [
        | inl nowhere ↦ absurd (ground arith)
        | inr (o, at) ↦ elim (Option-cases (subject_of payload.claims)) [
          | inl nobody ↦ absurd (ground arith)
          | inr (u, subject) ↦
              let (m, t) = find-mem _ orgs o at in
              (
                payload,
                ex,
                record {
                  org = o;
                  listed = m;
                  named = (eq_iff o.id org_id).0 t;
                  fresh = is_claim-eq nonce payload.nonce (ground arith);
                  admitted = assert_org_membership-Admits payload.claims o profile (ground arith);
                  rights = ground arith;
                  org_id = ground arith;
                  user_id = (u, subject, ground arith);
                },
              )
        ]
      ]
    ]
