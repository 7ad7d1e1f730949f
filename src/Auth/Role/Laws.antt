-- ===== src/Auth/Role/Laws.antt =====
-- What expandAuthRoles of src/auth/types/auth-role.ts gives.
use lyttle_nginx.Prelude.{
  String, ◌≡◌, refl, Bool, true, false, ◌||◌, Option, none, some, List, [], ◌∷◌, ◌++◌, any, arith,
  Bool-cases, Option-cases, inl, inr, ◌∙◌,
}
use lyttle_nginx.Auth.Role.{
  AuthRole, viewer, operator, security_admin, platform_admin, internal_node, role_name,
  as_auth_role, role_eq, has_role, add_role, add_roles, auth_role_hierarchy, expand_one,
  expand_from, expand_auth_roles,
}

-- A role grants itself and what the hierarchy gives it; no other text grants anything.
abbrev pub grants : Option AuthRole → AuthRole → Bool
grants none role = false
grants (some held) role = role_eq held role || has_role (auth_role_hierarchy held) role

has_role-append :
    (role : AuthRole) (xs ys : List AuthRole)
    → has_role (xs ++ ys) role ≡ (has_role xs role || has_role ys role)
unfolding has_role
has_role-append role [] ys = refl
has_role-append role (x ∷ xs) ys = ground (arith, has_role-append role xs ys)

role_eq_lem : (a b : AuthRole) → role_eq a b ≡ true → a ≡ b
role_eq_lem a b h = ground arith

present :
    (xs : List AuthRole) (r role : AuthRole)
    → has_role xs r ≡ true
    → has_role xs role ≡ (has_role xs role || role_eq r role)
present xs r role h = elim (Bool-cases (role_eq r role)) [
  | inl same ↦ rw (← role_eq_lem r role same) (rw h)
  | inr other ↦ rw other (ground arith)
]

pub has_role-add :
    (xs : List AuthRole) (r role : AuthRole)
    → has_role (add_role xs r) role ≡ (has_role xs role || role_eq r role)
unfolding add_role
has_role-add xs r role = elim (Bool-cases (has_role xs r)) [
  | inl there ↦ rw there (present xs r role there)
  | inr new ↦ rw new (has_role-append role xs (r ∷ []) ∙ (unfold has_role in ground arith))
]

has_role-add_roles :
    (xs rs : List AuthRole) (role : AuthRole)
    → has_role (add_roles xs rs) role ≡ (has_role xs role || has_role rs role)
unfolding add_roles
has_role-add_roles xs [] role = unfold has_role in ground arith
has_role-add_roles xs (r ∷ rs) role =
    ground (arith, has_role-add_roles (add_role xs r) rs role, has_role-add xs r role)

has_role-expand_one :
    (xs : List AuthRole) (o : Option AuthRole) (role : AuthRole)
    → has_role (expand_one xs o) role ≡ (has_role xs role || grants o role)
unfolding expand_one
has_role-expand_one xs none role = ground arith
has_role-expand_one xs (some r) role =
    ground (
      arith,
      has_role-add_roles (add_role xs r) (auth_role_hierarchy r) role,
      has_role-add xs r role,
    )

has_role-expand_from :
    (xs : List AuthRole) (texts : List String) (role : AuthRole)
    → has_role (expand_from xs texts) role
      ≡ (has_role xs role || any (λ t. grants (as_auth_role t) role) texts)
unfolding expand_from
has_role-expand_from xs [] role = ground arith
has_role-expand_from xs (t ∷ texts) role = ground (
  arith,
  has_role-expand_from (expand_one xs (as_auth_role t)) texts role,
  has_role-expand_one xs (as_auth_role t) role,
)

-- The expansion of a list of role texts has exactly the roles that one of the texts names or that
-- the hierarchy gives to the role that a text names; other texts count for nothing.
pub has_role-expand :
    (texts : List String) (role : AuthRole)
    → has_role (expand_auth_roles texts) role ≡ any (λ t. grants (as_auth_role t) role) texts
unfolding expand_auth_roles has_role
has_role-expand texts role = has_role-expand_from [] texts role

as_auth_role-role_name : (r : AuthRole) → as_auth_role (role_name r) ≡ some r
unfolding as_auth_role
as_auth_role-role_name viewer = refl
as_auth_role-role_name operator = refl
as_auth_role-role_name security_admin = refl
as_auth_role-role_name platform_admin = refl
as_auth_role-role_name internal_node = refl

grants_trans :
    (a b c : AuthRole)
    → grants (some a) b ≡ true
    → grants (some b) c ≡ true
    → grants (some a) c ≡ true
unfolding has_role auth_role_hierarchy
grants_trans a b c h k = ground arith

pub any-grants_trans :
    (b c : AuthRole) (texts : List String)
    → any (λ t. grants (as_auth_role t) b) texts ≡ true
    → grants (some b) c ≡ true
    → any (λ t. grants (as_auth_role t) c) texts ≡ true
any-grants_trans b c [] h k = cc
any-grants_trans b c (t ∷ texts) h k = elim (Option-cases (as_auth_role t)) [
  | inl none_ ↦ rw none_ (any-grants_trans b c texts (rw none_ at h) k)
  | inr (a, e) ↦ rw e (elim (Bool-cases (grants (some a) b)) [
    | inl direct ↦ rw (grants_trans a b c direct k)
    | inr indirect ↦ ground (arith, any-grants_trans b c texts, rw (e, indirect) at h)
  ])
]
