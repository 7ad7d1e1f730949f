-- ===== src/Auth/Role/Effective.antt =====
-- The effective roles of an identity (resolveEffectiveRoles of src/auth/types/auth-role.ts).
use lyttle_nginx.Prelude.{
  String, ◌≡◌, refl, Bool, true, false, ◌&&◌, ◌||◌, some, List, [], ◌∷◌, ◌++◌, any, arith, str_eq,
  eq_iff, Bool-cases, inl, inr, ◌∙◌, ap,
}
use lyttle_nginx.Auth.Role.{
  AuthRole, viewer, operator, security_admin, platform_admin, internal_node, as_auth_role, role_eq,
  has_role, auth_role_hierarchy, expand_auth_roles, ActorType, admin, AuthIdentity, add_text,
  text_set, declared_roles, resolve_effective_roles,
}
use lyttle_nginx.Auth.Role.Laws.{grants, has_role-expand, any-grants_trans}

-- Expanded roles are closed under the hierarchy: what a role of the expansion grants, directly or
-- through another role, is in the expansion too.
pub expand-IsClosed :
    (texts : List String) (held granted : AuthRole)
    → has_role (expand_auth_roles texts) held ≡ true
    → grants (some held) granted ≡ true
    → has_role (expand_auth_roles texts) granted ≡ true
expand-IsClosed texts held granted h k =
    rw has_role-expand (any-grants_trans held granted texts (rw has_role-expand at h) k)

module _ (p : String → Bool) where
  any-append : (xs ys : List String) → any p (xs ++ ys) ≡ (any p xs || any p ys)
  any-append [] ys = refl
  any-append (x ∷ xs) ys = ground (arith, any-append xs ys)

  any-there :
      (xs : List String) (v : String)
      → any (λ t. str_eq t v) xs ≡ true
      → any p xs ≡ (any p xs || p v)
  any-there [] v h = cc
  any-there (x ∷ xs) v h = elim (Bool-cases (str_eq x v)) [
    | inl same ↦ let e = ap p ((eq_iff x v).0 same) in ground arith
    | inr other ↦ ground (arith, any-there xs v)
  ]

  any-add_text : (xs : List String) (v : String) → any p (add_text xs v) ≡ (any p xs || p v)
  unfolding add_text
  any-add_text xs v = elim (Bool-cases (any (λ t. str_eq t v) xs)) [
    | inl there ↦ rw there (any-there xs v there)
    | inr new ↦ rw new (any-append xs (v ∷ []) ∙ ground arith)
  ]

  any-text_set : (xs vs : List String) → any p (text_set xs vs) ≡ (any p xs || any p vs)
  unfolding text_set
  any-text_set xs [] = ground arith
  any-text_set xs (v ∷ vs) = ground (arith, any-text_set (add_text xs v) vs, any-add_text xs v)

abbrev pub is_node : ActorType → Bool
is_node admin = false
is_node ActorType.internal_node = true

any-declared :
    (p : String → Bool) (actor : ActorType) (roles : List String)
    → any p (declared_roles actor roles) ≡ (any p roles || (is_node actor && p "internal-node"))
unfolding declared_roles
any-declared p admin roles = ground (arith, any-text_set p [] roles)
any-declared p ActorType.internal_node roles =
    ground (arith, any-add_text p (text_set [] roles) "internal-node", any-text_set p [] roles)

node_grants :
    (role : AuthRole) → grants (as_auth_role "internal-node") role ≡ role_eq internal_node role
unfolding as_auth_role has_role auth_role_hierarchy
node_grants viewer = refl
node_grants operator = refl
node_grants security_admin = refl
node_grants platform_admin = refl
node_grants internal_node = refl

-- The effective roles of an identity are those that its declared role texts grant, and, for an
-- internal node, the role internal-node.
pub effective_roles-grants :
    (identity : AuthIdentity) (role : AuthRole)
    → has_role (resolve_effective_roles identity) role ≡ (
        any (λ t. grants (as_auth_role t) role) identity.roles
        || (is_node identity.actor_type && role_eq internal_node role))
unfolding resolve_effective_roles
effective_roles-grants identity role =
    has_role-expand (declared_roles identity.actor_type identity.roles) role
    ∙ any-declared (λ t. grants (as_auth_role t) role) identity.actor_type identity.roles
    ∙ ap
        (λ b.
          any (λ t. grants (as_auth_role t) role) identity.roles
          || (is_node identity.actor_type && b))
        (node_grants role)
