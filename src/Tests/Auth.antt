-- ===== src/Tests/Auth.antt =====
-- Authorization (src/auth) at concrete inputs.
use lyttle_nginx.Prelude.{◌≡◌, refl, true, false, ◌&&◌, ◌||◌, none, some, [], ◌∷◌, any}
use lyttle_nginx.Auth.Role.{
  AuthRole, viewer, operator, security_admin, platform_admin, as_auth_role, has_role, role_eq,
  expand_auth_roles, admin, bearer_token, AuthIdentity, resolve_effective_roles,
}
use lyttle_nginx.Auth.Role.Laws.{grants, has_role-expand}
use lyttle_nginx.Auth.Role.Effective.{is_node, expand-IsClosed, effective_roles-grants}
use lyttle_nginx.Auth.Guard.{
  allowed, insufficient, can_activate, authorize_admin, authorize_internal_node,
  authorize_internal_node_or_admin,
}
use lyttle_nginx.Auth.Guard.Policies.{entitled, access_if, by_actor, decorated_access}

-- An operator with an unknown role besides.
abbrev alice : AuthIdentity
alice = record {
  id = "alice";
  subject = "alice";
  actor_type = admin;
  auth_method = bearer_token;
  roles = "operator" ∷ "gardener" ∷ [];
  scopes = [];
  audience = [];
  node_id = none;
}

has_role-expand_example :
    has_role (expand_auth_roles alice.roles) viewer
    ≡ any (λ t. grants (as_auth_role t) viewer) alice.roles
has_role-expand_example = has_role-expand alice.roles viewer

expand-IsClosed_example : has_role (expand_auth_roles alice.roles) viewer ≡ true
unfolding expand_auth_roles
expand-IsClosed_example = expand-IsClosed alice.roles operator viewer refl refl

effective_roles-grants_example : has_role (resolve_effective_roles alice) platform_admin ≡ (
    any (λ t. grants (as_auth_role t) platform_admin) alice.roles
    || (is_node alice.actor_type && role_eq AuthRole.internal_node platform_admin))
effective_roles-grants_example = effective_roles-grants alice platform_admin

decorated_access_example :
    (can_activate false (some (authorize_admin (operator ∷ []))) (some alice)
      ≡ by_actor admin (access_if (entitled (operator ∷ []) alice)) insufficient)
    × (can_activate false (some authorize_internal_node) (some alice)
        ≡ by_actor admin insufficient allowed)
    × (can_activate false (some (authorize_internal_node_or_admin (operator ∷ []))) (some alice)
        ≡ by_actor admin (access_if (entitled (operator ∷ []) alice)) allowed)
decorated_access_example = decorated_access (operator ∷ []) alice

alice_operates : can_activate false (some (authorize_admin (operator ∷ []))) (some alice) ≡ allowed
unfolding can_activate
alice_operates = refl

alice_secures_nothing :
    can_activate false (some (authorize_admin (security_admin ∷ []))) (some alice) ≡ insufficient
unfolding can_activate
alice_secures_nothing = refl
