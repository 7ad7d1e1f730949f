-- ===== src/Auth/Guard.antt =====
-- AuthorizationGuard and the policies of the decorators (src/auth/guards/authorization.guard.ts,
-- src/auth/decorators/authorize.decorator.ts).
pub mod Policies
pub mod Admission
use lyttle_nginx.Prelude.{
  String, Bool, true, false, ◌&&◌, Option, none, some, List, [], ◌∷◌, any, if◌then◌else◌,
}
use lyttle_nginx.Auth.Role.{
  AuthRole, has_role, ActorType, admin, internal_node, AuthIdentity, resolve_effective_roles,
}

pub record AuthorizationRule : Type 0 where
  pub actor_types : Option (List ActorType)
  pub roles : Option (List AuthRole)

abbrev pub actor_eq : ActorType → ActorType → Bool
actor_eq admin admin = true
actor_eq admin internal_node = false
actor_eq internal_node admin = false
actor_eq internal_node internal_node = true

abbrev pub actor_allowed : Option (List ActorType) → ActorType → Bool
actor_allowed none actor = true
actor_allowed (some actors) actor = any (λ a. actor_eq a actor) actors

abbrev pub role_allowed : Option (List AuthRole) → List AuthRole → Bool
role_allowed none effective = true
role_allowed (some roles) effective = any (λ role. has_role effective role) roles

unfoldable pub matches_rule : AuthorizationRule → AuthIdentity → List AuthRole → Bool
unfolding has_role
matches_rule rule identity effective =
    actor_allowed rule.actor_types identity.actor_type && role_allowed rule.roles effective

-- What canActivate comes to: access, or one of its three errors; `recorded` says that the denied
-- attempt goes to recordDeniedAttempt.
pub data Access : Type 0 where
  allowed : Access
  no_policy : Access
  no_identity : Access
  insufficient : Access

abbrev pub recorded : Access → Bool
recorded allowed = false
recorded no_policy = false
recorded no_identity = true
recorded insufficient = true

check_identity : List AuthorizationRule → Option AuthIdentity → Access
unfolding matches_rule resolve_effective_roles
check_identity policy none = no_identity
check_identity policy (some identity) =
    let effective = resolve_effective_roles identity in
    if any (λ rule. matches_rule rule identity effective) policy then allowed else insufficient

check_policy : Option (List AuthorizationRule) → Option AuthIdentity → Access
unfolding check_identity
check_policy none identity = no_policy
check_policy (some []) identity = no_policy
check_policy (some (rule ∷ rules)) identity = check_identity (rule ∷ rules) identity

-- `is_public` and `policy` are the metadata of the handler or its class.
unfoldable pub can_activate : Bool → Option (List AuthorizationRule) → Option AuthIdentity → Access
unfolding check_policy
can_activate is_public policy identity = if is_public then allowed else check_policy policy identity

abbrev admin_roles : List AuthRole → Option (List AuthRole)
admin_roles [] = none
admin_roles (role ∷ roles) = some (role ∷ roles)

-- AuthorizeAdmin(...roles), AuthorizeInternalNode() and AuthorizeInternalNodeOrAdmin(...roles).
abbrev pub admin_rule : List AuthRole → AuthorizationRule
admin_rule roles = record { actor_types = some (admin ∷ []); roles = admin_roles roles }

abbrev pub node_rule : AuthorizationRule
node_rule = record { actor_types = some (internal_node ∷ []); roles = none }

abbrev pub authorize_admin : List AuthRole → List AuthorizationRule
authorize_admin roles = admin_rule roles ∷ []

abbrev pub authorize_internal_node : List AuthorizationRule
authorize_internal_node = node_rule ∷ []

abbrev pub authorize_internal_node_or_admin : List AuthRole → List AuthorizationRule
authorize_internal_node_or_admin roles = node_rule ∷ admin_rule roles ∷ []
