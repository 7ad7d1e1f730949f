-- ===== src/Auth/Guard/Policies.antt =====
-- Who passes AuthorizationGuard (src/auth/guards/authorization.guard.ts).
use lyttle_nginx.Prelude.{◌≡◌, Bool, true, false, some, List, [], ◌∷◌, any, arith}
use lyttle_nginx.Auth.Role.{
  AuthRole, has_role, ActorType, admin, internal_node, AuthIdentity, resolve_effective_roles,
}
use lyttle_nginx.Auth.Guard.{
  Access, allowed, insufficient, can_activate, authorize_admin, authorize_internal_node,
  authorize_internal_node_or_admin,
}

-- The identity has one of the roles in effect; an empty list asks for none.
abbrev pub entitled : List AuthRole → AuthIdentity → Bool
entitled [] who = true
entitled (r ∷ rs) who = any (λ role. has_role (resolve_effective_roles who) role) (r ∷ rs)

abbrev pub access_if : Bool → Access
access_if true = allowed
access_if false = insufficient

abbrev pub by_actor : ActorType → Access → Access → Access
by_actor admin for_admin for_node = for_admin
by_actor internal_node for_admin for_node = for_node

-- On an endpoint for admins with the given roles (any role, where none is given), exactly the
-- admin identities pass that have one of them in effect: no internal node does, whatever roles its
-- token lists. On one for internal nodes exactly the internal nodes pass. On one for both, either.
pub decorated_access :
    (roles : List AuthRole) (who : AuthIdentity)
    → (can_activate false (some (authorize_admin roles)) (some who)
        ≡ by_actor who.actor_type (access_if (entitled roles who)) insufficient)
      × (can_activate false (some authorize_internal_node) (some who)
          ≡ by_actor who.actor_type insufficient allowed)
      × (can_activate false (some (authorize_internal_node_or_admin roles)) (some who)
          ≡ by_actor who.actor_type (access_if (entitled roles who)) allowed)
unfolding can_activate
decorated_access [] who = ground arith
decorated_access (r ∷ rs) who = ground arith
