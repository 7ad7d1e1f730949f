-- ===== src/Auth/Guard/Admission.antt =====
-- Whom AuthorizationGuard lets through (canActivate of src/auth/guards/authorization.guard.ts).
use lyttle_nginx.Prelude.{◌≡◌, Bool, true, false, Option, none, some, List, [], ◌∷◌}
use lyttle_nginx.Auth.Role.{AuthRole, has_role, ActorType, AuthIdentity, resolve_effective_roles}
use lyttle_nginx.Auth.Guard.{AuthorizationRule, matches_rule}

-- An element of the list has the property.
pub data Holds {A : Type 0} (P : A → Type 0) : List A → Type 0 where
  here : (x : A) (xs : List A) → P x → Holds P (x ∷ xs)
  further : (x : A) (xs : List A) → Holds P xs → Holds P (x ∷ xs)

-- A rule asks for an actor type of its list, and for a role of its list that is in effect; without a
-- list it asks for nothing.
abbrev pub PermitsActor : Option (List ActorType) → AuthIdentity → Type 0
PermitsActor none who = Unit
PermitsActor (some actors) who = Holds (λ a. a ≡ who.actor_type) actors

abbrev pub PermitsRole : Option (List AuthRole) → AuthIdentity → Type 0
PermitsRole none who = Unit
PermitsRole (some roles) who =
    Holds (λ role. has_role (resolve_effective_roles who) role ≡ true) roles

abbrev pub Permits : AuthIdentity → AuthorizationRule → Type 0
Permits who rule = PermitsActor rule.actor_types who × PermitsRole rule.roles who

-- Who is let through: anybody where the endpoint is public, else an identity that a rule of the
-- endpoint's policy permits.
pub data IsAdmitted : Bool → Option (List AuthorizationRule) → Option AuthIdentity → Type 0 where
  public_endpoint :
      (policy : Option (List AuthorizationRule)) (identity : Option AuthIdentity)
      → IsAdmitted true policy identity
  by_rule :
      (is_public : Bool) (rules : List AuthorizationRule) (who : AuthIdentity)
      → Holds (Permits who) rules
      → IsAdmitted is_public (some rules) (some who)

module _ (who : AuthIdentity) where
  matches : AuthorizationRule → Bool
  matches rule = matches_rule rule who (resolve_effective_roles who)

abbrev pub has_rules : Option (List AuthorizationRule) → Bool
has_rules none = false
has_rules (some []) = false
has_rules (some (r ∷ rs)) = true
