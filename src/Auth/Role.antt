-- ===== src/Auth/Role.antt =====
-- Roles, their hierarchy and the roles that an identity has in effect
-- (src/auth/types/auth-role.ts, auth-identity.ts).
pub mod Laws
pub mod Effective
use lyttle_nginx.Prelude.{
  String, Bool, true, false, ◌||◌, Option, none, some, List, [], ◌∷◌, ◌++◌, any, str_eq,
  if◌then◌else◌,
}

pub data AuthRole : Type 0 where
  viewer operator security_admin platform_admin internal_node : AuthRole

pub AuthRole-discrete : Discrete AuthRole
AuthRole-discrete = hlevel

-- The text of each role, in the order of AUTH_ROLES.
unfoldable pub role_name : AuthRole → String
role_name viewer = "viewer"
role_name operator = "operator"
role_name security_admin = "security-admin"
role_name platform_admin = "platform-admin"
role_name internal_node = "internal-node"

abbrev pub auth_roles : List AuthRole
auth_roles = viewer ∷ operator ∷ security_admin ∷ platform_admin ∷ internal_node ∷ []

-- AUTH_ROLE_HIERARCHY
unfoldable pub auth_role_hierarchy : AuthRole → List AuthRole
auth_role_hierarchy viewer = []
auth_role_hierarchy operator = viewer ∷ []
auth_role_hierarchy security_admin = viewer ∷ []
auth_role_hierarchy platform_admin = viewer ∷ operator ∷ security_admin ∷ []
auth_role_hierarchy internal_node = []

named_among : String → List AuthRole → Option AuthRole
unfolding role_name
named_among value [] = none
named_among value (role ∷ roles) =
    if str_eq (role_name role) value then some role else named_among value roles

-- isAuthRole, with the role that the text is.
unfoldable pub as_auth_role : String → Option AuthRole
unfolding named_among
as_auth_role value = named_among value auth_roles

-- `===` on the texts of roles.
abbrev pub role_eq : AuthRole → AuthRole → Bool
role_eq viewer viewer = true
role_eq operator operator = true
role_eq security_admin security_admin = true
role_eq platform_admin platform_admin = true
role_eq internal_node internal_node = true
role_eq _ _ = false

unfoldable pub has_role : List AuthRole → AuthRole → Bool
has_role roles role = any (λ r. role_eq r role) roles

-- Set.add: the order of the first additions, with no role twice.
unfoldable pub add_role : List AuthRole → AuthRole → List AuthRole
unfolding has_role
add_role roles role = if has_role roles role then roles else roles ++ role ∷ []

unfoldable pub add_roles : List AuthRole → List AuthRole → List AuthRole
unfolding add_role
add_roles expanded [] = expanded
add_roles expanded (role ∷ roles) = add_roles (add_role expanded role) roles

unfoldable pub expand_one : List AuthRole → Option AuthRole → List AuthRole
unfolding add_roles auth_role_hierarchy
expand_one expanded none = expanded
expand_one expanded (some role) = add_roles (add_role expanded role) (auth_role_hierarchy role)

unfoldable pub expand_from : List AuthRole → List String → List AuthRole
unfolding expand_one as_auth_role
expand_from expanded [] = expanded
expand_from expanded (role ∷ roles) = expand_from (expand_one expanded (as_auth_role role)) roles

unfoldable pub expand_auth_roles : List String → List AuthRole
unfolding expand_from
expand_auth_roles roles = expand_from [] roles

pub data ActorType : Type 0 where
  admin internal_node : ActorType

pub data AuthMethod : Type 0 where
  api_key bearer_token : AuthMethod

-- The fields of AuthIdentity that authorization and the token checks read.
pub record AuthIdentity : Type 0 where
  pub id : String
  pub subject : String
  pub actor_type : ActorType
  pub auth_method : AuthMethod
  pub roles : List String
  pub scopes : List String
  pub audience : List String
  pub node_id : Option String

-- new Set(texts), as a list in the order of the first additions.
unfoldable pub add_text : List String → String → List String
add_text texts value = if any (λ t. str_eq t value) texts then texts else texts ++ value ∷ []

unfoldable pub text_set : List String → List String → List String
unfolding add_text
text_set texts [] = texts
text_set texts (value ∷ values) = text_set (add_text texts value) values

unfoldable pub declared_roles : ActorType → List String → List String
unfolding text_set
declared_roles admin roles = text_set [] roles
declared_roles internal_node roles = add_text (text_set [] roles) "internal-node"

unfoldable pub resolve_effective_roles : AuthIdentity → List AuthRole
unfolding expand_auth_roles declared_roles
resolve_effective_roles identity =
    expand_auth_roles (declared_roles identity.actor_type identity.roles)
