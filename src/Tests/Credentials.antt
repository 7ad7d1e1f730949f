-- ===== src/Tests/Credentials.antt =====
-- API keys and the two guards (src/auth) at concrete inputs.
use lyttle_nginx.Prelude.{
  ℕ, ◌≡◌, refl, String, true, false, not, ◌&&◌, Option, none, some, is_some, List, [], ◌∷◌, any,
}
use lyttle_nginx.Prelude.Strings.{trimmed, no_text}
use lyttle_nginx.Auth.Role.{viewer, admin, resolve_effective_roles}
use lyttle_nginx.Auth.Guard.{AuthorizationRule, authorize_admin, matches_rule, can_activate}
use lyttle_nginx.Auth.Claims.{includes_text}
use lyttle_nginx.Auth.Token.{Jose, Principal}
use lyttle_nginx.Auth.Credentials.{
  AuthEnv, AuthService, Headers, single, items_of, key_principal, new_auth_service,
  authenticate_api_key,
}
use lyttle_nginx.Auth.Credentials.Admission.{admit, IsAuthentic, admit-IsAuthentic}
use lyttle_nginx.Auth.Credentials.ApiKeys.{authenticate_api_key_known, authenticate_api_key_admin}

abbrev digest : String → String
digest key = "d"

abbrev decimal : ℕ → String
decimal n = "1"

abbrev no_key : String → Option String
no_key text = none

abbrev two_keys : AuthEnv
two_keys = record {
  api_keys = some "first, second,,";
  default_admin_roles = some "viewer";
  default_admin_scopes = none;
  issuer = none;
  audience = none;
  allowed_algorithms = none;
  secret = none;
  public_key = none;
  ttl_seconds = none;
}

abbrev service : AuthService
service = new_auth_service digest decimal no_key two_keys

authenticate_api_key_known_example : is_some (authenticate_api_key service " second ") ≡ (
    not (no_text (trimmed " second "))
    && includes_text (items_of (some "first, second,,")) (trimmed " second "))
authenticate_api_key_known_example =
    authenticate_api_key_known digest decimal no_key two_keys " second "

abbrev second_principal : Principal
second_principal =
    key_principal digest decimal service.config ("viewer" ∷ []) ("admin:full" ∷ []) "second" 1

authenticate_api_key_admin_example :
    (second_principal.identity.actor_type ≡ admin)
    × (second_principal.identity.roles ≡ AuthService.default_admin_roles service)
    × (second_principal.identity.scopes ≡ AuthService.default_admin_scopes service)
unfolding new_auth_service authenticate_api_key
authenticate_api_key_admin_example =
    authenticate_api_key_admin digest decimal no_key two_keys " second " second_principal refl

abbrev nothing : Jose
nothing = record {
  decode = λ text. [];
  encode = λ bytes. "";
  parse = λ bytes. none;
  stringify = λ value. [];
  hmac = λ secret input. [];
  rsa_verify = λ key input signature. false;
}

abbrev headers : Headers
headers = record { authorization = some (single "ApiKey second"); x_api_key = none }

admit-IsAuthentic_example :
    (principal : Principal) × (some second_principal ≡ some principal)
    × IsAuthentic nothing service 1000 headers principal
    × (rules : List AuthorizationRule) × (some (authorize_admin (viewer ∷ [])) ≡ some rules)
    × (any
          (λ rule.
            matches_rule rule principal.identity (resolve_effective_roles principal.identity))
          rules
        ≡ true)
unfolding admit new_auth_service authenticate_api_key can_activate
admit-IsAuthentic_example =
    admit-IsAuthentic nothing service 1000 headers (some (authorize_admin (viewer ∷ [])))
      (some second_principal) refl
