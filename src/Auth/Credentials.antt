-- ===== src/Auth/Credentials.antt =====
-- The settings of authentication, the API keys, and the guard that reads a request's credentials
-- (the constructor and authenticateApiKey of src/auth/auth.service.ts, src/auth/guards/api-key.guard.ts).
pub mod Admission
pub mod ApiKeys
use lyttle_nginx.Prelude.{
  ℕ, suc, ◌+◌, String, Bool, true, false, not, ◌&&◌, ◌||◌, Option, none, some, List, [], ◌∷◌, keep,
  map, str_eq, ltb, or_else, if◌then◌else◌,
}
use lyttle_nginx.Prelude.Texts.{Text, codes, text_eq, to_lower}
use lyttle_nginx.Prelude.Maps.{insert}
use lyttle_nginx.Prelude.Numbers.{ℤ, pos, negsuc, parse_int}
use lyttle_nginx.Prelude.Results.{Checked, good, fail, ◌>>=◌}
use lyttle_nginx.Prelude.Strings.{◌<>◌, trimmed, no_text, split_on, words, spaced}
use lyttle_nginx.Auth.Role.{admin, api_key, AuthIdentity, text_set}
use lyttle_nginx.Auth.Token.{AuthConfig, Principal, Jose, AuthError, authenticate_bearer_token}

-- The variables of the process environment.
pub record AuthEnv : Type 0 where
  pub api_keys : Option String
  pub default_admin_roles : Option String
  pub default_admin_scopes : Option String
  pub issuer : Option String
  pub audience : Option String
  pub allowed_algorithms : Option String
  pub secret : Option String
  pub public_key : Option String
  pub ttl_seconds : Option String

pub record AuthService : Type 0 where
  pub config : AuthConfig
  pub default_admin_roles : List String
  pub default_admin_scopes : List String
  pub valid_api_keys : List (String × Principal)

-- `value.split(',').map(trim).filter(Boolean)`
unfoldable pub listed : String → List String
unfolding split_on trimmed
listed value = keep (λ item. not (no_text item)) (map trimmed (split_on b',' value))

abbrev pub items_of : Option String → List String
items_of none = []
items_of (some value) = listed value

abbrev set_or : List String → List String → List String
set_or [] defaults = defaults
set_or (item ∷ items) defaults = text_set [] (item ∷ items)

unfoldable pub parse_delimited_env : Option String → List String → List String
unfolding listed text_set
parse_delimited_env value defaults = set_or (items_of value) defaults

abbrev positive_or : Option ℤ → ℕ → ℕ
positive_or (some (pos n)) fallback = if ltb 0 n then n else fallback
positive_or _ fallback = fallback

unfoldable pub parse_positive_integer : Option String → ℕ → ℕ
unfolding parse_int
parse_positive_integer value fallback = positive_or (parse_int (codes (or_else value ""))) fallback

abbrev text_or : Option String → String → String
text_or none default = default
text_or (some value) default = let t = trimmed value in if no_text t then default else t

abbrev optional_text : Option String → Option String
optional_text none = none
optional_text (some value) = let t = trimmed value in if no_text t then none else some t

-- `digest` is the hexadecimal HMAC with the constant key of buildApiKeyId, cut to 12 characters;
-- `decimal` the text of a number.
module _ (digest : String → String) (decimal : ℕ → String) where
  abbrev build_api_key_id : String → ℕ → String
  build_api_key_id key index = decimal (index + 1) <> "-" <> digest key

  abbrev pub key_principal : AuthConfig → List String → List String → String → ℕ → Principal
  key_principal config roles scopes key index = record {
    identity = record {
      id = "api-key:" <> build_api_key_id key index;
      subject = "api-key:" <> build_api_key_id key index;
      actor_type = admin;
      auth_method = api_key;
      roles = roles;
      scopes = scopes;
      audience = config.jwt_audience ∷ [];
      node_id = none;
    };
    display_name = "legacy-api-key-" <> decimal (index + 1);
    issuer = some config.jwt_issuer;
    token_id = none;
    api_key_id = some (build_api_key_id key index);
    issued_at = none;
    expires_at = none;
  }

  -- `new Map(apiKeys.map(…))`
  unfoldable pub key_entries :
      AuthConfig
      → List String
      → List String
      → List String
      → ℕ
      → List (String × Principal)
      → List (String × Principal)
  unfolding insert
  key_entries config roles scopes [] index entries = entries
  key_entries config roles scopes (key ∷ keys) index entries =
      key_entries config roles scopes keys (suc index)
        (insert key (key_principal config roles scopes key index) entries)

  -- `load_key` is loadJwtPublicKey.
  unfoldable pub new_config : (String → Option String) → AuthEnv → AuthConfig
  unfolding parse_delimited_env parse_positive_integer trimmed
  new_config load_key env = record {
    jwt_issuer = text_or env.issuer "lyttle-nginx";
    jwt_audience = text_or env.audience "lyttle-nginx-admin";
    jwt_allowed_algorithms = parse_delimited_env env.allowed_algorithms ("HS256" ∷ "RS256" ∷ []);
    jwt_secret = optional_text env.secret;
    jwt_public_key = elim (env.public_key) [ none ↦ none | some key ↦ load_key key ];
    access_token_ttl_seconds = parse_positive_integer env.ttl_seconds 900;
  }

  unfoldable pub new_auth_service : (String → Option String) → AuthEnv → AuthService
  unfolding new_config key_entries
  new_auth_service load_key env =
      let config = new_config load_key env in
      let roles = parse_delimited_env env.default_admin_roles ("platform-admin" ∷ []) in
      let scopes = parse_delimited_env env.default_admin_scopes ("admin:full" ∷ []) in
      record {
        config = config;
        default_admin_roles = roles;
        default_admin_scopes = scopes;
        valid_api_keys = key_entries config roles scopes (items_of env.api_keys) 0 [];
      }

-- The first entry with the same bytes.
unfoldable pub matching_key : List (String × Principal) → String → Option Principal
matching_key [] provided = none
matching_key ((key, principal) ∷ entries) provided =
    if str_eq provided key then some principal else matching_key entries provided

unfoldable pub authenticate_api_key : AuthService → String → Option Principal
unfolding matching_key trimmed
authenticate_api_key service key =
    let normalized = trimmed key in
    if no_text normalized then none else matching_key service.valid_api_keys normalized

-- A header that is given once, or several times.
pub data HeaderValue : Type 0 where
  single : String → HeaderValue
  several : List String → HeaderValue

pub record Headers : Type 0 where
  pub authorization : Option HeaderValue
  pub x_api_key : Option HeaderValue

abbrev text_or_none : String → Option String
text_or_none s = let t = trimmed s in if no_text t then none else some t

abbrev credentials_after : String → List String → Option String
credentials_after scheme [] = none
credentials_after scheme (first ∷ []) = none
credentials_after scheme (first ∷ second ∷ rest) =
    if text_eq (to_lower (codes first)) (codes scheme)
    then text_or_none (spaced (second ∷ rest))
    else none

abbrev scheme_credentials : String → Option HeaderValue → Option String
scheme_credentials scheme (some (single value)) = credentials_after scheme (words (trimmed value))
scheme_credentials scheme _ = none

unfoldable pub extract_bearer_token : Headers → Option String
unfolding words trimmed to_lower spaced
extract_bearer_token headers = scheme_credentials "bearer" headers.authorization

abbrev single_text : Option HeaderValue → Option String
single_text (some (single value)) = text_or_none value
single_text _ = none

unfoldable pub extract_api_key : Headers → Option String
unfolding words trimmed to_lower spaced
extract_api_key headers = elim (single_text headers.x_api_key) [
  | some key ↦ some key
  | none ↦ scheme_credentials "apikey" headers.authorization
]

pub data Denial : Type 0 where
  token_refused : AuthError → Denial
  credentials_required : Denial
  invalid_api_key : Denial

abbrev pub token_outcome : Checked AuthError Principal → Checked Denial Principal
token_outcome (good principal) = good principal
token_outcome (fail e) = fail (token_refused e)

abbrev pub key_outcome : AuthService → Option String → Checked Denial Principal
key_outcome service none = fail credentials_required
key_outcome service (some key) = elim (authenticate_api_key service key) [
  | none ↦ fail invalid_api_key
  | some principal ↦ good principal
]

abbrev pub credentials_outcome :
    Jose → AuthService → ℕ → Headers → Option String → Checked Denial Principal
credentials_outcome jose service now headers (some token) =
    token_outcome (authenticate_bearer_token jose service.config now token)
credentials_outcome jose service now headers none = key_outcome service (extract_api_key headers)

-- ApiKeyGuard: the identity that is put on the request, `none` where the handler is public.
unfoldable pub authenticate_request :
    Jose → AuthService → ℕ → Bool → Headers → Checked Denial (Option Principal)
unfolding extract_bearer_token extract_api_key authenticate_api_key
authenticate_request jose service now is_public headers = if is_public then good none else (do
  principal ← credentials_outcome jose service now headers (extract_bearer_token headers)
  good (some principal))
