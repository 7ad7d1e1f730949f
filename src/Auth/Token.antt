-- ===== src/Auth/Token.antt =====
-- Access tokens (authenticateBearerToken and issueAccessToken of src/auth/auth.service.ts). Base64url,
-- JSON, HMAC-SHA256 and the RSA verification are Node's, a record `Jose` of parameters.
pub mod Accepted
pub mod Exchange
pub mod RoundTrip
pub mod Malformed
use lyttle_nginx.Prelude.{
  ℕ, ◌+◌, ◌*◌, String, Bool, true, false, not, ◌&&◌, ◌||◌, Option, none, some, List, [], ◌∷◌, ◌++◌,
  any, length, str_eq, leb, is_some, or_else, or_option, if◌then◌else◌,
}
use lyttle_nginx.Prelude.Texts.{Text, text_eq}
use lyttle_nginx.Prelude.Numbers.{ℤ, pos, negsuc}
use lyttle_nginx.Prelude.Results.{Checked, good, fail, ◌>>=◌, ◌>>◌, require, found}
use lyttle_nginx.Prelude.Strings.{◌<>◌, trimmed, no_text, split_on, spaced}
use lyttle_nginx.Auth.Role.{ActorType, admin, internal_node, bearer_token, AuthIdentity}
use lyttle_nginx.Auth.Claims.{
  Json, null, number, text, array, object, Items, nil, cons, Members, no_members, member, is_null,
  property, read_string, read_number, extract_roles, extract_scopes, extract_audience,
  includes_text, resolve_actor_type, reached,
}

-- The settings that the constructor reads; the issuer and the audience are never empty.
pub record AuthConfig : Type 0 where
  pub jwt_issuer : String
  pub jwt_audience : String
  pub jwt_allowed_algorithms : List String
  pub jwt_secret : Option String
  pub jwt_public_key : Option String
  pub access_token_ttl_seconds : ℕ

-- An identity with the rest of what its token says.
pub record Principal : Type 0 where
  pub identity : AuthIdentity
  pub display_name : String
  pub issuer : Option String
  pub token_id : Option String
  pub api_key_id : Option String
  pub issued_at : Option ℤ
  pub expires_at : Option ℤ

-- `parse` is JSON.parse of the UTF-8 text, `none` where it throws; Buffer.from(…, 'base64url') does
-- not throw.
pub record Jose : Type 0 where
  pub decode : String → Text
  pub encode : Text → String
  pub parse : Text → Option Json
  pub stringify : Json → Text
  pub hmac : String → String → Text
  pub rsa_verify : String → String → Text → Bool

-- The messages of UnauthorizedException, and what is no such exception: a TypeError, a RangeError
-- and the ServiceUnavailableException of the issuing side.
pub data AuthError : Type 0 where
  not_configured malformed invalid_header invalid_payload unsupported_algorithm : AuthError
  hs256_unavailable rs256_unavailable invalid_signature : AuthError
  expired not_active issuer_invalid audience_invalid subject_required : AuthError
  type_error range_error issuance_not_configured : AuthError

unfoldable pub can_verify_bearer_tokens : AuthConfig → Bool
can_verify_bearer_tokens config = is_some config.jwt_secret || is_some config.jwt_public_key

-- new Date(seconds * 1000).toISOString() throws beyond 8.64e15 milliseconds.
abbrev pub in_date_range : ℤ → Bool
in_date_range (pos n) = leb n 8640000000000
in_date_range (negsuc n) = leb (n + 1) 8640000000000

unfoldable pub to_iso_timestamp : Option Json → Checked AuthError (Option ℤ)
to_iso_timestamp value = elim (read_number value) [
  | none ↦ good none
  | some seconds ↦ require (in_date_range seconds) range_error >> good (some seconds)
]

abbrev pub actor_name : ActorType → String
actor_name admin = "admin"
actor_name internal_node = "internal-node"

abbrev pub not_reached : Option ℤ → ℕ → Bool
not_reached none now = true
not_reached (some time) now = not (reached time now)

abbrev pub active : Option ℤ → ℕ → Bool
active none now = true
active (some time) now = reached time now

abbrev pub issuer_ok : Option String → String → Bool
issuer_ok none expected = true
issuer_ok (some issuer) expected = str_eq issuer expected

abbrev pub audience_ok : List String → String → Bool
audience_ok [] expected = true
audience_ok (a ∷ others) expected = includes_text (a ∷ others) expected

unfoldable pub validate_registered_claims : AuthConfig → ℕ → Json → Checked AuthError (Unit {0})
unfolding extract_audience
validate_registered_claims config now payload = do
  require (not_reached (read_number (property payload "exp")) now) expired
  require (active (read_number (property payload "nbf")) now) not_active
  require (issuer_ok (read_string (property payload "iss")) config.jwt_issuer) issuer_invalid
  require (audience_ok (extract_audience (property payload "aud")) config.jwt_audience)
      audience_invalid

-- What a payload says, once it is trusted.
unfoldable pub principal_of : Json → Checked AuthError Principal
unfolding to_iso_timestamp
principal_of payload = do
  subject ←
      found
        (or_option (read_string (property payload "sub"))
          (read_string (property payload "client_id")))
        subject_required
  issued_at ← to_iso_timestamp (property payload "iat")
  expires_at ← to_iso_timestamp (property payload "exp")
  good (record {
    identity = record {
      id = actor_name (resolve_actor_type payload) <> ":" <> subject;
      subject = subject;
      actor_type = resolve_actor_type payload;
      auth_method = bearer_token;
      roles = extract_roles payload;
      scopes = extract_scopes payload;
      audience = extract_audience (property payload "aud");
      node_id = read_string (property payload "node_id");
    };
    display_name =
        or_else
          (or_option (read_string (property payload "name"))
            (read_string (property payload "preferred_username")))
          subject;
    issuer = read_string (property payload "iss");
    token_id = read_string (property payload "jti");
    api_key_id = none;
    issued_at = issued_at;
    expires_at = expires_at;
  })

abbrev pub allowed_algorithm : AuthConfig → Option String → Option String
allowed_algorithm config none = none
allowed_algorithm config (some algorithm) =
    if includes_text config.jwt_allowed_algorithms algorithm then some algorithm else none

abbrev pub texts : List String → Items
texts [] = nil
texts (s ∷ ss) = cons (text s) (texts ss)

-- A member that is undefined is left out of the text of an object.
abbrev pub optional : String → Option String → Members → Members
optional key none ms = ms
optional key (some value) ms = member key (text value) ms

abbrev pub token_header : Json
token_header = object (member "alg" (text "HS256") (member "typ" (text "JWT") no_members))

abbrev pub token_payload : AuthConfig → ℕ → String → Principal → Json
token_payload config now jti principal = object (
    member "sub" (text principal.identity.subject) (
      member "iss" (text config.jwt_issuer) (
        member "aud" (text config.jwt_audience) (
          member "iat" (number (pos now)) (
            member "nbf" (number (pos now)) (
              member "exp" (number (pos (now + config.access_token_ttl_seconds))) (
                member "jti" (text jti) (
                  member "name" (text principal.display_name) (
                    member "roles" (array (texts principal.identity.roles)) (
                      member "scope" (text (spaced principal.identity.scopes)) (
                        member "actor_type" (text (actor_name principal.identity.actor_type)) (
                          optional "api_key_id" principal.api_key_id
                            (optional "node_id" principal.identity.node_id no_members)))))))))))))

module _ (jose : Jose) where
  abbrev pub parse_segment : String → Option Json
  parse_segment segment = jose.parse (jose.decode segment)

  abbrev pub hs256_signed : Option String → String → Text → Checked AuthError (Unit {0})
  hs256_signed none input signature = fail hs256_unavailable
  hs256_signed (some secret) input signature =
      require (text_eq (jose.hmac secret input) signature) invalid_signature

  abbrev pub rs256_signed : Option String → String → Text → Checked AuthError (Unit {0})
  rs256_signed none input signature = fail rs256_unavailable
  rs256_signed (some key) input signature =
      require (jose.rsa_verify key input signature) invalid_signature

  unfoldable pub verify_jwt_signature :
      AuthConfig → String → String → String → Checked AuthError (Unit {0})
  verify_jwt_signature config algorithm input segment =
      let signature = jose.decode segment in
      if str_eq algorithm "HS256"
      then hs256_signed config.jwt_secret input signature
      else if str_eq algorithm "RS256"
      then rs256_signed config.jwt_public_key input signature
      else fail unsupported_algorithm

  abbrev pub authenticate_segments :
      AuthConfig → ℕ → String → String → String → Checked AuthError Principal
  authenticate_segments config now header_segment payload_segment signature_segment = do
    header ← found (parse_segment header_segment) invalid_header
    payload ← found (parse_segment payload_segment) invalid_payload
    require (not (is_null header)) type_error
    algorithm ←
        found (allowed_algorithm config (read_string (property header "alg"))) unsupported_algorithm
    verify_jwt_signature config algorithm (header_segment <> "." <> payload_segment)
        signature_segment
    require (not (is_null payload)) type_error
    validate_registered_claims config now payload
    principal_of payload

  abbrev pub three_segments : AuthConfig → ℕ → List String → Checked AuthError Principal
  three_segments config now (header ∷ payload ∷ signature ∷ []) =
      authenticate_segments config now header payload signature
  three_segments config now _ = fail malformed

  unfoldable pub authenticate_bearer_token : AuthConfig → ℕ → String → Checked AuthError Principal
  unfolding can_verify_bearer_tokens split_on verify_jwt_signature validate_registered_claims
      principal_of
  authenticate_bearer_token config now token =
      require (can_verify_bearer_tokens config) not_configured
      >> three_segments config now (split_on b'.' token)

  abbrev pub segment : Json → String
  segment value = jose.encode (jose.stringify value)

  abbrev pub signing_input : Json → String
  signing_input payload = segment token_header <> "." <> segment payload

  -- The access token, and the second it expires in.
  unfoldable pub issue_access_token :
      AuthConfig → ℕ → String → Principal → Checked AuthError (String × ℕ)
  unfolding spaced
  issue_access_token config now jti principal = do
    secret ← found config.jwt_secret issuance_not_configured
    let input = signing_input (token_payload config now jti principal)
    good (
      input <> "." <> jose.encode (jose.hmac secret input),
      now + config.access_token_ttl_seconds,
    )
