-- ===== src/Tests/Tokens.antt =====
-- Access tokens, API keys and the two guards (src/auth) at concrete inputs, with a base64url that is
-- the text itself and a JSON that knows four texts.
use Prim.Native.Char.{code}
use lyttle_nginx.Prelude.{
  ℕ, zero, suc, ◌+◌, ap, ◌∙◌, arith, ◌≡◌, ◌↔◌, refl, String, true, false, not, Option, none, some,
  is_some, [], ◌∷◌, ◌==◌, if◌then◌else◌,
}
use lyttle_nginx.Prelude.Texts.{Text, codes, text_eq}
use lyttle_nginx.Prelude.Numbers.{pos}
use lyttle_nginx.Prelude.Results.{good, fail}
use lyttle_nginx.Prelude.Strings.{◌<>◌, all_chars, split_on, trimmed}
use lyttle_nginx.Auth.Role.{admin, bearer_token, api_key, text_set}
use lyttle_nginx.Auth.Claims.{
  Json, null, number, text, object, no_members, member, resolve_actor_type, extract_roles,
  extract_scopes, property,
}
use lyttle_nginx.Auth.Token.{
  AuthConfig, Principal, Jose, type_error, authenticate_bearer_token, can_verify_bearer_tokens,
  issue_access_token, token_header, token_payload,
}
use lyttle_nginx.Auth.Token.Accepted.{IsVouched, authenticate-IsVouched}
use lyttle_nginx.Auth.Token.Exchange.{IsSoundJose, IsExchangeable, exchanged}
use lyttle_nginx.Auth.Token.RoundTrip.{authenticate-issue}
use lyttle_nginx.Auth.Token.Malformed.{IsNull, authenticate-IsNull}

abbrev hs256 : AuthConfig
hs256 = record {
  jwt_issuer = "lyttle-nginx";
  jwt_audience = "lyttle-nginx-admin";
  jwt_allowed_algorithms = "HS256" ∷ [];
  jwt_secret = some "secret";
  jwt_public_key = none;
  access_token_ttl_seconds = 900;
}

-- The header, a payload for bob, and null.
abbrev known_json : Text → Option Json
known_json bytes =
    if text_eq bytes (codes "h")
    then some token_header
    else if text_eq bytes (codes "p")
    then some (object (member "sub" (text "bob") (member "exp" (number (pos 2000)) no_members)))
    else if text_eq bytes (codes "n")
    then some null
    else none

abbrev pub in_clear : Jose
in_clear = record {
  decode = codes;
  encode = λ bytes. "";
  parse = known_json;
  stringify = λ value. [];
  hmac = λ secret input. codes "s";
  rsa_verify = λ key input signature. false;
}

authenticate-IsNull_example :
    (authenticate_bearer_token in_clear hs256 1000 "n.p.s" ≡ fail type_error)
    ↔ ((can_verify_bearer_tokens hs256 ≡ true) × IsNull in_clear hs256 (split_on b'.' "n.p.s"))
authenticate-IsNull_example = authenticate-IsNull in_clear hs256 1000 "n.p.s"

-- Without a signature: the token of a header that is null.
unsigned : authenticate_bearer_token in_clear hs256 1000 "n.p.s" ≡ fail type_error
unfolding authenticate_bearer_token
unsigned = refl

abbrev bob : Principal
bob = record {
  identity = record {
    id = "admin:bob";
    subject = "bob";
    actor_type = admin;
    auth_method = bearer_token;
    roles = [];
    scopes = [];
    audience = [];
    node_id = none;
  };
  display_name = "bob";
  issuer = none;
  token_id = none;
  api_key_id = none;
  issued_at = none;
  expires_at = some (pos 2000);
}

authenticate-IsVouched_example : IsVouched in_clear hs256 1000 "h.p.s" bob
unfolding authenticate_bearer_token trimmed resolve_actor_type extract_roles extract_scopes
authenticate-IsVouched_example = authenticate-IsVouched in_clear hs256 1000 "h.p.s" bob refl

-- A base64url in unary, and a JSON that knows the header and one payload.
abbrev unary : ℕ → String → String
unary zero rest = "b" <> rest
unary (suc n) rest = "a" <> unary n rest

abbrev unary_bytes : Text → String
unary_bytes [] = ""
unary_bytes (n ∷ ns) = unary n (unary_bytes ns)

abbrev counted : ℕ → String → Text
counted n String.[] = []
counted n (String.◌∷◌ c s) = if code c == b'a' then counted (suc n) s else n ∷ counted 0 s

counted-unary : (n k : ℕ) (s : String) → counted k (unary n s) ≡ (n + k) ∷ counted 0 s
counted-unary zero k s = let plain : k ≡ 0 + k = omega arith in ap (λ m. m ∷ counted 0 s) plain
counted-unary (suc n) k s =
    let moved : n + suc k ≡ suc n + k = omega arith in
    counted-unary n (suc k) s ∙ ap (λ m. m ∷ counted 0 s) moved

counted-unary_bytes : (bytes : Text) → counted 0 (unary_bytes bytes) ≡ bytes
counted-unary_bytes [] = refl
counted-unary_bytes (n ∷ ns) =
    let plain : n + 0 ≡ n = omega arith in
    counted-unary n 0 (unary_bytes ns)
    ∙ ap (λ m. m ∷ counted 0 (unary_bytes ns)) plain
    ∙ ap (λ ms. n ∷ ms) (counted-unary_bytes ns)

unary_stop :
    (n : ℕ) (s : String)
    → all_chars (λ c. not (code c == b'.')) s ≡ true
    → all_chars (λ c. not (code c == b'.')) (unary n s) ≡ true
unary_stop zero s h = h
unary_stop (suc n) s h = unary_stop n s h

unary_bytes_stop : (bytes : Text) → all_chars (λ c. not (code c == b'.')) (unary_bytes bytes) ≡ true
unary_bytes_stop [] = refl
unary_bytes_stop (n ∷ ns) = unary_stop n (unary_bytes ns) (unary_bytes_stop ns)

abbrev carol : Principal
carol = record bob {
  identity = record bob.identity {
    id = "api-key:1-x";
    subject = "carol";
    auth_method = api_key;
    roles = "operator" ∷ "viewer" ∷ [];
    scopes = "read" ∷ "write" ∷ [];
  };
  display_name = "Carol C.";
}

abbrev carol_payload : Json
carol_payload = token_payload hs256 1000 "id" carol

abbrev two_texts : Json → Text
two_texts value = if is_some (property value "alg") then [] else 1 ∷ []

abbrev two_values : Text → Option Json
two_values [] = some token_header
two_values (n ∷ ns) = some carol_payload

abbrev in_unary : Jose
in_unary = record {
  decode = counted 0;
  encode = unary_bytes;
  parse = two_values;
  stringify = two_texts;
  hmac = λ secret input. 2 ∷ [];
  rsa_verify = λ key input signature. false;
}

in_unary-IsSoundJose : IsSoundJose in_unary carol_payload
in_unary-IsSoundJose = record {
  decoded = counted-unary_bytes;
  no_stop = unary_bytes_stop;
  header_parsed = refl;
  payload_parsed = refl;
}

carol-IsExchangeable : IsExchangeable hs256 1000 "id" carol
unfolding trimmed text_set
carol-IsExchangeable = record {
  allowed = refl;
  issuer = refl;
  audience = refl;
  token_id = refl;
  subject = refl;
  display_name = refl;
  node_id = refl;
  roles = refl;
  roles_once = refl;
  scopes = refl;
  scopes_once = refl;
  in_range = refl;
}

authenticate-issue_example :
    authenticate_bearer_token in_unary hs256 1899 ".ab.aab" ≡ good (exchanged hs256 1000 "id" carol)
unfolding issue_access_token
authenticate-issue_example =
    authenticate-issue in_unary hs256 1000 "id" carol in_unary-IsSoundJose carol-IsExchangeable
      ".ab.aab" 1900 1899 refl refl
