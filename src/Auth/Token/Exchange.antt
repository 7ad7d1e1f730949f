-- ===== src/Auth/Token/Exchange.antt =====
-- What an issued access token is worth (issueAccessToken and authenticateBearerToken of
-- src/auth/auth.service.ts).
use Prim.Native.Char.{code}
use lyttle_nginx.Prelude.{
  ℕ, ◌+◌, ◌≡◌, refl, sym, ap, ◌∙◌, String, Bool, true, false, not, ◌&&◌, Option, none, some, List,
  [], ◌∷◌, ◌++◌, ◌==◌, append-nil, all, str_eq, eq_iff, leb, Bool-cases, inl, inr, arith,
}
use lyttle_nginx.Prelude.Texts.{Text}
use lyttle_nginx.Prelude.Numbers.{pos}
use lyttle_nginx.Prelude.Results.{good, ◌>>◌, require}
use lyttle_nginx.Prelude.Strings.{
  ◌<>◌, trimmed, no_text, no_text_lem, is_word, words, words-spaced, words-trimmed, spaced,
  all_chars,
}
use lyttle_nginx.Auth.Role.{ActorType, admin, internal_node, bearer_token, text_set}
use lyttle_nginx.Auth.Claims.{
  Json, text, Members, no_members, lookup, property, read_string, item_texts, read_strings,
  scope_words, extract_roles, extract_scopes, extract_audience, resolve_actor_type, claimed_actor,
  includes_text,
}
use lyttle_nginx.Auth.Token.{
  AuthConfig, Principal, Jose, AuthError, actor_name, texts, optional, token_header, token_payload,
  validate_registered_claims, principal_of, to_iso_timestamp, expired,
}

-- What the service relies on: base64url is undone and has no full stop, and JSON.parse gives back
-- the header and the payload that JSON.stringify wrote.
pub record IsSoundJose (jose : Jose) (payload : Json) : Type 0 where
  pub decoded : (bytes : Text) → jose.decode (jose.encode bytes) ≡ bytes
  pub no_stop : (bytes : Text) → all_chars (λ c. not (code c == b'.')) (jose.encode bytes) ≡ true
  pub header_parsed : jose.parse (jose.stringify token_header) ≡ some token_header
  pub payload_parsed : jose.parse (jose.stringify payload) ≡ some payload

-- A text that a claim is read to as it stands.
abbrev pub is_claim : String → Bool
is_claim s = not (no_text s) && str_eq (trimmed s) s

abbrev pub optional_claim : Option String → Bool
optional_claim none = true
optional_claim (some s) = is_claim s

read_claim : (s : String) → is_claim s ≡ true → read_string (some (text s)) ≡ some s
read_claim s h =
    let same : str_eq (trimmed s) s ≡ true = ground arith in
    let filled : no_text s ≡ false = ground arith in rw ((eq_iff (trimmed s) s).0 same, filled) refl

read_one_claim : (s : String) → is_claim s ≡ true → read_strings (some (text s)) ≡ s ∷ []
unfolding read_strings
read_one_claim s h =
    let same : str_eq (trimmed s) s ≡ true = ground arith in
    let filled : no_text s ≡ false = ground arith in rw ((eq_iff (trimmed s) s).0 same, filled) refl

require_only :
    (b : Bool) (e : AuthError) → (require b e >> (good tt >> (good tt >> good tt))) ≡ require b e
require_only true e = refl
require_only false e = refl

item_texts-texts :
    (ss : List String) → all (λ s. not (no_text (trimmed s))) ss ≡ true → item_texts (texts ss) ≡ ss
item_texts-texts [] h = refl
item_texts-texts (s ∷ ss) h =
    let filled : no_text (trimmed s) ≡ false = ground arith in
    let others : all (λ t. not (no_text (trimmed t))) ss ≡ true = ground arith in
    rw (filled, item_texts-texts ss others) refl

scope_words_lem : (s : String) → scope_words (read_string (some (text s))) ≡ words s
unfolding words
scope_words_lem s = elim (Bool-cases (no_text (trimmed s))) [
  | inl empty ↦ rw empty (sym (ap words (no_text_lem (trimmed s) empty)) ∙ words-trimmed s)
  | inr filled ↦ rw filled (words-trimmed s)
]

lookup-optional :
    (key k : String) (value : Option String) (ms : Members)
    → str_eq k key ≡ false
    → lookup key (optional k value ms) ≡ lookup key ms
lookup-optional key k none ms h = refl
lookup-optional key k (some value) ms h = rw h refl

twice_nil : (ss : List String) → text_set [] (ss ++ [] ++ []) ≡ text_set [] ss
twice_nil ss = ap (λ ts. text_set [] (ts ++ [])) (append-nil ss) ∙ ap (text_set []) (append-nil ss)

claimed_actor_lem :
    (actor : ActorType) → claimed_actor (read_string (some (text (actor_name actor)))) ≡ some actor
unfolding trimmed
claimed_actor_lem admin = refl
claimed_actor_lem internal_node = refl

last_claim :
    (value : Option String)
    → optional_claim value ≡ true
    → read_string (lookup "node_id" (optional "node_id" value no_members)) ≡ value
last_claim none h = refl
last_claim (some s) h = read_claim s h

-- The identity that a token says.
abbrev pub exchanged : AuthConfig → ℕ → String → Principal → Principal
exchanged config now jti principal = record {
  identity = record principal.identity {
    id = actor_name principal.identity.actor_type <> ":" <> principal.identity.subject;
    auth_method = bearer_token;
    audience = config.jwt_audience ∷ [];
  };
  display_name = principal.display_name;
  issuer = some config.jwt_issuer;
  token_id = some jti;
  api_key_id = none;
  issued_at = some (pos now);
  expires_at = some (pos (now + config.access_token_ttl_seconds));
}

-- A configuration that takes its own tokens, and an identity whose parts are as a token keeps them:
-- no text blank or with space around it, no role blank, each scope a word, and none of them twice.
pub record IsExchangeable (config : AuthConfig) (now : ℕ) (jti : String) (principal : Principal)
    : Type 0 where
  pub allowed : includes_text config.jwt_allowed_algorithms "HS256" ≡ true
  pub issuer : is_claim config.jwt_issuer ≡ true
  pub audience : is_claim config.jwt_audience ≡ true
  pub token_id : is_claim jti ≡ true
  pub subject : is_claim principal.identity.subject ≡ true
  pub display_name : is_claim principal.display_name ≡ true
  pub node_id : optional_claim principal.identity.node_id ≡ true
  pub roles : all (λ s. not (no_text (trimmed s))) principal.identity.roles ≡ true
  pub roles_once : text_set [] principal.identity.roles ≡ principal.identity.roles
  pub scopes : all is_word principal.identity.scopes ≡ true
  pub scopes_once : text_set [] principal.identity.scopes ≡ principal.identity.scopes
  pub in_range : leb (now + config.access_token_ttl_seconds) 8640000000000 ≡ true

module _ (config : AuthConfig) (now : ℕ) (jti : String) (principal : Principal)
    (sound : IsExchangeable config now jti principal) where
  abbrev payload : Json
  payload = token_payload config now jti principal

  -- A claim that the service does not write.
  abbrev last_members : Members
  last_members =
      optional "api_key_id" principal.api_key_id
        (optional "node_id" principal.identity.node_id no_members)

  absent :
      (key : String)
      → str_eq "api_key_id" key ≡ false
      → str_eq "node_id" key ≡ false
      → lookup key last_members ≡ none
  absent key other_key other_node =
      lookup-optional key "api_key_id" principal.api_key_id
        (optional "node_id" principal.identity.node_id no_members) other_key
      ∙ lookup-optional key "node_id" principal.identity.node_id no_members other_node

  extract_roles_payload : extract_roles payload ≡ principal.identity.roles
  unfolding extract_roles read_strings
  extract_roles_payload =
      rw
        (
          absent "role" refl refl,
          absent "realm_access" refl refl,
          item_texts-texts principal.identity.roles sound.roles,
        )
        (twice_nil principal.identity.roles ∙ sound.roles_once)

  extract_scopes_payload : extract_scopes payload ≡ principal.identity.scopes
  unfolding extract_scopes read_strings
  extract_scopes_payload =
      rw
        (
          absent "scp" refl refl,
          absent "permissions" refl refl,
          scope_words_lem (spaced principal.identity.scopes),
          words-spaced principal.identity.scopes sound.scopes,
        )
        (twice_nil principal.identity.scopes ∙ sound.scopes_once)

  resolve_actor_type_payload : resolve_actor_type payload ≡ principal.identity.actor_type
  unfolding resolve_actor_type
  resolve_actor_type_payload = rw (claimed_actor_lem principal.identity.actor_type) refl

  node_id_payload : read_string (property payload "node_id") ≡ principal.identity.node_id
  node_id_payload =
      rw
        (lookup-optional "node_id" "api_key_id" principal.api_key_id
          (optional "node_id" principal.identity.node_id no_members) refl)
        (last_claim principal.identity.node_id sound.node_id)

  pub audience_payload : extract_audience (property payload "aud") ≡ config.jwt_audience ∷ []
  unfolding extract_audience read_strings
  audience_payload = read_one_claim config.jwt_audience sound.audience

  pub principal_of_payload : principal_of payload ≡ good (exchanged config now jti principal)
  unfolding principal_of to_iso_timestamp
  principal_of_payload =
      let earlier : leb now 8640000000000 ≡ true = ground (arith, sound.in_range) in
      rw
        (
          read_claim principal.identity.subject sound.subject,
          read_claim config.jwt_issuer sound.issuer,
          read_claim jti sound.token_id,
          read_claim principal.display_name sound.display_name,
          sound.in_range,
          earlier,
          resolve_actor_type_payload,
          extract_roles_payload,
          extract_scopes_payload,
          node_id_payload,
          audience_payload,
        )
        refl

  -- The registered claims of an own token at a second that is not before its issue.
  pub validate_payload :
      (t : ℕ)
      → leb now t ≡ true
      → validate_registered_claims config t payload
        ≡ require (not (leb (now + config.access_token_ttl_seconds) t)) expired
  unfolding validate_registered_claims
  validate_payload t later =
      let own_issuer = (eq_iff config.jwt_issuer config.jwt_issuer).1 refl in
      let own_audience = (eq_iff config.jwt_audience config.jwt_audience).1 refl in
      rw
        (
          later,
          read_claim config.jwt_issuer sound.issuer,
          own_issuer,
          audience_payload,
          own_audience,
        )
        (require_only (not (leb (now + config.access_token_ttl_seconds) t)) expired)
