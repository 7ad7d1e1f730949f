-- ===== src/Auth/Token/RoundTrip.antt =====
-- An issued access token is accepted until it expires (issueAccessToken and authenticateBearerToken of
-- src/auth/auth.service.ts).
use Prim.Native.Char.{code}
use Prim.Native.String.{char_at}
use lyttle_nginx.Prelude.{
  ℕ, ◌+◌, ◌≡◌, refl, subst, String, true, not, some, [], ◌∷◌, ◌==◌, leb, Bool-cases, inl, inr,
  if◌then◌else◌,
}
use lyttle_nginx.Prelude.Texts.{text_eq_iff}
use lyttle_nginx.Prelude.Results.{good, fail, ◌>>◌, require, found, found-good, bind-good, good-inj}
use lyttle_nginx.Prelude.Strings.{
  ◌<>◌, all_chars, trimmed, split_on, split_on-piece, split_on-last, append_assoc_text,
}
use lyttle_nginx.Auth.Claims.{Json}
use lyttle_nginx.Auth.Token.{
  AuthConfig, Principal, Jose, can_verify_bearer_tokens, token_header, token_payload, parse_segment,
  signing_input, segment, verify_jwt_signature, authenticate_bearer_token, issue_access_token,
  expired, issuance_not_configured,
}
use lyttle_nginx.Auth.Token.Exchange.{
  IsSoundJose, IsExchangeable, exchanged, principal_of_payload, validate_payload,
}

split_stop :
    (s t : String)
    → all_chars (λ c. not (code c == b'.')) s ≡ true
    → split_on b'.' (s <> "." <> t) ≡ s ∷ split_on b'.' t
split_stop s t whole = split_on-piece b'.' (char_at "." 0) s t whole refl

module _ (jose : Jose) (config : AuthConfig) (now : ℕ) (jti : String) (principal : Principal)
    (laws : IsSoundJose jose (token_payload config now jti principal))
    (sound : IsExchangeable config now jti principal) where
  abbrev payload : Json
  payload = token_payload config now jti principal

  -- The signature's segment.
  abbrev signature : String → String
  signature secret = jose.encode (jose.hmac secret (signing_input jose payload))

  split_token :
      (secret : String)
      → split_on b'.' (signing_input jose payload <> "." <> signature secret)
        ≡ segment jose token_header ∷ segment jose payload ∷ signature secret ∷ []
  split_token secret =
      let assoc =
        append_assoc_text (segment jose token_header) ("." <> segment jose payload)
          ("." <> signature secret) in
      let first =
        split_stop (segment jose token_header) (segment jose payload <> "." <> signature secret)
          (laws.no_stop (jose.stringify token_header)) in
      let second =
        split_stop (segment jose payload) (signature secret)
          (laws.no_stop (jose.stringify payload)) in
      let third = split_on-last b'.' (signature secret) (laws.no_stop _) in
      rw (assoc, first, second, third) refl

  parse_own :
      (value : Json)
      → jose.parse (jose.stringify value) ≡ some value
      → parse_segment jose (segment jose value) ≡ some value
  parse_own value h = rw (parse_segment, laws.decoded (jose.stringify value)) h

  verify_own :
      (secret : String)
      → config.jwt_secret ≡ some secret
      → verify_jwt_signature jose config "HS256" (signing_input jose payload) (signature secret)
        ≡ good tt
  unfolding verify_jwt_signature
  verify_own secret configured =
      let bytes = jose.hmac secret (signing_input jose payload) in
      rw (configured, laws.decoded bytes, (text_eq_iff bytes bytes).1 refl) refl

  checked_own :
      (t : ℕ)
      → leb now t ≡ true
      → (require (not (leb (now + config.access_token_ttl_seconds) t)) expired
          >> good (exchanged config now jti principal))
        ≡ (if leb (now + config.access_token_ttl_seconds) t
            then fail expired
            else good (exchanged config now jti principal))
  checked_own t later = elim (Bool-cases (leb (now + config.access_token_ttl_seconds) t)) [
    | inl over ↦ rw over refl
    | inr open_ ↦ rw open_ refl
  ]

  can_verify_own :
      (secret : String) → config.jwt_secret ≡ some secret → can_verify_bearer_tokens config ≡ true
  unfolding can_verify_bearer_tokens
  can_verify_own secret configured = rw configured refl

  authenticate_own :
      (secret : String) (t : ℕ)
      → config.jwt_secret ≡ some secret
      → leb now t ≡ true
      → authenticate_bearer_token jose config t
          (signing_input jose payload <> "." <> signature secret)
        ≡ (if leb (now + config.access_token_ttl_seconds) t
            then fail expired
            else good (exchanged config now jti principal))
  unfolding authenticate_bearer_token trimmed
  authenticate_own secret t configured later =
      rw
        (
          can_verify_own secret configured,
          split_token secret,
          parse_own token_header laws.header_parsed,
          parse_own payload laws.payload_parsed,
          sound.allowed,
          verify_own secret configured,
          validate_payload config now jti principal sound t later,
          principal_of_payload config now jti principal sound,
        )
        (checked_own t later)

  -- An access token is worth what it was issued for, for exactly its lifetime: with the library's
  -- laws, a configuration that allows HS256 and an identity whose parts are as a token keeps them,
  -- the issued token, presented at any second from its issue on, gives the identity with the same
  -- subject, actor, roles, scopes and node until the second in which it expires, and from then on
  -- only the error that it has expired.
  pub authenticate-issue :
      (token : String) (expires t : ℕ)
      → issue_access_token jose config now jti principal ≡ good (token, expires)
      → leb now t ≡ true
      → authenticate_bearer_token jose config t token
        ≡ (if leb expires t then fail expired else good (exchanged config now jti principal))
  unfolding issue_access_token
  authenticate-issue token expires t issued later =
      let (secret, configured, returned) =
        bind-good (found config.jwt_secret issuance_not_configured) _ (token, expires) issued in
      subst
        (λ r.
          authenticate_bearer_token jose config t r.0
          ≡ (if leb r.1 t then fail expired else good (exchanged config now jti principal)))
        (good-inj _ (token, expires) returned)
        (authenticate_own secret t
          (found-good config.jwt_secret issuance_not_configured secret configured) later)
