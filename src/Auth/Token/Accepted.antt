-- ===== src/Auth/Token/Accepted.antt =====
-- What an accepted bearer token has (authenticateBearerToken of src/auth/auth.service.ts).
use lyttle_nginx.Prelude.{
  ℕ, ◌≡◌, refl, sym, subst, String, Bool, true, false, not, ◌⊎◌, inl, inr, Option, none, some, List,
  [], ◌∷◌, str_eq, eq_iff, Bool-cases, arith,
}
use lyttle_nginx.Prelude.Texts.{Text, text_eq, text_eq_iff}
use lyttle_nginx.Prelude.Numbers.{ℤ}
use lyttle_nginx.Prelude.Results.{
  good, ◌>>◌, require, found, after, require-good, bind-good, both-good, found-good,
}
use lyttle_nginx.Prelude.Strings.{◌<>◌, split_on}
use lyttle_nginx.Auth.Claims.{
  Json, is_null, property, read_string, read_number, extract_audience, includes_text, reached,
}
use lyttle_nginx.Auth.Token.{
  AuthConfig, Principal, Jose, AuthError, can_verify_bearer_tokens, not_reached, active, issuer_ok,
  audience_ok, validate_registered_claims, parse_segment, hs256_signed, rs256_signed,
  verify_jwt_signature, principal_of, allowed_algorithm, authenticate_segments, three_segments,
  authenticate_bearer_token, expired, not_active, issuer_invalid, audience_invalid,
  invalid_signature, invalid_header, invalid_payload, type_error, unsupported_algorithm,
  not_configured,
}

-- The registered claims at a second: each one that is given holds.
pub record IsCurrent (config : AuthConfig) (now : ℕ) (payload : Json) : Type 0 where
  pub unexpired :
      (time : ℤ) → read_number (property payload "exp") ≡ some time → reached time now ≡ false
  pub started :
      (time : ℤ) → read_number (property payload "nbf") ≡ some time → reached time now ≡ true
  pub by_issuer :
      (issuer : String)
      → read_string (property payload "iss") ≡ some issuer
      → issuer ≡ config.jwt_issuer
  pub for_audience :
      (extract_audience (property payload "aud") ≡ [])
      ⊎ (includes_text (extract_audience (property payload "aud")) config.jwt_audience ≡ true)

not_reached_lem :
    (claim : Option ℤ) (now : ℕ)
    → not_reached claim now ≡ true
    → (time : ℤ) → claim ≡ some time
    → reached time now ≡ false
not_reached_lem claim now h time e =
    let open_ : not (reached time now) ≡ true = (rw e at h) in ground arith

active_lem :
    (claim : Option ℤ) (now : ℕ)
    → active claim now ≡ true
    → (time : ℤ) → claim ≡ some time
    → reached time now ≡ true
active_lem claim now h time e = (rw e at h)

issuer_ok_lem :
    (claim : Option String) (expected : String)
    → issuer_ok claim expected ≡ true
    → (issuer : String) → claim ≡ some issuer
    → issuer ≡ expected
issuer_ok_lem claim expected h issuer e =
    let same : str_eq issuer expected ≡ true = (rw e at h) in (eq_iff issuer expected).0 same

audience_ok_lem :
    (audience : List String) (expected : String)
    → audience_ok audience expected ≡ true
    → (audience ≡ []) ⊎ (includes_text audience expected ≡ true)
audience_ok_lem [] expected h = inl refl
audience_ok_lem (a ∷ others) expected h = inr h

-- Four guards, all passed.
four_checks :
    (a b c d : Bool) (ea eb ec ed : AuthError)
    → (require a ea >> (require b eb >> (require c ec >> require d ed))) ≡ good tt
    → (a ≡ true) × (b ≡ true) × (c ≡ true) × (d ≡ true)
four_checks a b c d ea eb ec ed h =
    let (ha, h1) = after a ea (require b eb >> (require c ec >> require d ed)) tt h in
    let (hb, h2) = after b eb (require c ec >> require d ed) tt h1 in
    let (hc, h3) = after c ec (require d ed) tt h2 in (ha, hb, hc, require-good d ed h3)

validate-IsCurrent :
    (config : AuthConfig) (now : ℕ) (payload : Json)
    → validate_registered_claims config now payload ≡ good tt
    → IsCurrent config now payload
unfolding validate_registered_claims
validate-IsCurrent config now payload h =
    let exp = read_number (property payload "exp") in
    let nbf = read_number (property payload "nbf") in
    let iss = read_string (property payload "iss") in
    let aud = extract_audience (property payload "aud") in
    let (unexpired, started, issued, heard) =
      four_checks (not_reached exp now) (active nbf now) (issuer_ok iss config.jwt_issuer)
        (audience_ok aud config.jwt_audience) expired not_active issuer_invalid audience_invalid
        h in
    record {
      unexpired = not_reached_lem exp now unexpired;
      started = active_lem nbf now started;
      by_issuer = issuer_ok_lem iss config.jwt_issuer issued;
      for_audience = audience_ok_lem aud config.jwt_audience heard;
    }

module _ (jose : Jose) (config : AuthConfig) where
  -- A signature over a text, made with the configured secret or with the configured key.
  pub data IsSigned : String → String → Text → Type 0 where
    by_secret :
        (secret : String) (input : String)
        → config.jwt_secret ≡ some secret
        → IsSigned "HS256" input (jose.hmac secret input)
    by_key :
        (key : String) (input : String) (signature : Text)
        → config.jwt_public_key ≡ some key
        → jose.rsa_verify key input signature ≡ true
        → IsSigned "RS256" input signature

  pub record IsVouched (now : ℕ) (token : String) (principal : Principal) : Type 0 where
    pub header_segment : String
    pub payload_segment : String
    pub signature_segment : String
    pub algorithm : String
    pub header : Json
    pub payload : Json
    pub segments : split_on b'.' token ≡ header_segment ∷ payload_segment ∷ signature_segment ∷ []
    pub header_parsed : parse_segment jose header_segment ≡ some header
    pub payload_parsed : parse_segment jose payload_segment ≡ some payload
    pub named : read_string (property header "alg") ≡ some algorithm
    pub allowed : includes_text config.jwt_allowed_algorithms algorithm ≡ true
    pub signed :
        IsSigned algorithm
          (header_segment <> "." <> payload_segment)
          (jose.decode signature_segment)
    pub current : IsCurrent config now payload
    pub described : principal_of payload ≡ good principal

  hs256_lem :
      (secret : Option String) (input : String) (signature : Text)
      → config.jwt_secret ≡ secret
      → hs256_signed jose secret input signature ≡ good tt
      → IsSigned "HS256" input signature
  hs256_lem none input signature e h = cc
  hs256_lem (some secret) input signature e h =
      let same = require-good (text_eq (jose.hmac secret input) signature) invalid_signature h in
      subst (λ bytes. IsSigned "HS256" input bytes)
        ((text_eq_iff (jose.hmac secret input) signature).0 same) (by_secret secret input e)

  rs256_lem :
      (key : Option String) (input : String) (signature : Text)
      → config.jwt_public_key ≡ key
      → rs256_signed jose key input signature ≡ good tt
      → IsSigned "RS256" input signature
  rs256_lem none input signature e h = cc
  rs256_lem (some key) input signature e h =
      by_key key input signature e
        (require-good (jose.rsa_verify key input signature) invalid_signature h)

  signed-IsSigned :
      (algorithm input segment : String)
      → verify_jwt_signature jose config algorithm input segment ≡ good tt
      → IsSigned algorithm input (jose.decode segment)
  unfolding verify_jwt_signature
  signed-IsSigned algorithm input segment h = elim (Bool-cases (str_eq algorithm "HS256")) [
    | inl hs ↦
        subst (λ a. IsSigned a input (jose.decode segment)) (sym ((eq_iff algorithm "HS256").0 hs))
          (hs256_lem config.jwt_secret input (jose.decode segment) refl (rw hs at h))
    | inr other ↦ elim (Bool-cases (str_eq algorithm "RS256")) [
      | inl rs ↦
          subst (λ a. IsSigned a input (jose.decode segment))
            (sym ((eq_iff algorithm "RS256").0 rs))
            (rs256_lem config.jwt_public_key input (jose.decode segment) refl (rw (other, rs) at h))
      | inr neither ↦ let no = (rw (other, neither) at h) in cc
    ]
  ]

  allowed_algorithm_lem :
      (named : Option String) (algorithm : String)
      → allowed_algorithm config named ≡ some algorithm
      → (named ≡ some algorithm) × (includes_text config.jwt_allowed_algorithms algorithm ≡ true)
  allowed_algorithm_lem none algorithm h = cc
  allowed_algorithm_lem (some name) algorithm h =
      elim (Bool-cases (includes_text config.jwt_allowed_algorithms name)) [
        | inl listed ↦ let same : some name ≡ some algorithm = (rw listed at h) in (same, cc)
        | inr unlisted ↦
            let no : Path (Option String) none (some algorithm) = (rw unlisted at h) in cc
      ]

  accepted-IsVouched :
      (now : ℕ) (token header payload signature : String) (principal : Principal)
      → split_on b'.' token ≡ header ∷ payload ∷ signature ∷ []
      → authenticate_segments jose config now header payload signature ≡ good principal
      → IsVouched now token principal
  accepted-IsVouched now token header payload signature principal segments h =
      let (header_json, parsed, h1) =
        bind-good (found (parse_segment jose header) invalid_header) _ principal h in
      let (payload_json, read, h2) =
        bind-good (found (parse_segment jose payload) invalid_payload) _ principal h1 in
      let (_, h3) = after (not (is_null header_json)) type_error _ principal h2 in
      let named = read_string (property header_json "alg") in
      let (algorithm, listed, h4) =
        bind-good (found (allowed_algorithm config named) unsupported_algorithm) _ principal h3 in
      let (signed, h5) =
        both-good (verify_jwt_signature jose config algorithm (header <> "." <> payload) signature)
          _ principal h4 in
      let (_, h6) = after (not (is_null payload_json)) type_error _ principal h5 in
      let (valid, described) =
        both-good (validate_registered_claims config now payload_json) _ principal h6 in
      let (same, allowed) =
        allowed_algorithm_lem named algorithm
          (found-good (allowed_algorithm config named) unsupported_algorithm algorithm listed) in
      record {
        header_segment = header;
        payload_segment = payload;
        signature_segment = signature;
        algorithm = algorithm;
        header = header_json;
        payload = payload_json;
        segments = segments;
        header_parsed = found-good (parse_segment jose header) invalid_header header_json parsed;
        payload_parsed = found-good (parse_segment jose payload) invalid_payload payload_json read;
        named = same;
        allowed = allowed;
        signed = signed-IsSigned algorithm (header <> "." <> payload) signature signed;
        current = validate-IsCurrent config now payload_json valid;
        described = described;
      }

  three_segments_lem :
      (now : ℕ) (token : String) (segments : List String) (principal : Principal)
      → split_on b'.' token ≡ segments
      → three_segments jose config now segments ≡ good principal
      → IsVouched now token principal
  three_segments_lem now token [] principal e h = cc
  three_segments_lem now token (a ∷ []) principal e h = cc
  three_segments_lem now token (a ∷ b ∷ []) principal e h = cc
  three_segments_lem now token (a ∷ b ∷ c ∷ []) principal e h =
      accepted-IsVouched now token a b c principal e h
  three_segments_lem now token (a ∷ b ∷ c ∷ d ∷ rest) principal e h = cc

  -- Whoever presents a bearer token that is accepted holds one that was signed for this service: the
  -- token has three segments, its header names an algorithm that the configuration allows, its
  -- signature is the HMAC with the configured secret or one that the configured public key verifies,
  -- over exactly the first two segments, and, of the expiry, the start, the issuer and the audience,
  -- each one that its payload gives holds at that second; the identity is the one the payload describes.
  pub authenticate-IsVouched :
      (now : ℕ) (token : String) (principal : Principal)
      → authenticate_bearer_token jose config now token ≡ good principal
      → IsVouched now token principal
  unfolding authenticate_bearer_token
  authenticate-IsVouched now token principal h =
      let (_, accepted) = after (can_verify_bearer_tokens config) not_configured _ principal h in
      three_segments_lem now token (split_on b'.' token) principal refl accepted
