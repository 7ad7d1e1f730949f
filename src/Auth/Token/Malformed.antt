-- ===== src/Auth/Token/Malformed.antt =====
-- The tokens that end the authentication in a TypeError (authenticateBearerToken of
-- src/auth/auth.service.ts).
use lyttle_nginx.Prelude.{
  ℕ, ◌≡◌, ◌≢◌, ◌↔◌, inl, inr, refl, sym, ◌∙◌, ap, String, Bool, true, false, not, Option, none,
  some, List, [], ◌∷◌, str_eq, Bool-cases, Option-cases, if◌then◌else◌,
}
use lyttle_nginx.Prelude.Texts.{Text, text_eq}
use lyttle_nginx.Prelude.Numbers.{ℤ}
use lyttle_nginx.Prelude.Results.{
  Checked, good, fail, ◌>>=◌, ◌>>◌, require, found, found-good, require-good,
}
use lyttle_nginx.Prelude.Strings.{◌<>◌, split_on}
use lyttle_nginx.Auth.Claims.{
  Json, null, is_null, property, read_string, read_number, extract_audience,
}
use lyttle_nginx.Auth.Token.{
  AuthConfig, Jose, AuthError, type_error, range_error, expired, not_active, issuer_invalid,
  audience_invalid, subject_required, invalid_signature, invalid_header, invalid_payload,
  unsupported_algorithm, not_configured, can_verify_bearer_tokens, not_reached, active, issuer_ok,
  audience_ok, to_iso_timestamp, in_date_range, principal_of, validate_registered_claims,
  parse_segment, hs256_signed, rs256_signed, verify_jwt_signature, allowed_algorithm,
  authenticate_segments, three_segments, authenticate_bearer_token,
}

-- A result that is no TypeError.
abbrev IsTyped : {A : Type 0} → Checked AuthError A → Type 0
IsTyped m = m ≢ fail type_error

require-IsTyped : (b : Bool) (e : AuthError) → e ≢ type_error → IsTyped (require b e)
require-IsTyped true e other h = cc
require-IsTyped false e other h = let same : e ≡ type_error = cc in other same

found-IsTyped : {A : Type 0} (o : Option A) (e : AuthError) → e ≢ type_error → IsTyped (found o e)
found-IsTyped (some a) e other h = cc
found-IsTyped none e other h = let same : e ≡ type_error = cc in other same

bind-IsTyped :
    {A B : Type 0} (m : Checked AuthError A) (f : A → Checked AuthError B)
    → IsTyped m
    → ((a : A) → IsTyped (f a))
    → IsTyped (m >>= f)
bind-IsTyped (good a) f first rest h = rest a h
bind-IsTyped (fail e) f first rest h = let same : e ≡ type_error = cc in first (ap fail same)

-- Where a step is no TypeError, it came back before one.
typed_step :
    {A B : Type 0} (m : Checked AuthError A) (f : A → Checked AuthError B)
    → IsTyped m
    → (m >>= f) ≡ fail type_error
    → (a : A) × (m ≡ good a) × (f a ≡ fail type_error)
typed_step (good a) f typed h = (a, refl, h)
typed_step (fail e) f typed h = let same : e ≡ type_error = cc in absurd (typed (ap fail same))

passed_step :
    {A : Type 0} (b : Bool) (e x : AuthError) (k : Checked AuthError A)
    → b ≡ true
    → (require b e >> k) ≡ fail x
    → k ≡ fail x
passed_step true e x k passed h = h
passed_step false e x k passed h = cc

timestamp-IsTyped : (value : Option Json) → IsTyped (to_iso_timestamp value)
unfolding to_iso_timestamp
timestamp-IsTyped value h = elim (Option-cases (read_number value)) [
  | inl gone ↦
      let e : to_iso_timestamp value ≡ good none = rw (to_iso_timestamp, gone) refl in
      let no : Path (Checked AuthError (Option ℤ)) (good none) (fail type_error) = sym e ∙ h in cc
  | inr (seconds, there) ↦
      let e : to_iso_timestamp value
          ≡ (require (in_date_range seconds) range_error >> good (some seconds)) =
        rw (to_iso_timestamp, there) refl in
      bind-IsTyped (require (in_date_range seconds) range_error) (λ _. good (some seconds))
        (require-IsTyped (in_date_range seconds) range_error cc) (λ _ k. cc) (sym e ∙ h)
]

principal-IsTyped : (payload : Json) → IsTyped (principal_of payload)
unfolding principal_of
principal-IsTyped payload =
    bind-IsTyped (found _ subject_required) _ (found-IsTyped _ subject_required cc) (λ subject.
      bind-IsTyped (to_iso_timestamp (property payload "iat")) _
        (timestamp-IsTyped (property payload "iat"))
        (λ issued.
          bind-IsTyped (to_iso_timestamp (property payload "exp")) _
            (timestamp-IsTyped (property payload "exp")) (λ expires h. cc)))

validate-IsTyped :
    (config : AuthConfig) (now : ℕ) (payload : Json)
    → IsTyped (validate_registered_claims config now payload)
unfolding validate_registered_claims
validate-IsTyped config now payload =
    let unexpired = not_reached (read_number (property payload "exp")) now in
    let started = active (read_number (property payload "nbf")) now in
    let issued = issuer_ok (read_string (property payload "iss")) config.jwt_issuer in
    let meant = audience_ok (extract_audience (property payload "aud")) config.jwt_audience in
    bind-IsTyped (require unexpired expired) _ (require-IsTyped unexpired expired cc) (λ _.
      bind-IsTyped (require started not_active) _ (require-IsTyped started not_active cc) (λ _.
        bind-IsTyped (require issued issuer_invalid) (λ _. require meant audience_invalid)
          (require-IsTyped issued issuer_invalid cc)
          (λ _. require-IsTyped meant audience_invalid cc)))

module _ (jose : Jose) where
  hs256-IsTyped :
      (secret : Option String) (input : String) (signature : Text)
      → IsTyped (hs256_signed jose secret input signature)
  hs256-IsTyped none input signature = λ h. cc
  hs256-IsTyped (some secret) input signature =
      require-IsTyped (text_eq (jose.hmac secret input) signature) invalid_signature cc

  rs256-IsTyped :
      (key : Option String) (input : String) (signature : Text)
      → IsTyped (rs256_signed jose key input signature)
  rs256-IsTyped none input signature = λ h. cc
  rs256-IsTyped (some key) input signature =
      require-IsTyped (jose.rsa_verify key input signature) invalid_signature cc

  either-IsTyped :
      {A : Type 0} (b : Bool) (m k : Checked AuthError A)
      → IsTyped m
      → IsTyped k
      → IsTyped (if b then m else k)
  either-IsTyped true m k hm hk = hm
  either-IsTyped false m k hm hk = hk

  verify-IsTyped :
      (config : AuthConfig) (algorithm input signature : String)
      → IsTyped (verify_jwt_signature jose config algorithm input signature)
  unfolding verify_jwt_signature
  verify-IsTyped config algorithm input signature =
      let bytes = jose.decode signature in
      let by_key = rs256_signed jose config.jwt_public_key input bytes in
      either-IsTyped (str_eq algorithm "HS256") (hs256_signed jose config.jwt_secret input bytes)
        (if str_eq algorithm "RS256" then by_key else fail unsupported_algorithm)
        (hs256-IsTyped config.jwt_secret input bytes)
        (either-IsTyped (str_eq algorithm "RS256") by_key (fail unsupported_algorithm)
          (rs256-IsTyped config.jwt_public_key input bytes) (λ h. cc))

  -- Segments that end in a TypeError: the header is the JSON text `null` and the payload any JSON text;
  -- or the header names an allowed algorithm by which the segments are signed, and the payload is `null`.
  pub data IsNull (config : AuthConfig) : List String → Type 0 where
    null_header :
        (header payload signature : String) (claims : Json)
        → parse_segment jose header ≡ some null
        → parse_segment jose payload ≡ some claims
        → IsNull config (header ∷ payload ∷ signature ∷ [])
    null_payload :
        (header payload signature algorithm : String) (fields : Json)
        → parse_segment jose header ≡ some fields
        → is_null fields ≡ false
        → allowed_algorithm config (read_string (property fields "alg")) ≡ some algorithm
        → verify_jwt_signature jose config algorithm (header <> "." <> payload) signature ≡ good tt
        → parse_segment jose payload ≡ some null
        → IsNull config (header ∷ payload ∷ signature ∷ [])

  null-is_null : (value : Json) → is_null value ≡ true → value ≡ null
  null-is_null null h = refl
  null-is_null _ h = cc

  module _ (config : AuthConfig) (now : ℕ) where
    segments_fail :
        (segments : List String)
        → IsNull config segments
        → three_segments jose config now segments ≡ fail type_error
    segments_fail _ (null_header h p s claims header payload) = rw (header, payload) refl
    segments_fail _ (null_payload h p s alg fields header some_ algorithm signed payload) =
        rw (header, payload, some_, algorithm, signed) refl

    type_error-IsNull :
        (header payload signature : String)
        → authenticate_segments jose config now header payload signature ≡ fail type_error
        → IsNull config (header ∷ payload ∷ signature ∷ [])
    type_error-IsNull header payload signature h =
        let (fields, first, h1) =
          typed_step (found (parse_segment jose header) invalid_header) _
            (found-IsTyped (parse_segment jose header) invalid_header cc) h in
        let (claims, second, h2) =
          typed_step (found (parse_segment jose payload) invalid_payload) _
            (found-IsTyped (parse_segment jose payload) invalid_payload cc) h1 in
        let head = found-good (parse_segment jose header) invalid_header fields first in
        let body = found-good (parse_segment jose payload) invalid_payload claims second in
        elim (Bool-cases (is_null fields)) [
          | inl empty ↦
              null_header header payload signature claims
                (head ∙ ap some (null-is_null fields empty)) body
          | inr there ↦
              let h3 =
                passed_step (not (is_null fields)) type_error type_error _ (rw there refl) h2 in
              let named = allowed_algorithm config (read_string (property fields "alg")) in
              let (algorithm, third, h4) =
                typed_step (found named unsupported_algorithm) _
                  (found-IsTyped named unsupported_algorithm cc) h3 in
              let input = header <> "." <> payload in
              let (checked, fourth, h5) =
                typed_step (verify_jwt_signature jose config algorithm input signature) _
                  (verify-IsTyped config algorithm input signature) h4 in
              elim (Bool-cases (is_null claims)) [
                | inl empty ↦
                    null_payload header payload signature algorithm fields head there
                      (found-good named unsupported_algorithm algorithm third) fourth
                      (body ∙ ap some (null-is_null claims empty))
                | inr full ↦
                    let h6 =
                      passed_step (not (is_null claims)) type_error type_error _ (rw full refl)
                        h5 in
                    absurd (
                      bind-IsTyped (validate_registered_claims config now claims) _
                        (validate-IsTyped config now claims) (λ _. principal-IsTyped claims) h6)
              ]
        ]

    segments-IsNull :
        (segments : List String)
        → three_segments jose config now segments ≡ fail type_error
        → IsNull config segments
    segments-IsNull (h ∷ p ∷ s ∷ []) e = type_error-IsNull h p s e
    segments-IsNull [] e = cc
    segments-IsNull (h ∷ []) e = cc
    segments-IsNull (h ∷ p ∷ []) e = cc
    segments-IsNull (h ∷ p ∷ s ∷ t ∷ ts) e = cc

-- The authentication of a token ends in a TypeError, and not in one of its refusals, exactly if bearer
-- tokens can be verified and the token has three segments of JSON text whose header is `null`, which
-- needs no signature, or whose payload is `null` and signed by an allowed algorithm of the header.
pub authenticate-IsNull :
    (jose : Jose) (config : AuthConfig) (now : ℕ) (token : String)
    → (authenticate_bearer_token jose config now token ≡ fail type_error)
      ↔ ((can_verify_bearer_tokens config ≡ true) × IsNull jose config (split_on b'.' token))
unfolding authenticate_bearer_token
authenticate-IsNull jose config now token = (
  (λ h.
      let segments = split_on b'.' token in
      let (u, able, rest) =
        typed_step (require (can_verify_bearer_tokens config) not_configured) _
          (require-IsTyped (can_verify_bearer_tokens config) not_configured cc) h in
      (
        require-good (can_verify_bearer_tokens config) not_configured able,
        segments-IsNull jose config now segments rest,
      )),
  (λ (able, empty). rw able (segments_fail jose config now (split_on b'.' token) empty)),
)
