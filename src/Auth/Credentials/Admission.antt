-- ===== src/Auth/Credentials/Admission.antt =====
-- The two guards in a row (src/auth/auth.module.ts): who is admitted to an endpoint.
use lyttle_nginx.Prelude.{
  ℕ, ◌≡◌, refl, sym, ap, ◌∙◌, subst, String, Bool, true, false, inl, inr, Option, none, some, List,
  [], ◌∷◌, any, Option-cases, arith,
}
use lyttle_nginx.Prelude.Results.{Checked, good, fail, ◌>>=◌, bind-good, good-inj}
use lyttle_nginx.Auth.Role.{AuthIdentity, resolve_effective_roles}
use lyttle_nginx.Auth.Guard.{AuthorizationRule, matches_rule, Access, allowed, can_activate}
use lyttle_nginx.Auth.Token.{Principal, Jose, AuthError, authenticate_bearer_token}
use lyttle_nginx.Auth.Token.Accepted.{IsVouched, authenticate-IsVouched}
use lyttle_nginx.Auth.Credentials.{
  AuthService, authenticate_api_key, Headers, extract_bearer_token, extract_api_key, Denial,
  token_outcome, key_outcome, credentials_outcome, authenticate_request, invalid_api_key,
}

abbrev identity_of : Option Principal → Option AuthIdentity
identity_of none = none
identity_of (some principal) = some principal.identity

-- A request through ApiKeyGuard and then AuthorizationGuard, with the identity that it gets.
unfoldable pub admit :
    Jose
    → AuthService
    → ℕ
    → Bool
    → Option (List AuthorizationRule)
    → Headers
    → Checked Denial (Option Principal × Access)
unfolding authenticate_request can_activate
admit jose service now is_public policy headers = do
  who ← authenticate_request jose service now is_public headers
  good (who, can_activate is_public policy (identity_of who))

policy_lem :
    (policy : Option (List AuthorizationRule)) (identity : AuthIdentity)
    → can_activate false policy (some identity) ≡ allowed
    → (rules : List AuthorizationRule) × (policy ≡ some rules)
      × (any (λ rule. matches_rule rule identity (resolve_effective_roles identity)) rules ≡ true)
unfolding can_activate
policy_lem none identity h = cc
policy_lem (some []) identity h = cc
policy_lem (some (rule ∷ rules)) identity h = (rule ∷ rules, refl, ground (arith, h))

module _ (jose : Jose) (service : AuthService) (now : ℕ) (headers : Headers) where
  -- The credentials that a request is taken by.
  pub data IsAuthentic : Principal → Type 0 where
    by_token :
        (principal : Principal) (token : String)
        → extract_bearer_token headers ≡ some token
        → IsVouched jose service.config now token principal
        → IsAuthentic principal
    by_key :
        (principal : Principal) (key : String)
        → extract_bearer_token headers ≡ none
        → extract_api_key headers ≡ some key
        → authenticate_api_key service key ≡ some principal
        → IsAuthentic principal

  by_token_lem :
      (token : String) (principal : Principal)
      → extract_bearer_token headers ≡ some token
      → (r : Checked AuthError Principal)
      → authenticate_bearer_token jose service.config now token ≡ r
      → token_outcome r ≡ good principal
      → IsAuthentic principal
  by_token_lem token principal given (good p) e h = by_token principal token given (
      authenticate-IsVouched jose service.config now token principal
        (e ∙ ap good (good-inj p principal h)))
  by_token_lem token principal given (fail error) e h = cc

  by_key_lem :
      (principal : Principal) (key : Option String)
      → extract_bearer_token headers ≡ none
      → extract_api_key headers ≡ key
      → key_outcome service key ≡ good principal
      → IsAuthentic principal
  by_key_lem principal none given e h = cc
  by_key_lem principal (some key) given e h =
      elim (Option-cases (authenticate_api_key service key)) [
        | inl unknown ↦
            let no : Path (Checked Denial Principal) (fail invalid_api_key) (good principal) =
              (rw (key_outcome, unknown) at h) in
            cc
        | inr (p, known) ↦
            let same : Path (Checked Denial Principal) (good p) (good principal) =
              (rw (key_outcome, known) at h) in
            by_key principal key given e (known ∙ ap some (good-inj p principal same))
      ]

  outcome_lem :
      (principal : Principal) (token : Option String)
      → extract_bearer_token headers ≡ token
      → credentials_outcome jose service now headers token ≡ good principal
      → IsAuthentic principal
  outcome_lem principal none e h = by_key_lem principal (extract_api_key headers) e refl h
  outcome_lem principal (some token) e h =
      by_token_lem token principal e (authenticate_bearer_token jose service.config now token) refl
        h

  -- Nobody gets past the two guards without a credential and a rule: a request that is admitted to
  -- an endpoint that is not public carries a bearer token that was vouched for, or no bearer token
  -- and an API key that the service knows, and the endpoint has a policy of which a rule
  -- admits the identity that this credential stands for.
  pub admit-IsAuthentic :
      (policy : Option (List AuthorizationRule)) (who : Option Principal)
      → admit jose service now false policy headers ≡ good (who, allowed)
      → (principal : Principal) × (who ≡ some principal)
        × IsAuthentic principal
        × (rules : List AuthorizationRule) × (policy ≡ some rules)
        × (any
              (λ rule.
                matches_rule rule principal.identity (resolve_effective_roles principal.identity))
              rules
            ≡ true)
  unfolding admit authenticate_request
  admit-IsAuthentic policy who h =
      let outcome = credentials_outcome jose service now headers (extract_bearer_token headers) in
      let (caller, found_caller, decided) =
        bind-good (authenticate_request jose service now false headers) _ (who, allowed) h in
      let (principal, authenticated, returned) = bind-good outcome _ caller found_caller in
      let caller_is = good-inj (some principal) caller returned in
      let result = good-inj _ (who, allowed) decided in
      let who_is = sym (ap (λ r. r.0) result) ∙ sym caller_is in
      let access =
        subst (λ c. can_activate false policy (identity_of c) ≡ allowed) (sym caller_is)
          (ap (λ r. r.1) result) in
      let (rules, has_rules, admits) = policy_lem policy principal.identity access in
      (
        principal,
        who_is,
        outcome_lem principal (extract_bearer_token headers) refl authenticated,
        rules,
        has_rules,
        admits,
      )
