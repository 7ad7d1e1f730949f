-- ===== src/Auth/Credentials/ApiKeys.antt =====
-- What an API key stands for (the constructor and authenticateApiKey of src/auth/auth.service.ts).
use lyttle_nginx.Prelude.{
  ℕ, suc, ◌≡◌, refl, sym, ◌∙◌, subst, String, true, not, ◌&&◌, ◌||◌, ◌⊎◌, inl, inr, Option, none,
  some, is_some, List, [], ◌∷◌, str_eq, eq_iff, Bool-cases, if◌then◌else◌, arith,
}
use lyttle_nginx.Prelude.Maps.{insert}
use lyttle_nginx.Prelude.Strings.{trimmed, no_text}
use lyttle_nginx.Auth.Role.{admin}
use lyttle_nginx.Auth.Claims.{includes_text}
use lyttle_nginx.Auth.Token.{AuthConfig, Principal}
use lyttle_nginx.Auth.Credentials.{
  AuthEnv, AuthService, items_of, key_principal, key_entries, new_auth_service, matching_key,
  authenticate_api_key,
}

some_inj : (p q : Principal) → Path (Option Principal) (some p) (some q) → p ≡ q
some_inj p q h = cc

-- What the keys of the environment stand for.
module _ (digest : String → String) (decimal : ℕ → String) (load_key : String → Option String) where
  matching_key-insert :
      (k j : String) (v : Principal) (entries : List (String × Principal))
      → matching_key (insert j v entries) k
        ≡ (if str_eq k j then some v else matching_key entries k)
  unfolding matching_key insert
  matching_key-insert k j v [] = refl
  matching_key-insert k j v ((i, w) ∷ entries) =
      ground (arith, eq_iff k j, eq_iff i j, eq_iff k i, matching_key-insert k j v entries)

  module _ (config : AuthConfig) (roles scopes : List String) where
    -- An administrator's identity with the default roles and scopes.
    abbrev pub IsDefaultAdmin : Principal → Type 0
    IsDefaultAdmin principal =
        (principal.identity.actor_type ≡ admin)
        × (principal.identity.roles ≡ roles)
        × (principal.identity.scopes ≡ scopes)

    key_entries_lem :
        (keys : List String) (index : ℕ) (entries : List (String × Principal)) (k : String)
        (principal : Principal)
        → matching_key (key_entries digest decimal config roles scopes keys index entries) k
          ≡ some principal
        → ((includes_text keys k ≡ true) × IsDefaultAdmin principal)
          ⊎ (matching_key entries k ≡ some principal)
    unfolding key_entries
    key_entries_lem [] index entries k principal h = inr h
    key_entries_lem (key ∷ keys) index entries k principal h =
        let made = key_principal digest decimal config roles scopes key index in
        elim (key_entries_lem keys (suc index) (insert key made entries) k principal h) [
          | inl (there, is_admin) ↦ inl (ground arith, is_admin)
          | inr here ↦ elim (Bool-cases (str_eq k key)) [
            | inl same ↦
                let is_made : some made ≡ some principal =
                  (rw same at (sym (matching_key-insert k key made entries) ∙ here)) in
                inl (
                  ground (arith, eq_iff k key, eq_iff key k),
                  subst IsDefaultAdmin (some_inj made principal is_made) (refl, refl, refl),
                )
            | inr other ↦ inr (rw other at (sym (matching_key-insert k key made entries) ∙ here))
          ]
        ]

    key_entries_known :
        (keys : List String) (index : ℕ) (entries : List (String × Principal)) (k : String)
        → is_some
            (matching_key (key_entries digest decimal config roles scopes keys index entries) k)
          ≡ (includes_text keys k || is_some (matching_key entries k))
    unfolding key_entries
    key_entries_known [] index entries k = refl
    key_entries_known (key ∷ keys) index entries k =
        let made = key_principal digest decimal config roles scopes key index in
        rw
          (
            key_entries_known keys (suc index) (insert key made entries) k,
            matching_key-insert k key made entries,
          )
          (ground (arith, eq_iff k key, eq_iff key k))

  -- An API key is accepted exactly if, without the space around it, it is not empty and one of the
  -- keys that the environment lists.
  pub authenticate_api_key_known :
      (env : AuthEnv) (key : String)
      → is_some (authenticate_api_key (new_auth_service digest decimal load_key env) key)
        ≡ (not (no_text (trimmed key)) && includes_text (items_of env.api_keys) (trimmed key))
  unfolding authenticate_api_key new_auth_service matching_key
  authenticate_api_key_known env key =
      let service = new_auth_service digest decimal load_key env in
      let known =
        key_entries_known service.config service.default_admin_roles service.default_admin_scopes
          (items_of env.api_keys) 0 [] (trimmed key) in
      elim (Bool-cases (no_text (trimmed key))) [
        | inl empty ↦ rw empty refl
        | inr filled ↦ rw (filled, known) (ground arith)
      ]

  -- Whoever is accepted by an API key is an administrator with the default roles and scopes.
  pub authenticate_api_key_admin :
      (env : AuthEnv) (key : String) (principal : Principal)
      → authenticate_api_key (new_auth_service digest decimal load_key env) key ≡ some principal
      → (principal.identity.actor_type ≡ admin)
        × (principal.identity.roles
            ≡ AuthService.default_admin_roles (new_auth_service digest decimal load_key env))
        × (principal.identity.scopes
            ≡ AuthService.default_admin_scopes (new_auth_service digest decimal load_key env))
  unfolding authenticate_api_key new_auth_service matching_key
  authenticate_api_key_admin env key principal h =
      let service = new_auth_service digest decimal load_key env in
      elim (Bool-cases (no_text (trimmed key))) [
        | inl empty ↦ let no : Path (Option Principal) none (some principal) = (rw empty at h) in cc
        | inr filled ↦
            elim (key_entries_lem service.config service.default_admin_roles
              service.default_admin_scopes (items_of env.api_keys) 0 [] (trimmed key) principal
              (rw filled at h)) [
                | inl (there, is_admin) ↦ is_admin
                | inr here ↦ let no : Path (Option Principal) none (some principal) = here in cc
              ]
      ]
