-- ===== src/Certificate/KeyEncryption/Provider.antt =====
-- The master key's provider (deriveEncryptionKey and createProvider of
-- src/certificate/private-key-encryption.service.ts).
use lyttle_nginx.Prelude.{
  Bool, true, false, not, ◌&&◌, ◌||◌, ◌≡◌, refl, Option, none, some, [], ◌++◌, all, keep, length,
  leb, ◌==◌, or_else, if◌then◌else◌, arith, ap, sym, ◌∙◌,
}
use lyttle_nginx.Prelude.Texts.{Text, codes, text_eq, to_lower}
use lyttle_nginx.Prelude.Numbers.{is_space, is_digit}
use lyttle_nginx.Prelude.Results.{Checked, good, ◌>>◌, require, after, good-inj}
use lyttle_nginx.Nginx.CustomCode.Tokenizer.{trim, is_blank}
use lyttle_nginx.Certificate.KeyEncryption.{
  KeyProvider, KeyError, trims_away, unsupported_provider, master_key_required,
}

-- The variables of the process environment.
pub record KeyEnv : Type 0 where
  pub encryption_provider : Option Text
  pub encryption_master_key : Option Text
  pub encryption_key_version : Option Text
  pub node_env : Option Text

abbrev pub development_fallback_master_key : Text
development_fallback_master_key = codes "lyttle-nginx-development-only-private-key-master-key"

-- /^[a-fA-F0-9]{64}$/
unfoldable pub is_hex_key : Text → Bool
unfolding is_digit
is_hex_key text =
    all (λ c. is_digit c || leb b'a' c && leb c b'f' || leb b'A' c && leb c b'F') text
    && length text == 64

-- `value?.trim() || default`
abbrev trimmed_or : Option Text → Text → Text
trimmed_or none default = default
trimmed_or (some value) default =
    let trimmed = trim value in if is_blank trimmed then default else trimmed

abbrev pub has_master_key : KeyEnv → Bool
has_master_key env = not (trims_away (or_else env.encryption_master_key []))

configured_provider : KeyEnv → Text
unfolding trim to_lower
configured_provider env =
    let name = to_lower (trim (or_else env.encryption_provider (codes "local"))) in
    if is_blank name then codes "local" else name

abbrev is_production : KeyEnv → Bool
is_production env = text_eq (or_else env.node_env []) (codes "production")

-- Two guards that have let a value through.
both_checks :
    {A : Type 0} (b c : Bool) (d e : KeyError) (x y : A)
    → (require b d >> (require c e >> good x)) ≡ good y
    → (c ≡ true) × (x ≡ y)
both_checks b c d e x y h =
    let second = (after b d (require c e >> good x) y h).1 in
    let third = after c e (good x) y second in (third.0, good-inj x y third.1)

material_configured :
    (o : Option Text)
    → trims_away (or_else o []) ≡ false
    → trimmed_or o development_fallback_master_key ≡ trim (or_else o [])
unfolding trims_away trim
material_configured none h = cc
material_configured (some text) h = rw h refl

configured_in_production :
    (env : KeyEnv)
    → env.node_env ≡ some (codes "production")
    → (has_master_key env || not (is_production env)) ≡ true
    → trims_away (or_else env.encryption_master_key []) ≡ false
configured_in_production env production h =
    let with_env : (has_master_key env || false) ≡ true = (rw production at h) in ground arith

module _ (from_hex : Text → Text) (from_base64 : Text → Text) (sha256 : Text → Text) where
  unfoldable pub derive_encryption_key : Text → Text
  unfolding trim is_hex_key is_space
  derive_encryption_key raw_secret =
      let trimmed = trim raw_secret in
      let decoded = from_base64 (keep (λ c. not (is_space c)) trimmed) in
      if is_hex_key trimmed
      then from_hex trimmed
      else if length decoded == 32
      then decoded
      else sha256 trimmed

  abbrev local_key_id : Text → Text
  local_key_id key_version = codes "local:" ++ key_version

  abbrev local_provider : Text → Text → KeyProvider
  local_provider material key_version = record {
    key_version = key_version;
    key_id = local_key_id key_version;
    master_key = derive_encryption_key material;
  }

  -- With whether the development's key is in use.
  abbrev created : KeyEnv → KeyProvider × Bool
  created env = (
    local_provider (trimmed_or env.encryption_master_key development_fallback_master_key)
        (trimmed_or env.encryption_key_version (codes "v1")),
    not (has_master_key env),
  )

  unfoldable pub create_provider : KeyEnv → Checked KeyError (KeyProvider × Bool)
  unfolding derive_encryption_key configured_provider trim trims_away
  create_provider env = do
    require (text_eq (configured_provider env) (codes "local")) unsupported_provider
    require (has_master_key env || not (is_production env)) master_key_required
    good (created env)

  -- In production a provider is created only where a master key is configured that is not blank; its
  -- key is derived from the trimmed configured text, and it is not marked as the fallback.
  pub create_provider_production :
      (env : KeyEnv) (provider : KeyProvider) (fallback : Bool)
      → env.node_env ≡ some (codes "production")
      → create_provider env ≡ good (provider, fallback)
      → (fallback ≡ false)
        × (trims_away (or_else env.encryption_master_key []) ≡ false)
        × (KeyProvider.master_key provider
            ≡ derive_encryption_key (trim (or_else env.encryption_master_key [])))
  unfolding create_provider trims_away
  create_provider_production env provider fallback production h =
      let (configured, result) =
        both_checks (text_eq (configured_provider env) (codes "local"))
          (has_master_key env || not (is_production env)) unsupported_provider master_key_required
          (created env) (provider, fallback) h in
      let present = configured_in_production env production configured in
      let material = material_configured env.encryption_master_key present in
      (
        sym (ap (λ r. r.1) result) ∙ rw present refl,
        present,
        sym (ap (λ r. KeyProvider.master_key r.0) result) ∙ ap derive_encryption_key material,
      )
