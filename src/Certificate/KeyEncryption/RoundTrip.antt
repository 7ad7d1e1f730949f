-- ===== src/Certificate/KeyEncryption/RoundTrip.antt =====
-- What was encrypted is decrypt_pair (src/certificate/private-key-encryption.service.ts).
use lyttle_nginx.Prelude.{
  ℕ, ◌≡◌, ◌≢◌, refl, ap, ◌∙◌, true, false, Option, none, some, [], ◌∷◌, any, ◌==◌, Bool-cases, inl,
  inr, ==_iff,
}
use lyttle_nginx.Prelude.Texts.{Text, text_eq_iff}
use lyttle_nginx.Prelude.Results.{Checked, good}
use lyttle_nginx.Nginx.CustomCode.Tokenizer.{trim}
use lyttle_nginx.Certificate.KeyEncryption.{
  Scope, certificate, certificate_artifact, EncryptionContext, KeyMetadata, KeyProvider, Crypto,
  Randomness, KeyError, to_stored_context, trims_away, is_plaintext_private_key,
  parse_encryption_metadata, scope_eq, hash_eq, version_eq, flatten, hash_expected,
  version_expected, assert_expected_context, wrap_data_key, unwrap_data_key, sealed, envelope,
  encrypt_private_key, open_envelope, decrypt_private_key,
}

-- What the service relies on: a sealed text is unsealed with the same key, iv and data, base64 is
-- undone, its alphabet has no hyphen, and it leaves no text blank that is not empty; a ciphertext
-- and the UTF-8 of a text are empty only for an empty text.
pub record IsSoundCrypto (crypto : Crypto) : Type 0 where
  pub unseal_seal :
      (key iv aad plain : Text)
      → crypto.unseal key iv aad (crypto.seal key iv aad plain).1 (crypto.seal key iv aad plain).0
        ≡ some plain
  pub decoded : (bytes : Text) → crypto.from_base64 (crypto.base64 bytes) ≡ bytes
  pub no_hyphen : (bytes : Text) → any (λ c. c == b'-') (crypto.base64 bytes) ≡ false
  pub not_blank : (bytes : Text) → bytes ≢ [] → trims_away (crypto.base64 bytes) ≡ false
  pub not_empty : (key iv aad plain : Text) → plain ≢ [] → (crypto.seal key iv aad plain).0 ≢ []
  pub utf8_not_empty : (text : Text) → text ≢ [] → crypto.utf8 text ≢ []

pub is_plaintext-no_hyphen :
    (s : Text) → any (λ c. c == b'-') s ≡ false → is_plaintext_private_key s ≡ false
unfolding is_plaintext_private_key
is_plaintext-no_hyphen [] h = refl
is_plaintext-no_hyphen (c ∷ s) h = elim (Bool-cases (c == b'-')) [
  | inl hyphen ↦ let no : true ≡ false = (rw hyphen at h) in cc
  | inr other ↦ rw other (is_plaintext-no_hyphen s (rw other at h))
]

hash_eq_refl : (o : Option Text) → hash_eq o o ≡ true
hash_eq_refl none = refl
hash_eq_refl (some t) = (text_eq_iff t t).1 refl

version_eq_refl : (o : Option ℕ) → version_eq o o ≡ true
version_eq_refl none = refl
version_eq_refl (some n) = (==_iff n n).1 refl

hash_own : (o : Option (Option Text)) → hash_expected (flatten o) o ≡ true
hash_own none = refl
hash_own (some o) = hash_eq_refl o

version_own : (o : Option (Option ℕ)) → version_expected (flatten o) o ≡ true
version_own none = refl
version_own (some o) = version_eq_refl o

scope_own : (s : Scope) → scope_eq s s ≡ true
scope_own certificate = refl
scope_own certificate_artifact = refl

pub check_own_context :
    (context : EncryptionContext)
    → assert_expected_context (to_stored_context context) context ≡ good tt
unfolding assert_expected_context to_stored_context
check_own_context context =
    rw (scope_own context.scope, hash_own context.domains_hash, version_own context.version) refl

module _ (crypto : Crypto) (provider : KeyProvider) (sound : IsSoundCrypto crypto) where
  open sound use {unseal_seal, decoded, no_hyphen, not_blank, not_empty, utf8_not_empty}

  -- Sealed, written in base64, read back and unsealed.
  unsealed :
      (key iv aad plain : Text)
      → let cipher = crypto.seal key iv aad plain in
        crypto.unseal key
          (crypto.from_base64 (crypto.base64 iv))
          (crypto.from_base64 (crypto.base64 aad))
          (crypto.from_base64 (crypto.base64 cipher.1))
          (crypto.from_base64 (crypto.base64 cipher.0))
        ≡ some plain
  unsealed key iv aad plain =
      let cipher = crypto.seal key iv aad plain in
      rw (decoded iv, decoded aad, decoded cipher.1, decoded cipher.0)
        (unseal_seal key iv aad plain)

  unwrap-wrap :
      (wrap_iv data_key : Text)
      → unwrap_data_key crypto provider (wrap_data_key crypto provider wrap_iv data_key)
        ≡ some data_key
  unfolding unwrap_data_key wrap_data_key
  unwrap-wrap wrap_iv data_key =
      let authenticated = crypto.utf8 (crypto.provider_json provider.key_version provider.key_id) in
      unsealed provider.master_key wrap_iv authenticated data_key

  open_own_envelope :
      (random : Randomness) (key_pem : Text) (context : EncryptionContext)
      → open_envelope crypto provider
          (crypto.base64 (sealed crypto provider random key_pem context).0)
          (envelope crypto provider random key_pem context)
          (some context)
        ≡ good (crypto.from_utf8 (crypto.utf8 key_pem))
  unfolding open_envelope
  open_own_envelope random key_pem context =
      let authenticated = crypto.utf8 (crypto.context_json (to_stored_context context)) in
      rw
        (
          check_own_context context,
          unwrap-wrap random.wrap_iv random.data_key,
          unsealed random.data_key random.iv authenticated (crypto.utf8 key_pem),
        )
        refl

  pub sealed_not_blank :
      (random : Randomness) (key_pem : Text) (context : EncryptionContext)
      → trims_away key_pem ≡ false
      → trims_away (crypto.base64 (sealed crypto provider random key_pem context).0) ≡ false
  unfolding trims_away trim
  sealed_not_blank random [] context h = cc
  sealed_not_blank random (c ∷ s) context h =
      not_blank _ (not_empty _ _ _ _ (utf8_not_empty (c ∷ s) (λ e. cc)))

  abbrev pub decrypt_pair : Text × Option KeyMetadata → EncryptionContext → Checked KeyError Text
  decrypt_pair stored context = decrypt_private_key crypto provider stored.0 stored.1 (some context)

  -- A private key is stored encrypted and comes back unchanged: for a key whose UTF-8 form decodes
  -- to it, decrypting what encryption returned, with the same provider and in the same context,
  -- gives the key, whatever the random bytes. No such ciphertext is taken for a plaintext key.
  pub decrypt-encrypt :
      (random : Randomness) (key_pem : Text) (context : EncryptionContext)
      → crypto.from_utf8 (crypto.utf8 key_pem) ≡ key_pem
      → decrypt_pair (encrypt_private_key crypto provider random key_pem context) context
        ≡ good key_pem
  unfolding decrypt_private_key encrypt_private_key parse_encryption_metadata
  decrypt-encrypt random key_pem context utf = elim (Bool-cases (trims_away key_pem)) [
    | inl blank ↦ rw (blank, blank) refl
    | inr other ↦
        rw
          (
            other,
            sealed_not_blank random key_pem context other,
            is_plaintext-no_hyphen _ (no_hyphen (sealed crypto provider random key_pem context).0),
          )
          (open_own_envelope random key_pem context ∙ ap good utf)
  ]
