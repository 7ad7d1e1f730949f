-- ===== src/Certificate/KeyEncryption/Migration/Settled.antt =====
-- A migration loses no key and is done once (src/certificate/private-key-encryption.service.ts).
use lyttle_nginx.Prelude.{
  ◌≡◌, refl, sym, ◌∙◌, Bool, true, false, not, ◌&&◌, ◌||◌, Option, none, some, Bool-cases, inl, inr,
}
use lyttle_nginx.Prelude.Texts.{Text, text_eq, text_eq_iff}
use lyttle_nginx.Prelude.Results.{Checked, good, good-inj}
use lyttle_nginx.Certificate.KeyEncryption.{
  sealed, EncryptionContext, KeyMetadata, KeyProvider, Crypto, Randomness, KeyError,
  envelope_scheme, trims_away, is_plaintext_private_key, parse_encryption_metadata,
  encrypt_private_key, decrypt_private_key,
}
use lyttle_nginx.Certificate.KeyEncryption.RoundTrip.{
  IsSoundCrypto, decrypt-encrypt, is_plaintext-no_hyphen, sealed_not_blank,
}
use lyttle_nginx.Certificate.KeyEncryption.Migration.{
  EnsuredKey, is_current_version, re_encrypted, ensure_encrypted_private_key,
}

parse_twice :
    (metadata : Option KeyMetadata)
    → parse_encryption_metadata (parse_encryption_metadata metadata)
      ≡ parse_encryption_metadata metadata
unfolding parse_encryption_metadata
parse_twice none = refl
parse_twice (some m) = elim (Bool-cases (text_eq m.scheme envelope_scheme)) [
  | inl ours ↦ rw (ours, ours) refl
  | inr other ↦ rw other refl
]

module _ (crypto : Crypto) (provider : KeyProvider) where
  abbrev pub decrypted : Text → Option KeyMetadata → EncryptionContext → Checked KeyError Text
  decrypted key_pem metadata context =
      decrypt_private_key crypto provider key_pem metadata (some context)

  decrypt-parsed :
      (key_pem : Text) (metadata : Option KeyMetadata) (context : EncryptionContext)
      → decrypted key_pem (parse_encryption_metadata metadata) context
        ≡ decrypted key_pem metadata context
  unfolding decrypt_private_key
  decrypt-parsed key_pem metadata context = rw (parse_twice metadata) refl

  pub decrypt_blank :
      (key_pem : Text) (metadata : Option KeyMetadata) (context : EncryptionContext)
      → trims_away key_pem ≡ true
      → decrypted key_pem metadata context ≡ good key_pem
  unfolding decrypt_private_key
  decrypt_blank key_pem metadata context blank = rw blank refl

  decrypt_plaintext :
      (key_pem : Text) (metadata : Option KeyMetadata) (context : EncryptionContext)
      → trims_away key_pem ≡ false
      → is_plaintext_private_key key_pem ≡ true
      → decrypted key_pem metadata context ≡ good key_pem
  unfolding decrypt_private_key
  decrypt_plaintext key_pem metadata context text plaintext = rw (text, plaintext) refl

  -- A key that a migration leaves alone.
  abbrev pub settled : Text → Option KeyMetadata → Bool
  settled key_pem metadata =
      trims_away key_pem
      || not (is_plaintext_private_key key_pem)
        && is_current_version crypto provider (parse_encryption_metadata metadata)

  -- What ensureEncryptedPrivateKey did to a key that decrypts to `plain`.
  pub record IsEnsured (key_pem : Text) (metadata : Option KeyMetadata)
      (context : EncryptionContext) (plain : Text) (result : Checked KeyError EnsuredKey)
      : Type 0 where
    pub ensured : EnsuredKey
    pub returned : result ≡ good ensured
    pub changed : ensured.changed ≡ not (settled key_pem metadata)
    pub same_key : decrypted ensured.key_pem ensured.key_encryption context ≡ good plain
    pub now_settled : settled ensured.key_pem ensured.key_encryption ≡ true

  module _ (sound : IsSoundCrypto crypto) where
    encrypted-settled :
        (random : Randomness) (plain : Text) (context : EncryptionContext)
        → settled
            (encrypt_private_key crypto provider random plain context).0
            (encrypt_private_key crypto provider random plain context).1
          ≡ true
    unfolding encrypt_private_key parse_encryption_metadata
    encrypted-settled random plain context = elim (Bool-cases (trims_away plain)) [
      | inl blank ↦ rw (blank, blank) refl
      | inr other ↦
          rw
            (
              other,
              sealed_not_blank crypto provider sound random plain context other,
              is_plaintext-no_hyphen _
                  (sound.no_hyphen (sealed crypto provider random plain context).0),
              (text_eq_iff provider.key_version provider.key_version).1 refl,
            )
            refl
    ]

    module _ (random : Randomness) (context : EncryptionContext) where
      re_encrypted-IsEnsured :
          (key_pem : Text) (metadata : Option KeyMetadata) (plain : Text)
          → crypto.from_utf8 (crypto.utf8 plain) ≡ plain
          → settled key_pem metadata ≡ false
          → ensure_encrypted_private_key crypto provider random key_pem metadata context
            ≡ good (re_encrypted crypto provider random context plain)
          → IsEnsured key_pem metadata context plain
              (ensure_encrypted_private_key crypto provider random key_pem metadata context)
      re_encrypted-IsEnsured key_pem metadata plain utf open_ returned = record {
        ensured = re_encrypted crypto provider random context plain;
        returned = returned;
        changed = rw open_ refl;
        same_key = decrypt-encrypt crypto provider sound random plain context utf;
        now_settled = encrypted-settled random plain context;
      }

      pub ensure-IsEnsured :
          (key_pem : Text) (metadata : Option KeyMetadata) (plain : Text)
          → crypto.from_utf8 (crypto.utf8 plain) ≡ plain
          → decrypted key_pem metadata context ≡ good plain
          → IsEnsured key_pem metadata context plain
              (ensure_encrypted_private_key crypto provider random key_pem metadata context)
      unfolding ensure_encrypted_private_key
      ensure-IsEnsured key_pem metadata plain utf h = elim (Bool-cases (trims_away key_pem)) [
        | inl blank ↦ record {
          ensured = record { key_pem = key_pem; key_encryption = none; changed = false };
          returned = rw blank refl;
          changed = rw blank refl;
          same_key =
              decrypt_blank key_pem none context blank
              ∙ sym (decrypt_blank key_pem metadata context blank)
              ∙ h;
          now_settled = rw blank refl;
        }
        | inr text ↦ elim (Bool-cases (is_plaintext_private_key key_pem)) [
          | inl plaintext ↦
              re_encrypted-IsEnsured key_pem metadata plain utf (rw (text, plaintext) refl) (
                rw
                  (
                    text,
                    plaintext,
                    good-inj _ _
                        (sym (decrypt_plaintext key_pem metadata context text plaintext) ∙ h),
                  )
                  refl)
          | inr cipher ↦
              elim (Bool-cases
                (is_current_version crypto provider (parse_encryption_metadata metadata))) [
                  | inl current ↦ record {
                    ensured = record {
                      key_pem = key_pem;
                      key_encryption = parse_encryption_metadata metadata;
                      changed = false;
                    };
                    returned = rw (text, cipher, current) refl;
                    changed = rw (text, cipher, current) refl;
                    same_key = decrypt-parsed key_pem metadata context ∙ h;
                    now_settled = rw (text, cipher, parse_twice metadata, current) refl;
                  }
                  | inr stale ↦
                      re_encrypted-IsEnsured key_pem metadata plain utf
                        (rw (text, cipher, stale) refl)
                        (rw (text, cipher, stale, decrypt-parsed key_pem metadata context, h) refl)
                ]
        ]
      ]
