-- ===== src/Certificate/KeyEncryption/Context.antt =====
-- What the context of an encrypted key protects (decryptPrivateKey and assertExpectedContext of
-- src/certificate/private-key-encryption.service.ts).
use lyttle_nginx.Prelude.{Bool-cases, inl, inr, ◌≡◌, refl, none, some}
use lyttle_nginx.Prelude.Texts.{Text, text_eq}
use lyttle_nginx.Certificate.KeyEncryption.{
  EncryptionContext, KeyMetadata, KeyProvider, Crypto, to_stored_context, parse_encryption_metadata,
  envelope_scheme, open_envelope, decrypt_private_key,
}
use lyttle_nginx.Certificate.KeyEncryption.RoundTrip.{check_own_context}

-- The metadata with another context written into it.
abbrev pub relabelled : KeyMetadata → EncryptionContext → KeyMetadata
relabelled m context = record m { context = to_stored_context context }

module _ (crypto : Crypto) (provider : KeyProvider) where
  open-relabelled :
      (key_pem : Text) (m : KeyMetadata) (context : EncryptionContext)
      → open_envelope crypto provider key_pem (relabelled m context) (some context)
        ≡ open_envelope crypto provider key_pem m none
  unfolding open_envelope
  open-relabelled key_pem m context = rw (check_own_context context) refl

  -- The expected context is compared with the metadata's plain text and not with what the cipher
  -- authenticates: decrypting with any expected context, once that context is written into the
  -- metadata, gives exactly what decrypting the original with no expectation gives.
  pub decrypt-relabelled :
      (key_pem : Text) (m : KeyMetadata) (context : EncryptionContext)
      → decrypt_private_key crypto provider key_pem (some (relabelled m context)) (some context)
        ≡ decrypt_private_key crypto provider key_pem (some m) none
  unfolding decrypt_private_key parse_encryption_metadata
  decrypt-relabelled key_pem m context = elim (Bool-cases (text_eq m.scheme envelope_scheme)) [
    | inl ours ↦ rw (ours, open-relabelled key_pem m context) refl
    | inr other ↦ rw other refl
  ]
