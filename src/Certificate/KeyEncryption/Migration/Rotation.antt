-- ===== src/Certificate/KeyEncryption/Migration/Rotation.antt =====
-- A rotation of the master key (docs/runbooks/credential-rotation.md and
-- src/certificate/private-key-encryption.service.ts).
use lyttle_nginx.Prelude.{ℕ, ◌≡◌, refl, false, none, some, List, ◌∷◌}
use lyttle_nginx.Prelude.Texts.{Text, text_eq}
use lyttle_nginx.Certificate.KeyEncryption.{
  KeyProvider, Crypto, Randomness, bad_data_key, trims_away, parse_encryption_metadata,
  wrap_data_key, unwrap_data_key, sealed, encrypt_private_key, open_envelope, decrypt_private_key,
}
use lyttle_nginx.Certificate.KeyEncryption.RoundTrip.{
  IsSoundCrypto, check_own_context, is_plaintext-no_hyphen, sealed_not_blank,
}
use lyttle_nginx.Certificate.KeyEncryption.Migration.{
  KeyRow, row_context, ensure_encrypted_private_key, migrate_rows,
}

-- The row with its key encrypted.
abbrev pub encrypted_row : Crypto → KeyProvider → Randomness → KeyRow → KeyRow
encrypted_row crypto provider random row =
    let (key_pem, metadata) =
      encrypt_private_key crypto provider random row.key_pem (row_context row) in
    record row { key_pem = key_pem; key_encryption = metadata }

module _ (crypto : Crypto) (sound : IsSoundCrypto crypto) (old new : KeyProvider) where
  -- What AES-GCM does with another key: the tag does not fit.
  abbrev pub IsForeign : Type 0
  IsForeign =
      (iv aad plain : Text)
      → let cipher = crypto.seal old.master_key iv aad plain in
        crypto.unseal new.master_key iv aad cipher.1 cipher.0 ≡ none

  -- Sealed with the former key, written in base64, read back and not unsealed.
  not_unsealed :
      IsForeign
      → (iv aad plain : Text)
      → let cipher = crypto.seal old.master_key iv aad plain in
        crypto.unseal new.master_key
          (crypto.from_base64 (crypto.base64 iv))
          (crypto.from_base64 (crypto.base64 aad))
          (crypto.from_base64 (crypto.base64 cipher.1))
          (crypto.from_base64 (crypto.base64 cipher.0))
        ≡ none
  not_unsealed foreign iv aad plain =
      let cipher = crypto.seal old.master_key iv aad plain in
      rw (sound.decoded iv, sound.decoded aad, sound.decoded cipher.1, sound.decoded cipher.0)
        (foreign iv aad plain)

  unwrap-foreign :
      IsForeign
      → (wrap_iv data_key : Text)
      → unwrap_data_key crypto new (wrap_data_key crypto old wrap_iv data_key) ≡ none
  unfolding unwrap_data_key wrap_data_key
  unwrap-foreign foreign wrap_iv data_key =
      not_unsealed foreign wrap_iv (crypto.utf8 (crypto.provider_json old.key_version old.key_id))
        data_key

  -- The documented rotation re-encrypts nothing: once both the master key and its version are
  -- replaced, a pass over rows of which the first has a key encrypted under the former master key
  -- ends there with the failure to decrypt its data key, and writes no row.
  pub rotation_fails :
      IsForeign
      → (random : ℕ → Randomness) (n : ℕ) (bytes : Randomness) (row : KeyRow) (rows : List KeyRow)
      → trims_away row.key_pem ≡ false
      → text_eq old.key_version new.key_version ≡ false
      → migrate_rows crypto new random n (encrypted_row crypto old bytes row ∷ rows) ≡ record {
        rows = encrypted_row crypto old bytes row ∷ rows;
        error = some bad_data_key;
        updated = 0;
      }
  unfolding migrate_rows ensure_encrypted_private_key encrypt_private_key decrypt_private_key
      open_envelope parse_encryption_metadata row_context
  rotation_fails foreign random n bytes row rows filled other =
      rw
        (
          filled,
          sealed_not_blank crypto old sound bytes row.key_pem (row_context row) filled,
          is_plaintext-no_hyphen _
              (sound.no_hyphen (sealed crypto old bytes row.key_pem (row_context row)).0),
          other,
          check_own_context (row_context row),
          unwrap-foreign foreign bytes.wrap_iv bytes.data_key,
        )
        refl
