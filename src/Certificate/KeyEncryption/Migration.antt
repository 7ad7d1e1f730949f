-- ===== src/Certificate/KeyEncryption/Migration.antt =====
-- Bringing stored private keys to the current master key (ensureEncryptedPrivateKey and
-- migrateStoredPrivateKeys of src/certificate/private-key-encryption.service.ts).
pub mod Settled
pub mod NoLoss
pub mod Rotation
use lyttle_nginx.Prelude.{
  ℕ, suc, ◌+◌, Bool, true, false, not, ◌&&◌, ◌||◌, Option, none, some, List, [], ◌∷◌, or_option,
  if◌then◌else◌,
}
use lyttle_nginx.Prelude.Texts.{Text, text_eq}
use lyttle_nginx.Prelude.Results.{Checked, good, fail, ◌>>=◌}
use lyttle_nginx.Certificate.KeyEncryption.{
  certificate, certificate_artifact, EncryptionContext, KeyMetadata, KeyProvider, Crypto,
  Randomness, KeyError, trims_away, is_plaintext_private_key, parse_encryption_metadata,
  encrypt_private_key, decrypt_private_key,
}

pub record EnsuredKey : Type 0 where
  pub key_pem : Text
  pub key_encryption : Option KeyMetadata
  pub changed : Bool

-- A row of the certificates, or of the artifacts, which have a version.
pub record KeyRow : Type 0 where
  pub key_pem : Text
  pub key_encryption : Option KeyMetadata
  pub domains_hash : Text
  pub artifact_version : Option ℕ

-- The context that a row's key is encrypted in.
unfoldable pub row_context : KeyRow → EncryptionContext
row_context row = elim (row.artifact_version) [
  | none ↦ record {
    scope = certificate;
    domains_hash = some (some row.domains_hash);
    version = none;
  }
  | some n ↦ record {
    scope = certificate_artifact;
    domains_hash = some (some row.domains_hash);
    version = some (some n);
  }
]

-- The rows after a pass, what was thrown, and how many rows were written.
pub record Pass : Type 0 where
  pub rows : List KeyRow
  pub error : Option KeyError
  pub updated : ℕ

module _ (crypto : Crypto) (provider : KeyProvider) where
  abbrev pub is_current_version : Option KeyMetadata → Bool
  is_current_version none = false
  is_current_version (some m) = text_eq m.key_version provider.key_version

  abbrev pub re_encrypted : Randomness → EncryptionContext → Text → EnsuredKey
  re_encrypted random context plain =
      let (key_pem, metadata) = encrypt_private_key crypto provider random plain context in
      record { key_pem = key_pem; key_encryption = metadata; changed = true }

  unfoldable pub ensure_encrypted_private_key :
      Randomness → Text → Option KeyMetadata → EncryptionContext → Checked KeyError EnsuredKey
  unfolding trims_away
  ensure_encrypted_private_key random key_pem metadata context =
      let parsed = parse_encryption_metadata metadata in
      if trims_away key_pem
      then good (record { key_pem = key_pem; key_encryption = none; changed = false })
      else if is_plaintext_private_key key_pem
      then good (re_encrypted random context key_pem)
      else if is_current_version parsed
      then good (record { key_pem = key_pem; key_encryption = parsed; changed = false })
      else (do
        plain ← decrypt_private_key crypto provider key_pem parsed (some context)
        good (re_encrypted random context plain))

  -- A column that the update leaves out keeps its value.
  abbrev pub write_row : KeyRow → EnsuredKey → KeyRow
  write_row row ensured =
      if ensured.changed
      then record row {
        key_pem = ensured.key_pem;
        key_encryption = or_option ensured.key_encryption row.key_encryption;
      }
      else row

  abbrev pub changed_count : Bool → ℕ
  changed_count true = 1
  changed_count false = 0

  abbrev pub next_pass : KeyRow → Checked KeyError EnsuredKey → List KeyRow → Pass → Pass
  next_pass row (fail e) rows rest = record { rows = row ∷ rows; error = some e; updated = 0 }
  next_pass row (good ensured) rows rest = record rest {
    rows = write_row row ensured ∷ rest.rows;
    updated = changed_count ensured.changed + rest.updated;
  }

  -- `random n` are the random bytes of the n-th row.
  unfoldable pub migrate_rows : (ℕ → Randomness) → ℕ → List KeyRow → Pass
  unfolding ensure_encrypted_private_key row_context
  migrate_rows random n [] = record { rows = []; error = none; updated = 0 }
  migrate_rows random n (row ∷ rows) =
      next_pass row
        (ensure_encrypted_private_key (random n) row.key_pem row.key_encryption (row_context row))
        rows (migrate_rows random (suc n) rows)

  abbrev after_certificates : Pass → Pass → List KeyRow → Pass × Pass
  after_certificates certificates artifacts untouched = elim (certificates.error) [
    | none ↦ (certificates, artifacts)
    | some e ↦ (certificates, record { rows = untouched; error = none; updated = 0 })
  ]

  -- The certificates, then the artifacts; an error leaves the rest of both as it is.
  unfoldable pub migrate_stored_private_keys :
      (ℕ → Randomness) → (ℕ → Randomness) → List KeyRow → List KeyRow → Pass × Pass
  unfolding migrate_rows
  migrate_stored_private_keys random random_artifact certificates artifacts =
      after_certificates (migrate_rows random 0 certificates)
        (migrate_rows random_artifact 0 artifacts) artifacts
