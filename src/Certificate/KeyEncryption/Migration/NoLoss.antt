-- ===== src/Certificate/KeyEncryption/Migration/NoLoss.antt =====
-- A pass over the stored private keys (migrateStoredPrivateKeys of
-- src/certificate/private-key-encryption.service.ts).
use lyttle_nginx.Prelude.{
  ℕ, suc, ◌+◌, ◌≡◌, refl, sym, ◌∙◌, Bool, true, false, not, Option, none, some, List, [], ◌∷◌, All,
  or_option, arith, Bool-cases, inl, inr,
}
use lyttle_nginx.Prelude.Texts.{Text}
use lyttle_nginx.Prelude.Results.{Checked, good}
use lyttle_nginx.Certificate.KeyEncryption.{
  EncryptionContext, KeyMetadata, KeyProvider, Crypto, Randomness, KeyError, trims_away,
  parse_encryption_metadata, is_plaintext_private_key,
}
use lyttle_nginx.Certificate.KeyEncryption.RoundTrip.{IsSoundCrypto}
use lyttle_nginx.Certificate.KeyEncryption.Migration.{
  EnsuredKey, KeyRow, row_context, Pass, ensure_encrypted_private_key, write_row, migrate_rows,
  changed_count, is_current_version,
}
use lyttle_nginx.Certificate.KeyEncryption.Migration.Settled.{
  decrypted, decrypt_blank, settled, ensure-IsEnsured,
}

module _ (crypto : Crypto) (provider : KeyProvider) where
  abbrev pub row_key : KeyRow → Checked KeyError Text
  row_key row = decrypted crypto provider row.key_pem row.key_encryption (row_context row)

  abbrev pub row_settled : KeyRow → Bool
  row_settled row = settled crypto provider row.key_pem row.key_encryption

  -- A row whose key can be decrypted, to a text that its UTF-8 form decodes to.
  abbrev pub IsReadable : KeyRow → Type 0
  IsReadable row =
      (plain : Text) × (crypto.from_utf8 (crypto.utf8 plain) ≡ plain) × (row_key row ≡ good plain)

  abbrev pub row_keys : List KeyRow → List (Checked KeyError Text)
  row_keys [] = []
  row_keys (row ∷ rows) = row_key row ∷ row_keys rows

  abbrev pub unsettled : List KeyRow → ℕ
  unsettled [] = 0
  unsettled (row ∷ rows) = changed_count crypto provider (not (row_settled row)) + unsettled rows

  written : Text → Option KeyMetadata → KeyRow → KeyRow
  written key_pem metadata row = record row {
    key_pem = key_pem;
    key_encryption = or_option metadata row.key_encryption;
  }

  -- The key of a written row, also where the update leaves the metadata's column out.
  written_lem :
      (key_pem plain : Text) (metadata : Option KeyMetadata) (row : KeyRow)
      → decrypted crypto provider key_pem metadata (row_context row) ≡ good plain
      → settled crypto provider key_pem metadata ≡ true
      → (row_key (written key_pem metadata row) ≡ good plain)
        × (row_settled (written key_pem metadata row) ≡ true)
  unfolding written row_context parse_encryption_metadata
  written_lem key_pem plain (some m) row key done = (key, done)
  written_lem key_pem plain none row key done =
      let blank : trims_away key_pem ≡ true = ground arith in
      (
        decrypt_blank crypto provider key_pem row.key_encryption (row_context row) blank
            ∙ sym (decrypt_blank crypto provider key_pem none (row_context row) blank)
            ∙ key,
        rw blank refl,
      )

  write_row_lem :
      (row : KeyRow) (ensured : EnsuredKey) (plain : Text)
      → row_key row ≡ good plain
      → ensured.changed ≡ not (row_settled row)
      → decrypted crypto provider ensured.key_pem ensured.key_encryption (row_context row)
        ≡ good plain
      → settled crypto provider ensured.key_pem ensured.key_encryption ≡ true
      → (row_key (write_row crypto provider row ensured) ≡ good plain)
        × (row_settled (write_row crypto provider row ensured) ≡ true)
  unfolding written
  write_row_lem row ensured plain key changed same done = elim (Bool-cases ensured.changed) [
    | inl written_again ↦
        rw written_again (written_lem ensured.key_pem plain ensured.key_encryption row same done)
    | inr left ↦ rw left (key, ground arith)
  ]

  -- What a pass over rows with these keys comes to.
  abbrev pub IsWholePass : List KeyRow → Pass → Type 0
  IsWholePass rows pass =
      (pass.error ≡ none)
      × (row_keys pass.rows ≡ row_keys rows)
      × (unsettled pass.rows ≡ 0)
      × (pass.updated ≡ unsettled rows)

  -- No stored key is lost, and no row is left behind: where every row's key can be decrypted,
  -- with the library's laws, a pass over the rows throws nothing, each row's key afterwards decrypts,
  -- in the row's own context, to what it did before, every row is blank or encrypted under the
  -- current key version, and the number it returns is the number of rows that were not so.
  pub migrate_rows_keeps_keys :
      IsSoundCrypto crypto
      → (random : ℕ → Randomness) (n : ℕ) (rows : List KeyRow) → All IsReadable rows
      → IsWholePass rows (migrate_rows crypto provider random n rows)
  unfolding migrate_rows
  migrate_rows_keeps_keys sound random n [] readable = (refl, refl, refl, refl)
  migrate_rows_keeps_keys sound random n (row ∷ rows) ((plain, utf, key), readable) =
      let (no_error, keys, settled_rest, updated) =
        migrate_rows_keeps_keys sound random (suc n) rows readable in
      let done =
        ensure-IsEnsured crypto provider sound (random n) (row_context row) row.key_pem
          row.key_encryption plain utf key in
      let (key', settled') =
        write_row_lem row done.ensured plain key done.changed done.same_key done.now_settled in
      rw done.returned (
        no_error,
        rw (key', key, keys) refl,
        rw settled' (omega (arith, settled_rest)),
        rw (done.changed, updated) refl,
      )

  settled_unchanged :
      (random : Randomness) (key_pem : Text) (metadata : Option KeyMetadata)
      (context : EncryptionContext)
      → settled crypto provider key_pem metadata ≡ true
      → (ensured : EnsuredKey) × (ensure_encrypted_private_key crypto provider random key_pem
            metadata context
          ≡ good ensured)
        × (ensured.changed ≡ false)
  unfolding ensure_encrypted_private_key
  settled_unchanged random key_pem metadata context h = elim (Bool-cases (trims_away key_pem)) [
    | inl blank ↦
        (record { key_pem = key_pem; key_encryption = none; changed = false }, rw blank refl, refl)
    | inr text ↦
        let cipher : is_plaintext_private_key key_pem ≡ false = ground arith in
        let current : is_current_version crypto provider (parse_encryption_metadata metadata)
            ≡ true =
          ground arith in
        (
          record {
            key_pem = key_pem;
            key_encryption = parse_encryption_metadata metadata;
            changed = false;
          },
          rw (text, cipher, current) refl,
          refl,
        )
  ]

  unsettled_none :
      (row : KeyRow) (rows : List KeyRow)
      → unsettled (row ∷ rows) ≡ 0
      → (row_settled row ≡ true) × (unsettled rows ≡ 0)
  unsettled_none row rows h = elim (Bool-cases (row_settled row)) [
    | inl done ↦ (done, omega (arith, (rw done at h)))
    | inr todo ↦
        let no : 1 + unsettled rows ≡ 0 = (rw todo at h) in
        let absurd : ⊥ = omega (arith, no) in elim absurd [ ]
  ]

  -- A second pass finds nothing to do: over rows that are all blank or encrypted under the current
  -- key version, whatever the random bytes, it throws nothing, writes no row and returns 0.
  pub migrate_rows_settled :
      (random : ℕ → Randomness) (n : ℕ) (rows : List KeyRow)
      → unsettled rows ≡ 0
      → migrate_rows crypto provider random n rows
        ≡ record { rows = rows; error = none; updated = 0 }
  unfolding migrate_rows ensure_encrypted_private_key
  migrate_rows_settled random n [] h = refl
  migrate_rows_settled random n (row ∷ rows) h =
      let (here, rest) = unsettled_none row rows h in
      let (ensured, returned, unchanged) =
        settled_unchanged (random n) row.key_pem row.key_encryption (row_context row) here in
      rw (returned, unchanged, migrate_rows_settled random (suc n) rows rest) refl
