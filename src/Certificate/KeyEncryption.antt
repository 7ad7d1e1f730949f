-- ===== src/Certificate/KeyEncryption.antt =====
-- The stored form of private keys (src/certificate/private-key-encryption.service.ts). Byte strings
-- and base64 texts are lists of numbers; AES-256-GCM, base64, UTF-8, SHA-256, random bytes and
-- JSON.stringify of the two authenticated records are Node's, a record `Crypto` of parameters.
pub mod Provider
pub mod RoundTrip
pub mod Migration
pub mod Context
use lyttle_nginx.Prelude.{
  ℕ, suc, ◌+◌, Bool, true, false, not, ◌&&◌, ◌||◌, Option, none, some, List, [], ◌∷◌, leb, ◌==◌,
  if◌then◌else◌,
}
use lyttle_nginx.Prelude.Texts.{Text, codes, text_eq, starts_with}
use lyttle_nginx.Prelude.Results.{Checked, good, fail, ◌>>=◌, ◌>>◌, require, found}
use lyttle_nginx.Nginx.CustomCode.Tokenizer.{is_blank, trim}

pub data Scope : Type 0 where
  certificate certificate_artifact : Scope

-- `none` is a property that is not given, `some none` one that is null.
pub record EncryptionContext : Type 0 where
  pub scope : Scope
  pub domains_hash : Option (Option Text)
  pub version : Option (Option ℕ)

pub record StoredContext : Type 0 where
  pub scope : Scope
  pub domains_hash : Option Text
  pub version : Option ℕ

pub record WrappedDataKey : Type 0 where
  pub iv : Text
  pub auth_tag : Text
  pub aad : Text
  pub ciphertext : Text

pub record EncryptedPayload : Type 0 where
  pub iv : Text
  pub auth_tag : Text
  pub aad : Text

-- PrivateKeyEncryptionMetadata, without the time and the constant fields.
pub record KeyMetadata : Type 0 where
  pub scheme : Text
  pub key_version : Text
  pub key_id : Text
  pub context : StoredContext
  pub wrapped_data_key : WrappedDataKey
  pub payload : EncryptedPayload

pub record KeyProvider : Type 0 where
  pub key_version : Text
  pub key_id : Text
  pub master_key : Text

-- `seal key iv aad plain` is the ciphertext with its tag; `unseal key iv aad tag cipher` is `none`
-- where final() throws.
pub record Crypto : Type 0 where
  pub seal : Text → Text → Text → Text → Text × Text
  pub unseal : Text → Text → Text → Text → Text → Option Text
  pub base64 : Text → Text
  pub from_base64 : Text → Text
  pub utf8 : Text → Text
  pub from_utf8 : Text → Text
  pub provider_json : Text → Text → Text
  pub context_json : StoredContext → Text

-- The random bytes of one encryption.
pub record Randomness : Type 0 where
  pub data_key : Text
  pub iv : Text
  pub wrap_iv : Text

pub data KeyError : Type 0 where
  missing_metadata scope_mismatch domains_hash_mismatch version_mismatch : KeyError
  bad_data_key bad_payload : KeyError
  unsupported_provider master_key_required : KeyError

abbrev pub envelope_scheme : Text
envelope_scheme = codes "lyttle-private-key-envelope/v1"

abbrev pub flatten : {A : Type 0} → Option (Option A) → Option A
flatten none = none
flatten (some a) = a

unfoldable pub to_stored_context : EncryptionContext → StoredContext
to_stored_context context = record {
  scope = context.scope;
  domains_hash = flatten context.domains_hash;
  version = flatten context.version;
}

-- `!text.trim()`
unfoldable pub trims_away : Text → Bool
unfolding trim
trims_away text = is_blank (trim text)

-- [A-Z ]*PRIVATE KEY-----
key_label : Text → Bool
key_label [] = false
key_label (c ∷ s) =
    starts_with (c ∷ s) (codes "PRIVATE KEY-----")
    || (leb b'A' c && leb c b'Z' || c == b' ') && key_label s

-- The text behind "-----BEGIN ".
abbrev after_begin : Text → Text → Option Text
after_begin [] s = some s
after_begin (p ∷ ps) [] = none
after_begin (p ∷ ps) (c ∷ s) = if c == p then after_begin ps s else none

abbrev labelled : Option Text → Bool
labelled none = false
labelled (some s) = key_label s

unfoldable pub is_plaintext_private_key : Text → Bool
unfolding key_label
is_plaintext_private_key [] = false
is_plaintext_private_key (c ∷ s) =
    labelled (after_begin (codes "-----BEGIN ") (c ∷ s)) || is_plaintext_private_key s

-- `none` is a value that is no object.
unfoldable pub parse_encryption_metadata : Option KeyMetadata → Option KeyMetadata
parse_encryption_metadata none = none
parse_encryption_metadata (some m) = if text_eq m.scheme envelope_scheme then some m else none

abbrev pub scope_eq : Scope → Scope → Bool
scope_eq certificate certificate = true
scope_eq certificate certificate_artifact = false
scope_eq certificate_artifact certificate = false
scope_eq certificate_artifact certificate_artifact = true

abbrev pub hash_eq : Option Text → Option Text → Bool
hash_eq none none = true
hash_eq none (some t) = false
hash_eq (some s) none = false
hash_eq (some s) (some t) = text_eq s t

abbrev pub version_eq : Option ℕ → Option ℕ → Bool
version_eq none none = true
version_eq none (some n) = false
version_eq (some m) none = false
version_eq (some m) (some n) = m == n

-- An expectation that is not given is met by every value.
abbrev pub hash_expected : Option Text → Option (Option Text) → Bool
hash_expected actual none = true
hash_expected actual (some expected) = hash_eq actual expected

abbrev pub version_expected : Option ℕ → Option (Option ℕ) → Bool
version_expected actual none = true
version_expected actual (some expected) = version_eq actual expected

unfoldable pub assert_expected_context :
    StoredContext → EncryptionContext → Checked KeyError (Unit {0})
assert_expected_context actual expected = do
  require (scope_eq actual.scope expected.scope) scope_mismatch
  require (hash_expected actual.domains_hash expected.domains_hash) domains_hash_mismatch
  require (version_expected actual.version expected.version) version_mismatch

abbrev pub check_context : StoredContext → Option EncryptionContext → Checked KeyError (Unit {0})
check_context actual none = good tt
check_context actual (some expected) = assert_expected_context actual expected

module _ (crypto : Crypto) (provider : KeyProvider) where
  open crypto use {seal, unseal, base64, from_base64, utf8, from_utf8, provider_json, context_json}

  unfoldable pub wrap_data_key : Text → Text → WrappedDataKey
  wrap_data_key wrap_iv data_key =
      let authenticated = utf8 (provider_json provider.key_version provider.key_id) in
      let (cipher, tag) = seal provider.master_key wrap_iv authenticated data_key in
      record {
        iv = base64 wrap_iv;
        auth_tag = base64 tag;
        aad = base64 authenticated;
        ciphertext = base64 cipher;
      }

  unfoldable pub unwrap_data_key : WrappedDataKey → Option Text
  unwrap_data_key wrapped =
      unseal provider.master_key (from_base64 wrapped.iv) (from_base64 wrapped.aad)
        (from_base64 wrapped.auth_tag) (from_base64 wrapped.ciphertext)

  abbrev payload_aad : EncryptionContext → Text
  payload_aad context = utf8 (context_json (to_stored_context context))

  -- The payload's ciphertext, and its tag.
  abbrev pub sealed : Randomness → Text → EncryptionContext → Text × Text
  sealed random key_pem context =
      seal random.data_key random.iv (payload_aad context) (utf8 key_pem)

  abbrev pub envelope : Randomness → Text → EncryptionContext → KeyMetadata
  envelope random key_pem context = record {
    scheme = envelope_scheme;
    key_version = provider.key_version;
    key_id = provider.key_id;
    context = to_stored_context context;
    wrapped_data_key = wrap_data_key random.wrap_iv random.data_key;
    payload = record {
      iv = base64 random.iv;
      auth_tag = base64 (sealed random key_pem context).1;
      aad = base64 (payload_aad context);
    };
  }

  unfoldable pub encrypt_private_key :
      Randomness → Text → EncryptionContext → Text × Option KeyMetadata
  unfolding to_stored_context wrap_data_key trims_away
  encrypt_private_key random key_pem context =
      if trims_away key_pem
      then (key_pem, none)
      else (base64 (sealed random key_pem context).0, some (envelope random key_pem context))

  unfoldable pub open_envelope :
      Text → KeyMetadata → Option EncryptionContext → Checked KeyError Text
  unfolding assert_expected_context unwrap_data_key
  open_envelope key_pem m expected = do
    check_context m.context expected
    data_key ← found (unwrap_data_key m.wrapped_data_key) bad_data_key
    plain ←
        found
          (unseal data_key (from_base64 m.payload.iv) (from_base64 m.payload.aad)
            (from_base64 m.payload.auth_tag) (from_base64 key_pem))
          bad_payload
    good (from_utf8 plain)

  unfoldable pub decrypt_private_key :
      Text → Option KeyMetadata → Option EncryptionContext → Checked KeyError Text
  unfolding open_envelope parse_encryption_metadata is_plaintext_private_key trims_away
  decrypt_private_key key_pem metadata expected =
      if trims_away key_pem
      then good key_pem
      else if is_plaintext_private_key key_pem
      then good key_pem
      else (do
        m ← found (parse_encryption_metadata metadata) missing_metadata
        open_envelope key_pem m expected)
