-- ===== src/Certificate/Order/Creation.antt =====
-- getOrCreateOrder and recordArtifact (src/certificate/certificate-order.service.ts). Each one is
-- atomic; `now` is the time of the call, and the database chooses `new_id`.
pub mod Audit
pub mod Kept
pub mod History
pub mod Rows
pub mod Attempts
pub mod Versions
use lyttle_nginx.Prelude.{
  ℕ, ◌+◌, Bool, true, false, not, ◌&&◌, ◌||◌, Option, none, some, List, [], ◌∷◌, String, ltb, leb,
  or_else, if◌then◌else◌,
}
use lyttle_nginx.Prelude.Texts.{Text, text_eq}
use lyttle_nginx.Prelude.Results.{Checked, good, fail, ◌>>=◌, ◌>>◌, require, found}
use lyttle_nginx.Domains.{normalize_domains, join_domains, hash_domains}
use lyttle_nginx.Certificate.Order.{
  Status, requested, challenge_published, validating, issued, distributing, activated, failed,
  revoked, SourceType, is_in_progress, is_terminal, is_retryable, Order, EventType, created,
  retry_requested, state_transition, retry_scheduled, artifact_created, Event, Artifact, Tables,
  OrderError, not_found, scheduled, bad_domains, of_domains, Outcome, find_order, update_order,
  newest, stamp,
}
use lyttle_nginx.Certificate.Order.Service.{is_later, resume_order}

-- The columns of a new artifact that are passed on as they are given.
pub record ArtifactParams : Type 0 where
  pub order_id : String
  pub certificate_id : Option String
  pub domains : List Text
  pub source_type : SourceType
  pub cert_pem : String
  pub key_pem : String
  pub issued_at : ℕ
  pub expires_at : ℕ
  pub activated_at : Option ℕ
  pub created_by_node : Option String
  pub metadata : Option String

-- An existing order's id that is empty is `none` here: the program tests its truth.
pub record OrderParams : Type 0 where
  pub domains : List Text
  pub source_type : SourceType
  pub requested_by_node : Option String
  pub existing_order_id : Option String
  pub metadata : Option String

-- `latestArtifact?.version ?? 0`: the highest version for the hash.
unfoldable pub highest_version : Text → List Artifact → ℕ
highest_version hash [] = 0
highest_version hash (a ∷ rows) =
    let rest = highest_version hash rows in
    if text_eq (Artifact.domains_hash a) hash && ltb rest (Artifact.version a)
    then Artifact.version a
    else rest

abbrev pub first_domain : List Text → Text
first_domain [] = []
first_domain (d ∷ ds) = d

abbrev pub order_for : (Status → Bool) → Text → Order → Bool
order_for wanted hash o = text_eq (Order.domains_hash o) hash && wanted (Order.status o)

-- The row and the event of a new order.
abbrev pub created_order : OrderParams → List Text → Text → Text → String → ℕ → Order
created_order p domains joined hash new_id now = record {
  id = new_id;
  domains = joined;
  domains_hash = hash;
  primary_domain = first_domain domains;
  source_type = OrderParams.source_type p;
  status = requested;
  attempt_count = 1;
  retry_count = 0;
  next_retry_at = none;
  last_error = none;
  certificate_id = none;
  requested_by_node = OrderParams.requested_by_node p;
  requested_at = now;
  started_at = none;
  challenge_published_at = none;
  validating_at = none;
  issued_at = none;
  distributing_at = none;
  activated_at = none;
  failed_at = none;
  revoked_at = none;
  completed_at = none;
  metadata = OrderParams.metadata p;
  created_at = now;
}

abbrev pub created_event : OrderParams → String → Event
created_event p new_id = record {
  order_id = new_id;
  event_type = created;
  from_status = none;
  to_status = some requested;
  message = none;
  attempt_number = some 1;
  retry_at = none;
  details = OrderParams.metadata p;
}

unfoldable pub stored_artifact :
    ArtifactParams → Text → Text → ℕ → String × Option String → String → ℕ → Artifact
stored_artifact p joined hash version stored new_id now = record {
  id = new_id;
  order_id = some (ArtifactParams.order_id p);
  certificate_id = ArtifactParams.certificate_id p;
  domains = joined;
  domains_hash = hash;
  version = version;
  source_type = ArtifactParams.source_type p;
  cert_pem = ArtifactParams.cert_pem p;
  key_pem = stored.0;
  key_encryption = stored.1;
  issued_at = ArtifactParams.issued_at p;
  expires_at = ArtifactParams.expires_at p;
  activated_at = ArtifactParams.activated_at p;
  is_current = false;
  created_by_node = ArtifactParams.created_by_node p;
  metadata = ArtifactParams.metadata p;
  created_at = now;
}

abbrev pub artifact_event : ArtifactParams → Event
artifact_event p = record {
  order_id = ArtifactParams.order_id p;
  event_type = artifact_created;
  from_status = none;
  to_status = none;
  message = none;
  attempt_number = none;
  retry_at = none;
  details = none;
}

module _ (domain_to_ascii : Text → Text) (is_ip : Text → Bool) (sha256 : Text → Text) where
  -- The last part of getOrCreateOrder.
  unfoldable pub create_order : OrderParams → List Text → Text → String → ℕ → Tables → Outcome Order
  unfolding join_domains
  create_order p domains hash new_id now tables = do
    joined ← of_domains (join_domains domain_to_ascii is_ip true domains)
    let order = created_order p domains joined hash new_id now
    good (
      order,
      record tables {
        orders = order ∷ Tables.orders tables;
        events = created_event p new_id ∷ Tables.events tables;
      },
    )

  -- The newest order that may be retried, when its time has come; else a new one.
  unfoldable pub retry_or_create :
      OrderParams → List Text → Text → String → ℕ → Tables → Option Order → Outcome Order
  unfolding create_order resume_order
  retry_or_create p domains hash new_id now tables none =
      create_order p domains hash new_id now tables
  retry_or_create p domains hash new_id now tables (some order) =
      if is_later now (Order.next_retry_at order)
      then create_order p domains hash new_id now tables
      else resume_order (Order.id order) "Automatic retry window reached" true now tables

  -- The newest order in progress, when there is one.
  unfoldable pub reuse_or_create :
      OrderParams → List Text → Text → String → ℕ → Tables → Option Order → Outcome Order
  unfolding retry_or_create newest is_retryable
  reuse_or_create p domains hash new_id now tables (some order) = good (order, tables)
  reuse_or_create p domains hash new_id now tables none =
      retry_or_create p domains hash new_id now tables
        (newest (order_for is_retryable hash) (Tables.orders tables))

  unfoldable pub get_or_create_order : OrderParams → String → ℕ → Tables → Outcome Order
  unfolding reuse_or_create newest is_in_progress normalize_domains hash_domains
  get_or_create_order p new_id now tables = do
    domains ← of_domains (normalize_domains domain_to_ascii is_ip true (OrderParams.domains p))
    hash ← of_domains (hash_domains domain_to_ascii is_ip sha256 true domains)
    elim (OrderParams.existing_order_id p) [
      | some key ↦ do order ← found (find_order key tables) not_found; good (order, tables)
      | none ↦
          reuse_or_create p domains hash new_id now tables
            (newest (order_for is_in_progress hash) (Tables.orders tables))
    ]

  -- `encrypt` is encryptPrivateKey of PrivateKeyEncryptionService: from the key, the hash and the
  -- version, the stored key and its `keyEncryption`.
  module _ (encrypt : String → Text → ℕ → String × Option String) where
    unfoldable pub record_artifact : ArtifactParams → String → ℕ → Tables → Outcome Artifact
    unfolding normalize_domains hash_domains join_domains highest_version
    record_artifact p new_id now tables = do
      domains ← of_domains (normalize_domains domain_to_ascii is_ip true (ArtifactParams.domains p))
      hash ← of_domains (hash_domains domain_to_ascii is_ip sha256 true domains)
      joined ← of_domains (join_domains domain_to_ascii is_ip true domains)
      let version = highest_version hash (Tables.artifacts tables) + 1
      let stored = encrypt (ArtifactParams.key_pem p) hash version
      let artifact = stored_artifact p joined hash version stored new_id now
      good (
        artifact,
        record tables {
          artifacts = artifact ∷ Tables.artifacts tables;
          events = artifact_event p ∷ Tables.events tables;
        },
      )
