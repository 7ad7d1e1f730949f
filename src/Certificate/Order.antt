-- ===== src/Certificate/Order.antt =====
-- The orders of certificates, their events and artifacts
-- (src/certificate/certificate-order.constants.ts and certificate-order.service.ts). A time is a
-- number of milliseconds; JSON values (metadata, details) are their texts.
pub mod Service
pub mod Creation
use lyttle_nginx.Prelude.{
  ℕ, ◌+◌, Bool, true, false, not, ◌&&◌, ◌||◌, Option, none, some, List, [], ◌∷◌, ◌++◌, String, map,
  find_first, keep, length, ltb, leb, str_eq, or_option, is_some, if◌then◌else◌,
}
use lyttle_nginx.Prelude.Texts.{Text, text_eq}
use lyttle_nginx.Domains.{DomainError, normalize_domains, join_domains, hash_domains}
use lyttle_nginx.Prelude.Results.{Checked, good, fail, ◌>>=◌, ◌>>◌, require, found}

pub data Status : Type 0 where
  requested challenge_published validating issued distributing activated failed revoked : Status

pub data SourceType : Type 0 where
  acme uploaded self_signed imported : SourceType

unfoldable pub is_in_progress : Status → Bool
is_in_progress requested = true
is_in_progress challenge_published = true
is_in_progress validating = true
is_in_progress issued = true
is_in_progress distributing = true
is_in_progress _ = false

unfoldable pub is_terminal : Status → Bool
is_terminal activated = true
is_terminal failed = true
is_terminal revoked = true
is_terminal _ = false

unfoldable pub is_retryable : Status → Bool
is_retryable failed = true
is_retryable _ = false

-- CertificateOrderRecord: `updatedAt` is the database's.
pub record Order : Type 0 where
  pub id : String
  pub domains : Text
  pub domains_hash : Text
  pub primary_domain : Text
  pub source_type : SourceType
  pub status : Status
  pub attempt_count : ℕ
  pub retry_count : ℕ
  pub next_retry_at : Option ℕ
  pub last_error : Option String
  pub certificate_id : Option String
  pub requested_by_node : Option String
  pub requested_at : ℕ
  pub started_at : Option ℕ
  pub challenge_published_at : Option ℕ
  pub validating_at : Option ℕ
  pub issued_at : Option ℕ
  pub distributing_at : Option ℕ
  pub activated_at : Option ℕ
  pub failed_at : Option ℕ
  pub revoked_at : Option ℕ
  pub completed_at : Option ℕ
  pub metadata : Option String
  pub created_at : ℕ

pub data EventType : Type 0 where
  created retry_requested state_transition retry_scheduled artifact_created : EventType

-- CertificateOrderEventRecord, with the order it belongs to; the messages and
-- details that the service builds are left out; those that a caller passes on are kept.
pub record Event : Type 0 where
  pub order_id : String
  pub event_type : EventType
  pub from_status : Option Status
  pub to_status : Option Status
  pub message : Option String
  pub attempt_number : Option ℕ
  pub retry_at : Option ℕ
  pub details : Option String

-- CertificateArtifactRecord with its PEM texts, without the columns of its distribution.
pub record Artifact : Type 0 where
  pub id : String
  pub order_id : Option String
  pub certificate_id : Option String
  pub domains : Text
  pub domains_hash : Text
  pub version : ℕ
  pub source_type : SourceType
  pub cert_pem : String
  pub key_pem : String
  pub key_encryption : Option String
  pub issued_at : ℕ
  pub expires_at : ℕ
  pub activated_at : Option ℕ
  pub is_current : Bool
  pub created_by_node : Option String
  pub metadata : Option String
  pub created_at : ℕ

-- The three tables; the newest event is the first.
pub record Tables : Type 0 where
  pub orders : List Order
  pub events : List Event
  pub artifacts : List Artifact

pub data OrderError : Type 0 where
  not_found unsupported_source : OrderError
  scheduled : ℕ → OrderError
  bad_domains : DomainError → OrderError

-- A DomainValidationError passes through.
abbrev pub of_domains : {A : Type 0} → Checked DomainError A → Checked OrderError A
of_domains (good x) = good x
of_domains (fail e) = fail (bad_domains e)

-- What an operation leaves behind.
abbrev pub Outcome : Type 0 → Type 0
Outcome A = Checked OrderError (A × Tables)

abbrev pub find_order : String → Tables → Option Order
find_order key tables = find_first (λ o. str_eq (Order.id o) key) (Tables.orders tables)

-- `update` of the row with the key.
abbrev pub update_order : String → (Order → Order) → List Order → List Order
update_order key change [] = []
update_order key change (o ∷ os) =
    (if str_eq (Order.id o) key then change o else o) ∷ update_order key change os

-- `findFirst` with `orderBy: { createdAt: 'desc' }`; of rows of one time, the first is taken.
abbrev pub newer : Order → Option Order → Option Order
newer o none = some o
newer o (some p) = if ltb (Order.created_at o) (Order.created_at p) then some p else some o

unfoldable pub newest : (Order → Bool) → List Order → Option Order
newest wanted [] = none
newest wanted (o ∷ os) = if wanted o then newer o (newest wanted os) else newest wanted os

-- STATUS_TIMESTAMP_FIELDS: the column of the status is set.
unfoldable pub stamp : Status → ℕ → Order → Order
stamp requested now o = record o { requested_at = now }
stamp challenge_published now o = record o { challenge_published_at = some now }
stamp validating now o = record o { validating_at = some now }
stamp issued now o = record o { issued_at = some now }
stamp distributing now o = record o { distributing_at = some now }
stamp activated now o = record o { activated_at = some now }
stamp failed now o = record o { failed_at = some now }
stamp revoked now o = record o { revoked_at = some now }
