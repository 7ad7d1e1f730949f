-- ===== src/Tests/Certificate.antt =====
-- Domains (src/utils/domain-utils.ts) and certificate orders (src/certificate) at concrete inputs.
use lyttle_nginx.Prelude.{
  ℕ, ◌≡◌, ◌≢◌, refl, String, Bool, true, false, Option, none, List, [], ◌∷◌, All,
}
use lyttle_nginx.Prelude.Texts.{Text, codes}
use lyttle_nginx.Domains.{normalize_domains}
use lyttle_nginx.Domains.Normal.{IsDistinct, IsNormal, normalize_domains-IsNormal}
use lyttle_nginx.Certificate.Order.{Order, Artifact, Tables, acme}
use lyttle_nginx.Certificate.Order.Creation.{
  OrderParams, ArtifactParams, created_order, created_event, stored_artifact, artifact_event,
  get_or_create_order, record_artifact,
}
use lyttle_nginx.Certificate.Order.Creation.Rows.{IsSoundRow}
use lyttle_nginx.Certificate.Order.Creation.Attempts.{Reached-IsSoundRow}
use lyttle_nginx.Certificate.Order.Creation.Audit.{IsAudited}
use lyttle_nginx.Certificate.Order.Creation.History.{at_first, by_creation, Reached-IsAudited}
use lyttle_nginx.Certificate.Order.Creation.Versions.{IsVersioned, record_artifact-IsVersioned}

-- domainToASCII on names in ASCII, isIP on names, a digest and an encryption.
abbrev in_ascii : Text → Text
in_ascii domain = domain

abbrev no_ip : Text → Bool
no_ip domain = false

abbrev digest : Text → Text
digest text = codes "digest"

abbrev in_clear : String → Text → ℕ → String × Option String
in_clear key hash version = (key, none)

abbrev given : List Text
given = codes " Example.com." ∷ codes "*.example.com" ∷ codes "example.com" ∷ []

abbrev normal : List Text
normal = codes "example.com" ∷ codes "*.example.com" ∷ []

normalize_domains-IsNormal_example :
    (normal ≢ []) × IsDistinct normal × All (IsNormal in_ascii no_ip true) normal
unfolding normalize_domains
normalize_domains-IsNormal_example =
    normalize_domains-IsNormal in_ascii no_ip true given normal refl

abbrev asked : OrderParams
asked = record {
  domains = given;
  source_type = acme;
  requested_by_node = none;
  existing_order_id = none;
  metadata = none;
}

abbrev no_rows : Tables
no_rows = record { orders = []; events = []; artifacts = [] }

abbrev first_order : Order
first_order =
    created_order asked normal (codes "example.com;*.example.com") (codes "digest") "order" 1000

abbrev one_order : Tables
one_order = record {
  orders = first_order ∷ [];
  events = created_event asked "order" ∷ [];
  artifacts = [];
}

Reached-IsAudited_example : IsAudited one_order
unfolding get_or_create_order
Reached-IsAudited_example =
    Reached-IsAudited in_ascii no_ip digest in_clear one_order
      (by_creation asked "order" 1000 first_order at_first tt refl)

abbrev issued_pem : ArtifactParams
issued_pem = record {
  order_id = "order";
  certificate_id = none;
  domains = given;
  source_type = acme;
  cert_pem = "cert";
  key_pem = "key";
  issued_at = 2000;
  expires_at = 9000;
  activated_at = none;
  created_by_node = none;
  metadata = none;
}

abbrev first_artifact : Artifact
first_artifact =
    stored_artifact issued_pem (codes "example.com;*.example.com") (codes "digest") 1 ("key", none)
      "artifact" 3000

abbrev one_artifact : Tables
one_artifact = record one_order {
  artifacts = first_artifact ∷ [];
  events = artifact_event issued_pem ∷ Tables.events one_order;
}

record_artifact-IsVersioned_example :
    (Tables.artifacts one_artifact ≡ first_artifact ∷ Tables.artifacts one_order)
    × IsVersioned (Tables.artifacts one_artifact)
unfolding record_artifact
record_artifact-IsVersioned_example =
    record_artifact-IsVersioned in_ascii no_ip digest in_clear issued_pem "artifact" 3000 one_order
      one_artifact first_artifact tt refl

Reached-IsSoundRow_example : All IsSoundRow (Tables.orders one_order)
unfolding get_or_create_order
Reached-IsSoundRow_example =
    Reached-IsSoundRow in_ascii no_ip digest in_clear one_order
      (by_creation asked "order" 1000 first_order at_first tt refl)
