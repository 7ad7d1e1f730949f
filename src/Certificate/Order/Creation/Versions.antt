-- ===== src/Certificate/Order/Creation/Versions.antt =====
-- The versions of the artifacts (src/certificate/certificate-order.service.ts).
use lyttle_nginx.Prelude.{
  ◌∙◌, ℕ, ◌+◌, ◌≤◌, ◌<◌, ◌≡◌, sym, ap, subst, Bool, true, Option, List, [], ◌∷◌, String, All, arith,
}
use lyttle_nginx.Prelude.Results.{good, bind-good, good-inj}
use lyttle_nginx.Prelude.Texts.{Text, text_eq_iff}
use lyttle_nginx.Domains.{normalize_domains, join_domains, hash_domains}
use lyttle_nginx.Certificate.Order.{Artifact, Tables, of_domains}
use lyttle_nginx.Certificate.Order.Creation.{
  ArtifactParams, highest_version, stored_artifact, record_artifact,
}

-- The newest is the first: each artifact has a higher version than the older ones for its domains.
abbrev pub IsVersioned : List Artifact → Type 0
IsVersioned [] = Unit
IsVersioned (a ∷ rows) =
    All
      (λ b.
        Artifact.domains_hash b ≡ Artifact.domains_hash a → Artifact.version b < Artifact.version a)
      rows
    × IsVersioned rows

highest_version-bound :
    (hash : Text) (bound : ℕ) (rows : List Artifact)
    → highest_version hash rows ≤ bound
    → All (λ b. Artifact.domains_hash b ≡ hash → Artifact.version b < bound + 1) rows
unfolding highest_version
highest_version-bound hash bound [] h = tt
highest_version-bound hash bound (b ∷ rows) h = (
  λ e. ground (arith, text_eq_iff (Artifact.domains_hash b) hash, e),
  highest_version-bound hash bound rows (ground arith),
)

module _ (domain_to_ascii : Text → Text) (is_ip : Text → Bool) (sha256 : Text → Text)
    (encrypt : String → Text → ℕ → String × Option String) where
  -- recordArtifact keeps the versions of each list of domains strictly rising: the artifact that it
  -- stores is its answer, and has a higher version than each artifact of the same domains' hash.
  pub record_artifact-IsVersioned :
      (p : ArtifactParams) (new_id : String) (now : ℕ) (tables after : Tables) (artifact : Artifact)
      → IsVersioned (Tables.artifacts tables)
      → record_artifact domain_to_ascii is_ip sha256 encrypt p new_id now tables
        ≡ good (artifact, after)
      → (Tables.artifacts after ≡ artifact ∷ Tables.artifacts tables)
        × IsVersioned (Tables.artifacts after)
  unfolding record_artifact stored_artifact
  record_artifact-IsVersioned p new_id now tables after artifact versioned h =
      let (domains, _, h1) =
        bind-good
          (of_domains (normalize_domains domain_to_ascii is_ip true (ArtifactParams.domains p))) _ _
          h in
      let (hash, _, h2) =
        bind-good (of_domains (hash_domains domain_to_ascii is_ip sha256 true domains)) _ _ h1 in
      let (joined, _, same) =
        bind-good (of_domains (join_domains domain_to_ascii is_ip true domains)) _ _ h2 in
      let e = good-inj _ (artifact, after) same in
      let rows = sym (ap (λ x. Tables.artifacts x.1) e) in
      (
        rows ∙ ap (λ x. x.0 ∷ Tables.artifacts tables) e,
        subst IsVersioned (sym rows) (
          highest_version-bound hash (highest_version hash (Tables.artifacts tables))
              (Tables.artifacts tables) (omega arith),
          versioned,
        ),
      )
