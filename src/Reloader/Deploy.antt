-- ===== src/Reloader/Deploy.antt =====
-- What a deployment does to the links (deployConfigSnapshot and rollbackActivation of
-- src/reloader/reloader.service.ts).
use lyttle_nginx.Prelude.Results.{Checked, good, fail, good-inj}
use lyttle_nginx.Prelude.{
  ℕ, ◌≡◌, refl, sym, ap, subst, false, String, true, Option, none, some, is_some, List, Bool-cases,
  inl, inr,
}
use lyttle_nginx.Reloader.{
  DeployError, not_staged, not_valid, no_previous_release, rolled_back_to, rollback_failed,
  ActivatedRelease, staged, validated, Release, Runtime, prune_old_releases, Outside, with_status,
  after_rollback, rollback_activation, after_reload, deploy_config_snapshot,
}

-- What the outside sees of the runtime directory: the two links, and what nginx runs.
pub record Links : Type 0 where
  pub current : Option String
  pub last_known_good : Option String
  pub running : Option String

abbrev pub links : Runtime → Links
links rt = record {
  current = rt.current;
  last_known_good = rt.last_known_good;
  running = rt.running;
}

-- Both links at one release, which nginx runs.
abbrev pub settled_at : String → Links
settled_at name = record { current = some name; last_known_good = some name; running = some name }

-- The release is on disk and `nginx -t` accepts it.
abbrev IsValidated : Outside → Type 0
IsValidated outside = (outside.staged ≡ true) × (outside.valid ≡ true)

-- The contract of a rollout: the links before, those after, and what the caller learns. A release
-- that is not staged, or that `nginx -t` rejects, moves nothing. One that is validated and that nginx
-- loads is current, good and running. One that is validated and that nginx does not load fails, and the
-- link is back at the release before, which runs again where nginx loads it; without a release before,
-- the link stays.
pub data Rollout (name : String) (outside : Outside)
    : Links → Links → Checked DeployError ActivatedRelease → Type 0 where
  unstaged :
      (before : Links)
      → outside.staged ≡ false
      → Rollout name outside before before (fail not_staged)
  refused :
      (before : Links)
      → outside.staged ≡ true
      → outside.valid ≡ false
      → Rollout name outside before before (fail not_valid)
  rolled_out :
      (before : Links)
      → IsValidated outside
      → outside.reload_error ≡ none
      → Rollout name outside before
          (settled_at name)
          (good (record { release_id = name; previous_release_id = before.current }))
  restored :
      (p error : String) (g r : Option String)
      → IsValidated outside
      → outside.reload_error ≡ some error
      → outside.rollback_error ≡ none
      → Rollout name outside
          (record { current = some p; last_known_good = g; running = r })
          (record { current = some p; last_known_good = g; running = some p })
          (fail (rolled_back_to p error))
  restored_link :
      (p error again : String) (g r : Option String)
      → IsValidated outside
      → outside.reload_error ≡ some error
      → outside.rollback_error ≡ some again
      → Rollout name outside
          (record { current = some p; last_known_good = g; running = r })
          (record { current = some p; last_known_good = g; running = r })
          (fail (rollback_failed p error again))
  unrestored :
      (error : String) (g r : Option String)
      → IsValidated outside
      → outside.reload_error ≡ some error
      → Rollout name outside
          (record { current = none; last_known_good = g; running = r })
          (record { current = some name; last_known_good = g; running = r })
          (fail (no_previous_release error))

-- What an operation on the runtime directory has done to the links `before`.
abbrev IsRollout :
    String → Outside → Links → Runtime × Checked DeployError ActivatedRelease → Type 0
IsRollout name outside before (rt, result) = Rollout name outside before (links rt) result

-- The links before, with another spelling of the current one.
abbrev linked : Option String → Runtime → Links
linked current rt = record {
  current = current;
  last_known_good = rt.last_known_good;
  running = rt.running;
}

module _ (name : String) (outside : Outside) (now : ℕ) (validated_ : IsValidated outside) where
  after_rollback-IsRollout :
      (previous error : String) (again : Option String) (rt : Runtime)
      → outside.reload_error ≡ some error
      → outside.rollback_error ≡ again
      → IsRollout name outside
          (linked (some previous) rt)
          (after_rollback name previous error now again (record rt { current = some previous }))
  after_rollback-IsRollout previous error none rt failed_ loaded =
      restored previous error rt.last_known_good rt.running validated_ failed_ loaded
  after_rollback-IsRollout previous error (some e) rt failed_ failed_again =
      restored_link previous error e rt.last_known_good rt.running validated_ failed_ failed_again

  after_reload-IsRollout :
      (error previous : Option String) (rt : Runtime) (rs : List (String × Release))
      → outside.reload_error ≡ error
      → IsRollout name outside (linked previous rt) (
          after_reload name previous now outside error
            (record rt { releases = rs; current = some name }))
  unfolding rollback_activation prune_old_releases
  after_reload-IsRollout none previous rt rs loaded =
      rolled_out (linked previous rt) validated_ loaded
  after_reload-IsRollout (some error) none rt rs failed_ =
      unrestored error rt.last_known_good rt.running validated_ failed_
  after_reload-IsRollout (some error) (some p) rt rs failed_ =
      after_rollback-IsRollout p error outside.rollback_error
        (record rt { releases = rs; current = some name }) failed_ refl

-- For every answer of the files that it stages, of `nginx -t` and of the two reloads, where its writes
-- after a validation succeed, a deployment implements the contract of a rollout: what it does to the
-- links and what it returns or throws are one of the contract's outcomes, each of which has the answers
-- that call for it.
pub deploy-Rollout :
    (name : String) (now : ℕ) (outside : Outside) (rt : Runtime)
    → Rollout name outside
        (links rt)
        (links (deploy_config_snapshot name now outside rt).0)
        (deploy_config_snapshot name now outside rt).1
unfolding deploy_config_snapshot
deploy-Rollout name now outside rt =
    let deployed = deploy_config_snapshot name now outside rt in
    let Goal = IsRollout name outside (links rt) in
    elim (Bool-cases outside.staged) [
      | inr missing ↦
          let e : deployed ≡ (with_status name staged none now rt, fail not_staged) =
            rw missing refl in
          subst Goal (sym e) (unstaged (links rt) missing)
      | inl is_staged ↦ elim (Bool-cases outside.valid) [
        | inr invalid ↦
            let e : deployed ≡ (with_status name staged none now rt, fail not_valid) =
              rw (is_staged, invalid) refl in
            subst Goal (sym e) (refused (links rt) is_staged invalid)
        | inl is_valid ↦
            let checked = (with_status name validated rt.current now rt).releases in
            let e : deployed
                ≡ after_reload name rt.current now outside outside.reload_error
                    (record rt { releases = checked; current = some name }) =
              rw (is_staged, is_valid) refl in
            subst Goal (sym e) (
              after_reload-IsRollout name outside now (is_staged, is_valid) outside.reload_error
                rt.current rt checked refl)
      ]
    ]

module _ (name : String) (outside : Outside) where
  -- The link and the last known good release agree, and stay so.
  pub links_stay_equal :
      (before after : Links) (result : Checked DeployError ActivatedRelease)
      → Rollout name outside before after result
      → before.current ≡ before.last_known_good
      → is_some before.current ≡ true
      → (after.current ≡ after.last_known_good) × (is_some after.current ≡ true)
  links_stay_equal before after result (unstaged b _) agrees there = (agrees, there)
  links_stay_equal before after result (refused b _ _) agrees there = (agrees, there)
  links_stay_equal before after result (rolled_out b _ _) agrees there = (refl, refl)
  links_stay_equal before after result (restored p e g r _ _ _) agrees there = (agrees, there)
  links_stay_equal before after result (restored_link p e e' g r _ _ _) agrees there =
      (agrees, there)
  links_stay_equal before after result (unrestored e g r _ _) agrees there = cc

  -- A rollout that returns a release has settled at it.
  pub returned_release :
      (before after : Links) (result : Checked DeployError ActivatedRelease)
      (release : ActivatedRelease)
      → Rollout name outside before after result
      → result ≡ good release
      → (after ≡ settled_at name) × (release.release_id ≡ name)
  returned_release before after result release (rolled_out b _ _) h =
      (refl, sym (ap (λ r. ActivatedRelease.release_id r) (good-inj _ release h)))
  returned_release before after result release (unstaged b _) h = cc
  returned_release before after result release (refused b _ _) h = cc
  returned_release before after result release (restored p e g r _ _ _) h = cc
  returned_release before after result release (restored_link p e e' g r _ _ _) h = cc
  returned_release before after result release (unrestored e g r _ _) h = cc
