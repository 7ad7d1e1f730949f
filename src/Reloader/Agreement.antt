-- ===== src/Reloader/Agreement.antt =====
-- Where a reload leaves the links (reloadConfig of src/reloader/reloader.service.ts).
use lyttle_nginx.Prelude.{
  ℕ, suc, ◌≡◌, refl, sym, ap, ◌∙◌, subst, String, Bool, true, false, Option, none, some, is_some,
  Bool-cases, inl, inr,
}
use lyttle_nginx.Prelude.Results.{Checked, good, fail}
use lyttle_nginx.Reloader.{
  Runtime, ensure_runtime_layout, after_layout, Outside, DeployError, ActivatedRelease,
  deploy_config_snapshot, succeeded, failed, Reload, apply_of, ssl_phase, reload_config,
}
use lyttle_nginx.Reloader.LayingOut.{
  lays_out, laid_out, with_current, with_good, ensure_runtime_layout_lem,
}
use lyttle_nginx.Reloader.Deploy.{
  links, settled_at, returned_release, deploy-Rollout, links_stay_equal,
}

-- A link that is there, and the last known good one is the same.
abbrev IsAgreed : Runtime → Type 0
IsAgreed rt = (rt.current ≡ rt.last_known_good) × (is_some rt.current ≡ true)

deploy-IsAgreed :
    (name : String) (now : ℕ) (outside : Outside) (rt : Runtime)
    → IsAgreed rt
    → IsAgreed (deploy_config_snapshot name now outside rt).0
deploy-IsAgreed name now outside rt (agrees, there) =
    let (after, result) = deploy_config_snapshot name now outside rt in
    links_stay_equal name outside (links rt) (links after) result
      (deploy-Rollout name now outside rt) agrees there

with_current-IsAgreed :
    (now : ℕ) (current : Option String) (rt : Runtime)
    → rt.current ≡ current
    → rt.current ≡ rt.last_known_good
    → IsAgreed
        (with_good (with_current now current rt).last_known_good (with_current now current rt))
with_current-IsAgreed now none rt h agrees =
    let gone : rt.last_known_good ≡ none = sym agrees ∙ h in rw gone (refl, refl)
with_current-IsAgreed now (some name) rt h agrees =
    let there : rt.last_known_good ≡ some name = sym agrees ∙ h in rw there (h, ap is_some h)

ssl_phase-IsAgreed :
    (reload : Reload) (now : ℕ) (rt : Runtime) (result : Checked DeployError ActivatedRelease)
    → IsAgreed rt
    → IsAgreed (ssl_phase reload now (rt, result)).0
ssl_phase-IsAgreed reload now rt (fail e) agreed = agreed
ssl_phase-IsAgreed reload now rt (good http) agreed =
    deploy-IsAgreed reload.ssl_name (suc now) reload.ssl rt agreed

after_layout-IsAgreed :
    (reload : Reload) (now : ℕ) (rt : Runtime) (done : Bool)
    → IsAgreed rt
    → IsAgreed (after_layout reload now (rt, done)).0
after_layout-IsAgreed reload now rt false agreed = agreed
after_layout-IsAgreed reload now rt true agreed =
    let first = deploy_config_snapshot reload.http_name now reload.http rt in
    elim (Bool-cases reload.entries_read) [
      | inr unread ↦ rw unread agreed
      | inl is_read ↦ rw is_read (
          ssl_phase-IsAgreed reload now first.0 first.1
            (deploy-IsAgreed reload.http_name now reload.http rt agreed))
    ]

-- A failing rollout never stays active: where the current link and the last known good one name the
-- same release, or both are absent and the layout succeeds, both links are in place after the reload
-- and name the same release, whatever its entries, stagings, validations and reloads of nginx come to.
-- The writes after a validation are taken to succeed.
pub reload_config_agreed :
    (now : ℕ) (reload : Reload) (rt : Runtime)
    → rt.current ≡ rt.last_known_good
    → lays_out reload.layout rt ≡ true
    → (Runtime.current (reload_config now reload rt).0
        ≡ Runtime.last_known_good (reload_config now reload rt).0)
      × (is_some (Runtime.current (reload_config now reload rt).0) ≡ true)
unfolding reload_config
reload_config_agreed now reload rt agrees h =
    let (ready, done) = ensure_runtime_layout now reload.layout rt in
    let same : ready ≡ laid_out now rt = ensure_runtime_layout_lem now reload.layout rt h in
    after_layout-IsAgreed reload now ready done
      (subst IsAgreed (sym same) (with_current-IsAgreed now rt.current rt refl agrees))

succeeded_inj : (a b : String) → succeeded a ≡ succeeded b → a ≡ b
succeeded_inj a b h = cc

apply_of_lem :
    (result : Checked DeployError ActivatedRelease) (id : String)
    → apply_of result ≡ succeeded id
    → (release : ActivatedRelease) × (result ≡ good release) × (release.release_id ≡ id)
apply_of_lem (fail e) id h = cc
apply_of_lem (good release) id h = (release, refl, succeeded_inj release.release_id id h)

ssl_phase_lem :
    (reload : Reload) (now : ℕ) (rt : Runtime) (result : Checked DeployError ActivatedRelease)
    (id : String)
    → (ssl_phase reload now (rt, result)).1 ≡ succeeded id
    → (links (ssl_phase reload now (rt, result)).0 ≡ settled_at id) × (id ≡ reload.ssl_name)
ssl_phase_lem reload now rt (fail e) id h = cc
ssl_phase_lem reload now rt (good http) id h =
    let second = deploy_config_snapshot reload.ssl_name (suc now) reload.ssl rt in
    let (release, returned, named) = apply_of_lem second.1 id h in
    let (settled, called) =
      returned_release reload.ssl_name reload.ssl (links rt) (links second.0) second.1 release
        (deploy-Rollout reload.ssl_name (suc now) reload.ssl rt) returned in
    let same : reload.ssl_name ≡ id = sym called ∙ named in (settled ∙ ap settled_at same, sym same)

after_layout_lem :
    (reload : Reload) (now : ℕ) (rt : Runtime) (done : Bool) (id : String)
    → (after_layout reload now (rt, done)).1 ≡ succeeded id
    → (links (after_layout reload now (rt, done)).0 ≡ settled_at id) × (id ≡ reload.ssl_name)
after_layout_lem reload now rt false id h = cc
after_layout_lem reload now rt true id h =
    let first = deploy_config_snapshot reload.http_name now reload.http rt in
    elim (Bool-cases reload.entries_read) [
      | inr unread ↦ let no : failed ≡ succeeded id = (rw unread at h) in cc
      | inl is_read ↦ rw is_read (ssl_phase_lem reload now first.0 first.1 id (rw is_read at h))
    ]

-- A reload that is recorded as a success is one: the release it names is that of its second
-- deployment, both links lead to it, and it is what nginx loaded last.
pub reload_config_succeeded :
    (now : ℕ) (reload : Reload) (rt : Runtime) (id : String)
    → (reload_config now reload rt).1 ≡ succeeded id
    → (links (reload_config now reload rt).0 ≡ settled_at id) × (id ≡ reload.ssl_name)
unfolding reload_config
reload_config_succeeded now reload rt id h =
    let (ready, done) = ensure_runtime_layout now reload.layout rt in
    after_layout_lem reload now ready done id h
