-- ===== src/Reloader/Serving.antt =====
-- nginx always has a release to start from (reloadConfig of src/reloader/reloader.service.ts).
use lyttle_nginx.Prelude.{
  ℕ, suc, ◌≡◌, refl, sym, ap, ◌∙◌, subst, String, Bool, true, false, Option, none, some, is_some,
  [], ◌∷◌, str_eq, eq_iff, Bool-cases, inl, inr, arith,
}
use lyttle_nginx.Prelude.Maps.{get, get-insert}
use lyttle_nginx.Prelude.Results.{Checked, good, fail}
use lyttle_nginx.Reloader.{
  Status, bootstrap, staged, validated, active, rolled_back, Release, Runtime,
  ensure_runtime_layout, after_layout, prune_old_releases, Outside, DeployError, ActivatedRelease,
  with_status, after_rollback, rollback_activation, activated, after_reload, deploy_config_snapshot,
  Reload, ssl_phase, reload_config,
}
use lyttle_nginx.Reloader.LayingOut.{
  lays_out, laid_out, with_current, with_good, ensure_runtime_layout_lem,
}
use lyttle_nginx.Reloader.Prune.{prune_keeps_used}

abbrev pub exists : Runtime → String → Bool
exists rt name = is_some (get name rt.releases)

-- A link that is not there, or leads to a release that is.
abbrev pub IsSoundLink : Runtime → Option String → Type 0
IsSoundLink rt none = Unit
IsSoundLink rt (some name) = exists rt name ≡ true

-- Both links are there and lead to releases that are.
pub record IsServing (rt : Runtime) : Type 0 where
  pub has_current : is_some rt.current ≡ true
  pub has_good : is_some rt.last_known_good ≡ true
  pub sound_current : IsSoundLink rt rt.current
  pub sound_good : IsSoundLink rt rt.last_known_good

with_status_new :
    (name : String) (status : Status) (previous : Option String) (now : ℕ) (rt : Runtime)
    → exists (with_status name status previous now rt) name ≡ true
with_status_new name status previous now rt =
    let made : Release = record { status = status; previous = previous; modified_at = now } in
    rw (get-insert name name made rt.releases, (eq_iff name name).1 refl) refl

with_status_keeps :
    (name : String) (status : Status) (previous : Option String) (now : ℕ) (rt : Runtime)
    (link : Option String)
    → IsSoundLink rt link
    → IsSoundLink (with_status name status previous now rt) link
with_status_keeps name status previous now rt none h = tt
with_status_keeps name status previous now rt (some n) h =
    let made : Release = record { status = status; previous = previous; modified_at = now } in
    elim (Bool-cases (str_eq name n)) [
      | inl same ↦ rw (get-insert name n made rt.releases, same) refl
      | inr other ↦ rw (get-insert name n made rt.releases, other) h
    ]

activated-IsServing :
    (name : String) (previous : Option String) (now : ℕ) (rt : Runtime)
    → rt.current ≡ some name
    → IsServing (activated name previous now rt).0
unfolding prune_old_releases
activated-IsServing name previous now rt h =
    let running = record rt { running = some name; last_known_good = some name } in
    let marked = with_status name active previous now running in
    let self = (eq_iff name name).1 refl in
    let kept =
      (prune_keeps_used (some name ∷ previous ∷ []) marked name (rw self (ground arith))).0 in
    let here : exists (activated name previous now rt).0 name ≡ true =
      ap is_some kept ∙ with_status_new name active previous now running in
    record {
      has_current = ap is_some h;
      has_good = refl;
      sound_current = subst (λ l. IsSoundLink (activated name previous now rt).0 l) (sym h) here;
      sound_good = here;
    }

-- The links that a failed activation goes back to.
after_rollback-IsServing :
    (name previous error : String) (now : ℕ) (e : Option String) (rt : Runtime)
    → IsServing rt
    → rt.current ≡ some previous
    → IsServing (after_rollback name previous error now e rt).0
after_rollback-IsServing name previous error now none rt serving h = record {
  has_current = serving.has_current;
  has_good = serving.has_good;
  sound_current =
      with_status_keeps name rolled_back (some previous) now (record rt { running = some previous })
        rt.current serving.sound_current;
  sound_good =
      with_status_keeps name rolled_back (some previous) now (record rt { running = some previous })
        rt.last_known_good serving.sound_good;
}
after_rollback-IsServing name previous error now (some e) rt serving h = serving

with_status-IsServing :
    (name : String) (status : Status) (previous : Option String) (now : ℕ) (rt : Runtime)
    → IsServing rt
    → IsServing (with_status name status previous now rt)
with_status-IsServing name status previous now rt serving = record {
  has_current = serving.has_current;
  has_good = serving.has_good;
  sound_current = with_status_keeps name status previous now rt rt.current serving.sound_current;
  sound_good = with_status_keeps name status previous now rt rt.last_known_good serving.sound_good;
}

after_reload-IsServing :
    (name : String) (now : ℕ) (outside : Outside) (error previous : Option String) (rt : Runtime)
    → IsServing rt
    → rt.current ≡ previous
    → IsServing (after_reload name previous now outside error (record rt { current = some name })).0
unfolding rollback_activation
after_reload-IsServing name now outside none previous rt serving h =
    activated-IsServing name previous now (record rt { current = some name }) refl
after_reload-IsServing name now outside (some error) none rt serving h =
    let no : true ≡ false = sym serving.has_current ∙ ap is_some h in cc
after_reload-IsServing name now outside (some error) (some p) rt serving h =
    let back = record rt { current = some p } in
    after_rollback-IsServing name p error now outside.rollback_error back
      (record {
        has_current = refl;
        has_good = serving.has_good;
        sound_current = subst (λ l. IsSoundLink rt l) h serving.sound_current;
        sound_good = serving.sound_good;
      })
      refl

pub deploy-IsServing :
    (name : String) (now : ℕ) (outside : Outside) (rt : Runtime)
    → IsServing rt
    → IsServing (deploy_config_snapshot name now outside rt).0
unfolding deploy_config_snapshot
deploy-IsServing name now outside rt serving =
    let begun = with_status-IsServing name staged none now rt serving in
    elim (Bool-cases outside.staged) [
      | inr unstaged ↦ rw unstaged begun
      | inl is_staged ↦ elim (Bool-cases outside.valid) [
        | inr invalid ↦ rw (is_staged, invalid) begun
        | inl is_valid ↦
            rw (is_staged, is_valid)
              (after_reload-IsServing name now outside outside.reload_error rt.current
                (with_status name validated rt.current now rt)
                (with_status-IsServing name validated rt.current now rt serving) refl)
      ]
    ]

with_current_lem :
    (now : ℕ) (current : Option String) (rt : Runtime)
    → rt.current ≡ current
    → IsSoundLink rt rt.current
    → IsSoundLink rt rt.last_known_good
    → (is_some (with_current now current rt).current ≡ true)
      × IsSoundLink (with_current now current rt) (with_current now current rt).current
      × IsSoundLink (with_current now current rt) (with_current now current rt).last_known_good
with_current_lem now none rt h c g = (
  refl,
  with_status_new "bootstrap" bootstrap none now rt,
  with_status_keeps "bootstrap" bootstrap none now rt rt.last_known_good g,
)
with_current_lem now (some name) rt h c g = (ap is_some h, c, g)

with_good_lem :
    (last_good : Option String) (rt : Runtime)
    → rt.last_known_good ≡ last_good
    → is_some rt.current ≡ true
    → IsSoundLink rt rt.current
    → IsSoundLink rt rt.last_known_good
    → IsServing (with_good last_good rt)
with_good_lem none rt h has c g = record {
  has_current = has;
  has_good = has;
  sound_current = c;
  sound_good = c;
}
with_good_lem (some name) rt h has c g = record {
  has_current = has;
  has_good = ap is_some h;
  sound_current = c;
  sound_good = g;
}

laid_out-IsServing :
    (now : ℕ) (rt : Runtime)
    → IsSoundLink rt rt.current
    → IsSoundLink rt rt.last_known_good
    → IsServing (laid_out now rt)
laid_out-IsServing now rt c g =
    let (has, c', g') = with_current_lem now rt.current rt refl c g in
    let linked = with_current now rt.current rt in
    with_good_lem linked.last_known_good linked refl has c' g'

ssl_phase-IsServing :
    (reload : Reload) (now : ℕ) (rt : Runtime) (result : Checked DeployError ActivatedRelease)
    → IsServing rt
    → IsServing (ssl_phase reload now (rt, result)).0
ssl_phase-IsServing reload now rt (fail e) serving = serving
ssl_phase-IsServing reload now rt (good http) serving =
    deploy-IsServing reload.ssl_name (suc now) reload.ssl rt serving

after_layout-IsServing :
    (reload : Reload) (now : ℕ) (rt : Runtime) (done : Bool)
    → IsServing rt
    → IsServing (after_layout reload now (rt, done)).0
after_layout-IsServing reload now rt false serving = serving
after_layout-IsServing reload now rt true serving =
    let first = deploy_config_snapshot reload.http_name now reload.http rt in
    elim (Bool-cases reload.entries_read) [
      | inr unread ↦ rw unread serving
      | inl is_read ↦ rw is_read (
          ssl_phase-IsServing reload now first.0 first.1
            (deploy-IsServing reload.http_name now reload.http rt serving))
    ]

-- From a runtime directory whose links, where they are there, lead to releases that are, and where both
-- are there or the layout succeeds, a reload ends with both links in place, each of them leading to a
-- release that is there: whatever the entries, the staging, the validation and the two reloads of nginx
-- in a deployment come to, and, with both links there, the layout too. The writes after a validation are
-- taken to succeed.
pub reload_config-IsServing :
    (now : ℕ) (reload : Reload) (rt : Runtime)
    → IsSoundLink rt rt.current
    → IsSoundLink rt rt.last_known_good
    → lays_out reload.layout rt ≡ true
    → IsServing (reload_config now reload rt).0
unfolding reload_config
reload_config-IsServing now reload rt c g h =
    let (ready, done) = ensure_runtime_layout now reload.layout rt in
    let same : ready ≡ laid_out now rt = ensure_runtime_layout_lem now reload.layout rt h in
    after_layout-IsServing reload now ready done
      (subst IsServing (sym same) (laid_out-IsServing now rt c g))
