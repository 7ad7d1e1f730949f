-- ===== src/Tests/Reloader.antt =====
-- The reloader (src/reloader/reloader.service.ts) at concrete inputs.
use lyttle_nginx.Prelude.{◌≡◌, refl, true, none, some, is_some, [], ◌∷◌, keep, length, ◌-◌}
use lyttle_nginx.Prelude.Maps.{get}
use lyttle_nginx.Reloader.{
  active, Release, Runtime, is_candidate, stale_releases, prune_old_releases, Outside, built,
  Layout, Reload, reload_config, deploy_config_snapshot,
}
use lyttle_nginx.Reloader.Prune.{prune_keeps_used}
use lyttle_nginx.Reloader.Deploy.{links, settled_at, Rollout, deploy-Rollout}
use lyttle_nginx.Reloader.Serving.{IsServing, reload_config-IsServing}
use lyttle_nginx.Reloader.Agreement.{reload_config_agreed, reload_config_succeeded}

abbrev empty : Runtime
empty = record { releases = []; current = none; last_known_good = none; running = none }

abbrev one : Release
one = record { status = active; previous = none; modified_at = 1 }

abbrev running : Runtime
running = record {
  releases = ("a", one) ∷ [];
  current = some "a";
  last_known_good = some "a";
  running = some "a";
}

abbrev fine : Outside
fine = record { staged = true; valid = true; reload_error = none; rollback_error = none }

abbrev broken : Outside
broken = record fine { reload_error = some "no memory" }

abbrev laying_out : Layout
laying_out = record {
  directories_made = true;
  bootstrapping = built;
  current_linked = true;
  good_linked = true;
}

abbrev first_then_broken : Reload
first_then_broken = record {
  layout = laying_out;
  entries_read = true;
  http_name = "http";
  http = fine;
  ssl_name = "ssl";
  ssl = broken;
}

prune_keeps_used_example :
    (get "a" (Runtime.releases (prune_old_releases [] running)) ≡ some one)
    × (length (stale_releases (some "a" ∷ []) running.releases)
        ≡ length (keep (is_candidate (some "a" ∷ [])) running.releases) - 5)
unfolding get
prune_keeps_used_example = prune_keeps_used [] running "a" refl

deploy-Rollout_example :
    Rollout "b" broken
      (links running)
      (links (deploy_config_snapshot "b" 2 broken running).0)
      (deploy_config_snapshot "b" 2 broken running).1
deploy-Rollout_example = deploy-Rollout "b" 2 broken running

reload_config-IsServing_example : IsServing (reload_config 5 first_then_broken running).0
unfolding get
reload_config-IsServing_example = reload_config-IsServing 5 first_then_broken running refl refl refl

reload_config_agreed_example :
    (Runtime.current (reload_config 5 first_then_broken empty).0
      ≡ Runtime.last_known_good (reload_config 5 first_then_broken empty).0)
    × (is_some (Runtime.current (reload_config 5 first_then_broken empty).0) ≡ true)
reload_config_agreed_example = reload_config_agreed 5 first_then_broken empty refl refl

reload_config_succeeded_example :
    let reload = record first_then_broken { ssl = fine } in
    (links (reload_config 5 reload empty).0 ≡ settled_at "ssl") × ("ssl" ≡ Reload.ssl_name reload)
unfolding reload_config
reload_config_succeeded_example =
    reload_config_succeeded 5 (record first_then_broken { ssl = fine }) empty "ssl" refl
