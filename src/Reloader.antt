-- ===== src/Reloader.antt =====
-- The staged releases of the nginx configuration (src/reloader/reloader.service.ts). The runtime
-- directory is a list of releases by name with two symbolic links; a path below the releases'
-- directory is the name of its release. Commands and the rest of the file system are parameters of
-- one deployment: what they answer is an argument. Once a release is found valid, the writes of its
-- metadata and links, and the pruning, are taken to succeed.
pub mod Prune
pub mod LayingOut
pub mod Deploy
pub mod Serving
pub mod Agreement
use lyttle_nginx.Prelude.{
  ℕ, zero, suc, ◌+◌, String, Bool, true, false, not, ◌&&◌, ◌||◌, Option, none, some, List, [], ◌∷◌,
  any, keep, leb, str_eq, is_some, if◌then◌else◌,
}
use lyttle_nginx.Prelude.Maps.{get, insert, delete, keys}
use lyttle_nginx.Prelude.Results.{Checked, good, fail}

pub data Status : Type 0 where
  bootstrap staged validated active rolled_back : Status

-- A release's directory: the metadata's status and previous release, and its time of modification.
pub record Release : Type 0 where
  pub status : Status
  pub previous : Option String
  pub modified_at : ℕ

-- `running` is the release that nginx loaded last.
pub record Runtime : Type 0 where
  pub releases : List (String × Release)
  pub current : Option String
  pub last_known_good : Option String
  pub running : Option String

abbrev pub retention_count : ℕ
retention_count = 5

-- How createBootstrapRelease ends: the release is built, or one of its steps throws, and what is left
-- of the directory, if anything is, is what the outside says.
pub data Bootstrapping : Type 0 where
  built : Bootstrapping
  broken : Option Release → Bootstrapping

-- What the outside answers to ensureRuntimeLayout: whether the directories are made and the links
-- read, how the bootstrap release is built, and whether each of the two links is written.
pub record Layout : Type 0 where
  pub directories_made : Bool
  pub bootstrapping : Bootstrapping
  pub current_linked : Bool
  pub good_linked : Bool

-- The Boolean of these results says that nothing was thrown.
abbrev pub create_bootstrap_release : ℕ → Bootstrapping → Runtime → Runtime × Bool
create_bootstrap_release now built rt = (
  record rt {
    releases =
        insert "bootstrap" (record { status = bootstrap; previous = none; modified_at = now })
          rt.releases;
  },
  true,
)
create_bootstrap_release now (broken none) rt =
    (record rt { releases = delete "bootstrap" rt.releases }, false)
create_bootstrap_release now (broken (some left)) rt =
    (record rt { releases = insert "bootstrap" left rt.releases }, false)

abbrev pub link_bootstrap : Bool → Runtime × Bool → Runtime × Bool
link_bootstrap linked (rt, false) = (rt, false)
link_bootstrap linked (rt, true) =
    if linked then (record rt { current = some "bootstrap" }, true) else (rt, false)

abbrev pub link_current : ℕ → Layout → Option String → Runtime → Runtime × Bool
link_current now layout none rt =
    link_bootstrap layout.current_linked (create_bootstrap_release now layout.bootstrapping rt)
link_current now layout (some name) rt = (rt, true)

abbrev pub link_good : Bool → Option String → Runtime → Runtime × Bool
link_good linked none rt =
    if linked then (record rt { last_known_good = rt.current }, true) else (rt, false)
link_good linked (some name) rt = (rt, true)

abbrev pub after_current : Layout → Runtime × Bool → Runtime × Bool
after_current layout (rt, false) = (rt, false)
after_current layout (rt, true) = link_good layout.good_linked rt.last_known_good rt

-- reloadConfig makes the directory of the logs just before.
unfoldable pub ensure_runtime_layout : ℕ → Layout → Runtime → Runtime × Bool
unfolding insert delete
ensure_runtime_layout now layout rt =
    if layout.directories_made
    then after_current layout (link_current now layout rt.current rt)
    else (rt, false)

-- The releases that may be pruned.
abbrev pub is_protected : List (Option String) → String → Bool
is_protected [] name = false
is_protected (none ∷ names) name = is_protected names name
is_protected (some n ∷ names) name = str_eq n name || is_protected names name

abbrev pub is_candidate : List (Option String) → String × Release → Bool
is_candidate retained (name, release) =
    not (str_eq name "bootstrap") && not (is_protected retained name)

-- The stable sort by time, the newest first.
unfoldable pub place : String × Release → List (String × Release) → List (String × Release)
place r [] = r ∷ []
place r (s ∷ rs) =
    let rest = place r rs in if leb s.1.modified_at r.1.modified_at then r ∷ s ∷ rs else s ∷ rest

unfoldable pub newest_first : List (String × Release) → List (String × Release)
unfolding place
newest_first [] = []
newest_first (r ∷ rs) = place r (newest_first rs)

-- `slice(count)`
abbrev pub skip : ℕ → List (String × Release) → List (String × Release)
skip zero rs = rs
skip (suc n) [] = []
skip (suc n) (r ∷ rs) = skip n rs

abbrev pub stale_releases : List (Option String) → List (String × Release) → List (String × Release)
stale_releases retained releases =
    skip retention_count (newest_first (keep (is_candidate retained) releases))

-- The directories that are left when these are removed.
abbrev pub remove_all : List (String × Release) → List (String × Release) → List (String × Release)
remove_all [] releases = releases
remove_all (r ∷ rs) releases = delete r.0 (remove_all rs releases)

unfoldable pub prune_old_releases : List (Option String) → Runtime → Runtime
unfolding newest_first delete
prune_old_releases retained rt = record rt {
  releases = remove_all (stale_releases (rt.last_known_good ∷ retained) rt.releases) rt.releases;
}

-- What the outside answers in one deployment: whether the staged files are written and found valid
-- by `nginx -t`, and the messages of the two reloads, where they fail.
pub record Outside : Type 0 where
  pub staged : Bool
  pub valid : Bool
  pub reload_error : Option String
  pub rollback_error : Option String

pub data DeployError : Type 0 where
  not_staged not_valid : DeployError
  no_previous_release : String → DeployError
  rolled_back_to : String → String → DeployError
  rollback_failed : String → String → String → DeployError

pub record ActivatedRelease : Type 0 where
  pub release_id : String
  pub previous_release_id : Option String

abbrev pub with_status : String → Status → Option String → ℕ → Runtime → Runtime
with_status name status previous now rt = record rt {
  releases =
      insert name (record { status = status; previous = previous; modified_at = now }) rt.releases;
}

abbrev pub after_rollback :
    String
    → String
    → String
    → ℕ
    → Option String
    → Runtime
    → Runtime × Checked DeployError ActivatedRelease
after_rollback failed previous error now (some e) rt = (rt, fail (rollback_failed previous error e))
after_rollback failed previous error now none rt = (
  with_status failed rolled_back (some previous) now (record rt { running = some previous }),
  fail (rolled_back_to previous error),
)

unfoldable pub rollback_activation :
    Option String
    → String
    → String
    → ℕ
    → Option String
    → Runtime
    → Runtime × Checked DeployError ActivatedRelease
unfolding insert
rollback_activation none failed error now rollback_error rt = (rt, fail (no_previous_release error))
rollback_activation (some previous) failed error now rollback_error rt =
    after_rollback failed previous error now rollback_error (record rt { current = some previous })

abbrev pub activated :
    String → Option String → ℕ → Runtime → Runtime × Checked DeployError ActivatedRelease
activated name previous now rt = (
  prune_old_releases (some name ∷ previous ∷ []) (
      with_status name active previous now
        (record rt { running = some name; last_known_good = some name })),
  good (record { release_id = name; previous_release_id = previous }),
)

abbrev pub after_reload :
    String
    → Option String
    → ℕ
    → Outside
    → Option String
    → Runtime
    → Runtime × Checked DeployError ActivatedRelease
after_reload name previous now outside (some error) rt =
    rollback_activation previous name error now outside.rollback_error rt
after_reload name previous now outside none rt = activated name previous now rt

-- `name` is createReleaseId's; an activation that failed without an exception does not exist:
-- rollbackActivation always throws.
unfoldable pub deploy_config_snapshot :
    String → ℕ → Outside → Runtime → Runtime × Checked DeployError ActivatedRelease
unfolding rollback_activation prune_old_releases insert
deploy_config_snapshot name now outside rt =
    if not outside.staged
    then (with_status name staged none now rt, fail not_staged)
    else if not outside.valid
    then (with_status name staged none now rt, fail not_valid)
    else after_reload name rt.current now outside outside.reload_error
        (record (with_status name validated rt.current now rt) { current = some name })

-- The health service's record of the last application.
pub data ConfigApply : Type 0 where
  succeeded : String → ConfigApply
  failed : ConfigApply

-- What happens between and around the two deployments: the answers to the layout, whether the entries
-- are read and their directories made, and the answers of the two.
pub record Reload : Type 0 where
  pub layout : Layout
  pub entries_read : Bool
  pub http_name : String
  pub http : Outside
  pub ssl_name : String
  pub ssl : Outside

abbrev pub apply_of : Checked DeployError ActivatedRelease → ConfigApply
apply_of (fail e) = failed
apply_of (good release) = succeeded release.release_id

abbrev pub ssl_phase :
    Reload → ℕ → Runtime × Checked DeployError ActivatedRelease → Runtime × ConfigApply
ssl_phase reload now (rt, fail e) = (rt, failed)
ssl_phase reload now (rt, good http) =
    let (rt', result) = deploy_config_snapshot reload.ssl_name (suc now) reload.ssl rt in
    (rt', apply_of result)

abbrev pub after_layout : Reload → ℕ → Runtime × Bool → Runtime × ConfigApply
after_layout reload now (rt, false) = (rt, failed)
after_layout reload now (rt, true) =
    if reload.entries_read
    then ssl_phase reload now (deploy_config_snapshot reload.http_name now reload.http rt)
    else (rt, failed)

-- reloadConfig; the certificates that it asks for between the phases change none of this state, and
-- their errors are caught.
unfoldable pub reload_config : ℕ → Reload → Runtime → Runtime × ConfigApply
unfolding ensure_runtime_layout deploy_config_snapshot
reload_config now reload rt = after_layout reload now (ensure_runtime_layout now reload.layout rt)
