-- ===== src/Tests/LateReply.antt =====
-- A reply to renewLease that is handled after releaseLease (src/distributed-lock/distributed-lock.service.ts),
-- at concrete inputs. Outside the order of calls of Cluster.LeaseService.Leadership, two nodes believe.
use lyttle_nginx.Prelude.{◌≡◌, refl, String, true, none, some, is_some, []}
use lyttle_nginx.Prelude.Maps
use lyttle_nginx.Cluster.Lease.{renew_row, upsert_lease, release_row}
use lyttle_nginx.Cluster.LeaseService.{
  LeaseEnv, LeaseService, answered, resolve_lease_ttl_seconds, to_lease_snapshot, track_held_lease,
}
use lyttle_nginx.Cluster.LeaseService.Methods.{
  Rows, acquire_lease, renew_answered, release_lease, get_active_held_lease,
}
use lyttle_nginx.Cluster.LeaseService.Calls.{default_ttl}

abbrev plain : LeaseEnv
plain = record { cluster_lease_ttl_seconds = none; cluster_lease_renew_interval_ms = none }

abbrev node : String → LeaseService
node id = record {
  instance_id = id;
  hostname = "host";
  held_leases = [];
  timers = [];
  next_timer = 0;
}

abbrev acquired_by : String → String → Rows → LeaseService × Rows
acquired_by id row rows =
    let (result, s, rows') =
      acquire_lease plain row "job" (default_ttl none none) (answered 1000) 1000 (node id) rows in
    (s, rows')

abbrev first : LeaseService × Rows
first = acquired_by "a" "row" []

-- The UPDATE of the renewal runs, the release runs and is answered, and then the renewal is.
abbrev renewed_late : LeaseService × Rows
renewed_late =
    let (s, rows) = first in
    let (rows', row) = renew_row rows "job" "a" 1 30 1000 in
    let (released, s', rows'') = release_lease "job" (answered 1000) s rows' in
    elim (Maps.get "job" s.held_leases) [
      | none ↦ (s', rows'')
      | some held ↦ ((renew_answered plain "job" held row 1000 s').1, rows'')
    ]

two_believe :
    (is_some (get_active_held_lease "job" 1000 renewed_late.0).0 ≡ true)
    × (is_some (get_active_held_lease "job" 1000 (acquired_by "b" "other" renewed_late.1).0).0
        ≡ true)
unfolding Maps.get Maps.insert Maps.delete acquire_lease renew_answered release_lease
    get_active_held_lease renew_row upsert_lease resolve_lease_ttl_seconds to_lease_snapshot
    track_held_lease release_row
two_believe = (refl, refl)
