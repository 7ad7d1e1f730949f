-- ===== src/Cluster/LeaseService/Methods.antt =====
-- The lease methods of DistributedLockService. A method whose query is awaited is two functions,
-- what it does with the answer being the second, since other calls may run in between; `now` is
-- Date.now() where the answer is handled. The third component of a result is the table.
use lyttle_nginx.Prelude.{
  ℕ, String, Bool, true, false, not, ◌&&◌, Option, none, some, List, [], ◌∷◌, leb, ◌==◌,
  if◌then◌else◌, or_else, is_some,
}
use lyttle_nginx.Prelude.Maps
use lyttle_nginx.Cluster.Lease.{
  ClusterLease, Candidate, select_lease, upsert_lease, renew_row, release_row, sql_eq,
}
use lyttle_nginx.Cluster.LeaseService.{
  LeaseEnv, LeaseSnapshot, AcquireLeaseOptions, HeldLease, LeaseService, Reply, answered, lost,
  refused, leader_lease_name, resolve_lease_ttl_seconds, to_lease_snapshot, track_held_lease,
  untrack_held_lease,
}

abbrev pub Rows : Type 0
Rows = List ClusterLease

-- What acquireLease does with the row that its statement returned.
unfoldable pub acquire_answered :
    LeaseEnv
    → String
    → AcquireLeaseOptions
    → Option ClusterLease
    → ℕ
    → LeaseService
    → Option LeaseSnapshot × LeaseService
unfolding to_lease_snapshot track_held_lease
acquire_answered env name options none now s = (none, s)
acquire_answered env name options (some row) now s =
    let snapshot = to_lease_snapshot s row now in
    (some snapshot, track_held_lease env name snapshot options s)

abbrev pub candidate : LeaseEnv → String → String → AcquireLeaseOptions → LeaseService → Candidate
candidate env id name options s = record {
  id = id;
  lease_name = name;
  instance_id = s.instance_id;
  hostname = s.hostname;
  ttl_seconds = resolve_lease_ttl_seconds env options.ttl_seconds;
}

unfoldable pub acquire_lease :
    LeaseEnv
    → String
    → String
    → AcquireLeaseOptions
    → Reply
    → ℕ
    → LeaseService
    → Rows
    → Option LeaseSnapshot × LeaseService × Rows
unfolding acquire_answered upsert_lease
acquire_lease env id name options (answered t) now s rows =
    let (rows', row) = upsert_lease rows (candidate env id name options s) t in
    let (result, s') = acquire_answered env name options row now s in (result, s', rows')
acquire_lease env id name options (lost t) now s rows =
    (none, s, (upsert_lease rows (candidate env id name options s) t).0)
acquire_lease env id name options refused now s rows = (none, s, rows)

abbrev pub renewal_options : HeldLease → AcquireLeaseOptions
renewal_options held = record {
  ttl_seconds = none;
  auto_renew = some held.auto_renew;
  renew_interval_ms = some held.renew_interval_ms;
}

-- What renewLease does with the row, for the lease that it read before the query.
unfoldable pub renew_answered :
    LeaseEnv
    → String
    → HeldLease
    → Option ClusterLease
    → ℕ
    → LeaseService
    → Option LeaseSnapshot × LeaseService
unfolding to_lease_snapshot track_held_lease untrack_held_lease
renew_answered env name held none now s = (none, untrack_held_lease name s)
renew_answered env name held (some row) now s =
    let snapshot = to_lease_snapshot s row now in
    (some snapshot, track_held_lease env name snapshot (renewal_options held) s)

unfoldable pub renew_held :
    LeaseEnv
    → String
    → Option ℕ
    → HeldLease
    → Reply
    → ℕ
    → LeaseService
    → Rows
    → Option LeaseSnapshot × LeaseService × Rows
unfolding renew_answered renew_row
renew_held env name ttl_seconds held (answered t) now s rows =
    let ttl = resolve_lease_ttl_seconds env (some (or_else ttl_seconds held.ttl_seconds)) in
    let (rows', row) = renew_row rows name s.instance_id held.generation ttl t in
    let (result, s') = renew_answered env name held row now s in (result, s', rows')
renew_held env name ttl_seconds held (lost t) now s rows =
    let ttl = resolve_lease_ttl_seconds env (some (or_else ttl_seconds held.ttl_seconds)) in
    (none, s, (renew_row rows name s.instance_id held.generation ttl t).0)
renew_held env name ttl_seconds held refused now s rows = (none, s, rows)

unfoldable pub renew_lease :
    LeaseEnv
    → String
    → Option ℕ
    → Reply
    → ℕ
    → LeaseService
    → Rows
    → Option LeaseSnapshot × LeaseService × Rows
unfolding renew_held
renew_lease env name ttl_seconds reply now s rows = elim (Maps.get name s.held_leases) [
  | none ↦ (none, s, rows)
  | some held ↦ renew_held env name ttl_seconds held reply now s rows
]

unfoldable pub release_held :
    String → HeldLease → Reply → LeaseService → Rows → Bool × LeaseService × Rows
unfolding release_row untrack_held_lease
release_held name held (answered t) s rows =
    let (rows', row) = release_row rows name s.instance_id held.generation t in
    (is_some row, untrack_held_lease name s, rows')
release_held name held (lost t) s rows =
    (false, untrack_held_lease name s, (release_row rows name s.instance_id held.generation t).0)
release_held name held refused s rows = (false, untrack_held_lease name s, rows)

unfoldable pub release_lease : String → Reply → LeaseService → Rows → Bool × LeaseService × Rows
unfolding release_held
release_lease name reply s rows = elim (Maps.get name s.held_leases) [
  | none ↦ (false, s, rows)
  | some held ↦ release_held name held reply s rows
]

-- A SELECT that fails, or whose answer is lost, reads as no lease.
unfoldable pub get_lease_snapshot : String → Reply → ℕ → LeaseService → Rows → Option LeaseSnapshot
unfolding select_lease to_lease_snapshot
get_lease_snapshot name (answered t) now s rows = elim (select_lease rows name) [
  | none ↦ none
  | some lease ↦ some (to_lease_snapshot s lease now)
]
get_lease_snapshot name (lost t) now s rows = none
get_lease_snapshot name refused now s rows = none

unfoldable pub validate_lease_fence_token :
    String → ℕ → Option String → Reply → ℕ → LeaseService → Rows → Bool
unfolding get_lease_snapshot
validate_lease_fence_token name expected owner reply now s rows =
    elim (get_lease_snapshot name reply now s rows) [
      | none ↦ false
      | some lease ↦
          not lease.is_expired
          && sql_eq lease.owner_node_id (or_else owner s.instance_id)
          && lease.generation == expected
    ]

unfoldable pub get_active_held_lease : String → ℕ → LeaseService → Option HeldLease × LeaseService
unfolding untrack_held_lease
get_active_held_lease name now s = elim (Maps.get name s.held_leases) [
  | none ↦ (none, s)
  | some held ↦
      if leb held.expires_at now then (none, untrack_held_lease name s) else (some held, s)
]

unfoldable pub is_leader : ℕ → LeaseService → Bool × LeaseService
unfolding get_active_held_lease
is_leader now s =
    let (held, s') = get_active_held_lease leader_lease_name now s in (is_some held, s')

abbrev pub leader_options : AcquireLeaseOptions
leader_options = record { ttl_seconds = none; auto_renew = some true; renew_interval_ms = none }

-- tryAcquireLeaderLock, and acquireLeaderLock, which differs from it by a log line.
unfoldable pub acquire_leader_lock :
    LeaseEnv → String → Reply → ℕ → LeaseService → Rows → Bool × LeaseService × Rows
unfolding acquire_lease
acquire_leader_lock env id reply now s rows =
    let (lease, s', rows') =
      acquire_lease env id leader_lease_name leader_options reply now s rows in
    (is_some lease, s', rows')

-- The second loop of releaseAllLocks, with the reply to each statement.
release_leases : List String → List Reply → LeaseService → Rows → LeaseService × Rows
unfolding release_lease
release_leases [] replies s rows = (s, rows)
release_leases (name ∷ names) [] s rows =
    let (_, s', rows') = release_lease name refused s rows in release_leases names [] s' rows'
release_leases (name ∷ names) (reply ∷ replies) s rows =
    let (_, s', rows') = release_lease name reply s rows in release_leases names replies s' rows'

unfoldable pub release_all_leases : List Reply → LeaseService → Rows → LeaseService × Rows
unfolding release_leases
release_all_leases replies s rows = release_leases (Maps.keys s.held_leases) replies s rows
