-- ===== src/Cluster/LeaseService.antt =====
-- The leases of DistributedLockService (src/distributed-lock/distributed-lock.service.ts): what a
-- node holds locally, and the methods that run the statements of `Cluster.Lease`.
pub mod Methods
pub mod Backing
pub mod Sound
pub mod Calls
pub mod Leadership
use lyttle_nginx.Prelude.{
  ℕ, zero, suc, ◌+◌, ◌*◌, ◌/◌, String, Bool, true, false, not, ◌&&◌, Option, none, some, List, [],
  ◌∷◌, keep, leb, ◌==◌, str_eq, if◌then◌else◌, or_else, or_option, is_some,
}
use lyttle_nginx.Prelude.Maps
use lyttle_nginx.Prelude.Numbers.{ℤ, pos, negsuc, parse_int, at_least}
use lyttle_nginx.Prelude.Texts.{Text}
use lyttle_nginx.Cluster.Lease.{
  ClusterLease, Candidate, select_lease, upsert_lease, renew_row, release_row, sql_eq,
}

abbrev pub leader_lease_name : String
leader_lease_name = "cluster:leader"

abbrev pub default_lease_ttl_seconds : ℕ
default_lease_ttl_seconds = 30

abbrev pub min_lease_ttl_seconds : ℕ
min_lease_ttl_seconds = 5

abbrev pub min_renew_interval_ms : ℕ
min_renew_interval_ms = 1000

-- The two variables of the process environment that the service reads.
pub record LeaseEnv : Type 0 where
  pub cluster_lease_ttl_seconds : Option Text
  pub cluster_lease_renew_interval_ms : Option Text

pub record LeaseSnapshot : Type 0 where
  pub lease_name : String
  pub owner_node_id : Option String
  pub owner_hostname : Option String
  pub generation : ℕ
  pub ttl_seconds : ℕ
  pub acquired_at : ℕ
  pub renewed_at : ℕ
  pub expires_at : ℕ
  pub is_expired : Bool
  pub is_held_by_this_instance : Bool
  pub fencing_token : ℕ

pub record AcquireLeaseOptions : Type 0 where
  pub ttl_seconds : Option ℕ
  pub auto_renew : Option Bool
  pub renew_interval_ms : Option ℕ

pub record HeldLease : Type 0 where
  pub snapshot : LeaseSnapshot
  pub open snapshot use *
  pub auto_renew : Bool
  pub renew_interval_ms : ℕ
  pub renewal_timer : Option ℕ

-- `timers` are the intervals that run, each with the lease that its callback renews; handles are
-- given out in order.
pub record LeaseService : Type 0 where
  pub instance_id : String
  pub hostname : String
  pub held_leases : List (String × HeldLease)
  pub timers : List (ℕ × String)
  pub next_timer : ℕ

-- A statement is run at a database time and answered, run and its answer lost, or not run.
pub data Reply : Type 0 where
  answered : ℕ → Reply
  lost : ℕ → Reply
  refused : Reply

-- A numeric argument is its own decimal text (below 10 ^ 21), so parsing it gives it back.
pub configured : Option ℕ → Option Text → Option ℤ
configured (some n) variable = some (pos n)
configured none (some text) = parse_int text
configured none none = none

abbrev pub accept : ℕ → ℕ → Option ℤ → ℕ
accept least default (some (pos n)) = if at_least least (pos n) then n else default
accept least default (some (negsuc n)) = default
accept least default none = default

unfoldable pub resolve_lease_ttl_seconds : LeaseEnv → Option ℕ → ℕ
unfolding configured at_least parse_int
resolve_lease_ttl_seconds env ttl_seconds =
    accept min_lease_ttl_seconds default_lease_ttl_seconds
      (configured ttl_seconds env.cluster_lease_ttl_seconds)

abbrev max_ℕ : ℕ → ℕ → ℕ
max_ℕ a b = if leb a b then b else a

unfoldable pub resolve_renew_interval_ms : LeaseEnv → ℕ → Option ℕ → ℕ
unfolding configured at_least parse_int
resolve_renew_interval_ms env ttl_seconds renew_interval_ms =
    accept min_renew_interval_ms (max_ℕ min_renew_interval_ms (ttl_seconds * 1000 / 3))
      (configured renew_interval_ms env.cluster_lease_renew_interval_ms)

unfoldable pub to_lease_snapshot : LeaseService → ClusterLease → ℕ → LeaseSnapshot
to_lease_snapshot s lease now = record {
  lease_name = lease.lease_name;
  owner_node_id = lease.owner_node_id;
  owner_hostname = lease.owner_hostname;
  generation = lease.generation;
  ttl_seconds = lease.ttl_seconds;
  acquired_at = lease.acquired_at;
  renewed_at = lease.renewed_at;
  expires_at = lease.expires_at;
  is_expired = leb lease.expires_at now;
  is_held_by_this_instance = sql_eq lease.owner_node_id s.instance_id;
  fencing_token = lease.generation;
}

abbrev timer_of : Option HeldLease → Option ℕ
timer_of none = none
timer_of (some held) = held.renewal_timer

abbrev auto_renew_of : Option HeldLease → Option Bool
auto_renew_of none = none
auto_renew_of (some held) = some held.auto_renew

abbrev interval_of : Option HeldLease → Option ℕ
interval_of none = none
interval_of (some held) = some held.renew_interval_ms

-- clearInterval
unfoldable pub clear_interval : Option ℕ → List (ℕ × String) → List (ℕ × String)
clear_interval none timers = timers
clear_interval (some handle) timers = keep (λ t. not (t.0 == handle)) timers

unfoldable pub track_held_lease :
    LeaseEnv → String → LeaseSnapshot → AcquireLeaseOptions → LeaseService → LeaseService
unfolding clear_interval
track_held_lease env name snapshot options s =
    let existing = Maps.get name s.held_leases in
    let cleared = clear_interval (timer_of existing) s.timers in
    let auto_renew = or_else (or_option options.auto_renew (auto_renew_of existing)) false in
    let interval =
      resolve_renew_interval_ms env snapshot.ttl_seconds
        (or_option options.renew_interval_ms (interval_of existing)) in
    let held : HeldLease = record {
      snapshot = snapshot;
      auto_renew = auto_renew;
      renew_interval_ms = interval;
      renewal_timer = if auto_renew then some s.next_timer else none;
    } in
    record s {
      held_leases = Maps.insert name held s.held_leases;
      timers = if auto_renew then (s.next_timer, name) ∷ cleared else cleared;
      next_timer = if auto_renew then s.next_timer + 1 else s.next_timer;
    }

unfoldable pub untrack_held_lease : String → LeaseService → LeaseService
unfolding clear_interval
untrack_held_lease name s = record s {
  held_leases = Maps.delete name s.held_leases;
  timers = clear_interval (timer_of (Maps.get name s.held_leases)) s.timers;
}
