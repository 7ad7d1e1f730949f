-- ===== src/Cluster/Heartbeat.antt =====
-- The nodes' table and the leader flags in it (src/distributed-lock/cluster-heartbeat.service.ts). One
-- call runs at one time `now`, which its clock and the database share, and its statements are
-- answered. Of a row's columns, those that only describe the node are left out.
pub mod Flags
pub mod Unique
pub mod View
pub mod Reachable
pub mod Election
use lyttle_nginx.Prelude.{
  ℕ, ◌+◌, String, Bool, true, false, not, ◌&&◌, ◌||◌, Option, none, some, is_some, List, [], ◌∷◌,
  ◌++◌, any, keep, length, map, ltb, str_eq, if◌then◌else◌,
}
use lyttle_nginx.Cluster.Lease.{sql_eq}
use lyttle_nginx.Cluster.LeaseService.{
  LeaseEnv, LeaseSnapshot, LeaseService, answered, leader_lease_name,
}
use lyttle_nginx.Cluster.LeaseService.Methods.{
  Rows, get_lease_snapshot, is_leader, acquire_leader_lock, release_lease,
}

abbrev pub stale_threshold_ms : ℕ
stale_threshold_ms = 45000

abbrev pub delete_threshold_ms : ℕ
delete_threshold_ms = 3600000

pub data NodeStatus : Type 0 where
  active stale inactive : NodeStatus

abbrev pub is_active : NodeStatus → Bool
is_active active = true
is_active stale = false
is_active inactive = false

pub record ClusterNode : Type 0 where
  pub instance_id : String
  pub hostname : String
  pub ip_address : Option String
  pub is_leader : Bool
  pub last_heartbeat : ℕ
  pub status : NodeStatus

-- One node's lock service, and the two tables.
pub record Cluster : Type 0 where
  pub service : LeaseService
  pub leases : Rows
  pub nodes : List ClusterNode

-- The column "instanceId" is unique.
unfoldable pub find_node : List ClusterNode → String → Option ClusterNode
find_node [] id = none
find_node (n ∷ ns) id = if str_eq n.instance_id id then some n else find_node ns id

-- UPDATE … WHERE "instanceId" = id
unfoldable pub update_node :
    (ClusterNode → ClusterNode) → String → List ClusterNode → List ClusterNode
update_node change id [] = []
update_node change id (n ∷ ns) =
    let rest = update_node change id ns in
    if str_eq n.instance_id id then change n ∷ rest else n ∷ rest

pub data Issue : Type 0 where
  no_lease lease_expired lease_owner_missing lease_owner_not_active : Issue

pub record LeaderLeaseState : Type 0 where
  pub lease : Option LeaseSnapshot
  pub has_active_lease : Bool
  pub owner_node : Option ClusterNode
  pub active_leader_node : Option ClusterNode
  pub issues : List Issue

abbrev pub lease_active : Option LeaseSnapshot → Bool
lease_active none = false
lease_active (some lease) = not lease.is_expired && is_some lease.owner_node_id

abbrev owner_row : Option LeaseSnapshot → List ClusterNode → Option ClusterNode
owner_row none nodes = none
owner_row (some lease) nodes = elim (lease.owner_node_id) [
  | none ↦ none
  | some owner ↦ find_node nodes owner
]

abbrev pub if_active : Option ClusterNode → Option ClusterNode
if_active none = none
if_active (some n) = if is_active n.status then some n else none

abbrev lease_issues : Option LeaseSnapshot → List Issue
lease_issues none = no_lease ∷ []
lease_issues (some lease) =
    if lease.is_expired || not (is_some lease.owner_node_id) then lease_expired ∷ [] else []

abbrev owner_issues : Bool → Option ClusterNode → List Issue
owner_issues has_active none = if has_active then lease_owner_missing ∷ [] else []
owner_issues has_active (some n) = if is_active n.status then [] else lease_owner_not_active ∷ []

unfoldable pub get_leader_lease_state : ℕ → Cluster → LeaderLeaseState
unfolding get_lease_snapshot find_node
get_leader_lease_state now c =
    let lease = get_lease_snapshot leader_lease_name (answered now) now c.service c.leases in
    let owner = if lease_active lease then owner_row lease c.nodes else none in
    record {
      lease = lease;
      has_active_lease = lease_active lease;
      owner_node = owner;
      active_leader_node = if_active owner;
      issues = lease_issues lease ++ owner_issues (lease_active lease) owner;
    }

abbrev pub owned_by : Option LeaseSnapshot → String → Bool
owned_by none id = false
owned_by (some lease) id = sql_eq lease.owner_node_id id

-- The flag of each row after the two updates of reconcileLeaderFlagsFromLease.
abbrev pub flagged : Option ClusterNode → ClusterNode → ClusterNode
flagged none n = record n { is_leader = false }
flagged (some leader) n = record n { is_leader = str_eq n.instance_id leader.instance_id }

unfoldable pub reconcile_leader_flags : LeaderLeaseState → List ClusterNode → List ClusterNode
reconcile_leader_flags state nodes = map (flagged state.active_leader_node) nodes

unfoldable pub enforce_one_leader : ℕ → Cluster → Cluster
unfolding get_leader_lease_state reconcile_leader_flags
enforce_one_leader now c = record c {
  nodes = reconcile_leader_flags (get_leader_lease_state now c) c.nodes;
}

-- The view that getActiveNodes gives of the flags.
abbrev pub viewed : LeaderLeaseState → ClusterNode → ClusterNode
viewed state n = record n {
  is_leader = state.has_active_lease && is_active n.status && owned_by state.lease n.instance_id;
}

unfoldable pub apply_lease_leadership : LeaderLeaseState → List ClusterNode → List ClusterNode
apply_lease_leadership state nodes = map (viewed state) nodes

unfoldable pub get_active_nodes : ℕ → Cluster → List ClusterNode
unfolding apply_lease_leadership get_leader_lease_state
get_active_nodes now c =
    apply_lease_leadership (get_leader_lease_state now c) (keep (λ n. is_active n.status) c.nodes)

abbrev pub registered : String → Option String → ℕ → ClusterNode → ClusterNode
registered hostname ip now n = record n {
  hostname = hostname;
  ip_address = ip;
  last_heartbeat = now;
  status = active;
}

-- The upsert: a new row is no leader, an old one keeps its flag.
unfoldable pub register_node : Option String → ℕ → Cluster → Cluster
unfolding find_node update_node
register_node ip now c =
    let id = c.service.instance_id in
    if is_some (find_node c.nodes id)
    then record c { nodes = update_node (registered c.service.hostname ip now) id c.nodes }
    else record c {
      nodes =
          record {
            instance_id = id;
            hostname = c.service.hostname;
            ip_address = ip;
            is_leader = false;
            last_heartbeat = now;
            status = active;
          }
          ∷ c.nodes;
    }

abbrev pub has_issues : List Issue → Bool
has_issues [] = false
has_issues (i ∷ is) = true

abbrev pub beat : Option String → ℕ → Bool → ClusterNode → ClusterNode
beat ip now leads n = record n {
  last_heartbeat = now;
  ip_address = ip;
  is_leader = leads;
  status = active;
}

unfoldable pub beaten : Option String → ℕ → Bool → Cluster → Cluster
unfolding update_node
beaten ip now leads c = record c {
  nodes = update_node (beat ip now leads) c.service.instance_id c.nodes;
}

-- The update throws where the row is gone; the error is caught and the rest left out.
unfoldable pub send_heartbeat : Option String → ℕ → Cluster → Cluster
unfolding get_leader_lease_state find_node beaten enforce_one_leader
send_heartbeat ip now c =
    let id = c.service.instance_id in
    let state = get_leader_lease_state now c in
    let leads = state.has_active_lease && owned_by state.lease id in
    if is_some (find_node c.nodes id)
    then (if leads || has_issues state.issues
        then enforce_one_leader now (beaten ip now leads c)
        else beaten ip now leads c)
    else c

abbrev pub release_leader_lock : ℕ → Cluster → Cluster
release_leader_lock now c =
    let (_, service, leases) = release_lease leader_lease_name (answered now) c.service c.leases in
    record c { service = service; leases = leases }

abbrev pub checked_leader : ℕ → Cluster → Bool × Cluster
checked_leader now c =
    let (leads, service) = is_leader now c.service in (leads, record c { service = service })

abbrev pub signed_off : ℕ → ClusterNode → ClusterNode
signed_off now n = record n { status = inactive; is_leader = false; last_heartbeat = now }

abbrev pub freed : ℕ → Cluster → Cluster
freed now c =
    let (leads, checked) = checked_leader now c in
    if leads then release_leader_lock now checked else checked

unfoldable pub unregister_node : ℕ → Cluster → Cluster
unfolding update_node is_leader release_lease
unregister_node now c = record (freed now c) {
  nodes = update_node (signed_off now) c.service.instance_id c.nodes;
}

-- `lastHeartbeat < now - threshold`
abbrev pub older : ℕ → ℕ → ClusterNode → Bool
older threshold now n = ltb (n.last_heartbeat + threshold) now

abbrev pub marked_stale : ℕ → ClusterNode → ClusterNode
marked_stale now n =
    if older stale_threshold_ms now n && is_active n.status
    then record n { status = stale; is_leader = false }
    else n

unfoldable pub delete_old_nodes : ℕ → List ClusterNode → List ClusterNode
delete_old_nodes now nodes =
    keep (λ n. not (older delete_threshold_ms now n && not (is_active n.status))) nodes

-- The UPDATE of no row is left out where no row is stale; it would change none.
unfoldable pub cleanup_stale_nodes : ℕ → Cluster → Cluster
unfolding enforce_one_leader delete_old_nodes
cleanup_stale_nodes now c =
    let enforced = enforce_one_leader now (record c { nodes = map (marked_stale now) c.nodes }) in
    record enforced { nodes = delete_old_nodes now enforced.nodes }

abbrev pub take_leader_lock : LeaseEnv → String → ℕ → Cluster → Bool × Cluster
take_leader_lock env lease_id now c =
    let (acquired, service, leases) =
      acquire_leader_lock env lease_id (answered now) now c.service c.leases in
    (acquired, record c { service = service; leases = leases })

-- A local belief that the table contradicts is dropped.
unfoldable pub drop_stale_belief : ℕ → Cluster → Cluster
unfolding get_leader_lease_state is_leader release_lease
drop_stale_belief now c =
    let state = get_leader_lease_state now c in
    let (leads, checked) = checked_leader now c in
    if leads && state.has_active_lease && not (owned_by state.lease c.service.instance_id)
    then release_leader_lock now checked
    else checked

-- `lease_id` is the id of a new row of the leases.
unfoldable pub ensure_leader_exists : LeaseEnv → String → ℕ → Cluster → Cluster
unfolding drop_stale_belief enforce_one_leader acquire_leader_lock
ensure_leader_exists env lease_id now c =
    if any (λ n. is_active n.status) c.nodes
    then (let checked = drop_stale_belief now c in
        if (get_leader_lease_state now c).has_active_lease
        then enforce_one_leader now checked
        else enforce_one_leader now (take_leader_lock env lease_id now checked).1)
    else c

abbrev pub after_election : ℕ → Bool × Cluster → Bool × Cluster
after_election now (true, c) = (true, enforce_one_leader now c)
after_election now (false, c) = (false, c)

unfoldable pub try_become_leader : LeaseEnv → String → ℕ → Cluster → Bool × Cluster
unfolding get_leader_lease_state enforce_one_leader acquire_leader_lock
try_become_leader env lease_id now c =
    let state = get_leader_lease_state now c in
    if state.has_active_lease
    then (if owned_by state.lease c.service.instance_id
        then (true, enforce_one_leader now c)
        else (false, c))
    else after_election now (take_leader_lock env lease_id now c)
