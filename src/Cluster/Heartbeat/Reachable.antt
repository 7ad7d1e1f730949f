-- ===== src/Cluster/Heartbeat/Reachable.antt =====
-- The nodes' tables that the calls reach (src/distributed-lock/cluster-heartbeat.service.ts).
use lyttle_nginx.Prelude.{
  ℕ, ◌≡◌, refl, String, Bool, true, false, not, ◌&&◌, ◌||◌, Option, is_some, any, map, Option-cases,
  inl, inr, if◌then◌else◌,
}
use lyttle_nginx.Cluster.LeaseService.{LeaseEnv}
use lyttle_nginx.Cluster.Heartbeat.{
  is_active, Cluster, find_node, get_leader_lease_state, flagged, reconcile_leader_flags,
  enforce_one_leader, registered, register_node, beat, beaten, send_heartbeat, signed_off,
  unregister_node, older, delete_threshold_ms, marked_stale, take_leader_lock, delete_old_nodes,
  cleanup_stale_nodes, drop_stale_belief, ensure_leader_exists, checked_leader, release_leader_lock,
  after_election, try_become_leader, owned_by, has_issues, apply_lease_leadership,
}
use lyttle_nginx.Cluster.Heartbeat.Flags.{
  Reached, start, turn, register, heartbeat, unregister, cleanup, ensure, become, on_either,
  on_either_answer,
}
use lyttle_nginx.Cluster.Heartbeat.Unique.{
  IsUnique, IsUnique-map, IsUnique-keep, IsUnique-update, flagged-IsNamed, marked-IsNamed,
}
use lyttle_nginx.Cluster.Heartbeat.View.{enforce-apply}

abbrev HasUnique : Cluster → Type 0
HasUnique c = IsUnique c.nodes

enforce-HasUnique : (now : ℕ) (c : Cluster) → HasUnique c → HasUnique (enforce_one_leader now c)
unfolding enforce_one_leader reconcile_leader_flags
enforce-HasUnique now c h =
    let leader = (get_leader_lease_state now c).active_leader_node in
    IsUnique-map (flagged leader) (flagged-IsNamed leader) c.nodes h

register-HasUnique :
    (ip : Option String) (now : ℕ) (c : Cluster) → HasUnique c → HasUnique (register_node ip now c)
unfolding register_node
register-HasUnique ip now c h = elim (Option-cases (find_node c.nodes c.service.instance_id)) [
  | inl new ↦ rw new (new, h)
  | inr (w, known) ↦ rw known (
      IsUnique-update (registered c.service.hostname ip now) (λ n. refl) c.service.instance_id
        c.nodes h)
]

heartbeat-HasUnique :
    (ip : Option String) (now : ℕ) (c : Cluster) → HasUnique c → HasUnique (send_heartbeat ip now c)
unfolding send_heartbeat beaten
heartbeat-HasUnique ip now c h =
    let state = get_leader_lease_state now c in
    let leads = state.has_active_lease && owned_by state.lease c.service.instance_id in
    let after = beaten ip now leads c in
    let kept = IsUnique-update (beat ip now leads) (λ n. refl) c.service.instance_id c.nodes h in
    let enforces = leads || has_issues state.issues in
    on_either HasUnique (is_some (find_node c.nodes c.service.instance_id))
      (if enforces then enforce_one_leader now after else after) c
      (on_either HasUnique enforces (enforce_one_leader now after) after
        (enforce-HasUnique now after kept) kept)
      h

unregister-HasUnique : (now : ℕ) (c : Cluster) → HasUnique c → HasUnique (unregister_node now c)
unfolding unregister_node
unregister-HasUnique now c h =
    IsUnique-update (signed_off now) (λ n. refl) c.service.instance_id c.nodes h

cleanup-HasUnique : (now : ℕ) (c : Cluster) → HasUnique c → HasUnique (cleanup_stale_nodes now c)
unfolding cleanup_stale_nodes delete_old_nodes
cleanup-HasUnique now c h =
    let marked = record c { nodes = map (marked_stale now) c.nodes } in
    IsUnique-keep (λ n. not (older delete_threshold_ms now n && not (is_active n.status)))
      (enforce_one_leader now marked).nodes
      (enforce-HasUnique now marked
        (IsUnique-map (marked_stale now) (marked-IsNamed now) c.nodes h))

drop-HasUnique : (now : ℕ) (c : Cluster) → HasUnique c → HasUnique (drop_stale_belief now c)
unfolding drop_stale_belief
drop-HasUnique now c h =
    let state = get_leader_lease_state now c in
    let (leads, checked) = checked_leader now c in
    on_either HasUnique
      (leads && state.has_active_lease && not (owned_by state.lease c.service.instance_id))
      (release_leader_lock now checked) checked h h

ensure-HasUnique :
    (env : LeaseEnv) (lease_id : String) (now : ℕ) (c : Cluster)
    → HasUnique c
    → HasUnique (ensure_leader_exists env lease_id now c)
unfolding ensure_leader_exists
ensure-HasUnique env lease_id now c h =
    let checked = drop_stale_belief now c in
    let held = drop-HasUnique now c h in
    let taken = (take_leader_lock env lease_id now checked).1 in
    let led = enforce_one_leader now checked in
    let elected = enforce_one_leader now taken in
    let has_active = (get_leader_lease_state now c).has_active_lease in
    on_either HasUnique (any (λ n. is_active n.status) c.nodes)
      (if has_active then led else elected) c
      (on_either HasUnique has_active led elected (enforce-HasUnique now checked held)
        (enforce-HasUnique now taken held))
      h

elected-HasUnique :
    (now : ℕ) (acquired : Bool) (c : Cluster)
    → HasUnique c
    → HasUnique (after_election now (acquired, c)).1
elected-HasUnique now true c h = enforce-HasUnique now c h
elected-HasUnique now false c h = h

become-HasUnique :
    (env : LeaseEnv) (lease_id : String) (now : ℕ) (c : Cluster)
    → HasUnique c
    → HasUnique (try_become_leader env lease_id now c).1
unfolding try_become_leader
become-HasUnique env lease_id now c h =
    let state = get_leader_lease_state now c in
    let taken = take_leader_lock env lease_id now c in
    let owns = owned_by state.lease c.service.instance_id in
    on_either_answer HasUnique state.has_active_lease
      (if owns then (true, enforce_one_leader now c) else (false, c)) (after_election now taken)
      (on_either_answer HasUnique owns (true, enforce_one_leader now c) (false, c)
        (enforce-HasUnique now c h) h)
      (elected-HasUnique now taken.0 taken.1 h)

Reached-HasUnique : (c : Cluster) → Reached c → HasUnique c
Reached-HasUnique c (start service leases) = tt
Reached-HasUnique c (turn before service leases r) = Reached-HasUnique before r
Reached-HasUnique c (register before ip now r) =
    register-HasUnique ip now before (Reached-HasUnique before r)
Reached-HasUnique c (heartbeat before ip now r) =
    heartbeat-HasUnique ip now before (Reached-HasUnique before r)
Reached-HasUnique c (unregister before now r) =
    unregister-HasUnique now before (Reached-HasUnique before r)
Reached-HasUnique c (cleanup before now r) =
    cleanup-HasUnique now before (Reached-HasUnique before r)
Reached-HasUnique c (ensure before env lease_id now r) =
    ensure-HasUnique env lease_id now before (Reached-HasUnique before r)
Reached-HasUnique c (become before env lease_id now r) =
    become-HasUnique env lease_id now before (Reached-HasUnique before r)

-- In every state that the calls of any nodes reach from an empty table, at any times and whatever
-- becomes of the leases in between, the flags that enforcing the leader stores are, row by row, those
-- that the view of the nodes takes from the lease.
pub flags_match_view :
    (c : Cluster) (now : ℕ)
    → Reached c
    → (enforce_one_leader now c).nodes
      ≡ apply_lease_leadership (get_leader_lease_state now c) c.nodes
flags_match_view c now r = enforce-apply now c (Reached-HasUnique c r)
