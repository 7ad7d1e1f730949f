-- ===== src/Tests/Heartbeat.antt =====
-- The nodes' table (src/distributed-lock/cluster-heartbeat.service.ts) and the wait for an operation
-- (src/distributed-lock/cluster-operations.service.ts) at concrete inputs.
use lyttle_nginx.Prelude.{ℕ, zero, suc, ◌≤◌, arith, ◌≡◌, refl, true, Option, none, some, []}
use lyttle_nginx.Cluster.LeaseService.{LeaseEnv, LeaseService}
use lyttle_nginx.Cluster.Operations.{OperationStatus, running, succeeded}
use lyttle_nginx.Cluster.Operations.Waiting.{
  Waited, wait_for_operation_to_settle, IsDue, wait_for_operation_ends,
}
use lyttle_nginx.Cluster.Heartbeat.{
  Cluster, get_leader_lease_state, apply_lease_leadership, enforce_one_leader, register_node,
  send_heartbeat, ensure_leader_exists,
}
use lyttle_nginx.Cluster.Heartbeat.Flags.{
  IsSingle, start, register, ensure, heartbeat, Reached-IsSingle,
}
use lyttle_nginx.Cluster.Heartbeat.Reachable.{flags_match_view}
use lyttle_nginx.Cluster.Heartbeat.Election.{ensure_leader_exists_elects}

abbrev defaults : LeaseEnv
defaults = record { cluster_lease_ttl_seconds = none; cluster_lease_renew_interval_ms = none }

abbrev lock_service : LeaseService
lock_service = record {
  instance_id = "node-a";
  hostname = "a";
  held_leases = [];
  timers = [];
  next_timer = 0;
}

abbrev nobody : Cluster
nobody = record { service = lock_service; leases = []; nodes = [] }

abbrev joined : Cluster
joined = register_node (some "10.0.0.1") 1000 nobody

ensure_leader_exists_elects_example :
    (get_leader_lease_state 2000
      (ensure_leader_exists defaults "lease" 2000 joined)).has_active_lease
    ≡ true
unfolding register_node
ensure_leader_exists_elects_example = ensure_leader_exists_elects defaults "lease" 2000 joined refl

Reached-IsSingle_example :
    IsSingle
      (Cluster.nodes (send_heartbeat none 3000 (ensure_leader_exists defaults "lease" 2000 joined)))
Reached-IsSingle_example =
    Reached-IsSingle (send_heartbeat none 3000 (ensure_leader_exists defaults "lease" 2000 joined))
      (heartbeat (ensure_leader_exists defaults "lease" 2000 joined) none 3000 (
        ensure joined defaults "lease" 2000
          (register nobody (some "10.0.0.1") 1000 (start lock_service []))))

abbrev led : Cluster
led = ensure_leader_exists defaults "lease" 2000 joined

flags_match_view_example :
    Cluster.nodes (enforce_one_leader 3000 led)
    ≡ apply_lease_leadership (get_leader_lease_state 3000 led) led.nodes
flags_match_view_example = flags_match_view led 3000 (
    ensure joined defaults "lease" 2000
      (register nobody (some "10.0.0.1") 1000 (start lock_service [])))

-- An operation that the second round finds succeeded.
abbrev answers : ℕ → Option OperationStatus
answers zero = some running
answers (suc k) = some succeeded

-- A query of no time and an exact timer, which Node sets to 1 below 1.
abbrev waits : ℕ → ℕ → ℕ
waits zero k = 1
waits (suc n) k = suc n

waits_ticks : (interval k : ℕ) → 1 ≤ waits interval k
waits_ticks zero k = omega arith
waits_ticks (suc n) k = omega arith

wait_for_operation_ends_example :
    (r : Waited) × (wait_for_operation_to_settle answers waits
        (record { timeout_ms = some 1000; poll_interval_ms = some 250 })
        5000
      ≡ some r)
    × IsDue answers (waits 250) 5000 6000 r
wait_for_operation_ends_example =
    wait_for_operation_ends answers waits waits_ticks
      (record { timeout_ms = some 1000; poll_interval_ms = some 250 }) 5000
