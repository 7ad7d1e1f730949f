-- ===== src/Tests/Cluster.antt =====
-- Leases and advisory locks (src/distributed-lock) at concrete inputs.
use mathlib.Core.List.{Memᴰ}
use lyttle_nginx.Prelude.{
  ℕ, ◌-◌, ◌%◌, ◌^◌, ◌≤◌, ◌≡◌, refl, String, true, Option, none, some, List, [], ◌∷◌, ◌++◌, ltb,
  if◌then◌else◌, arith,
}
use lyttle_nginx.Prelude.Maps
use lyttle_nginx.Prelude.Texts.{codes}
use lyttle_nginx.Prelude.{false, ◌+◌, ◌≢◌, ◌↔◌, all, any, map, length}
use lyttle_nginx.Cluster.Operations.{
  OperationStatus, Operation, OperationTarget, LocalResult, RemoteReply, is_complete, is_succeeded,
  is_failed, refresh_operation,
}
use lyttle_nginx.Cluster.Operations.Execution.{
  new_ack, has_target, resolve_targets, create_operation, execute_operation,
}
use lyttle_nginx.Cluster.Operations.Targets.{resolve_targets_local}
use lyttle_nginx.Cluster.Operations.Status.{refresh_operation_status}
use lyttle_nginx.Cluster.Operations.Terminal.{execute_operation_settles}
use lyttle_nginx.Cluster.Lease.{ClusterLease, select_lease, renew_row, upsert_lease}
use lyttle_nginx.Cluster.Lease.Fencing.{execute, Statement, Grant, history}
use lyttle_nginx.Cluster.Lease.Tokens.{fencing_tokens_unique}
use lyttle_nginx.Cluster.LeaseService.{
  LeaseEnv, resolve_lease_ttl_seconds, to_lease_snapshot, track_held_lease,
}
use lyttle_nginx.Cluster.LeaseService.Methods.{acquire_lease, get_active_held_lease}
use lyttle_nginx.Cluster.LeaseService.Calls.{Fate, at_clock, default_ttl}
use lyttle_nginx.Cluster.LeaseService.Leadership.{after_call, World, Step, start, next, one_leader}
use lyttle_nginx.Cluster.AdvisoryLock.{string_to_lock_id, granted, busy, Locks, with_lock}
use lyttle_nginx.Cluster.AdvisoryLock.LockId.{polynomial, string_to_lock_id-polynomial}
use lyttle_nginx.Cluster.AdvisoryLock.WithLock.{expected, wins, outcome, with_lock-expected}

-- Node a acquires the lease and renews it.
abbrev acquire_and_renew : List (Statement × ℕ)
acquire_and_renew =
    (
      Statement.acquire (record {
        id = "row";
        lease_name = "cluster:leader";
        instance_id = "a";
        hostname = "host-a";
        ttl_seconds = 30;
      }),
      1000,
    )
    ∷ (Statement.renew "cluster:leader" "a" 1 30, 2000)
    ∷ []

abbrev node_a : String
node_a = "a"

abbrev grant_of_a : Grant
grant_of_a = record { lease_name = "cluster:leader"; node = "a"; token = 1 }

fencing_tokens_unique_example : node_a ≡ node_a
unfolding history execute renew_row upsert_lease
fencing_tokens_unique_example =
    fencing_tokens_unique acquire_and_renew grant_of_a grant_of_a (Memᴰ.head refl)
      (Memᴰ.tail (Memᴰ.head refl)) refl refl

abbrev no_env : String → LeaseEnv
no_env node = record { cluster_lease_ttl_seconds = none; cluster_lease_renew_interval_ms = none }

abbrev idle : World
idle = record {
  clock = 1000;
  rows = [];
  service = λ node. record {
    instance_id = node;
    hostname = "host";
    held_leases = [];
    timers = [];
    next_timer = 0;
  };
}

abbrev led_by_a : World
led_by_a =
    let r =
      acquire_lease (no_env "a") "row" "cluster:leader" (default_ttl none none)
        (at_clock Fate.answers 1000) 1000 (World.service idle "a") [] in
    after_call idle "a" r.1 r.2

-- Node a has acquired the lease, and asks twice.
one_leader_example :
    node_a ≡ node_a
    × (row : ClusterLease) × (select_lease (World.rows led_by_a) "cluster:leader" ≡ some row)
    × (row.owner_node_id ≡ some "a")
unfolding acquire_lease get_active_held_lease upsert_lease Maps.get Maps.insert
    resolve_lease_ttl_seconds to_lease_snapshot track_held_lease
one_leader_example =
    one_leader no_env led_by_a "a" "a" "cluster:leader" 1000 2000
      (next (start {w = idle} (λ node. (refl, refl)))
        (Step.acquire "a" "row" "cluster:leader" none none Fate.answers 1000))
      (omega arith) (omega arith) (_, refl) (_, refl)

string_to_lock_id-polynomial_example :
    let p = polynomial 0 (codes "leader") % 2 ^ 32 in
    (string_to_lock_id (codes "leader") ≡ (if ltb p (2 ^ 31) then p else 2 ^ 32 - p))
    × (string_to_lock_id (codes "leader") ≤ 2 ^ 31)
string_to_lock_id-polynomial_example = string_to_lock_id-polynomial (codes "leader")

abbrev seven : Option ℕ
seven = some 7

abbrev unlocked : Locks
unlocked = record { held_locks = []; log = [] }

with_lock-expected_example :
    let result = with_lock "renew" seven true 5 3 (busy ∷ granted ∷ []) unlocked in
    (result.1.log ≡ [] ++ expected (string_to_lock_id (codes "renew")) 3 (busy ∷ granted ∷ []))
    × (result.0 ≡ outcome "renew" seven true 5 (wins 3 (busy ∷ granted ∷ [])))
with_lock-expected_example =
    with_lock-expected "renew" seven true 5 3 (busy ∷ granted ∷ []) unlocked

lock_id_of_ab : string_to_lock_id (codes "ab") ≡ 3105
unfolding string_to_lock_id
lock_id_of_ab = refl

-- Two nodes, the second without an address, and a third that does not answer.
abbrev three_targets : List OperationTarget
three_targets =
    record { instance_id = "a"; url = some "http://a" }
    ∷ record { instance_id = "b"; url = none }
    ∷ record { instance_id = "c"; url = some "http://c" }
    ∷ []

abbrev times_out : String → RemoteReply
times_out node = RemoteReply.broke (codes "This operation was aborted")

abbrev executed_once : Operation
executed_once =
    execute_operation "a" (some (codes "key")) three_targets LocalResult.returned times_out
      (create_operation "a" three_targets)

execute_operation_settles_example :
    (all is_complete (Operation.acknowledgements executed_once) ≡ true)
    × (length (Operation.acknowledgements executed_once) ≡ length three_targets)
    × (Operation.status executed_once ≢ OperationStatus.pending)
    × (Operation.status executed_once ≢ OperationStatus.running)
execute_operation_settles_example =
    execute_operation_settles "a" (some (codes "key")) three_targets LocalResult.returned times_out
      (omega arith)

some_fail : Operation.status executed_once ≡ OperationStatus.partially_failed
unfolding execute_operation create_operation
some_fail = refl

refresh_operation_status_example :
    let acks = map (new_ack "a") three_targets in
    let after = refresh_operation (create_operation "a" three_targets) in
    ((Operation.status after ≡ OperationStatus.pending) ↔ (any is_complete acks ≡ false))
    × ((Operation.status after ≡ OperationStatus.running)
        ↔ ((any is_complete acks ≡ true) × (all is_complete acks ≡ false)))
    × ((Operation.status after ≡ OperationStatus.succeeded) ↔ (all is_succeeded acks ≡ true))
    × ((Operation.status after ≡ OperationStatus.failed) ↔ (all is_failed acks ≡ true))
    × (Operation.completed_node_count after
        ≡ Operation.successful_node_count after + Operation.failed_node_count after)
unfolding create_operation
refresh_operation_status_example =
    refresh_operation_status (create_operation "a" three_targets) (omega arith)

resolve_targets_local_example :
    (has_target "d" (resolve_targets "d" false three_targets) ≡ true)
    × (false ≡ false → length (resolve_targets "d" false three_targets) ≡ 1)
resolve_targets_local_example = resolve_targets_local "d" false three_targets
