-- ===== src/Cluster/Operations/Execution.antt =====
-- resolveTargets, the creation of an operation and executeOperation
-- (src/distributed-lock/cluster-operations.service.ts).
use lyttle_nginx.Prelude.{
  Bool, false, not, ◌||◌, Option, none, List, [], ◌∷◌, String, str_eq, length, map, keep, any,
  find_first, or_else, if◌then◌else◌,
}
use lyttle_nginx.Prelude.Texts.{Text}
use lyttle_nginx.Cluster.Operations.{
  pending, running, OperationAck, Operation, OperationTarget, LocalResult, RemoteReply,
  run_local_target, has_api_key, run_remote_targets, refresh_operation,
}

-- `targets.set(id, target)` of the Map: in its old place, or at the end.
unfoldable pub set_target : OperationTarget → List OperationTarget → List OperationTarget
set_target target [] = target ∷ []
set_target target (t ∷ ts) =
    let rest = set_target target ts in
    if str_eq (OperationTarget.instance_id t) (OperationTarget.instance_id target)
    then target ∷ ts
    else t ∷ rest

abbrev pub has_target : String → List OperationTarget → Bool
has_target node targets = any (λ t. str_eq (OperationTarget.instance_id t) node) targets

unfoldable pub set_targets :
    String → Bool → List OperationTarget → List OperationTarget → List OperationTarget
unfolding set_target
set_targets self include_remote targets [] = targets
set_targets self include_remote targets (node ∷ nodes) =
    set_targets self include_remote
      (if str_eq (OperationTarget.instance_id node) self || include_remote
        then set_target node targets
        else targets)
      nodes

-- The fallback has no address, so buildClusterNodeUrl gives nothing for it.
abbrev pub fallback_target : String → OperationTarget
fallback_target self = record { instance_id = self; url = none }

-- `active` is empty where the nodes could not be read.
unfoldable pub resolve_targets : String → Bool → List OperationTarget → List OperationTarget
unfolding set_targets
resolve_targets self include_remote active =
    let known = set_targets self include_remote [] active in
    let targets =
      if has_target self known then known else set_target (fallback_target self) known in
    if include_remote
    then targets
    else or_else (find_first (λ t. str_eq (OperationTarget.instance_id t) self) targets)
        (fallback_target self)
      ∷ []

-- The rows that enqueueBroadcastOperation creates; a peer's row has the peer's address.
abbrev pub new_ack : String → OperationTarget → OperationAck
new_ack self target = record {
  node_instance_id = OperationTarget.instance_id target;
  endpoint_url =
      if str_eq (OperationTarget.instance_id target) self then none else OperationTarget.url target;
  status = pending;
  response_status = none;
  error_message = none;
}

unfoldable pub create_operation : String → List OperationTarget → Operation
create_operation self targets = record {
  status = pending;
  target_node_count = length targets;
  completed_node_count = 0;
  successful_node_count = 0;
  failed_node_count = 0;
  is_completed = false;
  last_error = none;
  acknowledgements = map (new_ack self) targets;
}

abbrev pub local_target : String → List OperationTarget → OperationTarget
local_target self targets =
    or_else (find_first (λ t. str_eq (OperationTarget.instance_id t) self) targets)
      (fallback_target self)

unfoldable pub execute_operation :
    String
    → Option Text
    → List OperationTarget
    → LocalResult
    → (String → RemoteReply)
    → Operation
    → Operation
unfolding run_local_target run_remote_targets has_api_key refresh_operation
execute_operation self api_key targets result replies operation =
    let here = OperationTarget.instance_id (local_target self targets) in
    let remote = keep (λ t. not (str_eq (OperationTarget.instance_id t) here)) targets in
    let acks = run_local_target here result (Operation.acknowledgements operation) in
    refresh_operation (record operation {
      status = running;
      acknowledgements = run_remote_targets (has_api_key api_key) replies remote acks;
    })
