-- ===== src/Cluster/Operations/Terminal.antt =====
-- An executed operation is in a final status
-- (src/distributed-lock/cluster-operations.service.ts).
use lyttle_nginx.Prelude.{
  suc, ◌<◌, ◌≡◌, ◌≢◌, refl, sym, ap, ◌∙◌, subst, Bool, true, false, not, Option, none, some, List,
  [], ◌∷◌, String, str_eq, eq_iff, length, map, keep, any, all, arith, Bool-cases, inl, inr,
}
use lyttle_nginx.Prelude.Texts.{Text, codes}
use lyttle_nginx.Cluster.Operations.{
  pending, running, OperationAck, Operation, OperationTarget, LocalResult, returned, threw,
  RemoteReply, update_ack, started, success, failure, settled_by, run_local_target, run_at,
  run_peer, run_remote_targets, is_complete, has_api_key,
}
use lyttle_nginx.Cluster.Operations.Execution.{
  has_target, local_target, new_ack, create_operation, execute_operation,
}
use lyttle_nginx.Cluster.Operations.Status.{refresh_operation_status}
use lyttle_nginx.Cluster.Operations.Settled.{
  IsDone, with_node, with_targets, settled_by-closes, run_local_target-IsDone,
  run_remote_targets-IsDone,
}

-- The nodes of the rows stay as they are.
abbrev nodes : List OperationAck → List String
nodes acks = map (λ (a : OperationAck). OperationAck.node_instance_id a) acks

nodes-update_ack :
    (node : String) (change : OperationAck → OperationAck) (acks : List OperationAck)
    → ((a : OperationAck)
        → OperationAck.node_instance_id (change a) ≡ OperationAck.node_instance_id a)
    → nodes (update_ack node change acks) ≡ nodes acks
nodes-update_ack node change [] same = refl
nodes-update_ack node change (a ∷ acks) same =
    let rest = nodes-update_ack node change acks same in
    elim (Bool-cases (str_eq (OperationAck.node_instance_id a) node)) [
      | inl hit ↦ rw hit (cc (same a, rest))
      | inr miss ↦ rw miss (cc rest)
    ]

nodes-run_local_target :
    (node : String) (result : LocalResult) (acks : List OperationAck)
    → nodes (run_local_target node result acks) ≡ nodes acks
unfolding run_local_target
nodes-run_local_target node returned acks =
    nodes-update_ack node (success 200 none) _ (λ a. refl)
    ∙ nodes-update_ack node (started none) acks (λ a. refl)
nodes-run_local_target node (threw message) acks =
    nodes-update_ack node (failure message none none) _ (λ a. refl)
    ∙ nodes-update_ack node (started none) acks (λ a. refl)

nodes-run_at :
    (node : String) (url : Option String) (reply : RemoteReply) (acks : List OperationAck)
    → nodes (run_at node url reply acks) ≡ nodes acks
unfolding run_at
nodes-run_at node none reply acks =
    nodes-update_ack node
      (failure (codes "Target node does not have a valid control-plane endpoint") none none) acks
      (λ a. refl)
nodes-run_at node (some url) reply acks =
    nodes-update_ack node (settled_by url reply) _ (λ a. (settled_by-closes url reply a).0)
    ∙ nodes-update_ack node (started (some url)) acks (λ a. refl)

nodes-run_peer :
    (keyed : Bool) (replies : String → RemoteReply) (target : OperationTarget)
    (acks : List OperationAck)
    → nodes (run_peer keyed replies target acks) ≡ nodes acks
unfolding run_peer
nodes-run_peer true replies target acks =
    nodes-run_at (OperationTarget.instance_id target) (OperationTarget.url target)
      (replies (OperationTarget.instance_id target)) acks
nodes-run_peer false replies target acks =
    nodes-update_ack (OperationTarget.instance_id target)
      (failure (codes "No API key is configured for authenticated peer requests") none none) acks
      (λ a. refl)

nodes-run_remote_targets :
    (keyed : Bool) (replies : String → RemoteReply) (targets : List OperationTarget)
    (acks : List OperationAck)
    → nodes (run_remote_targets keyed replies targets acks) ≡ nodes acks
unfolding run_remote_targets
nodes-run_remote_targets keyed replies [] acks = refl
nodes-run_remote_targets keyed replies (t ∷ ts) acks =
    nodes-run_remote_targets keyed replies ts (run_peer keyed replies t acks)
    ∙ nodes-run_peer keyed replies t acks

all-is_complete :
    (done : String → Bool) (acks : List OperationAck)
    → IsDone done acks
    → all done (nodes acks) ≡ true
    → all is_complete acks ≡ true
all-is_complete done [] h k = refl
all-is_complete done (a ∷ acks) (h, hs) k =
    let rest = all-is_complete done acks hs (ground arith) in
    let first = h (ground arith) in ground arith

-- Every target is the local one or among the remote ones.
all-covered :
    (self here : String) (done : String → Bool) (targets : List OperationTarget)
    → ((other : String)
        → has_target other (keep (λ t. not (str_eq (OperationTarget.instance_id t) here)) targets)
          ≡ true
        → done other ≡ true)
    → done here ≡ true
    → all done (nodes (map (new_ack self) targets)) ≡ true
all-covered self here done [] remote local = refl
all-covered self here done (t ∷ ts) remote local =
    elim (Bool-cases (str_eq (OperationTarget.instance_id t) here)) [
      | inl hit ↦
          let remote' = (rw hit at remote) in
          let first : done (OperationTarget.instance_id t) ≡ true =
            ap done ((eq_iff _ _).0 hit) ∙ local in
          let rest = all-covered self here done ts remote' local in ground arith
      | inr miss ↦
          let remote' = (rw miss at remote) in
          let myself : str_eq (OperationTarget.instance_id t) (OperationTarget.instance_id t)
              ≡ true =
            (eq_iff _ _).1 refl in
          let first : done (OperationTarget.instance_id t) ≡ true =
            remote' (OperationTarget.instance_id t) (rw myself (refl)) in
          let rest =
            all-covered self here done ts (λ other k. remote' other (ground arith)) local in
          ground arith
    ]

length-nodes : (acks : List OperationAck) → length (nodes acks) ≡ length acks
length-nodes [] = refl
length-nodes (a ∷ acks) = ap suc (length-nodes acks)

new_rows-IsDone : (acks : List OperationAck) → IsDone (λ other. false) acks
new_rows-IsDone [] = tt
new_rows-IsDone (a ∷ acks) = ((λ k. cc), new_rows-IsDone acks)

all-any :
    (acks : List OperationAck)
    → 0 < length acks
    → all is_complete acks ≡ true
    → any is_complete acks ≡ true
all-any [] h k = absurd (omega arith)
all-any (a ∷ acks) h k = ground arith

-- The rows behind an execution: all are complete, and there is one for each target.
executed :
    (self : String) (keyed : Bool) (targets : List OperationTarget) (result : LocalResult)
    (replies : String → RemoteReply)
    → let here = OperationTarget.instance_id (local_target self targets) in
      let remote = keep (λ t. not (str_eq (OperationTarget.instance_id t) here)) targets in
      let acks =
        run_remote_targets keyed replies remote
          (run_local_target here result (map (new_ack self) targets)) in
      (all is_complete acks ≡ true) × (nodes acks ≡ nodes (map (new_ack self) targets))
executed self keyed targets result replies =
    let here = OperationTarget.instance_id (local_target self targets) in
    let remote = keep (λ t. not (str_eq (OperationTarget.instance_id t) here)) targets in
    let before = run_local_target here result (map (new_ack self) targets) in
    let same =
      nodes-run_remote_targets keyed replies remote before
      ∙ nodes-run_local_target here result (map (new_ack self) targets) in
    let done = with_targets remote (with_node here (λ other. false)) in
    let closed =
      run_remote_targets-IsDone keyed replies remote (with_node here (λ other. false)) before (
        run_local_target-IsDone here result (λ other. false) (map (new_ack self) targets)
          (new_rows-IsDone (map (new_ack self) targets))) in
    (
      all-is_complete done (run_remote_targets keyed replies remote before) closed (
          ap (all done) same
          ∙ all-covered self here done targets (λ other k. ground arith)
              (let me : str_eq here here ≡ true = (eq_iff here here).1 refl in ground arith)),
      same,
    )

length-created :
    (self : String) (targets : List OperationTarget)
    → length (map (new_ack self) targets) ≡ length targets
length-created self [] = refl
length-created self (t ∷ ts) = ap suc (length-created self ts)

-- An operation that is created for one target or more and executed ends: whatever the local action
-- and the peers answer or throw, with or without an API key, every target's acknowledgement is
-- succeeded or failed, there are as many as targets, and the operation is neither pending nor
-- running.
pub execute_operation_settles :
    (self : String) (api_key : Option Text) (targets : List OperationTarget) (result : LocalResult)
    (replies : String → RemoteReply)
    → 0 < length targets
    → let after =
        execute_operation self api_key targets result replies (create_operation self targets) in
      (all is_complete (Operation.acknowledgements after) ≡ true)
      × (length (Operation.acknowledgements after) ≡ length targets)
      × (Operation.status after ≢ pending)
      × (Operation.status after ≢ running)
unfolding execute_operation create_operation
execute_operation_settles self api_key targets result replies some_target =
    let after =
      execute_operation self api_key targets result replies (create_operation self targets) in
    let acks = Operation.acknowledgements after in
    let (complete, same) = executed self (has_api_key api_key) targets result replies in
    let size : length acks ≡ length targets =
      sym (length-nodes acks)
      ∙ ap length same
      ∙ length-nodes (map (new_ack self) targets)
      ∙ length-created self targets in
    let settled = record (create_operation self targets) {
      status = running;
      acknowledgements = acks;
    } in
    let statuses = refresh_operation_status settled (subst (λ n. 0 < n) (sym size) some_target) in
    let begun = all-any acks (subst (λ n. 0 < n) (sym size) some_target) complete in
    (
      complete,
      size,
      (λ e. let no = statuses.0.0 e in cc (begun, no)),
      (λ e. let no = (statuses.1.0 e).1 in cc (complete, no)),
    )
