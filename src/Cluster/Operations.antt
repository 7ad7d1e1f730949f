-- ===== src/Cluster/Operations.antt =====
-- Operations that a node runs on itself and its peers
-- (src/distributed-lock/cluster-operations.service.ts). The rows' times, details and the initiator's
-- columns are left out, except whether the operation is completed.
pub mod Waiting
pub mod Execution
pub mod Targets
pub mod Status
pub mod Settled
pub mod Terminal
use lyttle_nginx.Prelude.{
  ℕ, zero, suc, ◌-◌, Bool, true, false, not, ◌&&◌, ◌||◌, Option, none, some, List, [], ◌∷◌, ◌++◌,
  String, str_eq, length, map, keep, any, find_first, or_else, is_some, ltb, leb, ◌==◌,
  if◌then◌else◌,
}
use lyttle_nginx.Prelude.Texts.{Text, codes, split}
use lyttle_nginx.Nginx.CustomCode.Tokenizer.{trim}

-- The statuses of operations and of acknowledgements.
pub data OperationStatus : Type 0 where
  pending running succeeded failed partially_failed : OperationStatus

pub record OperationAck : Type 0 where
  pub node_instance_id : String
  pub endpoint_url : Option String
  pub status : OperationStatus
  pub response_status : Option ℕ
  pub error_message : Option Text

pub record Operation : Type 0 where
  pub status : OperationStatus
  pub target_node_count : ℕ
  pub completed_node_count : ℕ
  pub successful_node_count : ℕ
  pub failed_node_count : ℕ
  pub is_completed : Bool
  pub last_error : Option Text
  pub acknowledgements : List OperationAck

-- `url` is what buildClusterNodeUrl gives for the node and the path of the operation.
pub record OperationTarget : Type 0 where
  pub instance_id : String
  pub url : Option String

abbrev first_n : ℕ → Text → Text
first_n zero text = []
first_n (suc n) [] = []
first_n (suc n) (c ∷ text) = c ∷ first_n n text

-- 8230 is the ellipsis.
unfoldable pub truncate : Text → Text
truncate value = if ltb 500 (length value) then first_n 499 value ++ 8230 ∷ [] else value

-- `update` of the row of the node; where there is none, the source's throws, but enqueueing creates one
-- for every target.
abbrev pub update_ack :
    String → (OperationAck → OperationAck) → List OperationAck → List OperationAck
update_ack node change [] = []
update_ack node change (ack ∷ acks) =
    (if str_eq (OperationAck.node_instance_id ack) node then change ack else ack)
    ∷ update_ack node change acks

-- An endpoint that is not given leaves the column as it is.
abbrev pub started : Option String → OperationAck → OperationAck
started url ack = record ack {
  status = running;
  endpoint_url = if is_some url then url else OperationAck.endpoint_url ack;
}

abbrev pub success : ℕ → Option String → OperationAck → OperationAck
success response url ack = record ack {
  status = succeeded;
  response_status = some response;
  error_message = none;
  endpoint_url = url;
}

abbrev pub failure : Text → Option ℕ → Option String → OperationAck → OperationAck
failure message response url ack = record ack {
  status = failed;
  response_status = response;
  error_message = some (truncate message);
  endpoint_url = if is_some url then url else OperationAck.endpoint_url ack;
}

-- What the local action comes to: it returns, or throws with a message.
pub data LocalResult : Type 0 where
  returned : LocalResult
  threw : Text → LocalResult

unfoldable pub run_local_target : String → LocalResult → List OperationAck → List OperationAck
unfolding truncate
run_local_target node returned acks =
    update_ack node (success 200 none) (update_ack node (started none) acks)
run_local_target node (threw message) acks =
    update_ack node (failure message none none) (update_ack node (started none) acks)

-- What fetch comes to: a response with its status and the text of readRemoteError, or an exception,
-- a timeout too.
pub data RemoteReply : Type 0 where
  responded : ℕ → Text → RemoteReply
  broke : Text → RemoteReply

abbrev pub settled_by : String → RemoteReply → OperationAck → OperationAck
settled_by url (responded status error) ack =
    if leb 200 status && leb status 299
    then success status (some url) ack
    else failure error (some status) (some url) ack
settled_by url (broke message) ack = failure message none (some url) ack

-- On the address of the target, when it has one.
unfoldable pub run_at : String → Option String → RemoteReply → List OperationAck → List OperationAck
unfolding truncate
run_at node none reply acks =
    update_ack node
      (failure (codes "Target node does not have a valid control-plane endpoint") none none) acks
run_at node (some url) reply acks =
    update_ack node (settled_by url reply) (update_ack node (started (some url)) acks)

unfoldable pub run_remote_target :
    OperationTarget → RemoteReply → List OperationAck → List OperationAck
unfolding run_at
run_remote_target target reply acks =
    run_at (OperationTarget.instance_id target) (OperationTarget.url target) reply acks

-- `process.env.API_KEY?.split(',')[0]?.trim()` is not empty.
unfoldable pub has_api_key : Option Text → Bool
unfolding split trim
has_api_key none = false
has_api_key (some value) = elim (split b',' value) [
  | [] ↦ false
  | key ∷ keys ↦ not (length (trim key) == 0)
]

-- One peer: with a key it is asked, without one it fails.
unfoldable pub run_peer :
    Bool → (String → RemoteReply) → OperationTarget → List OperationAck → List OperationAck
unfolding run_remote_target
run_peer true replies target acks =
    run_remote_target target (replies (OperationTarget.instance_id target)) acks
run_peer false replies target acks =
    update_ack (OperationTarget.instance_id target)
      (failure (codes "No API key is configured for authenticated peer requests") none none) acks

-- The remote targets in turn: their updates are of different rows, so that the order in which
-- Promise.all interleaves them does not matter.
unfoldable pub run_remote_targets :
    Bool → (String → RemoteReply) → List OperationTarget → List OperationAck → List OperationAck
unfolding run_peer
run_remote_targets keyed replies [] acks = acks
run_remote_targets keyed replies (target ∷ targets) acks =
    run_remote_targets keyed replies targets (run_peer keyed replies target acks)

abbrev pub is_complete : OperationAck → Bool
is_complete ack = elim (OperationAck.status ack) [ succeeded ↦ true | failed ↦ true | _ ↦ false ]

abbrev pub is_succeeded : OperationAck → Bool
is_succeeded ack = elim (OperationAck.status ack) [ succeeded ↦ true | _ ↦ false ]

abbrev pub is_failed : OperationAck → Bool
is_failed ack = elim (OperationAck.status ack) [ failed ↦ true | _ ↦ false ]

-- `acks.filter(…).length`
abbrev pub count : (OperationAck → Bool) → List OperationAck → ℕ
count p [] = 0
count p (ack ∷ acks) = if p ack then suc (count p acks) else count p acks

unfoldable pub calculate_operation_status : ℕ → ℕ → ℕ → ℕ → OperationStatus
calculate_operation_status target completed successful failures =
    if target == 0
    then succeeded
    else if completed == 0
    then pending
    else if ltb completed target
    then running
    else if failures == 0
    then succeeded
    else if successful == 0
    then failed
    else partially_failed

-- The first message that is not empty.
abbrev first_error : List OperationAck → Option Text
first_error [] = none
first_error (ack ∷ acks) =
    let later = first_error acks in
    if is_some (OperationAck.error_message ack)
      && not (length (or_else (OperationAck.error_message ack) []) == 0)
    then OperationAck.error_message ack
    else later

unfoldable pub refresh_operation : Operation → Operation
unfolding calculate_operation_status
refresh_operation operation =
    let acks = Operation.acknowledgements operation in
    record operation {
      status =
          calculate_operation_status (length acks) (count is_complete acks)
            (count is_succeeded acks) (count is_failed acks);
      completed_node_count = count is_complete acks;
      successful_node_count = count is_succeeded acks;
      failed_node_count = count is_failed acks;
      is_completed = count is_complete acks == length acks;
      last_error = first_error acks;
    }
