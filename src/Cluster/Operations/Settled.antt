-- ===== src/Cluster/Operations/Settled.antt =====
-- executeOperation leaves no acknowledgement open
-- (src/distributed-lock/cluster-operations.service.ts).
use lyttle_nginx.Prelude.{
  ◌≡◌, refl, subst, Bool, true, false, not, ◌&&◌, ◌||◌, Option, none, some, List, [], ◌∷◌, String,
  str_eq, eq_iff, arith, Bool-cases, inl, inr, leb, if◌then◌else◌, All,
}
use lyttle_nginx.Prelude.Texts.{codes}
use lyttle_nginx.Cluster.Operations.{
  OperationAck, OperationTarget, LocalResult, returned, threw, RemoteReply, responded, broke,
  update_ack, started, success, failure, settled_by, run_local_target, run_at, run_peer,
  run_remote_targets, is_complete,
}
use lyttle_nginx.Cluster.Operations.Execution.{has_target}

-- The rows of the nodes that are done are complete.
abbrev pub IsDone : (String → Bool) → List OperationAck → Type 0
IsDone done = All (λ a. done (OperationAck.node_instance_id a) ≡ true → is_complete a ≡ true)

abbrev pub with_node : String → (String → Bool) → String → Bool
with_node node done other = str_eq other node || done other

abbrev without_node : String → (String → Bool) → String → Bool
without_node node done other = not (str_eq other node) && done other

on_either :
    (b : Bool) (P : OperationAck → Type 0) (x y : OperationAck)
    → (b ≡ true → P x)
    → (b ≡ false → P y)
    → P (if b then x else y)
on_either true P x y h k = h refl
on_either false P x y h k = k refl

-- An update that keeps the row's node.
module _ (node : String) (change : OperationAck → OperationAck)
    (same : (a : OperationAck)
      → OperationAck.node_instance_id (change a) ≡ OperationAck.node_instance_id a) where
  update_ack-closes :
      (done : String → Bool) (acks : List OperationAck)
      → ((a : OperationAck) → is_complete (change a) ≡ true)
      → IsDone (without_node node done) acks
      → IsDone (with_node node done) (update_ack node change acks)
  update_ack-closes done [] closes h = tt
  update_ack-closes done (a ∷ acks) closes (h, hs) = (
    on_either (str_eq (OperationAck.node_instance_id a) node)
        (λ b. with_node node done (OperationAck.node_instance_id b) ≡ true → is_complete b ≡ true)
        (change a) a (λ hit k. closes a) (λ miss k. h (ground arith)),
    update_ack-closes done acks closes hs,
  )

  update_ack-others :
      (done : String → Bool) (acks : List OperationAck)
      → IsDone (without_node node done) acks
      → IsDone (without_node node done) (update_ack node change acks)
  update_ack-others done [] h = tt
  update_ack-others done (a ∷ acks) (h, hs) = (
    on_either (str_eq (OperationAck.node_instance_id a) node)
        (λ b.
          without_node node done (OperationAck.node_instance_id b) ≡ true → is_complete b ≡ true)
        (change a) a
        (λ hit k.
          let k' = subst (λ j. without_node node done j ≡ true) (same a) k in absurd (ground arith))
        (λ miss k. h k),
    update_ack-others done acks hs,
  )

weaker :
    (p q : String → Bool) (acks : List OperationAck)
    → ((node : String) → q node ≡ true → p node ≡ true)
    → IsDone p acks
    → IsDone q acks
weaker p q [] le h = tt
weaker p q (a ∷ acks) le (h, hs) =
    ((λ k. h (le (OperationAck.node_instance_id a) k)), weaker p q acks le hs)

less :
    (node : String) (done : String → Bool) (other : String)
    → without_node node done other ≡ true
    → done other ≡ true
less node done other h = ground arith

pub run_local_target-IsDone :
    (node : String) (result : LocalResult) (done : String → Bool) (acks : List OperationAck)
    → IsDone done acks
    → IsDone (with_node node done) (run_local_target node result acks)
unfolding run_local_target
run_local_target-IsDone node returned done acks h =
    update_ack-closes node (success 200 none) (λ a. refl) done (update_ack node (started none) acks)
      (λ a. refl)
      (update_ack-others node (started none) (λ a. refl) done acks
        (weaker done (without_node node done) acks (less node done) h))
run_local_target-IsDone node (threw message) done acks h =
    update_ack-closes node (failure message none none) (λ a. refl) done
      (update_ack node (started none) acks) (λ a. refl)
      (update_ack-others node (started none) (λ a. refl) done acks
        (weaker done (without_node node done) acks (less node done) h))

pub settled_by-closes :
    (url : String) (reply : RemoteReply) (a : OperationAck)
    → (OperationAck.node_instance_id (settled_by url reply a) ≡ OperationAck.node_instance_id a)
      × (is_complete (settled_by url reply a) ≡ true)
settled_by-closes url (broke message) a = (refl, refl)
settled_by-closes url (responded status error) a =
    elim (Bool-cases (leb 200 status && leb status 299)) [
      | inl fine ↦ rw fine (refl, refl)
      | inr other ↦ rw other (refl, refl)
    ]

run_at-IsDone :
    (node : String) (url : Option String) (reply : RemoteReply) (done : String → Bool)
    (acks : List OperationAck)
    → IsDone done acks
    → IsDone (with_node node done) (run_at node url reply acks)
unfolding run_at
run_at-IsDone node none reply done acks h =
    update_ack-closes node
      (failure (codes "Target node does not have a valid control-plane endpoint") none none)
      (λ a. refl) done acks (λ a. refl)
      (weaker done (without_node node done) acks (less node done) h)
run_at-IsDone node (some url) reply done acks h =
    update_ack-closes node (settled_by url reply) (λ a. (settled_by-closes url reply a).0) done
      (update_ack node (started (some url)) acks) (λ a. (settled_by-closes url reply a).1)
      (update_ack-others node (started (some url)) (λ a. refl) done acks
        (weaker done (without_node node done) acks (less node done) h))

run_peer-IsDone :
    (keyed : Bool) (replies : String → RemoteReply) (target : OperationTarget)
    (done : String → Bool) (acks : List OperationAck)
    → IsDone done acks
    → IsDone
        (with_node (OperationTarget.instance_id target) done)
        (run_peer keyed replies target acks)
unfolding run_peer
run_peer-IsDone true replies target done acks h =
    run_at-IsDone (OperationTarget.instance_id target) (OperationTarget.url target)
      (replies (OperationTarget.instance_id target)) done acks h
run_peer-IsDone false replies target done acks h =
    update_ack-closes (OperationTarget.instance_id target)
      (failure (codes "No API key is configured for authenticated peer requests") none none)
      (λ a. refl) done acks (λ a. refl)
      (weaker done (without_node (OperationTarget.instance_id target) done) acks
        (less (OperationTarget.instance_id target) done) h)

abbrev pub with_targets : List OperationTarget → (String → Bool) → String → Bool
with_targets targets done other = has_target other targets || done other

pub run_remote_targets-IsDone :
    (keyed : Bool) (replies : String → RemoteReply) (targets : List OperationTarget)
    (done : String → Bool) (acks : List OperationAck)
    → IsDone done acks
    → IsDone (with_targets targets done) (run_remote_targets keyed replies targets acks)
unfolding run_remote_targets
run_remote_targets-IsDone keyed replies [] done acks h = h
run_remote_targets-IsDone keyed replies (t ∷ ts) done acks h =
    weaker (with_targets ts (with_node (OperationTarget.instance_id t) done))
      (with_targets (t ∷ ts) done) _
      (λ other k. ground (
        arith,
        eq_iff other (OperationTarget.instance_id t),
        eq_iff (OperationTarget.instance_id t) other,
      ))
      (run_remote_targets-IsDone keyed replies ts (with_node (OperationTarget.instance_id t) done)
        (run_peer keyed replies t acks) (run_peer-IsDone keyed replies t done acks h))
