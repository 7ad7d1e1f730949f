-- ===== src/Cluster/Operations/Status.antt =====
-- What the status of a refreshed operation tells of its acknowledgements
-- (src/distributed-lock/cluster-operations.service.ts).
use lyttle_nginx.Prelude.{
  ℕ, ◌+◌, ◌≤◌, ◌<◌, ◌≡◌, ◌↔◌, refl, Bool, true, false, List, [], ◌∷◌, length, any, all, arith,
}
use lyttle_nginx.Cluster.Operations.{
  pending, running, succeeded, failed, OperationAck, Operation, is_complete, is_succeeded,
  is_failed, count, calculate_operation_status, refresh_operation,
}

module _ (p : OperationAck → Bool) where
  count-bound : (acks : List OperationAck) → count p acks ≤ length acks
  count-bound [] = ground arith
  count-bound (a ∷ acks) = ground (arith, count-bound acks)

  count-all : (acks : List OperationAck) → (count p acks ≡ length acks) ↔ (all p acks ≡ true)
  count-all [] = ground arith
  count-all (a ∷ acks) = ground (arith, count-all acks, count-bound acks)

  count-any : (acks : List OperationAck) → (count p acks ≡ 0) ↔ (any p acks ≡ false)
  count-any [] = ground arith
  count-any (a ∷ acks) = ground (arith, count-any acks)

count_complete :
    (acks : List OperationAck)
    → count is_complete acks ≡ count is_succeeded acks + count is_failed acks
count_complete [] = refl
count_complete (a ∷ acks) = ground (arith, count_complete acks)

-- The status of the counts, for one row or more.
module _ (n c s f : ℕ) (some_row : 0 < n) (sum : c ≡ s + f) (bound : c ≤ n) where
  calculate_pending : (calculate_operation_status n c s f ≡ pending) ↔ (c ≡ 0)
  unfolding calculate_operation_status
  calculate_pending = ground arith

  calculate_running : (calculate_operation_status n c s f ≡ running) ↔ ((0 < c) × (c < n))
  unfolding calculate_operation_status
  calculate_running = ground arith

  calculate_succeeded : (calculate_operation_status n c s f ≡ succeeded) ↔ (s ≡ n)
  unfolding calculate_operation_status
  calculate_succeeded = ground arith

  calculate_failed : (calculate_operation_status n c s f ≡ failed) ↔ (f ≡ n)
  unfolding calculate_operation_status
  calculate_failed = ground arith

through : {A B C : Type 0} → A ↔ B → B ↔ C → A ↔ C
through f g = (λ a. g.0 (f.0 a), λ c. f.1 (g.1 c))

between :
    (acks : List OperationAck)
    → ((0 < count is_complete acks) × (count is_complete acks < length acks))
      ↔ ((any is_complete acks ≡ true) × (all is_complete acks ≡ false))
between acks =
    ground
      (arith, count-any is_complete acks, count-all is_complete acks, count-bound is_complete acks)

-- Of an operation with one row or more, a refresh makes it pending exactly if no row is complete,
-- running exactly if some and not all are, succeeded exactly if all succeeded, and failed exactly
-- if all failed; and the successful and failed nodes make up the completed ones.
pub refresh_operation_status :
    (operation : Operation)
    → 0 < length (Operation.acknowledgements operation)
    → let acks = Operation.acknowledgements operation in
      let after = refresh_operation operation in
      ((Operation.status after ≡ pending) ↔ (any is_complete acks ≡ false))
      × ((Operation.status after ≡ running)
          ↔ ((any is_complete acks ≡ true) × (all is_complete acks ≡ false)))
      × ((Operation.status after ≡ succeeded) ↔ (all is_succeeded acks ≡ true))
      × ((Operation.status after ≡ failed) ↔ (all is_failed acks ≡ true))
      × (Operation.completed_node_count after
          ≡ Operation.successful_node_count after + Operation.failed_node_count after)
unfolding refresh_operation
refresh_operation_status operation some_row =
    let acks = Operation.acknowledgements operation in
    let n = length acks in
    let c = count is_complete acks in
    let s = count is_succeeded acks in
    let f = count is_failed acks in
    let sum = count_complete acks in
    let bound = count-bound is_complete acks in
    (
      through (calculate_pending n c s f some_row sum bound) (count-any is_complete acks),
      through (calculate_running n c s f some_row sum bound) (between acks),
      through (calculate_succeeded n c s f some_row sum bound) (count-all is_succeeded acks),
      through (calculate_failed n c s f some_row sum bound) (count-all is_failed acks),
      sum,
    )
