-- ===== src/Cluster/Operations/Targets.antt =====
-- The targets of an operation (resolveTargets of
-- src/distributed-lock/cluster-operations.service.ts).
use lyttle_nginx.Prelude.{
  ◌≡◌, refl, Bool, true, false, List, [], ◌∷◌, String, str_eq, eq_iff, length, find_first, or_else,
  arith, Bool-cases, inl, inr,
}
use lyttle_nginx.Cluster.Operations.{OperationTarget}
use lyttle_nginx.Cluster.Operations.Execution.{
  set_target, has_target, set_targets, fallback_target, resolve_targets,
}

has_target-set_target :
    (target : OperationTarget) (targets : List OperationTarget)
    → has_target (OperationTarget.instance_id target) (set_target target targets) ≡ true
unfolding set_target
has_target-set_target target [] =
    ground (arith, eq_iff (OperationTarget.instance_id target) (OperationTarget.instance_id target))
has_target-set_target target (t ∷ ts) = ground (
  arith,
  has_target-set_target target ts,
  eq_iff (OperationTarget.instance_id target) (OperationTarget.instance_id target),
)

-- The node's own entry is found, or stands in for itself.
own_entry :
    (self : String) (targets : List OperationTarget)
    → has_target self (
        or_else
          (find_first (λ t. str_eq (OperationTarget.instance_id t) self) targets)
          (fallback_target self)
        ∷ [])
      ≡ true
own_entry self [] = ground (arith, eq_iff self self)
own_entry self (t ∷ ts) = elim (Bool-cases (str_eq (OperationTarget.instance_id t) self)) [
  | inl hit ↦ rw hit (rw hit (refl))
  | inr miss ↦ rw miss (own_entry self ts)
]

-- The node is always among the targets that it resolves, whatever nodes are active, and without
-- the remote nodes it is the only one.
pub resolve_targets_local :
    (self : String) (include_remote : Bool) (active : List OperationTarget)
    → (has_target self (resolve_targets self include_remote active) ≡ true)
      × (include_remote ≡ false → length (resolve_targets self include_remote active) ≡ 1)
unfolding resolve_targets
resolve_targets_local self false active = (own_entry self _, λ _. refl)
resolve_targets_local self true active = (
  elim (Bool-cases (has_target self (set_targets self true [] active))) [
    | inl known ↦ rw known (known)
    | inr unknown ↦
        rw unknown (has_target-set_target (fallback_target self) (set_targets self true [] active))
  ],
  λ e. cc,
)
