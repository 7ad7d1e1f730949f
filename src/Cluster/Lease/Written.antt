-- ===== src/Cluster/Lease/Written.antt =====
-- The row that an acquiring or renewing statement of distributed-lock.service.ts returns.
use lyttle_nginx.Prelude.{
  ℕ, ◌+◌, ◌*◌, String, ◌≡◌, refl, Option, none, some, List, arith, eq_iff, sym, ◌∙◌,
}
use lyttle_nginx.Cluster.Lease.{
  ClusterLease, Candidate, select_lease, upsert_lease, renew_row, renewed, may_take, taken_over,
  inserted, holds_row, update_lease,
}
use lyttle_nginx.Cluster.Lease.Lookup.{
  sql_eq_iff, select-upsert, upsert_returns, select-update, update_returns, update_result,
}

-- The row stands under the name, is the node's, and runs for `ttl` seconds from the statement on.
abbrev pub IsWritten : List ClusterLease → String → String → ℕ → ℕ → ClusterLease → Type 0
IsWritten rows name node ttl t row =
    (select_lease rows name ≡ some row)
    × (row.owner_node_id ≡ some node)
    × (row.ttl_seconds ≡ ttl)
    × (row.expires_at ≡ t + ttl * 1000)

pub upsert-IsWritten :
    (c : Candidate) (t : ℕ) (rows : List ClusterLease) (row : ClusterLease)
    → (upsert_lease rows c t).1 ≡ some row
    → IsWritten (upsert_lease rows c t).0 c.lease_name c.instance_id c.ttl_seconds t row
unfolding may_take taken_over inserted
upsert-IsWritten c t rows row e = ground (
  arith,
  upsert_returns c t rows,
  select-upsert c t c.lease_name rows,
  eq_iff c.lease_name c.lease_name,
)

module _ (name instance_id : String) (generation ttl t : ℕ) (rows : List ClusterLease)
    (row : ClusterLease) where
  abbrev change : ClusterLease → ClusterLease
  change r = renewed r ttl t

  renewed-IsWritten :
      (o : Option ClusterLease)
      → select_lease rows name ≡ o
      → update_result name instance_id generation change o ≡ some row
      → IsWritten
          (update_lease name instance_id generation change rows).0
          name
          instance_id
          ttl
          t
          row
  unfolding holds_row renewed
  renewed-IsWritten none p e = cc
  renewed-IsWritten (some old) p e = ground (
    arith,
    select-update name instance_id generation change (λ r. refl) name rows,
    sql_eq_iff old.owner_node_id instance_id,
    eq_iff name name,
  )

  pub renew-IsWritten :
      (renew_row rows name instance_id generation ttl t).1 ≡ some row
      → IsWritten (renew_row rows name instance_id generation ttl t).0 name instance_id ttl t row
  unfolding renew_row
  renew-IsWritten e =
      renewed-IsWritten (select_lease rows name) refl
        (sym (update_returns name instance_id generation change rows) ∙ e)
