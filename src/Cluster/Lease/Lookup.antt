-- ===== src/Cluster/Lease/Lookup.antt =====
-- What the statements of src/distributed-lock/distributed-lock.service.ts return and leave under
-- each name, in terms of the row that the name had before.
use lyttle_nginx.Prelude.{
  ℕ, String, ◌≡◌, ◌↔◌, refl, true, Option, none, some, List, [], ◌∷◌, arith, eq_iff, str_eq,
  if◌then◌else◌,
}
use lyttle_nginx.Cluster.Lease.{
  ClusterLease, Candidate, sql_eq, select_lease, may_take, inserted, taken_over, upsert_lease,
  holds_row, update_lease,
}

pub sql_eq_iff : (o : Option String) (s : String) → (sql_eq o s ≡ true) ↔ (o ≡ some s)
sql_eq_iff none s = ground arith
sql_eq_iff (some owner) s = ground (arith, eq_iff owner s)

pub select-name :
    (name : String) (rows : List ClusterLease) (row : ClusterLease)
    → select_lease rows name ≡ some row
    → row.lease_name ≡ name
unfolding select_lease
select-name name [] row e = cc
select-name name (first ∷ rows) row e =
    ground (arith, select-name name rows row, eq_iff first.lease_name name)

-- The row under the candidate's name after the upsert.
abbrev pub after_upsert : Candidate → ℕ → Option ClusterLease → ClusterLease
after_upsert c t none = inserted c t
after_upsert c t (some row) = if may_take row c.instance_id t then taken_over row c t else row

abbrev pub upsert_result : Candidate → ℕ → Option ClusterLease → Option ClusterLease
upsert_result c t none = some (inserted c t)
upsert_result c t (some row) =
    if may_take row c.instance_id t then some (taken_over row c t) else none

pub select-upsert :
    (c : Candidate) (t : ℕ) (name : String) (rows : List ClusterLease)
    → select_lease (upsert_lease rows c t).0 name ≡ (
        if str_eq c.lease_name name
        then some (after_upsert c t (select_lease rows c.lease_name))
        else select_lease rows name)
unfolding select_lease upsert_lease
select-upsert c t name [] = refl
select-upsert c t name (row ∷ rows) = ground (
  arith,
  select-upsert c t name rows,
  eq_iff c.lease_name name,
  eq_iff row.lease_name name,
  eq_iff row.lease_name c.lease_name,
)

pub upsert_returns :
    (c : Candidate) (t : ℕ) (rows : List ClusterLease)
    → (upsert_lease rows c t).1 ≡ upsert_result c t (select_lease rows c.lease_name)
unfolding select_lease upsert_lease
upsert_returns c t [] = refl
upsert_returns c t (row ∷ rows) = ground (arith, upsert_returns c t rows)

module _ (name instance_id : String) (generation : ℕ) (change : ClusterLease → ClusterLease) where
  abbrev pub after_update : Option ClusterLease → Option ClusterLease
  after_update none = none
  after_update (some row) = some (if holds_row row instance_id generation then change row else row)

  abbrev pub update_result : Option ClusterLease → Option ClusterLease
  update_result none = none
  update_result (some row) =
      if holds_row row instance_id generation then some (change row) else none

  pub select-update :
      ((row : ClusterLease) → (change row).lease_name ≡ row.lease_name)
      → (j : String) (rows : List ClusterLease)
      → select_lease (update_lease name instance_id generation change rows).0 j
        ≡ (if str_eq name j then after_update (select_lease rows name) else select_lease rows j)
  unfolding select_lease update_lease
  select-update keeps j [] = ground arith
  select-update keeps j (row ∷ rows) = ground (
    arith,
    keeps row,
    select-update keeps j rows,
    eq_iff name j,
    eq_iff row.lease_name name,
    eq_iff row.lease_name j,
  )

  pub update_returns :
      (rows : List ClusterLease)
      → (update_lease name instance_id generation change rows).1
        ≡ update_result (select_lease rows name)
  unfolding select_lease update_lease
  update_returns [] = refl
  update_returns (row ∷ rows) = ground (arith, update_returns rows)
