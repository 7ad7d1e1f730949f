-- ===== src/Cluster/Lease.antt =====
-- The table "ClusterLease" and the four statements that src/distributed-lock/
-- distributed-lock.service.ts runs on it. Times are milliseconds; `now` is the value of NOW() in
-- the statement. The column "metadata" is left out: no statement writes it and nothing reads it.
pub mod Lookup
pub mod Written
pub mod Fencing
pub mod Tokens
use lyttle_nginx.Prelude.{
  ℕ, ◌+◌, ◌*◌, String, Bool, true, false, ◌&&◌, ◌||◌, Option, none, some, List, [], ◌∷◌, str_eq,
  leb, ◌==◌, if◌then◌else◌,
}

pub record ClusterLease : Type 0 where
  pub id : String
  pub lease_name : String
  pub owner_node_id : Option String
  pub owner_hostname : Option String
  pub generation : ℕ
  pub ttl_seconds : ℕ
  pub acquired_at : ℕ
  pub renewed_at : ℕ
  pub expires_at : ℕ
  pub created_at : ℕ
  pub updated_at : ℕ

-- `column = value` in SQL: not true where the column is NULL.
abbrev pub sql_eq : Option String → String → Bool
sql_eq none value = false
sql_eq (some owner) value = str_eq owner value

abbrev pub is_null : Option String → Bool
is_null none = true
is_null (some owner) = false

-- SELECT … WHERE "leaseName" = name LIMIT 1; the name is unique.
unfoldable pub select_lease : List ClusterLease → String → Option ClusterLease
select_lease [] name = none
select_lease (row ∷ rows) name =
    if str_eq row.lease_name name then some row else select_lease rows name

-- What an INSERT of `acquireLease` brings along.
pub record Candidate : Type 0 where
  pub id : String
  pub lease_name : String
  pub instance_id : String
  pub hostname : String
  pub ttl_seconds : ℕ

-- The WHERE of the upsert: the row is free, or the node's own.
unfoldable pub may_take : ClusterLease → String → ℕ → Bool
may_take row instance_id now =
    leb row.expires_at now || is_null row.owner_node_id || sql_eq row.owner_node_id instance_id

unfoldable pub inserted : Candidate → ℕ → ClusterLease
inserted c now = record {
  id = c.id;
  lease_name = c.lease_name;
  owner_node_id = some c.instance_id;
  owner_hostname = some c.hostname;
  generation = 1;
  ttl_seconds = c.ttl_seconds;
  acquired_at = now;
  renewed_at = now;
  expires_at = now + c.ttl_seconds * 1000;
  created_at = now;
  updated_at = now;
}

unfoldable pub taken_over : ClusterLease → Candidate → ℕ → ClusterLease
taken_over row c now = record row {
  owner_node_id = some c.instance_id;
  owner_hostname = some c.hostname;
  generation =
      if sql_eq row.owner_node_id c.instance_id then row.generation else row.generation + 1;
  ttl_seconds = c.ttl_seconds;
  acquired_at = if sql_eq row.owner_node_id c.instance_id then row.acquired_at else now;
  renewed_at = now;
  expires_at = now + c.ttl_seconds * 1000;
  updated_at = now;
}

-- INSERT … ON CONFLICT ("leaseName") DO UPDATE … WHERE … RETURNING: the table, and the row that
-- was written, if one was.
unfoldable pub upsert_lease :
    List ClusterLease → Candidate → ℕ → List ClusterLease × Option ClusterLease
unfolding may_take inserted taken_over
upsert_lease [] c now = (inserted c now ∷ [], some (inserted c now))
upsert_lease (row ∷ rows) c now =
    let (rest, written) = upsert_lease rows c now in
    if str_eq row.lease_name c.lease_name
    then (if may_take row c.instance_id now
        then (taken_over row c now ∷ rows, some (taken_over row c now))
        else (row ∷ rows, none))
    else (row ∷ rest, written)

-- The WHERE of the updates of `renewLease` and `releaseLease`, beside the name.
unfoldable pub holds_row : ClusterLease → String → ℕ → Bool
holds_row row instance_id generation =
    sql_eq row.owner_node_id instance_id && row.generation == generation

unfoldable pub renewed : ClusterLease → ℕ → ℕ → ClusterLease
renewed row ttl_seconds now = record row {
  ttl_seconds = ttl_seconds;
  renewed_at = now;
  expires_at = now + ttl_seconds * 1000;
  updated_at = now;
}

unfoldable pub released : ClusterLease → ℕ → ClusterLease
released row now = record row {
  owner_node_id = none;
  owner_hostname = none;
  renewed_at = now;
  expires_at = now;
  updated_at = now;
}

-- UPDATE … WHERE "leaseName" = name AND … RETURNING; one row at most has the name.
module _ (name instance_id : String) (generation : ℕ) (change : ClusterLease → ClusterLease) where
  unfoldable pub update_lease : List ClusterLease → List ClusterLease × Option ClusterLease
  unfolding holds_row
  update_lease [] = ([], none)
  update_lease (row ∷ rows) =
      let (rest, written) = update_lease rows in
      if str_eq row.lease_name name
      then (if holds_row row instance_id generation
          then (change row ∷ rows, some (change row))
          else (row ∷ rows, none))
      else (row ∷ rest, written)

unfoldable pub renew_row :
    List ClusterLease → String → String → ℕ → ℕ → ℕ → List ClusterLease × Option ClusterLease
unfolding update_lease renewed
renew_row rows name instance_id generation ttl_seconds now =
    update_lease name instance_id generation (λ row. renewed row ttl_seconds now) rows

unfoldable pub release_row :
    List ClusterLease → String → String → ℕ → ℕ → List ClusterLease × Option ClusterLease
unfolding update_lease released
release_row rows name instance_id generation now =
    update_lease name instance_id generation (λ row. released row now) rows
