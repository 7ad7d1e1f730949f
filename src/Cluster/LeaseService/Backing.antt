-- ===== src/Cluster/LeaseService/Backing.antt =====
-- A node's belief that it holds a lease is backed by the row in the table: how the statements of
-- distributed-lock.service.ts, of the node and of the others, keep it so.
use lyttle_nginx.Prelude.{
  ℕ, ◌+◌, ◌*◌, ◌≤◌, String, ◌≡◌, ◌≢◌, ◌⊎◌, inl, inr, refl, Option, none, some, List, arith, eq_iff,
  str_eq, if◌then◌else◌, Bool-cases, subst, sym,
}
use lyttle_nginx.Cluster.Lease.{
  ClusterLease, Candidate, select_lease, upsert_lease, renew_row, release_row, renewed, released,
  may_take, taken_over, holds_row,
}
use lyttle_nginx.Cluster.Lease.Lookup.{
  sql_eq_iff, after_upsert, select-upsert, after_update, select-update,
}

abbrev OwnedUntil : String → ℕ → Option ClusterLease → Type 0
OwnedUntil node until none = ⊥
OwnedUntil node until (some row) = (row.owner_node_id ≡ some node) × (until ≤ row.expires_at)

-- A belief in holding a lease until a time: the time is over at `now`, or the row agrees.
abbrev pub BackedBy : ℕ → String → ℕ → Option ClusterLease → Type 0
BackedBy now node until row = (until ≤ now) ⊎ OwnedUntil node until row

pub BackedBy-later :
    (now later : ℕ) (node : String) (until : ℕ) (row : Option ClusterLease)
    → now ≤ later
    → BackedBy now node until row
    → BackedBy later node until row
BackedBy-later now later node until row h (inl over) = inl (omega arith)
BackedBy-later now later node until row h (inr owned) = inr owned

-- The belief survives what another node does, and a renewal of its own that does not shorten.
module _ (now : ℕ) (node : String) (until : ℕ) where
  after_upsert-BackedBy :
      (c : Candidate) (o : Option ClusterLease)
      → (c.instance_id ≡ node → until ≤ now + c.ttl_seconds * 1000)
      → BackedBy now node until o
      → BackedBy now node until (some (after_upsert c now o))
  after_upsert-BackedBy c none long (inl over) = inl over
  after_upsert-BackedBy c none long (inr owned) = absurd owned
  after_upsert-BackedBy c (some row) long (inl over) = inl over
  after_upsert-BackedBy c (some row) long (inr owned) =
      unfold may_take taken_over in
      ground (arith, sql_eq_iff row.owner_node_id c.instance_id, eq_iff c.instance_id node)

  after_renew-BackedBy :
      (name instance_id : String) (generation ttl : ℕ) (o : Option ClusterLease)
      → (instance_id ≡ node → until ≤ now + ttl * 1000)
      → BackedBy now node until o
      → BackedBy now node until
          (after_update name instance_id generation (λ row. renewed row ttl now) o)
  after_renew-BackedBy name instance_id generation ttl o long (inl over) = inl over
  after_renew-BackedBy name instance_id generation ttl none long (inr owned) = absurd owned
  after_renew-BackedBy name instance_id generation ttl (some row) long (inr owned) =
      unfold holds_row renewed in ground (arith, sql_eq_iff row.owner_node_id instance_id)

  after_release-BackedBy :
      (name instance_id : String) (generation : ℕ) (o : Option ClusterLease)
      → instance_id ≢ node
      → BackedBy now node until o
      → BackedBy now node until
          (after_update name instance_id generation (λ row. released row now) o)
  after_release-BackedBy name instance_id generation o other (inl over) = inl over
  after_release-BackedBy name instance_id generation none other (inr owned) = absurd owned
  after_release-BackedBy name instance_id generation (some row) other (inr owned) =
      unfold holds_row released in ground (arith, sql_eq_iff row.owner_node_id instance_id)

  -- A statement on `name` as seen under any name.
  BackedBy-if :
      (name j : String) (rows : List ClusterLease) (f : Option ClusterLease → Option ClusterLease)
      → (name ≡ j
          → BackedBy now node until (select_lease rows name)
          → BackedBy now node until (f (select_lease rows name)))
      → BackedBy now node until (select_lease rows j)
      → BackedBy now node until
          (if str_eq name j then f (select_lease rows name) else select_lease rows j)
  BackedBy-if name j rows f keeps h = elim (Bool-cases (str_eq name j)) [
    | inl same ↦
        let p = (eq_iff name j).0 same in
        rw same (keeps p (subst (λ k. BackedBy now node until (select_lease rows k)) (sym p) h))
    | inr other ↦ rw other h
  ]

  pub upsert-BackedBy :
      (c : Candidate) (j : String) (rows : List ClusterLease)
      → (c.lease_name ≡ j → c.instance_id ≡ node → until ≤ now + c.ttl_seconds * 1000)
      → BackedBy now node until (select_lease rows j)
      → BackedBy now node until (select_lease (upsert_lease rows c now).0 j)
  upsert-BackedBy c j rows long h = rw select-upsert (
      BackedBy-if c.lease_name j rows (λ o. some (after_upsert c now o))
        (λ p. after_upsert-BackedBy c (select_lease rows c.lease_name) (long p)) h)

  pub renew_row-BackedBy :
      (name j instance_id : String) (generation ttl : ℕ) (rows : List ClusterLease)
      → (name ≡ j → instance_id ≡ node → until ≤ now + ttl * 1000)
      → BackedBy now node until (select_lease rows j)
      → BackedBy now node until
          (select_lease (renew_row rows name instance_id generation ttl now).0 j)
  unfolding renew_row
  renew_row-BackedBy name j instance_id generation ttl rows long h =
      let change = λ (row : ClusterLease). renewed row ttl now in
      rw (select-update name instance_id generation change (λ row. refl)) (
        BackedBy-if name j rows (after_update name instance_id generation change)
          (λ p. after_renew-BackedBy name instance_id generation ttl _ (long p)) h)

  pub release_row-BackedBy :
      (name j instance_id : String) (generation : ℕ) (rows : List ClusterLease)
      → (name ≡ j → instance_id ≢ node)
      → BackedBy now node until (select_lease rows j)
      → BackedBy now node until
          (select_lease (release_row rows name instance_id generation now).0 j)
  unfolding release_row
  release_row-BackedBy name j instance_id generation rows other h =
      let change = λ (row : ClusterLease). released row now in
      rw (select-update name instance_id generation change (λ row. refl)) (
        BackedBy-if name j rows (after_update name instance_id generation change)
          (λ p. after_release-BackedBy name instance_id generation _ (other p)) h)
