-- ===== src/Cluster/LeaseService/Sound.antt =====
-- What the lease methods of distributed-lock.service.ts keep of one node: every lease that it holds
-- locally is backed by the table. The node's renewals and acquisitions all use the same time to
-- live, `ttl`, which is what the environment resolves to.
use lyttle_nginx.Prelude.{
  ℕ, ◌+◌, ◌*◌, ◌≤◌, String, ◌≡◌, ◌⊎◌, inl, inr, none, some, List, arith, eq_iff, str_eq, Bool-cases,
  subst, ap, ◌∙◌,
}
use lyttle_nginx.Prelude.Maps
use lyttle_nginx.Prelude.Maps.{get-insert, get-delete}
use lyttle_nginx.Cluster.Lease.{
  ClusterLease, Candidate, select_lease, upsert_lease, renew_row, release_row,
}
use lyttle_nginx.Cluster.LeaseService.{
  LeaseEnv, AcquireLeaseOptions, HeldLease, LeaseService, LeaseSnapshot, to_lease_snapshot,
  track_held_lease, untrack_held_lease,
}
use lyttle_nginx.Cluster.LeaseService.Backing.{
  BackedBy, BackedBy-later, upsert-BackedBy, renew_row-BackedBy, release_row-BackedBy,
}

pub record IsSound (clock : ℕ) (rows : List ClusterLease) (node : String) (ttl : ℕ) (name : String)
    (held : HeldLease) : Type 0 where
  pub same_ttl : held.ttl_seconds ≡ ttl
  pub bounded : held.expires_at ≤ clock + ttl * 1000
  pub backed : BackedBy clock node held.expires_at (select_lease rows name)

pub record NodeInv (clock : ℕ) (rows : List ClusterLease) (node : String) (ttl : ℕ)
    (s : LeaseService) : Type 0 where
  pub identity : s.instance_id ≡ node
  pub sound :
      (name : String) (held : HeldLease)
      → Maps.get name s.held_leases ≡ some held
      → IsSound clock rows node ttl name held

-- After tracking, a name holds the new snapshot, or what it held before.
pub track-get :
    (env : LeaseEnv) (name j : String) (snapshot : LeaseSnapshot) (options : AcquireLeaseOptions)
    (s : LeaseService) (held : HeldLease)
    → Maps.get j (track_held_lease env name snapshot options s).held_leases ≡ some held
    → ((name ≡ j) × (held.snapshot ≡ snapshot)) ⊎ (Maps.get j s.held_leases ≡ some held)
unfolding track_held_lease
track-get env name j snapshot options s held got = elim (Bool-cases (str_eq name j)) [
  | inl same ↦
      inl (
        (eq_iff name j).0 same,
        some_snapshot (rw (get-insert name j _ s.held_leases, same) at got),
      )
  | inr other ↦ inr (rw (get-insert name j _ s.held_leases, other) at got)
]
  where
    some_snapshot : {a b : HeldLease} → some a ≡ some b → b.snapshot ≡ a.snapshot
    some_snapshot p = cc

module _ {clock : ℕ} {rows : List ClusterLease} {node : String} {ttl : ℕ} {s : LeaseService} where
  pub NodeInv-later :
      (later : ℕ) → clock ≤ later → NodeInv clock rows node ttl s → NodeInv later rows node ttl s
  NodeInv-later later le inv = record {
    identity = inv.identity;
    sound = λ name held got.
        let h = inv.sound name held got in
        record {
          same_ttl = h.same_ttl;
          bounded = omega (arith, h.bounded);
          backed = BackedBy-later clock later node held.expires_at _ le h.backed;
        };
  }

  pub upsert-NodeInv :
      (c : Candidate)
      → (c.instance_id ≡ node → c.ttl_seconds ≡ ttl)
      → NodeInv clock rows node ttl s
      → NodeInv clock (upsert_lease rows c clock).0 node ttl s
  upsert-NodeInv c same inv = record {
    identity = inv.identity;
    sound = λ name held got.
        let h = inv.sound name held got in
        record {
          same_ttl = h.same_ttl;
          bounded = h.bounded;
          backed =
              upsert-BackedBy clock node held.expires_at c name rows
                (λ _ mine. omega (arith, h.bounded, ap (λ (t : ℕ). t * 1000) (same mine))) h.backed;
        };
  }

  pub renew_row-NodeInv :
      (name instance_id : String) (generation ttl' : ℕ)
      → (instance_id ≡ node → ttl' ≡ ttl)
      → NodeInv clock rows node ttl s
      → NodeInv clock (renew_row rows name instance_id generation ttl' clock).0 node ttl s
  renew_row-NodeInv name instance_id generation ttl' same inv = record {
    identity = inv.identity;
    sound = λ j held got.
        let h = inv.sound j held got in
        record {
          same_ttl = h.same_ttl;
          bounded = h.bounded;
          backed =
              renew_row-BackedBy clock node held.expires_at name j instance_id generation ttl' rows
                (λ _ mine. omega (arith, h.bounded, ap (λ (t : ℕ). t * 1000) (same mine))) h.backed;
        };
  }

  pub release_row-NodeInv :
      (name instance_id : String) (generation : ℕ)
      → (instance_id ≡ node → Maps.get name s.held_leases ≡ none)
      → NodeInv clock rows node ttl s
      → NodeInv clock (release_row rows name instance_id generation clock).0 node ttl s
  release_row-NodeInv name instance_id generation gone inv = record {
    identity = inv.identity;
    sound = λ j held got.
        let h = inv.sound j held got in
        record {
          same_ttl = h.same_ttl;
          bounded = h.bounded;
          backed =
              release_row-BackedBy clock node held.expires_at name j instance_id generation rows
                (λ same mine.
                  cc (gone mine, ap (λ (k : String). Maps.get k s.held_leases) same, got))
                h.backed;
        };
  }

  pub untrack-NodeInv :
      (name : String)
      → NodeInv clock rows node ttl s
      → NodeInv clock rows node ttl (untrack_held_lease name s)
  unfolding untrack_held_lease
  untrack-NodeInv name inv = record {
    identity = inv.identity;
    sound = λ j held got. inv.sound j held (ground (arith, get-delete name j s.held_leases));
  }

  pub track-NodeInv :
      (env : LeaseEnv) (name : String) (row : ClusterLease) (now : ℕ)
      (options : AcquireLeaseOptions)
      → (select_lease rows name ≡ some row)
        × (row.owner_node_id ≡ some node)
        × (row.ttl_seconds ≡ ttl)
        × (row.expires_at ≡ clock + ttl * 1000)
      → NodeInv clock rows node ttl s
      → NodeInv clock rows node ttl
          (track_held_lease env name (to_lease_snapshot s row now) options s)
  unfolding track_held_lease to_lease_snapshot
  track-NodeInv env name row now options (stands, owner, ttl_eq, expires) inv = record {
    identity = inv.identity;
    sound = λ j held got.
        elim (track-get env name j (to_lease_snapshot s row now) options s held got) [
          | inl (same, snap) ↦
              let ttl_same = ap (λ (x : LeaseSnapshot). x.ttl_seconds) snap in
              let until = ap (λ (x : LeaseSnapshot). x.expires_at) snap in
              record {
                same_ttl = ttl_same ∙ ttl_eq;
                bounded = omega (arith, until);
                backed =
                    subst (λ k. BackedBy clock node held.expires_at (select_lease rows k)) same
                      (rw stands (inr (owner, omega (arith, until))));
              }
          | inr before ↦ inv.sound j held before
        ];
  }
