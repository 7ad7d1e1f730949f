-- ===== src/Cluster/Heartbeat/Election.antt =====
-- A cluster with an active node gets a leader (ensureLeaderExists of
-- src/distributed-lock/cluster-heartbeat.service.ts).
use lyttle_nginx.Prelude.{
  ℕ, ◌≡◌, refl, sym, ap, ◌∙◌, String, Bool, true, false, not, ◌&&◌, Option, none, some, is_some,
  any, leb, Bool-cases, Option-cases, inl, inr, if◌then◌else◌, arith,
}
use lyttle_nginx.Prelude.Maps
use lyttle_nginx.Prelude.Numbers.{ℤ, pos, negsuc, at_least}
use lyttle_nginx.Cluster.Lease.{
  ClusterLease, select_lease, release_row, released, sql_eq, may_take, holds_row, inserted,
  taken_over,
}
use lyttle_nginx.Cluster.Lease.Lookup.{after_upsert, select-upsert, select-update}
use lyttle_nginx.Cluster.LeaseService.{
  LeaseEnv, LeaseService, answered, leader_lease_name, untrack_held_lease, accept, configured,
  min_lease_ttl_seconds, default_lease_ttl_seconds, resolve_lease_ttl_seconds,
}
use lyttle_nginx.Cluster.LeaseService.Methods.{
  Rows, candidate, acquire_lease, acquire_leader_lock, release_held, release_lease, is_leader,
  get_active_held_lease, get_lease_snapshot, leader_options,
}
use lyttle_nginx.Cluster.Heartbeat.{
  is_active, Cluster, get_leader_lease_state, lease_active, owned_by, enforce_one_leader,
  checked_leader, drop_stale_belief, take_leader_lock, ensure_leader_exists,
}

-- The row of the leader's lease has an owner and has not expired.
abbrev pub row_active : ℕ → Option ClusterLease → Bool
row_active now none = false
row_active now (some row) = not (leb row.expires_at now) && is_some row.owner_node_id

snapshot_active :
    (now : ℕ) (s : LeaseService) (rows : Rows)
    → lease_active (get_lease_snapshot leader_lease_name (answered now) now s rows)
      ≡ row_active now (select_lease rows leader_lease_name)
unfolding get_lease_snapshot
snapshot_active now s rows = elim (Option-cases (select_lease rows leader_lease_name)) [
  | inl nothing ↦ rw (get_lease_snapshot, nothing) refl
  | inr (row, there) ↦ rw (get_lease_snapshot, there) refl
]

has_active_row :
    (now : ℕ) (c : Cluster)
    → (get_leader_lease_state now c).has_active_lease
      ≡ row_active now (select_lease c.leases leader_lease_name)
unfolding get_leader_lease_state
has_active_row now c = snapshot_active now c.service c.leases

owned_row :
    (now : ℕ) (c : Cluster) (row : ClusterLease) (id : String)
    → select_lease c.leases leader_lease_name ≡ some row
    → owned_by (get_leader_lease_state now c).lease id ≡ sql_eq row.owner_node_id id
unfolding get_leader_lease_state get_lease_snapshot
owned_row now c row id there = rw (owned_by, get_leader_lease_state, there) refl

accept_positive :
    (v : Option ℤ) → leb 1 (accept min_lease_ttl_seconds default_lease_ttl_seconds v) ≡ true
unfolding at_least
accept_positive none = refl
accept_positive (some (pos n)) = ground arith
accept_positive (some (negsuc n)) = refl

ttl_positive : (env : LeaseEnv) → leb 1 (resolve_lease_ttl_seconds env none) ≡ true
unfolding resolve_lease_ttl_seconds
ttl_positive env = accept_positive (configured none env.cluster_lease_ttl_seconds)

after_upsert-active :
    (env : LeaseEnv) (lease_id : String) (now : ℕ) (s : LeaseService) (o : Option ClusterLease)
    → row_active now o ≡ false
    → row_active now
        (some (after_upsert (candidate env lease_id leader_lease_name leader_options s) now o))
      ≡ true
unfolding may_take inserted taken_over
after_upsert-active env lease_id now s none h = ground (arith, ttl_positive env)
after_upsert-active env lease_id now s (some row) h =
    let free : may_take row s.instance_id now ≡ true = ground (arith, h) in
    rw free (ground (arith, ttl_positive env))

taken-active :
    (env : LeaseEnv) (lease_id : String) (now : ℕ) (c : Cluster)
    → row_active now (select_lease c.leases leader_lease_name) ≡ false
    → row_active now (select_lease (take_leader_lock env lease_id now c).1.leases leader_lease_name)
      ≡ true
unfolding acquire_leader_lock acquire_lease
taken-active env lease_id now c h =
    let wanted = candidate env lease_id leader_lease_name leader_options c.service in
    rw (select-upsert wanted now leader_lease_name c.leases)
      (after_upsert-active env lease_id now c.service (select_lease c.leases leader_lease_name) h)

-- A release that does not fit the row leaves it.
release_row-other :
    (now : ℕ) (id : String) (generation : ℕ) (rows : Rows)
    → row_active now (select_lease rows leader_lease_name) ≡ true
    → ((row : ClusterLease)
        → select_lease rows leader_lease_name ≡ some row
        → sql_eq row.owner_node_id id ≡ false)
    → row_active now
        (select_lease (release_row rows leader_lease_name id generation now).0 leader_lease_name)
      ≡ true
unfolding release_row released holds_row
release_row-other now id generation rows led other =
    let change : ClusterLease → ClusterLease = λ r. released r now in
    elim (Option-cases (select_lease rows leader_lease_name)) [
      | inl nothing ↦ let no : false ≡ true = (rw nothing at led) in cc
      | inr (row, there) ↦
          rw
            (
              select-update leader_lease_name id generation change (λ r. refl) leader_lease_name
                  rows,
              there,
              other row there,
            )
            (rw there at led)
    ]

release_lease-other :
    (now : ℕ) (s : LeaseService) (rows : Rows)
    → row_active now (select_lease rows leader_lease_name) ≡ true
    → ((row : ClusterLease)
        → select_lease rows leader_lease_name ≡ some row
        → sql_eq row.owner_node_id s.instance_id ≡ false)
    → row_active now
        (select_lease (release_lease leader_lease_name (answered now) s rows).2 leader_lease_name)
      ≡ true
unfolding release_lease release_held
release_lease-other now s rows led other =
    elim (Option-cases (Maps.get leader_lease_name s.held_leases)) [
      | inl nothing ↦ rw (release_lease, nothing) led
      | inr (held, there) ↦
          rw (release_lease, there)
            (release_row-other now s.instance_id held.generation rows led other)
    ]

same_service :
    (now : ℕ) (s : LeaseService)
    → (get_active_held_lease leader_lease_name now s).1.instance_id ≡ s.instance_id
unfolding get_active_held_lease untrack_held_lease
same_service now s = elim (Option-cases (Maps.get leader_lease_name s.held_leases)) [
  | inl nothing ↦ rw (get_active_held_lease, nothing) refl
  | inr (held, there) ↦ elim (Bool-cases (leb held.expires_at now)) [
    | inl over ↦ rw (get_active_held_lease, there, over) refl
    | inr valid ↦ rw (get_active_held_lease, there, valid) refl
  ]
]

same_instance :
    (now : ℕ) (c : Cluster) → (checked_leader now c).1.service.instance_id ≡ c.service.instance_id
unfolding is_leader
same_instance now c = same_service now c.service

not_owner :
    (now : ℕ) (c : Cluster)
    → owned_by (get_leader_lease_state now c).lease c.service.instance_id ≡ false
    → (row : ClusterLease) → select_lease c.leases leader_lease_name ≡ some row
    → sql_eq row.owner_node_id (checked_leader now c).1.service.instance_id ≡ false
not_owner now c h row there =
    rw (same_instance now c) (sym (owned_row now c row c.service.instance_id there) ∙ h)

drop_belief-active :
    (now : ℕ) (c : Cluster)
    → row_active now (select_lease c.leases leader_lease_name) ≡ true
    → row_active now (select_lease (drop_stale_belief now c).leases leader_lease_name) ≡ true
unfolding drop_stale_belief
drop_belief-active now c led =
    let state = get_leader_lease_state now c in
    let checked = (checked_leader now c).1 in
    let stale_belief =
      (checked_leader now c).0
      && state.has_active_lease
      && not (owned_by state.lease c.service.instance_id) in
    elim (Bool-cases stale_belief) [
      | inr kept ↦ rw (drop_stale_belief, kept) led
      | inl dropped ↦
          let other : owned_by state.lease c.service.instance_id ≡ false =
            ground (arith, dropped) in
          rw (drop_stale_belief, dropped)
            (release_lease-other now checked.service c.leases led (not_owner now c other))
    ]

drop_belief_free :
    (now : ℕ) (c : Cluster)
    → (get_leader_lease_state now c).has_active_lease ≡ false
    → (drop_stale_belief now c).leases ≡ c.leases
unfolding drop_stale_belief
drop_belief_free now c free =
    let state = get_leader_lease_state now c in
    let stale_belief =
      (checked_leader now c).0
      && state.has_active_lease
      && not (owned_by state.lease c.service.instance_id) in
    elim (Bool-cases stale_belief) [
      | inr kept ↦ rw (drop_stale_belief, kept) refl
      | inl dropped ↦
          let led : state.has_active_lease ≡ true = ground (arith, dropped) in
          let no : false ≡ true = sym free ∙ led in cc
    ]

-- The leader's lease is live in a state's table.
abbrev IsLed : ℕ → Cluster → Type 0
IsLed now c = row_active now (select_lease c.leases leader_lease_name) ≡ true

if_IsLed :
    (now : ℕ) (b : Bool) (c d : Cluster)
    → (b ≡ true → IsLed now c)
    → (b ≡ false → IsLed now d)
    → IsLed now (if b then c else d)
if_IsLed now true c d h k = h refl
if_IsLed now false c d h k = k refl

ensure-IsLed :
    (env : LeaseEnv) (lease_id : String) (now : ℕ) (c : Cluster)
    → any (λ n. is_active n.status) c.nodes ≡ true
    → IsLed now (ensure_leader_exists env lease_id now c)
unfolding ensure_leader_exists enforce_one_leader
ensure-IsLed env lease_id now c somebody =
    let checked = drop_stale_belief now c in
    let has_active = (get_leader_lease_state now c).has_active_lease in
    let led = enforce_one_leader now checked in
    let elected = enforce_one_leader now (take_leader_lock env lease_id now checked).1 in
    let ended =
      if_IsLed now has_active led elected
        (λ h. drop_belief-active now c (sym (has_active_row now c) ∙ h))
        (λ h. taken-active env lease_id now checked (
          ap (λ rows. row_active now (select_lease rows leader_lease_name))
            (drop_belief_free now c h)
          ∙ sym (has_active_row now c)
          ∙ h)) in
    if_IsLed now (any (λ n. is_active n.status) c.nodes) (if has_active then led else elected) c
      (λ h. ended) (λ h. let no : true ≡ false = sym somebody ∙ h in cc)

-- Where a node is active, one check is enough for the cluster to have a leader: after
-- ensureLeaderExists on any node, in any state of its own beliefs and of the two tables, the
-- leader's lease has an owner and has not expired, be it the one before or a new one.
pub ensure_leader_exists_elects :
    (env : LeaseEnv) (lease_id : String) (now : ℕ) (c : Cluster)
    → any (λ n. is_active n.status) c.nodes ≡ true
    → (get_leader_lease_state now (ensure_leader_exists env lease_id now c)).has_active_lease ≡ true
ensure_leader_exists_elects env lease_id now c somebody =
    has_active_row now (ensure_leader_exists env lease_id now c)
    ∙ ensure-IsLed env lease_id now c somebody
