-- ===== src/Cluster/LeaseService/Leadership.antt =====
-- At most one node believes that it holds a lease (distributed-lock.service.ts): calls of any
-- number of nodes in any order, with answers lost and statements refused. A call is one step, from its
-- start to the handling of its answer: a reply that is handled after another call of its node is left
-- out.
use lyttle_nginx.Prelude.{
  ℕ, ◌≤◌, ◌<◌, String, ◌≡◌, ◌≢◌, inl, inr, refl, Bool, Option, none, some, List, [], arith, eq_iff,
  str_eq, if◌then◌else◌, Bool-cases, subst, sym, ap, ◌∙◌,
}
use lyttle_nginx.Prelude.Maps
use lyttle_nginx.Cluster.Lease.{ClusterLease, select_lease}
use lyttle_nginx.Cluster.LeaseService.{LeaseEnv, HeldLease, LeaseService, resolve_lease_ttl_seconds}
use lyttle_nginx.Cluster.LeaseService.Methods.{
  acquire_lease, renew_lease, release_lease, get_active_held_lease,
}
use lyttle_nginx.Cluster.LeaseService.Backing.{BackedBy}
use lyttle_nginx.Cluster.LeaseService.Sound.{NodeInv, NodeInv-later}
use lyttle_nginx.Cluster.LeaseService.Calls.{
  Fate, at_clock, default_ttl, acquire-NodeInv, renew-NodeInv, release-NodeInv, active-NodeInv,
  acquire-others, renew-others, release-others,
}

-- The database clock, the table, and the service of every node, under its instance id.
pub record World : Type 0 where
  pub clock : ℕ
  pub rows : List ClusterLease
  pub service : String → LeaseService

abbrev pub set_service : String → LeaseService → (String → LeaseService) → String → LeaseService
set_service node s services j = if str_eq node j then s else services j

abbrev pub after_call : World → String → LeaseService → List ClusterLease → World
after_call w node s rows = record w { rows = rows; service = set_service node s w.service }

-- A call of a node runs its statement at the database time; `now` is what Date.now() gives it.
pub data Step (env : String → LeaseEnv) (w : World) : World → Type 0 where
  tick : (later : ℕ) → w.clock ≤ later → Step env w (record w { clock = later })
  acquire :
      (node id name : String) (auto_renew : Option Bool) (interval : Option ℕ) (fate : Fate)
      (now : ℕ)
      → Step env w (
          let r =
            acquire_lease
              (env node)
              id
              name
              (default_ttl auto_renew interval)
              (at_clock fate w.clock)
              now
              (w.service node)
              w.rows in
          after_call w node r.1 r.2)
  renew :
      (node name : String) (fate : Fate) (now : ℕ)
      → Step env w (
          let r =
            renew_lease (env node) name none (at_clock fate w.clock) now (w.service node) w.rows in
          after_call w node r.1 r.2)
  release :
      (node name : String) (fate : Fate)
      → Step env w (
          let r = release_lease name (at_clock fate w.clock) (w.service node) w.rows in
          after_call w node r.1 r.2)
  ask :
      (node name : String) (now : ℕ)
      → Step env w (after_call w node (get_active_held_lease name now (w.service node)).1 w.rows)

pub data Reachable (env : String → LeaseEnv) : World → Type 0 where
  start :
      {w : World}
      → ((node : String)
          → ((w.service node).instance_id ≡ node) × ((w.service node).held_leases ≡ []))
      → Reachable env w
  next : {w w' : World} → Reachable env w → Step env w w' → Reachable env w'

module _ (env : String → LeaseEnv) where
  abbrev WorldInv : World → Type 0
  WorldInv w =
      (node : String)
      → NodeInv w.clock w.rows node (resolve_lease_ttl_seconds (env node) none) (w.service node)

  after_call-WorldInv :
      (w : World) (node : String) (s : LeaseService) (rows : List ClusterLease)
      → NodeInv w.clock rows node (resolve_lease_ttl_seconds (env node) none) s
      → ((j : String)
          → node ≢ j
          → NodeInv w.clock rows j (resolve_lease_ttl_seconds (env j) none) (w.service j))
      → WorldInv (after_call w node s rows)
  after_call-WorldInv w node s rows mine others j = elim (Bool-cases (str_eq node j)) [
    | inl same ↦
        let p = (eq_iff node j).0 same in
        rw same
          (subst (λ k. NodeInv w.clock rows k (resolve_lease_ttl_seconds (env k) none) s) p mine)
    | inr other ↦ rw other (others j (λ p. cc ((eq_iff node j).1 p, other)))
  ]

  Step-WorldInv : {w w' : World} → Step env w w' → WorldInv w → WorldInv w'
  Step-WorldInv {w} (tick later le) inv = λ node. NodeInv-later later le (inv node)
  Step-WorldInv {w} (acquire node id name auto_renew interval fate now) inv =
      after_call-WorldInv w node _ _
        (acquire-NodeInv (env node) (inv node) id name auto_renew interval fate now)
        (λ j ne.
          acquire-others (w.service node) (λ p. ne (sym (inv node).identity ∙ p)) (inv j) (env node)
            id name (default_ttl auto_renew interval) fate now)
  Step-WorldInv {w} (renew node name fate now) inv =
      after_call-WorldInv w node _ _ (renew-NodeInv (env node) (inv node) name fate now) (λ j ne.
        renew-others (w.service node) (λ p. ne (sym (inv node).identity ∙ p)) (inv j) (env node)
          name fate now)
  Step-WorldInv {w} (release node name fate) inv =
      after_call-WorldInv w node _ _ (release-NodeInv (env node) (inv node) name fate) (λ j ne.
        release-others (w.service node) (λ p. ne (sym (inv node).identity ∙ p)) (inv j) name fate)
  Step-WorldInv {w} (ask node name now) inv =
      after_call-WorldInv w node _ _ (active-NodeInv (env node) (inv node) name now) (λ j _. inv j)

  Reachable-WorldInv : {w : World} → Reachable env w → WorldInv w
  Reachable-WorldInv (start fresh) = λ node. record {
    identity = (fresh node).0;
    sound = λ name held got.
        unfold Maps.get in
        cc (ap (λ (m : List (String × HeldLease)). Maps.get name m) (fresh node).1, got);
  }
  Reachable-WorldInv (next r st) = Step-WorldInv st (Reachable-WorldInv r)

-- `node` believes at `now`, by its own clock, that it holds the lease.
abbrev pub Believes : World → String → String → ℕ → Type 0
Believes w node name now =
    (held : HeldLease) × ((get_active_held_lease name now (w.service node)).0 ≡ some held)

believed :
    (s : LeaseService) (name : String) (now : ℕ) (held : HeldLease)
    → (get_active_held_lease name now s).0 ≡ some held
    → (Maps.get name s.held_leases ≡ some held) × (now < held.expires_at)
unfolding get_active_held_lease
believed s name now held e = ground arith

owner_of :
    (clock : ℕ) (node : String) (until : ℕ) (o : Option ClusterLease)
    → BackedBy clock node until o
    → clock < until
    → (row : ClusterLease) × (o ≡ some row) × (row.owner_node_id ≡ some node)
owner_of clock node until o (inl over) live = absurd (omega arith)
owner_of clock node until none (inr owned) live = absurd owned
owner_of clock node until (some row) (inr owned) live = (row, refl, owned.0)

-- In every world that calls of any number of nodes reach in any order, each call running to
-- the end of its handling of the answer before the next starts, with any statement answered, run without its answer being received, or not run: a node that believes
-- it holds a lease, by a clock that is not behind the database's, is the owner of the lease's row;
-- so two nodes that believe it of one lease are the same node. The times to live are those that
-- each node's environment sets.
pub one_leader :
    (env : String → LeaseEnv) (w : World) (a b name : String) (now_a now_b : ℕ)
    → Reachable env w
    → w.clock ≤ now_a
    → w.clock ≤ now_b
    → Believes w a name now_a
    → Believes w b name now_b
    → (a ≡ b)
      × (row : ClusterLease) × (select_lease w.rows name ≡ some row)
      × (row.owner_node_id ≡ some a)
one_leader env w a b name now_a now_b reachable ca cb (held_a, ba) (held_b, bb) =
    let (got_a, live_a) = believed (w.service a) name now_a held_a ba in
    let (got_b, live_b) = believed (w.service b) name now_b held_b bb in
    let inv = Reachable-WorldInv env reachable in
    let (row, stands, mine) =
      owner_of w.clock a held_a.expires_at (select_lease w.rows name)
        ((inv a).sound name held_a got_a).backed (omega arith) in
    let (row', stands', mine') =
      owner_of w.clock b held_b.expires_at (select_lease w.rows name)
        ((inv b).sound name held_b got_b).backed (omega arith) in
    (cc (stands, stands', mine, mine'), row, stands, mine)
