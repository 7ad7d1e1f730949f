-- ===== src/Cluster/LeaseService/Calls.antt =====
-- What the calls of distributed-lock.service.ts keep of the node that makes them and of the others,
-- whether their statements are answered, lost or refused.
use lyttle_nginx.Prelude.{
  ℕ, String, ◌≡◌, ◌≢◌, inl, inr, refl, Bool, Option, none, some, List, arith, eq_iff, leb,
  Bool-cases, Option-cases, subst, ap, ◌∙◌,
}
use lyttle_nginx.Prelude.Maps
use lyttle_nginx.Prelude.Maps.{get-delete}
use lyttle_nginx.Cluster.Lease.{ClusterLease, upsert_lease, renew_row}
use lyttle_nginx.Cluster.Lease.Written.{IsWritten, upsert-IsWritten, renew-IsWritten}
use lyttle_nginx.Cluster.LeaseService.{
  LeaseEnv, AcquireLeaseOptions, HeldLease, LeaseService, Reply, answered, lost, refused,
  resolve_lease_ttl_seconds, untrack_held_lease,
}
use lyttle_nginx.Cluster.LeaseService.Methods.{
  acquire_lease, renew_lease, release_lease, get_active_held_lease, candidate, renewal_options,
  acquire_answered, renew_answered, renew_held, release_held,
}
use lyttle_nginx.Cluster.LeaseService.Sound.{
  NodeInv, upsert-NodeInv, renew_row-NodeInv, release_row-NodeInv, untrack-NodeInv, track-NodeInv,
}

-- What happens to a statement: `Reply` without the time.
pub data Fate : Type 0 where
  answers loses refuses : Fate

abbrev pub at_clock : Fate → ℕ → Reply
at_clock answers t = answered t
at_clock loses t = lost t
at_clock refuses t = refused

-- An acquisition that leaves the time to live to the environment.
abbrev pub default_ttl : Option Bool → Option ℕ → AcquireLeaseOptions
default_ttl auto_renew interval = record {
  ttl_seconds = none;
  auto_renew = auto_renew;
  renew_interval_ms = interval;
}

resolve-resolve :
    (env : LeaseEnv)
    → resolve_lease_ttl_seconds env (some (resolve_lease_ttl_seconds env none))
      ≡ resolve_lease_ttl_seconds env none
unfolding resolve_lease_ttl_seconds
resolve-resolve env = ground arith

module _ {clock : ℕ} {rows : List ClusterLease} {node : String} {ttl : ℕ} {s : LeaseService}
    (env : LeaseEnv) (name : String) (now : ℕ) where
  acquire_answered-NodeInv :
      (options : AcquireLeaseOptions) (o : Option ClusterLease)
      → ((row : ClusterLease) → o ≡ some row → IsWritten rows name node ttl clock row)
      → NodeInv clock rows node ttl s
      → NodeInv clock rows node ttl (acquire_answered env name options o now s).1
  unfolding acquire_answered
  acquire_answered-NodeInv options none written inv = inv
  acquire_answered-NodeInv options (some row) written inv =
      track-NodeInv env name row now options (written row refl) inv

  renew_answered-NodeInv :
      (held : HeldLease) (o : Option ClusterLease)
      → ((row : ClusterLease) → o ≡ some row → IsWritten rows name node ttl clock row)
      → NodeInv clock rows node ttl s
      → NodeInv clock rows node ttl (renew_answered env name held o now s).1
  unfolding renew_answered
  renew_answered-NodeInv held none written inv = untrack-NodeInv name inv
  renew_answered-NodeInv held (some row) written inv =
      track-NodeInv env name row now (renewal_options held) (written row refl) inv

-- The node that makes the call keeps its invariant.
module _ {clock : ℕ} {rows : List ClusterLease} {node : String} {s : LeaseService} (env : LeaseEnv)
    (inv : NodeInv clock rows node (resolve_lease_ttl_seconds env none) s) where
  abbrev pub ttl : ℕ
  ttl = resolve_lease_ttl_seconds env none

  pub acquire-NodeInv :
      (id name : String) (auto_renew : Option Bool) (interval : Option ℕ) (fate : Fate) (now : ℕ)
      → let result =
          acquire_lease env id name
            (default_ttl auto_renew interval)
            (at_clock fate clock)
            now
            s
            rows in
        NodeInv clock result.2 node ttl result.1
  unfolding acquire_lease
  acquire-NodeInv id name auto_renew interval answers now =
      let c = candidate env id name (default_ttl auto_renew interval) s in
      acquire_answered-NodeInv env name now (default_ttl auto_renew interval)
        (upsert_lease rows c clock).1
        (λ row e.
          subst (λ n. IsWritten (upsert_lease rows c clock).0 name n ttl clock row) inv.identity
            (upsert-IsWritten c clock rows row e))
        (upsert-NodeInv c (λ _. refl) inv)
  acquire-NodeInv id name auto_renew interval loses now =
      upsert-NodeInv (candidate env id name (default_ttl auto_renew interval) s) (λ _. refl) inv
  acquire-NodeInv id name auto_renew interval refuses now = inv

  module _ (name : String) (held : HeldLease) (got : Maps.get name s.held_leases ≡ some held) where
    same_ttl : resolve_lease_ttl_seconds env (some held.ttl_seconds) ≡ ttl
    same_ttl =
        ap (λ n. resolve_lease_ttl_seconds env (some n)) (inv.sound name held got).same_ttl
        ∙ resolve-resolve env

    renew_held-NodeInv :
        (fate : Fate) (now : ℕ)
        → let result = renew_held env name none held (at_clock fate clock) now s rows in
          NodeInv clock result.2 node ttl result.1
    unfolding renew_held
    renew_held-NodeInv answers now =
        let sent = resolve_lease_ttl_seconds env (some held.ttl_seconds) in
        let after = renew_row rows name s.instance_id held.generation sent clock in
        renew_answered-NodeInv env name now held after.1
          (λ row e.
            subst (λ n. IsWritten after.0 name n ttl clock row) inv.identity
              (subst (λ n. IsWritten after.0 name s.instance_id n clock row) same_ttl
                (renew-IsWritten name s.instance_id held.generation sent clock rows row e)))
          (renew_row-NodeInv name s.instance_id held.generation sent (λ _. same_ttl) inv)
    renew_held-NodeInv loses now =
        renew_row-NodeInv name s.instance_id held.generation _ (λ _. same_ttl) inv
    renew_held-NodeInv refuses now = inv

  pub renew-NodeInv :
      (name : String) (fate : Fate) (now : ℕ)
      → let result = renew_lease env name none (at_clock fate clock) now s rows in
        NodeInv clock result.2 node ttl result.1
  unfolding renew_lease
  renew-NodeInv name fate now = elim (Option-cases (Maps.get name s.held_leases)) [
    | inl e ↦ rw (e, renew_lease) inv
    | inr (held, e) ↦ rw (e, renew_lease) (renew_held-NodeInv name held e fate now)
  ]

  untracked : (name : String) → Maps.get name (untrack_held_lease name s).held_leases ≡ none
  unfolding untrack_held_lease
  untracked name = rw (get-delete name name s.held_leases) (ground (arith, eq_iff name name))

  release_held-NodeInv :
      (name : String) (held : HeldLease) (fate : Fate)
      → let result = release_held name held (at_clock fate clock) s rows in
        NodeInv clock result.2 node ttl result.1
  unfolding release_held
  release_held-NodeInv name held answers =
      release_row-NodeInv name s.instance_id held.generation (λ _. untracked name)
        (untrack-NodeInv name inv)
  release_held-NodeInv name held loses =
      release_row-NodeInv name s.instance_id held.generation (λ _. untracked name)
        (untrack-NodeInv name inv)
  release_held-NodeInv name held refuses = untrack-NodeInv name inv

  pub release-NodeInv :
      (name : String) (fate : Fate)
      → let result = release_lease name (at_clock fate clock) s rows in
        NodeInv clock result.2 node ttl result.1
  unfolding release_lease
  release-NodeInv name fate = elim (Option-cases (Maps.get name s.held_leases)) [
    | inl e ↦ rw (e, release_lease) inv
    | inr (held, e) ↦ rw (e, release_lease) (release_held-NodeInv name held fate)
  ]

  pub active-NodeInv :
      (name : String) (now : ℕ) → NodeInv clock rows node ttl (get_active_held_lease name now s).1
  unfolding get_active_held_lease
  active-NodeInv name now = elim (Option-cases (Maps.get name s.held_leases)) [
    | inl e ↦ rw (e, get_active_held_lease) inv
    | inr (held, e) ↦
        rw (e, get_active_held_lease)
          (elim (Bool-cases (leb held.expires_at now)) [
            | inl over ↦ rw over (untrack-NodeInv name inv)
            | inr active ↦ rw active inv
          ])
  ]

-- Another node, with a name of its own, keeps its invariant too.
module _ {clock : ℕ} {rows : List ClusterLease} {node : String} {ttl : ℕ} {other : LeaseService}
    (s : LeaseService) (apart : s.instance_id ≢ node)
    (inv : NodeInv clock rows node ttl other) where
  pub acquire-others :
      (env : LeaseEnv) (id name : String) (options : AcquireLeaseOptions) (fate : Fate) (now : ℕ)
      → NodeInv clock
          (acquire_lease env id name options (at_clock fate clock) now s rows).2
          node
          ttl
          other
  unfolding acquire_lease
  acquire-others env id name options answers now =
      upsert-NodeInv (candidate env id name options s) (λ mine. absurd (apart mine)) inv
  acquire-others env id name options loses now =
      upsert-NodeInv (candidate env id name options s) (λ mine. absurd (apart mine)) inv
  acquire-others env id name options refuses now = inv

  renew_held-others :
      (env : LeaseEnv) (name : String) (held : HeldLease) (fate : Fate) (now : ℕ)
      → NodeInv clock
          (renew_held env name none held (at_clock fate clock) now s rows).2
          node
          ttl
          other
  unfolding renew_held
  renew_held-others env name held answers now =
      renew_row-NodeInv name s.instance_id held.generation _ (λ mine. absurd (apart mine)) inv
  renew_held-others env name held loses now =
      renew_row-NodeInv name s.instance_id held.generation _ (λ mine. absurd (apart mine)) inv
  renew_held-others env name held refuses now = inv

  pub renew-others :
      (env : LeaseEnv) (name : String) (fate : Fate) (now : ℕ)
      → NodeInv clock (renew_lease env name none (at_clock fate clock) now s rows).2 node ttl other
  unfolding renew_lease
  renew-others env name fate now = elim (Option-cases (Maps.get name s.held_leases)) [
    | inl e ↦ rw (e, renew_lease) inv
    | inr (held, e) ↦ rw (e, renew_lease) (renew_held-others env name held fate now)
  ]

  release_held-others :
      (name : String) (held : HeldLease) (fate : Fate)
      → NodeInv clock (release_held name held (at_clock fate clock) s rows).2 node ttl other
  unfolding release_held
  release_held-others name held answers =
      release_row-NodeInv name s.instance_id held.generation (λ mine. absurd (apart mine)) inv
  release_held-others name held loses =
      release_row-NodeInv name s.instance_id held.generation (λ mine. absurd (apart mine)) inv
  release_held-others name held refuses = inv

  pub release-others :
      (name : String) (fate : Fate)
      → NodeInv clock (release_lease name (at_clock fate clock) s rows).2 node ttl other
  unfolding release_lease
  release-others name fate = elim (Option-cases (Maps.get name s.held_leases)) [
    | inl e ↦ rw (e, release_lease) inv
    | inr (held, e) ↦ rw (e, release_lease) (release_held-others name held fate)
  ]
