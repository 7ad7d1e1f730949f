-- ===== src/Cluster/Heartbeat/Flags.antt =====
-- The leader flags in the nodes' table (src/distributed-lock/cluster-heartbeat.service.ts).
use lyttle_nginx.Prelude.{
  ℕ, ◌≡◌, refl, String, Bool, true, false, not, ◌&&◌, ◌||◌, Option, none, some, is_some, List, [],
  ◌∷◌, any, all, keep, map, str_eq, Bool-cases, Option-cases, inl, inr, if◌then◌else◌, arith,
}
use lyttle_nginx.Cluster.LeaseService.{LeaseEnv, LeaseService}
use lyttle_nginx.Cluster.LeaseService.Methods.{Rows}
use lyttle_nginx.Cluster.Heartbeat.{
  is_active, ClusterNode, Cluster, find_node, update_node, get_leader_lease_state, flagged,
  reconcile_leader_flags, enforce_one_leader, registered, register_node, beat, beaten,
  send_heartbeat, signed_off, unregister_node, older, delete_threshold_ms, marked_stale,
  take_leader_lock, delete_old_nodes, cleanup_stale_nodes, drop_stale_belief, ensure_leader_exists,
  after_election, try_become_leader, owned_by, has_issues,
}

-- No row but that with this id is flagged.
abbrev pub led_by : String → List ClusterNode → Bool
led_by id nodes = all (λ n. not n.is_leader || str_eq n.instance_id id) nodes

-- At most one node is flagged as the leader.
abbrev pub IsSingle : List ClusterNode → Type 0
IsSingle nodes = (id : String) × (led_by id nodes ≡ true)

-- A change that raises no flag.
abbrev IsMeek : (ClusterNode → ClusterNode) → Type 0
IsMeek change =
    (n : ClusterNode)
    → ((change n).instance_id ≡ n.instance_id) × ((not (change n).is_leader || n.is_leader) ≡ true)

meek_row :
    (change : ClusterNode → ClusterNode)
    → IsMeek change
    → (id : String) (n : ClusterNode) → (not n.is_leader || str_eq n.instance_id id) ≡ true
    → (not (change n).is_leader || str_eq (change n).instance_id id) ≡ true
meek_row change meek id n h = let (same, lower) = meek n in rw same (ground (arith, lower, h))

led_by-map :
    (change : ClusterNode → ClusterNode)
    → IsMeek change
    → (id : String) (nodes : List ClusterNode) → led_by id nodes ≡ true
    → led_by id (map change nodes) ≡ true
led_by-map change meek id [] h = refl
led_by-map change meek id (n ∷ ns) h =
    let here : (not n.is_leader || str_eq n.instance_id id) ≡ true = ground (arith, h) in
    let others : led_by id ns ≡ true = ground (arith, h) in
    rw (meek_row change meek id n here) (led_by-map change meek id ns others)

led_by-keep :
    (test : ClusterNode → Bool) (id : String) (nodes : List ClusterNode)
    → led_by id nodes ≡ true
    → led_by id (keep test nodes) ≡ true
led_by-keep test id [] h = refl
led_by-keep test id (n ∷ ns) h = ground (arith, led_by-keep test id ns, h)

led_by-update :
    (change : ClusterNode → ClusterNode)
    → IsMeek change
    → (key id : String) (nodes : List ClusterNode) → led_by id nodes ≡ true
    → led_by id (update_node change key nodes) ≡ true
unfolding update_node
led_by-update change meek key id [] h = refl
led_by-update change meek key id (n ∷ ns) h =
    let here : (not n.is_leader || str_eq n.instance_id id) ≡ true = ground (arith, h) in
    let others : led_by id ns ≡ true = ground (arith, h) in
    let rest = led_by-update change meek key id ns others in
    elim (Bool-cases (str_eq n.instance_id key)) [
      | inr other ↦ rw (other, here) rest
      | inl match ↦ rw (match, meek_row change meek id n here) rest
    ]

flagged-led_by :
    (leader : ClusterNode) (nodes : List ClusterNode)
    → led_by leader.instance_id (map (flagged (some leader)) nodes) ≡ true
flagged-led_by leader [] = refl
flagged-led_by leader (n ∷ ns) = ground (arith, flagged-led_by leader ns)

unflagged-led_by :
    (id : String) (nodes : List ClusterNode) → led_by id (map (flagged none) nodes) ≡ true
unflagged-led_by id [] = refl
unflagged-led_by id (n ∷ ns) = unflagged-led_by id ns

enforce-IsSingle : (now : ℕ) (c : Cluster) → IsSingle (enforce_one_leader now c).nodes
unfolding enforce_one_leader reconcile_leader_flags
enforce-IsSingle now c = elim (Option-cases (get_leader_lease_state now c).active_leader_node) [
  | inl nobody ↦ rw nobody ("", unflagged-led_by "" c.nodes)
  | inr (leader, leads) ↦ rw leads (leader.instance_id, flagged-led_by leader c.nodes)
]

register-IsSingle :
    (ip : Option String) (now : ℕ) (c : Cluster)
    → IsSingle c.nodes
    → IsSingle (register_node ip now c).nodes
unfolding register_node
register-IsSingle ip now c (id, h) =
    elim (Bool-cases (is_some (find_node c.nodes c.service.instance_id))) [
      | inl known ↦ rw known (
        id,
        led_by-update (registered c.service.hostname ip now) (λ n. (refl, ground arith))
            c.service.instance_id id c.nodes h,
      )
      | inr unknown ↦ rw unknown (id, h)
    ]

heartbeat-IsSingle :
    (ip : Option String) (now : ℕ) (c : Cluster)
    → IsSingle c.nodes
    → IsSingle (send_heartbeat ip now c).nodes
unfolding send_heartbeat
heartbeat-IsSingle ip now c (id, h) =
    let state = get_leader_lease_state now c in
    let leads = state.has_active_lease && owned_by state.lease c.service.instance_id in
    elim (Bool-cases (is_some (find_node c.nodes c.service.instance_id))) [
      | inr unknown ↦ rw unknown (id, h)
      | inl known ↦ elim (Bool-cases (leads || has_issues state.issues)) [
        | inl enforced ↦ rw (known, enforced) (enforce-IsSingle now (beaten ip now leads c))
        | inr left ↦
            let follows : leads ≡ false = ground (arith, left) in
            rw (known, left)
              (
                id,
                led_by-update (beat ip now leads) (λ n. (refl, rw follows refl))
                    c.service.instance_id id c.nodes h,
              )
      ]
    ]

unregister-IsSingle :
    (now : ℕ) (c : Cluster) → IsSingle c.nodes → IsSingle (unregister_node now c).nodes
unfolding unregister_node
unregister-IsSingle now c (id, h) =
    (id, led_by-update (signed_off now) (λ n. (refl, refl)) c.service.instance_id id c.nodes h)

cleanup-IsSingle : (now : ℕ) (c : Cluster) → IsSingle (cleanup_stale_nodes now c).nodes
unfolding cleanup_stale_nodes delete_old_nodes
cleanup-IsSingle now c =
    let marked = record c { nodes = map (marked_stale now) c.nodes } in
    let (id, h) = enforce-IsSingle now marked in
    (
      id,
      led_by-keep (λ n. not (older delete_threshold_ms now n && not (is_active n.status))) id
          (enforce_one_leader now marked).nodes h,
    )

module _ (P : Cluster → Type 0) where
  pub on_either : (b : Bool) (c d : Cluster) → P c → P d → P (if b then c else d)
  on_either true c d h k = h
  on_either false c d h k = k

  pub on_either_answer :
      (b : Bool) (c d : Bool × Cluster) → P c.1 → P d.1 → P (if b then c else d).1
  on_either_answer true c d h k = h
  on_either_answer false c d h k = k

abbrev HasSingle : Cluster → Type 0
HasSingle c = IsSingle c.nodes

ensure-IsSingle :
    (env : LeaseEnv) (lease_id : String) (now : ℕ) (c : Cluster)
    → IsSingle c.nodes
    → IsSingle (ensure_leader_exists env lease_id now c).nodes
unfolding ensure_leader_exists
ensure-IsSingle env lease_id now c h =
    let checked = drop_stale_belief now c in
    let led = enforce_one_leader now checked in
    let elected = enforce_one_leader now (take_leader_lock env lease_id now checked).1 in
    let has_active = (get_leader_lease_state now c).has_active_lease in
    on_either HasSingle (any (λ n. is_active n.status) c.nodes)
      (if has_active then led else elected) c
      (on_either HasSingle has_active led elected (enforce-IsSingle now checked)
        (enforce-IsSingle now (take_leader_lock env lease_id now checked).1))
      h

elected-IsSingle :
    (now : ℕ) (acquired : Bool) (c : Cluster)
    → IsSingle c.nodes
    → IsSingle (after_election now (acquired, c)).1.nodes
elected-IsSingle now true c h = enforce-IsSingle now c
elected-IsSingle now false c h = h

become-IsSingle :
    (env : LeaseEnv) (lease_id : String) (now : ℕ) (c : Cluster)
    → IsSingle c.nodes
    → IsSingle (try_become_leader env lease_id now c).1.nodes
unfolding try_become_leader
become-IsSingle env lease_id now c h =
    let state = get_leader_lease_state now c in
    let taken = take_leader_lock env lease_id now c in
    let owns = owned_by state.lease c.service.instance_id in
    on_either_answer HasSingle state.has_active_lease
      (if owns then (true, enforce_one_leader now c) else (false, c)) (after_election now taken)
      (on_either_answer HasSingle owns (true, enforce_one_leader now c) (false, c)
        (enforce-IsSingle now c) h)
      (elected-IsSingle now taken.0 taken.1 h)

-- Calls of any nodes at any times, with anything that happens to the leases in between: the calling
-- node's service and the table of leases are what they are when a call starts.
pub data Reached : Cluster → Type 0 where
  start :
      (service : LeaseService) (leases : Rows)
      → Reached (record { service = service; leases = leases; nodes = [] })
  turn :
      (c : Cluster) (service : LeaseService) (leases : Rows)
      → Reached c
      → Reached (record c { service = service; leases = leases })
  register :
      (c : Cluster) (ip : Option String) (now : ℕ) → Reached c → Reached (register_node ip now c)
  heartbeat :
      (c : Cluster) (ip : Option String) (now : ℕ) → Reached c → Reached (send_heartbeat ip now c)
  unregister : (c : Cluster) (now : ℕ) → Reached c → Reached (unregister_node now c)
  cleanup : (c : Cluster) (now : ℕ) → Reached c → Reached (cleanup_stale_nodes now c)
  ensure :
      (c : Cluster) (env : LeaseEnv) (lease_id : String) (now : ℕ)
      → Reached c
      → Reached (ensure_leader_exists env lease_id now c)
  become :
      (c : Cluster) (env : LeaseEnv) (lease_id : String) (now : ℕ)
      → Reached c
      → Reached (try_become_leader env lease_id now c).1

-- In every state that the calls of any nodes reach from an empty table, at any times and whatever
-- becomes of the leases in between, at most one node is flagged as the leader.
pub Reached-IsSingle : (c : Cluster) → Reached c → IsSingle c.nodes
Reached-IsSingle c (start service leases) = ("", refl)
Reached-IsSingle c (turn before service leases r) = Reached-IsSingle before r
Reached-IsSingle c (register before ip now r) =
    register-IsSingle ip now before (Reached-IsSingle before r)
Reached-IsSingle c (heartbeat before ip now r) =
    heartbeat-IsSingle ip now before (Reached-IsSingle before r)
Reached-IsSingle c (unregister before now r) =
    unregister-IsSingle now before (Reached-IsSingle before r)
Reached-IsSingle c (cleanup before now r) = cleanup-IsSingle now before
Reached-IsSingle c (ensure before env lease_id now r) =
    ensure-IsSingle env lease_id now before (Reached-IsSingle before r)
Reached-IsSingle c (become before env lease_id now r) =
    become-IsSingle env lease_id now before (Reached-IsSingle before r)
