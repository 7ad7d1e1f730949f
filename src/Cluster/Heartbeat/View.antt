-- ===== src/Cluster/Heartbeat/View.antt =====
-- The stored flags and the view of them (src/distributed-lock/cluster-heartbeat.service.ts).
use lyttle_nginx.Prelude.{
  ℕ, ◌≡◌, refl, sym, ◌∙◌, String, Bool, true, false, ◌&&◌, Option, none, some, List, [], ◌∷◌, All,
  map, str_eq, eq_iff, Bool-cases, Option-cases, inl, inr, if◌then◌else◌, arith,
}
use lyttle_nginx.Cluster.LeaseService.{LeaseSnapshot}
use lyttle_nginx.Cluster.Heartbeat.Unique.{IsUnique}
use lyttle_nginx.Cluster.Heartbeat.{
  is_active, ClusterNode, Cluster, find_node, lease_active, owner_row, if_active, owned_by,
  get_leader_lease_state, flagged, reconcile_leader_flags, viewed, apply_lease_leadership,
  enforce_one_leader,
}

-- The row of a node is the one that is found by its id.
abbrev IsOwnRow : List ClusterNode → String → ClusterNode → Type 0
IsOwnRow nodes id n = str_eq n.instance_id id ≡ true → find_node nodes id ≡ some n

module _ (P Q : ClusterNode → Type 0) where
  All-map : ((n : ClusterNode) → P n → Q n) → (ns : List ClusterNode) → All P ns → All Q ns
  All-map f [] all_ = tt
  All-map f (n ∷ ns) (p, all_) = (f n p, All-map f ns all_)

found_behind :
    (m n : ClusterNode) (ns : List ClusterNode) (id : String)
    → find_node ns m.instance_id ≡ none
    → IsOwnRow ns id n
    → IsOwnRow (m ∷ ns) id n
unfolding find_node
found_behind m n ns id alone found same = elim (Bool-cases (str_eq m.instance_id id)) [
  | inr other ↦ rw other (found same)
  | inl clash ↦
      let there : find_node ns m.instance_id ≡ some n =
        rw ((eq_iff m.instance_id id).0 clash) (found same) in
      let no : Path (Option ClusterNode) none (some n) = sym alone ∙ there in cc
]

own_rows : (id : String) (nodes : List ClusterNode) → IsUnique nodes → All (IsOwnRow nodes id) nodes
unfolding find_node
own_rows id [] unique = tt
own_rows id (n ∷ ns) (alone, unique) = (
  (λ same. rw same refl),
  All-map (IsOwnRow ns id) (IsOwnRow (n ∷ ns) id) (λ m found. found_behind n m ns id alone found) ns
      (own_rows id ns unique),
)

module _ (f g : ClusterNode → ClusterNode) where
  map-agrees : (ns : List ClusterNode) → All (λ n. f n ≡ g n) ns → map f ns ≡ map g ns
  map-agrees [] all_ = refl
  map-agrees (n ∷ ns) (same, all_) = rw (same, map-agrees ns all_) refl

-- The row that the leader's flag goes to.
abbrev leader_row : Option LeaseSnapshot → List ClusterNode → Option ClusterNode
leader_row lease nodes = if_active (if lease_active lease then owner_row lease nodes else none)

abbrev view_flag : Option LeaseSnapshot → ClusterNode → Bool
view_flag lease n = lease_active lease && is_active n.status && owned_by lease n.instance_id

stored_flag : (leader : Option ClusterNode) (n : ClusterNode) → Bool
stored_flag none n = false
stored_flag (some leader) n = str_eq n.instance_id leader.instance_id

find_node-matches :
    (nodes : List ClusterNode) (id : String) (w : ClusterNode)
    → find_node nodes id ≡ some w
    → str_eq w.instance_id id ≡ true
unfolding find_node
find_node-matches [] id w h = let no : Path (Option ClusterNode) none (some w) = h in cc
find_node-matches (n ∷ ns) id w h = elim (Bool-cases (str_eq n.instance_id id)) [
  | inl match ↦
      let first : find_node (n ∷ ns) id ≡ some n = rw match refl in
      let both : Path (Option ClusterNode) (some n) (some w) = sym first ∙ h in
      let same : n ≡ w = cc in rw (sym same) match
  | inr other ↦
      let later : find_node (n ∷ ns) id ≡ find_node ns id = rw other refl in
      find_node-matches ns id w (sym later ∙ h)
]

itself : (id : String) → str_eq id id ≡ true
itself id = (eq_iff id id).1 refl

swapped : (a b : String) → str_eq a b ≡ str_eq b a
swapped a b = ground (arith, eq_iff a b, eq_iff b a)

itself_flagged :
    (n : ClusterNode) → stored_flag (if_active (some n)) n ≡ (is_active n.status && true)
unfolding stored_flag
itself_flagged n = elim (Bool-cases (is_active n.status)) [
  | inl up ↦ rw (up, itself n.instance_id) refl
  | inr down ↦ rw down refl
]

other_unflagged :
    (w n : ClusterNode) (id : String)
    → str_eq w.instance_id id ≡ true
    → str_eq n.instance_id id ≡ false
    → stored_flag (if_active (some w)) n ≡ false
unfolding stored_flag
other_unflagged w n id match other = elim (Bool-cases (is_active w.status)) [
  | inl up ↦ rw (up, (eq_iff w.instance_id id).0 match, other) refl
  | inr down ↦ rw down refl
]

never : (b : Bool) → (b && false) ≡ false
never true = refl
never false = refl

row_agrees :
    (row : Option ClusterNode) (id : String) (n : ClusterNode)
    → (str_eq n.instance_id id ≡ true → row ≡ some n)
    → ((w : ClusterNode) → row ≡ some w → str_eq w.instance_id id ≡ true)
    → stored_flag (if_active row) n ≡ (is_active n.status && str_eq id n.instance_id)
unfolding stored_flag
row_agrees row id n found matches = elim (Bool-cases (str_eq n.instance_id id)) [
  | inl same ↦ rw (found same, swapped id n.instance_id, same) (itself_flagged n)
  | inr other ↦ elim (Option-cases row) [
    | inl gone ↦ rw (gone, swapped id n.instance_id, other) (sym (never (is_active n.status)))
    | inr (w, there) ↦
        rw (there, swapped id n.instance_id, other, never (is_active n.status))
          (other_unflagged w n id (matches w there) other)
  ]
]

flag_agrees :
    (lease : Option LeaseSnapshot) (nodes : List ClusterNode) (n : ClusterNode)
    → ((id : String) → IsOwnRow nodes id n)
    → stored_flag (leader_row lease nodes) n ≡ view_flag lease n
unfolding stored_flag
flag_agrees none nodes n found = refl
flag_agrees (some lease) nodes n found = elim (Bool-cases lease.is_expired) [
  | inl expired ↦ rw expired refl
  | inr live ↦ elim (Option-cases lease.owner_node_id) [
    | inl nobody ↦ rw (live, nobody) refl
    | inr (id, owner) ↦
        rw (live, owner)
          (row_agrees (find_node nodes id) id n (found id)
            (λ w there. find_node-matches nodes id w there))
  ]
]

module _ (lease : Option LeaseSnapshot) (nodes : List ClusterNode) where
  row_flagged :
      (n : ClusterNode)
      → flagged (leader_row lease nodes) n
        ≡ record n { is_leader = stored_flag (leader_row lease nodes) n }
  unfolding stored_flag
  row_flagged n = elim (Option-cases (leader_row lease nodes)) [
    | inl nobody ↦ rw nobody refl
    | inr (leader, leads) ↦ rw leads refl
  ]

module _ (P : String → ClusterNode → Type 0) where
  All-each :
      (ns : List ClusterNode)
      → ((id : String) → All (P id) ns)
      → All (λ n. (id : String) → P id n) ns
  All-each [] all_ = tt
  All-each (n ∷ ns) all_ = ((λ id. (all_ id).0), All-each ns (λ id. (all_ id).1))

row_viewed :
    (now : ℕ) (c : Cluster) (n : ClusterNode)
    → ((id : String) → IsOwnRow c.nodes id n)
    → flagged (get_leader_lease_state now c).active_leader_node n
      ≡ viewed (get_leader_lease_state now c) n
unfolding get_leader_lease_state
row_viewed now c n found =
    let lease = (get_leader_lease_state now c).lease in
    rw (row_flagged lease c.nodes n, flag_agrees lease c.nodes n found) refl

-- Where no two rows have one instance id, the flags that enforcing the leader stores are, row by row,
-- those that the view of the nodes takes from the lease.
pub enforce-apply :
    (now : ℕ) (c : Cluster)
    → IsUnique c.nodes
    → (enforce_one_leader now c).nodes
      ≡ apply_lease_leadership (get_leader_lease_state now c) c.nodes
unfolding enforce_one_leader reconcile_leader_flags apply_lease_leadership
enforce-apply now c unique =
    let state = get_leader_lease_state now c in
    map-agrees (flagged state.active_leader_node) (viewed state) c.nodes (
      All-map (λ n. (id : String) → IsOwnRow c.nodes id n)
        (λ n. flagged state.active_leader_node n ≡ viewed state n) (row_viewed now c) c.nodes
        (All-each (IsOwnRow c.nodes) c.nodes (λ id. own_rows id c.nodes unique)))
