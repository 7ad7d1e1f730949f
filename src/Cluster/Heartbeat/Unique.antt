-- ===== src/Cluster/Heartbeat/Unique.antt =====
-- The instance ids in the nodes' table (src/distributed-lock/cluster-heartbeat.service.ts).
use lyttle_nginx.Prelude.{
  ℕ, ◌≡◌, refl, sym, ◌∙◌, String, Bool, false, ◌&&◌, Option, none, some, List, [], ◌∷◌, keep, map,
  str_eq, Bool-cases, inl, inr,
}
use lyttle_nginx.Cluster.Heartbeat.{
  is_active, ClusterNode, find_node, update_node, flagged, older, marked_stale,
}

-- No row has this id.
abbrev pub IsFresh : String → List ClusterNode → Type 0
IsFresh id nodes = find_node nodes id ≡ none

-- No two rows have one instance id.
abbrev pub IsUnique : List ClusterNode → Type 0
IsUnique [] = Unit
IsUnique (n ∷ ns) = IsFresh n.instance_id ns × IsUnique ns

-- A change that leaves the id of every row.
abbrev pub IsNamed : (ClusterNode → ClusterNode) → Type 0
IsNamed change = (n : ClusterNode) → (change n).instance_id ≡ n.instance_id

absent_parts :
    (n : ClusterNode) (ns : List ClusterNode) (id : String)
    → IsFresh id (n ∷ ns)
    → (str_eq n.instance_id id ≡ false) × IsFresh id ns
unfolding find_node
absent_parts n ns id h = elim (Bool-cases (str_eq n.instance_id id)) [
  | inl match ↦
      let there : find_node (n ∷ ns) id ≡ some n = rw match refl in
      let no : Path (Option ClusterNode) none (some n) = sym h ∙ there in cc
  | inr other ↦
      let later : find_node (n ∷ ns) id ≡ find_node ns id = rw other refl in (other, sym later ∙ h)
]

absent_cons :
    (n : ClusterNode) (ns : List ClusterNode) (id : String)
    → str_eq n.instance_id id ≡ false
    → IsFresh id ns
    → IsFresh id (n ∷ ns)
unfolding find_node
absent_cons n ns id other rest = rw other rest

module _ (change : ClusterNode → ClusterNode) (named : IsNamed change) where
  absent_changed :
      (n : ClusterNode) (ns : List ClusterNode) (id : String)
      → str_eq n.instance_id id ≡ false
      → IsFresh id ns
      → IsFresh id (change n ∷ ns)
  absent_changed n ns id other rest = absent_cons (change n) ns id (rw (named n) other) rest

  map_absent : (id : String) (ns : List ClusterNode) → IsFresh id ns → IsFresh id (map change ns)
  unfolding find_node
  map_absent id [] h = refl
  map_absent id (n ∷ ns) h =
      let (other, rest) = absent_parts n ns id h in
      absent_changed n (map change ns) id other (map_absent id ns rest)

  pub IsUnique-map : (ns : List ClusterNode) → IsUnique ns → IsUnique (map change ns)
  IsUnique-map [] unique = tt
  IsUnique-map (n ∷ ns) (alone, unique) =
      (rw (named n) (map_absent n.instance_id ns alone), IsUnique-map ns unique)

  update_absent :
      (id key : String) (ns : List ClusterNode)
      → IsFresh id ns
      → IsFresh id (update_node change key ns)
  unfolding find_node update_node
  update_absent id key [] h = refl
  update_absent id key (n ∷ ns) h =
      let (other, rest) = absent_parts n ns id h in
      let updated = update_absent id key ns rest in
      elim (Bool-cases (str_eq n.instance_id key)) [
        | inl match ↦ rw match (absent_changed n (update_node change key ns) id other updated)
        | inr left ↦ rw left (absent_cons n (update_node change key ns) id other updated)
      ]

  pub IsUnique-update :
      (key : String) (ns : List ClusterNode) → IsUnique ns → IsUnique (update_node change key ns)
  unfolding update_node
  IsUnique-update key [] unique = tt
  IsUnique-update key (n ∷ ns) (alone, unique) =
      let absent = update_absent n.instance_id key ns alone in
      let rest = IsUnique-update key ns unique in
      elim (Bool-cases (str_eq n.instance_id key)) [
        | inl match ↦ rw match (rw (named n) absent, rest)
        | inr left ↦ rw left (absent, rest)
      ]

module _ (test : ClusterNode → Bool) where
  keep_absent : (id : String) (ns : List ClusterNode) → IsFresh id ns → IsFresh id (keep test ns)
  unfolding find_node
  keep_absent id [] h = refl
  keep_absent id (n ∷ ns) h =
      let (other, rest) = absent_parts n ns id h in
      let kept = keep_absent id ns rest in
      elim (Bool-cases (test n)) [
        | inl stays ↦ rw stays (absent_cons n (keep test ns) id other kept)
        | inr goes ↦ rw goes kept
      ]

  pub IsUnique-keep : (ns : List ClusterNode) → IsUnique ns → IsUnique (keep test ns)
  IsUnique-keep [] unique = tt
  IsUnique-keep (n ∷ ns) (alone, unique) = elim (Bool-cases (test n)) [
    | inl stays ↦ rw stays (keep_absent n.instance_id ns alone, IsUnique-keep ns unique)
    | inr goes ↦ rw goes (IsUnique-keep ns unique)
  ]

pub flagged-IsNamed : (leader : Option ClusterNode) → IsNamed (flagged leader)
flagged-IsNamed none n = refl
flagged-IsNamed (some leader) n = refl

pub marked-IsNamed : (now : ℕ) → IsNamed (marked_stale now)
marked-IsNamed now n = elim (Bool-cases (older 45000 now n && is_active n.status)) [
  | inl stales ↦ rw stales refl
  | inr stays ↦ rw stays refl
]
