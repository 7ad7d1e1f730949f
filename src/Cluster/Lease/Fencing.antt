-- ===== src/Cluster/Lease/Fencing.antt =====
-- Fencing tokens: what the rows that the statements of distributed-lock.service.ts return say of
-- one another, over every sequence of statements, by any nodes, at any times.
use lyttle_nginx.Prelude.{
  ℕ, ◌≤◌, String, ◌≡◌, refl, ◌⊎◌, Option, none, some, List, [], ◌∷◌, arith, eq_iff, str_eq,
  if◌then◌else◌, Bool-cases, inl, inr, subst, sym,
}
use lyttle_nginx.Cluster.Lease.{
  ClusterLease, Candidate, select_lease, upsert_lease, renew_row, release_row, renewed, released,
  update_lease, may_take, taken_over, inserted,
}
use lyttle_nginx.Cluster.Lease.Lookup.{
  after_upsert, upsert_result, select-upsert, upsert_returns, after_update, update_result,
  select-update, update_returns, select-name, sql_eq_iff,
}

-- The statements, with what the services put into them.
pub data Statement : Type 0 where
  acquire : Candidate → Statement
  renew : String → String → ℕ → ℕ → Statement
  release : String → String → ℕ → Statement

unfoldable pub execute : Statement → ℕ → List ClusterLease → List ClusterLease × Option ClusterLease
execute (acquire c) t rows = upsert_lease rows c t
execute (renew name instance_id generation ttl) t rows =
    renew_row rows name instance_id generation ttl t
execute (release name instance_id generation) t rows =
    release_row rows name instance_id generation t

-- A row returned with an owner tells that owner its token.
pub record Grant : Type 0 where
  pub lease_name : String
  pub node : String
  pub token : ℕ

abbrev pub owned : ClusterLease → Option String → List Grant → List Grant
owned row none grants = grants
owned row (some node) grants =
    record { lease_name = row.lease_name; node = node; token = row.generation } ∷ grants

abbrev pub add_grant : Option ClusterLease → List Grant → List Grant
add_grant none grants = grants
add_grant (some row) grants = owned row row.owner_node_id grants

unfoldable pub history :
    List (Statement × ℕ) → List ClusterLease → List Grant → List ClusterLease × List Grant
history [] rows grants = (rows, grants)
history ((statement, t) ∷ rest) rows grants =
    let (rows', row) = execute statement t rows in history rest rows' (add_grant row grants)

-- The row of a granted lease has not gone back behind the grant, and under the same token it has
-- the same owner or none.
abbrev pub IsCoveredBy : Grant → Option ClusterLease → Type 0
IsCoveredBy g none = ⊥
IsCoveredBy g (some row) =
    (row.lease_name ≡ g.lease_name)
    × (g.token ≤ row.generation)
    × (row.generation ≡ g.token → (row.owner_node_id ≡ none) ⊎ (row.owner_node_id ≡ some g.node))

abbrev pub IsCovered : List ClusterLease → Grant → Type 0
IsCovered rows g = IsCoveredBy g (select_lease rows g.lease_name)

after_upsert-IsCoveredBy :
    (g : Grant) (c : Candidate) (t : ℕ) (o : Option ClusterLease)
    → IsCoveredBy g o
    → IsCoveredBy g (some (after_upsert c t o))
unfolding may_take taken_over
after_upsert-IsCoveredBy g c t none h = absurd h
after_upsert-IsCoveredBy g c t (some row) h =
    ground (arith, sql_eq_iff row.owner_node_id c.instance_id)

after_update-IsCoveredBy :
    (g : Grant) (name instance_id : String) (generation : ℕ) (change : ClusterLease → ClusterLease)
    → ((row : ClusterLease) → (change row).generation ≡ row.generation)
    → ((row : ClusterLease) → (change row).lease_name ≡ row.lease_name)
    → ((row : ClusterLease)
        → ((change row).owner_node_id ≡ none) ⊎ ((change row).owner_node_id ≡ row.owner_node_id))
    → (o : Option ClusterLease) → IsCoveredBy g o
    → IsCoveredBy g (after_update name instance_id generation change o)
after_update-IsCoveredBy g name instance_id generation change p n q none h = absurd h
after_update-IsCoveredBy g name instance_id generation change p n q (some row) h =
    ground (arith, p row, n row, q row)

-- A statement rewrites the row under its own name, and leaves the others.
IsCovered-if :
    (g : Grant) (name : String) (rows : List ClusterLease)
    (f : Option ClusterLease → Option ClusterLease)
    → ((o : Option ClusterLease) → IsCoveredBy g o → IsCoveredBy g (f o))
    → IsCovered rows g
    → IsCoveredBy g (
        if str_eq name g.lease_name
        then f (select_lease rows name)
        else select_lease rows g.lease_name)
IsCovered-if g name rows f keeps h = elim (Bool-cases (str_eq name g.lease_name)) [
  | inl same ↦
      let p = (eq_iff name g.lease_name).0 same in
      rw same (
        keeps (select_lease rows name) (subst (λ j. IsCoveredBy g (select_lease rows j)) (sym p) h))
  | inr other ↦ rw other h
]

pub execute-IsCovered :
    (g : Grant) (statement : Statement) (t : ℕ) (rows : List ClusterLease)
    → IsCovered rows g
    → IsCovered (execute statement t rows).0 g
unfolding execute renew_row release_row
execute-IsCovered g (acquire c) t rows h = rw select-upsert (
    IsCovered-if g c.lease_name rows (λ o. some (after_upsert c t o))
      (after_upsert-IsCoveredBy g c t) h)
execute-IsCovered g (renew name instance_id generation ttl) t rows h =
    let change = λ (row : ClusterLease). renewed row ttl t in
    rw (select-update name instance_id generation change (λ row. refl)) (
      IsCovered-if g name rows (after_update name instance_id generation change)
        (after_update-IsCoveredBy g name instance_id generation change (λ row. refl) (λ row. refl)
          (λ row. inr refl))
        h)
execute-IsCovered g (release name instance_id generation) t rows h =
    let change = λ (row : ClusterLease). released row t in
    rw (select-update name instance_id generation change (λ row. refl)) (
      IsCovered-if g name rows (after_update name instance_id generation change)
        (after_update-IsCoveredBy g name instance_id generation change (λ row. refl) (λ row. refl)
          (λ row. inl refl))
        h)

-- A row that a statement returns is the one that then stands under its name.
abbrev pub Stands : List ClusterLease → Option ClusterLease → Type 0
Stands rows none = Unit
Stands rows (some row) = select_lease rows row.lease_name ≡ some row

upsert-Stands :
    (c : Candidate) (t : ℕ) (rows : List ClusterLease) (o : Option ClusterLease)
    → select_lease rows c.lease_name ≡ o
    → Stands (upsert_lease rows c t).0 (upsert_result c t o)
unfolding inserted taken_over may_take
upsert-Stands c t rows none e =
    ground (arith, select-upsert c t c.lease_name rows, eq_iff c.lease_name c.lease_name)
upsert-Stands c t rows (some row) e = ground (
  arith,
  select-upsert c t row.lease_name rows,
  select-name c.lease_name rows row e,
  eq_iff c.lease_name row.lease_name,
)

update-Stands :
    (name instance_id : String) (generation : ℕ) (change : ClusterLease → ClusterLease)
    → ((row : ClusterLease) → (change row).lease_name ≡ row.lease_name)
    → (rows : List ClusterLease) (o : Option ClusterLease) → select_lease rows name ≡ o
    → Stands
        (update_lease name instance_id generation change rows).0
        (update_result name instance_id generation change o)
update-Stands name instance_id generation change keeps rows none e = tt
update-Stands name instance_id generation change keeps rows (some row) e = ground (
  arith,
  keeps row,
  select-update name instance_id generation change keeps (change row).lease_name rows,
  select-name name rows row e,
  eq_iff name (change row).lease_name,
)

pub execute-Stands :
    (statement : Statement) (t : ℕ) (rows : List ClusterLease)
    → Stands (execute statement t rows).0 (execute statement t rows).1
unfolding execute renew_row release_row
execute-Stands (acquire c) t rows = rw upsert_returns (upsert-Stands c t rows _ refl)
execute-Stands (renew name instance_id generation ttl) t rows =
    rw update_returns (update-Stands name instance_id generation _ (λ row. refl) rows _ refl)
execute-Stands (release name instance_id generation) t rows =
    rw update_returns (update-Stands name instance_id generation _ (λ row. refl) rows _ refl)
