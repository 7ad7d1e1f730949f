-- ===== src/Cluster/Lease/Tokens.antt =====
-- No two nodes are ever granted the same fencing token of a lease (distributed-lock.service.ts).
use mathlib.Core.List.{Memᴰ}
use lyttle_nginx.Prelude.{
  ℕ, String, ◌≡◌, refl, inl, inr, Option, none, some, List, [], ◌∷◌, arith, All, ap, subst, sym,
  ◌∙◌,
}
use lyttle_nginx.Cluster.Lease.{ClusterLease, select_lease}
use lyttle_nginx.Cluster.Lease.Fencing.{
  Statement, execute, Grant, owned, add_grant, history, IsCoveredBy, IsCovered, execute-IsCovered,
  Stands, execute-Stands,
}

abbrev pub Agrees : Grant → Grant → Type 0
Agrees g h = g.lease_name ≡ h.lease_name → g.token ≡ h.token → g.node ≡ h.node

abbrev Consistent : List Grant → Type 0
Consistent [] = Unit
Consistent (g ∷ gs) = All (Agrees g) gs × Consistent gs

abbrev AllCovered : List ClusterLease → List Grant → Type 0
AllCovered rows = All (IsCovered rows)

execute-AllCovered :
    (statement : Statement) (t : ℕ) (rows : List ClusterLease) (gs : List Grant)
    → AllCovered rows gs
    → AllCovered (execute statement t rows).0 gs
execute-AllCovered statement t rows [] h = tt
execute-AllCovered statement t rows (g ∷ gs) h =
    (execute-IsCovered g statement t rows h.0, execute-AllCovered statement t rows gs h.1)

-- A row that stands and has an owner: its grant is covered, and agrees with the covered ones.
module _ (rows : List ClusterLease) (row : ClusterLease) (node : String)
    (stands : select_lease rows row.lease_name ≡ some row)
    (owner : row.owner_node_id ≡ some node) where
  abbrev fresh : Grant
  fresh = record { lease_name = row.lease_name; node = node; token = row.generation }

  fresh-IsCovered : IsCovered rows fresh
  fresh-IsCovered = rw stands (refl, omega arith, λ _. inr owner)

  fresh-Agrees : (g : Grant) → IsCovered rows g → Agrees fresh g
  fresh-Agrees g covered name token =
      let at : IsCoveredBy g (some row) =
        subst (IsCoveredBy g) (ap (select_lease rows) (sym name) ∙ stands) covered in
      elim (at.2 token) [ inl free ↦ cc | inr same ↦ cc ]

  fresh-All : (gs : List Grant) → AllCovered rows gs → All (Agrees fresh) gs
  fresh-All [] h = tt
  fresh-All (g ∷ gs) h = (fresh-Agrees g h.0, fresh-All gs h.1)

owned-keeps :
    (rows : List ClusterLease) (row : ClusterLease) (o : Option String) (gs : List Grant)
    → select_lease rows row.lease_name ≡ some row
    → row.owner_node_id ≡ o
    → AllCovered rows gs × Consistent gs
    → AllCovered rows (owned row o gs) × Consistent (owned row o gs)
owned-keeps rows row none gs stands owner h = h
owned-keeps rows row (some node) gs stands owner h = (
  (fresh-IsCovered rows row node stands owner, h.0),
  (fresh-All rows row node stands owner gs h.0, h.1),
)

add_grant-keeps :
    (rows : List ClusterLease) (o : Option ClusterLease) (gs : List Grant)
    → Stands rows o
    → AllCovered rows gs × Consistent gs
    → AllCovered rows (add_grant o gs) × Consistent (add_grant o gs)
add_grant-keeps rows none gs stands h = h
add_grant-keeps rows (some row) gs stands h =
    owned-keeps rows row row.owner_node_id gs stands refl h

history-keeps :
    (run : List (Statement × ℕ)) (rows : List ClusterLease) (gs : List Grant)
    → AllCovered rows gs × Consistent gs
    → AllCovered (history run rows gs).0 (history run rows gs).1
      × Consistent (history run rows gs).1
unfolding history
history-keeps [] rows gs h = h
history-keeps ((statement, t) ∷ run) rows gs h =
    let (rows', row) = execute statement t rows in
    history-keeps run rows' (add_grant row gs) (
      add_grant-keeps rows' row gs (execute-Stands statement t rows)
        (execute-AllCovered statement t rows gs h.0, h.1))

member-Agrees : (g h : Grant) (gs : List Grant) → All (Agrees g) gs → Memᴰ h gs → Agrees g h
member-Agrees g h [] all m = elim m [ ]
member-Agrees g h (x ∷ gs) all (Memᴰ.head e) = subst (Agrees g) (sym e) all.0
member-Agrees g h (x ∷ gs) all (Memᴰ.tail m) = member-Agrees g h gs all.1 m

Consistent-Agrees :
    (gs : List Grant) (g h : Grant) → Consistent gs → Memᴰ g gs → Memᴰ h gs → Agrees g h
Consistent-Agrees [] g h c p q = elim p [ ]
Consistent-Agrees (x ∷ gs) g h c (Memᴰ.head p) (Memᴰ.head q) =
    λ _ _. ap (λ (y : Grant). y.node) (p ∙ sym q)
Consistent-Agrees (x ∷ gs) g h c (Memᴰ.head p) (Memᴰ.tail q) =
    subst (λ y. Agrees y h) (sym p) (member-Agrees x h gs c.0 q)
Consistent-Agrees (x ∷ gs) g h c (Memᴰ.tail p) (Memᴰ.head q) = λ name token.
    let e = ap (λ (y : Grant). y.lease_name) q in
    let f = ap (λ (y : Grant). y.token) q in
    sym (member-Agrees x g gs c.0 p (sym e ∙ sym name) (sym f ∙ sym token))
    ∙ sym (ap (λ (y : Grant). y.node) q)
Consistent-Agrees (x ∷ gs) g h c (Memᴰ.tail p) (Memᴰ.tail q) = Consistent-Agrees gs g h c.1 p q

-- Over every sequence of lease statements, of any nodes and at any database times, from an empty
-- table: two rows returned with an owner, of the same lease and with the same generation, name the
-- same owner. So a fencing token is never issued to two nodes.
pub fencing_tokens_unique :
    (run : List (Statement × ℕ)) (g h : Grant)
    → Memᴰ g (history run [] []).1
    → Memᴰ h (history run [] []).1
    → g.lease_name ≡ h.lease_name
    → g.token ≡ h.token
    → g.node ≡ h.node
fencing_tokens_unique run g h p q =
    Consistent-Agrees (history run [] []).1 g h (history-keeps run [] [] (tt, tt)).1 p q
