-- ===== src/Graph/Store/Clauses.antt =====
-- What the clauses MATCH and MERGE do to a graph.
use complytime_core.Prelude.{
  ◌≡◌, refl, Bool, true, List, ◌∷◌, arith, eq_iff, nat_eq_iff, any, Bool-cases, inl, inr, eq_refl,
  ap,
}
use complytime_core.Graph.Store.{
  Node, subject, publisher, ingested_stub, evidence, entity, node_eq, Edge, edge_eq, Graph,
  has_node, has_edge, merge_node, merge_edge,
}

pub node_eq_refl : (n : Node) → node_eq n n ≡ true
node_eq_refl (subject i) = eq_refl i
node_eq_refl (publisher i s) = ground (arith, eq_iff i i, eq_iff s s)
node_eq_refl (ingested_stub d i) = ground (arith, eq_iff d d, eq_iff i i)
node_eq_refl (evidence i) = (nat_eq_iff i i).1 refl
node_eq_refl (entity l i) = ground (arith, eq_iff l l, eq_iff i i)

pub node_eq-same : (m n : Node) → node_eq m n ≡ true → m ≡ n
node_eq-same (subject i) (subject j) h = ap subject ((eq_iff i j).0 h)
node_eq-same (publisher i s) (publisher j t) h =
    let a : i ≡ j = ground (arith, eq_iff i j) in
    let b : s ≡ t = ground (arith, eq_iff s t) in cc (a, b)
node_eq-same (ingested_stub i s) (ingested_stub j t) h =
    let a : i ≡ j = ground (arith, eq_iff i j) in
    let b : s ≡ t = ground (arith, eq_iff s t) in cc (a, b)
node_eq-same (evidence i) (evidence j) h = ap evidence ((nat_eq_iff i j).0 h)
node_eq-same (entity i s) (entity j t) h =
    let a : i ≡ j = ground (arith, eq_iff i j) in
    let b : s ≡ t = ground (arith, eq_iff s t) in cc (a, b)
node_eq-same _ _ h = cc h

pub edge_eq_refl : (e : Edge) → edge_eq e e ≡ true
edge_eq_refl e = ground (arith, node_eq_refl e.source, node_eq_refl e.target, eq_iff e.kind e.kind)

pub edge_eq-same : (a b : Edge) → edge_eq a b ≡ true → a ≡ b
edge_eq-same a b h =
    let s : a.source ≡ b.source = node_eq-same a.source b.source (ground arith) in
    let k : a.kind ≡ b.kind = ground (arith, eq_iff a.kind b.kind) in
    let t : a.target ≡ b.target = node_eq-same a.target b.target (ground arith) in cc (s, k, t)

any-head {ℓ} : {A : Type ℓ} (p : A → Bool) (a : A) (l : List A) → p a ≡ true → any p (a ∷ l) ≡ true
unfolding any
any-head p a l h = ground (arith, h)

any-tail {ℓ} :
    {A : Type ℓ} (p : A → Bool) (a : A) (l : List A) → any p l ≡ true → any p (a ∷ l) ≡ true
unfolding any
any-tail p a l h = ground (arith, h)

-- After a MERGE the node, or the edge, is there.
pub merge_node-has : (n : Node) (g : Graph) → has_node (merge_node n g) n ≡ true
unfolding merge_node
merge_node-has n g = elim (Bool-cases (has_node g n)) [
  | inl e ↦ rw e e
  | inr e ↦ rw e (any-head (node_eq n) n g.nodes (node_eq_refl n))
]

pub merge_edge-has : (e : Edge) (g : Graph) → has_edge (merge_edge e g) e ≡ true
unfolding merge_edge
merge_edge-has e g = elim (Bool-cases (has_edge g e)) [
  | inl h ↦ rw h h
  | inr h ↦ rw h (any-head (edge_eq e) e g.edges (edge_eq_refl e))
]

-- What is there already is left as it is.
pub merge_node_idem : (n : Node) (g : Graph) → has_node g n ≡ true → merge_node n g ≡ g
unfolding merge_node
merge_node_idem n g h = rw h refl

pub merge_edge_idem : (e : Edge) (g : Graph) → has_edge g e ≡ true → merge_edge e g ≡ g
unfolding merge_edge
merge_edge_idem e g h = rw h refl

-- The second graph has all nodes and all edges of the first.
pub record Grows (g h : Graph) : Type 0 where
  pub nodes : (n : Node) → has_node g n ≡ true → has_node h n ≡ true
  pub edges : (e : Edge) → has_edge g e ≡ true → has_edge h e ≡ true

pub Grows-refl : (g : Graph) → Grows g g
Grows-refl g = record { nodes = λ n h. h; edges = λ e h. h }

pub Grows-trans : {f g h : Graph} → Grows f g → Grows g h → Grows f h
Grows-trans a b = record {
  nodes = λ n h. b.nodes n (a.nodes n h);
  edges = λ e h. b.edges e (a.edges e h);
}

pub merge_node-Grows : (n : Node) (g : Graph) → Grows g (merge_node n g)
unfolding merge_node
merge_node-Grows n g = elim (Bool-cases (has_node g n)) [
  | inl e ↦ rw e (Grows-refl g)
  | inr e ↦ rw e (record { nodes = λ m h. any-tail (node_eq m) n g.nodes h; edges = λ e h. h })
]

pub merge_edge-Grows : (e : Edge) (g : Graph) → Grows g (merge_edge e g)
unfolding merge_edge
merge_edge-Grows e g = elim (Bool-cases (has_edge g e)) [
  | inl h ↦ rw h (Grows-refl g)
  | inr h ↦ rw h (record { nodes = λ m h. h; edges = λ f h. any-tail (edge_eq f) e g.edges h })
]
