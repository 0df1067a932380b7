-- ===== src/Graph/Writer/Effects.antt =====
-- What the writing queries do to the graph: they only add to it.
use complytime_core.Prelude.{
  ◌≡◌, refl, true, String, List, [], ◌∷◌, inl, inr, sym, ◌∙◌, ap, subst, Bool-cases, nat_eq,
  nat_eq_iff,
}
use complytime_core.Graph.Store.{
  Node, subject, publisher, ingested_stub, evidence, entity, Edge, Graph, has_node, has_edge,
  merge_node, merge_edge, matching,
}
use complytime_core.Graph.Store.Clauses.{
  Grows, Grows-refl, Grows-trans, merge_node-Grows, merge_edge-Grows, merge_node-has,
  merge_edge-has,
}
use complytime_core.Graph.Writer.{
  EvidenceRecord, props_of, EntityRecord, EdgeRecord, targets, published_by, defines, add_stub,
  ingested_stub_query, edge_of, add_evidence, set_evidence, evidence_query, add_properties,
  entity_query, edge_query,
}

-- The graph has grown, and the properties of evidence are as they were.
pub record Extends (g h : Graph) : Type 0 where
  pub grown : Grows g h
  pub props : h.evidence_props ≡ g.evidence_props

pub Extends-refl : (g : Graph) → Extends g g
Extends-refl g = record { grown = Grows-refl g; props = refl }

pub Extends-trans : (f g h : Graph) → Extends f g → Extends g h → Extends f h
Extends-trans f g h a b = record { grown = Grows-trans a.grown b.grown; props = b.props ∙ a.props }

pub matching-keeps :
    (R : Graph → Graph → Type 0) (l : List Node) (later : Graph → Graph) (g : Graph)
    → R g g
    → R g (later g)
    → R g (matching l later g)
unfolding matching
matching-keeps R [] later g same there = there
matching-keeps R (n ∷ l) later g same there = elim (Bool-cases (has_node g n)) [
  | inl e ↦ rw e (matching-keeps R l later g same there)
  | inr e ↦ rw e same
]

-- The nodes that a MATCH asks for are there: what is behind it is done.
pub matching-done :
    (m n : Node) (later : Graph → Graph) (g : Graph)
    → has_node g m ≡ true
    → has_node g n ≡ true
    → matching (m ∷ n ∷ []) later g ≡ later g
unfolding matching
matching-done m n later g p q = rw (p, q) refl

merge_node-Extends : (n : Node) (g : Graph) → Extends g (merge_node n g)
unfolding merge_node
merge_node-Extends n g = elim (Bool-cases (has_node g n)) [
  | inl e ↦ record { grown = merge_node-Grows n g; props = rw e refl }
  | inr e ↦ record { grown = merge_node-Grows n g; props = rw e refl }
]

merge_edge-Extends : (e : Edge) (g : Graph) → Extends g (merge_edge e g)
unfolding merge_edge
merge_edge-Extends e g = elim (Bool-cases (has_edge g e)) [
  | inl h ↦ record { grown = merge_edge-Grows e g; props = rw h refl }
  | inr h ↦ record { grown = merge_edge-Grows e g; props = rw h refl }
]

pub ingested_stub_query-Grows :
    (digest subject_id issuer sub : String) (g : Graph)
    → Grows g (ingested_stub_query digest subject_id issuer sub g)
unfolding ingested_stub_query add_stub
ingested_stub_query-Grows digest subject_id issuer sub g =
    matching-keeps Grows (subject subject_id ∷ publisher issuer sub ∷ [])
      (add_stub digest subject_id issuer sub) g (Grows-refl g)
      (Grows-trans (merge_node-Grows (ingested_stub digest subject_id) g) (
        Grows-trans (merge_edge-Grows (targets (ingested_stub digest subject_id) subject_id) _)
          (merge_edge-Grows (published_by (ingested_stub digest subject_id) issuer sub) _)))

set_evidence-Grows : (ev : EvidenceRecord) (g : Graph) → Grows g (set_evidence ev g)
unfolding set_evidence
set_evidence-Grows ev g = record { nodes = λ n h. h; edges = λ e h. h }

pub evidence_query-Grows : (ev : EvidenceRecord) (g : Graph) → Grows g (evidence_query ev g)
unfolding evidence_query add_evidence
evidence_query-Grows ev g =
    matching-keeps Grows
      (subject ev.subject_id ∷ publisher ev.publisher_issuer ev.publisher_sub ∷ [])
      (add_evidence ev) g (Grows-refl g)
      (Grows-trans (merge_node-Grows (evidence ev.log_index) g) (
        Grows-trans (set_evidence-Grows ev _) (
          Grows-trans (merge_edge-Grows (targets (evidence ev.log_index) ev.subject_id) _) (
            merge_edge-Grows
              (published_by (evidence ev.log_index) ev.publisher_issuer ev.publisher_sub) _))))

pub entity_query-Extends : (r : EntityRecord) (g : Graph) → Extends g (entity_query r g)
unfolding entity_query add_properties
entity_query-Extends r g =
    let n = entity r.label r.id in
    let written = add_properties r.label r.id r.properties (merge_node n g) in
    let set : Extends (merge_node n g) written = record {
      grown = record { nodes = λ n h. h; edges = λ e h. h };
      props = refl;
    } in
    Extends-trans g written (entity_query r g)
      (Extends-trans g (merge_node n g) written (merge_node-Extends n g) set)
      (matching-keeps Extends (evidence r.evidence_log_index ∷ [])
        (merge_edge (defines r.evidence_log_index n)) written (Extends-refl written)
        (merge_edge-Extends (defines r.evidence_log_index n) written))

pub edge_query-Extends : (r : EdgeRecord) (g : Graph) → Extends g (edge_query r g)
unfolding edge_query
edge_query-Extends r g =
    matching-keeps Extends (entity r.from_label r.from_id ∷ entity r.to_label r.to_id ∷ [])
      (merge_edge (edge_of r)) g (Extends-refl g) (merge_edge-Extends (edge_of r) g)

-- What a sealed event is to leave in the graph.
pub record IsRecorded (ev : EvidenceRecord) (g : Graph) : Type 0 where
  pub node : has_node g (evidence ev.log_index) ≡ true
  pub of_subject : has_edge g (targets (evidence ev.log_index) ev.subject_id) ≡ true
  pub by_publisher :
      has_edge g (published_by (evidence ev.log_index) ev.publisher_issuer ev.publisher_sub) ≡ true
  pub props : g.evidence_props ev.log_index ≡ props_of ev

set_evidence-own :
    (ev : EvidenceRecord) (g : Graph)
    → (set_evidence ev g).evidence_props ev.log_index ≡ props_of ev
unfolding set_evidence
set_evidence-own ev g =
    let own : nat_eq ev.log_index ev.log_index ≡ true =
      (nat_eq_iff ev.log_index ev.log_index).1 refl in
    rw own refl

add_evidence-IsRecorded : (ev : EvidenceRecord) (g : Graph) → IsRecorded ev (add_evidence ev g)
unfolding add_evidence
add_evidence-IsRecorded ev g =
    let e = evidence ev.log_index in
    let s = targets e ev.subject_id in
    let p = published_by e ev.publisher_issuer ev.publisher_sub in
    let made = set_evidence ev (merge_node e g) in
    let after_set = set_evidence-Grows ev (merge_node e g) in
    let after_s = merge_edge-Extends s made in
    let after_p = merge_edge-Extends p (merge_edge s made) in
    let props : (add_evidence ev g).evidence_props ≡ made.evidence_props =
      after_p.props ∙ after_s.props in
    record {
      node = after_p.grown.nodes e (after_s.grown.nodes e (after_set.nodes e (merge_node-has e g)));
      of_subject = after_p.grown.edges s (merge_edge-has s made);
      by_publisher = merge_edge-has p (merge_edge s made);
      props = ap (λ f. f ev.log_index) props ∙ set_evidence-own ev (merge_node e g);
    }

pub evidence_query-IsRecorded :
    (ev : EvidenceRecord) (g : Graph)
    → has_node g (subject ev.subject_id) ≡ true
    → has_node g (publisher ev.publisher_issuer ev.publisher_sub) ≡ true
    → IsRecorded ev (evidence_query ev g)
unfolding evidence_query
evidence_query-IsRecorded ev g s p =
    subst (IsRecorded ev)
      (sym (
        matching-done (subject ev.subject_id) (publisher ev.publisher_issuer ev.publisher_sub)
          (add_evidence ev) g s p))
      (add_evidence-IsRecorded ev g)

pub IsRecorded-Extends :
    (ev : EvidenceRecord) (g h : Graph) → IsRecorded ev g → Extends g h → IsRecorded ev h
IsRecorded-Extends ev g h r x = record {
  node = x.grown.nodes (evidence ev.log_index) r.node;
  of_subject = x.grown.edges (targets (evidence ev.log_index) ev.subject_id) r.of_subject;
  by_publisher =
      x.grown.edges (published_by (evidence ev.log_index) ev.publisher_issuer ev.publisher_sub)
        r.by_publisher;
  props = ap (λ f. f ev.log_index) x.props ∙ r.props;
}
