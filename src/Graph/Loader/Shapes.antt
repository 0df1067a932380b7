-- ===== src/Graph/Loader/Shapes.antt =====
-- Which edges the queries of internal/graph/writer.go add, and those that its ThreatModel looks for.
pub mod Leverages
use complytime_core.Prelude.{
  ℕ, ◌≡◌, ◌≢◌, refl, ◌∙◌, sym, ap, inl, inr, Bool, true, false, ◌&&◌, String, List, [], ◌∷◌, ◌++◌,
  map, arith, ◌==◌, eq_iff, All, All-append, Bool-cases, subst, contains, if◌then◌else◌,
}
use complytime_core.Errors.{Result, ok, err, Result-cases}
use complytime_core.Locker.Log.{Bytes}
use complytime_core.Graph.Store.{
  Graph, Node, subject, publisher, ingested_stub, evidence, entity, Edge, has_node, has_edge,
  merge_node, merge_edge, matching,
}
use complytime_core.Graph.Writer.{
  Driver, EntityRecord, EdgeRecord, EvidenceRecord, edge_of, targets, published_by, defines,
  add_stub, ingested_stub_query, set_evidence, add_evidence, evidence_query, add_properties,
  entity_query, edge_query,
}
use complytime_core.Graph.Writer.Effects.{matching-keeps}
use complytime_core.Graph.Parser.{
  ParsedArtifact, Mapping, Control, Threat, mapping_edges, mappings_edges, all_edges, control_edges,
  threat_edges, parse_control_catalog, parse_threat_catalog, parse_capability_catalog,
  parse_artifact,
}
use complytime_core.Graph.Loader.{Outside, consume}
use complytime_core.Graph.Loader.Kept.{Kept}
use complytime_core.Graph.Loader.Handled.{KeptByAll, consume-Keeps}
use complytime_core.Graph.Loader.Recorded.{All-unit}

-- The ends of a LEVERAGES edge of the query of ThreatModel: from a threat to a capability.
abbrev pub leverage_ends : Node → Node → List (String × String)
leverage_ends (entity l t) (entity m c) =
    if l == "Threat" && m == "Capability" then (t, c) ∷ [] else []
leverage_ends _ _ = []

abbrev pub leverages_in : List Edge → List (String × String)
leverages_in [] = []
leverages_in (e ∷ l) =
    let rest = leverages_in l in
    if e.kind == "LEVERAGES" then leverage_ends e.source e.target ++ rest else rest

-- The rows of the LEVERAGES query of ThreatModel, for all threats: threat and capability.
unfoldable pub leverage_rows : Graph → List (String × String)
leverage_rows g = leverages_in g.edges

-- An edge that is no LEVERAGES edge, or one to a vector.
pub record IsShaped (e : Edge) : Type 0 where
  pub to_vector : e.kind ≡ "LEVERAGES" → (id : String) × (e.target ≡ entity "Vector" id)

abbrev pub HasShapes : Graph → Type 0
HasShapes g = All IsShaped g.edges

-- Edges of other kinds.
pub plain_edge : (e : Edge) → e.kind ≢ "LEVERAGES" → IsShaped e
plain_edge e n = record { to_vector = λ h. absurd (n h) }

vector_ends : (s : Node) (id : String) → leverage_ends s (entity "Vector" id) ≡ []
vector_ends (entity l t) id = elim (Bool-cases (l == "Threat")) [
  | inl k ↦ rw k refl
  | inr k ↦ rw k refl
]
vector_ends _ id = refl

leverage_ends-empty : (s t : Node) (id : String) → t ≡ entity "Vector" id → leverage_ends s t ≡ []
leverage_ends-empty s t id h = ap (leverage_ends s) h ∙ vector_ends s id

pub leverages_in-empty : (l : List Edge) → All IsShaped l → leverages_in l ≡ []
leverages_in-empty [] h = refl
leverages_in-empty (e ∷ l) h = elim (Bool-cases (e.kind == "LEVERAGES")) [
  | inr k ↦ rw k (leverages_in-empty l h.1)
  | inl k ↦
      let (id, to) = h.0.to_vector ((eq_iff e.kind "LEVERAGES").0 k) in
      rw (k, leverage_ends-empty e.source e.target id to) (leverages_in-empty l h.1)
]

merge_edge-HasShapes :
    (e : Edge) (g : Graph) → IsShaped e → HasShapes g → HasShapes (merge_edge e g)
unfolding merge_edge
merge_edge-HasShapes e g shaped h = elim (Bool-cases (has_edge g e)) [
  | inl k ↦ rw k h
  | inr k ↦ rw k (shaped, h)
]

pub merge_node-HasShapes : (n : Node) (g : Graph) → HasShapes g → HasShapes (merge_node n g)
unfolding merge_node
merge_node-HasShapes n g h = elim (Bool-cases (has_node g n)) [ inl k ↦ rw k h | inr k ↦ rw k h ]

pub add_stub-HasShapes :
    (digest subject_id issuer sub : String) (g : Graph)
    → HasShapes g
    → HasShapes (add_stub digest subject_id issuer sub g)
unfolding add_stub
add_stub-HasShapes digest subject_id issuer sub g h =
    let stub = ingested_stub digest subject_id in
    merge_edge-HasShapes (published_by stub issuer sub) _ (plain_edge _ (λ e. cc e)) (
      merge_edge-HasShapes (targets stub subject_id) _ (plain_edge _ (λ e. cc e))
        (merge_node-HasShapes stub g h))

pub add_evidence-HasShapes :
    (ev : EvidenceRecord) (g : Graph) → HasShapes g → HasShapes (add_evidence ev g)
unfolding add_evidence set_evidence
add_evidence-HasShapes ev g h =
    let e = evidence ev.log_index in
    merge_edge-HasShapes (published_by e ev.publisher_issuer ev.publisher_sub) _
      (plain_edge _ (λ k. cc k))
      (merge_edge-HasShapes (targets e ev.subject_id) (set_evidence ev (merge_node e g))
        (plain_edge _ (λ k. cc k)) (merge_node-HasShapes e g h))

-- A graph with such edges only leads to another.
abbrev pub StaysShaped : Graph → Graph → Type 0
StaysShaped g h = HasShapes g → HasShapes h

pub entity_query-StaysShaped : (r : EntityRecord) (g : Graph) → StaysShaped g (entity_query r g)
unfolding entity_query add_properties
entity_query-StaysShaped r g h =
    let n = entity r.label r.id in
    let written = add_properties r.label r.id r.properties (merge_node n g) in
    matching-keeps StaysShaped (evidence r.evidence_log_index ∷ [])
      (merge_edge (defines r.evidence_log_index n)) written (λ k. k)
      (merge_edge-HasShapes (defines r.evidence_log_index n) written (plain_edge _ (λ k. cc k)))
      (merge_node-HasShapes n g h)

pub edge_query-StaysShaped :
    (r : EdgeRecord) → IsShaped (edge_of r) → (g : Graph) → StaysShaped g (edge_query r g)
unfolding edge_query
edge_query-StaysShaped r shaped g =
    matching-keeps StaysShaped (entity r.from_label r.from_id ∷ entity r.to_label r.to_id ∷ [])
      (merge_edge (edge_of r)) g (λ k. k) (merge_edge-HasShapes (edge_of r) g shaped)
