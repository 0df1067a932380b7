-- ===== src/Graph/Store.antt =====
-- The graph that the queries of internal/graph/writer.go keep: its nodes by their keys, the edges,
-- the properties that SET writes, and the clauses MATCH and MERGE on them.
pub mod Clauses
use complytime_core.Prelude.{
  ℕ, ◌≡◌, ◌⊎◌, Bool, true, false, ◌&&◌, String, List, [], ◌∷◌, Option, none, some, ◌==◌, nat_eq,
  any, if◌then◌else◌,
}
use complytime_core.Errors.{Error, Result, ok, err}
use complytime_core.Events.{Time}

-- (:Subject {id}), (:Publisher {issuer, sub}), (:IngestedStub {digest, subjectId}),
-- (:Evidence {logIndex}), and an entity with its label and its id.
pub data Node : Type 0 where
  subject : String → Node
  publisher : String → String → Node
  ingested_stub : String → String → Node
  evidence : ℕ → Node
  entity : String → String → Node

abbrev pub node_eq : Node → Node → Bool
node_eq (subject i) (subject j) = i == j
node_eq (publisher i s) (publisher j t) = i == j && s == t
node_eq (ingested_stub d i) (ingested_stub e j) = d == e && i == j
node_eq (evidence i) (evidence j) = nat_eq i j
node_eq (entity l i) (entity m j) = l == m && i == j
node_eq _ _ = false

-- (source)-[:kind]->(target).
pub record Edge : Type 0 where
  pub source : Node
  pub kind : String
  pub target : Node

abbrev pub edge_eq : Edge → Edge → Bool
edge_eq a b = node_eq a.source b.source && (a.kind == b.kind && node_eq a.target b.target)

-- A neo4j.LocalDateTime, the wall clock of a time without its location; it is kept as the time that
-- neo4j.LocalDateTimeOf is applied to. What else the driver and the database make of it is theirs.
pub data LocalDateTime : Type 0 where
  local_date_time_of : Time → LocalDateTime

-- What the writer sets on an evidence node.
pub record EvidenceProps : Type 0 where
  pub digest : String
  pub receipt_digest : String
  pub artifact_type : String
  pub status : String
  pub sealed : LocalDateTime

-- A property of an entity: a text, a list of texts, or a flag.
pub data Value : Type 0 where
  text : String → Value
  texts : List String → Value
  flag : Bool → Value

pub record Graph : Type 0 where
  pub nodes : List Node
  pub edges : List Edge
  -- Those of the evidence nodes that are there, by log index.
  pub evidence_props : ℕ → EvidenceProps
  -- By label, id and name.
  pub entity_props : String → String → String → Option Value

abbrev pub has_node : Graph → Node → Bool
has_node g n = any (node_eq n) g.nodes

abbrev pub has_edge : Graph → Edge → Bool
has_edge g e = any (edge_eq e) g.edges

-- MERGE of a node and of an edge: nothing is added twice.
unfoldable pub merge_node : Node → Graph → Graph
merge_node n g = if has_node g n then g else record g { nodes = n ∷ g.nodes }

unfoldable pub merge_edge : Edge → Graph → Graph
merge_edge e g = if has_edge g e then g else record g { edges = e ∷ g.edges }

-- What is behind MATCH clauses for single nodes: done if they are there.
unfoldable pub matching : List Node → (Graph → Graph) → Graph → Graph
matching [] later g = later g
matching (n ∷ l) later g = let rest = matching l later g in if has_node g n then rest else g

-- The ends of the edges of one kind that go out of a node, or come in at it: a MATCH of a path.
abbrev outgoing : List Edge → Node → String → List Node
outgoing [] n kind = []
outgoing (e ∷ l) n kind =
    let rest = outgoing l n kind in
    if node_eq n e.source && kind == e.kind then e.target ∷ rest else rest

abbrev incoming : List Edge → Node → String → List Node
incoming [] n kind = []
incoming (e ∷ l) n kind =
    let rest = incoming l n kind in
    if node_eq n e.target && kind == e.kind then e.source ∷ rest else rest

unfoldable pub out_of : Graph → Node → String → List Node
out_of g n kind = outgoing g.edges n kind

unfoldable pub into : Graph → Node → String → List Node
into g n kind = incoming g.edges n kind
