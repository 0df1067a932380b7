-- ===== src/Graph/Writer.antt =====
-- internal/graph/writer.go: the queries that write to the graph, and the one that looks up a publisher.
pub mod Effects
use complytime_core.Prelude.{
  ℕ, ◌≡◌, ◌⊎◌, ◌↔◌, ◌≤◌, Bool, true, String, List, [], ◌∷◌, Option, none, some, ◌==◌, nat_eq, take,
  Memᴰ, Sorted, lookup, if◌then◌else◌,
}
use complytime_core.Errors.{Error, Result, ok, err}
use complytime_core.Errors.Steps.{Step, ◌>>=◌, return}
use complytime_core.Events.{Time}
use complytime_core.Graph.Store.{
  Node, subject, publisher, ingested_stub, evidence, entity, Edge, LocalDateTime,
  local_date_time_of, EvidenceProps, Value, Graph, merge_node, merge_edge, matching, out_of,
}

pub record EvidenceRecord : Type 0 where
  pub log_index : ℕ
  pub digest : String
  pub receipt_digest : String
  pub artifact_type : String
  pub status : String
  pub subject_id : String
  pub publisher_issuer : String
  pub publisher_sub : String
  pub sealed : Time

pub record EntityRecord : Type 0 where
  pub id : String
  pub label : String
  pub properties : List (String × Value)
  pub evidence_log_index : ℕ

pub record EdgeRecord : Type 0 where
  pub from_id : String
  pub from_label : String
  pub to_id : String
  pub to_label : String
  pub edge_type : String

-- (source)-[:kind]->(target).
abbrev pub targets : Node → String → Edge
targets n subject_id = record { source = n; kind = "TARGETS"; target = subject subject_id }

abbrev pub published_by : Node → String → String → Edge
published_by n issuer sub = record {
  source = n;
  kind = "PUBLISHED_BY";
  target = publisher issuer sub;
}

abbrev pub defines : ℕ → Node → Edge
defines i n = record { source = evidence i; kind = "DEFINES"; target = n }

-- The Cypher of UpsertIngestedStub, behind its MATCH clauses and with them.
unfoldable pub add_stub : String → String → String → String → Graph → Graph
unfolding merge_node merge_edge
add_stub digest subject_id issuer sub g =
    let stub = ingested_stub digest subject_id in
    merge_edge (published_by stub issuer sub)
      (merge_edge (targets stub subject_id) (merge_node stub g))

unfoldable pub ingested_stub_query : String → String → String → String → Graph → Graph
unfolding matching add_stub
ingested_stub_query digest subject_id issuer sub =
    matching (subject subject_id ∷ publisher issuer sub ∷ [])
      (add_stub digest subject_id issuer sub)

-- The SET clause of UpsertEvidence.
abbrev pub props_of : EvidenceRecord → EvidenceProps
props_of ev = record {
  digest = ev.digest;
  receipt_digest = ev.receipt_digest;
  artifact_type = ev.artifact_type;
  status = ev.status;
  sealed = local_date_time_of ev.sealed;
}

unfoldable pub set_evidence : EvidenceRecord → Graph → Graph
set_evidence ev g = record g {
  evidence_props = λ i. if nat_eq ev.log_index i then props_of ev else g.evidence_props i;
}

-- The Cypher of UpsertEvidence, behind its MATCH clauses and with them.
unfoldable pub add_evidence : EvidenceRecord → Graph → Graph
unfolding merge_node merge_edge set_evidence
add_evidence ev g =
    let e = evidence ev.log_index in
    merge_edge (published_by e ev.publisher_issuer ev.publisher_sub)
      (merge_edge (targets e ev.subject_id) (set_evidence ev (merge_node e g)))

unfoldable pub evidence_query : EvidenceRecord → Graph → Graph
unfolding matching add_evidence
evidence_query ev =
    matching (subject ev.subject_id ∷ publisher ev.publisher_issuer ev.publisher_sub ∷ [])
      (add_evidence ev)

-- `SET n += $properties`: the other properties stay.
unfoldable pub add_properties : String → String → List (String × Value) → Graph → Graph
unfolding lookup
add_properties label id properties g = record g {
  entity_props = λ l i name.
      if label == l
      then if id == i
        then elim (lookup name properties) [ none ↦ g.entity_props l i name | some v ↦ some v ]
        else g.entity_props l i name
      else g.entity_props l i name;
}

-- The Cypher of UpsertEntity.
unfoldable pub entity_query : EntityRecord → Graph → Graph
unfolding matching merge_node merge_edge add_properties
entity_query r g =
    let n = entity r.label r.id in
    matching (evidence r.evidence_log_index ∷ []) (merge_edge (defines r.evidence_log_index n))
      (add_properties r.label r.id r.properties (merge_node n g))

abbrev pub edge_of : EdgeRecord → Edge
edge_of r = record {
  source = entity r.from_label r.from_id;
  kind = r.edge_type;
  target = entity r.to_label r.to_id;
}

-- The Cypher of UpsertEdge.
unfoldable pub edge_query : EdgeRecord → Graph → Graph
unfolding matching merge_edge
edge_query r =
    matching (entity r.from_label r.from_id ∷ entity r.to_label r.to_id ∷ [])
      (merge_edge (edge_of r))

-- The rows of a query: what its patterns match, in the order of a key, up to a limit.
pub record Query (A : Type 0) : Type 0 where
  pub rows : Graph → List A
  pub order : A → ℕ
  pub limit : Option ℕ

abbrev pub limited {ℓ} : {A : Type ℓ} → Option ℕ → List A → List A
limited none l = l
limited (some n) l = take n l

-- An answer to a query: the start of some sorted list of all that matches.
pub record IsAnswer {A : Type 0} (q : Query A) (g : Graph) (answer : List A) : Type 0 where
  pub all : List A
  pub members : (a : A) → Memᴰ a all ↔ Memᴰ a (q.rows g)
  pub sorted : Sorted q.order all
  pub cut : answer ≡ limited q.limit all

-- What the writer relies on of Memgraph and its driver. Each query is a transaction: one that succeeds
-- did what it says, one that fails did that or nothing.
pub record Driver : Type 1 where
  pub State : Type 0
  pub view : State → Graph
  pub run : (Graph → Graph) → Step State (Unit {0})
  pub run_ok : (q : Graph → Graph) (s : State) → (run q s).1 ≡ ok tt → view (run q s).0 ≡ q (view s)
  pub run_err :
      (q : Graph → Graph) (s : State) (e : Error)
      → (run q s).1 ≡ err e
      → (view (run q s).0 ≡ view s) ⊎ (view (run q s).0 ≡ q (view s))
  pub read : {A : Type 0} → Query A → State → Result (List A)
  pub read_ok :
      {A : Type 0} (q : Query A) (s : State) (answer : List A)
      → read q s ≡ ok answer
      → IsAnswer q (view s) answer
  -- Whether the database takes a LocalDateTime to be `>=` or `<` a parameter that is a time.Time, which
  -- the driver hands over with its zone.
  pub at_or_after : LocalDateTime → Time → Bool
  pub earlier : LocalDateTime → Time → Bool

-- The publishers among nodes.
abbrev pub publishers_in : List Node → List (String × String)
publishers_in [] = []
publishers_in (publisher i s ∷ l) = let rest = publishers_in l in (i, s) ∷ rest
publishers_in (subject i ∷ l) = publishers_in l
publishers_in (ingested_stub d i ∷ l) = publishers_in l
publishers_in (evidence i ∷ l) = publishers_in l
publishers_in (entity k i ∷ l) = publishers_in l

-- The Cypher of FindPublisherByDigest.
unfoldable pub publisher_query : String → String → Query (String × String)
unfolding out_of
publisher_query subject_id digest = record {
  rows = λ g. publishers_in (out_of g (ingested_stub digest subject_id) "PUBLISHED_BY");
  order = λ a. 0;
  limit = some 1;
}

module _ (d : Driver) where
  unfoldable pub upsert_subject : String → Step d.State (Unit {0})
  unfolding merge_node
  upsert_subject subject_id = d.run (merge_node (subject subject_id))

  unfoldable pub upsert_publisher : String → String → Step d.State (Unit {0})
  unfolding merge_node
  upsert_publisher issuer sub = d.run (merge_node (publisher issuer sub))

  unfoldable pub upsert_ingested_stub : String → String → String → String → Step d.State (Unit {0})
  unfolding ingested_stub_query
  upsert_ingested_stub digest subject_id issuer sub =
      d.run (ingested_stub_query digest subject_id issuer sub)

  unfoldable pub upsert_evidence : EvidenceRecord → Step d.State (Unit {0})
  unfolding evidence_query
  upsert_evidence ev = d.run (evidence_query ev)

  unfoldable pub upsert_entity : EntityRecord → Step d.State (Unit {0})
  unfolding entity_query
  upsert_entity r = d.run (entity_query r)

  unfoldable pub upsert_edge : EdgeRecord → Step d.State (Unit {0})
  unfolding edge_query
  upsert_edge r = d.run (edge_query r)

  -- FindPublisherByDigest: two empty texts if there is none.
  unfoldable pub find_publisher_by_digest : d.State → String → String → Result (String × String)
  unfolding publisher_query
  find_publisher_by_digest s subject_id digest =
      elim (d.read (publisher_query subject_id digest) s) [
        | err e ↦ err e
        | ok [] ↦ ok ("", "")
        | ok (p ∷ others) ↦ ok p
      ]
