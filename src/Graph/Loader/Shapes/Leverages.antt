-- ===== src/Graph/Loader/Shapes/Leverages.antt =====
-- The edges of parsed artifacts, and what ThreatModel of internal/graph/writer.go finds of them.
use complytime_core.Prelude.{
  ℕ, ◌≡◌, ◌≢◌, refl, sym, inl, inr, false, String, List, [], ◌∷◌, arith, ◌==◌, eq_iff, All,
  All-append, Bool-cases, subst,
}
use complytime_core.Errors.{ok, Result-cases}
use complytime_core.Locker.Log.{Bytes}
use complytime_core.Graph.Store.{subject, publisher}
use complytime_core.Graph.Writer.{
  Driver, EdgeRecord, edge_of, add_stub, ingested_stub_query, add_evidence, evidence_query,
}
use complytime_core.Graph.Writer.Effects.{matching-keeps}
use complytime_core.Graph.Parser.{
  ParsedArtifact, Mapping, Control, Threat, mapping_edges, mappings_edges, all_edges, control_edges,
  threat_edges, parse_control_catalog, parse_threat_catalog, parse_capability_catalog,
  parse_artifact,
}
use complytime_core.Graph.Loader.{Outside, consume}
use complytime_core.Graph.Loader.Handled.{KeptByAll, consume-Keeps}
use complytime_core.Graph.Loader.Recorded.{All-unit}
use complytime_core.Graph.Loader.Shapes.{
  leverage_rows, IsShaped, plain_edge, leverages_in-empty, merge_node-HasShapes, add_stub-HasShapes,
  add_evidence-HasShapes, StaysShaped, entity_query-StaysShaped, edge_query-StaysShaped,
}

-- The edges of a parsed artifact.
abbrev IsShapedRecord : EdgeRecord → Type 0
IsShapedRecord r = IsShaped (edge_of r)

mapping_edges-shaped :
    (edge : String → EdgeRecord)
    → ((id : String) → IsShapedRecord (edge id))
    → (m : Mapping) → All IsShapedRecord (mapping_edges edge m)
unfolding mapping_edges
mapping_edges-shaped edge h [] = tt
mapping_edges-shaped edge h (id ∷ l) = elim (Bool-cases (id == "")) [
  | inl e ↦ rw e (mapping_edges-shaped edge h l)
  | inr e ↦ rw e (h id, mapping_edges-shaped edge h l)
]

mappings_edges-shaped :
    (edge : String → EdgeRecord)
    → ((id : String) → IsShapedRecord (edge id))
    → (l : List Mapping) → All IsShapedRecord (mappings_edges edge l)
unfolding mappings_edges
mappings_edges-shaped edge h [] = tt
mappings_edges-shaped edge h (m ∷ l) =
    All-append IsShapedRecord (mapping_edges edge m) (mappings_edges edge l)
      (mapping_edges-shaped edge h m) (mappings_edges-shaped edge h l)

all_edges-shaped :
    {A : Type 0} (edges : A → List EdgeRecord)
    → ((a : A) → All IsShapedRecord (edges a))
    → (l : List A) → All IsShapedRecord (all_edges edges l)
unfolding all_edges
all_edges-shaped edges h [] = tt
all_edges-shaped edges h (a ∷ l) =
    All-append IsShapedRecord (edges a) (all_edges edges l) (h a) (all_edges-shaped edges h l)

-- Texts that the comparison tells apart.
apart : (a b : String) → (a == b) ≡ false → a ≢ b
apart a b n h = cc (n, (eq_iff a b).1 h)

control_edges-shaped : (c : Control) → All IsShapedRecord (control_edges c)
unfolding control_edges
control_edges-shaped c = mappings_edges-shaped _ (λ id. plain_edge _ (apart _ _ refl)) c.threats

threat_edges-shaped : (t : Threat) → All IsShapedRecord (threat_edges t)
unfolding threat_edges
threat_edges-shaped t =
    All-append IsShapedRecord _ _
      (mappings_edges-shaped _ (λ id. plain_edge _ (apart _ _ refl)) t.capabilities)
      (mappings_edges-shaped _ (λ id. record { to_vector = λ k. (id, refl) }) t.vectors)

shaped-ok :
    (q p : ParsedArtifact) → ok q ≡ ok p → All IsShapedRecord q.edges → All IsShapedRecord p.edges
shaped-ok q p h all = let same : q ≡ p = cc h in subst (λ a. All IsShapedRecord a.edges) same all

module _ (o : Outside) where
  parse_artifact-shaped :
      (artifact_type : String) (content : Bytes) (i : ℕ) (p : ParsedArtifact)
      → parse_artifact o.gemara artifact_type content i ≡ ok p
      → All IsShapedRecord p.edges
  unfolding parse_artifact parse_control_catalog parse_threat_catalog parse_capability_catalog
  parse_artifact-shaped artifact_type content i p h =
      elim (Bool-cases (artifact_type == "ControlCatalog")) [
        | inl c ↦ elim (Result-cases (o.gemara.decode_controls content)) [
          | inr (e, f) ↦ absurd (ground (arith, c, f))
          | inl (catalog, f) ↦
              shaped-ok _ p (rw (c, f) at h)
                (all_edges-shaped control_edges control_edges-shaped catalog.entries)
        ]
        | inr c ↦ elim (Bool-cases (artifact_type == "ThreatCatalog")) [
          | inl k ↦ elim (Result-cases (o.gemara.decode_threats content)) [
            | inr (e, f) ↦ absurd (ground (arith, c, k, f))
            | inl (catalog, f) ↦
                shaped-ok _ p (rw (c, k, f) at h)
                  (all_edges-shaped threat_edges threat_edges-shaped catalog.entries)
          ]
          | inr k ↦ elim (Bool-cases (artifact_type == "CapabilityCatalog")) [
            | inl m ↦ elim (Result-cases (o.gemara.decode_capabilities content)) [
              | inr (e, f) ↦ absurd (ground (arith, c, k, m, f))
              | inl (catalog, f) ↦ shaped-ok _ p (rw (c, k, m, f) at h) tt
            ]
            | inr m ↦ shaped-ok _ p (rw (c, k, m) at h) tt
          ]
        ]
      ]

  shaped_by_all : KeptByAll o StaysShaped (λ r. Unit {0}) IsShapedRecord
  unfolding ingested_stub_query evidence_query
  shaped_by_all = record {
    kept = record {
      same = λ g k. k;
      trans = λ f g h a b k. b (a k);
      parsed = λ t c i p h. (All-unit p.entities, parse_artifact-shaped t c i p h);
      stubs = λ r i h. (tt, tt);
      entity = λ r h g. entity_query-StaysShaped r g;
      edge = edge_query-StaysShaped;
    };
    node = merge_node-HasShapes;
    stub = λ digest subject_id issuer sub g.
        matching-keeps StaysShaped (subject subject_id ∷ publisher issuer sub ∷ [])
          (add_stub digest subject_id issuer sub) g (λ k. k)
          (add_stub-HasShapes digest subject_id issuer sub g);
    evidence_ = λ ev g.
        matching-keeps StaysShaped
          (subject ev.subject_id ∷ publisher ev.publisher_issuer ev.publisher_sub ∷ [])
          (add_evidence ev) g (λ k. k) (add_evidence-HasShapes ev g);
  }

  -- From a graph without edges, whatever messages the loader gets, the query of ThreatModel for the
  -- capabilities that a threat leverages finds nothing, for any threat: the edges of that kind lead to
  -- vectors.
  pub leverage_rows-empty :
      (d : Driver) (msgs : List Bytes) (s : d.State)
      → (d.view s).edges ≡ []
      → leverage_rows (d.view (consume d o msgs s).0) ≡ []
  unfolding leverage_rows
  leverage_rows-empty d msgs s h =
      leverages_in-empty (d.view (consume d o msgs s).0).edges
        (consume-Keeps d o shaped_by_all msgs s (subst (All IsShaped) (sym h) tt))
