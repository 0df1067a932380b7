-- ===== src/Graph/Parser.antt =====
-- internal/graph/parser.go: the entities and the edges of a Gemara catalog. Of the types of go-gemara
-- only the fields that are read are there; json.Unmarshal into them is a parameter.
use complytime_core.Prelude.{ℕ, String, List, [], ◌∷◌, ◌++◌, ◌==◌, map, if◌then◌else◌}
use complytime_core.Errors.{Result, ok, ◌>>=◌, context}
use complytime_core.Locker.Log.{Bytes}
use complytime_core.Graph.Store.{Value, text, texts}
use complytime_core.Graph.Writer.{EntityRecord, EdgeRecord}

-- A mapping to another catalog: the reference IDs of its entries.
abbrev pub Mapping : Type 0
Mapping = List String

pub record Control : Type 0 where
  pub id : String
  pub title : String
  pub objective : String
  pub group : String
  -- The texts of the assessment requirements.
  pub assessment_requirements : List String
  pub threats : List Mapping

pub record Threat : Type 0 where
  pub id : String
  pub title : String
  pub description : String
  pub group : String
  pub capabilities : List Mapping
  pub vectors : List Mapping

pub record Capability : Type 0 where
  pub id : String
  pub title : String
  pub description : String
  pub group : String

-- A catalog: its metadata's ID, and what it lists.
pub record Catalog (A : Type 0) : Type 0 where
  pub id : String
  pub entries : List A

pub record Gemara : Type 0 where
  pub decode_controls : Bytes → Result (Catalog Control)
  pub decode_threats : Bytes → Result (Catalog Threat)
  pub decode_capabilities : Bytes → Result (Catalog Capability)

pub record ParsedArtifact : Type 0 where
  pub catalog_id : String
  pub entities : List EntityRecord
  pub edges : List EdgeRecord

-- The edges of a mapping, and of several: entries with no reference ID are left out.
unfoldable pub mapping_edges : (String → EdgeRecord) → Mapping → List EdgeRecord
mapping_edges edge [] = []
mapping_edges edge (reference_id ∷ l) =
    let rest = mapping_edges edge l in if reference_id == "" then rest else edge reference_id ∷ rest

unfoldable pub mappings_edges : (String → EdgeRecord) → List Mapping → List EdgeRecord
unfolding mapping_edges
mappings_edges edge [] = []
mappings_edges edge (m ∷ l) = mapping_edges edge m ++ mappings_edges edge l

-- `props["assessmentRequirements"]`, if there are any.
abbrev requirements_property : List String → List (String × Value)
requirements_property [] = []
requirements_property (t ∷ l) = ("assessmentRequirements", texts (t ∷ l)) ∷ []

unfoldable pub control_entity : String → ℕ → Control → EntityRecord
control_entity catalog_id log_index c = record {
  id = c.id;
  label = "Control";
  properties =
      ("title", text c.title)
      ∷ ("objective", text c.objective)
      ∷ ("group", text c.group)
      ∷ ("catalogID", text catalog_id)
      ∷ requirements_property c.assessment_requirements;
  evidence_log_index = log_index;
}

unfoldable pub control_edges : Control → List EdgeRecord
unfolding mappings_edges
control_edges c =
    mappings_edges
      (λ reference_id. record {
        from_id = c.id;
        from_label = "Control";
        to_id = reference_id;
        to_label = "Threat";
        edge_type = "ADDRESSES";
      })
      c.threats

unfoldable pub threat_entity : ℕ → Threat → EntityRecord
threat_entity log_index t = record {
  id = t.id;
  label = "Threat";
  properties =
      ("title", text t.title) ∷ ("description", text t.description) ∷ ("group", text t.group) ∷ [];
  evidence_log_index = log_index;
}

unfoldable pub threat_edges : Threat → List EdgeRecord
unfolding mappings_edges
threat_edges t =
    mappings_edges
      (λ reference_id. record {
        from_id = reference_id;
        from_label = "Capability";
        to_id = t.id;
        to_label = "Threat";
        edge_type = "INTRODUCES";
      })
      t.capabilities
    ++ mappings_edges
        (λ reference_id. record {
          from_id = t.id;
          from_label = "Threat";
          to_id = reference_id;
          to_label = "Vector";
          edge_type = "LEVERAGES";
        })
        t.vectors

unfoldable pub capability_entity : ℕ → Capability → EntityRecord
capability_entity log_index c = record {
  id = c.id;
  label = "Capability";
  properties =
      ("title", text c.title) ∷ ("description", text c.description) ∷ ("group", text c.group) ∷ [];
  evidence_log_index = log_index;
}

-- The edges of the listed entries, one entry after the other.
unfoldable pub all_edges : {A : Type 0} → (A → List EdgeRecord) → List A → List EdgeRecord
all_edges edges [] = []
all_edges edges (a ∷ l) = edges a ++ all_edges edges l

unfoldable pub parse_control_catalog : Gemara → Bytes → ℕ → Result ParsedArtifact
unfolding control_entity control_edges all_edges
parse_control_catalog m content log_index = do
  catalog ← context "unmarshaling ControlCatalog" (m.decode_controls content)
  ok (record {
    catalog_id = catalog.id;
    entities = map (control_entity catalog.id log_index) catalog.entries;
    edges = all_edges control_edges catalog.entries;
  })

unfoldable pub parse_threat_catalog : Gemara → Bytes → ℕ → Result ParsedArtifact
unfolding threat_entity threat_edges all_edges
parse_threat_catalog m content log_index = do
  catalog ← context "unmarshaling ThreatCatalog" (m.decode_threats content)
  ok (record {
    catalog_id = catalog.id;
    entities = map (threat_entity log_index) catalog.entries;
    edges = all_edges threat_edges catalog.entries;
  })

unfoldable pub parse_capability_catalog : Gemara → Bytes → ℕ → Result ParsedArtifact
unfolding capability_entity
parse_capability_catalog m content log_index = do
  catalog ← context "unmarshaling CapabilityCatalog" (m.decode_capabilities content)
  ok (record {
    catalog_id = catalog.id;
    entities = map (capability_entity log_index) catalog.entries;
    edges = [];
  })

-- ParseArtifact: of other types nothing is extracted.
unfoldable pub parse_artifact : Gemara → String → Bytes → ℕ → Result ParsedArtifact
unfolding parse_control_catalog parse_threat_catalog parse_capability_catalog
parse_artifact m artifact_type content log_index =
    if artifact_type == "ControlCatalog"
    then parse_control_catalog m content log_index
    else if artifact_type == "ThreatCatalog"
    then parse_threat_catalog m content log_index
    else if artifact_type == "CapabilityCatalog"
    then parse_capability_catalog m content log_index
    else ok (record { catalog_id = ""; entities = []; edges = [] })
