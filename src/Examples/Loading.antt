-- ===== src/Examples/Loading.antt =====
-- Instances for internal/graph.
use mathlib.Core.List.Memᴰ
use complytime_core.Prelude.{
  ◌≡◌, refl, sym, ◌∙◌, ap, ◌↔◌, true, String, List, [], ◌∷◌, none, some, arith, Memᴰ, any, concat,
}
use complytime_core.Errors.{Error, plain, Result, ok, err}
use complytime_core.Errors.Steps.{◌>>=◌, ◌>>◌, return, lift, within}
use complytime_core.Json.{get}
use complytime_core.Base64.{decode_string, decode_digits}
use complytime_core.Events.{Event, type_evidence_sealed}
use complytime_core.Receipts.{
  extract_publisher, unwrap_object, unwrap_content, statement_object, predicate,
}
use complytime_core.Locker.Log.{Bytes}
use complytime_core.Locker.Worker.{EvidenceSealedData}
use complytime_core.Graph.Store.{
  local_date_time_of, Graph, evidence, has_edge, merge_node, merge_edge, matching, out_of, into,
}
use complytime_core.Graph.Store.Clauses.{Grows}
use complytime_core.Graph.Writer.{
  targets, upsert_subject, upsert_publisher, upsert_evidence, upsert_entity, upsert_edge,
  find_publisher_by_digest, publisher_query, evidence_query, add_evidence, set_evidence,
  entity_query, add_properties, edge_query,
}
use complytime_core.Graph.Parser.{
  Control, Catalog, Gemara, parse_artifact, parse_control_catalog, control_entity, control_edges,
  mappings_edges, mapping_edges, all_edges,
}
use complytime_core.Graph.Loader.{
  Outside, termed, handle_sealed, handle_receipt, fetch_artifact, evidence_record,
  infer_artifact_type, record_evidence, publisher_or_placeholder, process_artifact, upsert_entities,
  upsert_edges, handle_message, consume,
}
use complytime_core.Graph.Loader.Settled.{message_termed_iff}
use complytime_core.Graph.Loader.Recorded.{IsSealed, handle_sealed-IsSealed}
use complytime_core.Graph.Loader.Shapes.{leverage_rows}
use complytime_core.Graph.Loader.Shapes.Leverages.{leverage_rows-empty}
use complytime_core.Graph.Loader.Grown.{evidence_collides, consume-Grows}
use complytime_core.Graph.Evidence.{
  EvidenceItem, EvidenceFilter, evidence_rows, meets, evidence_page_query, follow,
}
use complytime_core.Graph.Evidence.Pages.{at_cursor}
use complytime_core.Graph.Evidence.Follow.{follow-IsComplete}
use complytime_core.Graph.Memory.{memory, read_rows, sort_by, insert_by}
use complytime_core.Examples.Wrapping.{formats}

-- A catalog with one control, which addresses one threat.
abbrev controls : Catalog Control
controls = record {
  id = "catalog";
  entries =
      record {
        id = "C1";
        title = "Control";
        objective = "objective";
        group = "group";
        assessment_requirements = [];
        threats = ("T1" ∷ []) ∷ [];
      }
      ∷ [];
}

abbrev gemara : Gemara
gemara = record {
  decode_controls = λ b. ok controls;
  decode_threats = λ b. err (plain "unknown");
  decode_capabilities = λ b. err (plain "unknown");
}

abbrev sealed_in : String → String → EvidenceSealedData
sealed_in subject_id digest = record {
  content_digest = digest;
  log_index = 0;
  receipt_digest = "receipt";
  receipt_type = "gemara-receipt/v1";
  storage_ref = concat "locker://" (concat subject_id "/entry/0");
  subject_id = subject_id;
}

abbrev sealed_event : Event
sealed_event = record {
  kind = type_evidence_sealed;
  time = some (record { instant = 9; location = "UTC" });
  data' = [];
}

abbrev decode_one : Bytes → Result Event
decode_one [] = err (plain "malformed")
decode_one (c ∷ l) = ok sealed_event

abbrev loader : Outside
loader = record {
  decode_event = decode_one;
  ingested_data = λ e. err (plain "unknown");
  sealed_data = λ e. ok (sealed_in "widget" "first");
  registered_data = λ e. err (plain "unknown");
  decode_metadata_type = λ b. ok "ControlCatalog";
  gemara = gemara;
  formats = formats;
  now = record { instant = 5; location = "UTC" };
  locker_url = "http://locker";
  http_get = λ url. ok (200, ok (1 ∷ []));
}

abbrev empty_graph : Graph
empty_graph = record {
  nodes = [];
  edges = [];
  evidence_props = λ i. record {
    digest = "";
    receipt_digest = "";
    artifact_type = "";
    status = "";
    sealed = local_date_time_of (record { instant = 0; location = "UTC" });
  };
  entity_props = λ l i n. none;
}

abbrev first_sealed : Graph
first_sealed =
    (handle_sealed memory loader sealed_event (sealed_in "widget" "first") "url" empty_graph).0

first_done :
    (handle_sealed memory loader sealed_event (sealed_in "widget" "first") "url" empty_graph).1
    ≡ ok tt
unfolding handle_sealed handle_receipt fetch_artifact unwrap_content unwrap_object extract_publisher
    get decode_string decode_digits statement_object predicate record_evidence evidence_record
    infer_artifact_type process_artifact upsert_entities upsert_edges parse_artifact
    parse_control_catalog control_entity control_edges mappings_edges mapping_edges all_edges
    upsert_subject upsert_publisher upsert_evidence upsert_entity upsert_edge ◌>>=◌ ◌>>◌ return lift
    within
first_done = refl

handle_sealed-IsSealed_example :
    IsSealed memory loader sealed_event (sealed_in "widget" "first") "url" empty_graph first_sealed
handle_sealed-IsSealed_example =
    handle_sealed-IsSealed memory loader sealed_event (sealed_in "widget" "first") "url" empty_graph
      first_done

second_done :
    (handle_sealed memory loader sealed_event (sealed_in "gadget" "second") "url" first_sealed).1
    ≡ ok tt
unfolding handle_sealed handle_receipt fetch_artifact unwrap_content unwrap_object extract_publisher
    get decode_string decode_digits statement_object predicate record_evidence evidence_record
    infer_artifact_type process_artifact upsert_entities upsert_edges parse_artifact
    parse_control_catalog control_entity control_edges mappings_edges mapping_edges all_edges
    upsert_subject upsert_publisher upsert_evidence upsert_entity upsert_edge ◌>>=◌ ◌>>◌ return lift
    within
second_done = refl

abbrev both_sealed : Graph
both_sealed =
    (handle_sealed memory loader sealed_event (sealed_in "gadget" "second") "url" first_sealed).0

evidence_collides_example :
    (has_edge both_sealed (targets (evidence 0) "widget") ≡ true)
    × ((both_sealed.evidence_props 0).digest ≡ "second")
evidence_collides_example =
    evidence_collides memory loader sealed_event sealed_event (sealed_in "widget" "first")
      (sealed_in "gadget" "second") "url" "url" empty_graph first_done second_done refl

message_termed_iff_example :
    ((handle_message memory loader [] empty_graph).1 ≡ termed)
    ↔ ((e : Error) × (loader.decode_event [] ≡ err e))
message_termed_iff_example = message_termed_iff memory loader [] empty_graph

consume-Grows_example :
    Grows first_sealed (consume memory loader ((7 ∷ []) ∷ [] ∷ []) first_sealed).0
consume-Grows_example = consume-Grows memory loader ((7 ∷ []) ∷ [] ∷ []) first_sealed

abbrev item : EvidenceItem
item = record {
  log_index = 0;
  digest = "first";
  artifact_type = "ControlCatalog";
  status = "sealed";
  sealed = local_date_time_of (record { instant = 9; location = "UTC" });
  publisher_ = ("locker-service", "locker");
}

one_row : evidence_rows first_sealed "widget" ≡ item ∷ []
unfolding evidence_rows into out_of handle_sealed handle_receipt fetch_artifact unwrap_content
    unwrap_object extract_publisher get decode_string decode_digits statement_object predicate
    record_evidence evidence_record infer_artifact_type process_artifact upsert_entities
    upsert_edges parse_artifact parse_control_catalog control_entity control_edges mappings_edges
    mapping_edges all_edges upsert_subject upsert_publisher upsert_evidence upsert_entity
    upsert_edge ◌>>=◌ ◌>>◌ return lift within find_publisher_by_digest publisher_query
    publisher_or_placeholder evidence_query add_evidence set_evidence entity_query add_properties
    edge_query matching merge_node merge_edge any sort_by insert_by
one_row = refl

abbrev recent_evidence : EvidenceFilter
recent_evidence = record {
  artifact_type = none;
  since = some (record { instant = 4; location = "UTC" });
  before = none;
  cursor = none;
  limit = none;
}

in_rows : (x : EvidenceItem) → Memᴰ x (evidence_rows first_sealed "widget") → x ≡ item
in_rows x m = Memᴰ.eq_of_singleton (rw one_row at m)

follow-IsComplete_example :
    (l : List EvidenceItem) × (follow memory 2 first_sealed "widget" recent_evidence ≡ some l)
    × ((x : EvidenceItem)
        → Memᴰ x l ↔ (
            Memᴰ x (evidence_rows first_sealed "widget") × (meets memory recent_evidence x ≡ true)))
follow-IsComplete_example =
    follow-IsComplete memory first_sealed "widget" recent_evidence 0
      (λ cursor. (
        read_rows
            (evidence_page_query memory "widget"
              (at_cursor memory first_sealed "widget" recent_evidence cursor))
            first_sealed,
        refl,
      ))
      (λ x m. omega (arith, ap (λ y. y.log_index) (in_rows x m))) (omega arith)
      (λ x y m n e. in_rows x m ∙ sym (in_rows y n)) 2 (omega arith) refl

leverage_rows-empty_example :
    leverage_rows (consume memory loader ((7 ∷ []) ∷ [] ∷ []) empty_graph).0 ≡ []
leverage_rows-empty_example =
    leverage_rows-empty loader memory ((7 ∷ []) ∷ [] ∷ []) empty_graph refl
