-- ===== src/Graph/Loader.antt =====
-- internal/graph/loader.go: the consumer of the events of evidence, which writes the graph.
pub mod Settled
pub mod Kept
pub mod Recorded
pub mod Handled
pub mod Grown
pub mod Shapes
use complytime_core.Prelude.{
  ℕ, zero, suc, Bool, true, false, ◌||◌, String, List, [], ◌∷◌, Option, none, some, concat, ◌==◌,
  nat_eq, cut_prefix, if◌then◌else◌,
}
use complytime_core.Errors.{
  Error, plain, json_syntax, json_unmarshal_type, canceled, Result, ok, err, context, guard,
}
use complytime_core.Errors.Steps.{Step, ◌>>=◌, ◌>>◌, return, lift, within}
use complytime_core.Events.{
  Time, Event, EvidenceIngestedData, SubjectRegisteredData, type_evidence_ingested,
  type_evidence_sealed, type_subject_registered,
}
use complytime_core.Receipts.{Formats, unwrap_content}
use complytime_core.Locker.Log.{Bytes}
use complytime_core.Locker.Worker.{EvidenceSealedData}
use complytime_core.Graph.Store.{Value, flag}
use complytime_core.Graph.Writer.{
  Driver, EvidenceRecord, EntityRecord, EdgeRecord, upsert_subject, upsert_publisher,
  upsert_ingested_stub, upsert_evidence, upsert_entity, upsert_edge, find_publisher_by_digest,
}
use complytime_core.Graph.Parser.{Gemara, ParsedArtifact, parse_artifact}

-- What the loader uses of other code: json.Unmarshal into a CloudEvent, event.DataAs, json.Unmarshal
-- of an artifact's `metadata.type`, the catalogs of Gemara, and the formats of receipts. Then what it
-- finds outside: the time, and the locker's answer to a GET of a URL, a status and the reading of its
-- body.
pub record Outside : Type 0 where
  pub decode_event : Bytes → Result Event
  pub ingested_data : Event → Result EvidenceIngestedData
  pub sealed_data : Event → Result EvidenceSealedData
  pub registered_data : Event → Result SubjectRegisteredData
  pub decode_metadata_type : Bytes → Result String
  pub gemara : Gemara
  pub formats : Formats
  pub now : Time
  pub locker_url : String
  pub http_get : String → Result (ℕ × Result Bytes)

-- `storageRef[len("locker://"):]`: a shorter text makes the program panic, which `none` is here.
unfoldable pub slice_from : ℕ → String → Option String
slice_from zero s = some s
slice_from (suc n) String.[] = none
slice_from (suc n) (String.◌∷◌ c s) = slice_from n s

-- The URL of the entry that a storage reference names.
unfoldable pub artifact_url : String → String → Option String
unfolding slice_from
artifact_url locker_url storage_ref = elim (slice_from 9 storage_ref) [
  | none ↦ none
  | some path ↦ some (concat locker_url (concat "/ledgers/" path))
]

unfoldable pub infer_artifact_type : Outside → Bytes → String
infer_artifact_type o content = elim (o.decode_metadata_type content) [
  | err e ↦ "unknown"
  | ok kind ↦ if kind == "" then "unknown" else kind
]

-- isPermanentError: type assertions and `==`, which see the outermost error only.
unfoldable pub is_permanent_error : Error → Bool
is_permanent_error json_syntax = true
is_permanent_error json_unmarshal_type = true
is_permanent_error canceled = true
is_permanent_error _ = false

-- How a message is settled. A panic ends the process, and the message is not settled.
pub data Reply : Type 0 where
  acked termed nak_with_delay panicked : Reply

-- fetchArtifact, at the URL.
unfoldable pub fetch_artifact : Outside → String → Result Bytes
fetch_artifact o url = elim (o.http_get url) [
  | err e ↦ context "fetching from locker" (err e)
  | ok (status, body) ↦
      if nat_eq status 200
      then context "reading response body" body
      else err (plain "locker returned another status")
]

-- The publisher that a sealed event is recorded under: the one of the ingested event, or the placeholder.
unfoldable pub publisher_or_placeholder : Result (String × String) → String × String
publisher_or_placeholder (err e) = ("locker-service", "locker")
publisher_or_placeholder (ok (issuer, sub)) =
    if issuer == "" then ("locker-service", "locker") else (issuer, sub)

-- The stub of one side of an edge.
abbrev pub stub_record : String → String → ℕ → EntityRecord
stub_record id label log_index = record {
  id = id;
  label = label;
  properties = ("stub", flag true) ∷ [];
  evidence_log_index = log_index;
}

module _ (d : Driver) (o : Outside) where
  unfoldable pub upsert_entities : List EntityRecord → Step d.State (Unit {0})
  unfolding upsert_entity
  upsert_entities [] = return tt
  upsert_entities (r ∷ l) =
      within (concat "upserting entity " r.id) (upsert_entity d r) >> upsert_entities l

  unfoldable pub upsert_edges : ℕ → List EdgeRecord → Step d.State (Unit {0})
  unfolding upsert_entity upsert_edge
  upsert_edges log_index [] = return tt
  upsert_edges log_index (r ∷ l) =
      within (concat "upserting stub entity " r.from_id)
        (upsert_entity d (stub_record r.from_id r.from_label log_index))
      >> within (concat "upserting stub entity " r.to_id)
          (upsert_entity d (stub_record r.to_id r.to_label log_index))
      >> within (concat "upserting edge " r.from_id) (upsert_edge d r)
      >> upsert_edges log_index l

  unfoldable pub process_artifact : String → Bytes → ℕ → Step d.State (Unit {0})
  unfolding upsert_entities upsert_edges parse_artifact
  process_artifact artifact_type content log_index =
      within "parsing artifact" (lift (parse_artifact o.gemara artifact_type content log_index))
      >>= λ parsed. upsert_entities parsed.entities >> upsert_edges log_index parsed.edges

  unfoldable pub handle_ingested : Event → Step d.State (Unit {0})
  unfolding upsert_subject upsert_publisher upsert_ingested_stub
  handle_ingested event =
      within "extracting ingested data" (lift (o.ingested_data event)) >>= λ data'.
      within "upserting subject" (upsert_subject d data'.subject_id)
      >> within "upserting publisher"
          (upsert_publisher d data'.publisher.issuer data'.publisher.sub)
      >> within "upserting ingested stub" (
          upsert_ingested_stub d data'.content_digest data'.subject_id data'.publisher.issuer
            data'.publisher.sub)

  -- The record of a sealed event, as its publisher is found.
  unfoldable pub evidence_record :
      EvidenceSealedData → Option Time → Bytes → String × String → EvidenceRecord
  unfolding infer_artifact_type
  evidence_record data' time content (issuer, sub) = record {
    log_index = data'.log_index;
    digest = data'.content_digest;
    receipt_digest = data'.receipt_digest;
    artifact_type = infer_artifact_type o content;
    status = "sealed";
    subject_id = data'.subject_id;
    publisher_issuer = issuer;
    publisher_sub = sub;
    sealed = elim time as (λ _. Time) [ none ↦ o.now | some t ↦ t ];
  }

  -- handleSealed from the record on.
  unfoldable pub record_evidence : EvidenceRecord → Bytes → Step d.State (Unit {0})
  unfolding upsert_publisher upsert_evidence process_artifact
  record_evidence ev content =
      within "upserting publisher" (upsert_publisher d ev.publisher_issuer ev.publisher_sub)
      >> within "upserting evidence" (upsert_evidence d ev)
      >> within "processing artifact" (process_artifact ev.artifact_type content ev.log_index)

  -- handleSealed on the event's data and its receipt.
  unfoldable pub handle_receipt : Event → EvidenceSealedData → Bytes → Step d.State (Unit {0})
  unfolding unwrap_content upsert_subject evidence_record record_evidence find_publisher_by_digest
      publisher_or_placeholder
  handle_receipt event data' receipt_bytes =
      within "unwrapping receipt" (lift (unwrap_content o.formats receipt_bytes)) >>= λ unwrapped.
      within "upserting subject" (upsert_subject d data'.subject_id) >> λ s.
      record_evidence
        (evidence_record data' event.time unwrapped.content (
          publisher_or_placeholder
            (find_publisher_by_digest d s data'.subject_id data'.content_digest)))
        unwrapped.content s

  -- handleSealed, at the URL of the entry.
  unfoldable pub handle_sealed : Event → EvidenceSealedData → String → Step d.State (Unit {0})
  unfolding fetch_artifact handle_receipt
  handle_sealed event data' url =
      within "fetching artifact" (lift (fetch_artifact o url)) >>= λ receipt_bytes.
      handle_receipt event data' receipt_bytes

  unfoldable pub handle_subject_registered : Event → Step d.State (Unit {0})
  unfolding upsert_subject
  handle_subject_registered event =
      within "extracting subject data" (lift (o.registered_data event)) >>= λ data'.
      within "upserting subject" (upsert_subject d data'.subject_id)

  -- The switch on the event's type; `none` stands for a panic.
  unfoldable pub process_event : Event → d.State → Option (d.State × Result (Unit {0}))
  unfolding handle_ingested handle_sealed handle_subject_registered artifact_url
  process_event event s =
      if event.kind == type_evidence_ingested
      then some (handle_ingested event s)
      else if event.kind == type_evidence_sealed
      then elim (o.sealed_data event) [
        | err e ↦ some (s, context "extracting sealed data" (err e))
        | ok data' ↦ elim (artifact_url o.locker_url data'.storage_ref) [
          | none ↦ none
          | some url ↦ some (handle_sealed event data' url s)
        ]
      ]
      else if event.kind == type_subject_registered
      then some (handle_subject_registered event s)
      else some (s, ok tt)

  abbrev settle : Result (Unit {0}) → Reply
  settle (ok u) = acked
  settle (err e) = if is_permanent_error e then termed else nak_with_delay

  -- handleMessage.
  unfoldable pub handle_message : Bytes → d.State → d.State × Reply
  unfolding process_event is_permanent_error
  handle_message msg s = elim (o.decode_event msg) [
    | err e ↦ (s, termed)
    | ok event ↦ elim (process_event event s) [
      | none ↦ (s, panicked)
      | some (s', result) ↦ (s', settle result)
    ]
  ]

  -- The rest of the messages, unless the process ended.
  unfoldable pub go_on : Reply → d.State → d.State × List Reply → d.State × List Reply
  go_on panicked s rest = (s, panicked ∷ [])
  go_on acked s (t, replies) = (t, acked ∷ replies)
  go_on termed s (t, replies) = (t, termed ∷ replies)
  go_on nak_with_delay s (t, replies) = (t, nak_with_delay ∷ replies)

  -- consume: the messages that are fetched, one after the other, up to a panic.
  unfoldable pub consume : List Bytes → d.State → d.State × List Reply
  unfolding handle_message go_on
  consume [] s = (s, [])
  consume (msg ∷ others) s =
      let (s', reply) = handle_message msg s in go_on reply s' (consume others s')
