-- ===== src/Gateway/Ingest.antt =====
-- IngestArtifact of internal/gateway/handler.go: from a request's body to a message of the ingest stream.
pub mod Published
use complytime_core.Prelude.{
  ℕ, ◌*◌, ◌<◌, Bool, true, false, ◌&&◌, ◌||◌, not, String, List, [], ◌∷◌, Option, none, some, ◌==◌,
  concat, length, take, ltb, if◌then◌else◌,
}
use complytime_core.Errors.{Error, error_text, Result, ok, err}
use complytime_core.Json.{Json, Members, get, as_string, as_object}
use complytime_core.Subjects.{validate_subject_id}
use complytime_core.Authz.Context.{Context, get_publisher}
use complytime_core.Locker.Log.{Bytes}
use complytime_core.Locker.Worker.{IngestRef}
use complytime_core.Gateway.Schemas.{SchemaRegistry, ValidationError, validate, metadata_type}

abbrev pub max_body_size : ℕ
max_body_size = 262_144

abbrev pub content_type_dsse : String
content_type_dsse = "application/vnd.dsse+json"

-- A request's body: the bytes that arrive, and the failure of the connection after them.
pub record Body : Type 0 where
  pub bytes : Bytes
  pub failure : Option Error

-- `io.ReadAll(io.LimitReader(r.Body, MaxBodySize))`: what is behind the limit is not read.
unfoldable pub read_limited : Body → Result Bytes
read_limited body =
    if ltb (length body.bytes) max_body_size
    then elim body.failure [ none ↦ ok body.bytes | some e ↦ err e ]
    else ok (take max_body_size body.bytes)

pub record Request : Type 0 where
  pub subject_id : String
  pub content_type : String
  pub body : Body

-- What the handler uses of other code: SHA-256 in hexadecimal digits, json.Unmarshal into a
-- `map[string]any`, receipt.Wrap of a content, the publisher's issuer and sub, a subject ID and an
-- artifact type, the new job ID, json.Marshal of the reference, and the stream's answer to a message.
pub record Outside : Type 0 where
  pub sum256_hex : Bytes → String
  pub decode_object : Bytes → Result Members
  pub wrap : Bytes → String → String → String → String → Result Bytes
  pub job_id : String
  pub encode_ref : IngestRef → Result Bytes
  pub publish : Bytes → Result (Unit {0})

-- The answer, and the reference that was published. A refusal of a schema has status 422.
pub data Answer : Type 0 where
  refused : ℕ → String → Answer
  unprocessable : ValidationError → Answer
  accepted : IngestRef → Answer

-- What the checks of a JSON body give: the refusal, or the artifact's type.
pub data Check : Type 0 where
  stop : Answer → Check
  of_type : String → Check

-- The subject that the artifact names itself: `target.id`, else `subjectId`.
unfoldable pub body_subject_id : Members → String
unfolding get
body_subject_id artifact =
    let top = elim (as_string (get "subjectId" artifact)) as (λ _. String) [
      | none ↦ ""
      | some id ↦ id
    ] in
    let target = elim (as_object (get "target" artifact)) as (λ _. String) [
      | none ↦ ""
      | some t ↦ elim (as_string (get "id" t)) as (λ _. String) [ none ↦ "" | some id ↦ id ]
    ] in
    if target == "" then top else target

-- `metadata.type`, else `type`, else unknown.
unfoldable pub artifact_type_of : Members → String
unfolding metadata_type get
artifact_type_of artifact =
    let first = elim (metadata_type artifact) as (λ _. String) [ none ↦ "unknown" | some t ↦ t ] in
    if first == "unknown"
    then elim (as_string (get "type" artifact)) [ none ↦ "unknown" | some t ↦ t ]
    else first

module _ (o : Outside) (schemas : SchemaRegistry) where
  -- The checks of a body that is not a DSSE envelope.
  unfoldable pub check_json : String → Bytes → Check
  unfolding body_subject_id artifact_type_of validate
  check_json subject_id body = elim (o.decode_object body) [
    | err e ↦ stop (refused 400 "Invalid JSON")
    | ok artifact ↦
        let named = body_subject_id artifact in
        if not (named == "") && not (named == subject_id)
        then stop (refused 400 "X-Subject-ID header does not match artifact body")
        else elim (validate schemas (o.decode_object body)) [
          | some ve ↦ stop (unprocessable ve)
          | none ↦ of_type (artifact_type_of artifact)
        ]
  ]

  -- The receipt, its reference and the message.
  unfoldable pub submit : String → String → String → String → Bytes → Answer
  submit issuer sub subject_id artifact_type body =
      elim (o.wrap body issuer sub subject_id artifact_type) [
        | err e ↦ refused 500 "Failed to wrap receipt"
        | ok receipt_bytes ↦
            let ref : IngestRef = record {
              job_id = o.job_id;
              subject_id = subject_id;
              content_digest = o.sum256_hex body;
              artifact_type = artifact_type;
              receipt_bytes = receipt_bytes;
            } in
            elim (o.encode_ref ref) [
              | err e ↦ refused 500 "Failed to marshal IngestRef"
              | ok message ↦ elim (o.publish message) [
                | err e ↦ refused 500 "Failed to publish to JetStream"
                | ok u ↦ accepted ref
              ]
            ]
      ]

  -- IngestArtifact from the reading of the body on.
  unfoldable pub ingest_read : Context → String → String → Result Bytes → Answer
  unfolding check_json submit
  ingest_read ctx subject_id content_type read =
      let (issuer, sub) = get_publisher ctx in
      if issuer == "" || sub == ""
      then refused 401 "Unauthorized: missing publisher identity"
      else elim read [
        | err e ↦ refused 400 "Failed to read request body"
        | ok [] ↦ refused 400 "Empty request body"
        | ok (first ∷ others) ↦
            let body = first ∷ others in
            if subject_id == ""
            then refused 400 "Missing X-Subject-ID header"
            else elim (validate_subject_id subject_id) [
              | err e ↦ refused 400 "Invalid subject ID"
              | ok u ↦
                  if content_type == content_type_dsse
                  then submit issuer sub subject_id "dsse" body
                  else elim (check_json subject_id body) [
                    | stop answer ↦ answer
                    | of_type artifact_type ↦ submit issuer sub subject_id artifact_type body
                  ]
            ]
      ]

  -- IngestArtifact.
  unfoldable pub ingest_artifact : Context → Request → Answer
  unfolding ingest_read read_limited
  ingest_artifact ctx r = ingest_read ctx r.subject_id r.content_type (read_limited r.body)
