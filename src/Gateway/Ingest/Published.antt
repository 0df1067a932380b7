-- ===== src/Gateway/Ingest/Published.antt =====
-- What the gateway hands to the ingest stream.
use complytime_core.Prelude.{
  ◌≡◌, refl, ◌≢◌, ◌⊎◌, ◌∙◌, sym, inl, inr, ◌≤◌, Bool, true, false, ◌||◌, String, [], ◌∷◌, none,
  arith, ◌==◌, eq_iff, Option-cases, Bool-cases, length, take, ltb,
}
use complytime_core.Errors.{Result, ok, Result-cases}
use complytime_core.Json.{Members}
use complytime_core.Subjects.{validate_subject_id}
use complytime_core.Authz.Context.{Context, get_publisher}
use complytime_core.Locker.Log.{Bytes}
use complytime_core.Locker.Worker.{IngestRef}
use complytime_core.Gateway.Schemas.{SchemaRegistry, validate}
use complytime_core.Gateway.Ingest.{
  Outside, Body, Request, Answer, accepted, Check, stop, of_type, max_body_size, content_type_dsse,
  read_limited, body_subject_id, artifact_type_of, check_json, submit, ingest_read, ingest_artifact,
}

-- What stands in a reference that was submitted for a body.
pub record IsRefOf (o : Outside) (issuer sub subject_id artifact_type : String) (body : Bytes)
    (ref : IngestRef) : Type 0 where
  pub subject : ref.subject_id ≡ subject_id
  pub digest : ref.content_digest ≡ o.sum256_hex body
  pub type_ : ref.artifact_type ≡ artifact_type
  pub wrapped_body : o.wrap body issuer sub subject_id artifact_type ≡ ok ref.receipt_bytes
  pub message : Bytes
  pub encoded : o.encode_ref ref ≡ ok message
  pub published : o.publish message ≡ ok tt

-- What a JSON body that passes was checked for.
pub record IsChecked (o : Outside) (schemas : SchemaRegistry) (subject_id artifact_type : String)
    (body : Bytes) : Type 0 where
  pub artifact : Members
  pub decoded : o.decode_object body ≡ ok artifact
  pub names : (body_subject_id artifact ≡ "") ⊎ (body_subject_id artifact ≡ subject_id)
  pub valid_ : validate schemas (ok artifact) ≡ none
  pub type_ : artifact_type_of artifact ≡ artifact_type

accepted-injective : (a b : IngestRef) → accepted a ≡ accepted b → a ≡ b
accepted-injective a b h = cc h

module _ (o : Outside) (schemas : SchemaRegistry) where
  submit-IsRefOf :
      (issuer sub subject_id artifact_type : String) (body : Bytes) (ref : IngestRef)
      → submit o schemas issuer sub subject_id artifact_type body ≡ accepted ref
      → IsRefOf o issuer sub subject_id artifact_type body ref
  unfolding submit
  submit-IsRefOf issuer sub subject_id artifact_type body ref h =
      elim (Result-cases (o.wrap body issuer sub subject_id artifact_type)) [
        | inr (e, f) ↦ absurd (ground (arith, f))
        | inl (bytes, f) ↦
            let made : IngestRef = record {
              job_id = o.job_id;
              subject_id = subject_id;
              content_digest = o.sum256_hex body;
              artifact_type = artifact_type;
              receipt_bytes = bytes;
            } in
            elim (Result-cases (o.encode_ref made)) [
              | inr (e, g) ↦ absurd (ground (arith, f, g))
              | inl (message, g) ↦ elim (Result-cases (o.publish message)) [
                | inr (e, k) ↦ absurd (ground (arith, f, g, k))
                | inl (u, k) ↦
                    let same : made ≡ ref =
                      accepted-injective made ref (rw (f, g, k, submit) at h) in
                    record {
                      subject = rw (sym same) refl;
                      digest = rw (sym same) refl;
                      type_ = rw (sym same) refl;
                      wrapped_body = rw (sym same) f;
                      message = message;
                      encoded = rw (sym same) g;
                      published = k;
                    }
              ]
            ]
      ]

  check_json-IsChecked :
      (subject_id artifact_type : String) (body : Bytes)
      → check_json o schemas subject_id body ≡ of_type artifact_type
      → IsChecked o schemas subject_id artifact_type body
  unfolding check_json
  check_json-IsChecked subject_id artifact_type body h =
      elim (Result-cases (o.decode_object body)) [
        | inr (e, f) ↦ absurd (ground (arith, f))
        | inl (artifact, f) ↦
            let named = body_subject_id artifact in
            elim (Option-cases (validate schemas (o.decode_object body))) [
              | inr (ve, v) ↦ absurd (ground (arith, f, v))
              | inl v ↦ record {
                artifact = artifact;
                decoded = f;
                names = ground (arith, f, v, eq_iff named "", eq_iff named subject_id);
                valid_ = rw f at v;
                type_ = ground (arith, f, v);
              }
            ]
      ]

differs : (a b : String) → (a == b) ≡ false → a ≢ b
differs a b d same = ground (arith, d, same, eq_iff a b)

neither : (a b : Bool) → (a || b) ≡ false → (a ≡ false) × (b ≡ false)
neither false b h = (refl, h)
neither true b h = cc

ingest_read-agrees :
    (o : Outside) (schemas : SchemaRegistry) (ctx : Context) (s s' c c' : String)
    (read read' : Result Bytes)
    → s' ≡ s
    → c' ≡ c
    → read' ≡ read
    → ingest_read o schemas ctx s' c' read' ≡ ingest_read o schemas ctx s c read
ingest_read-agrees o schemas ctx s s' c c' read read' p q e = rw (p, q, e) refl

Check-cases : (c : Check) → ((a : Answer) × (c ≡ stop a)) ⊎ ((t : String) × (c ≡ of_type t))
Check-cases (stop a) = inl (a, refl)
Check-cases (of_type t) = inr (t, refl)

check_json-stops :
    (o : Outside) (schemas : SchemaRegistry) (subject_id : String) (body : Bytes) (answer : Answer)
    (ref : IngestRef)
    → check_json o schemas subject_id body ≡ stop answer
    → answer ≢ accepted ref
unfolding check_json
check_json-stops o schemas subject_id body answer ref h a =
    elim (Result-cases (o.decode_object body)) [
      | inr (e, f) ↦ ground (arith, f)
      | inl (artifact, f) ↦ elim (Option-cases (validate schemas (o.decode_object body))) [
        | inl v ↦ ground (arith, f, v)
        | inr (ve, v) ↦ ground (arith, f, v)
      ]
    ]

read_limited-truncates :
    (body : Body)
    → max_body_size ≤ length body.bytes
    → read_limited body ≡ ok (take max_body_size body.bytes)
unfolding read_limited
read_limited-truncates body h =
    let over : ltb (length body.bytes) max_body_size ≡ false = ground arith in rw over refl

-- What an artifact that was accepted passed, and what was published for it.
pub record IsIngested (o : Outside) (schemas : SchemaRegistry) (ctx : Context) (r : Request)
    (ref : IngestRef) : Type 0 where
  pub body : Bytes
  pub read : read_limited r.body ≡ ok body
  pub nonempty : body ≢ []
  pub issuer_known : (get_publisher ctx).0 ≢ ""
  pub sub_known : (get_publisher ctx).1 ≢ ""
  pub subject_valid : validate_subject_id r.subject_id ≡ ok tt
  pub artifact_type : String
  pub sort :
      ((r.content_type ≡ content_type_dsse) × (artifact_type ≡ "dsse"))
      ⊎ ((r.content_type ≢ content_type_dsse) × IsChecked o schemas r.subject_id artifact_type body)
  pub submitted :
      IsRefOf o (get_publisher ctx).0 (get_publisher ctx).1 r.subject_id artifact_type body ref

module _ (o : Outside) (schemas : SchemaRegistry) (ctx : Context) (r : Request) where
  -- An artifact is accepted only if the caller is identified, the body is not empty, the subject ID is
  -- valid, and the body is a DSSE envelope by its content type or a JSON object that names no other
  -- subject and passes the schema check. Then one reference was published on the stream, for this subject,
  -- with the digest of the body as it was read and the receipt that wraps it under the caller's issuer
  -- and sub.
  pub ingest_artifact-IsIngested :
      (ref : IngestRef)
      → ingest_artifact o schemas ctx r ≡ accepted ref
      → IsIngested o schemas ctx r ref
  unfolding ingest_artifact ingest_read
  ingest_artifact-IsIngested ref h =
      let issuer = (get_publisher ctx).0 in
      let sub = (get_publisher ctx).1 in
      elim (Bool-cases (issuer == "" || sub == "")) [
        | inl e ↦ absurd (ground (arith, e))
        | inr e ↦ elim (Result-cases (read_limited r.body)) [
          | inr (x, f) ↦ absurd (ground (arith, e, f))
          | inl ([], f) ↦ absurd (ground (arith, e, f))
          | inl ((first ∷ others), f) ↦ elim (Bool-cases (r.subject_id == "")) [
            | inl s ↦ absurd (ground (arith, e, f, s))
            | inr s ↦ elim (Result-cases (validate_subject_id r.subject_id)) [
              | inr (x, v) ↦ absurd (ground (arith, e, f, s, v))
              | inl (u, v) ↦
                  let caller : (issuer ≢ "") × (sub ≢ "") = (
                    differs issuer "" (neither (issuer == "") (sub == "") e).0,
                    differs sub "" (neither (issuer == "") (sub == "") e).1,
                  ) in
                  elim (Bool-cases (r.content_type == content_type_dsse)) [
                    | inl d ↦ record {
                      body = first ∷ others;
                      read = f;
                      nonempty = λ z. cc z;
                      issuer_known = caller.0;
                      sub_known = caller.1;
                      subject_valid = v;
                      artifact_type = "dsse";
                      sort = inl ((eq_iff r.content_type content_type_dsse).0 d, refl);
                      submitted =
                          submit-IsRefOf o schemas issuer sub r.subject_id "dsse" (first ∷ others)
                            ref (rw (e, f, s, v, d, ingest_read) at h);
                    }
                    | inr d ↦
                        elim (Check-cases (check_json o schemas r.subject_id (first ∷ others))) [
                          | inl (answer, c) ↦ absurd (
                              check_json-stops o schemas r.subject_id (first ∷ others) answer ref c
                                (rw (e, f, s, v, d, c, ingest_read) at h))
                          | inr (artifact_type, c) ↦ record {
                            body = first ∷ others;
                            read = f;
                            nonempty = λ z. cc z;
                            issuer_known = caller.0;
                            sub_known = caller.1;
                            subject_valid = v;
                            artifact_type = artifact_type;
                            sort = inr (
                              differs r.content_type content_type_dsse d,
                              check_json-IsChecked o schemas r.subject_id artifact_type
                                  (first ∷ others) c,
                            );
                            submitted =
                                submit-IsRefOf o schemas issuer sub r.subject_id artifact_type
                                  (first ∷ others) ref (rw (e, f, s, v, d, c, ingest_read) at h);
                          }
                        ]
                  ]
            ]
          ]
        ]
      ]

  -- Bodies that agree in their first 256 KiB, and are at least as long, get the same answer and the same
  -- reference: what is behind the limit is dropped without an error.
  pub ingest_artifact-truncates :
      (longer : Request)
      → longer.subject_id ≡ r.subject_id
      → longer.content_type ≡ r.content_type
      → max_body_size ≤ length r.body.bytes
      → max_body_size ≤ length longer.body.bytes
      → take max_body_size longer.body.bytes ≡ take max_body_size r.body.bytes
      → ingest_artifact o schemas ctx longer ≡ ingest_artifact o schemas ctx r
  unfolding ingest_artifact
  ingest_artifact-truncates longer s c here there same =
      let reads : read_limited longer.body ≡ read_limited r.body =
        read_limited-truncates longer.body there
        ∙ rw same (sym (read_limited-truncates r.body here)) in
      ingest_read-agrees o schemas ctx r.subject_id longer.subject_id r.content_type
        longer.content_type (read_limited r.body) (read_limited longer.body) s c reads
