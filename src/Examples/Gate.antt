-- ===== src/Examples/Gate.antt =====
-- Instances for internal/gateway.
use complytime_core.Prelude.{
  ℕ, zero, suc, ◌≡◌, refl, ◌≤◌, true, false, List, [], ◌∷◌, ◌++◌, none, some, arith, All, ap, sym,
  ◌∙◌, length, take, lookup, insert, cut, to_lower, any,
}
use complytime_core.Errors.{plain, ok, err}
use complytime_core.Json.{str, end, member, get}
use complytime_core.Subjects.{validate_subject_id}
use complytime_core.Nats.KeyValue.Memory.{write, create_if}
use complytime_core.Trust.{
  set_publisher_trust, register_subject, is_publisher_trusted, listed, subject_key,
}
use complytime_core.Authz.Context.{Context, get_publisher}
use complytime_core.Authn.Publisher.Issuers.{validate_trust_entry, workload_validate_trust_entry}
use complytime_core.Authn.Registry.{registry_validate_trust_entry, validate_issuer_url}
use complytime_core.Authn.Registry.Scanners.{IsConfigured}
use complytime_core.Locker.Worker.{IngestRef}
use complytime_core.Gateway.Schemas.{validate, metadata_type, validate_top_level}
use complytime_core.Gateway.Ingest.{
  Request, Outside, accepted, read_limited, body_subject_id, artifact_type_of, check_json, submit,
  ingest_read, ingest_artifact, max_body_size, content_type_dsse,
}
use complytime_core.Gateway.Ingest.Published.{
  IsIngested, ingest_artifact-IsIngested, ingest_artifact-truncates,
}
use complytime_core.Gateway.Admin.{
  RegisterBody, Remote, check_registration, check_scanner, validate_entries, write_registration,
  register_subject_handler,
}
use complytime_core.Gateway.Admin.Registered.{
  register_subject_handler-trusts, register_subject_handler-refuses,
  register_subject_handler-IsConfigured,
}
use complytime_core.Examples.Stores.{empty_store, ci}
use complytime_core.Examples.Callers.{registry}

abbrev caller : Context
caller = record {
  publisher_issuer = some "https://ci";
  publisher_sub = some "repo:a";
  publisher_flag = some true;
  scopes = none;
  groups = none;
  subject_id = some "widget";
}

-- A service in which every text is the object `{"subjectId": "widget", "type": "scan"}`.
abbrev pub outside : Outside
outside = record {
  sum256_hex = λ c. "digest";
  decode_object = λ c. ok (member "subjectId" (str "widget") (member "type" (str "scan") end));
  wrap = λ c i s u a. ok c;
  job_id = "job";
  encode_ref = λ r. ok r.receipt_bytes;
  publish = λ m. ok tt;
}

abbrev pub scan : Request
scan = record {
  subject_id = "widget";
  content_type = "application/json";
  body = record { bytes = b'{' ∷ b'}' ∷ []; failure = none };
}

abbrev pub scan_ref : IngestRef
scan_ref = record {
  job_id = "job";
  subject_id = "widget";
  content_digest = "digest";
  artifact_type = "scan";
  receipt_bytes = b'{' ∷ b'}' ∷ [];
}

scan_accepted : ingest_artifact outside [] caller scan ≡ accepted scan_ref
unfolding ingest_artifact ingest_read read_limited check_json submit body_subject_id
    artifact_type_of validate metadata_type validate_top_level get get_publisher validate_subject_id
    lookup
scan_accepted = refl

ingest_artifact-IsIngested_example : IsIngested outside [] caller scan scan_ref
ingest_artifact-IsIngested_example =
    ingest_artifact-IsIngested outside [] caller scan scan_ref scan_accepted

replicate : ℕ → List ℕ
replicate zero = []
replicate (suc n) = b'x' ∷ replicate n

length-replicate : (n : ℕ) (l : List ℕ) → n ≤ length (replicate n ++ l)
unfolding replicate
length-replicate zero l = omega arith
length-replicate (suc n) l = omega (arith, length-replicate n l)

take-replicate : (n : ℕ) (l : List ℕ) → take n (replicate n ++ l) ≡ replicate n
unfolding replicate
take-replicate zero l = refl
take-replicate (suc n) l = ap (λ w. b'x' ∷ w) (take-replicate n l)

-- 256 KiB of one letter, and what follows them.
abbrev envelope : List ℕ → Request
envelope tail = record {
  subject_id = "widget";
  content_type = content_type_dsse;
  body = record { bytes = replicate max_body_size ++ tail; failure = none };
}

ingest_artifact-truncates_example :
    ingest_artifact outside [] caller (envelope (1 ∷ 2 ∷ []))
    ≡ ingest_artifact outside [] caller (envelope [])
ingest_artifact-truncates_example =
    ingest_artifact-truncates outside [] caller (envelope []) (envelope (1 ∷ 2 ∷ [])) refl refl
      (length-replicate max_body_size []) (length-replicate max_body_size (1 ∷ 2 ∷ []))
      (take-replicate max_body_size (1 ∷ 2 ∷ []) ∙ sym (take-replicate max_body_size []))

abbrev remote : Remote
remote = record {
  State = Unit {0};
  register = λ s r. (s, ok (ok "verifier"));
  seal_trust = λ s r. (s, ok (ok 1));
  parse_key = λ k. ok false;
}

abbrev body : RegisterBody
body = record { subject_id = "widget"; trusted_publishers = ci ∷ []; scanner_jwk = none }

registered :
    (register_subject_handler remote (some registry) caller empty_store tt 5 (ok body)).2 ≡ 201
unfolding register_subject_handler check_registration check_scanner validate_entries
    validate_subject_id registry_validate_trust_entry validate_issuer_url validate_trust_entry
    workload_validate_trust_entry cut to_lower write_registration set_publisher_trust
    register_subject write create_if lookup insert
registered = refl

trusted :
    is_publisher_trusted
      (register_subject_handler remote (some registry) caller empty_store tt 5 (ok body)).0
      7
      "widget"
      "https://ci"
      "repo:a"
    ≡ ok true
unfolding register_subject_handler check_registration check_scanner validate_entries
    validate_subject_id registry_validate_trust_entry validate_issuer_url validate_trust_entry
    workload_validate_trust_entry cut to_lower write_registration set_publisher_trust
    register_subject write create_if lookup insert is_publisher_trusted subject_key any
trusted = refl

register_subject_handler-trusts_example :
    true ≡ listed body.trusted_publishers "https://ci" "repo:a"
register_subject_handler-trusts_example =
    register_subject_handler-trusts remote (some registry) caller empty_store tt 5 body 7
      "https://ci" "repo:a" true registered trusted

register_subject_handler-IsConfigured_example :
    All (λ tp. IsConfigured registry tp.issuer tp.sub) body.trusted_publishers
register_subject_handler-IsConfigured_example =
    register_subject_handler-IsConfigured remote registry caller empty_store tt 5 body registered

malformed_refused :
    (register_subject_handler remote (some registry) caller empty_store tt 5 (err (plain "EOF"))).2
    ≡ 400
unfolding register_subject_handler
malformed_refused = refl

register_subject_handler-refuses_example :
    register_subject_handler remote (some registry) caller empty_store tt 5 (err (plain "EOF"))
    ≡ (empty_store, tt, 400)
register_subject_handler-refuses_example =
    register_subject_handler-refuses remote (some registry) caller empty_store tt 5
      (err (plain "EOF")) malformed_refused
