-- ===== src/Receipts.antt =====
-- internal/gateway/receipt: the receipt that wraps an artifact, an in-toto statement in canonical JSON,
-- and its unwrapping.
pub mod Unwrapped
use complytime_core.Prelude.{
  ℕ, ◌≡◌, ◌<◌, String, Option, none, some, All, concat, ◌==◌, not, if◌then◌else◌,
}
use complytime_core.Errors.{Error, plain, Result, ok, err, ◌>>=◌, ◌>>◌, context, guard}
use complytime_core.Json
use complytime_core.Json.{Json, Members, str, arr, obj, end, member, get, as_string, as_object}
use complytime_core.Locker.Log.{Bytes}
use complytime_core.Base64.{encode_to_string, decode_string}

pub record Publisher : Type 0 where
  pub issuer : String
  pub sub : String

-- The statement, with what its predicate holds.
pub record Statement : Type 0 where
  pub subject_id : String
  pub content : String
  pub content_digest : String
  pub publisher : Publisher
  pub artifact_type : String
  pub received_at : String

abbrev pub predicate_type : String
predicate_type = "gemara-receipt/v1"

-- The predicate, as predicateToStruct gives it.
unfoldable pub predicate : Statement → Members
predicate s = member "content" (str s.content) (
    member "contentDigest" (str s.content_digest) (
      member "publisher"
        (obj (member "issuer" (str s.publisher.issuer) (member "sub" (str s.publisher.sub) end)))
        (member "artifactType" (str s.artifact_type)
          (member "receivedAt" (str s.received_at) end))))

-- The statement as a JSON object, under the names of the protocol buffer.
unfoldable pub statement_object : Statement → Members
unfolding predicate
statement_object s = member "type" (str "https://in-toto.io/Statement/v1") (
    member "subject"
      (arr (Json.Items.cons (obj (member "name" (str s.subject_id) end)) Json.Items.nil))
      (member "predicate_type" (str predicate_type) (member "predicate" (obj (predicate s)) end)))

-- What the package uses of other code: the canonical form of JSON, SHA-256 in the URL-safe base64, the
-- time as a text, structpb.NewStruct, protojson and json.Unmarshal. Canonical JSON is bytes of the same
-- value; an object's members have no order.
pub record Formats : Type 0 where
  pub transform : Bytes → Result Bytes
  pub sum256_url : Bytes → String
  pub received_at : String
  pub new_struct : Members → Result (Unit {0})
  pub marshal : Statement → Result Bytes
  pub decode_object : Bytes → Result Members
  pub transform_bytes : (a b : Bytes) → transform a ≡ ok b → All (λ c. c < 256) b
  pub read_back :
      (s : Statement) (a b : Bytes)
      → marshal s ≡ ok a
      → transform a ≡ ok b
      → decode_object b ≡ ok (statement_object s)

-- The statement of a content.
unfoldable pub statement_of : Formats → Bytes → Publisher → String → String → Statement
unfolding encode_to_string
statement_of f canonical_content publisher subject_id artifact_type = record {
  subject_id = subject_id;
  content = encode_to_string canonical_content;
  content_digest = concat "sha256:" (f.sum256_url canonical_content);
  publisher = publisher;
  artifact_type = artifact_type;
  received_at = f.received_at;
}

-- Wrap.
unfoldable pub wrap : Formats → Bytes → Publisher → String → String → Result Bytes
unfolding statement_of predicate
wrap f content publisher subject_id artifact_type = do
  canonical_content ← context "canonicalize content" (f.transform content)
  let stmt = statement_of f canonical_content publisher subject_id artifact_type
  context "convert predicate to struct" (f.new_struct (predicate stmt))
  stmt_json ← context "marshal statement" (f.marshal stmt)
  context "canonicalize receipt" (f.transform stmt_json)

pub record UnwrapResult : Type 0 where
  pub content : Bytes
  pub publisher : Publisher
  pub format : String

-- A value that a type assertion asks for.
abbrev pub required {ℓ} : {A : Type ℓ} → Option A → String → Result A
required none message = err (plain message)
required (some a) message = ok a

unfoldable pub extract_publisher : Members → Result Publisher
unfolding get
extract_publisher p = do
  publisher ← required (as_object (get "publisher" p)) "predicate missing publisher field"
  issuer ← required (as_string (get "issuer" publisher)) "publisher missing issuer field"
  sub ← required (as_string (get "sub" publisher)) "publisher missing sub field"
  ok (record { issuer = issuer; sub = sub })

-- UnwrapContent, on what json.Unmarshal gives.
unfoldable pub unwrap_object : Members → Result UnwrapResult
unfolding extract_publisher get decode_string
unwrap_object raw = do
  kind ←
      required (as_string (get "predicate_type" raw)) "unknown entry format: missing predicate_type"
  p ← required (as_object (get "predicate" raw)) "invalid entry: missing predicate"
  publisher ← context "extract publisher" (extract_publisher p)
  guard (kind == predicate_type) (plain (concat "unknown predicate type: " kind))
  encoded_content ← required (as_string (get "content" p)) "receipt missing content field"
  content ←
      context "decode content" (required (decode_string encoded_content) "illegal base64 data")
  ok (record { content = content; publisher = publisher; format = kind })

-- UnwrapContent.
unfoldable pub unwrap_content : Formats → Bytes → Result UnwrapResult
unfolding unwrap_object
unwrap_content f entry =
    context "unmarshal entry" (f.decode_object entry) >>= λ raw. unwrap_object raw
