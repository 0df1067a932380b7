-- ===== src/Examples/Wrapping.antt =====
-- Instances for internal/gateway/receipt.
use complytime_core.Prelude.{
  ◌≡◌, refl, sym, ap, ◌&&◌, ◌<◌, Bool, true, [], ◌∷◌, arith, ◌==◌, eq_iff, All, if◌then◌else◌,
}
use complytime_core.Errors.{plain, Result, ok, err}
use complytime_core.Base64.{encode_to_string}
use complytime_core.Receipts.{
  Publisher, Statement, Formats, predicate_type, statement_object, statement_of, wrap,
  unwrap_content,
}
use complytime_core.Receipts.Unwrapped.{unwrap_content-wrap}
use complytime_core.Locker.Log.{Bytes}

-- The one statement that the formats know.
abbrev pub ci_publisher : Publisher
ci_publisher = record { issuer = "https://ci"; sub = "repo:a" }

abbrev pub statement : Statement
statement = record {
  subject_id = "widget";
  content = "AQ==";
  content_digest = "sha256:digest";
  publisher = ci_publisher;
  artifact_type = "scan";
  received_at = "today";
}

abbrev pub is_statement : Statement → Bool
is_statement s =
    s.subject_id == "widget"
    && (s.content == "AQ=="
        && (s.content_digest == "sha256:digest"
            && (s.publisher.issuer == "https://ci"
                && (s.publisher.sub == "repo:a"
                    && (s.artifact_type == "scan" && s.received_at == "today")))))

is_statement-same : (s : Statement) → is_statement s ≡ true → s ≡ statement
is_statement-same s h =
    let a : s.subject_id ≡ "widget" = ground (arith, h, eq_iff s.subject_id "widget") in
    let b : s.content ≡ "AQ==" = ground (arith, h, eq_iff s.content "AQ==") in
    let c : s.content_digest ≡ "sha256:digest" =
      ground (arith, h, eq_iff s.content_digest "sha256:digest") in
    let i : s.publisher.issuer ≡ "https://ci" =
      ground (arith, h, eq_iff s.publisher.issuer "https://ci") in
    let u : s.publisher.sub ≡ "repo:a" = ground (arith, h, eq_iff s.publisher.sub "repo:a") in
    let t : s.artifact_type ≡ "scan" = ground (arith, h, eq_iff s.artifact_type "scan") in
    let r : s.received_at ≡ "today" = ground (arith, h, eq_iff s.received_at "today") in
    cc (a, b, c, i, u, t, r)

abbrev pub marshal_one : Statement → Result Bytes
marshal_one s = if is_statement s then ok (2 ∷ []) else err (plain "unknown")

pub one_read_back :
    (s : Statement) (a b : Bytes)
    → marshal_one s ≡ ok a
    → ok (1 ∷ []) ≡ ok b
    → ok (statement_object statement) ≡ ok (statement_object s)
one_read_back s a b h k =
    let yes : is_statement s ≡ true = ground (arith, h) in
    ap (λ x. ok (statement_object x)) (sym (is_statement-same s yes))

pub one_bytes : (a b : Bytes) → Result.ok (1 ∷ []) ≡ ok b → All (λ c. c < 256) b
one_bytes a b h = let same : 1 ∷ [] ≡ b = cc h in rw (sym same) (omega arith, tt)

abbrev pub formats : Formats
formats = record {
  transform = λ b. ok (1 ∷ []);
  sum256_url = λ b. "digest";
  received_at = "today";
  new_struct = λ m. ok tt;
  marshal = marshal_one;
  decode_object = λ b. ok (statement_object statement);
  transform_bytes = one_bytes;
  read_back = one_read_back;
}

scan_wrapped : wrap formats (9 ∷ 9 ∷ []) ci_publisher "widget" "scan" ≡ ok (1 ∷ [])
unfolding wrap statement_of encode_to_string
scan_wrapped = refl

unwrap_content-wrap_example :
    (canonical : Bytes) × (formats.transform (9 ∷ 9 ∷ []) ≡ ok canonical)
    × (unwrap_content formats (1 ∷ [])
        ≡ ok (record { content = canonical; publisher = ci_publisher; format = predicate_type }))
unwrap_content-wrap_example =
    unwrap_content-wrap formats (9 ∷ 9 ∷ []) ci_publisher "widget" "scan" (1 ∷ []) scan_wrapped
