-- ===== src/Receipts/Unwrapped.antt =====
-- Wrapping and unwrapping.
use complytime_core.Prelude.{◌≡◌, refl, String, some, arith, inl, inr}
use complytime_core.Errors.{ok, Result-cases, context-eq-ok}
use complytime_core.Json.{get}
use complytime_core.Locker.Log.{Bytes}
use complytime_core.Base64.{decode_string, encode_to_string, decode_string-encode_to_string}
use complytime_core.Receipts.{
  Publisher, Statement, Formats, predicate, predicate_type, statement_object, statement_of, wrap,
  extract_publisher, unwrap_object, unwrap_content,
}

-- What a statement holds is what is unwrapped from its object.
unwrap_object-statement :
    (s : Statement) (content : Bytes)
    → decode_string s.content ≡ some content
    → unwrap_object (statement_object s)
      ≡ ok (record { content = content; publisher = s.publisher; format = predicate_type })
unfolding unwrap_object statement_object predicate extract_publisher get
unwrap_object-statement s content h = rw h refl

statement_of-content :
    (f : Formats) (canonical : Bytes) (p : Publisher) (subject_id artifact_type : String)
    → decode_string (encode_to_string canonical) ≡ some canonical
    → decode_string (statement_of f canonical p subject_id artifact_type).content ≡ some canonical
unfolding statement_of
statement_of-content f canonical p subject_id artifact_type h = h

module _ (f : Formats) (content : Bytes) (p : Publisher) (subject_id artifact_type : String) where
  -- A receipt that Wrap returns unwraps to the canonical form of the content and to the publisher that
  -- it was wrapped for.
  pub unwrap_content-wrap :
      (receipt : Bytes)
      → wrap f content p subject_id artifact_type ≡ ok receipt
      → (canonical : Bytes) × (f.transform content ≡ ok canonical)
        × (unwrap_content f receipt
            ≡ ok (record { content = canonical; publisher = p; format = predicate_type }))
  unfolding wrap unwrap_content
  unwrap_content-wrap receipt h = elim (Result-cases (f.transform content)) [
    | inr (e, t) ↦ absurd (ground (arith, t))
    | inl (canonical, t) ↦
        let stmt = statement_of f canonical p subject_id artifact_type in
        elim (Result-cases (f.new_struct (predicate stmt))) [
          | inr (e, n) ↦ absurd (ground (arith, t, n))
          | inl (u, n) ↦ elim (Result-cases (f.marshal stmt)) [
            | inr (e, m) ↦ absurd (ground (arith, t, n, m))
            | inl (stmt_json, m) ↦
                let last : f.transform stmt_json ≡ ok receipt =
                  context-eq-ok "canonicalize receipt" (f.transform stmt_json)
                    (rw (t, n, m, wrap) at h) in
                let read = f.read_back stmt stmt_json receipt m last in
                let back =
                  decode_string-encode_to_string canonical
                    (f.transform_bytes content canonical t) in
                (
                  canonical,
                  t,
                  rw read (
                      unwrap_object-statement stmt canonical
                        (statement_of-content f canonical p subject_id artifact_type back)),
                )
          ]
        ]
  ]
