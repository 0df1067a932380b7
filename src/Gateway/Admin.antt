-- ===== src/Gateway/Admin.antt =====
-- internal/gateway/admin.go: registering a subject, and changing whom it trusts.
pub mod Registered
use complytime_core.Prelude.{
  ℕ, Bool, true, false, not, String, List, [], ◌∷◌, Option, none, some, ◌==◌, concat, if◌then◌else◌,
}
use complytime_core.Errors.{Error, plain, Result, ok, err, ◌>>=◌, ◌>>◌, context, guard}
use complytime_core.Subjects.{validate_subject_id}
use complytime_core.Trust.{
  Buckets, TrustStore, TrustEntry, set_publisher_trust, register_subject, subject_exists, store_jwk,
}
use complytime_core.Authz.Context.{Context, get_publisher}
use complytime_core.Authn.Registry.{IssuerRegistry, registry_validate_trust_entry}
use complytime_core.Locker.Admin.{RegisterRequest, SealTrustRequest}

pub record ScannerJwk : Type 0 where
  pub jwk : String
  pub not_after : ℕ

-- The bodies of the two requests.
pub record RegisterBody : Type 0 where
  pub subject_id : String
  pub trusted_publishers : List TrustEntry
  pub scanner_jwk : Option ScannerJwk

-- The locker behind NATS request-reply: a failure of the request, or the answer with its error. And
-- what `jwk.ParseKey` and `pk.Get("d", ..)` say of a key: whether it has private material.
pub record Remote : Type 1 where
  pub State : Type 0
  pub register : State → RegisterRequest → State × Result (Result String)
  pub seal_trust : State → SealTrustRequest → State × Result (Result ℕ)
  pub parse_key : String → Result Bool

-- The first publisher whose issuer is its sub, empty if there is none.
unfoldable pub scanner_issuer_id : List TrustEntry → String
scanner_issuer_id [] = ""
scanner_issuer_id (tp ∷ rest) =
    let later = scanner_issuer_id rest in if tp.issuer == tp.sub then tp.issuer else later

-- The loop over the trust entries; without a registry nothing is checked.
unfoldable pub validate_entries : IssuerRegistry → List TrustEntry → Result (Unit {0})
validate_entries r [] = ok tt
validate_entries r (tp ∷ rest) =
    let later = validate_entries r rest in
    context "invalid trusted publisher" (registry_validate_trust_entry r tp.issuer tp.sub) >> later

abbrev pub validate_publishers : Option IssuerRegistry → List TrustEntry → Result (Unit {0})
validate_publishers none l = ok tt
validate_publishers (some r) l = validate_entries r l

abbrev is_empty : List TrustEntry → Bool
is_empty [] = true
is_empty (tp ∷ rest) = false

-- The check of the scanner's key.
unfoldable pub check_scanner :
    (String → Result Bool) → List TrustEntry → Option ScannerJwk → Result (Unit {0})
unfolding scanner_issuer_id
check_scanner parse_key l none = ok tt
check_scanner parse_key l (some k) = do
  guard (not (scanner_issuer_id l == "")) (
      plain
        "scannerJwk requires a trusted publisher with issuer == sub (scanner identity convention)")
  private ← context "invalid scanner JWK: cannot parse key" (parse_key k.jwk)
  guard (not private)
      (plain "invalid scanner JWK: must be a public key (contains private key material)")

-- All that RegisterSubject checks before it writes.
unfoldable pub check_registration :
    (String → Result Bool) → Option IssuerRegistry → RegisterBody → Result (Unit {0})
unfolding check_scanner validate_entries
check_registration parse_key registry body = do
  guard (not (body.subject_id == "")) (plain "subjectId is required")
  validate_subject_id body.subject_id
  guard (not (is_empty body.trusted_publishers)) (plain "at least one trusted publisher required")
  check_scanner parse_key body.trusted_publishers body.scanner_jwk
  validate_publishers registry body.trusted_publishers

module _ {b : Buckets} where
  -- The writes to the trust store, in their order: the list, the subject, the key.
  unfoldable pub write_registration : TrustStore b → ℕ → RegisterBody → TrustStore b × ℕ
  write_registration s now body =
      let (s1, set) = set_publisher_trust s now body.subject_id body.trusted_publishers in
      elim set as (λ _. TrustStore b × ℕ) [
        | err e ↦ (s1, 500)
        | ok u ↦
            let (s2, registered) = register_subject s1 now body.subject_id in
            elim registered as (λ _. TrustStore b × ℕ) [
              | err e ↦ (s2, 500)
              | ok v ↦ elim body.scanner_jwk as (λ _. TrustStore b × ℕ) [
                | none ↦ (s2, 201)
                | some k ↦
                    let (s3, stored) =
                      store_jwk s2 now (scanner_issuer_id body.trusted_publishers) k.jwk
                        k.not_after in
                    elim stored as (λ _. TrustStore b × ℕ) [ err e ↦ (s3, 500) | ok w ↦ (s3, 201) ]
              ]
            ]
      ]

module _ {b : Buckets} (remote : Remote) (registry : Option IssuerRegistry) where
  -- RegisterSubject, on what the JSON decoder gives: the stores, and the status.
  unfoldable pub register_subject_handler :
      Context
      → TrustStore b
      → remote.State
      → ℕ
      → Result RegisterBody
      → TrustStore b × remote.State × ℕ
  unfolding check_registration write_registration
  register_subject_handler ctx s locker now (err e) = (s, locker, 400)
  register_subject_handler ctx s locker now (ok body) =
      elim (check_registration remote.parse_key registry body) [
        | err e ↦ (s, locker, 400)
        | ok u ↦
            let (issuer, sub) = get_publisher ctx in
            let req : RegisterRequest = record {
              subject_id = body.subject_id;
              registrant_issuer = issuer;
              registrant_sub = sub;
            } in
            let (locker', reply) = remote.register locker req in
            elim reply as (λ _. TrustStore b × remote.State × ℕ) [
              | err e ↦ (s, locker', 500)
              | ok (err e) ↦ (s, locker', 500)
              | ok (ok verifier_key) ↦
                  let (s', status) = write_registration s now body in (s', locker', status)
            ]
      ]

  -- ModifyTrust: sealing the change is tried, and a failure of it only logged.
  unfoldable pub modify_trust :
      Context
      → TrustStore b
      → remote.State
      → ℕ
      → String
      → Result (List TrustEntry)
      → TrustStore b × remote.State × ℕ
  unfolding validate_entries
  modify_trust ctx s locker now subject_id decoded = elim (validate_subject_id subject_id) [
    | err e ↦ (s, locker, 400)
    | ok u ↦ elim (subject_exists s now subject_id) [
      | err e ↦ (s, locker, 500)
      | ok false ↦ (s, locker, 404)
      | ok true ↦ elim decoded [
        | err e ↦ (s, locker, 400)
        | ok publishers ↦ elim (validate_publishers registry publishers) [
          | err e ↦ (s, locker, 400)
          | ok v ↦
              let (s', set) = set_publisher_trust s now subject_id publishers in
              elim set as (λ _. TrustStore b × remote.State × ℕ) [
                | err e ↦ (s', locker, 500)
                | ok w ↦
                    let (issuer, sub) = get_publisher ctx in
                    let req : SealTrustRequest = record {
                      subject_id = subject_id;
                      trusted_publishers = publishers;
                      operator_issuer = issuer;
                      operator_sub = sub;
                    } in
                    (s', (remote.seal_trust locker req).0, 200)
              ]
        ]
      ]
    ]
  ]
