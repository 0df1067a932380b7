-- ===== src/Trust.antt =====
-- internal/trust/store.go: the publisher trust lists, the subject registry, the static keys of
-- scanners and the claimed token IDs, each in a bucket of its own.
pub mod Lists
pub mod Writers
pub mod Replay
use complytime_core.Prelude.{
  ℕ, ◌≡◌, Bool, true, false, ◌&&◌, ◌||◌, String, List, [], ◌∷◌, Option, none, some, any, concat,
  ◌==◌, ltb, if◌then◌else◌,
}
use complytime_core.Errors.{
  Error, plain, Result, ok, err, ◌>>=◌, context, wrapped, is_key_not_found, is_key_exists,
}
use complytime_core.Nats.KeyValue.{Bytes, Entry, KeyValue, Codec}

pub record TrustEntry : Type 0 where
  pub issuer : String
  pub sub : String

pub record JwkRecord : Type 0 where
  pub jwk : String
  pub not_after : ℕ

-- The four buckets and the encodings of what is kept in them.
pub record Buckets : Type 1 where
  pub publisher : KeyValue
  pub subject : KeyValue
  pub jwk : KeyValue
  pub jti : KeyValue
  pub trust_list : Codec (List TrustEntry)
  pub jwk_record : Codec JwkRecord
  -- PublisherTrustKVConfig, SubjectRegistryKVConfig and StaticJWKKVConfig set no time to live.
  pub publisher_stays : publisher.ttl ≡ none
  pub subject_stays : subject.ttl ≡ none
  pub jwk_stays : jwk.ttl ≡ none

pub record TrustStore (b : Buckets) : Type 0 where
  pub publisher_kv : b.publisher.Store
  pub subject_kv : b.subject.Store
  pub jwk_kv : b.jwk.Store
  pub jti_kv : b.jti.Store

unfoldable pub subject_key : String → String
subject_key subject_id = concat "subjects." subject_id

-- The loop over the trust list.
unfoldable pub listed : List TrustEntry → String → String → Bool
listed l issuer sub = any (λ t. t.issuer == issuer && t.sub == sub) l

-- How SetPublisherTrust writes, as its read decides: a first write, or one over a revision.
pub data Plan : Type 0 where
  create_new : Plan
  over : ℕ → Plan

-- The two bytes `{}`.
abbrev empty_object : Bytes
empty_object = b'{' ∷ b'}' ∷ []

abbrev claim_result : String → Result ℕ → Result (Unit {0})
claim_result jti (ok r) = ok tt
claim_result jti (err e) =
    if is_key_exists e
    then err (plain (concat "token jti " (concat jti " already used (replay attempt)")))
    else err (wrapped "claiming jti" e)

module _ {b : Buckets} where
  unfoldable pub is_publisher_trusted : TrustStore b → ℕ → String → String → String → Result Bool
  unfolding listed
  is_publisher_trusted s now subject_id issuer sub =
      elim (b.publisher.get s.publisher_kv now (subject_key subject_id)) [
        | err e ↦
            if is_key_not_found e
            then ok false
            else err (wrapped "trust lookup failed for subject" e)
        | ok entry ↦ do
          trust_list ← context "parsing trust list for subject" (b.trust_list.unmarshal entry.value)
          ok (listed trust_list issuer sub)
      ]

  unfoldable pub trust_plan : TrustStore b → ℕ → String → Result Plan
  trust_plan s now subject_id = elim (b.publisher.get s.publisher_kv now (subject_key subject_id)) [
    | err e ↦
        if is_key_not_found e
        then ok create_new
        else err (wrapped "reading current trust for subject" e)
    | ok entry ↦ ok (over entry.revision)
  ]

  abbrev wrote_publisher :
      String → TrustStore b → b.publisher.Store × Result ℕ → TrustStore b × Result (Unit {0})
  wrote_publisher message s (kv, r) =
      (record s { publisher_kv = kv }, context message (r >>= λ _. ok tt))

  unfoldable pub trust_write :
      TrustStore b → ℕ → String → Bytes → Plan → TrustStore b × Result (Unit {0})
  trust_write s now subject_id data' create_new =
      wrote_publisher "creating trust for subject" s
        (b.publisher.create s.publisher_kv now (subject_key subject_id) data')
  trust_write s now subject_id data' (over revision) =
      wrote_publisher "updating trust for subject (concurrent modification)" s
        (b.publisher.update s.publisher_kv now (subject_key subject_id) data' revision)

  unfoldable pub set_publisher_trust :
      TrustStore b → ℕ → String → List TrustEntry → TrustStore b × Result (Unit {0})
  unfolding trust_plan trust_write
  set_publisher_trust s now subject_id publishers = elim (b.trust_list.marshal publishers) [
    | err e ↦ (s, err (wrapped "marshaling trust list" e))
    | ok data' ↦ elim (trust_plan s now subject_id) [
      | err e ↦ (s, err e)
      | ok plan ↦ trust_write s now subject_id data' plan
    ]
  ]

  unfoldable pub register_subject : TrustStore b → ℕ → String → TrustStore b × Result (Unit {0})
  register_subject s now subject_id =
      let (kv, r) = b.subject.put s.subject_kv now subject_id empty_object in
      (record s { subject_kv = kv }, context "registering subject" (r >>= λ _. ok tt))

  unfoldable pub subject_exists : TrustStore b → ℕ → String → Result Bool
  subject_exists s now subject_id = elim (b.subject.get s.subject_kv now subject_id) [
    | err e ↦ if is_key_not_found e then ok false else err (wrapped "checking subject existence" e)
    | ok entry ↦ ok true
  ]

  unfoldable pub store_jwk :
      TrustStore b → ℕ → String → String → ℕ → TrustStore b × Result (Unit {0})
  store_jwk s now issuer_id jwk not_after =
      elim (b.jwk_record.marshal (record { jwk = jwk; not_after = not_after })) [
        | err e ↦ (s, err (wrapped "marshaling JWK record" e))
        | ok data' ↦
            let (kv, r) = b.jwk.put s.jwk_kv now issuer_id data' in
            (record s { jwk_kv = kv }, context "storing JWK for issuer" (r >>= λ _. ok tt))
      ]

  unfoldable pub claim_jti : TrustStore b → ℕ → String → TrustStore b × Result (Unit {0})
  claim_jti s now jti =
      let (kv, r) = b.jti.create s.jti_kv now jti (b'1' ∷ []) in
      (record s { jti_kv = kv }, claim_result jti r)

  -- `none` is a key that is not there or has expired.
  unfoldable pub get_jwk : TrustStore b → ℕ → String → Result (Option JwkRecord)
  get_jwk s now issuer_id = elim (b.jwk.get s.jwk_kv now issuer_id) [
    | err e ↦ if is_key_not_found e then ok none else err (wrapped "fetching JWK for issuer" e)
    | ok entry ↦ do
      stored ← context "parsing JWK record for issuer" (b.jwk_record.unmarshal entry.value)
      if ltb stored.not_after now then ok none else ok (some stored)
  ]
