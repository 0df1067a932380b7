-- ===== src/Locker/Worker.antt =====
-- internal/locker/worker.go: the consumer that seals the receipts of the ingest stream.
pub mod Redelivery
pub mod Replies
use complytime_core.Prelude.{
  ℕ, Bool, true, false, String, List, [], ◌∷◌, Option, none, some, concat, itoa, insert,
  if◌then◌else◌,
}
use complytime_core.Errors.{
  Error, plain, wrapped, canceled, ledger_not_found, Result, ok, err, context,
}
use complytime_core.Locker.{Locker, get_ledger}
use complytime_core.Locker.Log.{Bytes, Tessera}
use complytime_core.Locker.Ledgers.{Ledger, sha256_hex, seal, verify_digest}

-- ingest.IngestRef.
pub record IngestRef : Type 0 where
  pub job_id : String
  pub subject_id : String
  pub content_digest : String
  pub artifact_type : String
  pub receipt_bytes : Bytes

-- events.EvidenceSealedData; the index has the 64 bits that int64 keeps.
pub record EvidenceSealedData : Type 0 where
  pub content_digest : String
  pub log_index : ℕ
  pub receipt_digest : String
  pub receipt_type : String
  pub storage_ref : String
  pub subject_id : String

-- The locker, and the sealed events that were handed to the publisher, the last first. Whether an event
-- arrives makes no difference to the worker.
pub record State (t : Tessera) : Type 0 where
  pub locker : Locker t
  pub published : List EvidenceSealedData

-- How a message is settled.
pub data Reply : Type 0 where
  acked termed nak_with_delay : Reply

-- isPermanent: a type assertion and `==`, which see the outermost error only.
unfoldable pub is_permanent : Error → Bool
is_permanent (ledger_not_found subject_id) = true
is_permanent canceled = true
is_permanent _ = false

abbrev pub storage_ref : String → ℕ → String
storage_ref subject_id index =
    concat "locker://" (concat subject_id (concat "/entry/" (itoa index)))

module _ {t : Tessera} where
  -- The ledger that a pointer refers to, as changed, back in its place.
  abbrev pub set_ledger : Locker t → String → Ledger t → Locker t
  set_ledger lk subject_id l = record { ledgers = insert subject_id l lk.ledgers }

  -- processReceipt.
  unfoldable pub process_receipt : State t → IngestRef → State t × Result (Unit {0})
  unfolding get_ledger verify_digest seal
  process_receipt s ref = elim (get_ledger s.locker ref.subject_id) [
    | none ↦ (s, err (ledger_not_found ref.subject_id))
    | some ledger ↦
        let digest = sha256_hex t ref.receipt_bytes in
        elim (verify_digest ledger digest) as (λ _. State t × Result (Unit {0})) [
          | some index ↦ (s, ok tt)
          | none ↦
              let (ledger', sealed) = seal ledger ref.receipt_bytes in
              let locker' = set_ledger s.locker ref.subject_id ledger' in
              elim sealed as (λ _. State t × Result (Unit {0})) [
                | err e ↦ (record s { locker = locker' }, err (wrapped "sealing receipt" e))
                | ok index ↦
                    let event : EvidenceSealedData = record {
                      content_digest = ref.content_digest;
                      log_index = index;
                      receipt_digest = digest;
                      receipt_type = "gemara-receipt/v1";
                      storage_ref = storage_ref ref.subject_id index;
                      subject_id = ref.subject_id;
                    } in
                    (record { locker = locker'; published = event ∷ s.published }, ok tt)
              ]
        ]
  ]

  -- handleMessage, on what json.Unmarshal gives.
  unfoldable pub handle_message : State t → Result IngestRef → State t × Reply
  unfolding process_receipt is_permanent
  handle_message s (err e) = (s, termed)
  handle_message s (ok ref) =
      let (s', result) = process_receipt s ref in
      (
        s',
        elim result as (λ _. Reply) [
          | ok u ↦ acked
          | err e ↦ if is_permanent e then termed else nak_with_delay
        ],
      )

  -- processMessages: the messages that are fetched, one after the other.
  unfoldable pub process_messages : State t → List (Result IngestRef) → State t × List Reply
  unfolding handle_message
  process_messages s [] = (s, [])
  process_messages s (msg ∷ rest) =
      let (s', reply) = handle_message s msg in
      let (s'', replies) = process_messages s' rest in (s'', reply ∷ replies)
