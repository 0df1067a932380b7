-- ===== src/Locker/Worker/Redelivery.antt =====
-- The receipts that the worker has processed, and messages that come again: processReceipt of
-- internal/locker/worker.go.
use complytime_core.Prelude.{ℕ, ◌≡◌, refl, inl, inr, List, some, arith, Option-cases}
use complytime_core.Errors.{ok, Result-cases}
use complytime_core.Locker.{get_ledger}
use complytime_core.Locker.Log.{Bytes, Tessera}
use complytime_core.Locker.Ledgers.{Ledger, sha256_hex, seal, verify_digest}
use complytime_core.Locker.Worker.{State, IngestRef, acked, process_receipt, handle_message}
use complytime_core.Locker.Admin.{Receipts}
use complytime_core.Locker.Requests.{Request, serve_all}
use complytime_core.Locker.Requests.Grown.{inserted, serve_all-Grows}

-- The receipt is found by its digest in the ledger of its subject.
pub record IsRecorded {t : Tessera} (s : State t) (ref : IngestRef) : Type 0 where
  pub ledger : Ledger t
  pub index : ℕ
  pub kept : get_ledger s.locker ref.subject_id ≡ some ledger
  pub found : verify_digest ledger (sha256_hex t ref.receipt_bytes) ≡ some index

seal-found :
    {t : Tessera} (l : Ledger t) (receipt : Bytes) (i : ℕ)
    → (seal l receipt).1 ≡ ok i
    → verify_digest (seal l receipt).0 (sha256_hex t receipt) ≡ some i
unfolding seal verify_digest
seal-found {t} l receipt i h = elim (Result-cases (t.add l.log receipt).1) [
  | inr (x, f) ↦ absurd (ground (arith, f))
  | inl (k, f) ↦
      let same : k ≡ i = ground (arith, f) in
      rw (f, seal, same) (inserted (sha256_hex t receipt) i l.digest_index)
]

module _ {t : Tessera} (s : State t) (ref : IngestRef) where
  -- A receipt that is recorded already is passed over.
  recorded_skipped : IsRecorded s ref → process_receipt s ref ≡ (s, ok tt)
  unfolding process_receipt
  recorded_skipped r = rw (r.kept, r.found, process_receipt) refl

  -- A receipt that was processed is recorded.
  pub process_receipt-IsRecorded :
      (process_receipt s ref).1 ≡ ok tt → IsRecorded (process_receipt s ref).0 ref
  unfolding process_receipt get_ledger
  process_receipt-IsRecorded h = elim (Option-cases (get_ledger s.locker ref.subject_id)) [
    | inl n ↦ absurd (ground (arith, n))
    | inr (ledger, n) ↦
        elim (Option-cases (verify_digest ledger (sha256_hex t ref.receipt_bytes))) [
          | inr (i, v) ↦ record {
            ledger = ledger;
            index = i;
            kept = rw (n, v, process_receipt) n;
            found = v;
          }
          | inl v ↦ elim (Result-cases (seal ledger ref.receipt_bytes).1) [
            | inr (x, f) ↦ absurd (ground (arith, n, v, f))
            | inl (i, f) ↦ record {
              ledger = (seal ledger ref.receipt_bytes).0;
              index = i;
              kept =
                  rw (n, v, f, process_receipt)
                    (inserted ref.subject_id (seal ledger ref.receipt_bytes).0 s.locker.ledgers);
              found = seal-found ledger ref.receipt_bytes i f;
            }
          ]
        ]
  ]

-- A receipt that was processed may come again, acknowledged or not, and whatever came to the locker in
-- between, messages and requests of the gateway in any order: then nothing changes, neither the ledgers
-- nor what is published, and it is acknowledged.
pub redelivery :
    {t : Tessera} (w : Receipts) (s : State t) (ref : IngestRef) (between : List (Request t))
    → (process_receipt s ref).1 ≡ ok tt
    → handle_message (serve_all w (process_receipt s ref).0 between) (ok ref)
      ≡ (serve_all w (process_receipt s ref).0 between, acked)
unfolding handle_message
redelivery {t} w s ref between h =
    let r = process_receipt-IsRecorded s ref h in
    let later = serve_all w (process_receipt s ref).0 between in
    let (l, kept, more) =
      serve_all-Grows w (process_receipt s ref).0 between ref.subject_id r.ledger r.kept in
    let (j, found) = more (sha256_hex t ref.receipt_bytes) r.index r.found in
    let skipped : process_receipt later ref ≡ (later, ok tt) =
      recorded_skipped later ref (record { ledger = l; index = j; kept = kept; found = found }) in
    rw (skipped, handle_message) refl
