-- ===== src/Locker/Worker/Replies.antt =====
-- How messages of the ingest stream are settled.
use complytime_core.Prelude.{sym, ◌≡◌, refl, ◌≢◌, inl, inr, ◌↔◌, false, none, arith, Option-cases}
use complytime_core.Errors.{Error, wrapped, ledger_not_found, Result, ok, err, Result-cases}
use complytime_core.Locker.{get_ledger}
use complytime_core.Locker.Log.{Tessera}
use complytime_core.Locker.Ledgers.{sha256_hex, seal, verify_digest}
use complytime_core.Locker.Worker.{
  State, IngestRef, termed, is_permanent, process_receipt, handle_message,
}

module _ {t : Tessera} (s : State t) where
  -- A receipt for a subject that has a ledger never fails for good: only the append can fail, and its
  -- error is wrapped.
  process_receipt-transient :
      (ref : IngestRef) (e : Error)
      → get_ledger s.locker ref.subject_id ≢ none
      → (process_receipt s ref).1 ≡ err e
      → is_permanent e ≡ false
  unfolding process_receipt is_permanent
  process_receipt-transient ref e there h =
      elim (Option-cases (get_ledger s.locker ref.subject_id)) [
        | inl n ↦ absurd (there n)
        | inr (ledger, n) ↦
            elim (Option-cases (verify_digest ledger (sha256_hex t ref.receipt_bytes))) [
              | inr (i, v) ↦ absurd (ground (arith, n, v))
              | inl v ↦ elim (Result-cases (seal ledger ref.receipt_bytes).1) [
                | inl (i, f) ↦ absurd (ground (arith, n, v, f))
                | inr (x, f) ↦
                    let made : Result.err (wrapped "sealing receipt" x) ≡ err e =
                      rw (n, v, f, process_receipt) at h in
                    let same : wrapped "sealing receipt" x ≡ e = cc made in rw (sym same) refl
              ]
            ]
      ]

  is_permanent-transient :
      (ref : IngestRef)
      → get_ledger s.locker ref.subject_id ≢ none
      → (handle_message s (ok ref)).1 ≢ termed
  unfolding handle_message
  is_permanent-transient ref there h = elim (Result-cases (process_receipt s ref).1) [
    | inl (u, f) ↦ ground (arith, f)
    | inr (e, f) ↦ ground (arith, f, process_receipt-transient ref e there f)
  ]

  missing-termed :
      (ref : IngestRef)
      → get_ledger s.locker ref.subject_id ≡ none
      → (handle_message s (ok ref)).1 ≡ termed
  unfolding handle_message process_receipt is_permanent
  missing-termed ref n =
      let failed : (process_receipt s ref).1 ≡ err (ledger_not_found ref.subject_id) =
        rw (n, process_receipt) refl in
      rw (failed, handle_message) refl

  -- A message that can never be sealed.
  abbrev pub IsLost : Result IngestRef → Type 0
  IsLost (err e) = Unit
  IsLost (ok ref) = get_ledger s.locker ref.subject_id ≡ none

  -- A message that is not an IngestRef is terminated; one that is, is terminated exactly if its subject
  -- has no ledger. So an append that fails, for whatever error, is tried again.
  pub handle_message-termed :
      (msg : Result IngestRef) → ((handle_message s msg).1 ≡ termed) ↔ IsLost msg
  unfolding handle_message
  handle_message-termed (err e) = (λ h. tt, λ h. refl)
  handle_message-termed (ok ref) = (
    λ h. elim (Option-cases (get_ledger s.locker ref.subject_id)) [
      | inl n ↦ n
      | inr (l, n) ↦ absurd (is_permanent-transient ref (λ m. cc (m, n)) h)
    ],
    missing-termed ref,
  )
