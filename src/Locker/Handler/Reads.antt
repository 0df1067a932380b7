-- ===== src/Locker/Handler/Reads.antt =====
-- What the locker answers about sealed receipts.
use complytime_core.Prelude.{
  ℕ, ◌≡◌, inl, inr, String, List, some, arith, Option-cases, Bool-cases, ◌==◌,
}
use complytime_core.Errors.{Result-cases, is_index_out_of_range}
use complytime_core.Locker.{Locker, get_ledger}
use complytime_core.Locker.Log.{Bytes, Tessera}
use complytime_core.Locker.Ledgers.{Ledger, Pass, fetch, verify_digest, sha256_hex}
use complytime_core.Locker.Ledgers.Indexed.{HasEntry, fetch_lem}
use complytime_core.Locker.Sound.{IsSound}
use complytime_core.Locker.Handler.{content, nonnegative, fetch_receipt, verify_receipt}

-- The receipt is the entry of the subject's log at the index.
pub record IsEntry {t : Tessera} (lk : Locker t) (subject_id : String) (i : ℕ) (receipt : Bytes)
    : Type 0 where
  pub ledger : Ledger t
  pub kept : get_ledger lk subject_id ≡ some ledger
  pub stands : t.entry ledger.log i ≡ some receipt

content-injective : {A : Type 0} (a b : A) → content a ≡ content b → a ≡ b
content-injective a b h = cc h

module _ {t : Tessera} (lk : Locker t) (subject_id : String) where
  -- A receipt that is fetched is the entry of the subject's log at the index that was asked for.
  pub fetch_receipt-IsEntry :
      (passes : List Pass) (i : ℕ) (receipt : Bytes)
      → fetch_receipt lk passes subject_id (nonnegative i) ≡ content receipt
      → IsEntry lk subject_id i receipt
  unfolding fetch_receipt
  fetch_receipt-IsEntry passes i receipt h = elim (Option-cases (get_ledger lk subject_id)) [
    | inl n ↦ absurd (ground (arith, n))
    | inr (l, n) ↦ elim (Result-cases (fetch t l.log passes i)) [
      | inr (e, f) ↦ elim (Bool-cases (is_index_out_of_range e)) [
        | inl o ↦ absurd (ground (arith, n, f, o))
        | inr o ↦ absurd (ground (arith, n, f, o))
      ]
      | inl (r, f) ↦
          let same : r ≡ receipt = content-injective r receipt (rw (n, f, fetch_receipt) at h) in
          record {
            ledger = l;
            kept = n;
            stands = fetch_lem t l.log passes i receipt (rw same at f);
          }
    ]
  ]

  verified-HasEntry :
      (digest : String) (i : ℕ)
      → IsSound lk
      → verify_receipt lk subject_id digest ≡ content (some i)
      → (l : Ledger t) × (get_ledger lk subject_id ≡ some l) × HasEntry t l.log digest i
  unfolding verify_receipt verify_digest
  verified-HasEntry digest i sound h = elim (Option-cases (get_ledger lk subject_id)) [
    | inl n ↦ absurd (ground (arith, n))
    | inr (l, n) ↦ elim (Bool-cases (digest == "")) [
      | inl e ↦ absurd (ground (arith, n, e))
      | inr e ↦
          let found : verify_digest l digest ≡ some i =
            content-injective (verify_digest l digest) (some i) (rw (n, e, verify_receipt) at h) in
          (l, n, sound subject_id l n digest i found)
    ]
  ]

  -- If every index of digests is true, then what is fetched at the index that a digest was verified
  -- with is a receipt of this digest.
  pub verify-fetch :
      (passes : List Pass) (digest : String) (i : ℕ) (receipt : Bytes)
      → IsSound lk
      → verify_receipt lk subject_id digest ≡ content (some i)
      → fetch_receipt lk passes subject_id (nonnegative i) ≡ content receipt
      → sha256_hex t receipt ≡ digest
  verify-fetch passes digest i receipt sound v f =
      let (l, kept, e) = verified-HasEntry digest i sound v in
      let r = fetch_receipt-IsEntry passes i receipt f in
      let same : l ≡ r.ledger = cc (kept, r.kept) in
      let one : t.entry r.ledger.log i ≡ some e.content = rw same at e.stands in
      let content_same : e.content ≡ receipt = cc (one, r.stands) in rw content_same at e.digested
