-- ===== src/Locker/Sound.antt =====
-- The invariant of the locker, that the index of digests of every ledger is true, over the operations of
-- internal/locker.
use complytime_core.Prelude.{
  concat, ℕ, ◌≡◌, refl, ◌∙◌, sym, inl, inr, Bool, true, false, String, List, [], ◌∷◌, some, arith,
  Option-cases, Bool-cases, ◌==◌, lookup, insert, lookup-insert,
}
use complytime_core.Errors.{wrapped, ledger_exists, Result, ok, err, Result-cases}
use complytime_core.Subjects.{validate_subject_id}
use complytime_core.Locker.{Locker, get_ledger, create_ledger, open_each}
use complytime_core.Locker.Log.{Tessera}
use complytime_core.Locker.Ledgers.{
  Ledger, Startup, new_ledger, sha256_hex, seal, verify_digest, rebuild_digest_index, ledger_origin,
}
use complytime_core.Locker.Ledgers.Keys.{load_or_generate_key}
use complytime_core.Locker.Ledgers.Indexed.{
  IsIndexed, HasEntry, seal-IsIndexed, rebuild_digest_index-IsIndexed,
}
use complytime_core.Locker.Worker.{
  State, IngestRef, acked, process_receipt, handle_message, process_messages, set_ledger,
}
use complytime_core.Locker.Worker.Redelivery.{process_receipt-IsRecorded}
use complytime_core.Locker.Admin.{Receipts}
use complytime_core.Locker.Requests.{Request, serve_all}
use complytime_core.Locker.Requests.Grown.{create_ledger-there, serve_all-Grows}

abbrev pub IsSound : {t : Tessera} → Locker t → Type 0
IsSound {t} lk =
    (subject_id : String) (l : Ledger t) → get_ledger lk subject_id ≡ some l → IsIndexed t l

module _ {t : Tessera} where
  insert-IsSound :
      (lk : Locker t) (subject_id : String) (l : Ledger t)
      → IsSound lk
      → IsIndexed t l
      → IsSound (record lk { ledgers = insert subject_id l lk.ledgers })
  unfolding get_ledger
  insert-IsSound lk subject_id l sound true_index other m h =
      let said = lookup-insert subject_id other l lk.ledgers in
      elim (Bool-cases (subject_id == other)) [
        | inl e ↦
            let held : some l ≡ some m = sym (rw e at said) ∙ h in
            let same : l ≡ m = cc held in rw (sym same) true_index
        | inr e ↦ sound other m (sym (rw e at said) ∙ h)
      ]

  new_ledger-IsIndexed :
      (start : Startup t) (subject_id : String) (l : Ledger t)
      → new_ledger start subject_id ≡ ok l
      → IsIndexed t l
  unfolding new_ledger lookup
  new_ledger-IsIndexed start subject_id l h =
      elim (Result-cases (load_or_generate_key start.keys subject_id (ledger_origin subject_id))) [
        | inr (e, f) ↦ absurd (ground (arith, f))
        | inl (found, f) ↦ elim (Result-cases (start.keys.new_signer found.0)) [
          | inr (e, g) ↦ absurd (ground (arith, f, g))
          | inl (u, g) ↦ elim (Result-cases (start.new_driver subject_id)) [
            | inr (e, d) ↦ absurd (ground (arith, f, g, d))
            | inl (v, d) ↦ elim (Result-cases (start.new_appender subject_id)) [
              | inr (e, a) ↦ absurd (ground (arith, f, g, d, a))
              | inl (log, a) ↦
                  let fresh : Ledger t = record {
                    subject_id = subject_id;
                    verifier_key = found.1;
                    log = log;
                    digest_index = [];
                  } in
                  let made : ok (rebuild_digest_index fresh start.passes).0 ≡ ok l =
                    rw (f, g, d, a) at h in
                  let same : (rebuild_digest_index fresh start.passes).0 ≡ l = cc made in
                  rw (sym same)
                    (rebuild_digest_index-IsIndexed t fresh start.passes (λ x i e. absurd (cc e)))
            ]
          ]
        ]
      ]

  process_receipt-IsSound :
      (s : State t) (ref : IngestRef) → IsSound s.locker → IsSound (process_receipt s ref).0.locker
  unfolding process_receipt
  process_receipt-IsSound s ref sound = elim (Option-cases (get_ledger s.locker ref.subject_id)) [
    | inl n ↦ rw (n, process_receipt) sound
    | inr (ledger, n) ↦
        elim (Option-cases (verify_digest ledger (sha256_hex t ref.receipt_bytes))) [
          | inr (i, v) ↦ rw (n, v, process_receipt) sound
          | inl v ↦
              let after : IsSound
                  (set_ledger s.locker ref.subject_id (seal ledger ref.receipt_bytes).0) =
                insert-IsSound s.locker ref.subject_id (seal ledger ref.receipt_bytes).0 sound
                  (seal-IsIndexed t ledger ref.receipt_bytes (sound ref.subject_id ledger n)) in
              elim (Result-cases (seal ledger ref.receipt_bytes).1) [
                | inl (i, f) ↦ rw (n, v, f, process_receipt) after
                | inr (e, f) ↦ rw (n, v, f, process_receipt) after
              ]
        ]
  ]

  handle_message-IsSound :
      (s : State t) (msg : Result IngestRef)
      → IsSound s.locker
      → IsSound (handle_message s msg).0.locker
  unfolding handle_message
  handle_message-IsSound s (err e) sound = sound
  handle_message-IsSound s (ok ref) sound = process_receipt-IsSound s ref sound

  -- The index of digests of every ledger stays true whatever messages are processed, in whatever order,
  -- and however the appends end.
  pub process_messages-IsSound :
      (s : State t) (msgs : List (Result IngestRef))
      → IsSound s.locker
      → IsSound (process_messages s msgs).0.locker
  unfolding process_messages
  process_messages-IsSound s [] sound = sound
  process_messages-IsSound s (msg ∷ rest) sound =
      process_messages-IsSound (handle_message s msg).0 rest (handle_message-IsSound s msg sound)

  create_ledger-IsSound :
      (start : Startup t) (lk : Locker t) (subject_id : String)
      → IsSound lk
      → IsSound (create_ledger start lk subject_id).0
  unfolding create_ledger
  create_ledger-IsSound start lk subject_id sound =
      elim (Result-cases (validate_subject_id subject_id)) [
        | inr (e, f) ↦ rw (f, create_ledger) sound
        | inl (u, f) ↦ elim (Option-cases (lookup subject_id lk.ledgers)) [
          | inr (l, n) ↦ rw (f, n, create_ledger) sound
          | inl n ↦ elim (Result-cases (new_ledger start subject_id)) [
            | inr (e, g) ↦ rw (f, n, g, create_ledger) sound
            | inl (l, g) ↦
                rw (f, n, g, create_ledger)
                  (insert-IsSound lk subject_id l sound (new_ledger-IsIndexed start subject_id l g))
          ]
        ]
      ]

  -- Opening the ledgers of a base path gives a locker in which the index of digests of every ledger is
  -- true, whichever entries the path has and whichever ledgers cannot be opened or read to their end.
  pub open_each-IsSound :
      (start : Startup t) (lk : Locker t) (entries : List (String × Bool))
      → IsSound lk
      → IsSound (open_each start lk entries)
  unfolding open_each
  open_each-IsSound start lk [] sound = sound
  open_each-IsSound start lk ((name, false) ∷ rest) sound = open_each-IsSound start lk rest sound
  open_each-IsSound start lk ((subject_id, true) ∷ rest) sound =
      elim (Option-cases (lookup subject_id lk.ledgers)) [
        | inr (l, n) ↦ rw n (open_each-IsSound start lk rest sound)
        | inl n ↦ elim (Result-cases (new_ledger start subject_id)) [
          | inr (e, g) ↦ rw (n, g) (open_each-IsSound start lk rest sound)
          | inl (l, g) ↦
              rw (n, g)
                (open_each-IsSound start (record { ledgers = insert subject_id l lk.ledgers }) rest
                  (insert-IsSound lk subject_id l sound
                    (new_ledger-IsIndexed start subject_id l g)))
        ]
      ]

-- The receipt stands in the log of its subject, under the index that its digest is found under.
pub record IsSealed {t : Tessera} (lk : Locker t) (ref : IngestRef) : Type 0 where
  pub ledger : Ledger t
  pub index : ℕ
  pub kept : get_ledger lk ref.subject_id ≡ some ledger
  pub found : verify_digest ledger (sha256_hex t ref.receipt_bytes) ≡ some index
  pub entry : HasEntry t ledger.log (sha256_hex t ref.receipt_bytes) index

-- If every index of digests is true, then after a message that is acknowledged the log of the subject
-- has an entry with the digest of the message's receipt, and the digest is found under its index.
pub acked-IsSealed :
    {t : Tessera} (s : State t) (ref : IngestRef)
    → IsSound s.locker
    → (handle_message s (ok ref)).1 ≡ acked
    → IsSealed (handle_message s (ok ref)).0.locker ref
unfolding handle_message verify_digest
acked-IsSealed {t} s ref sound h = elim (Result-cases (process_receipt s ref).1) [
  | inr (e, f) ↦ absurd (ground (arith, f))
  | inl (u, f) ↦
      let r = process_receipt-IsRecorded s ref f in
      record {
        ledger = r.ledger;
        index = r.index;
        kept = r.kept;
        found = r.found;
        entry =
            process_receipt-IsSound s ref sound ref.subject_id r.ledger r.kept
              (sha256_hex t ref.receipt_bytes) r.index r.found;
      }
]

pub create_ledger-taken :
    {t : Tessera} (again : Startup t) (lk : Locker t) (subject_id : String) (l : Ledger t)
    (u : Unit {0})
    → validate_subject_id subject_id ≡ ok u
    → get_ledger lk subject_id ≡ some l
    → create_ledger again lk subject_id
      ≡ (lk, err (wrapped (concat "ledger exists: " subject_id) ledger_exists))
unfolding create_ledger get_ledger
create_ledger-taken again lk subject_id l u f n = rw (f, n, create_ledger) refl

-- Creating a ledger succeeds at most once for a subject: after a success, whatever comes to the locker
-- in between, messages and requests of the gateway in any order, there is a ledger of the subject, and
-- every other attempt for the subject fails with ErrLedgerExists and leaves the locker as it is.
pub create_ledger_once :
    {t : Tessera} (w : Receipts) (start again : Startup t) (s : State t) (subject_id : String)
    (l : Ledger t) (between : List (Request t))
    → (create_ledger start s.locker subject_id).1 ≡ ok l
    → let created = (create_ledger start s.locker subject_id).0 in
      let later = (serve_all w (record s { locker = created }) between).locker in
      ((m : Ledger t) × (get_ledger later subject_id ≡ some m))
      × (create_ledger again later subject_id
          ≡ (later, err (wrapped (concat "ledger exists: " subject_id) ledger_exists)))
create_ledger_once w start again s subject_id l between h =
    let created = record s { locker = (create_ledger start s.locker subject_id).0 } in
    let (there, valid) = create_ledger-there start s.locker subject_id l h in
    let (m, kept, more) = serve_all-Grows w created between subject_id l there in
    (
      (m, kept),
      create_ledger-taken again (serve_all w created between).locker subject_id m tt valid kept,
    )
